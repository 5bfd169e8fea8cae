-- ===== src/Store/Exec.antt =====
-- Actions on the database, each of which may fail: statements through database/sql, and
-- `Store.tx` of internal/store/db.go.
use agentpeek.Common.{
  ℕ, Bool, true, false, Option-cases, suc, ◌≡◌, refl, Option, none, some, ◌⊎◌, inl, inr, arith,
  Bytes,
}
use agentpeek.Store.Db.{Db, Error, begin_tx, commit_tx, sql}

-- What a read of crypto/rand gives: bytes, or the text of an error.
pub data Random : Type 0 where
  bytes : Bytes → Random
  no_entropy : Bytes → Random

-- The database, with what its environment does. `fault n` is the text of the error that the driver
-- gives to its n-th operation (begin, a statement, or commit), if it fails; `entropy n` is what the n-th
-- read of crypto/rand gives. `ops` and `draws` count both.
pub record World : Type 0 where
  pub db : Db
  pub fault : ℕ → Option Bytes
  pub ops : ℕ
  pub entropy : ℕ → Random
  pub draws : ℕ

-- What an action returns, and the world that it leaves.
pub data Out {ℓ} (A : Type ℓ) : Type ℓ where
  ok : A → World → Out A
  err : Error → World → Out A

abbrev pub M : Type 0 → Type 0
M A = World → Out A

abbrev pub pure : {A : Type 0} → A → M A
pure a w = ok a w

abbrev pub fail : {A : Type 0} → Error → M A
fail e w = err e w

infixl 5 ◌>>=◌ ◌>>◌
abbrev pub ◌>>=◌ : {A B : Type 0} → M A → (A → M B) → M B
◌>>=◌ m f w = elim (m w) [ ok a w' ↦ f a w' | err e w' ↦ err e w' ]

abbrev pub ◌>>◌ : {A B : Type 0} → M A → M B → M B
m >> k = m >>= λ _. k

-- The driver's answer to its next operation.
abbrev pub driver : M (Unit {0})
driver w = elim (w.fault w.ops) [
  | none ↦ ok tt (record w { ops = suc w.ops })
  | some e ↦ err (sql e) (record w { ops = suc w.ops })
]

-- A statement that reads.
abbrev pub query : {A : Type 0} → (Db → A) → M A
query f = do driver; λ w. ok (f w.db) w

-- A statement that writes.
abbrev pub exec : (Db → Db) → M (Unit {0})
exec f = do driver; λ w. ok tt (record w { db = f w.db })

-- fmt.Errorf("...: %w", err)
abbrev pub wrapping : {A : Type 0} → (Error → Error) → M A → M A
wrapping wrap m w = elim (m w) [ ok a w' ↦ ok a w' | err e w' ↦ err (wrap e) w' ]

-- `err` after t.Rollback(): the database is again what it was at the beginning.
abbrev pub rolled_back : {A : Type 0} → Db → Out A → Out A
rolled_back d (ok a w) = ok a w
rolled_back d (err e w) = err e (record w { db = d })

-- func (s *Store) tx(fn func(*sql.Tx) error) error
unfoldable pub tx : {A : Type 0} → M A → M A
tx fn w =
    rolled_back w.db ((do wrapping begin_tx driver; a ← fn; wrapping commit_tx driver; pure a) w)

-- A transaction that fails leaves the database as it was.
pub tx_atomic :
    {A : Type 0} (fn : M A) (w : World) {e : Error} {w' : World} → tx fn w ≡ err e w' → w'.db ≡ w.db
unfolding tx
tx_atomic fn w h = ground arith

-- The driver refuses nothing from here on.
abbrev pub Quiet : World → Type 0
Quiet w = (n : ℕ) → w.fault n ≡ none

-- The action has answered, and not with an error.
abbrev pub Answers {ℓ} : {A : Type ℓ} → Out A → Type 0
Answers (ok a w) = Unit
Answers (err e w) = ⊥

-- The answers to a transaction of up to two statements.
pub quiet4 :
    (w : World)
    → Quiet w
    → (w.fault w.ops ≡ none)
      × (w.fault (suc w.ops) ≡ none)
      × (w.fault (suc (suc w.ops)) ≡ none)
      × (w.fault (suc (suc (suc w.ops))) ≡ none)
quiet4 w q = (q _, q _, q _, q _)

-- Inversion of an action that answered, for proofs that keep its parts shut.
pub bind_ok :
    {A B : Type 0} (m : M A) (f : A → M B) (w : World) {b : B} {w' : World}
    → (m >>= f) w ≡ ok b w'
    → (a : A) × (w₁ : World) × (m w ≡ ok a w₁) × (f a w₁ ≡ ok b w')
bind_ok {A} {B} m f w {b} {w'} h = split (m w) refl h
  where
    split :
        (o : Out A)
        → m w ≡ o
        → elim o [ ok a w₁ ↦ f a w₁ | err e w₁ ↦ err e w₁ ] ≡ ok b w'
        → (a : A) × (w₁ : World) × (m w ≡ ok a w₁) × (f a w₁ ≡ ok b w')
    split (ok a w₁) e h = (a, w₁, e, h)
    split (err x w₁) e h = cc

pub query_ok :
    {A : Type 0} (f : Db → A) (w : World) {a : A} {w' : World}
    → query f w ≡ ok a w'
    → (a ≡ f w.db) × (w'.db ≡ w.db)
query_ok f w h = ground arith

pub exec_ok : (f : Db → Db) (w : World) {w' : World} → exec f w ≡ ok tt w' → w'.db ≡ f w.db
exec_ok f w h = ground arith

-- A transaction that answers has run its body to the end, and kept what that wrote.
pub tx_ok :
    {A : Type 0} (fn : M A) (w : World) {a : A} {w' : World}
    → tx fn w ≡ ok a w'
    → (w₁ w₂ : World) × (w₁.db ≡ w.db) × (fn w₁ ≡ ok a w₂) × (w'.db ≡ w₂.db)
unfolding tx
tx_ok {A} fn w {a} {w'} h = split (fn begun) refl
  where
    begun : World
    begun = record w { ops = suc w.ops }

    split :
        (o : Out A)
        → fn begun ≡ o
        → (w₁ w₂ : World) × (w₁.db ≡ w.db) × (fn w₁ ≡ ok a w₂) × (w'.db ≡ w₂.db)
    split (ok b w₂) e = (begun, w₂, refl, ground arith, ground arith)
    split (err x w₂) e = absurd (ground arith)

-- Inversion of an action that failed: its first part did, or the rest.
pub bind_err :
    {A B : Type 0} (m : M A) (f : A → M B) (w : World) {e : Error} {w' : World}
    → (m >>= f) w ≡ err e w'
    → (m w ≡ err e w') ⊎ ((a : A) × (w₁ : World) × (m w ≡ ok a w₁) × (f a w₁ ≡ err e w'))
bind_err {A} {B} m f w {e} {w'} h = split (m w) refl h
  where
    split :
        (o : Out A)
        → m w ≡ o
        → elim o [ ok a w₁ ↦ f a w₁ | err e w₁ ↦ err e w₁ ] ≡ err e w'
        → (m w ≡ err e w') ⊎ ((a : A) × (w₁ : World) × (m w ≡ ok a w₁) × (f a w₁ ≡ err e w'))
    split (ok a w₁) p q = inr (a, w₁, p, q)
    split (err x w₁) p q = inl (ground arith)

-- The errors of the driver itself.
abbrev pub from_driver : Error → Bool
from_driver (sql e) = true
from_driver (begin_tx e) = true
from_driver (commit_tx e) = true
from_driver _ = false

pub query_err :
    {A : Type 0} (f : Db → A) (w : World) {e : Error} {w' : World}
    → query f w ≡ err e w'
    → from_driver e ≡ true
query_err f w h = ground arith

pub exec_err :
    (f : Db → Db) (w : World) {e : Error} {w' : World} → exec f w ≡ err e w' → from_driver e ≡ true
exec_err f w h = ground arith

-- A transaction that fails does so by an error of its body, or by one of the driver.
pub tx_err :
    {A : Type 0} (fn : M A) (w : World) {e : Error} {w' : World}
    → tx fn w ≡ err e w'
    → (from_driver e ≡ true) ⊎ ((w₁ w₂ : World) × (w₁.db ≡ w.db) × (fn w₁ ≡ err e w₂))
unfolding tx
tx_err {A} fn w {e} {w'} h = split (fn begun) refl
  where
    begun : World
    begun = record w { ops = suc w.ops }

    split :
        (o : Out A)
        → fn begun ≡ o
        → (from_driver e ≡ true) ⊎ ((w₁ w₂ : World) × (w₁.db ≡ w.db) × (fn w₁ ≡ err e w₂))
    split (ok b w₂) p = inl (ground arith)
    split (err x w₂) p = elim (Option-cases (w.fault w.ops)) [
      | inl q ↦ inr (begun, w₂, refl, ground arith)
      | inr (m, q) ↦ inl (ground arith)
    ]
