-- ===== src/Store/Locks/Many/Batch.antt =====
-- What the closure of LockMany does, phase by phase.
use mathlib.Core.Option
use agentpeek.Common.{
  ℤ, ◌≡◌, ◌≢◌, refl, ◌⊎◌, inl, inr, true, false, Option, none, some, List, [], ◌∷◌, arith, Bytes,
  eqs_iff, lt64_lem,
}
use agentpeek.Sql.Table.{select, pass, upsert, select-upsert, Unique, upsert-Unique}
use agentpeek.Store.Db.{Db, Error, LockRow, invalid_ttl, abort_batch}
use agentpeek.Store.Random.{new_token}
use agentpeek.Store.Exec.{
  World, ok, err, bind_ok, exec_ok, query_ok, query, bind_err, query_err, exec_err, from_driver,
  exec,
}
use agentpeek.Store.Locks.{set_locks, new_row}
use agentpeek.Store.Locks.Holder.{Locks, holder, is_live}
use agentpeek.Store.Locks.Many.{check_row, check_free, acquire_all, aborted, batch}
use agentpeek.Store.Locks.Many.Names.{contains}

-- The live holder of the first of the names that is held.
unfoldable pub blocker : ℤ → Locks → List Bytes → Option Bytes
blocker now locks [] = none
blocker now locks (n ∷ ns) = elim (holder now n locks) [
  | none ↦ blocker now locks ns
  | some row ↦ some row.agent_id
]

-- What phase 1 makes of one row.
check_row_ok :
    (now : ℤ) (o : Option LockRow) (w : World) {w' : World}
    → check_row now o w ≡ ok tt w'
    → (w' ≡ w) × (pass (is_live now) o ≡ none)
unfolding check_row
check_row_ok now none w h = ground arith
check_row_ok now (some row) w h = ground (arith, lt64_lem now row.expires_at)

check_row_err :
    (now : ℤ) (o : Option LockRow) (w : World) (e : Error) {w' : World}
    → check_row now o w ≡ err e w'
    → (row : LockRow) × (pass (is_live now) o ≡ some row) × (aborted e ≡ some row.agent_id)
unfolding check_row
check_row_err now none w e h = cc
check_row_err now (some row) w e h =
    (row, ground (arith, lt64_lem now row.expires_at), ground arith)

check_free_ok :
    (now : ℤ) (ns : List Bytes) (w : World) {w' : World}
    → check_free now ns w ≡ ok tt w'
    → (w'.db ≡ w.db) × (blocker now w.db.locks ns ≡ none)
unfolding check_free blocker
check_free_ok now [] w h = ground arith
check_free_ok now (n ∷ ns) w {w'} h =
    let (found, w₁, q, rest) = bind_ok (query (λ d. select n d.locks)) _ w h in
    let (u, w₂, c, tail) = bind_ok (check_row now found) _ w₁ rest in
    let row = check_row_ok now found w₁ c in
    let ih = check_free_ok now ns w₂ tail in ground (arith, query_ok (λ d. select n d.locks) w q)

check_free_err :
    (now : ℤ) (ns : List Bytes) (w : World) (e : Error) {w' : World}
    → check_free now ns w ≡ err e w'
    → (from_driver e ≡ true) ⊎ (blocker now w.db.locks ns ≡ aborted e)
unfolding check_free blocker
check_free_err now [] w e h = cc
check_free_err now (n ∷ ns) w e {w'} h = elim (bind_err (query (λ d. select n d.locks)) _ w h) [
  | inl q ↦ inl (query_err (λ d. select n d.locks) w q)
  | inr (found, w₁, q, rest) ↦
      let found_row = query_ok (λ d. select n d.locks) w q in
      elim (bind_err (check_row now found) _ w₁ rest) [
        | inl c ↦ let row = check_row_err now found w₁ e c in inr (ground arith)
        | inr (u, w₂, c, tail) ↦
            let row = check_row_ok now found w₁ c in
            let ih = check_free_err now ns w₂ e tail in ground arith
      ]
]

new_token_err : (w : World) (e : Error) {w' : World} → new_token w ≡ err e w' → aborted e ≡ none
unfolding new_token
new_token_err w e h = ground arith

driver-not_aborted : (e : Error) → from_driver e ≡ true → aborted e ≡ none
driver-not_aborted invalid_ttl h = refl
driver-not_aborted (abort_batch b) h = cc
driver-not_aborted _ h = refl

acquire_all_err :
    (now : ℤ) (agent_id : Bytes) (ttl : ℤ) (ns : List Bytes) (result : List (Bytes × Bytes))
    (w : World) (e : Error) {w' : World}
    → acquire_all now agent_id ttl ns result w ≡ err e w'
    → aborted e ≡ none
unfolding acquire_all
acquire_all_err now agent_id ttl [] result w e h = cc
acquire_all_err now agent_id ttl (n ∷ ns) result w e h = elim (bind_err new_token _ w h) [
  | inl q ↦ new_token_err w e q
  | inr (tok, w₁, q, rest) ↦
      let f : Db → Db = set_locks (upsert n (new_row now agent_id ttl tok)) in
      elim (bind_err (exec f) _ w₁ rest) [
        | inl c ↦ driver-not_aborted e (exec_err f w₁ c)
        | inr (u, w₂, c, tail) ↦ acquire_all_err now agent_id ttl ns (upsert n tok result) w₂ e tail
      ]
]

new_token_ok : (w : World) {t : Bytes} {w' : World} → new_token w ≡ ok t w' → w'.db ≡ w.db
unfolding new_token
new_token_ok w h = ground arith

-- What phase 2 leaves in the table and in the map of tokens: a name of the batch has a new row with
-- the token that the map holds, and any other name is as it was in both.
abbrev pub Filled :
    ℤ
    → Bytes
    → ℤ
    → List Bytes
    → List (Bytes × Bytes)
    → Db
    → List (Bytes × Bytes)
    → Db
    → Bytes
    → Type 0
Filled now agent_id ttl ns result d tokens d' j =
    (contains j ns ≡ true
      → (select j d'.locks ≡ Option.map (new_row now agent_id ttl) (select j tokens))
        × (select j tokens ≢ none))
    × (contains j ns ≡ false
        → (select j d'.locks ≡ select j d.locks) × (select j tokens ≡ select j result))

acquire_all_ok :
    (now : ℤ) (agent_id : Bytes) (ttl : ℤ) (ns : List Bytes) (result : List (Bytes × Bytes))
    (w : World) (tokens : List (Bytes × Bytes)) {w' : World} (j : Bytes)
    → acquire_all now agent_id ttl ns result w ≡ ok tokens w'
    → Filled now agent_id ttl ns result w.db tokens w'.db j
unfolding acquire_all contains
acquire_all_ok now agent_id ttl [] result w tokens j h = ground arith
acquire_all_ok now agent_id ttl (n ∷ ns) result w tokens {w'} j h =
    let (tok, w₁, q, rest) = bind_ok new_token _ w h in
    let row = new_row now agent_id ttl tok in
    let f : Db → Db = set_locks (upsert n row) in
    let (u, w₂, c, tail) = bind_ok (exec f) _ w₁ rest in
    let ih = acquire_all_ok now agent_id ttl ns (upsert n tok result) w₂ tokens j tail in
    ground (
      arith,
      new_token_ok w q,
      exec_ok f w₁ c,
      select-upsert n j row w.db.locks,
      select-upsert n j tok result,
      eqs_iff n j,
    )

pub batch_ok :
    (now : ℤ) (agent_id : Bytes) (ttl : ℤ) (ns : List Bytes) (w : World)
    (tokens : List (Bytes × Bytes)) {w' : World} (j : Bytes)
    → batch now agent_id ttl ns w ≡ ok tokens w'
    → (blocker now w.db.locks ns ≡ none) × Filled now agent_id ttl ns [] w.db tokens w'.db j
unfolding batch
batch_ok now agent_id ttl ns w tokens j h =
    let (u, w₁, c, rest) = bind_ok (check_free now ns) _ w h in
    let free = check_free_ok now ns w c in
    let filled = acquire_all_ok now agent_id ttl ns [] w₁ tokens j rest in
    (free.1, rw (← free.0) filled)

pub batch_err :
    (now : ℤ) (agent_id : Bytes) (ttl : ℤ) (ns : List Bytes) (w : World) (e : Error) {w' : World}
    → batch now agent_id ttl ns w ≡ err e w'
    → (aborted e ≡ none) ⊎ (blocker now w.db.locks ns ≡ aborted e)
unfolding batch
batch_err now agent_id ttl ns w e h = elim (bind_err (check_free now ns) _ w h) [
  | inl q ↦ elim (check_free_err now ns w e q) [
    | inl d ↦ inl (driver-not_aborted e d)
    | inr b ↦ inr b
  ]
  | inr (u, w₁, q, rest) ↦ inl (acquire_all_err now agent_id ttl ns [] w₁ e rest)
]

-- A name that is held is found.
pub blocker-none :
    (now : ℤ) (locks : Locks) (ns : List Bytes) (j : Bytes)
    → blocker now locks ns ≡ none
    → contains j ns ≡ true
    → holder now j locks ≡ none
unfolding blocker contains
blocker-none now locks [] j h c = cc
blocker-none now locks (n ∷ ns) j h c = ground (arith, eqs_iff n j, blocker-none now locks ns j)

acquire_all-Unique :
    (now : ℤ) (agent_id : Bytes) (ttl : ℤ) (ns : List Bytes) (result : List (Bytes × Bytes))
    (w : World) (tokens : List (Bytes × Bytes)) {w' : World}
    → Unique w.db.locks
    → acquire_all now agent_id ttl ns result w ≡ ok tokens w'
    → Unique w'.db.locks
unfolding acquire_all
acquire_all-Unique now agent_id ttl [] result w tokens u h = ground arith
acquire_all-Unique now agent_id ttl (n ∷ ns) result w tokens u h =
    let (tok, w₁, q, rest) = bind_ok new_token _ w h in
    let row = new_row now agent_id ttl tok in
    let f : Db → Db = set_locks (upsert n row) in
    let (_, w₂, c, tail) = bind_ok (exec f) _ w₁ rest in
    let same : w₂.db ≡ f w.db = ground (arith, new_token_ok w q, exec_ok f w₁ c) in
    acquire_all-Unique now agent_id ttl ns (upsert n tok result) w₂ tokens
      (rw same (upsert-Unique n row w.db.locks u)) tail

pub batch-Unique :
    (now : ℤ) (agent_id : Bytes) (ttl : ℤ) (ns : List Bytes) (w : World)
    (tokens : List (Bytes × Bytes)) {w' : World}
    → Unique w.db.locks
    → batch now agent_id ttl ns w ≡ ok tokens w'
    → Unique w'.db.locks
unfolding batch
batch-Unique now agent_id ttl ns w tokens u h =
    let (_, w₁, c, rest) = bind_ok (check_free now ns) _ w h in
    let free = check_free_ok now ns w c in
    acquire_all-Unique now agent_id ttl ns [] w₁ tokens (rw (free.0) u) rest
