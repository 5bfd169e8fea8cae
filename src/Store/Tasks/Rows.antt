-- ===== src/Store/Tasks/Rows.antt =====
-- The rows of `tasks` by their ids, and the row that ClaimNext selects.
use agentpeek.Common.{
  ℕ, ◌==◌, ◌≡◌, ◌⊎◌, ◌≤◌, refl, Bool, true, false, ◌&&◌, Option, none, some, List, [], ◌∷◌, ◌++◌,
  All, All-map, arith, Option-cases, Bool-cases, subst, inl, inr, if◌then◌else◌, Bytes, lt64,
  lt64_antisym,
}
use agentpeek.Store.Db.{TaskRow}
use agentpeek.Store.Tasks.{update_where, before, better, first_pending, waits_in}

unfoldable pub find : ℕ → List TaskRow → Option TaskRow
find id [] = none
find id (r ∷ rs) = if r.id == id then some r else find id rs

-- PRIMARY KEY
abbrev pub UniqueIds : List TaskRow → Type 0
UniqueIds [] = Unit
UniqueIds (r ∷ rs) = (find r.id rs ≡ none) × UniqueIds rs

-- An update that leaves ids alone, row by row.
abbrev pub KeepsId : (TaskRow → TaskRow) → Type 0
KeepsId f = (r : TaskRow) → (f r).id ≡ r.id

module _ (p : TaskRow → Bool) (f : TaskRow → TaskRow) (k : KeepsId f) where
  pub find-update_where :
      (id : ℕ) (rs : List TaskRow)
      → find id (update_where p f rs)
        ≡ elim (find id rs) [ none ↦ none | some r ↦ some (if p r then f r else r) ]
  unfolding find update_where
  find-update_where id [] = refl
  find-update_where id (r ∷ rs) = ground (arith, k r, find-update_where id rs)

  pub update_where-UniqueIds : (rs : List TaskRow) → UniqueIds rs → UniqueIds (update_where p f rs)
  unfolding update_where
  update_where-UniqueIds [] u = tt
  update_where-UniqueIds (r ∷ rs) u =
      ground (arith, k r, find-update_where r.id rs, update_where-UniqueIds rs u.1)

pub find_id : (id : ℕ) (rs : List TaskRow) (r : TaskRow) → find id rs ≡ some r → r.id ≡ id
unfolding find
find_id id [] r h = cc
find_id id (x ∷ xs) r h = ground (arith, find_id id xs r)

-- An update by id reaches that row alone, and only if it passes the rest of the condition.
pub find-update_one :
    (i : ℕ) (q : TaskRow → Bool) (f : TaskRow → TaskRow) (k : KeepsId f) (id : ℕ)
    (rs : List TaskRow)
    → find id (update_where (λ s. (s.id == i) && q s) f rs)
      ≡ elim (find id rs) [ none ↦ none | some s ↦ if (i == id) && q s then some (f s) else some s ]
find-update_one i q f k id rs =
    let law = find-update_where (λ s. (s.id == i) && q s) f k id rs in
    elim (Option-cases (find id rs)) [
      | inl n ↦ ground (arith, law)
      | inr (s, e) ↦ ground (arith, law, find_id id rs s)
    ]

pub find-append :
    (id : ℕ) (rs : List TaskRow) (s : TaskRow)
    → find id (rs ++ s ∷ [])
      ≡ elim (find id rs) [ none ↦ if s.id == id then some s else none | some r ↦ some r ]
unfolding find
find-append id [] s = refl
find-append id (r ∷ rs) s = ground (arith, find-append id rs s)

pub before_total : (r s : TaskRow) → before r s ≡ false → before s r ≡ true
unfolding before lt64
before_total r s h = ground arith

pub before_trans : (r s t : TaskRow) → before r s ≡ true → before s t ≡ true → before r t ≡ true
unfolding before lt64
before_trans r s t h k = ground arith

pub before_refl : (r : TaskRow) → before r r ≡ true
unfolding before lt64
before_refl r = ground arith

-- The order in which tasks are claimed: by falling priority, and then by rising id.
abbrev pub Precedes : TaskRow → TaskRow → Type 0
Precedes r s = (lt64 s.priority r.priority ≡ true) ⊎ ((s.priority ≡ r.priority) × (r.id ≤ s.id))

pub before-Precedes : (r s : TaskRow) → before r s ≡ true → Precedes r s
unfolding before
before-Precedes r s h = ground (arith, lt64_antisym r.priority s.priority)

-- A queue from which nothing can be selected has no pending task.
pub first_pending-none :
    (queue : Bytes) (rs : List TaskRow)
    → first_pending queue rs ≡ none
    → All (λ r. waits_in queue r ≡ false) rs
unfolding first_pending
first_pending-none queue [] h = tt
first_pending-none queue (r ∷ rs) h = ground (arith, first_pending-none queue rs)

abbrev IsFirst : Bytes → TaskRow → TaskRow → Type 0
IsFirst queue r s = waits_in queue s ≡ true → before r s ≡ true

-- The row that ClaimNext selects is pending in the queue, and no pending row of the queue has a
-- higher priority, or the same and a smaller id.
pub first_pending-some :
    (queue : Bytes) (rs : List TaskRow) (r : TaskRow)
    → UniqueIds rs
    → first_pending queue rs ≡ some r
    → (waits_in queue r ≡ true)
      × (find r.id rs ≡ some r)
      × All (λ s. waits_in queue s ≡ true → before r s ≡ true) rs
unfolding first_pending better find
first_pending-some queue [] r u h = cc
first_pending-some queue (x ∷ xs) r u h = elim (Option-cases (first_pending queue xs)) [
  | inl n ↦
      let vacuous =
        All-map (λ s. waits_in queue s ≡ false) (IsFirst queue x) xs (λ s f t. ground arith)
          (first_pending-none queue xs n) in
      let e : x ≡ r = ground arith in
      (ground arith, ground arith, subst Firsts e (λ t. before_refl x, vacuous))
  | inr (y, e) ↦
      let (wy, fy, ay) = first_pending-some queue xs y u.1 e in
      elim (Bool-cases (waits_in queue x && before x y)) [
        | inl first ↦
            let bxy : before x y ≡ true = ground arith in
            let all =
              All-map (IsFirst queue y) (IsFirst queue x) xs (λ s b t. before_trans x y s bxy (b t))
                ay in
            let e' : x ≡ r = ground arith in
            (ground arith, ground arith, subst Firsts e' (λ t. before_refl x, all))
        | inr later ↦
            let e' : y ≡ r = ground arith in
            (
              ground arith,
              ground arith,
              subst Firsts e' (λ t. ground (arith, before_total x y), ay),
            )
      ]
]
  where
    Firsts : TaskRow → Type 0
    Firsts s = All (IsFirst queue s) (x ∷ xs)
