-- ===== src/Store/Tasks/Lease.antt =====
-- What the lease token allows: Complete, Fail, RenewLease.
use mathlib.Core.Option
use agentpeek.Common.{
  ℕ, ◌==◌, ℤ, pos, ◌≡◌, ◌≢◌, ◌↔◌, ◌∙◌, sym, refl, Option, Option-cases, inl, inr, eqs_iff, eqs_refl,
  lt64, lt64_lem, Bool, true, false, ◌&&◌, ◌||◌, not, none, some, List, [], ◌∷◌, arith,
  if◌then◌else◌, Bytes, eqs, add64, le64,
}
use agentpeek.Store.Db.{TaskRow, TaskState, pending, claimed, finished}
use agentpeek.Store.Exec.{World, ok}
use agentpeek.Store.Tasks.{
  any_row, token_is, holds, lives, moved, extended, transition, complete, fail_task, renew_lease,
}
use agentpeek.Store.Tasks.Rows.{find, find_id, UniqueIds, find-update_where}

any_row-none :
    (id : ℕ) (p : TaskRow → Bool) (rs : List TaskRow)
    → ((r : TaskRow) → (r.id == id) ≡ false → p r ≡ false)
    → find id rs ≡ none
    → any_row p rs ≡ false
unfolding any_row find
any_row-none id p [] k h = refl
any_row-none id p (r ∷ rs) k h = ground (arith, k r, any_row-none id p rs k)

-- A condition on the id alone is met by a row exactly where the row of that id meets it.
any_row-find :
    (id : ℕ) (p : TaskRow → Bool) (rs : List TaskRow)
    → ((r : TaskRow) → (r.id == id) ≡ false → p r ≡ false)
    → UniqueIds rs
    → any_row p rs ≡ elim (find id rs) [ none ↦ false | some r ↦ p r ]
unfolding any_row find
any_row-find id p [] k u = refl
any_row-find id p (r ∷ rs) k u =
    ground (arith, k r, any_row-find id p rs k u.1, any_row-none id p rs k)

holds_id : (id : ℕ) (token : Bytes) (r : TaskRow) → (r.id == id) ≡ false → holds id token r ≡ false
unfolding holds
holds_id id token r h = ground arith

-- The caller holds the task of that id: it is claimed, under this token.
abbrev pub owner : ℕ → Bytes → List TaskRow → Bool
owner id token rs = elim (find id rs) [ none ↦ false | some r ↦ holds id token r ]

-- What a renewal demands of a row: it is claimed, under the token, and its lease ends later than
-- now.
abbrev pub IsLeased : Bytes → ℤ → TaskRow → Type 0
IsLeased token now r =
    (r.state ≡ claimed)
    × (r.lease_token ≡ some token)
    × (end : ℤ) × (r.lease_expires_at ≡ some end)
    × (lt64 now end ≡ true)

-- What Complete demands: a nonempty token, under which the row with the id is claimed.
abbrev pub Held : Bytes → Option TaskRow → Type 0
Held token found =
    (token ≢ [])
    × (r : TaskRow) × (found ≡ some r)
    × (r.state ≡ claimed)
    × (r.lease_token ≡ some token)

-- What a renewal demands of the request and of the row with its id.
abbrev pub Renewable : Bytes → ℤ → ℤ → Option TaskRow → Type 0
Renewable token now lease found =
    (token ≢ [])
    × (lt64 (pos 0) lease ≡ true)
    × (r : TaskRow) × (found ≡ some r)
    × IsLeased token now r

module _ (id : ℕ) (token : Bytes) (w : World) (u : UniqueIds w.db.tasks) where
  transition_lem :
      (state : TaskState) (clear changed : Bool) (j : ℕ) {w' : World}
      → transition id token state clear w ≡ ok changed w'
      → (changed ≡ (not (eqs token []) && owner id token w.db.tasks))
        × (find j w'.db.tasks
            ≡ Option.map
                (λ r. if not (eqs token []) && holds id token r then moved state clear r else r)
                (find j w.db.tasks))
  unfolding transition
  transition_lem state clear changed j h = ground (
    arith,
    any_row-find id (holds id token) w.db.tasks (holds_id id token) u,
    find-update_where (holds id token) (moved state clear) (moved_id state clear) j w.db.tasks,
  )
    where
      moved_id : (state : TaskState) (clear : Bool) (r : TaskRow) → (moved state clear r).id ≡ r.id
      moved_id state true r = refl
      moved_id state false r = refl

  -- What a settled task becomes: the row that the token holds moves, and every other row stays.
  abbrev pub Settled : TaskState → Bool → Bool → World → ℕ → Type 0
  Settled state clear changed w' j =
      (changed ≡ (not (eqs token []) && owner id token w.db.tasks))
      × (find j w'.db.tasks
          ≡ Option.map
              (λ r. if not (eqs token []) && holds id token r then moved state clear r else r)
              (find j w.db.tasks))

  -- Where task ids are unique and Fail answers, it reports success exactly if the task is claimed
  -- under the given token, which is not empty; that task is then pending with no lease if it is to
  -- be requeued, or else done, and every other row is as before.
  pub fail_task_lem :
      (requeue changed : Bool) (j : ℕ) {w' : World}
      → fail_task id token requeue w ≡ ok changed w'
      → Settled (if requeue then pending else finished) requeue changed w' j
  unfolding fail_task
  fail_task_lem true changed j h = transition_lem pending true changed j h
  fail_task_lem false changed j h = transition_lem finished false changed j h

  -- Whether a lease may be renewed: it is held under this token, and has not lapsed.
  abbrev pub renewable : ℤ → ℤ → TaskRow → Bool
  renewable now lease r =
      not (eqs token [] || le64 lease (pos 0)) && (holds id token r && lives now r.lease_expires_at)

  renew_lease_decides :
      (now lease : ℤ) (changed : Bool) (j : ℕ) {w' : World}
      → renew_lease now id token lease w ≡ ok changed w'
      → (changed ≡ elim (find id w.db.tasks) [ none ↦ false | some r ↦ renewable now lease r ])
        × (find j w'.db.tasks
            ≡ Option.map
                (λ r. if renewable now lease r then extended (add64 now lease) r else r)
                (find j w.db.tasks))
  unfolding renew_lease
  renew_lease_decides now lease changed j h =
      let p : TaskRow → Bool = λ r. holds id token r && lives now r.lease_expires_at in
      ground (
        arith,
        any_row-find id p w.db.tasks (λ r e. ground (arith, holds_id id token r)) u,
        find-update_where p (extended (add64 now lease)) (λ r. refl) j w.db.tasks,
      )

  alive-IsLeased :
      (now : ℤ) (r : TaskRow)
      → (holds id token r && lives now r.lease_expires_at) ≡ true
      → IsLeased token now r
  unfolding holds lives token_is
  alive-IsLeased now r h = elim (Option-cases r.lease_expires_at) [
    | inl e ↦ absurd (ground arith)
    | inr (end, e) ↦ elim (Option-cases r.lease_token) [
      | inl n ↦ absurd (ground arith)
      | inr (t, n) ↦ (ground arith, ground (arith, eqs_iff t token), end, e, ground arith)
    ]
  ]

  IsLeased-alive :
      (now : ℤ) (r : TaskRow)
      → r.id ≡ id
      → IsLeased token now r
      → (holds id token r && lives now r.lease_expires_at) ≡ true
  unfolding holds lives token_is
  IsLeased-alive now r i (s, t, end, e, l) = ground (arith, eqs_refl token)

  renewable-Renewable :
      (now lease : ℤ) (found : Option TaskRow)
      → ((r : TaskRow) → found ≡ some r → r.id ≡ id)
      → (elim found [ none ↦ false | some r ↦ renewable now lease r ] ≡ true)
        ↔ Renewable token now lease found
  renewable-Renewable now lease none i =
      (λ h. absurd (ground arith), λ (t, l, r, e, h). absurd (ground arith))
  renewable-Renewable now lease (some r) i = (
    λ h. (
      ground (arith, eqs_iff token []),
      ground (arith, lt64_lem (pos 0) lease),
      r,
      refl,
      alive-IsLeased now r (ground arith),
    ),
    λ (t, l, r', e, h).
        let b = IsLeased-alive now r' (i r' e) h in
        ground (arith, eqs_iff token [], lt64_lem (pos 0) lease),
  )

  -- Where task ids are unique and RenewLease answers, it reports success exactly if the token is
  -- not empty, the length is positive, and the task with that id is claimed under that token with a
  -- lease that ends later than now; the end of that lease is then now plus the length, and every
  -- other row, and without success that one too, is as before.
  pub renew_lease_lem :
      (now lease : ℤ) (changed : Bool) (j : ℕ) {w' : World}
      → renew_lease now id token lease w ≡ ok changed w'
      → ((changed ≡ true) ↔ Renewable token now lease (find id w.db.tasks))
        × (find j w'.db.tasks ≡ (
            if changed && (id == j)
            then Option.map {A = TaskRow} {B = TaskRow}
                (λ r. record r { lease_expires_at = some (add64 now lease) })
                (find j w.db.tasks)
            else find j w.db.tasks))
  renew_lease_lem now lease changed j h =
      let (decided, row) = renew_lease_decides now lease changed j h in
      let same = renewable-Renewable now lease (find id w.db.tasks) (find_id id w.db.tasks) in
      (
        (λ c. same.0 (sym decided ∙ c), λ c. decided ∙ same.1 c),
        row ∙ renewed now lease changed j decided,
      )
    where
      renewed :
          (now lease : ℤ) (changed : Bool) (j : ℕ)
          → changed ≡ elim (find id w.db.tasks) [ none ↦ false | some r ↦ renewable now lease r ]
          → Option.map
              (λ r. if renewable now lease r then extended (add64 now lease) r else r)
              (find j w.db.tasks)
            ≡ (if changed && (id == j)
                then Option.map {A = TaskRow} {B = TaskRow}
                    (λ r. record r { lease_expires_at = some (add64 now lease) })
                    (find j w.db.tasks)
                else find j w.db.tasks)
      renewed now lease changed j d = elim (Option-cases (find j w.db.tasks)) [
        | inl n ↦ ground arith
        | inr (r, e) ↦ ground (arith, find_id j w.db.tasks r e, holds_id id token r)
      ]

  held_row :
      (r : TaskRow) → holds id token r ≡ true → (r.state ≡ claimed) × (r.lease_token ≡ some token)
  unfolding holds token_is
  held_row r h = elim (Option-cases r.lease_token) [
    | inl n ↦ absurd (ground arith)
    | inr (t, n) ↦ (ground arith, ground (arith, eqs_iff t token))
  ]

  row_held :
      (r : TaskRow)
      → r.id ≡ id
      → r.state ≡ claimed
      → r.lease_token ≡ some token
      → holds id token r ≡ true
  unfolding holds token_is
  row_held r i s t = ground (arith, eqs_refl token)

  owner-Held :
      (found : Option TaskRow)
      → ((r : TaskRow) → found ≡ some r → r.id ≡ id)
      → ((not (eqs token []) && elim found [ none ↦ false | some r ↦ holds id token r ]) ≡ true)
        ↔ Held token found
  owner-Held none i = (λ h. absurd (ground arith), λ (t, r, e, s, l). absurd (ground arith))
  owner-Held (some r) i = (
    λ h. (
      ground (arith, eqs_iff token []),
      r,
      refl,
      (held_row r (ground arith)).0,
      (held_row r (ground arith)).1,
    ),
    λ (t, r', e, s, l). let b = row_held r' (i r' e) s l in ground (arith, eqs_iff token []),
  )

  -- Where task ids are unique and Complete answers, it reports success exactly if the token is not
  -- empty and the task with that id is claimed under it, whether its lease has lapsed or not; that
  -- task is then done, and every other row, and without success that one too, is as before.
  pub complete_lem :
      (changed : Bool) (j : ℕ) {w' : World}
      → complete id token w ≡ ok changed w'
      → ((changed ≡ true) ↔ Held token (find id w.db.tasks))
        × (find j w'.db.tasks ≡ (
            if changed && (id == j)
            then Option.map {A = TaskRow} {B = TaskRow}
                (λ r. record r { state = finished })
                (find j w.db.tasks)
            else find j w.db.tasks))
  unfolding complete
  complete_lem changed j h =
      let (decided, row) = transition_lem finished false changed j h in
      let same = owner-Held (find id w.db.tasks) (find_id id w.db.tasks) in
      (
        (λ c. same.0 (sym decided ∙ c), λ c. decided ∙ same.1 c),
        row ∙ elim (Option-cases (find j w.db.tasks)) [
          | inl n ↦ ground arith
          | inr (r, e) ↦ ground (arith, find_id j w.db.tasks r e, holds_id id token r)
        ],
      )
