-- ===== src/Store/Tasks/Keyed.antt =====
-- The calls on tasks keep the keys of every table.
use agentpeek.Common.{
  ℕ, suc, ◌==◌, ℤ, ◌≡◌, refl, Bool, true, false, ◌&&◌, Option, none, some, List, [], ◌∷◌, ◌++◌,
  All-map, All-append, arith, Bytes, eqs,
}
use agentpeek.Store.Db.{Db, TaskRow, TaskState, pending, finished}
use agentpeek.Store.Exec.{query, exec}
use agentpeek.Store.Tasks.{
  same_state, exec_changed, reap_tasks, new_task, push, claim_row, claim_next, leased, moved,
  transition, complete, fail_task, holds,
}
use agentpeek.Store.Tasks.Rows.{find, UniqueIds, KeepsId, find-append}
use agentpeek.Store.Tasks.Listing.{list_tasks}
use agentpeek.Store.Keyed.{
  UpTo, IsKeyed, Keeps, pure-Keeps, bind-Keeps, query-Keeps, read-Keeps, write-Keeps, exec-Keeps,
  new_token-Keeps, tx-Keeps, if-Keeps, set_tasks-Keyed,
}

pub exec_changed-Keeps :
    (p : TaskRow → Bool) (f : TaskRow → TaskRow) → KeepsId f → Keeps (exec_changed p f)
exec_changed-Keeps p f i =
    bind-Keeps (query _) _ (query-Keeps _)
      (λ changed. write-Keeps changed _ (set_tasks-Keyed p f i))

moved-KeepsId : (state : TaskState) (clear : Bool) → KeepsId (moved state clear)
moved-KeepsId state true r = refl
moved-KeepsId state false r = refl

pub transition-Keeps :
    (id : ℕ) (token : Bytes) (state : TaskState) (clear : Bool)
    → Keeps (transition id token state clear)
unfolding transition
transition-Keeps id token state clear = if-Keeps (eqs token []) _ _ (pure-Keeps false) (
    tx-Keeps _
      (exec_changed-Keeps (holds id token) (moved state clear) (moved-KeepsId state clear)))

pub complete-Keeps : (id : ℕ) (token : Bytes) → Keeps (complete id token)
unfolding complete
complete-Keeps id token = transition-Keeps id token finished false

pub fail_task-Keeps : (id : ℕ) (token : Bytes) (requeue : Bool) → Keeps (fail_task id token requeue)
unfolding fail_task
fail_task-Keeps id token requeue =
    if-Keeps requeue _ _ (transition-Keeps id token pending true)
      (transition-Keeps id token finished false)

pub reap_tasks-Keeps : (now : ℤ) → Keeps (reap_tasks now)
unfolding reap_tasks
reap_tasks-Keeps now = tx-Keeps _ (exec-Keeps _ (λ d k. set_tasks-Keyed _ _ (λ r. refl) d k))

claim_row-Keeps :
    (now : ℤ) (queue agent_id : Bytes) (lease : ℤ) (token : Bytes) (found : Option TaskRow)
    → Keeps (claim_row now queue agent_id lease token found)
unfolding claim_row
claim_row-Keeps now queue agent_id lease token none = pure-Keeps none
claim_row-Keeps now queue agent_id lease token (some r) =
    bind-Keeps (exec _) _
      (exec-Keeps _ (
        set_tasks-Keyed (λ s. (s.id == r.id) && same_state s.state pending)
          (leased now agent_id lease token) (λ s. refl)))
      (λ u. pure-Keeps _)

pub claim_next-Keeps :
    (now : ℤ) (queue agent_id : Bytes) (lease : ℤ) → Keeps (claim_next now queue agent_id lease)
unfolding claim_next
claim_next-Keeps now queue agent_id lease = bind-Keeps _ _ new_token-Keeps (λ token. tx-Keeps _ (
    bind-Keeps (query _) _ (query-Keeps _)
      (λ found. claim_row-Keeps now queue agent_id _ token found)))

pub list_tasks-Keeps : (now : ℤ) (queue : Bytes) → Keeps (list_tasks now queue)
unfolding list_tasks
list_tasks-Keeps now queue = bind-Keeps (query _) _ (query-Keeps _) (λ rows. pure-Keeps _)

UpTo-more : (last : ℕ) (rs : List TaskRow) → UpTo last rs → UpTo (suc last) rs
UpTo-more last rs h = All-map _ _ rs (λ r le. omega arith) h

find-UpTo : (last : ℕ) (rs : List TaskRow) → UpTo last rs → find (suc last) rs ≡ none
unfolding find
find-UpTo last [] h = refl
find-UpTo last (r ∷ rs) h = ground (arith, h.0, find-UpTo last rs h.1)

append-UniqueIds :
    (rs : List TaskRow) (r : TaskRow)
    → UniqueIds rs
    → find r.id rs ≡ none
    → UniqueIds (rs ++ r ∷ [])
unfolding find
append-UniqueIds [] r u h = (refl, tt)
append-UniqueIds (s ∷ rs) r u h =
    (ground (arith, find-append s.id rs r), append-UniqueIds rs r u.1 (ground arith))

push_db :
    (now : ℤ) (queue payload author : Bytes) (priority : ℤ) (d : Db)
    → IsKeyed d
    → IsKeyed (record d {
      tasks = d.tasks ++ new_task now queue payload author priority (suc d.last_task_id) ∷ [];
      last_task_id = suc d.last_task_id;
    })
push_db now queue payload author priority d k =
    let last = d.last_task_id in
    let row = new_task now queue payload author priority (suc last) in
    record {
      locks = k.locks;
      notes = k.notes;
      counters = k.counters;
      agents = k.agents;
      events = k.events;
      tasks = append-UniqueIds d.tasks row k.tasks (find-UpTo last d.tasks k.ids);
      ids = All-append _ d.tasks (row ∷ []) (UpTo-more last d.tasks k.ids) (omega arith, tt);
    }

pub push-Keeps :
    (now : ℤ) (queue payload author : Bytes) (priority : ℤ)
    → Keeps (push now queue payload author priority)
unfolding push
push-Keeps now queue payload author priority =
    tx-Keeps _
      (read-Keeps _ _ (record { keeps = λ w k. push_db now queue payload author priority w.db k }))
