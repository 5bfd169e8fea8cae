-- ===== src/Store/Tasks/Diagram.antt =====
-- The states of a task, and the changes of a row that go along their diagram.
use agentpeek.Common.{ℕ, ℤ, ◌≡◌, refl, Bool, true, false, List, arith, Bytes}
use agentpeek.Store.Db.{TaskRow, TaskState, pending, claimed, finished}
use agentpeek.Store.Tasks.{same_state, holds, is_orphan, requeued, leased, moved, extended}
use agentpeek.Store.Tasks.Rows.{KeepsId}

-- The diagram of the states: a task is claimed from pending, and goes from claimed back to pending
-- or on to done.
abbrev pub may_become : TaskState → TaskState → Bool
may_become pending pending = true
may_become pending claimed = true
may_become claimed _ = true
may_become finished finished = true
may_become _ _ = false

-- What a call may do to a row: it keeps the payload, queue and priority, and goes along the diagram; a done row
-- stays as it is.
pub record Evolves (r s : TaskRow) : Type 0 where
  pub payload_kept : s.payload ≡ r.payload
  pub queue_kept : s.queue ≡ r.queue
  pub priority_kept : s.priority ≡ r.priority
  pub along : may_become r.state s.state ≡ true
  pub final : r.state ≡ finished → s ≡ r

pub same-Evolves : (r : TaskRow) → Evolves r r
same-Evolves r = record {
  payload_kept = refl;
  queue_kept = refl;
  priority_kept = refl;
  along = stays r.state;
  final = λ _. refl;
}
  where
    stays : (t : TaskState) → may_become t t ≡ true
    stays pending = refl
    stays claimed = refl
    stays finished = refl

pub moved_id : (state : TaskState) (clear : Bool) → KeepsId (moved state clear)
moved_id state true r = refl
moved_id state false r = refl

pub claim-Evolves :
    (now : ℤ) (agent_id : Bytes) (lease : ℤ) (token : Bytes) (s : TaskRow)
    → same_state s.state pending ≡ true
    → Evolves s (leased now agent_id lease token s)
claim-Evolves now agent_id lease token s e = record {
  payload_kept = refl;
  queue_kept = refl;
  priority_kept = refl;
  along = ground arith;
  final = λ f. absurd (ground arith);
}

pub settle-Evolves :
    (i : ℕ) (token : Bytes) (state : TaskState) (clear : Bool) (s : TaskRow)
    → may_become claimed state ≡ true
    → holds i token s ≡ true
    → Evolves s (moved state clear s)
unfolding holds
settle-Evolves i token state true s m e = record {
  payload_kept = refl;
  queue_kept = refl;
  priority_kept = refl;
  along = ground arith;
  final = λ f. absurd (ground arith);
}
settle-Evolves i token state false s m e = record {
  payload_kept = refl;
  queue_kept = refl;
  priority_kept = refl;
  along = ground arith;
  final = λ f. absurd (ground arith);
}

pub extend-Evolves :
    (i : ℕ) (token : Bytes) (t : ℤ) (s : TaskRow)
    → holds i token s ≡ true
    → Evolves s (extended t s)
unfolding holds
extend-Evolves i token t s e = record {
  payload_kept = refl;
  queue_kept = refl;
  priority_kept = refl;
  along = ground arith;
  final = λ f. absurd (ground arith);
}

pub requeue-Evolves :
    (now : ℤ) (present : List Bytes) (s : TaskRow)
    → is_orphan now present s ≡ true
    → Evolves s (requeued s)
unfolding is_orphan
requeue-Evolves now present s e = record {
  payload_kept = refl;
  queue_kept = refl;
  priority_kept = refl;
  along = ground arith;
  final = λ f. absurd (ground arith);
}

-- An update that moves rows along the diagram.
