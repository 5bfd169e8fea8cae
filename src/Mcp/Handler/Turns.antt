-- ===== src/Mcp/Handler/Turns.antt =====
-- Tool calls that wait, among other calls: the loops of LockManager.Lock and EventManager.Wait as
-- internal/mcp/tools.go runs them.
use agentpeek.Common.{
  ℕ, zero, suc, ◌+◌, ◌*◌, ◌≤◌, ℤ, false, ◌≡◌, refl, List, [], ◌∷◌, arith, Bytes, length,
}
use agentpeek.Store.Lock.{Woken, cancelled, timed_out, signalled, lock_poll, lock_wake}
use agentpeek.Store.Events.{Phase, returned, failed, blocked, wait_wake, wait_check}
use agentpeek.Mcp.Json.{Arguments, Runtime}
use agentpeek.Mcp.Daemon.{Daemon, events_of, Progress, replied, crashed, looping, parked, awaiting}
use agentpeek.Mcp.Tools.{call_tool}
use agentpeek.Mcp.Tools.Locks.{lock_progress}
use agentpeek.Mcp.Tools.Events.{wait_progress}
use agentpeek.Mcp.Handler.{resume}

-- One turn of a call: what the rest of the program has done since the last one, the clock, and what
-- ends the select if the call is in it.
pub record Turn : Type 0 where
  pub others : Daemon → Daemon
  pub now : ℤ
  pub woken : Woken

-- A call over some turns.
unfoldable pub run_turns : Runtime → List Turn → Progress → Daemon → Progress × Daemon
run_turns rt [] p d = (p, d)
run_turns rt (t ∷ ts) p d =
    let (p', d') = resume rt t.now t.woken p (t.others d) in run_turns rt ts p' d'

abbrev signal_count : Woken → ℕ
signal_count signalled = 1
signal_count cancelled = 0
signal_count timed_out = 0

-- The turns in which a signal ends the select.
abbrev pub signals : List Turn → ℕ
signals [] = 0
signals (t ∷ ts) = signal_count t.woken + signals ts

abbrev pub IsEnded : Progress → Type 0
IsEnded (replied v) = Unit
IsEnded crashed = Unit
IsEnded (looping r w) = ⊥
IsEnded (parked r w) = ⊥
IsEnded (awaiting name last_seen wait ch current) = ⊥

-- At most this many turns, besides two for each signal, are left of a call.
abbrev left : Progress → ℕ
left (replied v) = 0
left crashed = 0
left (looping r w) = 2
left (parked r w) = 1
left (awaiting name last_seen wait ch current) = 1

left-IsEnded : (p : Progress) → left p ≤ 0 → IsEnded p
left-IsEnded (replied v) h = tt
left-IsEnded crashed h = tt
left-IsEnded (looping r w) h = omega arith
left-IsEnded (parked r w) h = omega arith
left-IsEnded (awaiting name last_seen wait ch current) h = omega arith

left_le : (p : Progress) → left p ≤ 2
left_le (replied v) = omega arith
left_le crashed = omega arith
left_le (looping r w) = omega arith
left_le (parked r w) = omega arith
left_le (awaiting name last_seen wait ch current) = omega arith

wait_turn :
    (rt : Runtime) (name : Bytes) (last_seen wait : ℤ) (p : Phase)
    → left (wait_progress rt name last_seen wait p) ≤ 1
unfolding wait_progress
wait_turn rt name last_seen wait (returned generation fired) = omega arith
wait_turn rt name last_seen wait (failed e) = omega arith
wait_turn rt name last_seen wait (blocked ch current) = omega arith

-- A turn of a call that has not ended uses one up.
resume_turn :
    (rt : Runtime) (now : ℤ) (woken : Woken) (p : Progress) (d : Daemon)
    → 1 ≤ left p
    → suc (left (resume rt now woken p d).0) ≤ left p + 2 * signal_count woken
unfolding resume lock_progress lock_poll lock_wake wait_wake
resume_turn rt now woken (replied v) d h = omega arith
resume_turn rt now woken crashed d h = omega arith
resume_turn rt now woken (looping r w) d h = ground arith
resume_turn rt now signalled (parked r w) d h = omega arith
resume_turn rt now cancelled (parked r w) d h = omega arith
resume_turn rt now timed_out (parked r w) d h = omega arith
resume_turn rt now signalled (awaiting name last_seen wait ch current) d h =
    omega (arith, wait_turn rt name last_seen wait (wait_check name last_seen wait (events_of d)).0)
resume_turn rt now cancelled (awaiting name last_seen wait ch current) d h =
    omega (arith, wait_turn rt name last_seen wait (returned current false))
resume_turn rt now timed_out (awaiting name last_seen wait ch current) d h =
    omega (arith, wait_turn rt name last_seen wait (returned current false))

-- Nothing is done for a call that has ended.
resume-ended :
    (rt : Runtime) (now : ℤ) (woken : Woken) (p : Progress) (d : Daemon)
    → left p ≤ 0
    → left (resume rt now woken p d).0 ≤ 0
unfolding resume
resume-ended rt now woken (replied v) d h = omega arith
resume-ended rt now woken crashed d h = omega arith
resume-ended rt now woken (looping r w) d h = omega arith
resume-ended rt now woken (parked r w) d h = omega arith
resume-ended rt now woken (awaiting name last_seen wait ch current) d h = omega arith

run_turns-ended :
    (rt : Runtime) (ts : List Turn) (p : Progress) (d : Daemon)
    → left p ≤ 0
    → left (run_turns rt ts p d).0 ≤ 0
unfolding run_turns
run_turns-ended rt [] p d h = h
run_turns-ended rt (t ∷ ts) p d h =
    let d' = t.others d in run_turns-ended rt ts _ _ (resume-ended rt t.now t.woken p d' h)

run_turns-left :
    (rt : Runtime) (ts : List Turn) (p : Progress) (d : Daemon)
    → left p + 2 * signals ts ≤ length ts
    → left (run_turns rt ts p d).0 ≤ 0
unfolding run_turns
run_turns-left rt [] p d h = omega arith
run_turns-left rt (t ∷ ts) p d h =
    let next = resume rt t.now t.woken p (t.others d) in
    split (left p) refl (run_turns-left rt ts next.0 next.1)
  where
    split :
        (n : ℕ)
        → left p ≡ n
        → (let next = resume rt t.now t.woken p (t.others d) in
            left next.0 + 2 * signals ts ≤ length ts → left (run_turns rt ts next.0 next.1).0 ≤ 0)
        → left (run_turns rt (t ∷ ts) p d).0 ≤ 0
    split zero eq again = run_turns-ended rt (t ∷ ts) p d (omega arith)
    split (suc n) eq again =
        again (omega (arith, resume_turn rt t.now t.woken p (t.others d) (omega arith)))

-- A tool call ends, whatever the rest of the program does between its turns: two turns, and two
-- more for every turn that has a signal, are enough for it to have its result or to panic.
pub tool_call_ends :
    (rt : Runtime) (now later : ℤ) (name : Bytes) (args : Arguments) (d : Daemon) (ts : List Turn)
    → 2 + 2 * signals ts ≤ length ts
    → let (p, d') = call_tool rt now later name args d in IsEnded (run_turns rt ts p d').0
tool_call_ends rt now later name args d ts h =
    let (p, d') = call_tool rt now later name args d in
    left-IsEnded (run_turns rt ts p d').0 (run_turns-left rt ts p d' (omega (arith, left_le p)))
