-- ===== src/Tests/Signals.antt =====
-- Runs of the events.
use agentpeek.Store.Events.Clearing.{signal_after_clear}
use agentpeek.Store.Events.{clear}
use agentpeek.Common.{◌≢◌}
use agentpeek.Common.{pos, ◌≡◌, refl, true, false, [], eqs, le64, lt64}
use agentpeek.Sql.Table.{select}
use agentpeek.Store.Lock.{signalled}
use agentpeek.Store.Events.{
  Events, Phase, returned, blocked, signal, wait_check, wait_wake, generation_of, next_generation,
}
use agentpeek.Store.Events.Waits.{wake_after_signal}
use agentpeek.Tests.{empty_db, calm, build}

abbrev fresh : Events
fresh = record { world = calm empty_db; chans = []; closed = λ _. false; next_chan = 0 }

abbrev blocked_on : Events
blocked_on = (wait_check build (pos 0) (pos 10) fresh).1

abbrev after_signal : Events
after_signal = (signal [] (pos 60) build blocked_on).1

wake_after_signal_example :
    (after_signal.closed 0 ≡ true)
    × ((wait_wake build (pos 0) (pos 10) (pos 0) signalled after_signal).0 ≡ returned (pos 1) true)
unfolding signal wait_check agentpeek.Store.Events.generation agentpeek.Store.Events.broadcast_chan
    select lt64 generation_of le64 agentpeek.Store.Lock.clamp_wait agentpeek.Store.Events.signal_row
    agentpeek.Sql.Table.upsert eqs agentpeek.Store.Events.broadcast
wake_after_signal_example =
    wake_after_signal [] (pos 60) build (pos 0) (pos 10) fresh blocked_on after_signal 0 (pos 0)
      (pos 1) refl refl (λ _. refl) refl

-- The waiter has seen generation 1 before the event was cleared.
abbrev cleared : Events
cleared = (clear build after_signal).1

abbrev again : Events
again = (signal [] (pos 70) build cleared).1

signal_after_clear_example :
    (pos 1 ≡ pos 1) × ((wait_check build (pos 1) (pos 10) again).0 ≢ returned (pos 1) true)
unfolding signal clear agentpeek.Store.Events.clear_row agentpeek.Store.Events.signal_row wait_check
    agentpeek.Store.Events.generation agentpeek.Store.Events.broadcast_chan select
    agentpeek.Store.Events.broadcast agentpeek.Sql.Table.upsert eqs agentpeek.Sql.Table.delete
    agentpeek.Sql.Table.delete_where generation_of lt64
signal_after_clear_example =
    signal_after_clear [] (pos 70) build (pos 1) (pos 10) after_signal cleared again (pos 1) (pos 1)
      refl refl (λ _. refl) refl
