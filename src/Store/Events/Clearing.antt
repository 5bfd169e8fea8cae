-- ===== src/Store/Events/Clearing.antt =====
-- What Clear leaves, and what a waiter sees of the signals after it.
use agentpeek.Common.{
  ℤ, pos, ◌≡◌, ◌≢◌, refl, ap, ◌∙◌, true, false, none, arith, if◌then◌else◌, Bytes, eqs, eqs_refl,
  lt64,
}
use agentpeek.Sql.Table.{select, select-delete}
use agentpeek.Store.Exec.{World, Out, ok, err, Quiet}
use agentpeek.Store.Events.{
  Events, broadcast, clear, clear_row, signal, generation, generation_of, wait_check, returned,
  judge,
}
use agentpeek.Store.Events.Waits.{broadcast-world, broadcast_chan_lem, signal_lem}

clear_ok :
    (name : Bytes) (e : Events) {w : World} {e' : Events}
    → clear name e ≡ (ok tt w, e')
    → (clear_row name e.world ≡ ok tt w) × (e' ≡ broadcast name (record e { world = w }))
unfolding clear
clear_ok name e {w} {e'} h = split (clear_row name e.world) refl
  where
    split :
        (o : Out (Unit {0}))
        → clear_row name e.world ≡ o
        → (clear_row name e.world ≡ ok tt w) × (e' ≡ broadcast name (record e { world = w }))
    split (ok a v) eq = ground arith
    split (err x v) eq = ground arith

clear_row_lem :
    (name j : Bytes) (w : World) {w' : World}
    → clear_row name w ≡ ok tt w'
    → select j w'.db.events ≡ (if eqs name j then none else select j w.db.events)
unfolding clear_row
clear_row_lem name j w h = ground (arith, select-delete name j w.db.events)

-- A Clear that succeeds removes the row of its event, and no other.
pub clear_lem :
    (name j : Bytes) (e : Events) {w : World} {e' : Events}
    → clear name e ≡ (ok tt w, e')
    → select j e'.world.db.events ≡ (if eqs name j then none else select j e.world.db.events)
clear_lem name j e {w} {e'} h =
    let done = clear_ok name e h in
    let row = clear_row_lem name j e.world done.0 in
    let same = broadcast-world name (record e { world = w }) in ground arith

not_fired :
    (ch : _) (last_seen wait_seconds current : ℤ) (w : World) (g : ℤ)
    → lt64 last_seen current ≡ false
    → judge ch last_seen wait_seconds (ok current w) ≢ returned g true
unfolding judge
not_fired ch last_seen wait_seconds current w g h same = absurd (ground arith)

wait_check_passes :
    (name : Bytes) (last_seen wait_seconds : ℤ) (e : Events) (g : ℤ)
    → Quiet e.world
    → lt64 last_seen (generation_of (select name e.world.db.events)) ≡ false
    → (wait_check name last_seen wait_seconds e).0 ≢ returned g true
unfolding wait_check judge generation
wait_check_passes name last_seen wait_seconds e g q early same =
    let world = (broadcast_chan_lem name e).1 in absurd (ground (arith, q e.world.ops))

-- The first Signal after a Clear has generation 1, if both succeed; if the driver refuses nothing
-- from there on, the next pass of a waiter that had seen generation 1 or a later one does not
-- report it as fired.
pub signal_after_clear :
    (overflow : Bytes) (now : ℤ) (name : Bytes) (last_seen wait_seconds : ℤ) (e e₁ e₂ : Events)
    (g seen : ℤ) {w₁ w₂ : World}
    → clear name e ≡ (ok tt w₁, e₁)
    → signal overflow now name e₁ ≡ (ok g w₂, e₂)
    → Quiet e₂.world
    → lt64 last_seen (pos 1) ≡ false
    → (g ≡ pos 1) × ((wait_check name last_seen wait_seconds e₂).0 ≢ returned seen true)
unfolding generation_of
signal_after_clear overflow now name last_seen wait_seconds e e₁ e₂ g seen {w₁} {w₂} h k q early =
    let empty = clear_lem name name e h in
    let s = signal_lem overflow now name name e₁ g k in
    let first : g ≡ pos 1 = ground (arith, eqs_refl name) in
    let stored : generation_of (select name e₂.world.db.events) ≡ pos 1 =
      ground (arith, eqs_refl name) in
    (
      first,
      wait_check_passes name last_seen wait_seconds e₂ seen q (ap (lt64 last_seen) stored ∙ early),
    )
