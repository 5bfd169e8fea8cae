-- ===== src/Store/Events/Waits.antt =====
-- Whether a wait sees the signals that are sent.
use agentpeek.Common.{
  ℕ, ℤ, pos, negsuc, ◌≡◌, refl, ap, sym, ◌∙◌, true, Option, none, some, arith, if◌then◌else◌, Bytes,
  eqs, eqs_refl, add64, lt64,
}
use agentpeek.Sql.Table.{select, select-upsert}
use agentpeek.Store.Db.{EventRow}
use agentpeek.Store.Exec.{World, Out, ok, err, Quiet}
use agentpeek.Store.Notes.{fits}
use agentpeek.Store.Lock.{signalled}
use agentpeek.Store.Events.{
  Events, broadcast_chan, broadcast, install, signal, signal_row, next_generation, generation_of,
  generation_fits, generation, returned, blocked, wait_check, judge, wait_wake, install,
}

fits_next : (a : ℤ) → fits a (pos 1) ≡ true → lt64 a (add64 a (pos 1)) ≡ true
unfolding fits lt64 add64
fits_next (pos n) h = ground arith
fits_next (negsuc n) h = ground arith

signal_row_lem :
    (overflow : Bytes) (now : ℤ) (name j : Bytes) (w : World) (g : ℤ) {w' : World}
    → signal_row overflow now name w ≡ ok g w'
    → (g ≡ next_generation (select name w.db.events))
      × (generation_fits (select name w.db.events) ≡ true)
      × (select j w'.db.events ≡ (
          if eqs name j
          then some (record { generation = g; updated_at = now })
          else select j w.db.events))
unfolding signal_row generation_of
signal_row_lem overflow now name j w g h =
    let row : EventRow = record {
      generation = next_generation (select name w.db.events);
      updated_at = now;
    } in
    ground (
      arith,
      select-upsert name j row w.db.events,
      select-upsert name name row w.db.events,
      eqs_refl name,
    )

pub broadcast-world : (name : Bytes) (e : Events) → (broadcast name e).world ≡ e.world
unfolding broadcast install
broadcast-world name e = ground arith

signal_ok :
    (overflow : Bytes) (now : ℤ) (name : Bytes) (e : Events) (g : ℤ) {w : World} {e' : Events}
    → signal overflow now name e ≡ (ok g w, e')
    → (signal_row overflow now name e.world ≡ ok g w)
      × (e' ≡ broadcast name (record e { world = w }))
unfolding signal
signal_ok overflow now name e g {w} {e'} h = split (signal_row overflow now name e.world) refl
  where
    split :
        (o : Out ℤ)
        → signal_row overflow now name e.world ≡ o
        → (signal_row overflow now name e.world ≡ ok g w)
          × (e' ≡ broadcast name (record e { world = w }))
    split (ok a v) eq = ground arith
    split (err x v) eq = ground arith

next_later :
    (r : Option EventRow)
    → generation_fits r ≡ true
    → lt64 (generation_of r) (next_generation r) ≡ true
unfolding generation_of generation_fits fits
next_later none h = unfold lt64 in refl
next_later (some row) h = fits_next row.generation (unfold fits in h)

-- A Signal that succeeds returns the generation of its event plus one (1 for a new event), which is
-- larger than the one before it, and stores it; it changes no other event.
pub signal_lem :
    (overflow : Bytes) (now : ℤ) (name j : Bytes) (e : Events) (g : ℤ) {w : World} {e' : Events}
    → signal overflow now name e ≡ (ok g w, e')
    → (g ≡ next_generation (select name e.world.db.events))
      × (lt64 (generation_of (select name e.world.db.events)) g ≡ true)
      × (select j e'.world.db.events ≡ (
          if eqs name j
          then some (record { generation = g; updated_at = now })
          else select j e.world.db.events))
signal_lem overflow now name j e g {w} {e'} h =
    let done = signal_ok overflow now name e g h in
    let row = signal_row_lem overflow now name j e.world g {w' = w} done.0 in
    let later = next_later (select name e.world.db.events) row.1 in
    let same = broadcast-world name (record e { world = w }) in ground arith

judge_blocked :
    (ch' : ℕ) (last_seen wait_seconds : ℤ) (o : Out ℤ) {ch : ℕ} {current : ℤ}
    → judge ch' last_seen wait_seconds o ≡ blocked ch current
    → ch' ≡ ch
unfolding judge
judge_blocked ch' last_seen wait_seconds (ok c v) h = ground arith
judge_blocked ch' last_seen wait_seconds (err x v) h = ground arith

pub broadcast_chan_lem :
    (name : Bytes) (e : Events)
    → (select name (broadcast_chan name e).1.chans ≡ some (broadcast_chan name e).0)
      × ((broadcast_chan name e).1.world ≡ e.world)
unfolding broadcast_chan install
broadcast_chan_lem name e =
    ground (arith, select-upsert name name e.next_chan e.chans, eqs_refl name)

blocked_chan :
    (name : Bytes) (last_seen wait_seconds : ℤ) (e : Events) {e₁ : Events} {ch : ℕ} {current : ℤ}
    → wait_check name last_seen wait_seconds e ≡ (blocked ch current, e₁)
    → select name e₁.chans ≡ some ch
unfolding wait_check
blocked_chan name last_seen wait_seconds e {e₁} {ch} {current} h =
    let same = (broadcast_chan_lem name e).0 in
    let out = generation name (broadcast_chan name e).1.world in
    let chan =
      judge_blocked (broadcast_chan name e).0 last_seen wait_seconds out {ch = ch}
        {current = current} (ap (λ p. p.0) h) in
    let chans : (broadcast_chan name e).1.chans ≡ e₁.chans = ap (λ p. p.1.chans) h in
    sym (ap (select name) chans) ∙ same ∙ ap some chan

broadcast_closes :
    (name : Bytes) (e : Events) {ch : ℕ}
    → select name e.chans ≡ some ch
    → (broadcast name e).closed ch ≡ true
unfolding broadcast install
broadcast_closes name e h = ground arith

wait_check_fires :
    (name : Bytes) (last_seen wait_seconds : ℤ) (e : Events) {g : ℤ}
    → Quiet e.world
    → generation_of (select name e.world.db.events) ≡ g
    → lt64 last_seen g ≡ true
    → (wait_check name last_seen wait_seconds e).0 ≡ returned g true
unfolding wait_check judge generation
wait_check_fires name last_seen wait_seconds e q is later =
    let same = (broadcast_chan_lem name e).1 in ground (arith, q e.world.ops)

written :
    (now : ℤ) (name : Bytes) (g : ℤ) (old : Option EventRow)
    → generation_of
        (if eqs name name then some (record { generation = g; updated_at = now }) else old)
      ≡ g
unfolding generation_of
written now name g old = ground (arith, eqs_refl name)

-- A waiter that was blocked on a channel when a Signal succeeded finds that channel closed, and, if
-- the driver refuses nothing and the new generation is later than the last that the waiter has
-- seen, its next pass returns that generation as fired.
pub wake_after_signal :
    (overflow : Bytes) (now : ℤ) (name : Bytes) (last_seen wait_seconds : ℤ) (e e₁ e₂ : Events)
    (ch : ℕ) (current g : ℤ) {w : World}
    → wait_check name last_seen wait_seconds e ≡ (blocked ch current, e₁)
    → signal overflow now name e₁ ≡ (ok g w, e₂)
    → Quiet e₂.world
    → lt64 last_seen g ≡ true
    → (e₂.closed ch ≡ true)
      × ((wait_wake name last_seen wait_seconds current signalled e₂).0 ≡ returned g true)
unfolding wait_wake
wake_after_signal overflow now name last_seen wait_seconds e e₁ e₂ ch current g {w} h hs q later =
    let done = signal_ok overflow now name e₁ g hs in
    let row = (signal_lem overflow now name name e₁ g hs).2 in
    let closes =
      broadcast_closes name (record e₁ { world = w })
        (blocked_chan name last_seen wait_seconds e h) in
    (
      ap (λ x. x.closed ch) done.1 ∙ closes,
      wait_check_fires name last_seen wait_seconds e₂ q
          (ap generation_of row ∙ written now name g (select name e₁.world.db.events)) later,
    )
