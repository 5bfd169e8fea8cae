-- ===== src/Store/Events.antt =====
-- internal/store/events.go: events with a generation, and waits for the next one.
pub mod Waits
pub mod Clearing
pub mod Keyed
use agentpeek.Common.{
  ℕ, suc, ◌==◌, ℤ, pos, Bool, true, false, ◌&&◌, ◌||◌, not, Option, none, some, List, [], ◌∷◌,
  if◌then◌else◌, Bytes, add64, le64, lt64,
}
use agentpeek.Sql.Table.{select, upsert, delete}
use agentpeek.Store.Db.{Db, EventRow, Error, sql}
use agentpeek.Store.Exec.{M, World, Out, ok, err, pure, fail, ◌>>=◌, ◌>>◌, query, exec, tx}
use agentpeek.Store.Notes.{fits}
use agentpeek.Store.Lock.{clamp_wait, Woken, cancelled, timed_out, signalled}
use agentpeek.Store.Locks.History.{world_of}

-- type EventManager, over its database. A channel is a number; `closed` says which are closed, and
-- `next_chan` is the one that make gives next.
pub record Events : Type 0 where
  pub world : World
  pub chans : List (Bytes × ℕ)
  pub closed : ℕ → Bool
  pub next_chan : ℕ

abbrev pub set_events : (List (Bytes × EventRow) → List (Bytes × EventRow)) → Db → Db
set_events f d = record d { events = f d.events }

-- A fresh channel for the name.
install : Bytes → Events → Events
install name e = record e { chans = upsert name e.next_chan e.chans; next_chan = suc e.next_chan }

-- func (e *EventManager) broadcastChan
unfoldable pub broadcast_chan : Bytes → Events → ℕ × Events
unfolding install
broadcast_chan name e = elim (select name e.chans) [
  | none ↦ (e.next_chan, install name e)
  | some ch ↦ (ch, e)
]

-- func (e *EventManager) broadcast
unfoldable pub broadcast : Bytes → Events → Events
unfolding install
broadcast name e = elim (select name e.chans) [
  | none ↦ e
  | some ch ↦ install name (record e { closed = λ c. (c == ch) || e.closed c })
]

-- The generation in a row, 0 without one.
unfoldable pub generation_of : Option EventRow → ℤ
generation_of none = pos 0
generation_of (some row) = row.generation

-- generation = generation + 1, or 1 in a new row
abbrev pub next_generation : Option EventRow → ℤ
next_generation none = pos 1
next_generation (some row) = add64 row.generation (pos 1)

generation_fits : Option EventRow → Bool
generation_fits none = true
generation_fits (some row) = fits row.generation (pos 1)

bump : Bytes → ℤ → Bytes → M ℤ
unfolding generation_fits
bump overflow now name = do
  old ← query (λ d. select name d.events)
  (λ w. pure tt (record w {
    db =
        set_events (upsert name (record { generation = next_generation old; updated_at = now }))
          w.db;
  }))
  found ← query (λ d. select name d.events)
  if generation_fits old then pure (generation_of found) else fail (sql overflow)

-- The transaction of Signal. As for a counter, a generation that is no int64 is an error of Scan.
unfoldable pub signal_row : Bytes → ℤ → Bytes → M ℤ
unfolding bump tx
signal_row overflow now name = tx (bump overflow now name)

-- Broadcasts if the transaction has committed.
broadcast_if_ok : {A : Type 0} → Bytes → Out A → Events → Events
broadcast_if_ok name (ok a w) e = broadcast name (record e { world = w })
broadcast_if_ok name (err x w) e = record e { world = w }

-- func (e *EventManager) Signal
unfoldable pub signal : Bytes → ℤ → Bytes → Events → Out ℤ × Events
unfolding broadcast_if_ok
signal overflow now name e =
    let out = signal_row overflow now name e.world in (out, broadcast_if_ok name out e)

-- The transaction of Clear.
unfoldable pub clear_row : Bytes → M (Unit {0})
unfolding tx
clear_row name = tx (exec (set_events (delete name)))

-- func (e *EventManager) Clear
unfoldable pub clear : Bytes → Events → Out (Unit {0}) × Events
unfolding broadcast_if_ok
clear name e = let out = clear_row name e.world in (out, broadcast_if_ok name out e)

-- func (e *EventManager) Generation
unfoldable pub generation : Bytes → M ℤ
generation name = query (λ d. generation_of (select name d.events))

-- Where a call of Wait stands: it has returned, or waits in the select on a channel, with the
-- generation that it read.
pub data Phase : Type 0 where
  returned : ℤ → Bool → Phase
  failed : Error → Phase
  blocked : ℕ → ℤ → Phase

judge : ℕ → ℤ → ℤ → Out ℤ → Phase
judge ch last_seen wait_seconds (err x w) = failed x
judge ch last_seen wait_seconds (ok current w) =
    if lt64 last_seen current
    then returned current true
    else if le64 (clamp_wait wait_seconds) (pos 0)
    then returned current false
    else blocked ch current

-- func (e *EventManager) Wait: the loop from its top to the select. The channel is captured first.
unfoldable pub wait_check : Bytes → ℤ → ℤ → Events → Phase × Events
unfolding judge
wait_check name last_seen wait_seconds e =
    let (ch, e') = broadcast_chan name e in
    let out = generation name e'.world in
    (judge ch last_seen wait_seconds out, record e' { world = world_of out })

-- The select: a closed channel sends the call back to the top of the loop.
unfoldable pub wait_wake : Bytes → ℤ → ℤ → ℤ → Woken → Events → Phase × Events
wait_wake name last_seen wait_seconds current signalled e = wait_check name last_seen wait_seconds e
wait_wake name last_seen wait_seconds current cancelled e = (returned current false, e)
wait_wake name last_seen wait_seconds current timed_out e = (returned current false, e)
