-- ===== src/Store/Events/Keyed.antt =====
-- The calls on events keep the keys of every table.
use agentpeek.Common.{◌≡◌, sym, subst, arith, ℤ, Bytes}
use agentpeek.Sql.Table.{select, upsert-Unique, delete-Unique}
use agentpeek.Store.Db.{sql}
use agentpeek.Store.Exec.{Out, ok, err, query}
use agentpeek.Store.Locks.History.{world_of}
use agentpeek.Store.Lock.{Woken, signalled, cancelled, timed_out}
use agentpeek.Store.Events.{
  Events, broadcast_chan, broadcast, bump, generation_of, generation_fits, signal_row,
  broadcast_if_ok, signal, clear_row, clear, generation, wait_check, wait_wake,
}
use agentpeek.Store.Keyed.{
  IsKeyed, Keeps, pure-Keeps, fail-Keeps, bind-Keeps, query-Keeps, write-Keeps, exec-Keeps,
  tx-Keeps, if-Keeps, set_events-Keyed,
}

bump-Keeps : (overflow : Bytes) (now : ℤ) (name : Bytes) → Keeps (bump overflow now name)
unfolding bump
bump-Keeps overflow now name = bind-Keeps (query _) _ (query-Keeps _) (λ old.
    bind-Keeps _ _ (write-Keeps tt _ (set_events-Keyed _ (upsert-Unique name _))) (λ u.
      bind-Keeps (query (λ d. select name d.events)) _ (query-Keeps _) (λ found.
        if-Keeps (generation_fits old) _ _ (pure-Keeps (generation_of found))
          (fail-Keeps ℤ (sql overflow)))))

signal_row-Keeps :
    (overflow : Bytes) (now : ℤ) (name : Bytes) → Keeps (signal_row overflow now name)
unfolding signal_row
signal_row-Keeps overflow now name = tx-Keeps _ (bump-Keeps overflow now name)

clear_row-Keeps : (name : Bytes) → Keeps (clear_row name)
unfolding clear_row
clear_row-Keeps name = tx-Keeps _ (exec-Keeps _ (set_events-Keyed _ (delete-Unique name)))

-- The channels have nothing to do with the tables.
broadcast-world : (name : Bytes) (e : Events) → (broadcast name e).world ≡ e.world
unfolding broadcast
broadcast-world name e = ground arith

broadcast_chan-world : (name : Bytes) (e : Events) → (broadcast_chan name e).1.world ≡ e.world
unfolding broadcast_chan
broadcast_chan-world name e = ground arith

broadcast_if_ok-Keyed :
    {A : Type 0} (name : Bytes) (o : Out A) (e : Events)
    → IsKeyed (world_of o).db
    → IsKeyed (broadcast_if_ok name o e).world.db
unfolding broadcast_if_ok
broadcast_if_ok-Keyed name (ok a w) e k =
    subst (λ v. IsKeyed v.db) (sym (broadcast-world name (record e { world = w }))) k
broadcast_if_ok-Keyed name (err x w) e k = k

pub signal-Keyed :
    (overflow : Bytes) (now : ℤ) (name : Bytes) (e : Events)
    → IsKeyed e.world.db
    → IsKeyed (signal overflow now name e).1.world.db
unfolding signal
signal-Keyed overflow now name e k =
    broadcast_if_ok-Keyed name (signal_row overflow now name e.world) e
      ((signal_row-Keeps overflow now name).keeps e.world k)

pub clear-Keyed :
    (name : Bytes) (e : Events) → IsKeyed e.world.db → IsKeyed (clear name e).1.world.db
unfolding clear
clear-Keyed name e k =
    broadcast_if_ok-Keyed name (clear_row name e.world) e ((clear_row-Keeps name).keeps e.world k)

pub generation-Keeps : (name : Bytes) → Keeps (generation name)
unfolding generation
generation-Keeps name = query-Keeps _

pub wait_check-Keyed :
    (name : Bytes) (last_seen wait : ℤ) (e : Events)
    → IsKeyed e.world.db
    → IsKeyed (wait_check name last_seen wait e).1.world.db
unfolding wait_check
wait_check-Keyed name last_seen wait e k =
    (generation-Keeps name).keeps (broadcast_chan name e).1.world
      (subst (λ v. IsKeyed v.db) (sym (broadcast_chan-world name e)) k)

pub wait_wake-Keyed :
    (name : Bytes) (last_seen wait current : ℤ) (woken : Woken) (e : Events)
    → IsKeyed e.world.db
    → IsKeyed (wait_wake name last_seen wait current woken e).1.world.db
unfolding wait_wake
wait_wake-Keyed name last_seen wait current signalled e k = wait_check-Keyed name last_seen wait e k
wait_wake-Keyed name last_seen wait current cancelled e k = k
wait_wake-Keyed name last_seen wait current timed_out e k = k
