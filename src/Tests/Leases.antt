-- ===== src/Tests/Leases.antt =====
-- Runs of the operations on the table `locks`.
use agentpeek.Common.{
  ◌↔◌, ℕ, ℤ, pos, ◌≡◌, ◌≢◌, refl, arith, Bool, true, false, Option, none, some, List, [], ◌∷◌,
  if◌then◌else◌, Bytes, str, eqs, le64, lt64, keep,
}
use agentpeek.Sql.Table.{select, select_where, Unique}
use agentpeek.Store.Db.{LockRow}
use agentpeek.Store.Exec.{World}
use agentpeek.Store.Locks.{unlock_authorized}
use agentpeek.Store.Locks.History.{
  Call, acquires, unlocks, renews, renews_by_agent, locks_many, releases_agent, reaps, run,
}
use agentpeek.Store.Locks.History.Exclusion.{run_exclusion}
use agentpeek.Sql.Order.{order_by_key}
use agentpeek.Store.Random.{hex, new_token}
use agentpeek.Store.Locks.{
  granted, no_holder, new_row, set_expiry, lock_info, try_acquire, unlock, renew, list_locks,
}
use agentpeek.Store.Locks.Holder.{holder}
use agentpeek.Store.Locks.History.{world_of}
use agentpeek.Store.Locks.Expiry.{try_acquire_overflow}
use agentpeek.Store.Locks.Release.{MayRelease, unlock_lem}
use agentpeek.Store.Locks.Renew.{renew-granted, renew_refused}
use agentpeek.Store.Locks.Listing.{list_locks_entry, entry}
use agentpeek.Store.Locks.Many.{ManyResult, lock_many}
use agentpeek.Store.Locks.Many.Names.{contains}
use agentpeek.Store.Locks.Many.Batch.{blocker}
use agentpeek.Store.Locks.Many.Atomic.{lock_many_all, lock_many_none}
use agentpeek.Store.Db.{not_owned, Error}
use agentpeek.Tests.{build, ann, bob, ann_row, held_world}

-- What bob may try before 100.
abbrev attempts : List Call
attempts =
    acquires (pos 60) build bob (pos 30)
    ∷ unlocks build [] bob
    ∷ renews (pos 61) build (str "guess") (pos 30)
    ∷ renews_by_agent (pos 61) build bob (pos 30)
    ∷ locks_many (pos 62) (build ∷ str "test" ∷ []) bob (pos 30)
    ∷ releases_agent bob
    ∷ reaps (pos 99)
    ∷ []

run_exclusion_example : select build (run attempts held_world).db.locks ≡ some ann_row
unfolding select eqs le64 unlock_authorized
run_exclusion_example =
    run_exclusion build ann_row attempts held_world (refl, tt) refl
      (refl, ((λ _. refl), ((λ _. refl), ((λ _. refl), (refl, (refl, (refl, tt)))))))

abbrev token : Bytes
token = str "0aff0000000000000000000000000000"

abbrev acquired_world : World
acquired_world = world_of (try_acquire (pos 100) build bob (pos 30) held_world)

unlock_lem_example :
    ((true ≡ true) ↔ MayRelease [] ann (some ann_row))
    × (select build (world_of (unlock build [] ann held_world)).db.locks ≡ none)
unfolding unlock unlock_authorized select eqs
unlock_lem_example = unlock_lem build [] ann held_world true build refl

renew-granted_example :
    (◌≡◌ {A = Option Error} none none)
    × (granted (str "t1") (pos 30) ≡ granted (str "t1") (pos 30))
    × (select build (world_of (renew (pos 90) build (str "t1") (pos 30) held_world)).db.locks
        ≡ some (set_expiry (pos 120) ann_row))
unfolding renew select eqs le64 agentpeek.Common.add64
renew-granted_example =
    renew-granted (pos 90) build (str "t1") (pos 30) held_world (granted (str "t1") (pos 30)) build
      refl

renew_refused_example :
    (some not_owned ≡ some not_owned)
    × ((world_of (renew (pos 90) build (str "t2") (pos 30) held_world)).db ≡ held_world.db)
unfolding renew select eqs le64
renew_refused_example =
    renew_refused (pos 90) build (str "t2") (pos 30) held_world (λ _. refl) not_owned refl

abbrev test : Bytes
test = str "test"

abbrev both : ManyResult
both = record { acquired = true; tokens = (build, token) ∷ (test, token) ∷ []; held_by = [] }

abbrev batch_world : World
batch_world = world_of (lock_many (pos 100) (test ∷ build ∷ test ∷ []) bob (pos 30) held_world)

lock_many_all_example :
    ((true ≡ true)
      → (◌≡◌ {A = Option LockRow} none none)
        × (select build batch_world.db.locks ≡ some (new_row (pos 100) bob (pos 30) token))
        × (some token ≢ none))
    × ((true ≡ false) → select build batch_world.db.locks ≡ select build held_world.db.locks)
unfolding lock_many select eqs le64 contains hex agentpeek.Common.les lt64 new_token
    agentpeek.Sql.Table.upsert
lock_many_all_example =
    lock_many_all (pos 100) test (build ∷ test ∷ []) bob (pos 30) held_world both build refl refl

lock_many_none_example :
    (some ann ≡ some ann)
    × ((world_of (lock_many (pos 60) (test ∷ build ∷ []) bob (pos 30) held_world)).db
        ≡ held_world.db)
unfolding lock_many select eqs le64 blocker hex agentpeek.Common.les lt64
lock_many_none_example =
    lock_many_none (pos 60) test (build ∷ []) bob (pos 30) held_world
      (record { acquired = false; tokens = []; held_by = ann }) refl refl

list_locks_entry_example :
    entry build (lock_info (pos 60) (build, ann_row) ∷ [])
    ≡ some (lock_info (pos 60) (build, ann_row))
unfolding list_locks select eqs le64 lt64 keep select_where order_by_key
list_locks_entry_example =
    list_locks_entry (pos 60) held_world (lock_info (pos 60) (build, ann_row) ∷ []) refl build
      (refl, tt)

abbrev forever : World
forever = world_of (try_acquire (pos 60) test bob (pos 9223372036854775800) held_world)

try_acquire_overflow_example : (true ≡ true) × (holder (pos 60) test forever.db.locks ≡ none)
unfolding try_acquire select eqs le64 hex
try_acquire_overflow_example =
    try_acquire_overflow 60 9223372036854775800 test bob held_world
      (granted token (pos 9223372036854775800)) true no_holder (omega arith) (omega arith)
      (omega arith) refl refl
