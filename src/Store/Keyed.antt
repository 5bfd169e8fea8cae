-- ===== src/Store/Keyed.antt =====
-- The keys of the tables of internal/store/db.go, and actions that keep them.
use agentpeek.Common.{
  ℕ, suc, ◌≤◌, Bool, true, false, Option, none, some, List, [], ◌∷◌, All, arith, Bytes,
  if◌then◌else◌,
}
use agentpeek.Sql.Table.{Unique}
use agentpeek.Store.Db.{
  Db, LockRow, NoteRow, CounterRow, AgentRow, EventRow, TaskRow, Error, sql, rand, begin_tx,
  commit_tx,
}
use agentpeek.Store.Exec.{
  World, M, Out, ok, err, pure, fail, ◌>>=◌, ◌>>◌, query, exec, tx, driver, wrapping, rolled_back,
  bytes, no_entropy, Random,
}
use agentpeek.Store.Random.{new_token, hex}
use agentpeek.Store.Locks.{set_locks}
use agentpeek.Store.Notes.{set_notes, set_counters}
use agentpeek.Store.Presence.{set_agents}
use agentpeek.Store.Events.{set_events}
use agentpeek.Store.Tasks.{set_tasks, update_where}
use agentpeek.Store.Tasks.Rows.{UniqueIds, KeepsId, update_where-UniqueIds}
use agentpeek.Store.Locks.History.{world_of}

-- The ids that AUTOINCREMENT has given.
abbrev pub UpTo : ℕ → List TaskRow → Type 0
UpTo last = All (λ r. r.id ≤ last)

-- No two rows of a table have the same key, and no task has an id that is still to be given.
pub record IsKeyed (d : Db) : Type 0 where
  pub locks : Unique d.locks
  pub notes : Unique d.notes
  pub counters : Unique d.counters
  pub agents : Unique d.agents
  pub events : Unique d.events
  pub tasks : UniqueIds d.tasks
  pub ids : UpTo d.last_task_id d.tasks

-- An action that leaves the tables so, whether it succeeds or fails.
pub record Keeps {A : Type 0} (m : M A) : Type 0 where
  pub keeps : (w : World) → IsKeyed w.db → IsKeyed (world_of (m w)).db

pub pure-Keeps : {A : Type 0} (a : A) → Keeps (pure a)
pure-Keeps a = record { keeps = λ w k. k }

pub fail-Keeps : (A : Type 0) (e : Error) → Keeps {A = A} (fail e)
fail-Keeps A e = record { keeps = λ w k. k }

driver_out :
    (w : World) (o : Option Bytes)
    → IsKeyed w.db
    → IsKeyed
        (world_of {A = Unit {0}} (elim o [
          | none ↦ ok tt (record w { ops = suc w.ops })
          | some e ↦ err (sql e) (record w { ops = suc w.ops })
        ])).db
driver_out w none k = k
driver_out w (some e) k = k

pub driver-Keeps : Keeps driver
driver-Keeps = record { keeps = λ w k. driver_out w (w.fault w.ops) k }

bind_out :
    {A B : Type 0} (f : A → M B)
    → ((a : A) → Keeps (f a))
    → (o : Out A) → IsKeyed (world_of o).db
    → IsKeyed (world_of (elim o as (λ _. Out B) [ ok a w ↦ f a w | err e w ↦ err e w ])).db
bind_out f h (ok a w) k = (h a).keeps w k
bind_out f h (err e w) k = k

pub bind-Keeps :
    {A B : Type 0} (m : M A) (f : A → M B) → Keeps m → ((a : A) → Keeps (f a)) → Keeps (m >>= f)
bind-Keeps m f hm hf = record { keeps = λ w k. bind_out f hf (m w) (hm.keeps w k) }

pub query-Keeps : {A : Type 0} (f : Db → A) → Keeps (query f)
query-Keeps f = bind-Keeps driver _ driver-Keeps (λ u. record { keeps = λ w k. k })

read_out :
    {A B : Type 0} (f : Db → A) (g : A → M B) (w : World) (o : Option Bytes)
    → Keeps (λ v. g (f v.db) v)
    → IsKeyed w.db
    → IsKeyed
        (world_of
          (elim (elim (elim o as (λ _. Out (Unit {0})) [
            | none ↦ ok tt (record w { ops = suc w.ops })
            | some e ↦ err (sql e) (record w { ops = suc w.ops })
          ])
              as (λ _. Out A) [ ok u v ↦ ok (f v.db) v | err e v ↦ err e v ])
            as (λ _. Out B) [ ok a v ↦ g a v | err e v ↦ err e v ])).db
read_out f g w none h k = h.keeps (record w { ops = suc w.ops }) k
read_out f g w (some e) h k = k

-- A query whose answer is still true of the tables when the next action runs.
pub read-Keeps :
    {A B : Type 0} (f : Db → A) (g : A → M B) → Keeps (λ v. g (f v.db) v) → Keeps (query f >>= g)
read-Keeps f g h = record { keeps = λ w k. read_out f g w (w.fault w.ops) h k }

-- A write without its query.
pub write-Keeps :
    {A : Type 0} (a : A) (f : Db → Db)
    → ((d : Db) → IsKeyed d → IsKeyed (f d))
    → Keeps (λ w. ok a (record w { db = f w.db }))
write-Keeps a f h = record { keeps = λ w k. h w.db k }

pub exec-Keeps : (f : Db → Db) → ((d : Db) → IsKeyed d → IsKeyed (f d)) → Keeps (exec f)
exec-Keeps f h = bind-Keeps driver _ driver-Keeps (λ u. write-Keeps tt f h)

token_out :
    (w : World) (o : Random)
    → IsKeyed w.db
    → IsKeyed
        (world_of {A = Bytes} (elim o [
          | bytes b ↦ ok (hex b) (record w { draws = suc w.draws })
          | no_entropy e ↦ err (rand e) (record w { draws = suc w.draws })
        ])).db
token_out w (bytes b) k = k
token_out w (no_entropy e) k = k

pub new_token-Keeps : Keeps new_token
unfolding new_token
new_token-Keeps = record { keeps = λ w k. token_out w (w.entropy w.draws) k }

rolled_back-Keyed :
    {A : Type 0} (d : Db) (o : Out A)
    → IsKeyed d
    → IsKeyed (world_of o).db
    → IsKeyed (world_of (rolled_back d o)).db
rolled_back-Keyed d (ok a w) k h = h
rolled_back-Keyed d (err e w) k h = k

wrapped_out :
    {A : Type 0} (wrap : Error → Error) (o : Out A)
    → IsKeyed (world_of o).db
    → IsKeyed
        (world_of (elim o as (λ _. Out A) [ ok a w' ↦ ok a w' | err e w' ↦ err (wrap e) w' ])).db
wrapped_out wrap (ok a w') i = i
wrapped_out wrap (err e w') i = i

wrapped : {A : Type 0} (wrap : Error → Error) (m : M A) → Keeps m → Keeps (wrapping wrap m)
wrapped wrap m h = record { keeps = λ w k. wrapped_out wrap (m w) (h.keeps w k) }

-- A transaction that fails is rolled back.
pub tx-Keeps : {A : Type 0} (fn : M A) → Keeps fn → Keeps (tx fn)
unfolding tx
tx-Keeps {A = A} fn h =
    let all : M A = (do wrapping begin_tx driver; a ← fn; wrapping commit_tx driver; pure a) in
    let kept : Keeps all =
      bind-Keeps (wrapping begin_tx driver) _ (wrapped begin_tx driver driver-Keeps) (λ u.
        bind-Keeps fn _ h (λ a.
          bind-Keeps (wrapping commit_tx driver) _ (wrapped commit_tx driver driver-Keeps)
            (λ v. pure-Keeps a))) in
    record { keeps = λ w k. rolled_back-Keyed w.db (all w) k (kept.keeps w k) }

-- A choice between two actions.
pub if-Keeps : {A : Type 0} (b : Bool) (m n : M A) → Keeps m → Keeps n → Keeps (if b then m else n)
if-Keeps true m n h k = h
if-Keeps false m n h k = k

-- A change of one table that keeps its keys.
pub set_locks-Keyed :
    (f : List (Bytes × LockRow) → List (Bytes × LockRow))
    → ((t : List (Bytes × LockRow)) → Unique t → Unique (f t))
    → (d : Db) → IsKeyed d
    → IsKeyed (set_locks f d)
set_locks-Keyed f h d k = record {
  locks = h d.locks k.locks;
  notes = k.notes;
  counters = k.counters;
  agents = k.agents;
  events = k.events;
  tasks = k.tasks;
  ids = k.ids;
}

pub set_notes-Keyed :
    (f : List (Bytes × NoteRow) → List (Bytes × NoteRow))
    → ((t : List (Bytes × NoteRow)) → Unique t → Unique (f t))
    → (d : Db) → IsKeyed d
    → IsKeyed (set_notes f d)
set_notes-Keyed f h d k = record {
  locks = k.locks;
  notes = h d.notes k.notes;
  counters = k.counters;
  agents = k.agents;
  events = k.events;
  tasks = k.tasks;
  ids = k.ids;
}

pub set_counters-Keyed :
    (f : List (Bytes × CounterRow) → List (Bytes × CounterRow))
    → ((t : List (Bytes × CounterRow)) → Unique t → Unique (f t))
    → (d : Db) → IsKeyed d
    → IsKeyed (set_counters f d)
set_counters-Keyed f h d k = record {
  locks = k.locks;
  notes = k.notes;
  counters = h d.counters k.counters;
  agents = k.agents;
  events = k.events;
  tasks = k.tasks;
  ids = k.ids;
}

pub set_agents-Keyed :
    (f : List (Bytes × AgentRow) → List (Bytes × AgentRow))
    → ((t : List (Bytes × AgentRow)) → Unique t → Unique (f t))
    → (d : Db) → IsKeyed d
    → IsKeyed (set_agents f d)
set_agents-Keyed f h d k = record {
  locks = k.locks;
  notes = k.notes;
  counters = k.counters;
  agents = h d.agents k.agents;
  events = k.events;
  tasks = k.tasks;
  ids = k.ids;
}

pub set_events-Keyed :
    (f : List (Bytes × EventRow) → List (Bytes × EventRow))
    → ((t : List (Bytes × EventRow)) → Unique t → Unique (f t))
    → (d : Db) → IsKeyed d
    → IsKeyed (set_events f d)
set_events-Keyed f h d k = record {
  locks = k.locks;
  notes = k.notes;
  counters = k.counters;
  agents = k.agents;
  events = h d.events k.events;
  tasks = k.tasks;
  ids = k.ids;
}

update_where-UpTo :
    (last : ℕ) (p : TaskRow → Bool) (f : TaskRow → TaskRow) (rs : List TaskRow)
    → KeepsId f
    → UpTo last rs
    → UpTo last (update_where p f rs)
unfolding update_where
update_where-UpTo last p f [] i h = tt
update_where-UpTo last p f (r ∷ rs) i h =
    (ground (arith, i r, h.0), update_where-UpTo last p f rs i h.1)

pub set_tasks-Keyed :
    (p : TaskRow → Bool) (f : TaskRow → TaskRow)
    → KeepsId f
    → (d : Db) → IsKeyed d
    → IsKeyed (set_tasks (update_where p f) d)
set_tasks-Keyed p f i d k = record {
  locks = k.locks;
  notes = k.notes;
  counters = k.counters;
  agents = k.agents;
  events = k.events;
  tasks = update_where-UniqueIds p f i d.tasks k.tasks;
  ids = update_where-UpTo d.last_task_id p f d.tasks i k.ids;
}
