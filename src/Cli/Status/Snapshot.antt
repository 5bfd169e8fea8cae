-- ===== src/Cli/Status/Snapshot.antt =====
-- The whole report of internal/cli/status.go: renderSnapshot, and the commands that print it.
use agentpeek.Common.{ℤ, ◌≡◌, refl, ◌∙◌, arith, Bytes}
use agentpeek.Store.Db.{Db}
use agentpeek.Store.Exec.{World, M, Out, ok, err, pure, ◌>>=◌, query, Quiet, Answers}
use agentpeek.Store.Locks.History.{world_of}
use agentpeek.Cli.Status.{
  Tabulate, render_locks, render_agents, render_notes, render_counters, render_events, render_tasks,
  render_snapshot,
}

-- An action that changes no table, and answers if the driver refuses nothing.
record IsReader {A : Type 0} (m : M A) : Type 0 where
  keeps : (w : World) → (world_of (m w)).db ≡ w.db
  total : (w : World) → Quiet w → Answers (m w)
  quiet : (w : World) → Quiet w → Quiet (world_of (m w))

pure-IsReader : {A : Type 0} (a : A) → IsReader (pure a)
pure-IsReader a = record { keeps = λ w. refl; total = λ w q. tt; quiet = λ w q. q }

query-IsReader : {A : Type 0} (f : Db → A) → IsReader (query f)
query-IsReader f = record {
  keeps = λ w. ground arith;
  total = λ w q. ground (arith, q w.ops);
  quiet = λ w q n. ground (arith, q n, q w.ops);
}

-- The second action runs on what the first one has left.
bind_keeps :
    {A B : Type 0} (f : A → M B) (d : Db)
    → ((a : A) → IsReader (f a))
    → (o : Out A) → (world_of o).db ≡ d
    → (world_of (elim o as (λ _. Out B) [ ok a w ↦ f a w | err e w ↦ err e w ])).db ≡ d
bind_keeps f d h (ok a w) same = (h a).keeps w ∙ same
bind_keeps f d h (err e w) same = same

bind_total :
    {A B : Type 0} (f : A → M B)
    → ((a : A) → IsReader (f a))
    → (o : Out A) → Answers o
    → Quiet (world_of o)
    → Answers (elim o as (λ _. Out B) [ ok a w ↦ f a w | err e w ↦ err e w ])
bind_total f h (ok a w) t q = (h a).total w q
bind_total f h (err e w) t q = absurd t

bind-Quiet :
    {A B : Type 0} (f : A → M B)
    → ((a : A) → IsReader (f a))
    → (o : Out A) → Quiet (world_of o)
    → Quiet (world_of (elim o as (λ _. Out B) [ ok a w ↦ f a w | err e w ↦ err e w ]))
bind-Quiet f h (ok a w) q = (h a).quiet w q
bind-Quiet f h (err e w) q = q

bind-IsReader :
    {A B : Type 0} (m : M A) (f : A → M B)
    → IsReader m
    → ((a : A) → IsReader (f a))
    → IsReader (m >>= f)
bind-IsReader m f hm hf = record {
  keeps = λ w. bind_keeps f w.db hf (m w) (hm.keeps w);
  total = λ w q. bind_total f hf (m w) (hm.total w q) (hm.quiet w q);
  quiet = λ w q. bind-Quiet f hf (m w) (hm.quiet w q);
}

-- A query whose rows are rendered.
rendered-IsReader :
    {R : Type 0} (f : Db → R) (g : R → Bytes) → IsReader (do rows ← query f; pure (g rows))
rendered-IsReader f g =
    bind-IsReader (query f) (λ rows. pure (g rows)) (query-IsReader f)
      (λ rows. pure-IsReader (g rows))

render_locks-IsReader : (t : Tabulate) (now : ℤ) → IsReader (render_locks t now)
unfolding render_locks
render_locks-IsReader t now = rendered-IsReader _ _

render_agents-IsReader : (t : Tabulate) (now : ℤ) → IsReader (render_agents t now)
unfolding render_agents
render_agents-IsReader t now = rendered-IsReader _ _

render_notes-IsReader : (t : Tabulate) (now : ℤ) → IsReader (render_notes t now)
unfolding render_notes
render_notes-IsReader t now = rendered-IsReader _ _

render_counters-IsReader : (t : Tabulate) → IsReader (render_counters t)
unfolding render_counters
render_counters-IsReader t = rendered-IsReader _ _

render_events-IsReader : (t : Tabulate) → IsReader (render_events t)
unfolding render_events
render_events-IsReader t = rendered-IsReader _ _

render_tasks-IsReader : (t : Tabulate) → IsReader (render_tasks t)
unfolding render_tasks
render_tasks-IsReader t = rendered-IsReader _ _

render_snapshot-IsReader : (t : Tabulate) (now : ℤ) → IsReader (render_snapshot t now)
unfolding render_snapshot
render_snapshot-IsReader t now = bind-IsReader _ _ (render_locks-IsReader t now) (λ locks.
    bind-IsReader _ _ (render_agents-IsReader t now) (λ agents.
      bind-IsReader _ _ (render_notes-IsReader t now) (λ notes.
        bind-IsReader _ _ (render_counters-IsReader t) (λ counters.
          bind-IsReader _ _ (render_events-IsReader t)
            (λ events. bind-IsReader _ _ (render_tasks-IsReader t) (λ tasks. pure-IsReader _))))))

-- The snapshot of the daemon's state changes no table, whether it succeeds or fails.
pub render_snapshot_keeps :
    (t : Tabulate) (now : ℤ) (w : World) → (world_of (render_snapshot t now w)).db ≡ w.db
render_snapshot_keeps t now w = (render_snapshot-IsReader t now).keeps w

pub render_snapshot_total :
    (t : Tabulate) (now : ℤ) (w : World) → Quiet w → Answers (render_snapshot t now w)
render_snapshot_total t now w q = (render_snapshot-IsReader t now).total w q
