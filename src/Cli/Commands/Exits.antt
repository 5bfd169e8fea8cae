-- ===== src/Cli/Commands/Exits.antt =====
-- How `status` and `watch` of internal/cli/status.go end.
use agentpeek.Common.{
  ℤ, ◌≡◌, refl, sym, ap, ◌∙◌, subst, none, some, List, [], ◌∷◌, ◌++◌, map, append_assoc, arith,
  Bytes, str,
}
use agentpeek.Store.Exec.{World, Out, ok, err, Quiet, Answers}
use agentpeek.Cli.Status.{render_snapshot}
use agentpeek.Cli.Status.Snapshot.{render_snapshot_total}
use agentpeek.Cli.Commands.{
  Terminal, out, opened, Event, tick, interrupt, render, status, watch, watch_loop,
}

-- With a database whose driver refuses nothing, `status` writes one text to standard output, which
-- is the snapshot, and exits with 0.
pub status_prints :
    (t : Terminal) (path : Bytes) (now : ℤ) (w : World)
    → Quiet w
    → (text : Bytes) × (w' : World) × (render_snapshot t.tabulate now w ≡ ok text w')
      × (status t path now (opened w) ≡ (out text ∷ [], 0))
unfolding status
status_prints t path now w q = split (render_snapshot t.tabulate now w) refl
  where
    split :
        (o : Out Bytes)
        → render_snapshot t.tabulate now w ≡ o
        → (text : Bytes) × (w' : World) × (render_snapshot t.tabulate now w ≡ ok text w')
          × (status t path now (opened w) ≡ (out text ∷ [], 0))
    split (ok text w') eq = (text, w', eq, ground arith)
    split (err e w') eq = absurd (subst Answers eq (render_snapshot_total t.tabulate now w q))

abbrev pub ticks : List (ℤ × Bytes × World) → List Event
ticks = map (λ e. tick e.0 e.1 e.2)

abbrev pub show_cursor : Bytes
show_cursor = 27 ∷ str "[?25h"

watch_loop-ticks :
    (t : Terminal) (es : List (ℤ × Bytes × World)) → (watch_loop t (ticks es)).1 ≡ none
unfolding watch_loop
watch_loop-ticks t [] = refl
watch_loop-ticks t (e ∷ es) = watch_loop-ticks t es

watch_loop-interrupt :
    (t : Terminal) (es : List (ℤ × Bytes × World)) (rest : List Event)
    → watch_loop t (ticks es ++ interrupt ∷ rest)
      ≡ ((watch_loop t (ticks es)).0 ++ out show_cursor ∷ [], some 0)
unfolding watch_loop
watch_loop-interrupt t [] rest = refl
watch_loop-interrupt t (e ∷ es) rest =
    let again = watch_loop-interrupt t es rest in
    ap (λ r. (render t e.0 e.1 e.2 ++ r.0, r.1)) again
    ∙ ap (λ l. (l, some 0))
        (sym
          (append_assoc (render t e.0 e.1 e.2) (watch_loop t (ticks es)).0 (out show_cursor ∷ [])))

-- `watch` runs through any ticks, and ends at the first signal: it then shows the cursor, exits
-- with 0, and renders nothing more, whatever would have come.
pub watch_until_signal :
    (t : Terminal) (path : Bytes) (now : ℤ) (clock : Bytes) (w : World)
    (es : List (ℤ × Bytes × World)) (rest : List Event)
    → let before = watch t path now clock (opened w) (ticks es) in
      (before.1 ≡ none)
      × (watch t path now clock (opened w) (ticks es ++ interrupt ∷ rest)
          ≡ (before.0 ++ out show_cursor ∷ [], some 0))
unfolding watch
watch_until_signal t path now clock w es rest = (
  watch_loop-ticks t es,
  ap (λ r. (render t now clock w ++ r.0, r.1)) (watch_loop-interrupt t es rest)
      ∙ ap (λ l. (l, some 0))
          (sym (
            append_assoc (render t now clock w) (watch_loop t (ticks es)).0
              (out show_cursor ∷ []))),
)
