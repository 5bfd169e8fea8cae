-- ===== src/Cli/Status/Sections.antt =====
-- The report of internal/cli/status.go against the listings of internal/store.
use agentpeek.Common.{
  ℕ, ℤ, pos, negsuc, ◌≡◌, refl, sym, ap, true, false, Option, none, some, List, [], ◌∷◌, map, arith,
  Bytes, str, if◌then◌else◌, lt64, sub64,
}
use agentpeek.Sql.Table.{select_where}
use agentpeek.Sql.Order.{order_by_key}
use agentpeek.Store.Db.{LockRow, AgentRow, NoteRow}
use agentpeek.Store.Exec.{World, M, Out, ok, err, pure, ◌>>=◌, query}
use agentpeek.Store.Locks.{LockInfo, lock_info, secs_left, list_locks}
use agentpeek.Store.Presence.{AgentInfo, list_agents}
use agentpeek.Store.Notes.{Note, note_from, note_live, null_string, list_notes}
use agentpeek.Cli.Text.{dash, human_dur, truncate}
use agentpeek.Cli.Status.{
  Tabulate, section, row_of, or_dash, or_empty, lock_heading, agent_heading, note_heading,
  lock_line, agent_line, note_line, render_locks, render_agents, render_notes,
}

-- The sections in terms of the listings.
abbrev pub lock_section : Tabulate → List LockInfo → Bytes
lock_section tabulate infos =
    section tabulate (str "LOCKS") lock_heading
      (map (λ i. row_of (i.name ∷ i.agent_id ∷ human_dur i.expires_in_seconds ∷ [])) infos)

abbrev pub agent_section : Tabulate → List AgentInfo → Bytes
agent_section tabulate infos =
    section tabulate (str "AGENTS") agent_heading
      (map (λ i. row_of (i.agent_id ∷ human_dur i.expires_in_seconds ∷ [])) infos)

abbrev pub note_section : Tabulate → List Note → Bytes
note_section tabulate notes = section tabulate (str "NOTES") note_heading (
    map
      (λ n. row_of (
        n.key
        ∷ truncate n.value 40
        ∷ or_dash n.author
        ∷ (if n.has_expiry then human_dur n.expires_in_seconds else dash)
        ∷ []))
      notes)

clamp_pos : (n : ℕ) → (if lt64 (pos n) (pos 0) then pos 0 else pos n) ≡ pos n
unfolding lt64
clamp_pos n = ground arith

clamp_negsuc : (n : ℕ) → (if lt64 (negsuc n) (pos 0) then pos 0 else negsuc n) ≡ pos 0
unfolding lt64
clamp_negsuc n = ground arith

-- A length that is not positive and 0 have one text.
clamped : (d : ℤ) → human_dur (if lt64 d (pos 0) then pos 0 else d) ≡ human_dur d
unfolding human_dur
clamped (pos n) = ap human_dur (clamp_pos n)
clamped (negsuc n) = ap human_dur (clamp_negsuc n)

human_dur-secs_left :
    (expires_at now : ℤ) → human_dur (secs_left expires_at now) ≡ human_dur (sub64 expires_at now)
unfolding secs_left
human_dur-secs_left expires_at now = clamped (sub64 expires_at now)

map_ext :
    {A B C : Type 0} (f : B → C) (g : A → B) (h : A → C) (xs : List A)
    → ((x : A) → h x ≡ f (g x))
    → map h xs ≡ map f (map g xs)
map_ext f g h [] e = refl
map_ext f g h (x ∷ xs) e = λ i. e x i ∷ map_ext f g h xs e i

-- A query whose rows are rendered at once, or listed first.
rendered :
    {R I : Type 0} (q : M (List R)) (f : List R → Bytes) (g : List R → List I) (k : List I → Bytes)
    (w : World)
    → ((rows : List R) → f rows ≡ k (g rows))
    → (do rows ← q; pure (f rows)) w ≡ (do infos ← (do rows ← q; pure (g rows)); pure (k infos)) w
rendered {R} {I} q f g k w e = split (q w)
  where
    split :
        (o : Out (List R))
        → (elim o as (λ _. Out Bytes) [ ok rows w' ↦ ok (f rows) w' | err x w' ↦ err x w' ])
          ≡ (elim (elim o as (λ _. Out (List I)) [
            | ok rows w' ↦ ok (g rows) w'
            | err x w' ↦ err x w'
          ])
              as (λ _. Out Bytes) [ ok infos w' ↦ ok (k infos) w' | err x w' ↦ err x w' ])
    split (ok rows w') = ap (λ b. ok b w') (e rows)
    split (err x w') = refl

lock_lines :
    (tabulate : Tabulate) (now : ℤ) (rows : List (Bytes × LockRow))
    → section tabulate (str "LOCKS") lock_heading (map (lock_line now) rows)
      ≡ lock_section tabulate (map (lock_info now) rows)
unfolding lock_line
lock_lines tabulate now rows = ap (section tabulate (str "LOCKS") lock_heading) (
    map_ext _ (lock_info now) _ rows (λ r.
      ap (λ t. row_of (r.0 ∷ r.1.agent_id ∷ t ∷ []))
        (sym (human_dur-secs_left r.1.expires_at now))))

agent_lines :
    (tabulate : Tabulate) (now : ℤ) (rows : List (Bytes × AgentRow))
    → section tabulate (str "AGENTS") agent_heading (map (agent_line now) rows)
      ≡ agent_section tabulate (
          map
            (λ r. record { agent_id = r.0; expires_in_seconds = secs_left r.1.expires_at now })
            rows)
unfolding agent_line
agent_lines tabulate now rows = ap (section tabulate (str "AGENTS") agent_heading) (
    map_ext _ _ _ rows
      (λ r. ap (λ t. row_of (r.0 ∷ t ∷ [])) (sym (human_dur-secs_left r.1.expires_at now))))

same_author : (o : Option Bytes) → or_empty o ≡ null_string o
unfolding or_empty
same_author none = refl
same_author (some s) = refl

same_expiry :
    (now : ℤ) (o : Option ℤ)
    → elim o [ none ↦ dash | some t ↦ human_dur (sub64 t now) ] ≡ (
        if elim o [ none ↦ false | some _ ↦ true ]
        then human_dur (elim o [ none ↦ pos 0 | some t ↦ secs_left t now ])
        else dash)
same_expiry now none = refl
same_expiry now (some t) = sym (human_dur-secs_left t now)

note_cells :
    (now : ℤ) (key : Bytes) (r : NoteRow)
    → let n = note_from now key r in
      note_line now (key, r)
      ≡ row_of (
          n.key
          ∷ truncate n.value 40
          ∷ or_dash n.author
          ∷ (if n.has_expiry then human_dur n.expires_in_seconds else dash)
          ∷ [])
unfolding note_line note_from
note_cells now key r = λ i. row_of (
    key
    ∷ truncate r.value 40
    ∷ or_dash (same_author r.author i)
    ∷ same_expiry now r.expires_at i
    ∷ [])

note_lines :
    (tabulate : Tabulate) (now : ℤ) (rows : List (Bytes × NoteRow))
    → section tabulate (str "NOTES") note_heading (map (note_line now) rows)
      ≡ note_section tabulate (map (λ r. note_from now r.0 r.1) rows)
note_lines tabulate now rows =
    ap (section tabulate (str "NOTES") note_heading)
      (map_ext _ _ _ rows (λ r. note_cells now r.0 r.1))

abbrev live_locks : ℤ → M (List (Bytes × LockRow))
live_locks now = query (λ d. order_by_key (select_where (λ _ r. lt64 now r.expires_at) d.locks))

abbrev live_agents : ℤ → M (List (Bytes × AgentRow))
live_agents now = query (λ d. order_by_key (select_where (λ _ r. lt64 now r.expires_at) d.agents))

abbrev live_notes : ℤ → M (List (Bytes × NoteRow))
live_notes now = query (λ d. order_by_key (select_where (λ _ r. note_live now r) d.notes))

-- The sections LOCKS, AGENTS and NOTES show what ListLocks, ListAgents and ListNotes list at the
-- same time, with the same errors.
pub sections_list :
    (tabulate : Tabulate) (now : ℤ) (w : World)
    → (render_locks tabulate now w
        ≡ (do infos ← list_locks now; pure (lock_section tabulate infos)) w)
      × (render_agents tabulate now w
          ≡ (do infos ← list_agents now; pure (agent_section tabulate infos)) w)
      × (render_notes tabulate now w
          ≡ (do notes ← list_notes now; pure (note_section tabulate notes)) w)
unfolding render_locks render_agents render_notes list_locks list_agents list_notes
sections_list tabulate now w = (
  rendered (live_locks now) _ _ (lock_section tabulate) w (lock_lines tabulate now),
  rendered (live_agents now) _ _ (agent_section tabulate) w (agent_lines tabulate now),
  rendered (live_notes now) _ _ (note_section tabulate) w (note_lines tabulate now),
)
