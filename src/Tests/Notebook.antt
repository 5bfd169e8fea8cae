-- ===== src/Tests/Notebook.antt =====
-- Runs of the notes and counters.
use agentpeek.Store.Notes.Listing.{entry, list_notes-get_note}
use agentpeek.Store.Notes.{list_notes}
use agentpeek.Common.{
  arith, ◌∷◌, pos, ◌≡◌, refl, true, false, none, some, [], Bytes, str, eqs, lt64,
}
use agentpeek.Sql.Table.{select}
use agentpeek.Store.Exec.{World}
use agentpeek.Store.Locks.History.{world_of}
use agentpeek.Store.Notes.{
  Note, note_from, note_row, set_note, get_note, set_note_if, delete_note, increment_counter,
  note_live,
}
use agentpeek.Store.Notes.Laws.{get_note-set_note, set_note_if_lem}
use agentpeek.Tests.{empty_db, calm, ann, bob}

abbrev plan : Bytes
plan = str "plan"

abbrev blank : World
blank = calm empty_db

abbrev noted : World
noted = world_of (set_note (pos 60) plan (str "v1") ann (pos 0) blank)

abbrev note : Note
note = record {
  key = plan;
  value = str "v1";
  author = ann;
  expires_in_seconds = pos 0;
  has_expiry = false;
}

-- A note for 30 seconds, 10 seconds later.
abbrev short : Note
short = record note { expires_in_seconds = pos 20; has_expiry = true }

get_note-set_note_example : some short ≡ some short
unfolding set_note get_note select agentpeek.Sql.Table.upsert eqs note_live
    agentpeek.Store.Notes.note_expiry lt64 note_from agentpeek.Store.Notes.nullable_author
    agentpeek.Common.add64 agentpeek.Store.Locks.secs_left agentpeek.Common.sub64
get_note-set_note_example =
    get_note-set_note 60 70 plan (str "v1") ann (pos 30) blank plan (some short) none (omega arith)
      refl refl refl

set_note_if_lem_example :
    (true ≡ true)
    × (select plan
          (world_of (set_note_if (pos 70) plan (str "v1") (str "v2") bob (pos 0) noted)).db.notes
        ≡ some (note_row (pos 70) (str "v2") bob (pos 0)))
unfolding set_note_if get_note set_note eqs agentpeek.Store.Notes.effective select
    agentpeek.Sql.Table.upsert agentpeek.Store.Notes.note_expiry lt64 note_live note_from
    agentpeek.Store.Notes.nullable_author
set_note_if_lem_example =
    set_note_if_lem (pos 70) plan (str "v1") (str "v2") bob (pos 0) noted true (some note) plan refl
      refl

list_notes-get_note_example : entry plan (note ∷ []) ≡ some note
unfolding set_note agentpeek.Sql.Table.upsert select list_notes agentpeek.Sql.Order.order_by_key
    agentpeek.Sql.Table.select_where agentpeek.Common.keep note_live
    agentpeek.Store.Notes.note_expiry lt64 note_from agentpeek.Store.Notes.nullable_author eqs
    get_note
list_notes-get_note_example =
    list_notes-get_note (pos 70) noted (note ∷ []) plan (some note) (refl, tt) refl refl
