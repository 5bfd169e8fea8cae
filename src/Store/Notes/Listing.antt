-- ===== src/Store/Notes/Listing.antt =====
-- What ListNotes reports.
use mathlib.Core.Option
use agentpeek.Common.{
  ℤ, ◌≡◌, refl, ◌∙◌, ap, Bool, List, [], ◌∷◌, map, arith, Bytes, Option, none, some, if◌then◌else◌,
  eqs, eqs_iff,
}
use agentpeek.Sql.Table.{
  select, pass, select_where, Unique, select-select_where, select_where-Unique,
}
use agentpeek.Sql.Order.{order_by_key, select-order_by_key}
use agentpeek.Store.Db.{NoteRow}
use agentpeek.Store.Exec.{World, ok}
use agentpeek.Store.Notes.{Note, note_from, note_live, live_note, get_note, list_notes}

-- The note of a key in a report.
abbrev pub entry : Bytes → List Note → Option Note
entry j [] = none
entry j (i ∷ is) = if eqs i.key j then some i else entry j is

entry-map :
    (now : ℤ) (j : Bytes) (rows : List (Bytes × NoteRow))
    → entry j (map (λ r. note_from now r.0 r.1) rows) ≡ Option.map (note_from now j) (select j rows)
unfolding select note_from
entry-map now j [] = refl
entry-map now j ((i, row) ∷ rows) = ground (arith, eqs_iff i j, entry-map now j rows)

live : ℤ → Bytes → NoteRow → Bool
live now _ row = note_live now row

map-pass :
    (now : ℤ) (j : Bytes) (o : Option NoteRow)
    → Option.map (note_from now j) (pass (note_live now) o) ≡ live_note now j o
unfolding live_note
map-pass now j none = refl
map-pass now j (some row) = ground arith

-- Where keys are distinct, a ListNotes and a GetNote at the same time that both answer agree: the
-- list has a note under the key exactly if GetNote finds one, and it is that note.
pub list_notes-get_note :
    (now : ℤ) (w : World) (notes : List Note) (j : Bytes) (found : Option Note) {w' w'' : World}
    → Unique w.db.notes
    → list_notes now w ≡ ok notes w'
    → get_note now j w ≡ ok found w''
    → entry j notes ≡ found
unfolding live list_notes get_note
list_notes-get_note now w notes j found u h g =
    let listed : notes
        ≡ map (λ r. note_from now r.0 r.1) (order_by_key (select_where (live now) w.db.notes)) =
      ground arith in
    let read : found ≡ live_note now j (select j w.db.notes) = ground arith in
    rw (listed, read)
      (entry-map now j _
        ∙ (ap (Option.map (note_from now j)) (
              select-order_by_key j _ (select_where-Unique (live now) w.db.notes u)
              ∙ select-select_where (live now) j w.db.notes u)
            ∙ map-pass now j (select j w.db.notes)))
