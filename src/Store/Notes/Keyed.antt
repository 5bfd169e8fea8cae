-- ===== src/Store/Notes/Keyed.antt =====
-- The calls on notes and counters keep the keys of every table.
use agentpeek.Common.{ℤ, Option, not, Bytes, eqs}
use agentpeek.Sql.Table.{upsert-Unique, delete-Unique}
use agentpeek.Store.Db.{NoteRow, sql}
use agentpeek.Store.Exec.{query, exec}
use agentpeek.Store.Notes.{
  set_note, get_note, list_notes, delete_note, effective, swap_row, set_note_if, upsert_counter,
  counter_fits, increment_counter,
}
use agentpeek.Store.Keyed.{
  Keeps, pure-Keeps, fail-Keeps, bind-Keeps, query-Keeps, write-Keeps, exec-Keeps, tx-Keeps,
  if-Keeps, set_notes-Keyed, set_counters-Keyed,
}

pub set_note-Keeps :
    (now : ℤ) (key value author : Bytes) (ttl : ℤ) → Keeps (set_note now key value author ttl)
unfolding set_note
set_note-Keeps now key value author ttl =
    tx-Keeps _ (exec-Keeps _ (set_notes-Keyed _ (upsert-Unique key _)))

pub get_note-Keeps : (now : ℤ) (key : Bytes) → Keeps (get_note now key)
unfolding get_note
get_note-Keeps now key = query-Keeps _

pub list_notes-Keeps : (now : ℤ) → Keeps (list_notes now)
unfolding list_notes
list_notes-Keeps now = bind-Keeps (query _) _ (query-Keeps _) (λ rows. pure-Keeps _)

pub delete_note-Keeps : (key : Bytes) → Keeps (delete_note key)
unfolding delete_note
delete_note-Keeps key = tx-Keeps _ (
    bind-Keeps (query _) _ (query-Keeps _)
      (λ deleted. write-Keeps deleted _ (set_notes-Keyed _ (delete-Unique key))))

swap_row-Keeps :
    (now : ℤ) (key expected : Bytes) (row : NoteRow) (found : Option NoteRow)
    → Keeps (swap_row now key expected row found)
unfolding swap_row
swap_row-Keeps now key expected row found =
    if-Keeps (not (eqs (effective now found) expected)) _ _ (pure-Keeps _) (
      bind-Keeps (exec _) _ (exec-Keeps _ (set_notes-Keyed _ (upsert-Unique key row)))
        (λ u. pure-Keeps _))

pub set_note_if-Keeps :
    (now : ℤ) (key expected new_value author : Bytes) (ttl : ℤ)
    → Keeps (set_note_if now key expected new_value author ttl)
unfolding set_note_if
set_note_if-Keeps now key expected new_value author ttl =
    tx-Keeps _
      (bind-Keeps (query _) _ (query-Keeps _) (λ found. swap_row-Keeps now key expected _ found))

upsert_counter-Keeps : (now : ℤ) (name : Bytes) (by : ℤ) → Keeps (upsert_counter now name by)
unfolding upsert_counter
upsert_counter-Keeps now name by =
    bind-Keeps (query _) _ (query-Keeps _)
      (λ old. write-Keeps old _ (set_counters-Keyed _ (upsert-Unique name _)))

pub increment_counter-Keeps :
    (overflow : Bytes) (now : ℤ) (name : Bytes) (by : ℤ)
    → Keeps (increment_counter overflow now name by)
unfolding increment_counter
increment_counter-Keeps overflow now name by = tx-Keeps _ (
    bind-Keeps _ _ (upsert_counter-Keeps now name by) (λ old.
      bind-Keeps (query _) _ (query-Keeps _)
        (λ found. if-Keeps (counter_fits by old) _ _ (pure-Keeps _) (fail-Keeps ℤ (sql overflow)))))
