-- ===== src/Store/Notes.antt =====
-- internal/store/notes.go: notes with an expiry, compare-and-swap, and counters.
pub mod Laws
pub mod Listing
pub mod Keyed
use agentpeek.Common.{
  ℤ, pos, Bool, true, false, ◌||◌, not, Option, none, some, List, [], ◌∷◌, map, if◌then◌else◌,
  Bytes, eqs, add64, le64, lt64, ltb, leb, pos_part, neg_part, ◌+◌, ◌^◌, ◌&&◌,
}
use agentpeek.Sql.Table.{select, upsert, delete, select_where}
use agentpeek.Sql.Order.{order_by_key}
use agentpeek.Store.Db.{Db, NoteRow, CounterRow, Error, sql}
use agentpeek.Store.Exec.{M, pure, fail, ◌>>=◌, ◌>>◌, query, exec, tx}
use agentpeek.Store.Locks.{secs_left}

-- type Note
pub record Note : Type 0 where
  pub key : Bytes
  pub value : Bytes
  pub author : Bytes
  pub expires_in_seconds : ℤ
  pub has_expiry : Bool

abbrev pub set_notes : (List (Bytes × NoteRow) → List (Bytes × NoteRow)) → Db → Db
set_notes f d = record d { notes = f d.notes }

abbrev pub set_counters : (List (Bytes × CounterRow) → List (Bytes × CounterRow)) → Db → Db
set_counters f d = record d { counters = f d.counters }

-- func nullableAuthor
unfoldable pub nullable_author : Bytes → Option Bytes
nullable_author author = if eqs author [] then none else some author

-- The String of a sql.NullString
abbrev pub null_string : Option Bytes → Bytes
null_string none = []
null_string (some s) = s

-- The expiry of a note: none where ttlSeconds is not positive.
unfoldable pub note_expiry : ℤ → ℤ → Option ℤ
note_expiry now ttl_seconds =
    if lt64 (pos 0) ttl_seconds then some (add64 now ttl_seconds) else none

abbrev pub note_row : ℤ → Bytes → Bytes → ℤ → NoteRow
note_row now value author ttl_seconds = record {
  value = value;
  author = nullable_author author;
  updated_at = now;
  expires_at = note_expiry now ttl_seconds;
}

-- func (s *Store) SetNote
unfoldable pub set_note : ℤ → Bytes → Bytes → Bytes → ℤ → M (Unit {0})
unfolding tx
set_note now key value author ttl_seconds =
    tx (exec (set_notes (upsert key (note_row now value author ttl_seconds))))

-- expires_at IS NULL OR expires_at > ?
unfoldable pub note_live : ℤ → NoteRow → Bool
note_live now row = elim row.expires_at [ none ↦ true | some t ↦ lt64 now t ]

-- func noteFrom
unfoldable pub note_from : ℤ → Bytes → NoteRow → Note
note_from now key row = record {
  key = key;
  value = row.value;
  author = null_string row.author;
  expires_in_seconds = elim row.expires_at [ none ↦ pos 0 | some t ↦ secs_left t now ];
  has_expiry = elim row.expires_at [ none ↦ false | some _ ↦ true ];
}

unfoldable pub live_note : ℤ → Bytes → Option NoteRow → Option Note
live_note now key none = none
live_note now key (some row) = if note_live now row then some (note_from now key row) else none

-- func (s *Store) GetNote: `none` where the second result is false
unfoldable pub get_note : ℤ → Bytes → M (Option Note)
unfolding live_note
get_note now key = query (λ d. live_note now key (select key d.notes))

-- func (s *Store) ListNotes
unfoldable pub list_notes : ℤ → M (List Note)
list_notes now = do
  rows ← query (λ d. order_by_key (select_where (λ _ row. note_live now row) d.notes))
  pure (map (λ r. note_from now r.0 r.1) rows)

deleted_row : Option NoteRow → Bool
deleted_row none = false
deleted_row (some _) = true

-- func (s *Store) DeleteNote: whether a row was affected
unfoldable pub delete_note : Bytes → M Bool
unfolding deleted_row tx
delete_note key = tx (do
  deleted ← query (λ d. deleted_row (select key d.notes))
  λ w. pure deleted (record w { db = set_notes (delete key) w.db }))

-- The switch of SetNoteIf on the row: the effective value.
unfoldable pub effective : ℤ → Option NoteRow → Bytes
effective now none = []
effective now (some row) = elim row.expires_at [
  | none ↦ row.value
  | some t ↦ if le64 t now then [] else row.value
]

swap_row : ℤ → Bytes → Bytes → NoteRow → Option NoteRow → M Bool
swap_row now key expected row found =
    if not (eqs (effective now found) expected)
    then pure false
    else (do exec (set_notes (upsert key row)); pure true)

-- func (s *Store) SetNoteIf
unfoldable pub set_note_if : ℤ → Bytes → Bytes → Bytes → Bytes → ℤ → M Bool
unfolding swap_row tx
set_note_if now key expected new_value author ttl_seconds = tx (do
  found ← query (λ d. select key d.notes)
  swap_row now key expected (note_row now new_value author ttl_seconds) found)

-- Whether the exact sum of two integers is an int64.
unfoldable pub fits : ℤ → ℤ → Bool
fits a b =
    ltb (pos_part a + pos_part b) (2 ^ 63 + neg_part a + neg_part b)
    && leb (neg_part a + neg_part b) (2 ^ 63 + pos_part a + pos_part b)

-- value=value+excluded.value, on the counter's row if it has one
unfoldable pub counter_sum : ℤ → Option CounterRow → ℤ
counter_sum by none = by
counter_sum by (some row) = add64 row.value by

counter_fits : ℤ → Option CounterRow → Bool
counter_fits by none = true
counter_fits by (some row) = fits row.value by

-- The upsert of IncrementCounter; it also gives the row that was there before.
upsert_counter : ℤ → Bytes → ℤ → M (Option CounterRow)
upsert_counter now name by = do
  old ← query (λ d. select name d.counters)
  λ w. pure old (record w {
    db = set_counters (upsert name (record { value = counter_sum by old; updated_at = now })) w.db;
  })

counter_value : Option CounterRow → ℤ
counter_value none = pos 0
counter_value (some row) = row.value

-- func (s *Store) IncrementCounter. SQLite makes a sum that is no int64 a float, which Scan refuses
-- with an error; `overflow` is its text.
unfoldable pub increment_counter : Bytes → ℤ → Bytes → ℤ → M ℤ
unfolding counter_fits upsert_counter counter_value tx
increment_counter overflow now name by = tx (do
  old ← upsert_counter now name by
  found ← query (λ d. select name d.counters)
  if counter_fits by old then pure (counter_value found) else fail (sql overflow))
