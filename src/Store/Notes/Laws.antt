-- ===== src/Store/Notes/Laws.antt =====
-- What the note operations promise.
use agentpeek.Common.{
  ℕ, zero, suc, negsuc, ◌+◌, ◌-◌, ◌<◌, ◌^◌, ltb, pos_part, add64, sub64, ℤ, pos, ◌≡◌, ◌≢◌, refl,
  Bool, true, false, ◌&&◌, Option, none, some, arith, if◌then◌else◌, Bytes, eqs, eqs_iff, eqs_refl,
  lt64, lt64_lem, [], Option-cases, inl, inr,
}
use agentpeek.Sql.Table.{select, select-upsert, select-delete}
use agentpeek.Store.Db.{NoteRow, CounterRow}
use agentpeek.Store.Exec.{World, ok}
use agentpeek.Store.Locks.{secs_left}
use agentpeek.Store.Notes.{
  null_string, Note, note_row, note_live, note_from, note_expiry, nullable_author, set_note,
  get_note, delete_note, set_note_if, effective, increment_counter, counter_sum, live_note,
}

-- The value that a reader sees: "" where there is no note.
abbrev pub seen : Option Note → Bytes
seen none = []
seen (some n) = n.value

-- The current value of a compare-and-swap is what a reader sees.
seen-live_note :
    (now : ℤ) (key : Bytes) (o : Option NoteRow) → seen (live_note now key o) ≡ effective now o
unfolding live_note note_live note_from effective
seen-live_note now key none = refl
seen-live_note now key (some row) = elim (Option-cases row.expires_at) [
  | inl e ↦ ground arith
  | inr (t, e) ↦ ground (arith, lt64_lem now t)
]

-- The note that a reader should see at `later` of one that was set at `now`: with a positive
-- lifetime, for that many seconds, and else for good.
abbrev pub readable : ℕ → ℕ → ℤ → Bytes → Bytes → Bytes → Option Note
readable now later (pos (suc ttl)) key value author =
    if ltb later (now + suc ttl)
    then some (record {
      key = key;
      value = value;
      author = author;
      expires_in_seconds = pos (now + suc ttl - later);
      has_expiry = true;
    })
    else none
readable now later ttl key value author = some (record {
  key = key;
  value = value;
  author = author;
  expires_in_seconds = pos 0;
  has_expiry = false;
})

null_string-nullable_author : (author : Bytes) → null_string (nullable_author author) ≡ author
unfolding nullable_author
null_string-nullable_author author = ground (arith, eqs_iff author [])

live_note-note_row :
    (now later : ℕ) (ttl : ℤ) (key value author : Bytes)
    → now + pos_part ttl < 2 ^ 63
    → live_note (pos later) key (some (note_row (pos now) value author ttl))
      ≡ readable now later ttl key value author
unfolding live_note note_live note_from note_expiry secs_left add64 sub64 lt64
live_note-note_row now later (negsuc n) key value author fits =
    ground (arith, null_string-nullable_author author)
live_note-note_row now later (pos zero) key value author fits =
    ground (arith, null_string-nullable_author author)
live_note-note_row now later (pos (suc ttl)) key value author fits =
    ground (arith, null_string-nullable_author author)

-- After a SetNote that succeeds, a GetNote that answers gives the new note under its key: for good
-- where the lifetime is not positive, and else with the seconds that are left until the time it was
-- set plus its lifetime (which is an int64), and nothing from then on. Under any other key it gives
-- what a GetNote without the SetNote gives.
pub get_note-set_note :
    (now later : ℕ) (key value author : Bytes) (ttl : ℤ) (w : World) (j : Bytes)
    (found before : Option Note) {w' w'' w₀ : World}
    → now + pos_part ttl < 2 ^ 63
    → set_note (pos now) key value author ttl w ≡ ok tt w'
    → get_note (pos later) j w' ≡ ok found w''
    → get_note (pos later) j w ≡ ok before w₀
    → found ≡ (if eqs key j then readable now later ttl key value author else before)
unfolding set_note get_note
get_note-set_note now later key value author ttl w j found before fits s g b = ground (
  arith,
  select-upsert key j (note_row (pos now) value author ttl) w.db.notes,
  eqs_iff key j,
  live_note-note_row now later ttl key value author fits,
)

module _ (now : ℤ) (key value author : Bytes) (ttl : ℤ) (w : World) where
  -- A note without expiry is read back in full, at any time.
  pub note_roundtrip :
      (later : ℤ) (found : Option Note) {w' w'' : World}
      → lt64 (pos 0) ttl ≡ false
      → set_note now key value author ttl w ≡ ok tt w'
      → get_note later key w' ≡ ok found w''
      → found
        ≡ some (record {
          key = key;
          value = value;
          author = author;
          expires_in_seconds = pos 0;
          has_expiry = false;
        })
  unfolding set_note get_note live_note note_live note_from note_expiry nullable_author
  note_roundtrip later found p s g = ground (
    arith,
    select-upsert key key (note_row now value author ttl) w.db.notes,
    eqs_refl key,
    eqs_iff author [],
  )

module _ (now : ℤ) (key expected value author : Bytes) (ttl : ℤ) (w : World) where
  -- Where SetNoteIf and a read of the key at the same time both answer, the swap is made exactly if
  -- the reader sees the expected value (with the empty string for no live note); it writes that one
  -- note, and else nothing.
  pub set_note_if_lem :
      (swapped : Bool) (found : Option Note) (j : Bytes) {w' w'' : World}
      → set_note_if now key expected value author ttl w ≡ ok swapped w'
      → get_note now key w ≡ ok found w''
      → (swapped ≡ eqs (seen found) expected)
        × (select j w'.db.notes ≡ (
            if swapped && eqs key j
            then some (note_row now value author ttl)
            else select j w.db.notes))
  unfolding set_note_if get_note
  set_note_if_lem swapped found j s g = ground (
    arith,
    seen-live_note now key (select key w.db.notes),
    select-upsert key j (note_row now value author ttl) w.db.notes,
  )

-- DeleteNote reports whether there was a row, and leaves none.
pub delete_note_lem :
    (key j : Bytes) (w : World) (deleted : Bool) {w' : World}
    → delete_note key w ≡ ok deleted w'
    → ((deleted ≡ true) → select key w.db.notes ≢ none)
      × ((deleted ≡ false) → select key w.db.notes ≡ none)
      × (select j w'.db.notes ≡ (if eqs key j then none else select j w.db.notes))
unfolding delete_note
delete_note_lem key j w deleted h = ground (arith, select-delete key j w.db.notes)

-- An IncrementCounter that succeeds returns the counter's sum (the increment alone for a new one)
-- and stores it, and changes no other counter.
pub increment_counter_lem :
    (overflow : Bytes) (now : ℤ) (name : Bytes) (by : ℤ) (j : Bytes) (w : World) (value : ℤ)
    {w' : World}
    → increment_counter overflow now name by w ≡ ok value w'
    → (value ≡ counter_sum by (select name w.db.counters))
      × (select j w'.db.counters ≡ (
          if eqs name j
          then some (record { value = value; updated_at = now })
          else select j w.db.counters))
unfolding increment_counter
increment_counter_lem overflow now name by j w value h =
    let row : CounterRow = record {
      value = counter_sum by (select name w.db.counters);
      updated_at = now;
    } in
    ground (
      arith,
      select-upsert name j row w.db.counters,
      select-upsert name name row w.db.counters,
      eqs_refl name,
    )
