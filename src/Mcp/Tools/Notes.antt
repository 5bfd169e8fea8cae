-- ===== src/Mcp/Tools/Notes.antt =====
-- The note and counter tools of internal/mcp/tools.go.
pub mod Keyed
use agentpeek.Common.{
  ℤ, pos, true, false, Option, none, some, [], ◌∷◌, ◌++◌, map, if◌then◌else◌, str, eqs,
}
use agentpeek.Sql.Table.{select}
use agentpeek.Store.Notes.{
  Note, set_note, get_note, list_notes, delete_note, set_note_if, increment_counter,
}
use agentpeek.Mcp.Json.{Json, boolean, integer, text, map_of, slice_of, Arguments, Runtime}
use agentpeek.Mcp.Arguments.{arg_str, arg_int, ttl_seconds}
use agentpeek.Mcp.Daemon.{Daemon, on_store, Progress, missing, respond}

-- func noteMap
unfoldable pub note_map : Note → Json
note_map n = map_of (
    (str "key", text n.key)
      ∷ (str "value", text n.value)
      ∷ (if eqs n.author [] then [] else (str "author", text n.author) ∷ [])
    ++ (if n.has_expiry then (str "expires_in_seconds", integer n.expires_in_seconds) ∷ [] else []))

-- func (h *toolHandler) setNote
unfoldable pub store_note : Runtime → ℤ → Arguments → Daemon → Progress × Daemon
store_note rt now args d =
    let key = arg_str args (str "key") in
    if eqs key [] then missing (str "key") d else elim (select (str "value") args) [
      | none ↦ missing (str "value") d
      | some _ ↦
          respond rt (λ _. map_of ((str "saved", boolean true) ∷ []))
            (on_store
              (set_note now key (arg_str args (str "value")) (arg_str args (str "author"))
                (ttl_seconds rt args (pos 0)))
              d)
    ]

note_reply : Option Note → Json
note_reply none = map_of ((str "found", boolean false) ∷ [])
note_reply (some n) = note_map n

-- func (h *toolHandler) getNote
unfoldable pub read_note : Runtime → ℤ → Arguments → Daemon → Progress × Daemon
unfolding note_reply note_map
read_note rt now args d =
    let key = arg_str args (str "key") in
    if eqs key []
    then missing (str "key") d
    else respond rt note_reply (on_store (get_note now key) d)

-- func (h *toolHandler) listNotes
unfoldable pub read_notes : Runtime → ℤ → Daemon → Progress × Daemon
unfolding note_map
read_notes rt now d =
    respond rt (λ notes. slice_of (map note_map notes)) (on_store (list_notes now) d)

-- func (h *toolHandler) deleteNote
unfoldable pub remove_note : Runtime → Arguments → Daemon → Progress × Daemon
remove_note rt args d =
    let key = arg_str args (str "key") in
    if eqs key []
    then missing (str "key") d
    else respond rt (λ deleted. map_of ((str "deleted", boolean deleted) ∷ []))
        (on_store (delete_note key) d)

-- func (h *toolHandler) setNoteIf
unfoldable pub swap_note : Runtime → ℤ → Arguments → Daemon → Progress × Daemon
swap_note rt now args d =
    let key = arg_str args (str "key") in
    if eqs key [] then missing (str "key") d else elim (select (str "expected_value") args) [
      | none ↦ missing (str "expected_value") d
      | some _ ↦ elim (select (str "new_value") args) [
        | none ↦ missing (str "new_value") d
        | some _ ↦
            respond rt (λ swapped. map_of ((str "swapped", boolean swapped) ∷ []))
              (on_store
                (set_note_if now key (arg_str args (str "expected_value"))
                  (arg_str args (str "new_value")) (arg_str args (str "author"))
                  (ttl_seconds rt args (pos 0)))
                d)
      ]
    ]

-- func (h *toolHandler) incrementCounter
unfoldable pub add_counter : Runtime → ℤ → Arguments → Daemon → Progress × Daemon
add_counter rt now args d =
    let name = arg_str args (str "name") in
    if eqs name []
    then missing (str "name") d
    else respond rt (λ value. map_of ((str "value", integer value) ∷ []))
        (on_store (increment_counter rt.overflow_text now name (arg_int rt args (str "by") (pos 1)))
          d)
