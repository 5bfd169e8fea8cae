-- ===== src/Mcp/Tools/Dispatch.antt =====
-- The list of tools that internal/mcp/tools.go advertises, and the switch that its calls go through.
use agentpeek.Common.{
  ◌≡◌, ◌↔◌, refl, sym, ◌∙◌, Bool, false, ◌||◌, Option, none, some, List, [], ◌∷◌, map,
  if◌then◌else◌, arith, Bytes, str, eqs, eqs_iff,
}
use agentpeek.Mcp.Schema.{ToolDef, tool_defs}
use agentpeek.Mcp.Tools.{
  Tool, for_lock_resource, for_unlock_resource, for_renew_lock, for_list_locks, for_lock_resources,
  for_set_note, for_get_note, for_list_notes, for_delete_note, for_set_note_if,
  for_increment_counter, for_register_agent, for_unregister_agent, for_list_agents,
  for_signal_event, for_wait_for_event, for_clear_event, for_push_task, for_claim_next_task,
  for_complete_task, for_fail_task, for_list_tasks, tool_named,
}

-- The first definition under a name.
unfoldable pub advertised : Bytes → List ToolDef → Option ToolDef
advertised name [] = none
advertised name (t ∷ ts) = if eqs name t.name then some t else advertised name ts

-- The string of a case.
abbrev pub name_of : Tool → Bytes
name_of for_lock_resource = str "lock_resource"
name_of for_unlock_resource = str "unlock_resource"
name_of for_renew_lock = str "renew_lock"
name_of for_list_locks = str "list_locks"
name_of for_lock_resources = str "lock_resources"
name_of for_set_note = str "set_note"
name_of for_get_note = str "get_note"
name_of for_list_notes = str "list_notes"
name_of for_delete_note = str "delete_note"
name_of for_set_note_if = str "set_note_if"
name_of for_increment_counter = str "increment_counter"
name_of for_register_agent = str "register_agent"
name_of for_unregister_agent = str "unregister_agent"
name_of for_list_agents = str "list_agents"
name_of for_signal_event = str "signal_event"
name_of for_wait_for_event = str "wait_for_event"
name_of for_clear_event = str "clear_event"
name_of for_push_task = str "push_task"
name_of for_claim_next_task = str "claim_next_task"
name_of for_complete_task = str "complete_task"
name_of for_fail_task = str "fail_task"
name_of for_list_tasks = str "list_tasks"

abbrev cases : List Tool
cases =
    for_lock_resource ∷ for_unlock_resource ∷ for_renew_lock ∷ for_list_locks ∷ for_lock_resources
    ∷ for_set_note ∷ for_get_note ∷ for_list_notes ∷ for_delete_note ∷ for_set_note_if
    ∷ for_increment_counter ∷ for_register_agent ∷ for_unregister_agent ∷ for_list_agents
    ∷ for_signal_event ∷ for_wait_for_event ∷ for_clear_event ∷ for_push_task ∷ for_claim_next_task
    ∷ for_complete_task ∷ for_fail_task ∷ for_list_tasks ∷ []

-- The switch, as a search of its cases.
unfoldable switch : Bytes → List Tool → Option Tool
switch name [] = none
switch name (t ∷ ts) = if eqs name (name_of t) then some t else switch name ts

tool_named-switch : (name : Bytes) → tool_named name ≡ switch name cases
unfolding tool_named switch
tool_named-switch name = refl

-- Whether a name is among some.
unfoldable pub has : Bytes → List Bytes → Bool
has name [] = false
has name (n ∷ ns) = eqs name n || has name ns

switch-has :
    (name : Bytes) (ts : List Tool) → (switch name ts ≡ none) ↔ (has name (map name_of ts) ≡ false)
unfolding switch has
switch-has name [] = ground arith
switch-has name (t ∷ ts) = ground (arith, switch-has name ts)

advertised-has :
    (name : Bytes) (ts : List ToolDef)
    → (advertised name ts ≡ none) ↔ (has name (map (λ t. t.name) ts) ≡ false)
unfolding advertised has
advertised-has name [] = ground arith
advertised-has name (t ∷ ts) = ground (arith, advertised-has name ts)

same_names : map name_of cases ≡ map (λ t. t.name) tool_defs
unfolding tool_defs
same_names = refl

-- The list and the switch are in step: a name that no advertised tool has goes to the default, and
-- no other name does.
pub tool_named_iff : (name : Bytes) → (tool_named name ≡ none) ↔ (advertised name tool_defs ≡ none)
tool_named_iff name = ground (
  arith,
  tool_named-switch name,
  switch-has name cases,
  advertised-has name tool_defs,
  same_names,
)

switch-name :
    (name : Bytes) (ts : List Tool) {t : Tool} → switch name ts ≡ some t → name ≡ name_of t
unfolding switch
switch-name name [] h = ground arith
switch-name name (t' ∷ ts) {t} h =
    ground (arith, eqs_iff name (name_of t'), switch-name name ts {t = t})

-- A tool runs under its own name only.
pub tool_named-name : (name : Bytes) {t : Tool} → tool_named name ≡ some t → name ≡ name_of t
tool_named-name name h = switch-name name cases (sym (tool_named-switch name) ∙ h)
