-- ===== src/Mcp/Tools/Required.antt =====
-- The required fields of the schemas in internal/mcp/tools.go, and what the tools do without them.
use agentpeek.Common.{
  ℤ, ◌≡◌, ◌≢◌, refl, sym, ap, ◌∙◌, Bool, true, false, Option, none, some, List, [], ◌∷◌, arith,
  Bytes, str, eqs, eqs_iff, if◌then◌else◌,
}
use agentpeek.Sql.Table.{select}
use agentpeek.Mcp.Json.{Json, Arguments, Runtime}
use agentpeek.Mcp.Arguments.{arg_str, arg_str_slice, arg_id}
use agentpeek.Mcp.Daemon.{Daemon, Progress, missing}
use agentpeek.Mcp.Schema.{ToolDef, tool_defs}
use agentpeek.Mcp.Tools.{
  Tool, call_tool, tool_named, for_lock_resource, for_unlock_resource, for_renew_lock,
  for_list_locks, for_lock_resources, for_set_note, for_get_note, for_list_notes, for_delete_note,
  for_set_note_if, for_increment_counter, for_register_agent, for_unregister_agent, for_list_agents,
  for_signal_event, for_wait_for_event, for_clear_event, for_push_task, for_claim_next_task,
  for_complete_task, for_fail_task, for_list_tasks, run_tool,
}
use agentpeek.Mcp.Tools.Dispatch.{advertised, name_of, has, tool_named_iff, tool_named-name}
use agentpeek.Mcp.Tools.Locks.{lock_resource, unlock_resource, renew_lock, lock_resources}
use agentpeek.Mcp.Tools.Notes.{store_note, read_note, remove_note, swap_note, add_counter}
use agentpeek.Mcp.Tools.Agents.{register_agent, unregister_agent}
use agentpeek.Mcp.Tools.Events.{signal_event, wait_for_event, clear_event}
use agentpeek.Mcp.Tools.Tasks.{push_task, claim_next_task, complete_task, release_task, list_queue}

-- The outcome is the refusal for one of some fields, and nothing else has happened.
abbrev pub Refusal : List Bytes → Daemon → Progress × Daemon → Type 0
Refusal fields d out = (field : Bytes) × (has field fields ≡ true) × (out ≡ missing field d)

arg_str-absent : (args : Arguments) (key : Bytes) → select key args ≡ none → arg_str args key ≡ []
unfolding arg_str
arg_str-absent args key h = ground arith

arg_str_slice-absent :
    (args : Arguments) (key : Bytes) → select key args ≡ none → arg_str_slice args key ≡ []
unfolding arg_str_slice
arg_str_slice-absent args key h = ground arith

arg_id-absent :
    (rt : Runtime) (args : Arguments) → select (str "id") args ≡ none → arg_id rt args ≡ none
unfolding arg_id
arg_id-absent rt args h = ground arith

has-nil : (field : Bytes) → has field [] ≢ true
unfolding has
has-nil field h = absurd (ground arith)

-- The checks that the tools make, in the order of their code, with what they refuse.
module _ (args : Arguments) (d : Daemon) (field : Bytes) where
  -- No field is left to miss.
  done : {out : Progress × Daemon} → has field [] ≡ true → Refusal [] d out
  unfolding has
  done h = absurd (ground arith)

  check :
      (f : Bytes) (fs : List Bytes) (b : Bool) (rest : Progress × Daemon)
      → has field (f ∷ fs) ≡ true
      → (field ≡ f → b ≡ true)
      → (has field fs ≡ true → Refusal fs d rest)
      → Refusal (f ∷ fs) d (if b then missing f d else rest)
  unfolding has
  check f fs true rest h k next = (f, ground (arith, eqs_iff f f), refl)
  check f fs false rest h k next =
      let (g, among, eq) = next (ground (arith, eqs_iff field f, k)) in (g, ground arith, eq)

  -- if argStr(args, f) == ""
  check_string :
      (f : Bytes) (fs : List Bytes) (rest : Progress × Daemon)
      → has field (f ∷ fs) ≡ true
      → select field args ≡ none
      → (has field fs ≡ true → Refusal fs d rest)
      → Refusal (f ∷ fs) d (if eqs (arg_str args f) [] then missing f d else rest)
  check_string f fs rest h a next =
      check f fs _ rest h (λ eq. ground (arith, arg_str-absent args f, eqs_iff (arg_str args f) []))
        next

  -- if _, ok := args[f]; !ok
  check_option :
      {V : Type 0} (f : Bytes) (fs : List Bytes) (o : Option V) (rest : V → Progress × Daemon)
      → has field (f ∷ fs) ≡ true
      → (field ≡ f → o ≡ none)
      → ((v : V) → has field fs ≡ true → Refusal fs d (rest v))
      → Refusal (f ∷ fs) d (elim o [ none ↦ missing f d | some v ↦ rest v ])
  unfolding has
  check_option f fs none rest h k next = (f, ground (arith, eqs_iff f f), refl)
  check_option f fs (some v) rest h k next =
      let (g, among, eq) = next v (ground (arith, eqs_iff field f, k)) in (g, ground arith, eq)

  -- if len(argStrSlice(args, f)) == 0
  check_list :
      (f : Bytes) (fs : List Bytes) (l : List Bytes) (rest : Bytes → List Bytes → Progress × Daemon)
      → has field (f ∷ fs) ≡ true
      → (field ≡ f → l ≡ [])
      → ((n : Bytes) (ns : List Bytes) → has field fs ≡ true → Refusal fs d (rest n ns))
      → Refusal (f ∷ fs) d (elim l [ [] ↦ missing f d | n ∷ ns ↦ rest n ns ])
  unfolding has
  check_list f fs [] rest h k next = (f, ground (arith, eqs_iff f f), refl)
  check_list f fs (n ∷ ns) rest h k next =
      let (g, among, eq) = next n ns (ground (arith, eqs_iff field f, k)) in (g, ground arith, eq)

  -- The same for a tool of one or two strings.
  one_string :
      (f : Bytes) (rest : Progress × Daemon)
      → has field (f ∷ []) ≡ true
      → select field args ≡ none
      → Refusal (f ∷ []) d (if eqs (arg_str args f) [] then missing f d else rest)
  one_string f rest h a = check_string f [] rest h a done

  two_strings :
      (f g : Bytes) (rest : Progress × Daemon)
      → has field (f ∷ g ∷ []) ≡ true
      → select field args ≡ none
      → Refusal (f ∷ g ∷ []) d (
          if eqs (arg_str args f) []
          then missing f d
          else if eqs (arg_str args g) []
          then missing g d
          else rest)
  two_strings f g rest h a = check_string f (g ∷ []) _ h a (λ h'. one_string g rest h' a)

  -- A field that must be there, last.
  last_field :
      (f : Bytes) (rest : Json → Progress × Daemon)
      → has field (f ∷ []) ≡ true
      → select field args ≡ none
      → Refusal (f ∷ []) d (elim (select f args) [ none ↦ missing f d | some v ↦ rest v ])
  last_field f rest h a = check_option f [] _ rest h (λ eq. ground (arith)) (λ v h'. done h')

required_in : Option ToolDef → List Bytes
required_in none = []
required_in (some t) = t.required

-- The fields that the schema of a tool requires, if a tool has the name.
unfoldable pub required_by : Bytes → List Bytes
unfolding required_in
required_by name = required_in (advertised name tool_defs)

-- The tool refuses to run without a required field.
run_tool-refuses :
    (rt : Runtime) (now later : ℤ) (t : Tool) (args : Arguments) (d : Daemon) (field : Bytes)
    → has field (required_by (name_of t)) ≡ true
    → select field args ≡ none
    → Refusal (required_by (name_of t)) d (run_tool rt now later t args d)
unfolding required_by advertised tool_defs eqs run_tool lock_resource unlock_resource renew_lock
    lock_resources store_note read_note remove_note swap_note add_counter register_agent
    unregister_agent signal_event wait_for_event clear_event push_task claim_next_task complete_task
    release_task list_queue
run_tool-refuses rt now later for_lock_resource args d field h a =
    two_strings args d field (str "name") (str "agent_id") _ h a
run_tool-refuses rt now later for_unlock_resource args d field h a =
    one_string args d field (str "name") _ h a
run_tool-refuses rt now later for_renew_lock args d field h a =
    one_string args d field (str "name") _ h a
run_tool-refuses rt now later for_list_locks args d field h a = done args d field h
run_tool-refuses rt now later for_lock_resources args d field h a =
    check_list args d field (str "names") (str "agent_id" ∷ []) _ _ h
      (λ eq. arg_str_slice-absent args (str "names") (ground arith))
      (λ n ns h'. one_string args d field (str "agent_id") _ h' a)
run_tool-refuses rt now later for_set_note args d field h a =
    check_string args d field (str "key") (str "value" ∷ []) _ h a
      (λ h'. last_field args d field (str "value") _ h' a)
run_tool-refuses rt now later for_get_note args d field h a =
    one_string args d field (str "key") _ h a
run_tool-refuses rt now later for_list_notes args d field h a = done args d field h
run_tool-refuses rt now later for_delete_note args d field h a =
    one_string args d field (str "key") _ h a
run_tool-refuses rt now later for_set_note_if args d field h a =
    check_string args d field (str "key") (str "expected_value" ∷ str "new_value" ∷ []) _ h a (λ h'.
      check_option args d field (str "expected_value") (str "new_value" ∷ [])
        (select (str "expected_value") args) _ h' (λ eq. ground arith)
        (λ v h''. last_field args d field (str "new_value") _ h'' a))
run_tool-refuses rt now later for_increment_counter args d field h a =
    one_string args d field (str "name") _ h a
run_tool-refuses rt now later for_register_agent args d field h a =
    one_string args d field (str "agent_id") _ h a
run_tool-refuses rt now later for_unregister_agent args d field h a =
    one_string args d field (str "agent_id") _ h a
run_tool-refuses rt now later for_list_agents args d field h a = done args d field h
run_tool-refuses rt now later for_signal_event args d field h a =
    one_string args d field (str "name") _ h a
run_tool-refuses rt now later for_wait_for_event args d field h a =
    one_string args d field (str "name") _ h a
run_tool-refuses rt now later for_clear_event args d field h a =
    one_string args d field (str "name") _ h a
run_tool-refuses rt now later for_push_task args d field h a =
    check_string args d field (str "queue") (str "payload" ∷ []) _ h a
      (λ h'. last_field args d field (str "payload") _ h' a)
run_tool-refuses rt now later for_claim_next_task args d field h a =
    two_strings args d field (str "queue") (str "agent_id") _ h a
run_tool-refuses rt now later for_complete_task args d field h a =
    check_option args d field (str "id") (str "lease_token" ∷ []) _ _ h
      (λ eq. arg_id-absent rt args (ground arith))
      (λ v h'. one_string args d field (str "lease_token") _ h' a)
run_tool-refuses rt now later for_fail_task args d field h a =
    check_option args d field (str "id") (str "lease_token" ∷ []) _ _ h
      (λ eq. arg_id-absent rt args (ground arith))
      (λ v h'. one_string args d field (str "lease_token") _ h' a)
run_tool-refuses rt now later for_list_tasks args d field h a =
    one_string args d field (str "queue") _ h a

required_by-unknown : (name : Bytes) → tool_named name ≡ none → required_by name ≡ []
unfolding required_by
required_by-unknown name eq = ap required_in ((tool_named_iff name).0 eq)

call_tool-run :
    (rt : Runtime) (now later : ℤ) (name : Bytes) (args : Arguments) (d : Daemon) (t : Tool)
    → tool_named name ≡ some t
    → call_tool rt now later name args d ≡ run_tool rt now later t args d
unfolding call_tool
call_tool-run rt now later name args d t eq = ground arith

-- A call of a tool without one of the fields that its advertised schema requires does nothing but
-- report a required field as missing.
pub call_tool-refuses :
    (rt : Runtime) (now later : ℤ) (name : Bytes) (args : Arguments) (d : Daemon) (field : Bytes)
    → has field (required_by name) ≡ true
    → select field args ≡ none
    → Refusal (required_by name) d (call_tool rt now later name args d)
call_tool-refuses rt now later name args d field h a = split (tool_named name) refl
  where
    split :
        (o : Option Tool)
        → tool_named name ≡ o
        → Refusal (required_by name) d (call_tool rt now later name args d)
    split none eq = absurd (has-nil field (ap (has field) (sym (required_by-unknown name eq)) ∙ h))
    split (some t) eq =
        let same = ap required_by (tool_named-name name eq) in
        let (g, among, out) =
          run_tool-refuses rt now later t args d field (ap (has field) (sym same) ∙ h) a in
        (g, ap (has g) same ∙ among, call_tool-run rt now later name args d t eq ∙ out)
