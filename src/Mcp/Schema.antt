-- ===== src/Mcp/Schema.antt =====
-- toolDefs of internal/mcp/tools.go: the tools that tools/list shows, with their input schemas. The
-- texts are the source's; each is a list of code points, which are its bytes but for the dash.
use agentpeek.Common.{List, [], ◌∷◌, ◌++◌, Bytes, str}

-- A property of an input schema. `array_of_strings` is the schema that toolDefs writes out for
-- `names`, and `typed` what prop makes of a type.
pub data Kind : Type 0 where
  typed : Bytes → Kind
  array_of_strings : Kind

pub record Property : Type 0 where
  pub name : Bytes
  pub kind : Kind
  pub description : Bytes

-- type toolDef, with the properties and required names that obj is given.
pub record ToolDef : Type 0 where
  pub name : Bytes
  pub description : Bytes
  pub properties : List Property
  pub required : List Bytes

-- func prop, under its key
abbrev pub prop : Bytes → Bytes → Bytes → Property
prop name kind description = record { name = name; kind = typed kind; description = description }

abbrev strings : Bytes → Bytes → Property
strings name description = record {
  name = name;
  kind = array_of_strings;
  description = description;
}

abbrev tool : Bytes → Bytes → List Property → List Bytes → ToolDef
tool name description properties required = record {
  name = name;
  description = description;
  properties = properties;
  required = required;
}

-- LOCKS
lock_tools : List ToolDef
lock_tools =
    tool (str "lock_resource")
      (str
        "Acquire an exclusive lock on a named resource so other agents do not touch it concurrently. Pass wait_seconds (up to 50) to BLOCK until the lock is acquired — this is the coordination-by-default path; with the default wait_seconds=0 a contended lock returns locked=false immediately. Use a descriptive name like 'file:/path/to/file', 'npm-install', or 'agent:some-id'. On success you get a lock_token; pass it to renew_lock/unlock_resource. If blocking times out you get a wake_token + queue_position — call again with that wake_token to keep your place in line.")
      (prop (str "name") (str "string")
          (str "Resource name to lock, e.g. 'file:/path', 'npm-install', 'agent:id'.")
        ∷ prop (str "agent_id") (str "string") (str "Stable identifier of the calling agent.")
        ∷ prop (str "ttl_seconds") (str "integer") (
            str
              "Lock lifetime in seconds (default 900). The lock auto-expires after this if not renewed.")
        ∷ prop (str "ttl_minutes") (str "integer") (
            str
              "Deprecated alias for ttl_seconds expressed in minutes; ttl_seconds wins if both are given.")
        ∷ prop (str "wait_seconds") (str "integer") (
            str
              "Block up to this many seconds (0-50) waiting to acquire. 0 = return immediately if held.")
        ∷ prop (str "wake_token") (str "string") (
            str
              "Re-poll token from a prior timed-out call; pass it to keep your FIFO place in line.")
        ∷ [])
      (str "name" ∷ str "agent_id" ∷ [])
    ∷ tool (str "unlock_resource")
        (str
          "Release a lock you hold. Prefer passing the lock_token returned by lock_resource; agent_id is accepted for compatibility. No-op if not held or not yours.")
        (prop (str "name") (str "string") (str "Resource name to unlock.")
          ∷ prop (str "agent_id") (str "string")
              (str "Calling agent id (used if lock_token is omitted).")
          ∷ prop (str "lock_token") (str "string")
              (str "The lock_token returned by lock_resource (preferred).")
          ∷ [])
        (str "name" ∷ [])
    ∷ tool (str "renew_lock")
        (str
          "Extend a lock you hold before it expires. Prefer passing lock_token; agent_id is accepted for compatibility (renews only if the live holder matches).")
        (prop (str "name") (str "string") (str "Resource name to renew.")
          ∷ prop (str "lock_token") (str "string")
              (str "The lock_token returned by lock_resource (preferred).")
          ∷ prop (str "agent_id") (str "string")
              (str "Calling agent id (used if lock_token is omitted).")
          ∷ prop (str "ttl_seconds") (str "integer")
              (str "New lifetime in seconds from now (default 900).")
          ∷ prop (str "ttl_minutes") (str "integer")
              (str "Deprecated alias for ttl_seconds in minutes.")
          ∷ [])
        (str "name" ∷ [])
    ∷ tool (str "list_locks")
        (str "List all currently held locks with their holder agent and remaining seconds.") ([])
        ([])
    ∷ tool (str "lock_resources")
        (str
          "Atomically acquire several locks at once (all-or-nothing). If any name is held, none are acquired. Returns a token per name on success.")
        (strings (str "names") (str "Resource names to lock together.")
          ∷ prop (str "agent_id") (str "string") (str "Calling agent id.")
          ∷ prop (str "ttl_seconds") (str "integer") (str "Lock lifetime in seconds (default 900).")
          ∷ prop (str "ttl_minutes") (str "integer")
              (str "Deprecated alias for ttl_seconds in minutes.")
          ∷ [])
        (str "names" ∷ str "agent_id" ∷ [])
    ∷ []

-- NOTES / STATE
note_tools : List ToolDef
note_tools =
    tool (str "set_note")
      (str
        "Store a shared key/value note visible to all agents. Optionally set an expiry via ttl_seconds; default is no expiry.")
      (prop (str "key") (str "string") (str "Note key.")
        ∷ prop (str "value") (str "string") (str "Note value.")
        ∷ prop (str "author") (str "string") (str "Optional provenance — who wrote it.")
        ∷ prop (str "ttl_seconds") (str "integer")
            (str "Optional expiry in seconds; omit for no expiry.")
        ∷ prop (str "ttl_minutes") (str "integer")
            (str "Deprecated alias for ttl_seconds in minutes.")
        ∷ [])
      (str "key" ∷ str "value" ∷ [])
    ∷ tool (str "get_note")
        (str "Read a shared note by key. Returns found=false if absent or expired.")
        (prop (str "key") (str "string") (str "Note key to read.") ∷ []) (str "key" ∷ [])
    ∷ tool (str "list_notes") (str "List all non-expired shared notes.") ([]) ([])
    ∷ tool (str "delete_note")
        (str "Delete a shared note by key. Returns deleted=false if it did not exist.")
        (prop (str "key") (str "string") (str "Note key to delete.") ∷ []) (str "key" ∷ [])
    ∷ tool (str "set_note_if")
        (str
          "Atomic compare-and-swap on a note: only writes new_value if the current value equals expected_value (an absent/expired note counts as \"\"). Use for lock-free coordination on shared state.")
        (prop (str "key") (str "string") (str "Note key.")
          ∷ prop (str "expected_value") (str "string") (
              str
                "Value the note must currently have for the swap to happen (use \"\" for create-if-absent).")
          ∷ prop (str "new_value") (str "string") (str "Value to write if expected_value matches.")
          ∷ prop (str "author") (str "string") (str "Optional provenance.")
          ∷ prop (str "ttl_seconds") (str "integer") (str "Optional expiry in seconds.")
          ∷ prop (str "ttl_minutes") (str "integer")
              (str "Deprecated alias for ttl_seconds in minutes.")
          ∷ [])
        (str "key" ∷ str "expected_value" ∷ str "new_value" ∷ [])
    ∷ tool (str "increment_counter")
        (str
          "Atomically add to a named shared counter (creating it if absent) and return the new value.")
        (prop (str "name") (str "string") (str "Counter name.")
          ∷ prop (str "by") (str "integer") (str "Amount to add (default 1; may be negative).")
          ∷ [])
        (str "name" ∷ [])
    ∷ []

-- PRESENCE
agent_tools : List ToolDef
agent_tools =
    tool (str "register_agent")
      (str
        "Register/heartbeat the calling agent with a TTL so others can see it is alive. Call periodically to stay registered; when it lapses the agent's locks are auto-released.")
      (prop (str "agent_id") (str "string") (str "Stable agent id to register.")
        ∷ prop (str "ttl_seconds") (str "integer")
            (str "Heartbeat lifetime in seconds (default 60).")
        ∷ [])
      (str "agent_id" ∷ [])
    ∷ tool (str "unregister_agent")
        (str "Gracefully unregister the calling agent, releasing all locks it holds.")
        (prop (str "agent_id") (str "string") (str "Agent id to unregister.") ∷ [])
        (str "agent_id" ∷ [])
    ∷ tool (str "list_agents")
        (str "List all currently registered (non-expired) agents with remaining seconds.") ([]) ([])
    ∷ []

-- EVENTS
event_tools : List ToolDef
event_tools =
    tool (str "signal_event")
      (str
        "Fire a named event, bumping its generation counter and waking all waiters. Returns the new generation.")
      (prop (str "name") (str "string") (str "Event name to signal.") ∷ []) (str "name" ∷ [])
    ∷ tool (str "wait_for_event")
        (str
          "Block until a named event's generation advances beyond last_seen_generation, up to wait_seconds (0-50, default 25). Pass back the generation you last saw to avoid missing signals.")
        (prop (str "name") (str "string") (str "Event name to wait on.")
          ∷ prop (str "last_seen_generation") (str "integer") (
              str
                "Generation you last observed (default 0); returns immediately if the current generation is higher.")
          ∷ prop (str "wait_seconds") (str "integer")
              (str "Max seconds to block (0-50, default 25).")
          ∷ [])
        (str "name" ∷ [])
    ∷ tool (str "clear_event") (str "Reset a named event's generation to absent (0).")
        (prop (str "name") (str "string") (str "Event name to clear.") ∷ []) (str "name" ∷ [])
    ∷ []

-- TASKS
task_tools : List ToolDef
task_tools =
    tool (str "push_task")
      (str
        "Enqueue a task onto a named work queue. Higher priority and older tasks are claimed first. Returns the task id.")
      (prop (str "queue") (str "string") (str "Queue name.")
        ∷ prop (str "payload") (str "string") (str "Opaque task payload (e.g. JSON).")
        ∷ prop (str "author") (str "string") (str "Optional provenance.")
        ∷ prop (str "priority") (str "integer")
            (str "Priority; higher is claimed first (default 0).")
        ∷ [])
      (str "queue" ∷ str "payload" ∷ [])
    ∷ tool (str "claim_next_task")
        (str
          "Atomically lease the next pending task from a queue. The lease auto-requeues if you don't complete/renew within lease_seconds or your agent goes away. Returns a lease_token for complete_task/fail_task.")
        (prop (str "queue") (str "string") (str "Queue to claim from.")
          ∷ prop (str "agent_id") (str "string") (str "Claiming agent id.")
          ∷ prop (str "lease_seconds") (str "integer")
              (str "Lease duration in seconds (default 120).")
          ∷ [])
        (str "queue" ∷ str "agent_id" ∷ [])
    ∷ tool (str "complete_task")
        (str "Mark a leased task done. Requires the lease_token from claim_next_task.")
        (prop (str "id") (str "integer") (str "Task id to complete.")
          ∷ prop (str "lease_token") (str "string") (str "Lease token from claim_next_task.")
          ∷ [])
        (str "id" ∷ str "lease_token" ∷ [])
    ∷ tool (str "fail_task")
        (str
          "Release a leased task. By default (requeue=true) it returns to pending for another consumer; requeue=false gives up and marks it done.")
        (prop (str "id") (str "integer") (str "Task id to fail.")
          ∷ prop (str "lease_token") (str "string") (str "Lease token from claim_next_task.")
          ∷ prop (str "requeue") (str "boolean")
              (str "Return to pending (true, default) or give up (false).")
          ∷ [])
        (str "id" ∷ str "lease_token" ∷ [])
    ∷ tool (str "list_tasks")
        (str
          "List all tasks in a queue with their state, priority, and (for claimed tasks) the holding agent and remaining lease.")
        (prop (str "queue") (str "string") (str "Queue name to list.") ∷ []) (str "queue" ∷ [])
    ∷ []

-- func toolDefs
unfoldable pub tool_defs : List ToolDef
unfolding lock_tools note_tools agent_tools event_tools task_tools
tool_defs = lock_tools ++ (note_tools ++ (agent_tools ++ (event_tools ++ task_tools)))
