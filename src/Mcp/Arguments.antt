-- ===== src/Mcp/Arguments.antt =====
-- The argument helpers of internal/mcp/tools.go.
use agentpeek.Common.{ℤ, pos, Bool, Option, none, some, List, [], ◌∷◌, Bytes, str, mul64}
use agentpeek.Sql.Table.{select}
use agentpeek.Mcp.Json.{
  Json, boolean, float64, integer, json_number, text, array, Items, end_items, item, Arguments,
  Runtime,
}

-- const defaultLockTTLSeconds, defaultPresenceTTLSeconds, defaultEventWaitSeconds,
-- defaultTaskLeaseSeconds
abbrev pub default_lock_ttl_seconds : ℤ
default_lock_ttl_seconds = pos 900

abbrev pub default_presence_ttl_seconds : ℤ
default_presence_ttl_seconds = pos 60

abbrev pub default_event_wait_seconds : ℤ
default_event_wait_seconds = pos 25

abbrev pub default_task_lease_seconds : ℤ
default_task_lease_seconds = pos 120

str_of : Option Json → Bytes
str_of (some (text s)) = s
str_of _ = []

-- func argStr
unfoldable pub arg_str : Arguments → Bytes → Bytes
unfolding str_of
arg_str args key = str_of (select key args)

int_of : Runtime → ℤ → Option Json → ℤ
int_of c def (some (float64 n)) = c.int_of_float n
int_of c def (some (integer n)) = n
int_of c def (some (json_number n)) = elim (c.int64_of_number n) [ some i ↦ i | none ↦ def ]
int_of c def _ = def

-- func argInt
unfoldable pub arg_int : Runtime → Arguments → Bytes → ℤ → ℤ
unfolding int_of
arg_int c args key def = int_of c def (select key args)

bool_of : Bool → Option Json → Bool
bool_of def (some (boolean b)) = b
bool_of def _ = def

-- func argBool
unfoldable pub arg_bool : Arguments → Bytes → Bool → Bool
unfolding bool_of
arg_bool args key def = bool_of def (select key args)

-- The loop of argStrSlice: elements that are no strings are skipped.
strings : Items → List Bytes
strings end_items = []
strings (item (text s) vs) = s ∷ strings vs
strings (item _ vs) = strings vs

slice_of_strings : Option Json → List Bytes
unfolding strings
slice_of_strings (some (array vs)) = strings vs
slice_of_strings _ = []

-- func argStrSlice
unfoldable pub arg_str_slice : Arguments → Bytes → List Bytes
unfolding slice_of_strings
arg_str_slice args key = slice_of_strings (select key args)

id_of : Runtime → Option Json → Option ℤ
id_of c (some (float64 n)) = some (c.int_of_float n)
id_of c (some (integer n)) = some n
id_of c (some (json_number n)) = c.int64_of_number n
id_of c _ = none

-- func argID: `none` where the second result is false
unfoldable pub arg_id : Runtime → Arguments → Option ℤ
unfolding id_of
arg_id c args = id_of c (select (str "id") args)

-- func ttlSeconds
unfoldable pub ttl_seconds : Runtime → Arguments → ℤ → ℤ
unfolding arg_int
ttl_seconds c args def = elim (select (str "ttl_seconds") args) [
  | some _ ↦ arg_int c args (str "ttl_seconds") def
  | none ↦ elim (select (str "ttl_minutes") args) [
    | some _ ↦ mul64 (arg_int c args (str "ttl_minutes") (pos 0)) (pos 60)
    | none ↦ def
  ]
]
