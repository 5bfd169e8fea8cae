-- ===== src/Mcp/Tools/Notes/Keyed.antt =====
-- The note and counter tools keep the keys of every table.
use agentpeek.Common.{ℤ, pos, [], str, eqs}
use agentpeek.Sql.Table.{select}
use agentpeek.Store.Keyed.{IsKeyed}
use agentpeek.Store.Notes.Keyed.{
  set_note-Keeps, get_note-Keeps, delete_note-Keeps, set_note_if-Keeps, increment_counter-Keeps,
}
use agentpeek.Mcp.Json.{Arguments, Runtime}
use agentpeek.Mcp.Arguments.{arg_str, arg_int, ttl_seconds}
use agentpeek.Mcp.Daemon.{Daemon}
use agentpeek.Mcp.Tools.Notes.{store_note, read_note, remove_note, swap_note, add_counter}
use agentpeek.Mcp.Tools.Guards.{IsKeyedAfter, guarded, present}

pub store_note-Keyed :
    (rt : Runtime) (now : ℤ) (args : Arguments) (d : Daemon)
    → IsKeyed d.system.world.db
    → IsKeyedAfter (store_note rt now args d)
unfolding store_note
store_note-Keyed rt now args d k =
    (guarded (eqs (arg_str args (str "key")) []) _ _ (record { after = k })
      (present (select (str "value") args) _ _ (record { after = k })
        (λ v. (record {
          after =
              (set_note-Keeps now (arg_str args (str "key")) (arg_str args (str "value"))
                  (arg_str args (str "author")) (ttl_seconds rt args (pos 0))).keeps
                d.system.world k;
        }))))

pub swap_note-Keyed :
    (rt : Runtime) (now : ℤ) (args : Arguments) (d : Daemon)
    → IsKeyed d.system.world.db
    → IsKeyedAfter (swap_note rt now args d)
unfolding swap_note
swap_note-Keyed rt now args d k =
    (guarded (eqs (arg_str args (str "key")) []) _ _ (record { after = k })
      (present (select (str "expected_value") args) _ _ (record { after = k })
        (λ v.
          present (select (str "new_value") args) _ _ (record { after = k })
            (λ v'. (record {
              after =
                  (set_note_if-Keeps now (arg_str args (str "key"))
                      (arg_str args (str "expected_value")) (arg_str args (str "new_value"))
                      (arg_str args (str "author")) (ttl_seconds rt args (pos 0))).keeps
                    d.system.world k;
            })))))

pub remove_note-Keyed :
    (rt : Runtime) (args : Arguments) (d : Daemon)
    → IsKeyed d.system.world.db
    → IsKeyedAfter (remove_note rt args d)
unfolding remove_note
remove_note-Keyed rt args d k =
    (guarded (eqs (arg_str args (str "key")) []) _ _ (record { after = k })
      (record { after = (delete_note-Keeps (arg_str args (str "key"))).keeps d.system.world k }))

pub read_note-Keyed :
    (rt : Runtime) (now : ℤ) (args : Arguments) (d : Daemon)
    → IsKeyed d.system.world.db
    → IsKeyedAfter (read_note rt now args d)
unfolding read_note
read_note-Keyed rt now args d k =
    (guarded (eqs (arg_str args (str "key")) []) _ _ (record { after = k })
      (record { after = (get_note-Keeps now (arg_str args (str "key"))).keeps d.system.world k }))

pub add_counter-Keyed :
    (rt : Runtime) (now : ℤ) (args : Arguments) (d : Daemon)
    → IsKeyed d.system.world.db
    → IsKeyedAfter (add_counter rt now args d)
unfolding add_counter
add_counter-Keyed rt now args d k =
    (guarded (eqs (arg_str args (str "name")) []) _ _ (record { after = k })
      (record {
        after =
            (increment_counter-Keeps rt.overflow_text now (arg_str args (str "name"))
                (arg_int rt args (str "by") (pos 1))).keeps
              d.system.world k;
      }))
