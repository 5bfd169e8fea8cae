-- ===== src/Mcp/Handler/Running.antt =====
-- The daemon while it runs: requests on ToolHandler.Handle, calls that go on, and the reapers of
-- internal/store/locks.go, presence.go and tasks.go.
use agentpeek.Common.{ℤ, List, [], ◌∷◌, Bytes, str, eqs}
use agentpeek.Store.Keyed.{IsKeyed}
use agentpeek.Store.Tasks.{reap_tasks}
use agentpeek.Store.Tasks.Keyed.{reap_tasks-Keeps}
use agentpeek.Store.Presence.{reap_presence}
use agentpeek.Store.Presence.Keyed.{reap_presence-Keyed}
use agentpeek.Store.Lock.{Woken, reap_once}
use agentpeek.Store.Lock.Keyed.{lock_poll-Keyed, lock_wake-Keyed, reap_once-Keyed}
use agentpeek.Store.Events.Keyed.{wait_wake-Keyed}
use agentpeek.Mcp.Json.{Runtime}
use agentpeek.Mcp.Daemon.{
  Daemon, events_of, on_store, Progress, replied, crashed, looping, parked, awaiting,
}
use agentpeek.Mcp.Tools.Guards.{IsKeyedAfter, guarded, present}
use agentpeek.Mcp.Tools.Keyed.{call_tool-Keyed}
use agentpeek.Mcp.Handler.{handle, tools_call, call_params, resume}

-- What happens at a daemon: a request comes, with its time and the time it begins to wait at, a
-- call that waits goes on, or the ticker of a reaper fires.
pub data Happening : Type 0 where
  requested : ℤ → ℤ → Bytes → Bytes → Happening
  resumed : ℤ → Woken → Progress → Happening
  locks_ticked : ℤ → Happening
  presence_ticked : ℤ → Happening
  tasks_ticked : ℤ → Happening

-- The daemon after one of them.
unfoldable pub happen : Runtime → Happening → Daemon → Daemon
happen rt (requested now later method params) d = (handle rt now later method params d).1
happen rt (resumed now woken p) d = (resume rt now woken p d).1
happen rt (locks_ticked now) d = record d { system = reap_once now d.system }
happen rt (presence_ticked now) d = record d { system = reap_presence now d.system }
happen rt (tasks_ticked now) d = (on_store (reap_tasks now) d).1

unfoldable pub run_happenings : Runtime → List Happening → Daemon → Daemon
run_happenings rt [] d = d
run_happenings rt (h ∷ hs) d = run_happenings rt hs (happen rt h d)

resume-Keyed :
    (rt : Runtime) (now : ℤ) (woken : Woken) (p : Progress) (d : Daemon)
    → IsKeyed d.system.world.db
    → IsKeyed (resume rt now woken p d).1.system.world.db
unfolding resume
resume-Keyed rt now woken (replied v) d k = k
resume-Keyed rt now woken crashed d k = k
resume-Keyed rt now woken (looping r w) d k = lock_poll-Keyed now r w d.system k
resume-Keyed rt now woken (parked r w) d k = lock_wake-Keyed now r w woken d.system k
resume-Keyed rt now woken (awaiting name last_seen wait ch current) d k =
    wait_wake-Keyed name last_seen wait current woken (events_of d) k

tools_call-Keyed :
    (rt : Runtime) (now later : ℤ) (params : Bytes) (d : Daemon)
    → IsKeyed d.system.world.db
    → IsKeyedAfter (tools_call rt now later params d)
unfolding tools_call
tools_call-Keyed rt now later params d k =
    present (call_params rt params) _ _ (record { after = k })
      (λ call. record { after = (call_tool-Keyed rt now later call.0 call.1 d k).after })

handle-Keyed :
    (rt : Runtime) (now later : ℤ) (method params : Bytes) (d : Daemon)
    → IsKeyed d.system.world.db
    → IsKeyedAfter (handle rt now later method params d)
unfolding handle
handle-Keyed rt now later method params d k =
    guarded (eqs method (str "initialize")) _ _ (record { after = k })
      (guarded (eqs method (str "tools/list")) _ _ (record { after = k })
        (guarded (eqs method (str "tools/call")) _ _ (tools_call-Keyed rt now later params d k) (
          guarded (eqs method (str "notifications/initialized")) _ _ (record { after = k })
            (record { after = k }))))

happen-Keyed :
    (rt : Runtime) (h : Happening) (d : Daemon)
    → IsKeyed d.system.world.db
    → IsKeyed (happen rt h d).system.world.db
unfolding happen
happen-Keyed rt (requested now later method params) d k =
    (handle-Keyed rt now later method params d k).after
happen-Keyed rt (resumed now woken p) d k = resume-Keyed rt now woken p d k
happen-Keyed rt (locks_ticked now) d k = reap_once-Keyed now d.system k
happen-Keyed rt (presence_ticked now) d k = reap_presence-Keyed now d.system k
happen-Keyed rt (tasks_ticked now) d k = (reap_tasks-Keeps now).keeps d.system.world k

-- The keys of the tables. If no two rows of a table have the same key and no task has an id that
-- AUTOINCREMENT is still to give, this holds after any sequence of requests to the handler, further
-- steps of calls that wait, and runs of the three reapers, whichever of them fail.
pub run_happenings-Keyed :
    (rt : Runtime) (hs : List Happening) (d : Daemon)
    → IsKeyed d.system.world.db
    → IsKeyed (run_happenings rt hs d).system.world.db
unfolding run_happenings
run_happenings-Keyed rt [] d k = k
run_happenings-Keyed rt (h ∷ hs) d k =
    run_happenings-Keyed rt hs (happen rt h d) (happen-Keyed rt h d k)
