-- ===== src/Lib.antt =====
-- A model of the Airlock coordination daemon: a local server that gives cooperating agents locks,
-- notes, counters, work queues, presence and events, kept in one SQLite database.
--
-- The parts, and the files that model them:
-- - Sql: a table with a primary key as the list of its rows (Sql/Table), and ORDER BY its key
--   (Sql/Order).
-- - Store/Db, Store/Exec: the tables and error values of internal/store/db.go, the actions on the
--   database, and Store.tx.
-- - Store/Random: newToken of internal/store/locks.go.
-- - Store/Locks: tryAcquire, Unlock, Renew, RenewByAgent, ListLocks and ReleaseAgentLocks of
--   internal/store/locks.go on the table `locks`; Store/Locks/Many: LockMany; Store/Locks/History:
--   the row reaper, and sequences of all these calls. Store/Locks/Holder is the abstract view of the
--   table: at each time, the row of the live holder of a name, if there is one;
--   Store/Locks/History/Service is the lock service that this view makes.
-- - Store/Queues: the wait queues of internal/store/locks.go. Store/Lock: the blocking call of Lock
--   over both, Unlock and ReleaseAgentLocks with their wake-ups, and reapOnce.
-- - Store/Notes: internal/store/notes.go. Store/Tasks: internal/store/tasks.go. Store/Presence:
--   internal/store/presence.go, which calls the locks. Store/Events: internal/store/events.go.
-- - Mcp/Server: the checks of internal/mcp/server.go before a tool sees a request. Mcp/Json: the
--   values of encoding/json. Mcp/Arguments, Mcp/Schema, Mcp/Daemon and Mcp/Tools:
--   internal/mcp/tools.go, with the managers over one database in Mcp/Daemon and the handlers in the
--   children of Mcp/Tools. Mcp/Handler: internal/mcp/handler.go, and the turns of a call that waits;
--   Mcp/Handler/Running: the daemon over any sequence of requests and reapers. Store/Keyed, and the
--   modules Keyed below the parts: the keys of the tables.
-- - Mcp/Token: EnsureTokenFile of internal/mcp/server.go.
-- - Cli: internal/cli/status.go, with its text helpers in Cli/Text, the report in Cli/Status and the two
--   commands in Cli/Commands. Service: internal/service/service.go, with the units in Service/Units and
--   the actions in Service/Install. Command: main.go.
-- - Common: names, tests, byte strings and int64 that the others share. Tests: concrete runs.
--
-- The correspondence. A Go function is a definition of its name in small letters. A Go string is
-- the list of its bytes; int and int64 are integers, whose sums and products wrap around at 64
-- bits. What Now() gives is an argument `now`. An action takes a World and gives its result or
-- error and the next World. The World has the tables, a stream of the driver's faults, and a
-- stream of random reads: each begin, statement and commit asks the first for its fault, so an
-- action may fail at every place where the code may, and a statement without the hypothesis Quiet
-- covers those failures. A transaction that fails, also in its commit, is modelled to leave the
-- tables as they were. The faults of Scan, of rows.Err() and of RowsAffected are those of their
-- statement. The connection pool has one connection, so that transactions and statements run one
-- after the other. The integer that SQLite turns into a real on overflow makes Scan fail, with a
-- text that is an argument (`overflow`). A task id is a natural number, as the ids that
-- AUTOINCREMENT gives; a negative id of a request matches no row.
--
-- A call that blocks is a machine: what it does from one wait to the next is one function, and a
-- phase says where the call stands, so a schedule is a sequence of these functions. The waiters
-- and channels, which Go shares by pointers, are numbers; a waiter's channel of capacity 1 is
-- whether a signal is pending, and a broadcast channel is whether it is closed. The panic of
-- mustToken is a phase. These steps are coarser than the code: between two transactions, or a
-- transaction and a turn at the wait queues, another goroutine may run in Go, and here one step
-- has them all: lock_begin has tryAcquire and enqueue, lock_poll has isHead, tryAcquire and
-- dequeue, unlock_call and release_agent have the transaction and the wake-ups, and reap_once has
-- the DELETE, the collection of waiters and the queries of free locks. A schedule that interleaves
-- there is not one of the model's. The loops run over lists; only the digits of a number
-- (Cli/Text.numeral) need fuel, and get the number itself, which is at least its number of digits
-- less one.
--
-- The server's Library is a record of the functions that it calls: net.SplitHostPort,
-- strings.TrimSpace, strings.EqualFold, and the JSON decoder behind http.MaxBytesReader; its
-- handler is a parameter, for which Mcp/Handler.handle stands in. The handler's Runtime is a
-- record of what encoding/json and the SQLite driver give it. A map of results is the list of its
-- fields in the order of the source, which encoding/json sorts. A tool is named after its handler
-- in the source, or as the tool where the store has a function of that name.
--
-- The commands are functions of what they find: the results of the file system, of the
-- environment, of processes and of the clock are fields of records (Disk, Machine, Startup,
-- Surroundings), and what a command does is a list of writes or actions with an exit code. What
-- the programs that Install and Uninstall run do to files is an argument. A failed action is in
-- the list as it was tried. The tabwriter of the report is an argument.
--
-- Not modelled: OpenDB and Close, the goroutines that run the reapers on their tickers and their
-- shut-down, the encoding of responses, listening in internal/mcp/server.go, the request of
-- probeDaemon in main.go and the process that runCmd of internal/service/service.go runs: I/O,
-- whose results are arguments where the rest depends on them.
pub mod Common
pub mod Sql
pub mod Store
pub mod Mcp
pub mod Cli
pub mod Service
pub mod Command
pub mod Tests
