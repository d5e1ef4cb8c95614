-- ===== src/Lib.antt =====
-- Verification library of the backend of AutoRestic, a server that runs restic for a set of
-- repositories: by hand, by schedule, and to keep a cache of what the repositories hold.
--
-- The parts, and how they work together. The scheduler (Scheduler) fires backup tasks and the
-- maintenance of repositories. A task (Task) turns its row into a command line, runs hooks around
-- it, and goes through the repository service, which reserves the repository for one operation at
-- a time (Reservation). The executor runs the command, reads its two pipes into bounded buffers and
-- stores their ends in the log (Output), and tells the WebSocket hub line by line (Hub). After a
-- backup the cache (Cache) is marked as stale and synchronised in the background.
--
--   Shared       helpers: lists and texts over native numbers (a text is a list of bytes), int64,
--                association lists for Go's maps, Boolean tests
--   Output       backend/internal/executor/executor.go (boundedOutputBuffer, commandOutputBuffers,
--                readStream) and backend/internal/model/execution_log.go (the truncation marker)
--   Reservation  backend/internal/service/repo_service.go (acquireRepoOperation,
--                releaseRepoOperation, classifyRepoOperation, scheduledCommandNeedsLock); Threads
--                has the requests that run at once as a step relation
--   Repo         repositories, of the same file with backend/internal/repository/repo_store.go and
--                backend/internal/model/repository.go: Cipher for the key file and secrets, Access
--                for probing and unlocking, Save, Create, Change and Update for the rows with
--                Registry for their invariant, Runtime for the environments of commands, Locks for
--                what a scheduled command does about locks, Commands for a command from its
--                reservation to its release, Maintenance for checks, prunes and initialisation
--   Hub          backend/internal/ws/hub.go, with each send of a broadcast as a step of its own; a
--                panic is `none`
--   Exec         results of commands, errors, and decoded JSON, which the services share
--   Fallible     computations on a state that may fail, with triples for them; Repo, Task/Rows and
--                Cache use them
--   Executor     backend/internal/executor/executor.go (Run): a command from its log row to its
--                result
--   Guard        the interface of a guard that lets one run of a key go on, with its client; Task
--                and Scheduler fill it
--   Task         backend/internal/service/task_service.go: Args for command lines, Hooks for hooks,
--                Run for RunTask and what it calls, Guarded for runs beside one another,
--                Rows for the rows with backend/internal/repository/task_store.go
--   Cache        backend/internal/service/repo_cache_service.go: State and Rows for the rows of one
--                repository and the statements on them, Snapshots and Core for the synchronisation
--                of config and snapshots, Queue and Work for the file index worker, Aggregate for
--                aggregateSyncState, Planner for planRefreshRound; Triples and Steps are the logic of
--                computations that may fail
--   Scheduler    backend/internal/scheduler/scheduler.go: Crons for Start, Stop and reloads,
--                Maintenance for the guard of repositories
--   Logs         backend/internal/repository/log_store.go and
--                backend/internal/service/log_service.go: pages and views of logs
--   Web          backend/internal/middleware/middleware.go (the token), backend/internal/handler/
--                ws_handler.go (tickets) and backend/internal/handler/params.go
--   Examples     the theorems at concrete inputs
--
-- State is passed explicitly: each operation is a function from the state of its component to the
-- next, with its result. What happens under a mutex is one step; goroutines that run at once are
-- step relations over those steps, and a theorem about reached states speaks of every interleaving.
-- A channel that is closed or sent on is part of the state. Errors are values, and the statements of
-- the cache fail as an argument says, each on its own.
--
-- Parameters stand for what is not in the repository: the commands that restic and the shell run, by
-- the trace of what was done before, and in Executor by what happens to one command; the database
-- driver's errors, and SQLite's LIKE, substr and ORDER BY; encoding/json and float64; cron's parser and clock;
-- the time; GCM, HMAC and random bytes; strings.EqualFold, which goes by the tables of Unicode; the
-- process table with the reading of a parent from /proc; os.Stat and the temporary file of an rclone
-- config; and gin's routes. What is relied on of GCM (it opens what it sealed), of HMAC and JSON (a
-- payload is read as it was written) and of EqualFold (it is symmetric) are hypotheses. The cache's
-- tables are assumed to exist where a theorem says so, as the migrations create them.
--
-- Bounds: most loops are structural recursion over lists. Printing a number in decimal has fuel for 20
-- digits, and an int64 has 19 at most. The search for the owner of a lock has fuel, and needs as much
-- as the process table is deep. The preparation of a scheduled command has fuel for its rounds, on
-- which the code has no bound. Byte and line counts, and the offset of a page, wrap around at 2 ^ 64
-- as int64 does; identifiers, exit codes and times do not come near that and are plain numbers.
--
-- Not modelled: the map of commands that can be cancelled and the columns of log rows as they are
-- written; the stats, keys and files synchronisations, the loop of the planner, the paths and the
-- views of the cache; the rows of repository_snapshot_files; snapshots; RunTaskAsync;
-- HTTP handlers but for the WebSocket, which decode requests and encode answers over gin; CORS, which
-- gin-contrib/cors answers; startup; the migrations, which are SQL; and the frontend.
mod Shared
pub mod Output
pub mod Reservation
pub mod Repo
pub mod Hub
pub mod Exec
pub mod Fallible
pub mod Executor
pub mod Guard
pub mod Task
pub mod Scheduler
pub mod Cache
pub mod Examples
pub mod Web
pub mod Logs
