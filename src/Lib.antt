-- ===== src/Lib.antt =====
-- dqlited: a command-line client and a web service for databases on a dqlite cluster.
--
-- The program opens connections to the nodes of a cluster, runs SQL over them, and prints or
-- serves the results. Its parts, and the files that model them:
--   * `db.go` is the core. The type `DBX` holds a connection; its state and the circuit breaker
--     (`EnableDatabase`, `DatabaseDisabled`) are the record `State` of Db.antt. A write with
--     retries (`DBX.exec`) is Db/Exec.antt, and Db/Exec/Switching.antt the same call while other
--     goroutines switch the breaker, as a step relation; a read that is printed (`DBX.query`)
--     Db/Query.antt, a read whose rows are returned (`DBX.QueryRows`, `QueryRows`)
--     Db/QueryRows.antt, a series of writes (`DBX.Execute`, `MakeExec`, `ExecuteContext`)
--     Db/Execute.antt, a statement of the command line (`DBX.Eval`) Db/Eval.antt, a script
--     (`DBX.Batch`) Db/Batch.antt with the removal of comments (`CleanText`) in Db/Clean.antt, a
--     transaction (`transact`) Db/Transact.antt. Db/Transact/Feeding.antt is the load of a file as
--     it runs, as a step relation on the goroutine of `liner`, the channel, and the goroutine that
--     receives from it. Db/Batch/Commands/Printing.antt has the scripts as one writes them. The
--     cache of open databases (`getDB`, `NewConnection`, `DBX.Close`) is Cache.antt, the dump to
--     files (`dbDumper`, `FileWriter`) Dump.antt. The functions that open a connection, run one
--     statement or a file, and close it again (`dbCmd`, `dbFile`, `dbReport`, `loadFile`,
--     `queryFile`, `liner`) are Session.antt: its `Process` joins the cache, the breaker and the
--     output. `DBX.queryer` with the interface `QDB` and its implementation `DBTW` is
--     Db/Queryer.antt.
--   * `client.go` finds the leader of a cluster (`getLeader`, `getStore`) and filters logs
--     (`NewLogFunc`): Client.antt; the other log functions, with `PanicLogFunc` of `log.go`, are
--     Log.antt. `cluster.go` uses it for the operations on nodes (`Assign`, `LeaderID`,
--     `Transfer`, `Remove`, `exists`, `statusFunc`, `omit`, `nodeRole`, `withClient`, `show`,
--     `nodeAdd`): Cluster.antt. The start of a node and of the server (`nodeStart`, `StartServer`,
--     with `myIP` of `web.go`) is Node.antt; Node/Shutdown.antt is the server while it serves and
--     shuts down, as a step relation on the goroutine that waits for a signal and the requests in
--     progress.
--   * `web.go` answers requests with the functions of `db.go`: the parameters are
--     Web/Params.antt, the queries of a request (`requestQueries`) Web/Queries.antt, the handlers
--     of `/db/execute/` and `/db/query/` Web/Handlers.antt, each request by itself, and the
--     responses that clients receive (`writeResponse`) Web/Output.antt; the variable `ctx` that
--     requests to one handler share is Web/Shared.antt, with the steps of the requests in any
--     order. The table of paths and the status page (`makeHandleStatus`) are Web/Status.antt,
--     which page answers a path and the other pages (`homePage`, `faviconPage`) Web/Pages.antt,
--     and the registering of paths (`ServerHandlers`, `webServer`) Web/Serving.antt.
--   * `main.go` reads flags and the environment (`FlagChoice`, `clusterList`): Flags.antt. What
--     each command runs, and with which exit code the process ends, is Commands.antt; the table of
--     the commands with their flags is Commands/Table.antt.
--   * `hammer.go` is a load test (`hammerPrep`, `hammerInserts`, `hammerTime`): Hammer.antt. The
--     counters are the bit patterns of Go's int64.
--   * Text.antt has what these use of Go's `strings` and `regexp`, Go.antt the calls: an
--     `Outcome` is a value, an error or a panic, and an action passes a state on. Base.antt has
--     what all files share, and Tests.antt small inputs.
--
-- Code outside the repository is a parameter. `Host` (Go/Foreign.antt) is `database/sql` over
-- the dqlite driver, the errors, `text/tabwriter` and `time.Sleep`; `Remote` (Client.antt) the
-- dqlite client, TLS and files; `Server` (Web.antt) the opening of a database, JSON and
-- durations; `Disk` (Session.antt) the reading of files; `Machine` (Node.antt) the network, a
-- dqlite node and the dqlite application; `App` (Web/Status.antt) the application as the status
-- page uses it; `Mux` (Web/Serving.antt) the registering of paths, with the hypothesis `IsMux`;
-- `Tools` (Hammer.antt) the printing of numbers, the chain of an error, and the clock;
-- `Environment` (Commands/Table.antt) the variables of the environment; `Encoder`
-- (Web/Output.antt) the text of a JSON value and of an error. What acts passes on a state `W` of
-- the world outside, of which nothing is assumed; `Driver` (Cache.antt) is the registration of a
-- driver and the opening by `database/sql`. The counters of connections, of databases and of
-- calls (`IsMeter`, `Counting`), the registration of a name (`IsRegistry`), the begins and
-- commits of a database (`IsTally`), what a transaction does (`IsDatabase`), a database whose
-- replies to other writes can get lost (`IsLossy`, and with transactions `IsSql`), one where a
-- text of statements that fails may leave a part of its effect (`IsServed`), a table that counts
-- its rows (`IsTable`) and a directory of files (`IsDirectory`) are named hypotheses, and the
-- files under Tests have instances. One more, the names of the roles (`IsNaming`), is what the
-- client documents.
--
-- Texts are lists of bytes, and the functions of `strings` are those for ASCII: upper and lower
-- case, white space and their like are not changed for other bytes. An index or an ID is a
-- natural number; the IDs of `getStore` and the pause of `DBX.exec` are taken modulo 2 ^ 64. A
-- loop over a list is recursion on it, and the loop of `DBX.exec` on its ten rounds, so no fuel
-- is needed. A channel is the list of what it yields, which Db/Transact/Feeding/Refines.antt
-- shows to be enough for `transact`, and so are the rows of a result. A call of foreign code is
-- modelled where it returns. One that waits for ever has no result in the model: a query or a
-- begin of a script while a transaction holds the one connection of the pool is such a call.
-- What `defer` does stands behind the rest of the function, on each of its ends.
--
-- Not modelled: logs and timings, and what the load test prints; the dead code of `hammerExec`,
-- and `queryColumn` and `lister`, which nothing calls; `solo.go` and `unit.go`, each a call of
-- `net/http` or NGINX Unit, which is a parameter; the help texts of the commands; contexts, but
-- for the deadlines that the handlers compute; the files under `docker` and `scripts`.
pub mod Base
pub mod Text
pub mod Go
pub mod Db
pub mod Cache
pub mod Session
pub mod Client
pub mod Cluster
pub mod Dump
pub mod Commands
pub mod Flags
pub mod Log
pub mod Hammer
pub mod Node
pub mod Web
pub mod Tests
