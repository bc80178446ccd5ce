-- ===== src/Lib.antt =====
-- A model of the core of servicectl, a systemd-like control program for dinit and s6 with its
-- helper daemons, and the theorems that make that core correct.
--
-- The parts and the files that model them:
-- - Base and its children: numbers, Boolean tests, maps as Go's maps with their zero values, texts
--   as lists of bytes, stable sorting, results with errors; nothing here is code of the repository
--   except that Go's library functions are written out (strings.TrimSpace, TrimSuffix, HasSuffix,
--   Split, sort.SliceStable).
-- - EnabledDag: enabled_dag.go. EnabledDag/Graph and EnabledDag/Visit are the graph and the search
--   of TopologicalServices, with the marks of the Go closure `visit` as a map and its result slice
--   as state that is passed on. EnabledDag/Names has normalizeServiceUnitName and
--   uniqueLinesPreserveOrder, and the s6 names of s6_backend.go. EnabledDag/Build has
--   buildEnabledServiceDAG, its loop over the queue by fuel, over a lookup of unit files as a
--   parameter. EnabledDag/Project has OwnerOf and ProjectOrchestrdDependencies, with the proof
--   about the latter. EnabledDag/Order, Fuel, Topological and Acyclic are proofs about the search,
--   EnabledDag/Grown, Closed, Fits and Drained about the construction. EnabledDag/GroupOrder is
--   resolveGroupStartOrder of group_order.go, which puts both together for the units of a group;
--   Grouped and GroupStart are the proof about it.
-- - StatusView: internal/statusview/model.go. StatusView/Model has the data, Validate has
--   validateGraph, Health has deriveNodeHealth, aggregateHealth and ExitCode, Arrange has
--   sortGraph and Finalize. Ids has the canonical scopes, unit names and node ids, with the
--   printing of numbers as a parameter; Identity is the proof about them. The other children are
--   proofs: Edges and Walk for the loops of validateGraph, Path and Topology for what an accepted
--   graph is, Finalize for the health, Sorted for the order.
-- - Orchestrd: cmd/sys-orchestrd/main.go and group_mode.go, the daemon that starts one unit or one
--   group. Orchestrd/Daemon has the state, the error values and the log of what the daemon writes,
--   publishes and runs; Orchestrd/Fuse has the failure counter and the retry loop;
--   Orchestrd/Handlers has the handlers of events and the first synchronisation. What the world
--   answers (program runs and queries) is a record of functions of the log so far, so that no
--   answer is assumed. Orchestrd/World has these calls, Orchestrd/Steps the daemon of main and
--   what it may come to. Orchestrd/Stable carries a property of daemons through all handlers;
--   Counter, Retry, Announced, Kept and Sync are proofs.
-- - Logd: cmd/sys-logd/broker.go and protocol.go, the broker that takes log records of many peers.
--   Logd/Limiter has the limiter of connections, with the accept loop as a relation on the limiter
--   and the users of the open connections; Logd/Protocol has the check of packets; Logd/Serve has
--   serveBrokerConnection, over a record of what is outside (routes, journal, peer). Logd/Sink has
--   brokerSink of worker.go, the other end of a connection, with its sequence numbers on 64 bits,
--   over a record of how the line behaves; Logd/Fallback has fallbackSink of fallback.go over any
--   two sinks. Logd/Limits, Delivery, Acknowledged and Backoff are proofs. Logd/Spill has
--   spillManager of spill.go: Files the writes and the rotation, Replay the delivery, over a
--   directory whose entry i is the file of pathForIndex(i) and a record of the system calls that
--   fail in a run; Lines reads the files as messages, and Shift, Stored, Written, Steps, Replayed,
--   Jammed, RoundTrip and Kept are proofs. A message is one non-empty line as readInput routes it,
--   of any length; the megabyte of the replay's scanner is a condition of its own.
-- - DbusActivation: internal/dbusactivation, the activation of services by their bus names. Wire
--   has the numbers and strings of protocol.go with the check of UTF-8, Protocol the packets,
--   Messages the payloads of requests and results with ValidateBusName; Environment and Store are
--   environment.go; Routes is routes.go over the interface that finds units; ServiceFile and Index
--   are servicefile.go, over directories whose entries hold the lines of a file or the error of
--   its reading; Engine has activateJob of engine.go, over a record of what the bus, the resolver
--   and the starter answer and a list of what the select of its loop receives, and Jobs the table
--   of running jobs, with calls and ends as a relation. PacketRoundTrip, MessageRoundTrip, Filter,
--   Selected, Outcome, Precedence, Priority, Lookup and Decided are proofs.
-- - Propertyd: cmd/sys-propertyd/main.go, the daemon that keeps the lists of enabled and of
--   running units and the properties. Store has its state, by mode, and the text of the state
--   file; Lists has the operations on the lists and unitLists, Properties has setProperty, Steps
--   all operations that change the state. What os.WriteFile does is an argument, and what is
--   published is a log. Unseen, Saved, Effects and Effective are proofs.
-- - Restart: deps.go, the services that are stopped and started again with a service. Dependents
--   lists the units and what each needs, over the directories, the parsed unit files and the
--   started units as parameters; Closure is the search of reverseRestartClosure. Table, Searched,
--   Ended and Restarted are proofs.
-- - Cgroups: internal/cgrouptrack, the control groups of units. Units is UnitKey of types.go with
--   its check, its directory and the way back; Descendants is the search of that name in proc.go;
--   Moves and Migrate are migrate.go, over a record of what the process table, the control groups
--   and the clock answer to the calls so far. Directories, Found, Reached, Observed, Moved and
--   Settled are proofs.
--
-- How the parts interact: a client's packet is decoded to a request, whose environment has passed
-- FilterEnvironment, and the engine's job resolves its name through Lookup and SelectRoute; the
-- start order of a group that the orchestrator asks for comes from TopologicalServices
-- (`servicectl group-start-order`), and the orchestrator's states are what the status model shows
-- as diagnostics and orchestration nodes.
--
-- Fuel and bounds: the search of TopologicalServices has fuel of one more than the names of the
-- graph, the walk of validateGraph two more than the nodes on primary edges, the search of
-- Descendants one more than the processes of the table, that of reverseRestartClosure one more
-- than the units of the directories; each is proved enough. The loop of buildEnabledServiceDAG
-- takes its fuel as a parameter, since unit files may name new units without end; where they
-- mention finitely many, one more than those is proved enough. The retry loop of the orchestrator
-- counts up to maxFailures, as in the source. Counters are natural numbers: no counter of the
-- modelled code can reach the bound of a 64-bit integer, since each is at most the length of a
-- list in memory or a count of failures.
--
-- Not modelled: files, sockets, waiting, logging and goroutines; JSON; the difference between a
-- nil and an empty slice; Unicode beyond ASCII in blanks and letter case. Process ids and the
-- times in the modelled data are carried as the numbers and texts they are; the status model
-- leaves out what no modelled function reads (the version of the schema, the log lines, most times
-- and the attributes of an identity). Copies of slices and structures are the identity, as values
-- are immutable here. The other daemons and the rest of the command line are not modelled.
pub mod Base
pub mod Cgroups
pub mod DbusActivation
pub mod EnabledDag
pub mod Logd
pub mod Orchestrd
pub mod Propertyd
pub mod Restart
pub mod StatusView
