-- ===== src/Lib.antt =====
-- wyd keeps track of what coding agents leave running on a machine. A supervisor starts commands
-- for them under limits, records each run in a store and keeps its output; a classifier groups the
-- processes of the machine into a tree of runtime items and finds the agent session that each of
-- them comes from.
--
-- The files, and the code that they are about:
--
--   Scheduler    src/runner/scheduler.rs: which run starts, waits or is refused (`submit`),
--                what is admitted when one ends (`release`), cancellation, expiry. Its report
--                (`projects`, `queue_entries`) is in Scheduler/View.
--   Run          src/model/run.rs: the request, its fingerprint, the states and their names.
--                Run/Capabilities has `backend_capabilities` and, from src/runner/mod.rs,
--                `check_capabilities` and `effective_limits`.
--   Runner       src/runner/mod.rs: the state of a run under the lock of its slot, changed by
--                `transition` and `finish`, and the writes that they send to the store.
--                Runner/Queue has the registry of slots together with the scheduler: `finish`
--                with its release, the turn of the queue's clock, `cancel` and `cancel_all`;
--                Runner/Recovery has `recover`, and Runner/Start has `start` and `admit` over
--                the store and the scheduler, with the calls that follow, in any order.
--   Store        src/store.rs: the tables `runs` and `run_events` under `run_insert`,
--                `run_transition`, `run_set_leader`, `run_finish`, `run_event` and `run_prune`.
--   Logs         src/runner/logs.rs: the sinks of a run's output under a limit and a budget that
--                all share, and `read_chunk`.
--   Identity     src/model/process.rs, src/model/session.rs, src/classify/ownership/mod.rs: process
--                identities, and the ids of sessions and resources, which are FNV-1a hashes.
--   Runtime      src/model/runtime.rs and src/model/process.rs: the tree of items, and processes.
--   Ownership    src/classify/ownership/mod.rs: the walk that gives each item of the tree to the
--                agent session around it (`derive_ownership`).
--   Provenance   src/store.rs: the tables of sessions, resources, members, owners and aliases, with
--                `apply_ownership`, `end_absent_sessions` and the calls of vendors. Provenance/Gc
--                has `gc`, Provenance/Lookup the queries, and Provenance/History the calls that
--                src/collect.rs and src/server.rs make, in any order.
--   Collection   src/collect.rs: `OwnershipTracker::record` over Ownership, Provenance and Resolver, and
--                the marks of items that come from a session that has ended.
--   Actions      src/actions/process.rs: the order in which the processes of an item are signalled
--                (`postorder`), and the check before each signal (`send`).
--   Grouping     src/classify/group.rs: the walks over the parents of a process, and `collapse_same`.
--                Grouping/Forest has the children of a process in a snapshot, from
--                src/classify/tree.rs, and the loops over what is below one; Grouping/Build has
--                `group`, which makes the tree of items of a snapshot.
--   Rules        src/classify/rules.rs: the class of a process (`classify`), with the signatures that
--                src/config.rs reads. The tables are in Rules/Tables.
--   Projects     src/classify/project.rs: the project of a directory (`detect`), with its cache.
--   Leftovers    src/classify/leftovers.rs: which items look left over (`mark`, `leftover_count`).
--                The scores are in Leftovers/Scoring.
--   Config       src/config.rs: the `[runs]` table and the scheduler's limits (`limits`).
--   Resolver     src/classify/ownership/resolver.rs and rules.rs: the scored choice of an owner
--                where ancestry alone does not tell.
--   Common       what the others share: Boolean tests on numbers, lists and their searches, sums.
--
-- How they interact: the runner checks a request with Run, inserts it with Store, submits it to
-- Scheduler, and on its end writes the outcome with Store and releases its slot. Logs is written by
-- the threads that read the command's output. A snapshot of processes becomes the tree of items in
-- Grouping, with the classes that Rules gives; Leftovers marks items of it. The classifier's walk
-- and the resolver read the tree and identities only. A scan of Collection walks the tree, writes
-- what it finds with Provenance, ends the sessions whose root is gone, resolves an owner for each
-- item with recorded provenance, and collects garbage once. Actions stops an item of the tree by
-- the identities that the last snapshot recorded.
--
-- How state is modelled. A method with `&mut self` takes the state and returns the new one; a
-- shared object behind a lock is passed in and returned. What threads do in between is a list of
-- calls or events that a theorem quantifies over, and a write that is made after a lock is let go
-- is a value of its own, so that writes can be taken in any order.
--
-- Numbers. A `u64` sum that can wrap is written with its remainder; a `u8` sum saturates as the
-- code says; a count of entries of a list in memory is a plain number. A `Duration` is a number of
-- nanoseconds, at most `Duration::MAX`, and the addition that panics beyond it is `none`. Two loops
-- are on fuel. That of `release` gets one unit more than the queue is long, and each round takes a
-- request out of the queue; Scheduler/Policy shows that the loop then ends by itself. The walk of
-- `postorder` gets one unit more than there are seeds, and goes deeper only into a seed that it has
-- not seen; Actions/Walk shows that it never runs out. The loops below a process in Grouping/Forest
-- run for a number of rounds that is an argument, since they end only where the parents make no
-- cycle; Grouping/Forest/Ends shows that they end there. The recursion of `build_item` gets a
-- depth, one for each item in the chain from a root down. The 64 rounds of `has_tty_ancestor`,
-- `nearest_item_ancestor` and `has_dev_browser_ancestor` are the bounds that the code has.
--
-- Parameters. Grouping takes the rules as arguments, a class for each process and a test of the
-- command of a browser; Rules/Shown gives it those of Rules. The hash of the blake3 library is an
-- argument, a function from bytes to a number, with no assumption on it. SQLite is read by its
-- statements: an update of the rows that pass, an insertion with the next key, a replacement under
-- the primary key. The statement that can fail in the course of things, a second row with the same
-- key in `apply_ownership`, rolls its transaction back; a write that fails in a scan of Collection
-- leaves the tables as they are; other failures are not modelled, queries that fail among them.
-- Which row a query gives that finds several is an argument, `pick`; where a theorem relies on it,
-- it gives one of the rows, if there is one. The processes that live now and what `kill` answers
-- for each are arguments too, and so is, for `recover`, how many groups it signalled and how many
-- processes are left. Whether the platform has a delegated cgroup is an argument, and so are, for
-- Projects, what exists on the file system and the canonical form of a path.
--
-- Not modelled: the reading of processes, ports and containers, process groups, cgroups, sockets
-- and the protocols on them, the terminal, web and menu bar interfaces and the command line, and
-- the tracing of writes, which are input and output. Not covered yet are the projects and ports of
-- items (`attach`), the rest of the configuration, and of the supervisor the stopping of processes.
pub mod Actions
pub mod Collection
pub mod Common
pub mod Scheduler
pub mod Projects
pub mod Provenance
pub mod Resolver
pub mod Rules
pub mod Run
pub mod Identity
pub mod Store
pub mod Logs
pub mod Runner
pub mod Runtime
pub mod Ownership
pub mod Grouping
pub mod Leftovers
pub mod Config
