-- ===== src/Lib.antt =====
-- A model of easyrun: a cluster whose nodes run tasks, one of them as the leader that decides what
-- runs where.
--
-- Parts. A node (internal/agent) keeps the jobs that it knows and the tasks that it runs, and admits,
-- starts, restarts and stops them. The leader (internal/leader) keeps a registry of nodes and counts
-- what it has placed on them; it dispatches jobs to nodes by calls, and keeps the jobs themselves in
-- the store of its own node, through the interface JobStore. A lease in a store outside
-- (internal/discovery) says which node is the leader; each node's election loop (internal/agentloop)
-- claims it, renews it, or follows the node that has it. The leader's API (internal/api) turns
-- requests that are signed (pkg/httputil) into operations of the leader. A node runs its tasks by
-- drivers (internal/runner): one of them shares out the cores of a HopOS node, and all keep logs.
--
-- Files.
--   Prelude and its children: lists, texts, Go's int, maps as association lists, sorting.
--   Types: internal/types/types.go.
--   JobStore: the interface of internal/leader/leader.go, with the laws that its user relies on.
--   Node/State, Node/Store: agentState and the store methods of internal/agent/agent.go.
--   Node/Capacity: capacity and admission, internal/agent/agent.go and handleRun of
--     internal/agent/handlers.go. Children: Memory, Admission.
--   Node/Stop, Node/Start, Node/Restart: the stop and delete handlers, startJob and restartTask of
--     internal/agent/handlers.go, with stopTasks and TaskDownloading of internal/agent/agent.go.
--   Node/Handoff: internal/agent/handoff.go. Children: RoundTrip, Adoption (by the HopOS runner).
--   Node/Monitor: internal/agent/monitor.go. Children: Threshold, Pruning.
--   Runner/Logs: internal/runner/logs.go. Children: Run (any sequence of calls), Ring, Channels, and
--     Store, the logs of running and finished tasks, with its child Retention.
--   Runner/Hop: the slots of internal/runner/hopos.go. Children: FirstFit (the search for slots),
--     Lifecycle (start, stop, adoption, with hopos_stream.go), with its children Ownership and
--     Stopping, and Logged (a start that fails in the log of its task).
--   Election: internal/agentloop/loop.go. Children: Leading, Isolation, Trace.
--   Api: the handlers of internal/api/server.go. Children: Apply (handleApplyJob, with its children
--     Agreement and Outcome), Placed (the counts of the status).
--   Auth: pkg/httputil/auth.go. Child: Signed.
--   Leader/State: leaderState and the operations on it, internal/leader/leader.go, dispatch.go and
--     health.go. Children: Registry, RoundRobin, Victim.
--   Leader/System: the leader among its agents, the calls of internal/leader/dispatch.go. Child: Own,
--     what those calls do to the store of the leader's own node.
--   Leader/Dispatch: dispatchJob and dispatchInstances. Children: Frame (what a pass changes),
--     Gentle (without preemption), Preemption, Claim (the flag of a job).
--   Leader/Priority: normalizePriorities and PatchJobPriority.
--   Leader/Reconcile: reconcileJob and reconcileJobs, DispatchJob, RegisterAgent, MarkUnplaced,
--     trimReturningAgentSurplus, checkDeadAgents. Children: Daemon, Submit, Surplus.
--   Leader/Update: internal/leader/update.go. Children: Steps, Flags, Progress.
--   Leader/Delete: DeleteJobByName. Child: Sweep.
--   Leader/Persist: internal/leader/persist.go, over any JobStore. Children: Laws, Flush.
--   Leader/Status: GetClusterStatus and GetJobStatus of internal/leader/health.go.
--   Leader/EventBus: internal/leader/events.go. Child: Laws.
--   Leader/InitJobs: internal/leader/init.go. Child: Laws.
--   Lease: the lease of internal/discovery/discovery.go. Child: Claims (against a store that writes by
--     compare-and-swap).
--   Examples: concrete inputs on which the theorems are applied.
--
-- Modelling. Both halves own their state in one goroutine and change it by operations that are sent
-- to it: each such operation is one function on the state. Go's maps are association lists, and a
-- range over a map goes through the list, so that a statement about every list is one about every
-- order of that range. Times are natural numbers of nanoseconds, durations and Go's int are integers
-- with the wrap-around of their sums written out, memory is uint64 taken modulo 2 ^ 64, and counts of
-- placed tasks are natural numbers. A task that a goroutine still holds after it left the map stays
-- in the field gone. Calls to agents, the runner, ports, artifacts that are loaded and the clock are
-- parameters, whose answers may depend on all that happened before (Leader/System: World). What other
-- goroutines do while a runner starts a process, or while a deletion waits for the agents, is a
-- function on the state that the theorems quantify over; other operations of the leader run from
-- start to end. A start that the leader sends to its own node is handled by that node's /run on the
-- store that they share. Loops are recursion on what they go through. Two have no bound of their own:
-- restartTask runs on a list with one environment for each round, and a list longer than the budget of
-- restarts is enough; the search for slots runs on fuel, and more than the last slot that anything is
-- known of is enough. The election loop goes through the list of what the world answers in its ticks.
-- A broadcaster's channels are indices, and a send on a closed one, which panics in Go, is none.
--
-- Not modelled: processes, containers, cgroups, archives and downloads, which are input and output;
-- the usage figures of tasks, which are floats that only the status report shows; the environment that
-- a driver passes to a task; the streams of events and logs and the calls that the API passes on; how
-- the store of the lease is chosen, and what starts when a node becomes the leader;
-- configuration and the command line.
pub mod Prelude
pub mod Types
pub mod JobStore
pub mod Node
pub mod Leader
pub mod Lease
pub mod Runner
pub mod Election
pub mod Api
pub mod Auth
pub mod Examples
