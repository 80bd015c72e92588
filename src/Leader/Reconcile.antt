-- ===== src/Leader/Reconcile.antt =====
-- internal/leader/health.go and dispatch.go: bringing what is placed to what the jobs ask for. A
-- function that returns an error returns it as an optional value.
pub mod Daemon
pub mod Submit
pub mod Surplus
use easyrun.Prelude.{
  ℕ, ◌+◌, ◌-◌, Bool, true, false, not, ◌&&◌, List, [], ◌∷◌, map, Option, none, some, ltb, leb, ◌==◌,
  if◌then◌else◌, length, keep, or_else,
}
use easyrun.Prelude.Int.{ℤ, pos, negsuc, eqb_ℤ}
use easyrun.Prelude.Text.{String, str_eq}
use easyrun.Prelude.Dict.{Dict, values, lookup}
use easyrun.Types.{Agent, Job}
use easyrun.Node.Store.{get_job, get_jobs, store_job}
use easyrun.Leader.State.{
  LeaderState, Counts, get_agents, placed_at, count_at, counts_of, total_placed, track_placement,
  forget_placement, is_dispatching, unlock_job, lift_tombstone, unplace, check_dead_op, register_op,
  Registered, rejected, registered, unregister_op,
}
use easyrun.Leader.System.{
  World, Sys, of_agent, of_job, notified, reconcile_spawned, on_state, on_store, emit,
  send_job_to_agent, stop_tasks_on_agent, claim_job,
}
use easyrun.Leader.Dispatch.{DispatchError, all_rejected, name_required, dispatch_instances, wanted}
use easyrun.Leader.Priority.{normalize_priorities}

-- A count of -1 is one instance on every agent.
unfoldable pub is_daemon : Job → Bool
is_daemon job = eqb_ℤ job.count (negsuc 0)

unfoldable pub lacking : String → LeaderState → List Agent → List Agent
lacking name s agents = keep (λ a. placed_at a.id name s == 0) agents

-- The dispatch of a daemon to each of these agents, and how many took it.
unfoldable pub send_to_all : World → Job → List Agent → Sys → ℕ × Sys
send_to_all w job [] y = (0, y)
send_to_all w job (agent ∷ rest) y =
    let (err, y₁) = send_job_to_agent w agent job y in
    elim err [
      | none ↦
          let (n, y₂) = send_to_all w job rest (on_state (track_placement agent.id job.name) y₁) in
          (n + 1, y₂)
      | some e ↦ send_to_all w job rest y₁
    ]

-- What is told of it.
unfoldable pub report_daemon : Job → ℕ → ℕ × Sys → Option DispatchError × Sys
report_daemon job missing (dispatched, y) =
    if dispatched == 0
    then ((if ltb 0 missing then some all_rejected else none), y)
    else (none, emit (notified (of_job job.name)) y)

unfoldable pub reconcile_daemon : World → Job → List Agent → Sys → Option DispatchError × Sys
unfolding lacking report_daemon
reconcile_daemon w job agents y =
    let (claimed, y₁) = claim_job w job.name y in
    if not claimed
    then (none, y₁)
    else (let missing = lacking job.name y₁.state agents in
        let (err, y₂) = report_daemon job (length missing) (send_to_all w job missing y₁) in
        (err, on_state (unlock_job job.name) y₂))

unfoldable pub reconcile_job : World → Job → List Agent → Sys → Option DispatchError × Sys
unfolding is_daemon
reconcile_job w job agents y =
    if is_dispatching job.name y.state
    then (none, y)
    else if is_daemon job
    then reconcile_daemon w job agents y
    else (let missing = wanted job.count - total_placed job.name y.state in
        if ltb 0 missing
        then (let (err, y₁) = dispatch_instances w job (pos missing) y in
            (err, emit (notified (of_job job.name)) y₁))
        else (none, y))

-- Errors are only logged, and a job without a name is passed over.
unfoldable pub reconcile_each : World → List Job → List Agent → Sys → Sys
reconcile_each w [] agents y = y
reconcile_each w (job ∷ jobs) agents y =
    reconcile_each w jobs agents
      (if str_eq job.name "" then y else (reconcile_job w job agents y).1)

unfoldable pub reset_turn : LeaderState → LeaderState
reset_turn s = record s { round_robin = 0 }

unfoldable pub reconcile_jobs : World → Sys → Sys
unfolding reset_turn
reconcile_jobs w y =
    let jobs = get_jobs y.store in
    let agents = get_agents y.state in
    if length jobs == 0
    then y
    else if length agents == 0
    then y
    else (let (ordered, store) = normalize_priorities jobs (w.now y.trace) y.store in
        reconcile_each w ordered agents (on_state reset_turn (record y { store = store })))

unfoldable pub tell_placed : Job → Option DispatchError × Sys → Option DispatchError × Sys
tell_placed job (none, y) = (none, emit (notified (of_job job.name)) y)
tell_placed job (some e, y) = (some e, y)

-- After the settle period `DispatchJob` dispatches at once.
unfoldable pub dispatch_stored : World → Job → Sys → Option DispatchError × Sys
unfolding is_daemon tell_placed
dispatch_stored w job y = tell_placed job (
    if is_daemon job
    then reconcile_job w job (get_agents y.state) y
    else dispatch_instances w job job.count y)

-- Before the end of the settle period the job is only stored.
unfoldable pub when_settled : Bool → World → Job → Sys → Option DispatchError × Sys
when_settled false w job y = (none, y)
when_settled true w job y = dispatch_stored w job y

-- `DispatchJob`.
unfoldable pub submit_job : World → Job → Sys → Option DispatchError × Sys
unfolding when_settled
submit_job w job y =
    if str_eq job.name ""
    then (some name_required, y)
    else (let y₁ =
          on_store (store_job job (w.now y.trace)) (on_state (lift_tombstone job.name) y) in
        when_settled y.state.settled w job y₁)

unfoldable pub mark_unplaced : String → String → Sys → Sys
mark_unplaced id name y = emit reconcile_spawned (on_state (unplace id name) y)

-- What is placed of a job on all agents that have counts.
unfoldable pub total_all : String → Dict Counts → ℕ
total_all name [] = 0
total_all name ((id, counts) ∷ m) = count_at name counts + total_all name m

-- Whether the other agents have enough of the job without this one.
unfoldable pub is_redundant : (String → Option Job) → Dict Counts → String × ℕ → Bool
unfolding is_daemon
is_redundant find placed (name, on_agent) = ltb 0 on_agent && elim (find name) [
  | none ↦ false
  | some job ↦ not (is_daemon job) && leb (wanted job.count) (total_all name placed - on_agent)
]

unfoldable pub redundant : (String → Option Job) → String → LeaderState → List String
redundant find id s = map (λ e. e.0) (keep (is_redundant find s.placed) (counts_of id s))

unfoldable pub forget_all : String → List String → LeaderState → LeaderState
forget_all id [] s = s
forget_all id (name ∷ names) s = forget_all id names (forget_placement id name s)

unfoldable pub stop_all_on : World → Option Agent → List String → Sys → Sys
stop_all_on w agent [] y = y
stop_all_on w agent (name ∷ names) y =
    let y₁ : Sys = elim agent [ none ↦ y | some a ↦ (stop_tasks_on_agent w a name y).1 ] in
    stop_all_on w agent names (emit (notified (of_job name)) y₁)

unfoldable pub trim_returning_agent_surplus : World → String → Sys → Sys
trim_returning_agent_surplus w id y =
    let names = redundant (λ n. get_job n y.store) id y.state in
    if length names == 0
    then y
    else stop_all_on w (lookup id y.state.agents) names (on_state (forget_all id names) y)

-- `RegisterAgent`.
unfoldable pub register_agent :
    World → ℕ → String → String → String → Option Counts → Sys → Bool × Sys
register_agent w timeout id endpoint version placed y =
    let (answer, state) = register_op timeout id endpoint version placed (w.now y.trace) y.state in
    let y₁ : Sys = record y { state = state } in
    elim answer [
      | rejected ↦ (false, y₁)
      | registered reconcile ↦
          let y₂ =
            (if reconcile then reconcile_jobs w (trim_returning_agent_surplus w id y₁) else y₁) in
          (true, emit (notified (of_agent id)) y₂)
    ]

unfoldable pub unregister_agent : World → String → Sys → Sys
unregister_agent w id y = reconcile_jobs w (on_state (unregister_op id) y)

unfoldable pub notify_agents : List String → Sys → Sys
notify_agents [] y = y
notify_agents (id ∷ ids) y = notify_agents ids (emit (notified (of_agent id)) y)

unfoldable pub check_dead_agents : World → ℕ → Sys → Sys
check_dead_agents w timeout y =
    let (dead, state) = check_dead_op timeout (w.now y.trace) y.state in
    let y₁ : Sys = record y { state = state } in
    if length dead == 0 then y₁ else notify_agents dead (emit reconcile_spawned y₁)
