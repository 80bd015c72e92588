-- ===== src/Leader/Update.antt =====
-- internal/leader/update.go: changing the definition of a job that runs.
pub mod Steps
pub mod Flags
pub mod Progress
use easyrun.Prelude.{
  ℕ, zero, suc, ◌+◌, Bool, true, false, not, ◌&&◌, ◌||◌, List, [], ◌∷◌, ◌++◌, map, Option, none,
  some, ltb, if◌then◌else◌, is_some, keep, or_else,
}
use easyrun.Prelude.Text.{String, str_eq}
use easyrun.Prelude.Dict.{Dict, lookup, insert, erase}
use easyrun.Types.{Job, Task, Agent, update_rolling, update_recreate, update_blue_green}
use easyrun.Node.Store.{get_job, get_jobs, store_job}
use easyrun.Leader.State.{LeaderState, Counts, count_at, get_agent, unplace, unlock_job}
use easyrun.Leader.System.{
  World, Sys, Topic, of_job, notified, reconcile_spawned, on_state, on_store, emit,
  send_replace_to_agent, stop_tasks_on_agent, stop_task_by_id, claim_job, SendError,
}
use easyrun.Leader.Dispatch.{DispatchError, full, dispatch_without_preemption, wanted}
use easyrun.Leader.Priority.{normalize_priorities}
use easyrun.Leader.Reconcile.{submit_job}

pub data UpdateError : Type 0 where
  not_found unknown_policy locked interrupted : UpdateError
  dispatch_failed : DispatchError → UpdateError
  replace_failed : SendError → UpdateError

pub record TaskRef : Type 0 where
  pub agent_id : String
  pub task_id : String

unfoldable pub add_known : Option Agent → List Agent → List Agent
add_known none rest = rest
add_known (some a) rest = a ∷ rest

-- The agents that are known and have some of the job placed.
unfoldable pub placed_agents : String → Dict Counts → Dict Agent → List Agent
unfolding add_known
placed_agents name [] agents = []
placed_agents name ((id, counts) ∷ m) agents =
    let rest = placed_agents name m agents in
    if ltb 0 (count_at name counts) then add_known (lookup id agents) rest else rest

unfoldable pub refs_of : Agent → String → Option (List Task) → List TaskRef
refs_of agent name none = []
refs_of agent name (some tasks) =
    map (λ t. record { agent_id = agent.id; task_id = t.id })
      (keep (λ t. str_eq t.job_name name) tasks)

unfoldable pub refs_on : World → String → Sys → List Agent → List TaskRef
unfolding refs_of
refs_on w name y [] = []
refs_on w name y (a ∷ rest) = refs_of a name (w.tasks_reply y.trace a) ++ refs_on w name y rest

-- A job that is not in the store has no status.
unfoldable pub snapshot_job_tasks : World → String → Sys → List TaskRef
snapshot_job_tasks w name y =
    if is_some (get_job name y.store)
    then refs_on w name y (placed_agents name y.state.placed y.state.agents)
    else []

unfoldable pub stop_old_task : String → TaskRef → Sys → Sys
stop_old_task name ref y = elim (get_agent ref.agent_id y.state) [
  | none ↦ y
  | some agent ↦ on_state (unplace ref.agent_id name) (stop_task_by_id agent ref.task_id y)
]

pub data Replaced : Type 0 where
  beside in_place : Replaced
  failed : UpdateError → Replaced

unfoldable pub of_reply : Option SendError → Replaced
of_reply none = in_place
of_reply (some e) = failed (replace_failed e)

-- Where there is no room beside the old instance, its agent swaps it for the new one.
unfoldable pub after_dispatch : World → Job → TaskRef → Option DispatchError × Sys → Replaced × Sys
unfolding of_reply
after_dispatch w job ref (none, y) = (beside, y)
after_dispatch w job ref (some full, y) = elim (get_agent ref.agent_id y.state) [
  | none ↦ (failed (dispatch_failed full), y)
  | some agent ↦ let (err, y') = send_replace_to_agent w agent job y in (of_reply err, y')
]
after_dispatch w job ref (some e, y) = (failed (dispatch_failed e), y)

unfoldable pub replace_one : World → Job → ℕ → ℕ → TaskRef → Sys → Replaced × Sys
unfolding after_dispatch
replace_one w job count i ref y =
    if ltb i count
    then after_dispatch w job ref (dispatch_without_preemption w job y)
    else (beside, y)

unfoldable pub retire : Job → TaskRef → Replaced × Sys → Sys
retire job ref (beside, y) = stop_old_task job.name ref y
retire job ref (in_place, y) = y
retire job ref (failed e, y) = y

unfoldable pub failure : Replaced → Option UpdateError
failure (failed e) = some e
failure _ = none

-- One old instance after the other, from index `i`.
unfoldable pub roll : World → Job → ℕ → ℕ → List TaskRef → Sys → Option UpdateError × Sys
unfolding replace_one retire failure
roll w job count i [] y = (none, y)
roll w job count i (ref ∷ refs) y =
    let step = replace_one w job count i ref y in
    elim (failure step.0) [
      | some e ↦ (some e, step.1)
      | none ↦
          let y' = emit (notified (of_job job.name)) (retire job ref step) in
          let rest = roll w job count (i + 1) refs y' in
          if ltb (i + 1) count && w.cancelled y'.trace then (some interrupted, y') else rest
    ]

unfoldable pub finish_rolling : Job → Option UpdateError × Sys → Option UpdateError × Sys
finish_rolling job (some e, y) = (some e, on_state (unlock_job job.name) y)
finish_rolling job (none, y) = (none, emit reconcile_spawned (on_state (unlock_job job.name) y))

unfoldable pub update_by_rolling : World → Job → Sys → Option UpdateError × Sys
unfolding finish_rolling
update_by_rolling w job y =
    let old = snapshot_job_tasks w job.name y in
    let y₁ = on_store (store_job job (w.now y.trace)) y in
    finish_rolling job (roll w job (wanted job.count) 0 old y₁)

-- `delete(jobs, name)` on every agent that has some of the job.
unfoldable pub clear_placed : String → Dict Counts → Dict Counts
clear_placed name [] = []
clear_placed name ((id, counts) ∷ m) =
    (id, if ltb 0 (count_at name counts) then erase name counts else counts) ∷ clear_placed name m

unfoldable pub clear_placements : String → LeaderState → LeaderState
unfolding clear_placed
clear_placements name s = record s { placed = clear_placed name s.placed }

unfoldable pub stop_on_all : World → String → List Agent → Sys → Sys
stop_on_all w name [] y = y
stop_on_all w name (a ∷ rest) y = stop_on_all w name rest (stop_tasks_on_agent w a name y).1

unfoldable pub of_dispatch : Option DispatchError × Sys → Option UpdateError × Sys
of_dispatch (none, y) = (none, y)
of_dispatch (some e, y) = (some (dispatch_failed e), y)

unfoldable pub update_by_recreate : World → Job → Sys → Option UpdateError × Sys
unfolding of_dispatch
update_by_recreate w job y =
    let agents = placed_agents job.name y.state.placed y.state.agents in
    let y₁ = stop_on_all w job.name agents (on_state (clear_placements job.name) y) in
    of_dispatch (submit_job w job (on_state (unlock_job job.name) y₁))

unfoldable pub dispatch_beside : World → Job → ℕ → Sys → Option DispatchError × Sys
dispatch_beside w job zero y = (none, y)
dispatch_beside w job (suc n) y =
    let (err, y') = dispatch_without_preemption w job y in
    elim err [ none ↦ dispatch_beside w job n y' | some e ↦ (some e, y') ]

unfoldable pub stop_each : String → List TaskRef → Sys → Sys
stop_each name [] y = y
stop_each name (ref ∷ refs) y = stop_each name refs (stop_old_task name ref y)

unfoldable pub finish_blue_green :
    Job → List TaskRef → Option DispatchError × Sys → Option UpdateError × Sys
finish_blue_green job old (some e, y) = (some (dispatch_failed e), on_state (unlock_job job.name) y)
finish_blue_green job old (none, y) = (
  none,
  on_state (unlock_job job.name) (emit (notified (of_job job.name)) (stop_each job.name old y)),
)

unfoldable pub update_by_blue_green : World → Job → Sys → Option UpdateError × Sys
unfolding finish_blue_green
update_by_blue_green w job y =
    let old = snapshot_job_tasks w job.name y in
    let y₁ = on_store (store_job job (w.now y.trace)) y in
    finish_blue_green job old (dispatch_beside w job (wanted job.count) y₁)

pub data Policy : Type 0 where
  rolling recreate blue_green : Policy

-- No policy is the rolling one.
unfoldable pub policy_of : String → Option Policy
policy_of p =
    if str_eq p "" || str_eq p update_rolling
    then some rolling
    else if str_eq p update_recreate
    then some recreate
    else if str_eq p update_blue_green
    then some blue_green
    else none

unfoldable pub run_policy : World → Policy → Job → Sys → Option UpdateError × Sys
run_policy w rolling job y = update_by_rolling w job y
run_policy w recreate job y = update_by_recreate w job y
run_policy w blue_green job y = update_by_blue_green w job y

unfoldable pub normalize_all : World → Sys → Sys
normalize_all w y = on_store (λ s. (normalize_priorities (get_jobs s) (w.now y.trace) s).1) y

-- An update that succeeds is no longer in progress.
unfoldable pub settle_update : World → Job → Option UpdateError × Sys → Option UpdateError × Sys
unfolding normalize_all
settle_update w job (some e, y) = (some e, normalize_all w y)
settle_update w job (none, y) = (
  none,
  normalize_all w (on_store (store_job (record job { deploying = false }) (w.now y.trace)) y),
)

-- `UpdateJob`.
unfoldable pub update_job_op : World → Job → Sys → Option UpdateError × Sys
unfolding settle_update
update_job_op w new y = elim (get_job new.name y.store) [
  | none ↦ (some not_found, y)
  | some old ↦
      let job : Job = record new {
        priority = if is_some new.priority then new.priority else old.priority;
        deploying = true;
      } in
      elim (policy_of new.update_policy) [
        | none ↦ (some unknown_policy, y)
        | some policy ↦
            let (claimed, y₁) = claim_job w new.name y in
            let result = run_policy w policy job y₁ in
            if claimed then settle_update w job result else (some locked, y₁)
      ]
]
