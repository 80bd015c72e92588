-- ===== src/Node/Restart.antt =====
-- internal/agent/handlers.go, restartTask: the loop that brings a failed task back. Each round
-- takes from the environment what the runner, the ports and the shutdown channel answer in it.
pub mod Delay
pub mod Swaps
pub mod Budget
pub mod Spin
pub mod Reservation
use easyrun.Prelude.{
  ℕ, zero, suc, ◌+◌, ◌-◌, ◌*◌, ◌^◌, Bool, true, false, not, ◌&&◌, List, [], ◌∷◌, Option, none, some,
  ltb, leb, ◌==◌, if◌then◌else◌, or_else, is_some,
}
use easyrun.Prelude.Int.{ℤ, pos, ltb_ℤ, leb_ℤ, eqb_ℤ, sub_ℕ}
use easyrun.Prelude.Text.{String}
use easyrun.Prelude.Dict.{Dict, lookup, insert}
use easyrun.Types.{Job, Task, running, failed, is_stopping}
use easyrun.Node.State.{AgentState, add_task, drop_task, with_task}
use easyrun.Node.Capacity.{new_task, resolve_job_for_run}
use easyrun.Node.Stop.{stop_and_remove, release_unplaceable, mark_failed}
use easyrun.Node.Start.{Ports, allocate_ports, RunResult, came_up, no_capacity, run_failed}

abbrev pub default_max_restarts : ℤ
default_max_restarts = pos 5

-- Five minutes.
abbrev pub default_restart_window : ℤ
default_restart_window = pos 300000000000

unfoldable pub max_restarts_of : Job → ℤ
max_restarts_of job = or_else job.max_restarts default_max_restarts

unfoldable pub window_of : Job → ℤ
window_of job =
    if eqb_ℤ job.restart_window (pos 0) then default_restart_window else job.restart_window

-- Only genuine uptime earns a clean slate.
unfoldable pub earns_reset : Bool → ℤ → ℕ → Task → Bool
earns_reset was_up window now t =
    was_up && not (t.started_at == 0) && ltb_ℤ window (sub_ℕ now t.started_at)

unfoldable pub note_failure : Bool → ℤ → ℕ → Task → Task
note_failure was_up window now t = record t {
  restart_count = if earns_reset was_up window now t then 0 else t.restart_count;
  last_failed_at = now;
}

unfoldable pub restart_count_op : String → Bool → ℤ → ℕ → AgentState → ℕ × AgentState
restart_count_op id was_up window now s = elim (lookup id s.tasks) [
  | none ↦ (0, s)
  | some t ↦
      let t' = note_failure was_up window now t in
      (t'.restart_count, record s { tasks = insert id t' s.tasks })
]

unfoldable pub is_exhausted : ℤ → ℕ → Bool
is_exhausted max count = leb_ℤ (pos 0) max && leb_ℤ max (pos count)

-- One round's answers. `waited` is false where a shutdown cuts the delay short; the two others say
-- whether the shutdown channel is closed before and after the swap.
pub record RoundEnv : Type 0 where
  pub now : ℕ
  pub attributes : Dict String
  pub waited : Bool
  pub ports : Ports
  pub closed_before : Bool
  pub closed_after : Bool
  pub new_id : String
  pub result : RunResult
  pub during : AgentState → AgentState

pub data Ending : Type 0 where
  no_job gave_up shut_down unresolvable disappeared handed_back is_ghost restarted : Ending

-- What a round comes to: the function returns, or goes on with a task and `ran = false`.
pub data Round : Type 0 where
  ended : Ending → AgentState → Round
  again : Task → AgentState → Round

-- The atomic swap: the replacement takes the place of the task in one operation.
unfoldable pub swap : Task → Task → AgentState → Option (Task × AgentState)
swap task replacement s = elim (lookup task.id s.tasks) [
  | none ↦ none
  | some old ↦
      let r = record replacement {
        restart_count = old.restart_count + 1;
        last_failed_at = old.last_failed_at;
      } in
      some (r, add_task r (drop_task task.id s))
]

unfoldable pub publish_restart : Task → ℤ → ℕ → AgentState → Ending × AgentState
publish_restart r pid now s = elim (lookup r.id s.tasks) [
  | none ↦ (is_ghost, stop_and_remove r s)
  | some t ↦ if is_stopping t.state then (is_ghost, stop_and_remove r s) else (
    restarted,
    record s {
      tasks = insert r.id (record t { state = running; started_at = now; pid = pid }) s.tasks;
    },
  )
]

unfoldable pub after_run : RoundEnv → Task → RunResult → AgentState → Round
unfolding publish_restart
after_run env r no_capacity s = ended handed_back (release_unplaceable r s)
after_run env r run_failed s = again r (mark_failed r.id s)
after_run env r (came_up pid) s = let (e, s') = publish_restart r pid env.now s in ended e s'

unfoldable pub after_swap : RoundEnv → Task → AgentState → Round
unfolding after_run
after_swap env r s =
    if env.closed_after
    then ended shut_down (drop_task r.id s)
    else after_run env r env.result (env.during s)

unfoldable pub swapped : RoundEnv → AgentState → Option (Task × AgentState) → Round
swapped env s none = ended disappeared s
swapped env s (some (r, s')) = after_swap env r s'

-- From the ports on: the replacement is made of the job as the node knows it now.
unfoldable pub try_swap : RoundEnv → Job → Task → AgentState → Round
unfolding swapped
try_swap env job task s = elim (resolve_job_for_run env.attributes job) [
  | none ↦ ended unresolvable (mark_failed task.id s)
  | some run_job ↦ elim (allocate_ports env.ports run_job.ports) [
    | none ↦
        again task (with_task task.id (λ t. record t { restart_count = t.restart_count + 1 }) s)
    | some ports ↦
        if env.closed_before
        then ended shut_down s
        else swapped env s
            (swap task (record (new_task env.new_id job env.now) { ports = ports }) s)
  ]
]

unfoldable pub spend : RoundEnv → Job → Task → ℕ → AgentState → Round
spend env job task count s =
    if is_exhausted (max_restarts_of job) count
    then ended gave_up (mark_failed task.id s)
    else if ltb 0 count && not env.waited
    then ended shut_down s
    else try_swap env job task s

unfoldable pub with_budget : RoundEnv → Bool → Job → Task → AgentState → Round
with_budget env was_up job task s =
    let (count, s₁) = restart_count_op task.id was_up (window_of job) env.now s in
    spend env job task count s₁

unfoldable pub restart_round : RoundEnv → Bool → Task → AgentState → Round
restart_round env was_up task s = elim (lookup task.job_name s.jobs) [
  | none ↦ ended no_job (drop_task task.id s)
  | some job ↦ with_budget env was_up job task s
]

-- The loop over the rounds that the environment has in store: `again` at the end means that the
-- loop is still going on when they are used up.
unfoldable pub restart_task : List RoundEnv → Bool → Task → AgentState → Round
restart_task [] was_up task s = again task s
restart_task (env ∷ envs) was_up task s = elim (restart_round env was_up task s) [
  | ended e s' ↦ ended e s'
  | again task' s' ↦ restart_task envs false task' s'
]
