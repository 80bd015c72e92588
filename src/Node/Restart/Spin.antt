-- ===== src/Node/Restart/Spin.antt =====
-- The loop of restartTask in internal/agent/handlers.go for a task that has left the node.
use easyrun.Prelude.{◌≡◌, refl, Bool, false, List, [], ◌∷◌, none, some, All}
use easyrun.Prelude.Dict.{lookup}
use easyrun.Types.{Job, Task}
use easyrun.Node.State.{AgentState, with_task}
use easyrun.Node.Capacity.{resolve_job_for_run}
use easyrun.Node.Start.{allocate_ports}
use easyrun.Node.Restart.{
  RoundEnv, again, max_restarts_of, restart_count_op, is_exhausted, try_swap, spend, with_budget,
  restart_round, restart_task,
}

-- In the round an artifact fits the node, and a port that the job wants is taken.
abbrev pub IsBlocked : Job → RoundEnv → Type 0
IsBlocked job env =
    (run_job : Job) × (resolve_job_for_run env.attributes job ≡ some run_job)
    × (allocate_ports env.ports run_job.ports ≡ none)

try_swap-blocked :
    (env : RoundEnv) (job : Job) (task : Task) (s : AgentState)
    → lookup task.id s.tasks ≡ none
    → IsBlocked job env
    → try_swap env job task s ≡ again task s
unfolding try_swap with_task
try_swap-blocked env job task s absent (run_job, e, f) =
    rw (e, try_swap) (rw f (rw (absent, with_task) refl))

restart_round-blocked :
    (env : RoundEnv) (was_up : Bool) (job : Job) (task : Task) (s : AgentState)
    → lookup task.job_name s.jobs ≡ some job
    → is_exhausted (max_restarts_of job) 0 ≡ false
    → lookup task.id s.tasks ≡ none
    → IsBlocked job env
    → restart_round env was_up task s ≡ again task s
unfolding restart_round with_budget restart_count_op spend
restart_round-blocked env was_up job task s known left absent blocked =
    rw (known, restart_round)
      (rw (absent, restart_count_op)
        (rw (left, spend) (try_swap-blocked env job task s absent blocked)))

-- A task that a stop took off the node while its job stayed, with a port of the job in use, keeps
-- the loop going for as long as the port is: each round comes back to where it began, and none
-- waits, for the count that the delay goes by stays 0.
pub restart_task_spins :
    (envs : List RoundEnv) (was_up : Bool) (job : Job) (task : Task) (s : AgentState)
    → lookup task.job_name s.jobs ≡ some job
    → is_exhausted (max_restarts_of job) 0 ≡ false
    → lookup task.id s.tasks ≡ none
    → All (IsBlocked job) envs
    → restart_task envs was_up task s ≡ again task s
unfolding restart_task
restart_task_spins [] was_up job task s known left absent blocked = refl
restart_task_spins (env ∷ envs) was_up job task s known left absent blocked =
    rw (restart_round-blocked env was_up job task s known left absent blocked.0, restart_task)
      (restart_task_spins envs false job task s known left absent blocked.1)
