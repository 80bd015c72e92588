-- ===== src/Node/Start.antt =====
-- internal/agent/handlers.go: how an accepted job is started. What the runner, the free ports and
-- the other goroutines do is the environment's: `during` stands for every operation on the state
-- that they complete while the runner starts the process.
pub mod Laws
use easyrun.Prelude.{
  ℕ, ◌+◌, Bool, true, false, not, ◌||◌, List, [], ◌∷◌, Option, none, some, if◌then◌else◌, is_some,
  or_else,
}
use easyrun.Prelude.Int.{ℤ, pos, ltb_ℤ}
use easyrun.Prelude.Text.{String, str_eq}
use easyrun.Prelude.Dict.{Dict, lookup, insert}
use easyrun.Types.{Job, Task, running, failed, is_stopping, driver_for}
use easyrun.Node.State.{AgentState, add_task, held}
use easyrun.Node.Capacity.{Start, resolve_job_for_run}
use easyrun.Node.Stop.{stop_and_remove, release_unplaceable, mark_failed}

-- Which host ports are free, and the one that a wildcard bind would give a name.
pub record Ports : Type 0 where
  pub available : ℤ → Bool
  pub free_port : String → Option ℤ

-- `none` is the error of a fixed port in use, or of no port to be had.
unfoldable pub allocate_ports : Ports → Dict ℤ → Option (Dict ℤ)
allocate_ports p [] = some []
allocate_ports p ((name, fixed) ∷ rest) =
    let chosen =
      if ltb_ℤ (pos 0) fixed
      then (if p.available fixed then some fixed else none)
      else p.free_port name in
    elim chosen [
      | none ↦ none
      | some port ↦ elim (allocate_ports p rest) [
        | none ↦ none
        | some ports ↦ some (insert name port ports)
      ]
    ]

-- What a runner's Run comes to: the process id, or one of the two kinds of error.
pub data RunResult : Type 0 where
  came_up : (pid : ℤ) → RunResult
  no_capacity run_failed : RunResult

pub record StartEnv : Type 0 where
  pub attributes : Dict String
  pub ports : Ports
  pub result : RunResult
  pub during : AgentState → AgentState
  pub started_at : ℕ

pub data Started : Type 0 where
  skipped started ghost : Started
  unplaceable start_failed : Started

-- The object behind the pointer that the goroutine holds.
unfoldable pub object : Task → AgentState → Task
object task s = or_else (held task.id s) task

-- A write through a held pointer, outside of the operations on the state.
unfoldable pub write_held : Task → AgentState → AgentState
write_held t s =
    if is_some (lookup t.id s.tasks)
    then record s { tasks = insert t.id t s.tasks }
    else record s { gone = insert t.id t s.gone }

-- The first operation: the job is registered, unless a stop has already marked the task.
unfoldable pub register : Job → Task → AgentState → Bool × AgentState
register job task s =
    if is_stopping (object task s).state
    then (false, s)
    else (true, record s { jobs = insert job.name job s.jobs })

-- The last operation: the task runs, unless its job has gone or a stop has marked it.
unfoldable pub publish : Job → Task → AgentState → Bool × AgentState
publish job task s =
    if not (is_some (lookup job.name s.jobs))
    then (false, s)
    else (let s' = record s { jobs = insert job.name job s.jobs } in
        if is_stopping (object task s).state
        then (false, s')
        else (true, add_task (record (object task s) { state = running }) s'))

unfoldable pub finish_start : Job → Task → Bool × AgentState → Started × AgentState
finish_start job task (true, s) = (started, s)
finish_start job task (false, s) = (ghost, stop_and_remove task s)

-- What follows the runner's Run.
unfoldable pub after_run : StartEnv → Job → Task → AgentState → Started × AgentState
unfolding finish_start
after_run env job task s = elim env.result [
  | no_capacity ↦ (unplaceable, s)
  | run_failed ↦ (start_failed, s)
  | came_up pid ↦
      let t = record (object task s) { pid = pid; started_at = env.started_at } in
      finish_start job task (publish job task (write_held t s))
]

unfoldable pub with_driver : Job → Job
with_driver job = if str_eq job.driver "" then record job { driver = driver_for job.image } else job

-- Between the two operations: the artifact, the ports, the runner.
unfoldable pub launch : StartEnv → Job → Task → AgentState → Started × AgentState
launch env job task s = elim (resolve_job_for_run env.attributes job) [
  | none ↦ (start_failed, s)
  | some run_job ↦ elim (allocate_ports env.ports run_job.ports) [
    | none ↦ (start_failed, s)
    | some ports ↦
        after_run env job task
          (env.during (write_held (record (object task s) { ports = ports }) s))
  ]
]

unfoldable pub start_job : StartEnv → Job → Task → AgentState → Started × AgentState
unfolding with_driver
start_job env j task s =
    let job = with_driver j in
    let (fresh, s₁) = register job task s in if fresh then launch env job task s₁ else (skipped, s)

unfoldable pub stop_old : List Task → AgentState → AgentState
stop_old [] s = s
stop_old (t ∷ ts) s = stop_old ts (stop_and_remove t s)

-- The goroutine of `handleRun`: predecessors first, then the start; `true` asks for a restart.
unfoldable pub run_start : StartEnv → Start → AgentState → Bool × AgentState
run_start env b s =
    let (result, s') = start_job env b.job b.task (stop_old b.old s) in
    elim result [
      | unplaceable ↦ (false, release_unplaceable b.task s')
      | start_failed ↦ (true, mark_failed b.task.id s')
      | _ ↦ (false, s')
    ]
