-- ===== src/Node/Start/Laws.antt =====
-- What a start may leave behind when a stop or a delete crosses it.
use easyrun.Prelude.{◌≡◌, not, ◌&&◌, none, some, arith, if◌then◌else◌, is_some}
use easyrun.Prelude.Int.{ℤ}
use easyrun.Prelude.Text.{String, str_eq, str_eq_refl}
use easyrun.Prelude.Dict.{lookup, lookup-insert}
use easyrun.Types.{Job, Task, running, is_stopping}
use easyrun.Node.State.{AgentState, add_task}
use easyrun.Node.Stop.Laws.{lookup-drop_task, drop_task-jobs}
use easyrun.Node.Stop.{stop_and_remove}
use easyrun.Node.Start.{StartEnv, ghost, object, write_held, publish, after_run, came_up}

write_held-jobs : (t : Task) (s : AgentState) → (write_held t s).jobs ≡ s.jobs
unfolding write_held
write_held-jobs t s = ground arith

-- A job that was deleted while its process was starting stays deleted, and the task is gone.
pub after_run-deleted :
    (env : StartEnv) (job : Job) (task : Task) (s : AgentState) (pid : ℤ)
    → env.result ≡ came_up pid
    → lookup job.name s.jobs ≡ none
    → ((after_run env job task s).0 ≡ ghost)
      × ((after_run env job task s).1.jobs ≡ s.jobs)
      × (lookup task.id (after_run env job task s).1.tasks ≡ none)
unfolding after_run publish stop_and_remove
after_run-deleted env job task s pid e absent =
    let t : Task = record (object task s) { pid = pid; started_at = env.started_at } in
    ground (
      arith,
      write_held-jobs t s,
      drop_task-jobs task.id (write_held t s),
      lookup-drop_task task.id task.id (write_held t s),
      str_eq_refl task.id,
    )

-- The publication that ends a start, on every branch: it succeeds exactly if the node still knows
-- the job and no stop has marked the task. Wherever the job is known its definition is overwritten
-- by the one that this start was given, also if a newer one has been stored meanwhile; no other
-- job changes. On success the task is running, and every other task is as it was.
pub publish_lem :
    (job : Job) (task : Task) (s : AgentState)
    → ((publish job task s).0
        ≡ is_some (lookup job.name s.jobs) && not (is_stopping (object task s).state))
      × ((n : String)
          → lookup n (publish job task s).1.jobs ≡ (
              if is_some (lookup job.name s.jobs) && str_eq job.name n
              then some job
              else lookup n s.jobs))
      × ((k : String)
          → lookup k (publish job task s).1.tasks ≡ (
              if (publish job task s).0 && str_eq (object task s).id k
              then some (record (object task s) { state = running })
              else lookup k s.tasks))
unfolding publish add_task
publish_lem job task s = (
  ground arith,
  λ n. ground (arith, lookup-insert job.name n job s.jobs),
  λ k. ground (
    arith,
    lookup-insert (object task s).id k (record (object task s) { state = running }) s.tasks,
  ),
)
