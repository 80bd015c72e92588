-- ===== src/Node/Stop/Laws.antt =====
-- What is left of a job after the node stopped or deleted it.
use easyrun.Prelude.{
  ℕ, ◌≡◌, refl, ◌∙◌, Bool, false, List, [], ◌∷◌, Option, none, some, arith, if◌then◌else◌,
  Option-cases, keep, inl, inr, any,
}
use easyrun.Prelude.Text.{String, str_eq, str_eq_iff}
use easyrun.Prelude.Dict.{Dict, lookup, erase, values, lookup-insert, lookup-erase}
use easyrun.Types.{Task}
use easyrun.Node.State.{AgentState, drop_task, with_task}
use easyrun.Node.Capacity.{mark_stopping}
use easyrun.Node.Stop.{
  stop_tasks, of_job, mark_job, mark_job_stopping, stop_job_tasks, delete_job_op, delete_job_tasks,
  task_downloading, download_progress,
}

-- Each task stands under its own id, and no id stands twice.
abbrev pub IsKeyed : Dict Task → Type 0
IsKeyed [] = Unit
IsKeyed ((k, t) ∷ m) = (t.id ≡ k) × (lookup k m ≡ none) × IsKeyed m

pub lookup-drop_task :
    (id k : String) (s : AgentState)
    → lookup k (drop_task id s).tasks ≡ (if str_eq id k then none else lookup k s.tasks)
unfolding drop_task
lookup-drop_task id k s = ground (arith, lookup-erase id k s.tasks, str_eq_iff id k)

pub drop_task-jobs : (id : String) (s : AgentState) → (drop_task id s).jobs ≡ s.jobs
unfolding drop_task
drop_task-jobs id s = ground arith

-- One of the tasks has the id.
abbrev pub has_id : String → List Task → Bool
has_id k = any (λ t. str_eq t.id k)

pub lookup-stop_tasks :
    (k : String) (ts : List Task) (s : AgentState)
    → lookup k (stop_tasks ts s).tasks ≡ (if has_id k ts then none else lookup k s.tasks)
unfolding stop_tasks
lookup-stop_tasks k [] s = refl
lookup-stop_tasks k (t ∷ ts) s =
    ground (arith, lookup-stop_tasks k ts (drop_task t.id s), lookup-drop_task t.id k s)

pub stop_tasks-jobs : (ts : List Task) (s : AgentState) → (stop_tasks ts s).jobs ≡ s.jobs
unfolding stop_tasks
stop_tasks-jobs [] s = refl
stop_tasks-jobs (t ∷ ts) s = stop_tasks-jobs ts (drop_task t.id s) ∙ drop_task-jobs t.id s

lookup-mark_job :
    (name k : String) (m : Dict Task)
    → lookup k (mark_job name m) ≡ elim (lookup k m) [
      | none ↦ none
      | some t ↦ some (if of_job name t then mark_stopping t else t)
    ]
unfolding lookup mark_job
lookup-mark_job name k [] = refl
lookup-mark_job name k ((j, t) ∷ m) = ground (arith, lookup-mark_job name k m)

-- The task that an id finds, if it is of the job.
abbrev pub finds_of_job : String → Option Task → Bool
finds_of_job name none = false
finds_of_job name (some t) = of_job name t

-- The tasks picked for the stop are those of the job.
has_id-keep :
    (name k : String) (m : Dict Task)
    → IsKeyed m
    → has_id k (keep (of_job name) (values (mark_job name m))) ≡ finds_of_job name (lookup k m)
unfolding lookup mark_job of_job mark_stopping
has_id-keep name k [] keyed = refl
has_id-keep name k ((j, t) ∷ m) keyed =
    ground (arith, str_eq_iff j k, str_eq_iff t.id k, has_id-keep name k m keyed.2)

-- After a stop of a job none of its tasks is left, every other task is as it was, and the node
-- still knows every job, this one too.
pub stop_job_tasks_lem :
    (name : String) (s : AgentState)
    → IsKeyed s.tasks
    → ((k : String)
        → lookup k (stop_job_tasks name s).1.tasks
          ≡ (if finds_of_job name (lookup k s.tasks) then none else lookup k s.tasks))
      × ((stop_job_tasks name s).1.jobs ≡ s.jobs)
unfolding stop_job_tasks mark_job_stopping
stop_job_tasks_lem name s keyed =
    let old = keep (of_job name) (values (mark_job name s.tasks)) in
    let marked : AgentState = record s { tasks = mark_job name s.tasks } in
    (
      λ k. ground (
        arith,
        lookup-stop_tasks k old marked,
        has_id-keep name k s.tasks keyed,
        lookup-mark_job name k s.tasks,
      ),
      stop_tasks-jobs old marked,
    )

-- After a delete the job is unknown, none of its tasks is left, and every other job and task is as
-- it was.
pub delete_job_tasks_lem :
    (name : String) (now : ℕ) (s : AgentState)
    → IsKeyed s.tasks
    → ((k : String)
        → lookup k (delete_job_tasks name now s).1.tasks
          ≡ (if finds_of_job name (lookup k s.tasks) then none else lookup k s.tasks))
      × ((n : String)
          → lookup n (delete_job_tasks name now s).1.jobs
            ≡ (if str_eq name n then none else lookup n s.jobs))
unfolding delete_job_tasks delete_job_op mark_job_stopping
delete_job_tasks_lem name now s keyed =
    let old = keep (of_job name) (values (mark_job name s.tasks)) in
    let marked : AgentState = record s {
      jobs = erase name s.jobs;
      state_time = now;
      tasks = mark_job name s.tasks;
    } in
    (
      λ k. ground (
        arith,
        lookup-stop_tasks k old marked,
        has_id-keep name k s.tasks keyed,
        lookup-mark_job name k s.tasks,
      ),
      λ n. rw (stop_tasks-jobs old marked) (lookup-erase name n s.jobs),
    )

-- A late report of a download never takes a task back: a task that is running, stopping or failed
-- keeps its state and its figures, and a task that has left the node does not come back.
pub task_downloading_lem :
    (id : String) (done total : ℕ) (s : AgentState) (k : String)
    → lookup k (task_downloading id done total s).tasks ≡ elim (lookup k s.tasks) [
      | none ↦ none
      | some t ↦ some (if str_eq id k then download_progress done total t else t)
    ]
unfolding task_downloading with_task
task_downloading_lem id done total s k = elim (Option-cases (lookup id s.tasks)) [
  | inl absent ↦ rw (absent, with_task) (ground (arith, str_eq_iff id k))
  | inr (t, found) ↦
      rw (found, with_task)
        (ground
          (arith, str_eq_iff id k, lookup-insert id k (download_progress done total t) s.tasks))
]
