-- ===== src/Node/Stop.antt =====
-- internal/agent/agent.go and handlers.go: the ways in which a task leaves a node. Each function is
-- one operation on the state, or what a handler's operations do in a row; the runner's own Stop,
-- whose error is only logged, touches no state of the agent.
pub mod Laws
use easyrun.Prelude.{
  ℕ, Bool, true, false, not, List, [], ◌∷◌, map, Option, none, some, if◌then◌else◌, length, keep,
  is_some,
}
use easyrun.Prelude.Text.{String, str_eq}
use easyrun.Prelude.Dict.{Dict, lookup, insert, erase, values}
use easyrun.Types.{Job, Task, TaskState, downloading, stopping, failed, is_starting}
use easyrun.Node.State.{AgentState, drop_task, with_task}
use easyrun.Node.Capacity.{Status, ok, bad_request, method_not_allowed, not_found, mark_stopping}

-- The first half of `stopAndRemove`.
unfoldable pub stop_and_remove : Task → AgentState → AgentState
stop_and_remove t s = drop_task t.id s

unfoldable pub stop_tasks : List Task → AgentState → AgentState
stop_tasks [] s = s
stop_tasks (t ∷ ts) s = stop_tasks ts (drop_task t.id s)

unfoldable pub mark_all : Dict Task → Dict Task
mark_all [] = []
mark_all ((k, t) ∷ m) = (k, mark_stopping t) ∷ mark_all m

unfoldable pub mark_all_stopping : AgentState → List Task × AgentState
unfolding mark_all
mark_all_stopping s = (values (mark_all s.tasks), record s { tasks = mark_all s.tasks })

-- Isolation, and the same steps at shutdown.
unfoldable pub stop_all_tasks : AgentState → AgentState
unfolding mark_all_stopping
stop_all_tasks s = let (tasks, s') = mark_all_stopping s in stop_tasks tasks s'

unfoldable pub of_job : String → Task → Bool
of_job name t = str_eq t.job_name name

unfoldable pub mark_job : String → Dict Task → Dict Task
mark_job name [] = []
mark_job name ((k, t) ∷ m) = (k, if of_job name t then mark_stopping t else t) ∷ mark_job name m

unfoldable pub mark_job_stopping : String → AgentState → List Task × AgentState
unfolding mark_job
mark_job_stopping name s = (
  keep (of_job name) (values (mark_job name s.tasks)),
  record s { tasks = mark_job name s.tasks },
)

-- `stopJobTasks`: the job's definition stays.
unfoldable pub stop_job_tasks : String → AgentState → ℕ × AgentState
stop_job_tasks name s =
    let (tasks, s') = mark_job_stopping name s in (length tasks, stop_tasks tasks s')

-- `deleteJob`: the definition goes in the same operation that marks the tasks.
unfoldable pub delete_job_op : String → ℕ → AgentState → List Task × AgentState
delete_job_op name now s =
    mark_job_stopping name (record s { jobs = erase name s.jobs; state_time = now })

unfoldable pub delete_job_tasks : String → ℕ → AgentState → ℕ × AgentState
delete_job_tasks name now s =
    let (tasks, s') = delete_job_op name now s in (length tasks, stop_tasks tasks s')

-- The names stand for what is left of the path behind the route's prefix.
unfoldable pub handle_delete : Bool → String → ℕ → AgentState → Status × AgentState
handle_delete is_delete name now s =
    if not is_delete
    then (method_not_allowed, s)
    else if str_eq name ""
    then (bad_request, s)
    else (ok, (delete_job_tasks name now s).1)

unfoldable pub handle_stop : Bool → String → AgentState → Status × AgentState
handle_stop is_post name s =
    if not is_post
    then (method_not_allowed, s)
    else if str_eq name ""
    then (bad_request, s)
    else (ok, (stop_job_tasks name s).1)

-- The handler answers once the task is marked; `stop_and_remove` follows in the background.
unfoldable pub handle_stop_task : Bool → String → AgentState → Status × AgentState
handle_stop_task is_post id s =
    if not is_post
    then (method_not_allowed, s)
    else if str_eq id ""
    then (bad_request, s)
    else if is_some (lookup id s.tasks)
    then (ok, with_task id mark_stopping s)
    else (not_found, s)

-- `releaseUnplaceable`: the task is handed back to the leader.
unfoldable pub release_unplaceable : Task → AgentState → AgentState
release_unplaceable t s = drop_task t.id s

unfoldable pub mark_failed : String → AgentState → AgentState
mark_failed id s = with_task id (λ t. record t { state = failed }) s

-- A runner's report of a download: only a task that is still starting takes it.
unfoldable pub download_progress : ℕ → ℕ → Task → Task
download_progress done total t =
    if is_starting t.state
    then record t { state = downloading; downloaded = done; image_size = total }
    else t

unfoldable pub task_downloading : String → ℕ → ℕ → AgentState → AgentState
task_downloading id done total s = with_task id (download_progress done total) s
