-- ===== src/Api/Apply.antt =====
-- handleApplyJob of internal/api/server.go: a job that is created, or updated by its name. The decoder
-- of a job is the caller's, and passes over unknown fields: a body that it refuses is `none`.
pub mod Agreement
pub mod Outcome
use easyrun.Prelude.{
  ℕ, Bool, true, false, not, ◌&&◌, ◌||◌, Option, none, some, List, [], ◌∷◌, ltb, ◌==◌,
  if◌then◌else◌, length, is_some,
}
use easyrun.Prelude.Int.{ℤ}
use easyrun.Prelude.Text.{String, str_eq}
use easyrun.Types.{Job, driver_hop, update_rolling}
use easyrun.Node.Store.{get_job}
use easyrun.Leader.System.{World, Sys}
use easyrun.Leader.Dispatch.{DispatchError}
use easyrun.Leader.Reconcile.{submit_job}
use easyrun.Leader.Update.{UpdateError, locked, update_job_op}
use easyrun.Leader.InitJobs.{next_priority}
use easyrun.Api.{
  Response, bad_request, conflict, internal_error, updated, pending, dispatched, patch_priority,
}

-- The driver that a job with one artifact and nothing else means.
unfoldable pub default_driver : Job → Job
default_driver job =
    if str_eq job.driver ""
      && (str_eq job.command "" && (str_eq job.image "" && length job.artifacts == 1))
    then record job { driver = driver_hop }
    else job

unfoldable pub is_hop_image : Job → Bool
is_hop_image job = str_eq job.driver driver_hop && ltb 0 (length job.artifacts)

-- The job that a request asks for, where it has a name and something to run.
unfoldable pub accept : Option Job → Option Job
unfolding default_driver is_hop_image
accept none = none
accept (some spec) =
    let job = default_driver spec in
    if str_eq spec.name ""
    then none
    else if str_eq job.command "" && (str_eq job.image "" && not (is_hop_image job))
    then none
    else some job

unfoldable pub answer_update : Job → Option UpdateError × Sys → Response × Sys
answer_update job (none, y) = (
  updated job.name (if str_eq job.update_policy "" then update_rolling else job.update_policy),
  y,
)
answer_update job (some locked, y) = (conflict, y)
answer_update job (some e, y) = (internal_error, y)

-- An explicit priority is an index, and moves the job there once it is dispatched.
unfoldable pub after_submit :
    World → String → Option ℤ → Option DispatchError × Sys → Response × Sys
after_submit w name priority (some e, y) = (pending name, y)
after_submit w name none (none, y) = (dispatched name, y)
after_submit w name (some target) (none, y) = (dispatched name, (patch_priority w name target y).1)

unfoldable pub create : World → Job → Sys → Response × Sys
unfolding after_submit
create w job y =
    let priority = if is_some job.priority then job.priority else some (next_priority y) in
    after_submit w job.name job.priority (submit_job w (record job { priority = priority }) y)

unfoldable pub apply_accepted : World → Option Job → Sys → Response × Sys
unfolding answer_update create
apply_accepted w none y = (bad_request, y)
apply_accepted w (some job) y =
    if is_some (get_job job.name y.store)
    then answer_update job (update_job_op w job y)
    else create w job y

unfoldable pub handle_apply_job : World → Option Job → Sys → Response × Sys
unfolding accept apply_accepted
handle_apply_job w spec y = apply_accepted w (accept spec) y
