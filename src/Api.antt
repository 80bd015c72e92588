-- ===== src/Api.antt =====
-- internal/api/server.go: what the leader's API does with a request. A body that does not decode is
-- `none`, since the decoder is outside; the streams and the calls that are passed on to agents are
-- left out. A path's last part comes as the handler cuts it off.
pub mod Apply
pub mod Placed
use easyrun.Prelude.{
  ℕ, ◌+◌, Bool, true, false, not, ◌&&◌, ◌||◌, Option, none, some, List, [], ◌∷◌, ltb, ◌==◌,
  if◌then◌else◌, length, is_some, or_else,
}
use easyrun.Prelude.Int.{ℤ, pos}
use easyrun.Prelude.Text.{String, str_eq}
use easyrun.Prelude.Dict.{Dict, lookup, insert}
use easyrun.Types.{Job, Agent, driver_hop}
use easyrun.Node.State.{AgentState}
use easyrun.Node.Store.{get_job, get_jobs, get_state_time}
use easyrun.Leader.State.{Counts, LeaderState, count_at, heartbeat, get_agents}
use easyrun.Leader.System.{
  World, Sys, on_store, emit, notified, of_job, of_task, of_status, reconcile_spawned,
}
use easyrun.Leader.Dispatch.{DispatchError}
use easyrun.Leader.Priority.{patch_job_priority}
use easyrun.Leader.Reconcile.{submit_job, register_agent, unregister_agent, mark_unplaced}
use easyrun.Leader.Update.{UpdateError, locked, update_job_op}
use easyrun.Leader.Delete.{Others, delete_job_by_name}
use easyrun.Leader.InitJobs.{next_priority}

pub record Overview : Type 0 where
  pub agents : ℕ
  pub jobs : ℕ
  pub total_placed : ℕ
  pub settling : Bool
  pub placed : Dict ℕ

pub data Response : Type 0 where
  bad_request not_found conflict internal_error no_content alive : Response
  registered_now : List Job → ℕ → Response
  updated : (name policy : String) → Response
  pending dispatched : (name : String) → Response
  overview : Overview → Response

unfoldable pub code_of : Response → ℕ
code_of bad_request = 400
code_of not_found = 404
code_of conflict = 409
code_of internal_error = 500
code_of no_content = 204
code_of (pending name) = 201
code_of (dispatched name) = 201
code_of _ = 200

pub record AgentRequest : Type 0 where
  pub id : String
  pub endpoint : String
  pub version : String
  pub temp_milli_c : ℤ
  pub placed : Option Counts

unfoldable pub lacks_identity : AgentRequest → Bool
lacks_identity q = str_eq q.id "" || str_eq q.endpoint ""

unfoldable pub handle_heartbeat : World → Option AgentRequest → Sys → Response × Sys
handle_heartbeat w none y = (bad_request, y)
handle_heartbeat w (some q) y =
    let (known, state) = heartbeat q.id q.version q.temp_milli_c (w.now y.trace) y.state in
    if lacks_identity q
    then (bad_request, y)
    else (if known then alive else not_found, record y { state = state })

unfoldable pub handle_register_agent : World → ℕ → Option AgentRequest → Sys → Response × Sys
handle_register_agent w timeout none y = (bad_request, y)
handle_register_agent w timeout (some q) y =
    let (taken, y') = register_agent w timeout q.id q.endpoint q.version q.placed y in
    if lacks_identity q then (bad_request, y) else (
      if taken then registered_now (get_jobs y'.store) (get_state_time y'.store) else conflict,
      y',
    )

unfoldable pub handle_unregister_agent : World → String → Sys → Response × Sys
handle_unregister_agent w id y =
    if str_eq id "" then (bad_request, y) else (no_content, unregister_agent w id y)

unfoldable pub handle_delete_job : World → Others → String → Sys → Response × Sys
handle_delete_job w others name y =
    if str_eq name "" then (bad_request, y) else (no_content, delete_job_by_name w others name y)

unfoldable pub patched : String → Sys → Option AgentState → Bool × Sys
patched name y none = (false, y)
patched name y (some store) =
    (true, emit reconcile_spawned (emit (notified (of_job name)) (record y { store = store })))

-- `PatchJobPriority` with the notification and the reconciliation that it starts.
unfoldable pub patch_priority : World → String → ℤ → Sys → Bool × Sys
unfolding patched
patch_priority w name target y =
    patched name y (patch_job_priority name target (w.now y.trace) y.store)

unfoldable pub handle_patch_job_priority : World → String → Option ℤ → Sys → Response × Sys
unfolding patch_priority
handle_patch_job_priority w name none y = (bad_request, y)
handle_patch_job_priority w name (some target) y =
    let (found, y') = patch_priority w name target y in
    if str_eq name "" then (bad_request, y) else (if found then no_content else not_found, y')

pub record NotifyRequest : Type 0 where
  pub job : String
  pub event : String
  pub agent : String

-- A hand-back also takes the placement away.
unfoldable pub note_hand_back : NotifyRequest → Sys → Sys
note_hand_back q y =
    if str_eq q.event "unplaceable" && (not (str_eq q.job "") && not (str_eq q.agent ""))
    then mark_unplaced q.agent q.job y
    else y

-- A body that does not decode counts as an empty one.
unfoldable pub handle_notify : NotifyRequest → Sys → Response × Sys
unfolding note_hand_back
handle_notify q y = (
  no_content,
  emit
      (notified (
        if str_eq q.job ""
        then of_status
        else if str_eq q.event ""
        then of_job q.job
        else of_task q.job q.event))
      (note_hand_back q y),
)

-- `GetPlacedCounts`: all agents' counts, by job.
unfoldable pub add_counts : Counts → Dict ℕ → Dict ℕ
add_counts [] m = m
add_counts ((name, c) ∷ cs) m = add_counts cs (insert name (count_at name m + c) m)

unfoldable pub placed_counts : Dict Counts → Dict ℕ → Dict ℕ
unfolding add_counts
placed_counts [] m = m
placed_counts ((id, counts) ∷ placed) m = placed_counts placed (add_counts counts m)

unfoldable pub get_placed_counts : LeaderState → Dict ℕ
unfolding placed_counts
get_placed_counts s = placed_counts s.placed []

unfoldable pub sum_of : Dict ℕ → ℕ
sum_of [] = 0
sum_of ((name, c) ∷ m) = c + sum_of m

unfoldable pub handle_status : Sys → Response × Sys
unfolding get_placed_counts sum_of
handle_status y =
    let placed = get_placed_counts y.state in
    (
      overview (record {
        agents = length (get_agents y.state);
        jobs = length (get_jobs y.store);
        total_placed = sum_of placed;
        settling = not y.state.settled;
        placed = placed;
      }),
      y,
    )
