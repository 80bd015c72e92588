-- ===== src/Leader/System.antt =====
-- The leader among its agents: its state, the store of jobs on its own node, and the trace of the
-- calls that it has made and the events that it has told, the newest first. What an agent answers
-- and what the clock reads may depend on all that happened before, and is the world's. An
-- operation of the leader is modelled from its start to its end, with no other one between its
-- steps; a reconciliation that it starts in the background is an event of the trace. A start that
-- the leader sends to its own node changes the store as that node's /run does; a stop there changes
-- no job, and a deletion there the one that the leader has deleted itself.
pub mod Own
use easyrun.Prelude.{
  ℕ, Bool, true, false, not, ◌&&◌, ◌||◌, List, ◌∷◌, Option, none, some, ◌==◌, if◌then◌else◌,
}
use easyrun.Prelude.Text.{String}
use easyrun.Types.{Agent, Job, Task}
use easyrun.Node.State.{AgentState}
use easyrun.Node.Capacity.{NodeConfig, handle_run}
use easyrun.Leader.State.{LeaderState, is_tombstoned, lock_job}

-- `answered` comes with the HTTP status.
pub data Reply : Type 0 where
  answered : ℕ → Reply
  no_contact : Reply

pub data Topic : Type 0 where
  of_agent of_job : String → Topic
  of_task : (job event : String) → Topic
  of_status : Topic

pub data Event : Type 0 where
  run_call : (agent : String) (job : Job) (replace : Bool) → Event
  stop_call delete_call : (agent name : String) → Event
  stop_task_call : (agent task : String) → Event
  notified : Topic → Event
  reconcile_spawned : Event

pub record World : Type 0 where
  -- The leader's own node, where a call to the agent is one to it and gets there, and the id that it
  -- draws for a task.
  pub own_node : List Event → Agent → Option NodeConfig
  pub task_id : List Event → String
  pub run_reply : List Event → Agent → Job → Bool → Reply
  pub stop_reply : List Event → Agent → String → Reply
  pub tasks_reply : List Event → Agent → Option (List Task)
  pub now : List Event → ℕ
  -- Whether the leader is stopped, as it is read before a claim and after it.
  pub stopping : List Event → Bool × Bool
  -- Whether it is stopped while an update waits for its next instance.
  pub cancelled : List Event → Bool

pub record Sys : Type 0 where
  pub state : LeaderState
  pub store : AgentState
  pub trace : List Event

unfoldable pub on_state : (LeaderState → LeaderState) → Sys → Sys
on_state f y = record y { state = f y.state }

unfoldable pub on_store : (AgentState → AgentState) → Sys → Sys
on_store f y = record y { store = f y.store }

unfoldable pub emit : Event → Sys → Sys
emit e y = record y { trace = e ∷ y.trace }

pub data SendError : Type 0 where
  affinity_mismatch no_capacity refused : SendError

-- The trace has grown, by events that keep to `P`.
pub data Since {ℓ} (P : Event → Type ℓ) (old : List Event) : List Event → Type ℓ where
  unmoved : Since P old old
  grown : {e : Event} {t : List Event} → Since P old t → P e → Since P old (e ∷ t)

-- No error is `none`.
unfoldable pub read_reply : Reply → Option SendError
read_reply no_contact = some refused
read_reply (answered code) =
    if code == 200 || (code == 201 || code == 202)
    then none
    else if code == 406
    then some affinity_mismatch
    else if code == 503
    then some no_capacity
    else some refused

-- The leader's own node is one of the agents and shares the store: its /run registers the job.
unfoldable pub own_run : World → Agent → Job → Bool → Sys → AgentState
own_run w agent job replace y = elim (w.own_node y.trace agent) [
  | none ↦ y.store
  | some config ↦
      (handle_run config
        (record {
          is_post = true;
          replace = replace;
          body = some job;
          id = w.task_id y.trace;
          now = w.now y.trace;
        })
        y.store).2
]

-- A tombstone stops every dispatch before the call is made.
unfoldable pub send_run_to_agent : World → Agent → Job → Bool → Sys → Option SendError × Sys
unfolding own_run
send_run_to_agent w agent job replace y =
    if is_tombstoned job.name (w.now y.trace) y.state then (some refused, y) else (
      read_reply (w.run_reply y.trace agent job replace),
      emit (run_call agent.id job replace) (record y { store = own_run w agent job replace y }),
    )

unfoldable pub send_job_to_agent : World → Agent → Job → Sys → Option SendError × Sys
send_job_to_agent w agent job y = send_run_to_agent w agent job false y

unfoldable pub send_replace_to_agent : World → Agent → Job → Sys → Option SendError × Sys
send_replace_to_agent w agent job y = send_run_to_agent w agent job true y

-- Only a 200 confirms a stop.
unfoldable pub is_ok : Reply → Bool
is_ok no_contact = false
is_ok (answered code) = code == 200

unfoldable pub stop_tasks_on_agent : World → Agent → String → Sys → Bool × Sys
stop_tasks_on_agent w agent name y =
    (is_ok (w.stop_reply y.trace agent name), emit (stop_call agent.id name) y)

unfoldable pub stop_task_by_id : Agent → String → Sys → Sys
stop_task_by_id agent id y = emit (stop_task_call agent.id id) y

unfoldable pub delete_task_on_agent : Agent → String → Sys → Sys
delete_task_on_agent agent name y = emit (delete_call agent.id name) y

-- `lockJob`: nothing is claimed by a leader that is stopped.
unfoldable pub claim_job : World → String → Sys → Bool × Sys
claim_job w name y =
    let (before, after) = w.stopping y.trace in
    if before
    then (false, y)
    else (let (claimed, state) = lock_job name y.state in
        (claimed && not after, record y { state = state }))
