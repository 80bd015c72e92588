-- ===== src/Leader/Status.antt =====
-- GetClusterStatus, GetJobStatus and fetchAgentTasks of internal/leader/health.go. The agents are asked
-- at once: what each replies is a parameter, and so is whose replies come before the timeout, in the
-- order in which they come.
use easyrun.Prelude.{
  ℕ, ◌≡◌, ◌≢◌, Bool, true, false, List, [], ◌∷◌, map, Option, none, some, ◌==◌, if◌then◌else◌, keep,
}
use easyrun.Prelude.Text.{String, str_eq}
use easyrun.Prelude.Dict.{Dict, lookup, insert, values}
use easyrun.Types.{Agent, Job, Task}
use easyrun.Leader.Update.{placed_agents}
use easyrun.Leader.State.{LeaderState, get_agents}

-- An answer has a body where it decodes to a list that is not null.
pub data Reply : Type 0 where
  unreachable : Reply
  replied : (code : ℕ) → Option (List Task) → Reply

pub record StatusWorld : Type 0 where
  pub reply : String → Reply
  pub arrived : List String → List String

unfoldable pub fetch_agent_tasks : Reply → Option (List Task)
fetch_agent_tasks unreachable = none
fetch_agent_tasks (replied code body) = if code == 200 then body else none

-- A slice that nothing was appended to is nil.
unfoldable pub or_nil : List Task → Option (List Task)
or_nil [] = none
or_nil (t ∷ rest) = some (t ∷ rest)

-- The tasks of the job.
unfoldable pub of_job : String → Option (List Task) → Option (List Task)
unfolding or_nil
of_job name none = none
of_job name (some ts) = or_nil (keep (λ t. str_eq t.job_name name) ts)

-- What comes is kept by agent, and nil is left out.
unfoldable pub keep_answer : String → Option (List Task) → Dict (List Task) → Dict (List Task)
keep_answer id none result = result
keep_answer id (some ts) result = insert id ts result

unfoldable pub collect :
    (String → Option (List Task)) → List String → Dict (List Task) → Dict (List Task)
collect fetch [] result = result
collect fetch (id ∷ ids) result = collect fetch ids (keep_answer id (fetch id) result)

abbrev pub ids_of : List Agent → List String
ids_of = map (λ a. a.id)

unfoldable pub ask :
    StatusWorld → (Option (List Task) → Option (List Task)) → List Agent → Dict (List Task)
ask w pick [] = []
ask w pick (a ∷ asked) =
    collect (λ id. pick (fetch_agent_tasks (w.reply id))) (w.arrived (ids_of (a ∷ asked))) []

unfoldable pub get_cluster_status : StatusWorld → LeaderState → Dict (List Task)
get_cluster_status w s = ask w (λ ts. ts) (get_agents s)

unfoldable pub get_job_status :
    StatusWorld
    → (String → Option Job)
    → String
    → LeaderState
    → Option (Dict (List Task) × List Agent)
get_job_status w find name s = elim (find name) [
  | none ↦ none
  | some job ↦
      let agents = placed_agents name s.placed s.agents in some (ask w (of_job name) agents, agents)
]

unfoldable pub elem : String → List String → Bool
elem n [] = false
elem n (x ∷ xs) = if str_eq n x then true else elem n xs

-- All agents that were asked answer before the timeout.
abbrev pub IsPunctual : StatusWorld → Type 0
IsPunctual w = (ids : List String) (n : String) → elem n (w.arrived ids) ≡ elem n ids

-- The second list has the job's tasks of the first, in their order, and no other.
pub data Picked (name : String) : List Task → List Task → Type 0 where
  all_seen : Picked name [] []
  takes :
      {t : Task} {ts rs : List Task}
      → str_eq t.job_name name ≡ true
      → Picked name ts rs
      → Picked name (t ∷ ts) (t ∷ rs)
  leaves :
      {t : Task} {ts rs : List Task}
      → str_eq t.job_name name ≡ false
      → Picked name ts rs
      → Picked name (t ∷ ts) rs

-- What the status of a job has of an agent, beside what the agent answered.
abbrev pub IsAnswer : String → Option (List Task) → Option (List Task) → Type 0
IsAnswer name none o = o ≡ none
IsAnswer name (some ts) none = Picked name ts []
IsAnswer name (some ts) (some rs) = Picked name ts rs × (rs ≢ [])

abbrev is_cons : List Task → Bool
is_cons [] = false
is_cons (t ∷ ts) = true

-- What counts as the answer of an agent: the tasks that come with a 200.
abbrev pub IsFetched : Reply → Option (List Task) → Type 0
IsFetched unreachable o = o ≡ none
IsFetched (replied code body) o = o ≡ (if code == 200 then body else none)

-- The status of the cluster, agent by agent.
abbrev pub IsCluster : StatusWorld → LeaderState → Dict (List Task) → Type 0
IsCluster w s status =
    (n : String)
    → if elem n (ids_of (values s.agents))
      then IsFetched (w.reply n) (lookup n status)
      else (lookup n status ≡ none)

-- The status of a job, agent by agent, beside that of the cluster.
abbrev pub Agrees : String → Dict (List Task) → List Agent → Dict (List Task) → Type 0
Agrees name status agents result =
    (n : String)
    → if elem n (ids_of agents)
      then IsAnswer name (lookup n status) (lookup n result)
      else (lookup n result ≡ none)
