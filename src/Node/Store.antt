-- ===== src/Node/Store.antt =====
-- internal/agent/agent.go: the agent as the leader's JobStore.
use easyrun.Prelude.{
  ℕ, ◌≡◌, refl, Bool, true, false, List, [], ◌∷◌, Option, arith, if◌then◌else◌, is_some,
}
use easyrun.Prelude.Text.{String, str_eq_iff}
use easyrun.Prelude.Dict.{Dict, lookup, insert, erase, values, lookup-insert, lookup-erase}
use easyrun.Types.{Job}
use easyrun.JobStore.{JobStore, Laws, last_named}
use easyrun.Node.State.{AgentState}

unfoldable pub get_job : String → AgentState → Option Job
get_job name s = lookup name s.jobs

unfoldable pub get_jobs : AgentState → List Job
get_jobs s = values s.jobs

unfoldable pub store_job : Job → ℕ → AgentState → AgentState
store_job job now s = record s { jobs = insert job.name job s.jobs; state_time = now }

unfoldable pub update_job : Job → ℕ → AgentState → Bool × AgentState
update_job job now s =
    if is_some (lookup job.name s.jobs)
    then (true, record s { jobs = insert job.name job s.jobs; state_time = now })
    else (false, s)

unfoldable pub delete_job : String → ℕ → AgentState → AgentState
delete_job name now s = record s { jobs = erase name s.jobs; state_time = now }

unfoldable pub get_state_time : AgentState → ℕ
get_state_time s = s.state_time

unfoldable pub insert_all : List Job → Dict Job → Dict Job
insert_all [] m = m
insert_all (j ∷ js) m = insert_all js (insert j.name j m)

unfoldable pub sync_jobs : List Job → ℕ → AgentState → AgentState
unfolding insert_all
sync_jobs jobs updated s = record s { jobs = insert_all jobs s.jobs; state_time = updated }

lookup-insert_all :
    (n : String) (js : List Job) (m : Dict Job)
    → lookup n (insert_all js m)
      ≡ (let found = last_named n js in if is_some found then found else lookup n m)
unfolding insert_all last_named
lookup-insert_all n [] m = refl
lookup-insert_all n (j ∷ js) m =
    ground (arith, lookup-insert_all n js (insert j.name j m), lookup-insert j.name n j m)

unfoldable pub agent_store : JobStore AgentState
agent_store = record {
  get_jobs = get_jobs;
  get_job = get_job;
  store_job = store_job;
  update_job = update_job;
  delete_job = delete_job;
  get_state_time = get_state_time;
  sync_jobs = sync_jobs;
}

-- The agent's store of jobs keeps every law of the leader's interface.
pub agent_store-Laws : Laws agent_store
unfolding agent_store get_job store_job update_job delete_job sync_jobs
agent_store-Laws = record {
  get-store = λ n j now s. lookup-insert j.name n j s.jobs;
  get-delete = λ n k now s. lookup-erase k n s.jobs;
  get-update = λ n j now s. ground (arith, lookup-insert j.name n j s.jobs, str_eq_iff j.name n);
  update_reports = λ j now s. ground arith;
  get-sync = λ n js now s. lookup-insert_all n js s.jobs;
}
