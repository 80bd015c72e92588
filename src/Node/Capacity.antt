-- ===== src/Node/Capacity.antt =====
-- internal/agent/agent.go and handlers.go: what a node has handed out, and the admission of a job.
-- Sums of memory limits are Go's uint64, taken modulo 2 ^ 64; shares are Go's int. A range over a
-- map goes through the list of its entries.
pub mod Memory
pub mod Admission
use easyrun.Prelude.{
  ℕ, ◌+◌, ◌-◌, ◌*◌, ◌/◌, ◌%◌, ◌^◌, Bool, true, false, not, ◌&&◌, List, [], ◌∷◌, map, Option, none,
  some, ltb, if◌then◌else◌, or_else, any, keep,
}
use easyrun.Prelude.Int.{ℤ, pos, ltb_ℤ, add_int, mul_int, quot_int}
use easyrun.Prelude.Text.{String, str_eq}
use easyrun.Prelude.Dict.{Dict, lookup, insert, values}
use easyrun.Types.{Artifact, Job, Task, TaskState, queued, stopping, driver_for, driver_hop}
use easyrun.Node.State.{AgentState, add_task}

-- What the node was configured with and has detected, and the largest partition that its pool can
-- still place (0 where the driver cannot say).
pub record NodeConfig : Type 0 where
  pub attributes : Dict String
  pub cpu_cores : ℤ
  pub memory_bytes : ℕ
  pub cap_cpu_shares : ℤ
  pub cap_memory : ℕ
  pub pool_largest : ℕ

unfoldable pub effective_cpu_shares : NodeConfig → ℤ
effective_cpu_shares c =
    let detected = mul_int c.cpu_cores 1024 in
    if ltb_ℤ (pos 0) c.cap_cpu_shares && ltb_ℤ c.cap_cpu_shares detected
    then c.cap_cpu_shares
    else detected

unfoldable pub effective_memory_bytes : NodeConfig → ℕ
effective_memory_bytes c =
    if ltb 0 c.cap_memory && ltb c.cap_memory c.memory_bytes then c.cap_memory else c.memory_bytes

-- A key that is not in a Go map reads as the empty text.
unfoldable pub text_at : String → Dict String → String
text_at k m = or_else (lookup k m) ""

unfoldable pub matches_affinity : Dict String → Dict String → Bool
matches_affinity attributes [] = true
matches_affinity attributes ((k, v) ∷ rest) =
    str_eq (text_at k attributes) v && matches_affinity attributes rest

unfoldable pub resolve_artifact : Dict String → List Artifact → Option Artifact
resolve_artifact attributes [] = none
resolve_artifact attributes (a ∷ rest) =
    if matches_affinity attributes a.match then some a else resolve_artifact attributes rest

-- `none` is the error "no matching artifact for this node's attributes".
unfoldable pub resolve_job_for_run : Dict String → Job → Option Job
resolve_job_for_run attributes job = elim job.artifacts [
  | [] ↦ some job
  | a ∷ rest ↦ elim (resolve_artifact attributes (a ∷ rest)) [
    | none ↦ none
    | some found ↦ some (record job { artifacts = found ∷ [] })
  ]
]

-- The sharegroup tag of the job behind a task, as the node now knows that job.
unfoldable pub sharegroup_of : AgentState → Task → String
sharegroup_of s task = elim (lookup task.job_name s.jobs) [
  | none ↦ ""
  | some job ↦ text_at "sharegroup" job.tags
]

unfoldable pub sharegroup_running : AgentState → String → Bool
sharegroup_running s group = any (λ t. str_eq (sharegroup_of s t) group) (values s.tasks)

-- The running totals of the loop, and the groups whose pool it has counted.
pub record Tally : Type 0 where
  pub cpu : ℤ
  pub mem : ℕ
  pub seen : List String

unfoldable pub is_excluded : String → Task → Bool
is_excluded name t = not (str_eq name "") && str_eq t.job_name name

unfoldable pub count_cpu : AgentState → Task → Tally → Tally
count_cpu s t acc =
    let group = sharegroup_of s t in
    if str_eq group ""
    then record acc { cpu = add_int acc.cpu t.cpu_shares }
    else if any (str_eq group) acc.seen
    then acc
    else record acc { cpu = add_int acc.cpu t.cpu_shares; seen = group ∷ acc.seen }

-- One round of the loop over the tasks.
unfoldable pub count_task : AgentState → String → Task → Tally → Tally
unfolding count_cpu
count_task s name t acc =
    if is_excluded name t
    then acc
    else count_cpu s t (record acc { mem = (acc.mem + t.memory_limit) % 2 ^ 64 })

unfoldable pub count_tasks : AgentState → String → List Task → Tally → Tally
count_tasks s name [] acc = acc
count_tasks s name (t ∷ ts) acc = count_tasks s name ts (count_task s name t acc)

unfoldable pub resource_usage_excluding : AgentState → String → Tally
resource_usage_excluding s name =
    count_tasks s name (values s.tasks) (record { cpu = pos 0; mem = 0; seen = [] })

unfoldable pub resource_usage : AgentState → Tally
resource_usage s = resource_usage_excluding s ""

-- A hop job pays for whole cores and for whole blocks of 2 MB.
abbrev pub hop_block_bytes : ℕ
hop_block_bytes = 2097152

unfoldable pub hop_cores : ℤ → ℤ
hop_cores shares =
    let cores = quot_int (add_int shares (pos 1023)) 1024 in
    if ltb_ℤ cores (pos 1) then pos 1 else cores

unfoldable pub hop_memory : ℕ → ℕ
hop_memory limit =
    if ltb 0 limit
    then (limit + hop_block_bytes - 1) % 2 ^ 64 / hop_block_bytes * hop_block_bytes
    else limit

-- The driver and the rounded limits with which `handleRun` goes on.
unfoldable pub prepare_job : Job → Job
prepare_job job =
    let driver = if str_eq job.driver "" then driver_for job.image else job.driver in
    if str_eq driver driver_hop
    then record job {
      driver = driver;
      cpu_shares = mul_int (hop_cores job.cpu_shares) 1024;
      memory_limit = hop_memory job.memory_limit;
    }
    else record job { driver = driver }

-- The id is the random one of leanrand.ID.
unfoldable pub new_task : String → Job → ℕ → Task
new_task id job now = record {
  id = id;
  job_name = job.name;
  driver = job.driver;
  image = job.image;
  ports = [];
  pid = pos 0;
  state = queued;
  started_at = now;
  restart_count = 0;
  last_failed_at = 0;
  cpu_shares = job.cpu_shares;
  memory_limit = job.memory_limit;
  downloaded = 0;
  image_size = 0;
}

-- The three refusals for want of room.
unfoldable pub lacks_cpu : NodeConfig → AgentState → String → Job → Bool
lacks_cpu c s exclude job =
    let group = text_at "sharegroup" job.tags in
    let joins = not (str_eq group "") && sharegroup_running s group in
    let new_cpu = if joins then pos 0 else job.cpu_shares in
    ltb_ℤ (pos 0) job.cpu_shares
    && ltb_ℤ (effective_cpu_shares c) (add_int (resource_usage_excluding s exclude).cpu new_cpu)

unfoldable pub lacks_memory : NodeConfig → AgentState → String → Job → Bool
lacks_memory c s exclude job =
    ltb 0 job.memory_limit
    && ltb (effective_memory_bytes c)
        (((resource_usage_excluding s exclude).mem + job.memory_limit) % 2 ^ 64)

unfoldable pub lacks_hole : NodeConfig → Bool → Job → Bool
lacks_hole c replace job =
    ltb 0 job.memory_limit
    && not replace
    && str_eq job.driver driver_hop
    && (ltb 0 c.pool_largest && ltb c.pool_largest job.memory_limit)

-- The task is a predecessor that a replacement is to stop.
unfoldable pub is_predecessor : Job → Task → Task → Bool
is_predecessor job task t = str_eq t.job_name job.name && not (str_eq t.id task.id)

unfoldable pub mark_stopping : Task → Task
mark_stopping t = record t { state = stopping }

unfoldable pub mark_predecessors : Job → Task → Dict Task → Dict Task
mark_predecessors job task [] = []
mark_predecessors job task ((k, t) ∷ m) =
    (k, if is_predecessor job task t then mark_stopping t else t) ∷ mark_predecessors job task m

-- The check of the capacity and the reservation, one operation on the state: `none` is a refusal,
-- `some` comes with the predecessors, now stopping.
unfoldable pub admit : NodeConfig → Bool → Job → Task → AgentState → Option (List Task × AgentState)
unfolding lacks_cpu lacks_memory lacks_hole
admit c replace job task s =
    let exclude = if replace then job.name else "" in
    if lacks_cpu c s exclude job
    then none
    else if lacks_memory c s exclude job
    then none
    else if lacks_hole c replace job
    then none
    else (let old = if replace then keep (is_predecessor job task) (values s.tasks) else [] in
        let marked = if replace then mark_predecessors job task s.tasks else s.tasks in
        some (
          map mark_stopping old,
          add_task task (record s { jobs = insert job.name job s.jobs; tasks = marked }),
        ))

-- The answers of the agent's HTTP handlers, as far as they differ.
pub data Status : Type 0 where
  ok accepted method_not_allowed bad_request not_acceptable not_found unavailable : Status

pub record RunRequest : Type 0 where
  pub is_post : Bool
  pub replace : Bool
  -- `none` where the body does not decode.
  pub body : Option Job
  pub id : String
  pub now : ℕ

-- What `handleRun` leaves to the goroutine that starts the task.
pub record Start : Type 0 where
  pub job : Job
  pub task : Task
  pub old : List Task

unfoldable pub run_admission :
    NodeConfig → RunRequest → Job → AgentState → Status × Option Start × AgentState
run_admission c r job s =
    let task = new_task r.id job r.now in
    elim (admit c r.replace job task s) [
      | none ↦ (unavailable, none, s)
      | some (old, s') ↦ (accepted, some (record { job = job; task = task; old = old }), s')
    ]

unfoldable pub handle_run :
    NodeConfig → RunRequest → AgentState → Status × Option Start × AgentState
unfolding run_admission
handle_run c r s = if not r.is_post then (method_not_allowed, none, s) else elim r.body [
  | none ↦ (bad_request, none, s)
  | some job ↦
      if not (matches_affinity c.attributes job.affinity)
      then (not_acceptable, none, s)
      else run_admission c r (prepare_job job) s
]
