-- ===== src/Node/Capacity/Admission.antt =====
-- handleRun of internal/agent/handlers.go: what a refusal leaves alone, and what an acceptance
-- changes.
use easyrun.Prelude.{
  leb, ltb, ℕ, ◌+◌, ◌*◌, ◌/◌, ◌%◌, ◌^◌, ◌≤◌, ◌<◌, ◌==◌, not, ◌&&◌, ◌≡◌, refl, ◌≢◌, inl, inr, Bool,
  true, false, List, [], ◌∷◌, Option, none, some, arith, if◌then◌else◌, Bool-cases, Option-cases,
}
use easyrun.Prelude.Text.{String, str_eq}
use easyrun.Prelude.Dict.{Dict, lookup, lookup-insert}
use easyrun.Types.{Job, Task, queued, stopping, driver_for}
use easyrun.Prelude.Int.{ℤ, pos, negsuc, mul_int, add_int, quot_int}
use easyrun.Node.State.{AgentState, add_task}
use easyrun.Node.Capacity.Memory.{hop_memory-IsLeast}
use easyrun.Node.Capacity.{
  NodeConfig, hop_cores, hop_memory, matches_affinity, prepare_job, new_task, is_predecessor,
  mark_stopping, mark_predecessors, admit, accepted, RunRequest, run_admission, handle_run,
}

-- Every answer but 202 leaves the node's state as it was and starts nothing: in particular, a
-- refused replacement leaves its predecessors running.
pub handle_run-refuses :
    (c : NodeConfig) (r : RunRequest) (s : AgentState)
    → (handle_run c r s).0 ≢ accepted
    → ((handle_run c r s).1 ≡ none) × ((handle_run c r s).2 ≡ s)
unfolding handle_run
handle_run-refuses c r s h = ground arith

-- What an accepted job finds in the dictionary of tasks.
pub lookup-mark_predecessors :
    (k : String) (job : Job) (task : Task) (m : Dict Task)
    → lookup k (mark_predecessors job task m) ≡ elim (lookup k m) [
      | none ↦ none
      | some t ↦ some (if is_predecessor job task t then mark_stopping t else t)
    ]
unfolding lookup mark_predecessors
lookup-mark_predecessors k job task [] = refl
lookup-mark_predecessors k job task ((j, t) ∷ m) =
    ground (arith, lookup-mark_predecessors k job task m)

-- What becomes of the task with id `k` when `task` is admitted for `job`.
abbrev pub task_after : Bool → Job → Task → String → AgentState → Option Task
task_after replace job task k s = if str_eq task.id k then some task else elim (lookup k s.tasks) [
  | none ↦ none
  | some t ↦ some (
      if replace && (str_eq t.job_name job.name && not (str_eq t.id task.id))
      then record t { state = stopping }
      else t)
]

-- The driver that a job names, or the one that its image means.
abbrev pub driver_of : Job → String
driver_of body =
    if str_eq body.driver ""
    then (if str_eq body.image "" then "exec" else "docker")
    else body.driver

-- The least number of whole blocks of 2 MB, where rounding up to it stays below 2 ^ 64.
abbrev pub FitsBlocks : ℕ → ℕ → Type 0
FitsBlocks limit m =
    if leb (limit + 2097152) (2 ^ 64)
    then ((limit ≤ m) × (m < limit + 2097152) × (m % 2097152 ≡ 0))
    else Unit

-- The least number of whole cores, one at least, for shares of less than 2 ^ 62 either way.
abbrev pub FitsCores : ℤ → ℤ → Type 0
FitsCores (pos n) c =
    if ltb n (2 ^ 62) then (c ≡ pos (if n == 0 then 1024 else (n + 1023) / 1024 * 1024)) else Unit
FitsCores (negsuc n) c = if ltb n (2 ^ 62) then (c ≡ pos 1024) else Unit

-- What the node makes of the job that it is sent: the driver that the image means where none is
-- given, and, for the hop driver, shares and memory rounded up.
abbrev pub IsPrepared : Job → Job → Type 0
IsPrepared body job =
    (job ≡ record body {
      driver = driver_of body;
      cpu_shares = job.cpu_shares;
      memory_limit = job.memory_limit;
    })
    × (if str_eq (driver_of body) "hop"
        then (FitsBlocks body.memory_limit job.memory_limit
            × FitsCores body.cpu_shares job.cpu_shares)
        else ((job.memory_limit ≡ body.memory_limit) × (job.cpu_shares ≡ body.cpu_shares)))

-- The task that an accepted job starts with.
abbrev pub IsNew : RunRequest → Job → Task → Type 0
IsNew r job task =
    (task.id ≡ r.id)
    × (task.job_name ≡ job.name)
    × (task.state ≡ queued)
    × (task.cpu_shares ≡ job.cpu_shares)
    × (task.memory_limit ≡ job.memory_limit)

new_task-IsNew : (r : RunRequest) (job : Job) → IsNew r job (new_task r.id job r.now)
unfolding new_task
new_task-IsNew r job = (refl, refl, refl, refl, refl)

hop_memory-FitsBlocks : (limit : ℕ) → FitsBlocks limit (hop_memory limit)
hop_memory-FitsBlocks limit = elim (Bool-cases (leb (limit + 2097152) (2 ^ 64))) [
  | inl e ↦ simp e (hop_memory-IsLeast limit (ground (arith, e)))
  | inr e ↦ simp e tt
]

hop_shares :
    (n : ℕ)
    → ltb n (2 ^ 62) ≡ true
    → (mul_int (hop_cores (pos n)) 1024 ≡ pos (if n == 0 then 1024 else (n + 1023) / 1024 * 1024))
      × (mul_int (hop_cores (negsuc n)) 1024 ≡ pos 1024)
unfolding hop_cores mul_int add_int quot_int
hop_shares n h = ground (arith, h)

hop_cores-FitsCores : (shares : ℤ) → FitsCores shares (mul_int (hop_cores shares) 1024)
hop_cores-FitsCores (pos n) = elim (Bool-cases (ltb n (2 ^ 62))) [
  | inl e ↦ simp e ((hop_shares n e).0)
  | inr e ↦ simp e tt
]
hop_cores-FitsCores (negsuc n) = elim (Bool-cases (ltb n (2 ^ 62))) [
  | inl e ↦ simp e ((hop_shares n e).1)
  | inr e ↦ simp e tt
]

prepare_job-IsPrepared : (body : Job) → IsPrepared body (prepare_job body)
unfolding prepare_job driver_for
prepare_job-IsPrepared body = elim (Bool-cases (str_eq (driver_of body) "hop")) [
  | inl e ↦
      simp e (refl, (hop_memory-FitsBlocks body.memory_limit, hop_cores-FitsCores body.cpu_shares))
  | inr e ↦ simp e (refl, (refl, refl))
]

admit-tasks :
    (c : NodeConfig) (replace : Bool) (job : Job) (task : Task) (s s' : AgentState)
    (old : List Task) (k : String)
    → admit c replace job task s ≡ some (old, s')
    → lookup k s'.tasks ≡ task_after replace job task k s
unfolding admit add_task is_predecessor mark_stopping
admit-tasks c replace job task s s' old k e = ground (
  arith,
  lookup-insert task.id k task s.tasks,
  lookup-insert task.id k task (mark_predecessors job task s.tasks),
  lookup-mark_predecessors k job task s.tasks,
)

admit-jobs :
    (c : NodeConfig) (replace : Bool) (job : Job) (task : Task) (s s' : AgentState)
    (old : List Task) (n : String)
    → admit c replace job task s ≡ some (old, s')
    → lookup n s'.jobs ≡ (if str_eq job.name n then some job else lookup n s.jobs)
unfolding admit add_task
admit-jobs c replace job task s s' old n e = ground (arith, lookup-insert job.name n job s.jobs)

run_admission-accepts :
    (c : NodeConfig) (r : RunRequest) (job : Job) (s : AgentState) (k n : String)
    → (run_admission c r job s).0 ≡ accepted
    → let s' = (run_admission c r job s).2 in
      let task = new_task r.id job r.now in
      (lookup k s'.tasks ≡ task_after r.replace job task k s)
      × (lookup n s'.jobs ≡ (if str_eq job.name n then some job else lookup n s.jobs))
unfolding run_admission
run_admission-accepts c r job s k n e =
    elim (Option-cases (admit c r.replace job (new_task r.id job r.now) s)) [
      | inl none_e ↦ absurd (refused none_e)
      | inr ((old, s'), some_e) ↦
          rw (some_e, run_admission)
            (
              admit-tasks c r.replace job (new_task r.id job r.now) s s' old k some_e,
              admit-jobs c r.replace job (new_task r.id job r.now) s s' old n some_e,
            )
    ]
  where
    refused : admit c r.replace job (new_task r.id job r.now) s ≡ none → ⊥
    refused h = ground arith

-- A 202 comes with a body whose job the node's attributes satisfy. The node then knows that job
-- under its name, with its driver and, for the hop driver, its rounded limits, and holds the new
-- task as queued; every other job stays, and so does every other task, except that a replacement has
-- marked the job's other tasks as stopping.
pub handle_run-accepts :
    (c : NodeConfig) (r : RunRequest) (s : AgentState)
    → (handle_run c r s).0 ≡ accepted
    → (body : Job) × (r.body ≡ some body)
      × (matches_affinity c.attributes body.affinity ≡ true)
      × (job : Job) × IsPrepared body job
      × (task : Task) × IsNew r job task
      × ((n : String)
          → lookup n (handle_run c r s).2.jobs
            ≡ (if str_eq job.name n then some job else lookup n s.jobs))
      × ((k : String) → lookup k (handle_run c r s).2.tasks ≡ task_after r.replace job task k s)
unfolding handle_run
handle_run-accepts c r s e = elim (Bool-cases r.is_post) [
  | inr get ↦ absurd (not_post get)
  | inl post ↦ elim (Option-cases r.body) [
    | inl undecoded ↦ absurd (no_body post undecoded)
    | inr (body, decoded) ↦ elim (Bool-cases (matches_affinity c.attributes body.affinity)) [
      | inr misfit ↦ absurd (no_match post body decoded misfit)
      | inl fits ↦
          let run : handle_run c r s ≡ run_admission c r (prepare_job body) s =
            rw (post, decoded, fits, handle_run) refl in
          let ok_run : (run_admission c r (prepare_job body) s).0 ≡ accepted = rw run at e in
          (
            body,
            decoded,
            fits,
            prepare_job body,
            prepare_job-IsPrepared body,
            new_task r.id (prepare_job body) r.now,
            new_task-IsNew r (prepare_job body),
            λ n. rw run (run_admission-accepts c r (prepare_job body) s "" n ok_run).1,
            λ k. rw run (run_admission-accepts c r (prepare_job body) s k "" ok_run).0,
          )
    ]
  ]
]
  where
    not_post : r.is_post ≡ false → ⊥
    not_post h = ground arith

    no_body : r.is_post ≡ true → r.body ≡ none → ⊥
    no_body p h = ground arith

    no_match :
        r.is_post ≡ true
        → (body : Job) → r.body ≡ some body
        → matches_affinity c.attributes body.affinity ≡ false
        → ⊥
    no_match p body d h = ground arith
