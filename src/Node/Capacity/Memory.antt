-- ===== src/Node/Capacity/Memory.antt =====
-- The memory side of the admission in internal/agent/handlers.go: what the accepted tasks ask for
-- stays within what the node may hand out.
use easyrun.Prelude.{
  ℕ, ◌+◌, ◌%◌, ◌^◌, ◌≤◌, ◌<◌, ◌≡◌, refl, Bool, false, List, [], ◌∷◌, some, arith, if◌then◌else◌,
}
use easyrun.Prelude.Int.{pos}
use easyrun.Prelude.Text.{String}
use easyrun.Prelude.Dict.{Dict, insert, values}
use easyrun.Types.{Job, Task}
use easyrun.Node.State.{AgentState, add_task}
use easyrun.Node.Capacity.{
  NodeConfig, effective_memory_bytes, Tally, is_excluded, count_cpu, count_task, count_tasks,
  resource_usage_excluding, hop_memory, hop_block_bytes, lacks_memory, mark_stopping,
  mark_predecessors, admit, new_task,
}

-- What tasks ask for in all, those of the excluded job aside: a sum with no bound on its size.
unfoldable pub memory_of : String → List Task → ℕ
memory_of name [] = 0
memory_of name (t ∷ ts) = (if is_excluded name t then 0 else t.memory_limit) + memory_of name ts

count_cpu-mem : (s : AgentState) (t : Task) (acc : Tally) → (count_cpu s t acc).mem ≡ acc.mem
unfolding count_cpu
count_cpu-mem s t acc = ground arith

count_task-mem :
    (s : AgentState) (name : String) (t : Task) (acc : Tally)
    → (count_task s name t acc).mem
      ≡ (if is_excluded name t then acc.mem else (acc.mem + t.memory_limit) % 2 ^ 64)
unfolding count_task
count_task-mem s name t acc =
    ground (arith, count_cpu-mem s t (record acc { mem = (acc.mem + t.memory_limit) % 2 ^ 64 }))

-- As long as the sum fits in 64 bits the loop computes it.
count_tasks-mem :
    (s : AgentState) (name : String) (ts : List Task) (acc : Tally)
    → acc.mem + memory_of name ts < 2 ^ 64
    → (count_tasks s name ts acc).mem ≡ acc.mem + memory_of name ts
unfolding count_tasks memory_of
count_tasks-mem s name [] acc h = omega arith
count_tasks-mem s name (t ∷ ts) acc h =
    ground (arith, count_task-mem s name t acc, count_tasks-mem s name ts (count_task s name t acc))

pub usage-mem :
    (s : AgentState) (name : String)
    → memory_of name (values s.tasks) < 2 ^ 64
    → (resource_usage_excluding s name).mem ≡ memory_of name (values s.tasks)
unfolding resource_usage_excluding
usage-mem s name h =
    omega
      (arith, count_tasks-mem s name (values s.tasks) (record { cpu = pos 0; mem = 0; seen = [] }))

pub memory_of-insert :
    (name k : String) (t : Task) (m : Dict Task)
    → memory_of name (values (insert k t m))
      ≤ (if is_excluded name t then 0 else t.memory_limit) + memory_of name (values m)
unfolding memory_of insert
memory_of-insert name k t [] = ground arith
memory_of-insert name k t ((j, u) ∷ m) = ground (arith, memory_of-insert name k t m)

memory_of-mark :
    (name : String) (job : Job) (task : Task) (m : Dict Task)
    → memory_of name (values (mark_predecessors job task m)) ≡ memory_of name (values m)
unfolding memory_of mark_predecessors mark_stopping is_excluded
memory_of-mark name job task [] = refl
memory_of-mark name job task ((k, t) ∷ m) = ground (arith, memory_of-mark name job task m)

-- The room that `admit` checks for.
lacks_memory-false :
    (c : NodeConfig) (s : AgentState) (name : String) (job : Job)
    → lacks_memory c s name job ≡ false
    → memory_of name (values s.tasks) ≤ effective_memory_bytes c
    → effective_memory_bytes c + job.memory_limit < 2 ^ 64
    → job.memory_limit + memory_of name (values s.tasks) ≤ effective_memory_bytes c
unfolding lacks_memory
lacks_memory-false c s name job e held small = ground (arith, usage-mem s name)

-- The job from whose tasks the admission looks away.
abbrev pub excluded_job : Bool → Job → String
excluded_job replace job = if replace then job.name else ""

admit-some :
    (c : NodeConfig) (replace : Bool) (job : Job) (task : Task) (s s' : AgentState)
    (old : List Task)
    → admit c replace job task s ≡ some (old, s')
    → (lacks_memory c s (excluded_job replace job) job ≡ false)
      × (s'.tasks
          ≡ insert task.id task (if replace then mark_predecessors job task s.tasks else s.tasks))
unfolding admit add_task
admit-some c replace job task s s' old e = ground arith

-- An accepted job fits beside all that the node had handed out to others, and the node then still
-- stays within its memory: the sum of the limits of its tasks (in a replacement: of the other
-- jobs' tasks) is at most its effective memory. This holds if the sum was at most that before, and
-- as long as the limit that is asked for, added to the effective memory, fits in 64 bits.
pub admit-memory :
    (c : NodeConfig) (replace : Bool) (job : Job) (id : String) (now : ℕ) (s s' : AgentState)
    (old : List Task)
    → admit c replace job (new_task id job now) s ≡ some (old, s')
    → memory_of (excluded_job replace job) (values s.tasks) ≤ effective_memory_bytes c
    → effective_memory_bytes c + job.memory_limit < 2 ^ 64
    → (job.memory_limit + memory_of (excluded_job replace job) (values s.tasks)
        ≤ effective_memory_bytes c)
      × (memory_of (excluded_job replace job) (values s'.tasks) ≤ effective_memory_bytes c)
unfolding new_task
admit-memory c replace job id now s s' old e held small =
    let task = new_task id job now in
    let name = excluded_job replace job in
    let (room, after) = admit-some c replace job task s s' old e in
    ground (
      arith,
      lacks_memory-false c s name job room held small,
      memory_of-insert name id task s.tasks,
      memory_of-insert name id task (mark_predecessors job task s.tasks),
      memory_of-mark name job task s.tasks,
    )

-- A limit that carries the sum past 64 bits passes the check: with u bytes handed out, a job that
-- asks for 2 ^ 64 - u bytes or more is not refused for want of memory.
pub lacks_memory_wraps :
    (c : NodeConfig) (s : AgentState) (name : String) (job : Job)
    → memory_of name (values s.tasks) ≤ effective_memory_bytes c
    → effective_memory_bytes c < 2 ^ 64
    → job.memory_limit < 2 ^ 64
    → 2 ^ 64 ≤ memory_of name (values s.tasks) + job.memory_limit
    → lacks_memory c s name job ≡ false
unfolding lacks_memory
lacks_memory_wraps c s name job held small limit over = ground (arith, usage-mem s name)

-- A hop job pays for whole blocks: the least multiple of 2 MB that is no less than its limit, for
-- every limit but those within one block of 2 ^ 64.
pub hop_memory-IsLeast :
    (limit : ℕ)
    → limit + hop_block_bytes ≤ 2 ^ 64
    → (limit ≤ hop_memory limit)
      × (hop_memory limit < limit + hop_block_bytes)
      × (hop_memory limit % hop_block_bytes ≡ 0)
unfolding hop_memory
hop_memory-IsLeast limit h = ground arith

-- Within one block of 2 ^ 64 the rounding wraps, and a hop job that asks for nearly everything is
-- charged nothing at all.
pub hop_memory_wraps :
    (limit : ℕ) → limit < 2 ^ 64 → 2 ^ 64 < limit + hop_block_bytes → hop_memory limit ≡ 0
unfolding hop_memory
hop_memory_wraps limit h over = ground arith
