-- ===== src/Node/Restart/Budget.antt =====
-- How often restartTask of internal/agent/handlers.go brings a task back, and that it ends.
use easyrun.Prelude.{
  ℕ, ◌+◌, ◌<◌, ◌≡◌, refl, sym, ◌∙◌, inl, inr, Bool, false, not, ◌&&◌, List, [], ◌∷◌, some, arith,
  ltb, length, Bool-cases, All,
}
use easyrun.Prelude.Int.{ℤ, pos}
use easyrun.Prelude.Text.{String}
use easyrun.Prelude.Dict.{lookup, insert, lookup-insert_self}
use easyrun.Types.{Job, Task}
use easyrun.Node.State.{AgentState}
use easyrun.Node.Restart.{
  RoundEnv, Round, ended, again, Ending, max_restarts_of, window_of, earns_reset, note_failure,
  restart_count_op, is_exhausted, try_swap, spend, with_budget, restart_round, restart_task,
}
use easyrun.Node.Restart.Swaps.{IsQuiet, Goes, GoesOn, GoesOn-mono, try_swap-GoesOn}

-- Where a round with `m` restarts allowed leaves the task: ended, or one restart further on and
-- still within the budget.
data Outcome (m : ℕ) (name : String) (s : AgentState) (count : ℕ) (x : Round) : Type 0 where
  over : (e : Ending) (s' : AgentState) → x ≡ ended e s' → Outcome m name s count x
  further :
      (task' : Task) (s' : AgentState)
      → x ≡ again task' s'
      → count < m
      → Goes name s (count + 1) task' s'
      → Outcome m name s count x

GoesOn-Outcome :
    (m : ℕ) (name : String) (s : AgentState) (count : ℕ) (x : Round)
    → count < m
    → GoesOn name s (count + 1) x
    → Outcome m name s count x
GoesOn-Outcome m name s count (ended e s') h g = over e s' refl
GoesOn-Outcome m name s count (again task' s') h g = further task' s' refl h g

-- The count that a round goes by: none after genuine uptime.
abbrev counted_from : Bool → ℤ → ℕ → Task → ℕ
counted_from was_up window now t = (note_failure was_up window now t).restart_count

Outcome-jobs :
    (m : ℕ) (name : String) (s s' : AgentState) (count : ℕ) (x : Round)
    → s'.jobs ≡ s.jobs
    → Outcome m name s' count x
    → Outcome m name s count x
Outcome-jobs m name s s' count x jobs (over e z h) = over e z h
Outcome-jobs m name s s' count x jobs (further task' z h left g) =
    further task' z h left (GoesOn-mono name s s' (count + 1) (again task' z) jobs g)

left_in_budget : (m c : ℕ) → is_exhausted (pos m) c ≡ false → c < m
unfolding is_exhausted
left_in_budget m c e = ground arith

spend-Outcome :
    (m : ℕ) (env : RoundEnv) (job : Job) (task t : Task) (s : AgentState)
    → IsQuiet env
    → job.name ≡ task.job_name
    → max_restarts_of job ≡ pos m
    → lookup task.id s.tasks ≡ some t
    → Outcome m task.job_name s t.restart_count (spend env job task t.restart_count s)
unfolding spend
spend-Outcome m env job task t s quiet named budget here =
    rw (budget, spend)
      (elim (Bool-cases (is_exhausted (pos m) t.restart_count)) [
        | inl spent ↦ simp spent (over _ _ refl)
        | inr left ↦ simp left (elim (Bool-cases (ltb 0 t.restart_count && not env.waited)) [
          | inl cut ↦ simp cut (over _ _ refl)
          | inr slept ↦ simp slept (
              GoesOn-Outcome m task.job_name s t.restart_count (try_swap env job task s)
                (left_in_budget m t.restart_count left)
                (try_swap-GoesOn env job task t s quiet named here))
        ])
      ])

restart_count_op-present :
    (id : String) (was_up : Bool) (window : ℤ) (now : ℕ) (t : Task) (s : AgentState)
    → lookup id s.tasks ≡ some t
    → let t' = note_failure was_up window now t in
      restart_count_op id was_up window now s
      ≡ (t'.restart_count, record s { tasks = insert id t' s.tasks })
unfolding restart_count_op
restart_count_op-present id was_up window now t s e = rw (e, restart_count_op) refl

restart_round-Outcome :
    (m : ℕ) (env : RoundEnv) (was_up : Bool) (job : Job) (task t : Task) (s : AgentState)
    → IsQuiet env
    → lookup task.job_name s.jobs ≡ some job
    → job.name ≡ task.job_name
    → max_restarts_of job ≡ pos m
    → lookup task.id s.tasks ≡ some t
    → Outcome m task.job_name s
        (counted_from was_up (window_of job) env.now t)
        (restart_round env was_up task s)
unfolding restart_round with_budget
restart_round-Outcome m env was_up job task t s quiet known named budget here =
    let t' = note_failure was_up (window_of job) env.now t in
    rw (known, restart_round)
      (rw (restart_count_op-present task.id was_up (window_of job) env.now t s here) (
        Outcome-jobs m task.job_name s _ t'.restart_count _ refl (
          spend-Outcome m env job task t' (record s { tasks = insert task.id t' s.tasks }) quiet
            named budget (lookup-insert_self task.id t' s.tasks))))

-- Nothing more than the loop's end.
abbrev pub Ends : Round → Type 0
Ends x = (e : Ending) × (s : AgentState) × (x ≡ ended e s)

counted_from_down :
    (window : ℤ) (now : ℕ) (t : Task) → counted_from false window now t ≡ t.restart_count
unfolding note_failure earns_reset
counted_from_down window now t = refl

-- The loop after its first round.
again-Ends :
    (m : ℕ) (envs : List RoundEnv) (job : Job) (task t : Task) (s : AgentState)
    → All IsQuiet envs
    → lookup task.job_name s.jobs ≡ some job
    → job.name ≡ task.job_name
    → max_restarts_of job ≡ pos m
    → lookup task.id s.tasks ≡ some t
    → m < length envs + t.restart_count
    → 0 < length envs
    → Ends (restart_task envs false task s)
unfolding restart_task
again-Ends m [] job task t s quiet known named budget here enough some_ = absurd (omega arith)
again-Ends m (env ∷ envs) job task t s quiet known named budget here enough some_ =
    elim (restart_round-Outcome m env false job task t s quiet.0 known named budget here) [
      | over e s' ends ↦ rw (ends, restart_task) (e, s', refl)
      | further task' s' goes left g ↦
          rw (goes, restart_task)
            (again-Ends m envs job task' g.now s' quiet.1 (rw (g.same_name, g.same_jobs) known)
              (named ∙ sym g.same_name) budget g.present
              (omega (arith, g.counted, counted_from_down (window_of job) env.now t))
              (omega (arith, counted_from_down (window_of job) env.now t)))
    ]

-- The loop of restarts ends: for a job that may be restarted m times, whose task is on the node,
-- it returns within m + 1 rounds, whatever the runner, the ports and the shutdown answer in them,
-- as long as nobody else changes the node's state meanwhile.
pub restart_task-Ends :
    (m : ℕ) (envs : List RoundEnv) (was_up : Bool) (job : Job) (task t : Task) (s : AgentState)
    → All IsQuiet envs
    → lookup task.job_name s.jobs ≡ some job
    → job.name ≡ task.job_name
    → max_restarts_of job ≡ pos m
    → lookup task.id s.tasks ≡ some t
    → m < length envs
    → Ends (restart_task envs was_up task s)
unfolding restart_task
restart_task-Ends m [] was_up job task t s quiet known named budget here enough = elim enough [ ]
restart_task-Ends m (env ∷ envs) was_up job task t s quiet known named budget here enough =
    elim (restart_round-Outcome m env was_up job task t s quiet.0 known named budget here) [
      | over e s' ends ↦ rw (ends, restart_task) (e, s', refl)
      | further task' s' goes left g ↦
          rw (goes, restart_task)
            (again-Ends m envs job task' g.now s' quiet.1 (rw (g.same_name, g.same_jobs) known)
              (named ∙ sym g.same_name) budget g.present (omega (arith, g.counted)) (omega arith))
    ]
