-- ===== src/Leader/System/Own.antt =====
-- What the calls of internal/leader/dispatch.go do to the store of the leader's own node: its /run
-- (internal/agent/handlers.go) registers the job that it is sent, as the node prepares it.
use easyrun.Prelude.{
  ◌≡◌, refl, sym, ap, subst, ◌∙◌, ◌⊎◌, inl, inr, true, Bool, List, some, arith, Bool-cases,
  Option-cases,
}
use easyrun.Prelude.Text.{String, str_eq}
use easyrun.Prelude.Dict.{Dict, lookup, insert, lookup-insert}
use easyrun.Types.{Agent, Job, Task}
use easyrun.Node.State.{AgentState, add_task}
use easyrun.Node.Capacity.{
  NodeConfig, RunRequest, matches_affinity, prepare_job, new_task, admit, run_admission, handle_run,
}
use easyrun.Leader.System.{World, Sys, own_run}

-- The jobs are as they were, but that the job has been registered again, prepared, any number of
-- times.
pub data Reran (job : Job) (old : Dict Job) : Dict Job → Type 0 where
  as_before : Reran job old old
  again :
      {m : Dict Job}
      → Reran job old m
      → Reran job old (insert (prepare_job job).name (prepare_job job) m)

pub Reran-trans :
    {job : Job} {m m' m'' : Dict Job} → Reran job m m' → Reran job m' m'' → Reran job m m''
Reran-trans p as_before = p
Reran-trans p (again q) = again (Reran-trans p q)

pub prepare_job-keeps :
    (job : Job)
    → ((prepare_job job).name ≡ job.name)
      × ((prepare_job job).priority ≡ job.priority)
      × ((prepare_job job).deploying ≡ job.deploying)
unfolding prepare_job
prepare_job-keeps job = ground arith

-- A look finds what it found before, or the job as it was prepared.
pub Reran-lookup :
    {job : Job} {m m' : Dict Job} (n : String)
    → Reran job m m'
    → (lookup n m' ≡ lookup n m)
      ⊎ ((str_eq job.name n ≡ true) × (lookup n m' ≡ some (prepare_job job)))
Reran-lookup n as_before = inl refl
Reran-lookup {job = job} n (again {m = m''} q) =
    let found = lookup-insert (prepare_job job).name n (prepare_job job) m'' in
    let same = ap (λ k. str_eq k n) (prepare_job-keeps job).0 in
    elim (Bool-cases (str_eq (prepare_job job).name n)) [
      | inl e ↦ inr (sym same ∙ e, found ∙ simp e refl)
      | inr e ↦ elim (Reran-lookup n q) [
        | inl h ↦ inl (found ∙ simp e h)
        | inr (a, h) ↦ inr (a, found ∙ simp e h)
      ]
    ]

admitted_jobs :
    (c : NodeConfig) (r : RunRequest) (job : Job) (task : Task) (s : AgentState) (old : List Task)
    (s' : AgentState)
    → admit c r.replace job task s ≡ some (old, s')
    → s'.jobs ≡ insert job.name job s.jobs
unfolding admit add_task
admitted_jobs c r job task s old s' e = ground (arith, e)

-- A request that is a job is refused, or registers it.
handle_run-Reran :
    (c : NodeConfig) (r : RunRequest) (job : Job) (s : AgentState)
    → r.body ≡ some job
    → Reran job s.jobs (handle_run c r s).2.jobs
unfolding handle_run run_admission
handle_run-Reran c r job s e = elim (Bool-cases r.is_post) [
  | inr get ↦ rw (get, handle_run) as_before
  | inl post ↦ elim (Bool-cases (matches_affinity c.attributes job.affinity)) [
    | inr misfit ↦ rw (post, e, misfit, handle_run) as_before
    | inl fits ↦
        let task : Task = new_task r.id (prepare_job job) r.now in
        elim (Option-cases (admit c r.replace (prepare_job job) task s)) [
          | inl refused ↦ rw (post, e, fits, refused, handle_run, run_admission) as_before
          | inr ((old, s'), admitted) ↦
              rw (post, e, fits, admitted, handle_run, run_admission)
                (subst (Reran job s.jobs)
                  (sym (admitted_jobs c r (prepare_job job) task s old s' admitted))
                  (again as_before))
        ]
  ]
]

pub own_run-Reran :
    (w : World) (agent : Agent) (job : Job) (replace : Bool) (y : Sys)
    → Reran job y.store.jobs (own_run w agent job replace y).jobs
unfolding own_run
own_run-Reran w agent job replace y = elim (Option-cases (w.own_node y.trace agent)) [
  | inl e ↦ rw (e, own_run) as_before
  | inr (c, e) ↦ rw (e, own_run) (handle_run-Reran c _ job y.store refl)
]
