-- ===== src/Node/Restart/Swaps.antt =====
-- How a round of restartTask of internal/agent/handlers.go leaves off after its swap.
use easyrun.Prelude.{ℕ, ◌+◌, ◌≡◌, refl, ◌∙◌, inl, inr, some, Bool-cases, Option-cases}
use easyrun.Prelude.Int.{ℤ}
use easyrun.Prelude.Text.{String}
use easyrun.Prelude.Dict.{Dict, lookup, lookup-insert_self}
use easyrun.Types.{Job, Task, failed}
use easyrun.Node.State.{AgentState, add_task, drop_task, with_task}
use easyrun.Node.Capacity.{new_task, resolve_job_for_run}
use easyrun.Node.Stop.{mark_failed}
use easyrun.Node.Stop.Laws.{drop_task-jobs}
use easyrun.Node.Start.{allocate_ports, RunResult, came_up, no_capacity, run_failed}
use easyrun.Node.Restart.{
  RoundEnv, Round, ended, again, swap, swapped, after_run, after_swap, try_swap,
}

-- Nobody else changes the node's state while the runner starts the replacement.
abbrev pub IsQuiet : RoundEnv → Type 0
IsQuiet env = (s : AgentState) → env.during s ≡ s

-- Where a round that goes on leaves off: the task it goes on with is on the node, and has been
-- restarted `count` times.
pub record Goes (name : String) (s : AgentState) (count : ℕ) (task' : Task) (s' : AgentState)
    : Type 0 where
  pub same_jobs : s'.jobs ≡ s.jobs
  pub same_name : task'.job_name ≡ name
  pub now : Task
  pub present : lookup task'.id s'.tasks ≡ some now
  pub counted : now.restart_count ≡ count

pub lookup-with_task :
    (id : String) (f : Task → Task) (t : Task) (s : AgentState)
    → lookup id s.tasks ≡ some t
    → (lookup id (with_task id f s).tasks ≡ some (f t)) × ((with_task id f s).jobs ≡ s.jobs)
unfolding with_task
lookup-with_task id f t s e = rw (e, with_task) (lookup-insert_self id (f t) s.tasks, refl)

-- A round ends, or goes on so.
abbrev pub GoesOn : String → AgentState → ℕ → Round → Type 0
GoesOn name s count (ended e s') = Unit
GoesOn name s count (again task' s') = Goes name s count task' s'

after_run-GoesOn :
    (env : RoundEnv) (r : Task) (x : RunResult) (s : AgentState)
    → lookup r.id s.tasks ≡ some r
    → GoesOn r.job_name s r.restart_count (after_run env r x s)
unfolding after_run mark_failed
after_run-GoesOn env r (came_up pid) s here = tt
after_run-GoesOn env r no_capacity s here = tt
after_run-GoesOn env r run_failed s here =
    let (here', jobs) = lookup-with_task r.id (λ t. record t { state = failed }) r s here in
    record {
      same_jobs = jobs;
      same_name = refl;
      now = record r { state = failed };
      present = here';
      counted = refl;
    }

after_swap-GoesOn :
    (env : RoundEnv) (r : Task) (s : AgentState)
    → IsQuiet env
    → lookup r.id s.tasks ≡ some r
    → GoesOn r.job_name s r.restart_count (after_swap env r s)
unfolding after_swap
after_swap-GoesOn env r s quiet here = elim (Bool-cases env.closed_after) [
  | inl closed ↦ rw (closed, after_swap) tt
  | inr open_ ↦ rw (open_, after_swap) (rw (quiet s) (after_run-GoesOn env r env.result s here))
]

swap-present :
    (task replacement old : Task) (s : AgentState)
    → lookup task.id s.tasks ≡ some old
    → let r = record replacement {
      restart_count = old.restart_count + 1;
      last_failed_at = old.last_failed_at;
    } in
      (swap task replacement s ≡ some (r, add_task r (drop_task task.id s)))
      × (lookup r.id (add_task r (drop_task task.id s)).tasks ≡ some r)
      × ((add_task r (drop_task task.id s)).jobs ≡ s.jobs)
unfolding swap add_task
swap-present task replacement old s e =
    rw (e, swap) (refl, lookup-insert_self replacement.id _ _, drop_task-jobs task.id s)

pub GoesOn-mono :
    (name : String) (s s' : AgentState) (count : ℕ) (x : Round)
    → s'.jobs ≡ s.jobs
    → GoesOn name s' count x
    → GoesOn name s count x
GoesOn-mono name s s' count (ended e z) jobs g = tt
GoesOn-mono name s s' count (again task' z) jobs g = record {
  same_jobs = g.same_jobs ∙ jobs;
  same_name = g.same_name;
  now = g.now;
  present = g.present;
  counted = g.counted;
}

pub try_swap-GoesOn :
    (env : RoundEnv) (job : Job) (task t : Task) (s : AgentState)
    → IsQuiet env
    → job.name ≡ task.job_name
    → lookup task.id s.tasks ≡ some t
    → GoesOn task.job_name s (t.restart_count + 1) (try_swap env job task s)
unfolding try_swap new_task
try_swap-GoesOn env job task t s quiet named here =
    elim (Option-cases (resolve_job_for_run env.attributes job)) [
      | inl e ↦ rw (e, try_swap) tt
      | inr (run_job, e) ↦ elim (Option-cases (allocate_ports env.ports run_job.ports)) [
        | inl f ↦ rw (e, try_swap) (rw f retried)
        | inr (ports, f) ↦ elim (Bool-cases env.closed_before) [
          | inl c ↦ rw (e, try_swap) (rw f (simp c tt))
          | inr c ↦ rw (e, try_swap) (rw f (simp c (replaced ports)))
        ]
      ]
    ]
  where
    retry : Task → Task
    retry u = record u { restart_count = u.restart_count + 1 }

    retried : Goes task.job_name s (t.restart_count + 1) task (with_task task.id retry s)
    retried =
        let (here', jobs) = lookup-with_task task.id retry t s here in
        record {
          same_jobs = jobs;
          same_name = refl;
          now = retry t;
          present = here';
          counted = refl;
        }

    replaced :
        (ports : Dict ℤ)
        → GoesOn task.job_name s (t.restart_count + 1) (
            swapped env s
              (swap task (record (new_task env.new_id job env.now) { ports = ports }) s))
    replaced ports =
        let fresh : Task = record (new_task env.new_id job env.now) { ports = ports } in
        let r : Task = record fresh {
          restart_count = t.restart_count + 1;
          last_failed_at = t.last_failed_at;
        } in
        let s' = add_task r (drop_task task.id s) in
        let (e, here', jobs) = swap-present task fresh t s here in
        rw e (
          GoesOn-mono task.job_name s s' (t.restart_count + 1) _ jobs
            (rw (← named) (after_swap-GoesOn env r s' quiet here')))
