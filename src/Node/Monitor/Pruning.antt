-- ===== src/Node/Monitor/Pruning.antt =====
-- Which check states of internal/agent/monitor.go outlive a round.
use easyrun.Prelude.{
  ◌≡◌, refl, ◌∙◌, Bool, true, false, Option, none, some, List, [], ◌∷◌, if◌then◌else◌, arith,
  Bool-cases, inl, inr, or_else, All,
}
use easyrun.Prelude.Text.{String, str_eq, str_eq_iff}
use easyrun.Prelude.Dict.{Dict, lookup, insert, lookup-insert, lookup-erase}
use easyrun.Types.{Job, Task, TaskState, stopping, failed, is_running, HealthCheck}
use easyrun.Node.Monitor.{
  CheckState, no_checks, MonitorWorld, Monitor, give_up, pass, judge, in_grace, measured, check_of,
  check_running, check_status, check_each, running_tasks, is_live, prune_checks, check_tasks,
  check_health,
}

lookup-prune_checks :
    (id : String) (tasks : Dict Task) (checks : Dict CheckState)
    → lookup id (prune_checks tasks checks) ≡ (if is_live id tasks then lookup id checks else none)
unfolding lookup prune_checks
lookup-prune_checks id tasks [] = ground arith
lookup-prune_checks id tasks ((k, cs) ∷ checks) =
    ground (arith, str_eq_iff k id, lookup-prune_checks id tasks checks)

-- Nothing is known of a task.
abbrev pub Forgotten : String → Monitor → Type 0
Forgotten id m = lookup id m.checks ≡ none

give_up-Forgotten :
    (st : TaskState) (t : Task) (id : String) (m : Monitor)
    → Forgotten id m
    → Forgotten id (give_up st t m)
unfolding give_up
give_up-Forgotten st t id m h = ground (arith, h, lookup-erase t.id id m.checks)

insert-Forgotten :
    (k id : String) (cs : CheckState) (checks : Dict CheckState)
    → str_eq k id ≡ false
    → lookup id checks ≡ none
    → lookup id (insert k cs checks) ≡ none
insert-Forgotten k id cs checks e h = lookup-insert k id cs checks ∙ rw e h

judge-Forgotten :
    (t : Task) (id : String) (ok : Bool) (cs : CheckState) (m : Monitor)
    → str_eq t.id id ≡ false
    → Forgotten id m
    → Forgotten id (judge t (ok, cs) m)
unfolding judge pass
judge-Forgotten t id false cs m e h = give_up-Forgotten failed t id m h
judge-Forgotten t id true cs m e h = elim (Bool-cases cs.notified_healthy) [
  | inl f ↦ simp f (insert-Forgotten t.id id cs m.checks e h)
  | inr f ↦ simp f (insert-Forgotten t.id id (record cs { notified_healthy = true }) m.checks e h)
]

check_running-Forgotten :
    (w : MonitorWorld) (hc : Option HealthCheck) (t : Task) (id : String) (m : Monitor)
    → str_eq t.id id ≡ false
    → Forgotten id m
    → Forgotten id (check_running w t hc m)
unfolding check_running
check_running-Forgotten w none t id m e h = h
check_running-Forgotten w (some hc) t id m e h = elim (Bool-cases (in_grace w t hc)) [
  | inl f ↦ simp f h
  | inr f ↦
      let (ok, cs) = check_health w t hc (lookup t.id m.checks) in
      simp f (judge-Forgotten t id ok cs m e h)
]

check_status-Forgotten :
    (w : MonitorWorld) (job : Option Job) (t : Task) (id : String) (st : Option TaskState)
    (m : Monitor)
    → str_eq t.id id ≡ false
    → Forgotten id m
    → Forgotten id (check_status w job t st m)
unfolding check_status
check_status-Forgotten w job t id none m e h = h
check_status-Forgotten w job t id (some st) m e h = elim (Bool-cases (is_running st)) [
  | inl f ↦ simp f (
      check_running-Forgotten w (check_of job) t id (measured t m) e
        (insert-Forgotten t.id id (or_else (lookup t.id m.checks) no_checks) m.checks e h))
  | inr f ↦ simp f (give_up-Forgotten stopping t id m h)
]

check_each-Forgotten :
    (w : MonitorWorld) (id : String) (infos : List (Task × Option Job)) (m : Monitor)
    → All (λ info. str_eq info.0.id id ≡ false) infos
    → Forgotten id m
    → Forgotten id (check_each w infos m)
unfolding check_each
check_each-Forgotten w id [] m a h = h
check_each-Forgotten w id ((t, job) ∷ infos) m a h =
    check_each-Forgotten w id infos (check_status w job t (w.status t) m) a.1
      (check_status-Forgotten w job t id (w.status t) m a.0 h)

running_tasks-other :
    (id : String) (jobs : Dict Job) (tasks : Dict Task)
    → is_live id tasks ≡ false
    → All (λ info. str_eq info.0.id id ≡ false) (running_tasks jobs tasks)
unfolding running_tasks is_live
running_tasks-other id jobs [] h = tt
running_tasks-other id jobs ((k, t) ∷ ts) h = elim (Bool-cases (is_running t.state)) [
  | inl e ↦ simp e (ground (arith, h), running_tasks-other id jobs ts (ground (arith, h)))
  | inr e ↦ simp e (running_tasks-other id jobs ts (ground (arith, h)))
]

-- After a round nothing is known of the checks of a task that was not on the node when the round
-- began, however it left: its count begins anew should its name come back.
pub check_tasks-Forgotten :
    (w : MonitorWorld) (m : Monitor) (id : String)
    → is_live id m.state.tasks ≡ false
    → Forgotten id (check_tasks w m)
unfolding check_tasks
check_tasks-Forgotten w m id h =
    let m' : Monitor = record m { checks = prune_checks m.state.tasks m.checks } in
    check_each-Forgotten w id (running_tasks m.state.jobs m.state.tasks) m'
      (running_tasks-other id m.state.jobs m.state.tasks h)
      (lookup-prune_checks id m.state.tasks m.checks ∙ rw h refl)
