-- ===== src/Leader/Update/Steps.antt =====
-- The steps of an update change neither a flag nor the store.
use easyrun.Prelude.{
  ℕ, zero, suc, ◌+◌, ◌≡◌, refl, inl, inr, true, ◌&&◌, List, [], ◌∷◌, Option, none, some, arith,
  Bool-cases, Option-cases, ltb,
}
use easyrun.Prelude.Text.{String}
use easyrun.Types.{Agent, Job}
use easyrun.Leader.State.{unplace, get_agent}
use easyrun.Leader.System.{
  World, Sys, of_job, notified, on_state, emit, send_replace_to_agent, stop_tasks_on_agent,
  stop_task_by_id,
}
use easyrun.Leader.System.Own.{as_before}
use easyrun.Leader.Dispatch.{
  DispatchError, full, no_agents, unplaced, all_rejected, name_required,
  dispatch_without_preemption,
}
use easyrun.Leader.Dispatch.Gentle.{Gentle, dispatch_without_preemption_lem}
use easyrun.Leader.Reconcile.Submit.{Quiet, Quiet-trans, send_run_to_agent-Quiet}
use easyrun.Leader.Update.{
  TaskRef, Replaced, beside, in_place, failed, after_dispatch, replace_one, retire, failure, roll,
  stop_on_all, dispatch_beside, stop_each, stop_old_task,
}

Gentle-Quiet :
    (job : Job) (y : Sys) (x : Option DispatchError × Sys) → Gentle job y x → Quiet job y x.1
Gentle-Quiet job y (none, y') (p, h) = (p.state.dispatching, p.store)
Gentle-Quiet job y (some e, y') (p, h) = (p.state.dispatching, p.store)

gently : (w : World) (job : Job) (y : Sys) → Quiet job y (dispatch_without_preemption w job y).1
gently w job y =
    Gentle-Quiet job y (dispatch_without_preemption w job y)
      (dispatch_without_preemption_lem w job y)

stop_old_task-Quiet :
    {job : Job} (name : String) (ref : TaskRef) (y : Sys) → Quiet job y (stop_old_task name ref y)
unfolding stop_old_task stop_task_by_id emit on_state unplace
stop_old_task-Quiet name ref y = elim (Option-cases (get_agent ref.agent_id y.state)) [
  | inl e ↦ rw (e, stop_old_task) (refl, as_before)
  | inr (a, e) ↦ rw (e, stop_old_task) (ground arith, as_before)
]

after_full-Quiet :
    (w : World) (job : Job) (ref : TaskRef) (y : Sys)
    → Quiet job y (after_dispatch w job ref (some full, y)).1
unfolding after_dispatch send_replace_to_agent
after_full-Quiet w job ref y = elim (Option-cases (get_agent ref.agent_id y.state)) [
  | inl e ↦ rw (e, after_dispatch) (refl, as_before)
  | inr (a, e) ↦ rw (e, after_dispatch) (send_run_to_agent-Quiet w a job true y)
]

after_dispatch-Quiet :
    (w : World) (job : Job) (ref : TaskRef) (x : Option DispatchError × Sys)
    → Quiet job x.1 (after_dispatch w job ref x).1
unfolding after_dispatch
after_dispatch-Quiet w job ref (none, y) = (refl, as_before)
after_dispatch-Quiet w job ref (some full, y) = after_full-Quiet w job ref y
after_dispatch-Quiet w job ref (some no_agents, y) = (refl, as_before)
after_dispatch-Quiet w job ref (some unplaced, y) = (refl, as_before)
after_dispatch-Quiet w job ref (some all_rejected, y) = (refl, as_before)
after_dispatch-Quiet w job ref (some name_required, y) = (refl, as_before)

replace_one-Quiet :
    (w : World) (job : Job) (count i : ℕ) (ref : TaskRef) (y : Sys)
    → Quiet job y (replace_one w job count i ref y).1
unfolding replace_one
replace_one-Quiet w job count i ref y =
    let x = dispatch_without_preemption w job y in
    elim (Bool-cases (ltb i count)) [
      | inl e ↦ simp e (
          Quiet-trans y x.1 (after_dispatch w job ref x).1 (gently w job y)
            (after_dispatch-Quiet w job ref x))
      | inr e ↦ simp e (refl, as_before)
    ]

retire-Quiet : (job : Job) (ref : TaskRef) (x : Replaced × Sys) → Quiet job x.1 (retire job ref x)
unfolding retire
retire-Quiet job ref (beside, y) = stop_old_task-Quiet job.name ref y
retire-Quiet job ref (in_place, y) = (refl, as_before)
retire-Quiet job ref (failed e, y) = (refl, as_before)

pub roll-Quiet :
    (w : World) (job : Job) (count i : ℕ) (refs : List TaskRef) (y : Sys)
    → Quiet job y (roll w job count i refs y).1
unfolding roll emit
roll-Quiet w job count i [] y = (refl, as_before)
roll-Quiet w job count i (ref ∷ refs) y =
    let step = replace_one w job count i ref y in
    let y₁ = retire job ref step in
    let y₂ = emit (notified (of_job job.name)) y₁ in
    let first = replace_one-Quiet w job count i ref y in
    let second : Quiet job y y₂ = Quiet-trans y step.1 y₁ first (retire-Quiet job ref step) in
    elim (Option-cases (failure step.0)) [
      | inr (err, e) ↦ rw (e, roll) first
      | inl e ↦ elim (Bool-cases (ltb (i + 1) count && w.cancelled y₂.trace)) [
        | inl f ↦ rw (e, roll) (simp f second)
        | inr f ↦
            rw (e, roll)
              (simp f (
                Quiet-trans y y₂ (roll w job count (i + 1) refs y₂).1 second
                  (roll-Quiet w job count (i + 1) refs y₂)))
      ]
    ]

pub stop_on_all-store :
    (w : World) (name : String) (l : List Agent) (y : Sys)
    → (stop_on_all w name l y).store ≡ y.store
unfolding stop_on_all stop_tasks_on_agent emit
stop_on_all-store w name [] y = refl
stop_on_all-store w name (a ∷ l) y = stop_on_all-store w name l (stop_tasks_on_agent w a name y).1

pub stop_on_all-Quiet :
    {job : Job} (w : World) (name : String) (l : List Agent) (y : Sys)
    → Quiet job y (stop_on_all w name l y)
unfolding stop_on_all stop_tasks_on_agent emit
stop_on_all-Quiet w name [] y = (refl, as_before)
stop_on_all-Quiet w name (a ∷ l) y = stop_on_all-Quiet w name l (stop_tasks_on_agent w a name y).1

pub dispatch_beside-Quiet :
    (w : World) (job : Job) (n : ℕ) (y : Sys) → Quiet job y (dispatch_beside w job n y).1
unfolding dispatch_beside
dispatch_beside-Quiet w job zero y = (refl, as_before)
dispatch_beside-Quiet w job (suc n) y =
    let y' = (dispatch_without_preemption w job y).1 in
    elim (Option-cases (dispatch_without_preemption w job y).0) [
      | inl e ↦
          rw (e, dispatch_beside)
            (Quiet-trans y y' (dispatch_beside w job n y').1 (gently w job y)
              (dispatch_beside-Quiet w job n y'))
      | inr (err, e) ↦ rw (e, dispatch_beside) (gently w job y)
    ]

pub stop_each-Quiet :
    {job : Job} (name : String) (refs : List TaskRef) (y : Sys)
    → Quiet job y (stop_each name refs y)
unfolding stop_each
stop_each-Quiet name [] y = (refl, as_before)
stop_each-Quiet name (ref ∷ refs) y =
    let y₁ = stop_old_task name ref y in
    Quiet-trans y y₁ (stop_each name refs y₁) (stop_old_task-Quiet name ref y)
      (stop_each-Quiet name refs y₁)
