-- ===== src/Leader/Update/Flags.antt =====
-- The flag of a job over the whole of an update, and what the store says of it afterwards.
use easyrun.Prelude.{
  ℕ, ◌≡◌, refl, subst, ◌∙◌, inl, inr, true, false, List, Option, none, some, if◌then◌else◌,
  Bool-cases, Option-cases, is_some,
}
use easyrun.Prelude.Text.{String, str_eq}
use easyrun.Types.{Job}
use easyrun.Node.Store.{get_job, store_job}
use easyrun.Leader.State.{unlock_job}
use easyrun.Leader.System.{World, Sys, on_state, on_store, emit, claim_job}
use easyrun.Leader.System.Own.{Reran, as_before, Reran-trans}
use easyrun.Leader.Dispatch.{DispatchError, wanted}
use easyrun.Leader.Reconcile.{submit_job}
use easyrun.Leader.Reconcile.Submit.{
  Quiet, Quiet-trans, Quiet-Flags, Flags, KeepsClaims, claim-release, claim-refused,
  submit_job-Flags, submit_job-store,
}
use easyrun.Leader.Update.{
  UpdateError, TaskRef, roll, finish_rolling, update_by_rolling, clear_placements, stop_on_all,
  of_dispatch, update_by_recreate, dispatch_beside, stop_each, finish_blue_green,
  update_by_blue_green, Policy, rolling, recreate, blue_green, run_policy, policy_of, normalize_all,
  settle_update, update_job_op, snapshot_job_tasks, placed_agents,
}
use easyrun.Leader.Update.Steps.{
  roll-Quiet, stop_on_all-store, stop_on_all-Quiet, dispatch_beside-Quiet, stop_each-Quiet,
}

-- The flags after a policy has run: as in the state that it began in, with this job's given back.
abbrev Unlocked : String → Sys → Sys → Type 0
Unlocked name y y' = Flags (on_state (unlock_job name) y) y'

-- The store is as it was but for the job, as it was to be updated, and as the leader's own node may
-- have registered it again.
abbrev pub Stored : Job → Sys → Sys → Type 0
Stored job y y' = (now : ℕ) × Reran job (store_job job now y.store).jobs y'.store.jobs

abbrev pub Ran : Job → Sys → Option UpdateError × Sys → Type 0
Ran job y (err, y') = Unlocked job.name y y' × Stored job y y'

Unlocked-Quiet :
    {job : Job} (name : String) (y y' : Sys)
    → Quiet job y y'
    → Unlocked name y (on_state (unlock_job name) y')
unfolding on_state unlock_job
Unlocked-Quiet name y y' q =
    Quiet-Flags (on_state (unlock_job name) y) (on_state (unlock_job name) y') (rw q.0 refl)

finish_rolling-Ran :
    (job : Job) (y y₁ : Sys) (x : Option UpdateError × Sys)
    → y₁.state.dispatching ≡ y.state.dispatching
    → Quiet job y₁ x.1
    → Stored job y y₁
    → Ran job y (finish_rolling job x)
unfolding finish_rolling emit on_state
finish_rolling-Ran job y y₁ (some e, y') d q (now, h) =
    let at_start : Quiet job (record y { store = y₁.store }) y' = (q.0 ∙ d, q.1) in
    (Unlocked-Quiet job.name (record y { store = y₁.store }) y' at_start, (now, Reran-trans h q.1))
finish_rolling-Ran job y y₁ (none, y') d q (now, h) =
    let at_start : Quiet job (record y { store = y₁.store }) y' = (q.0 ∙ d, q.1) in
    (Unlocked-Quiet job.name (record y { store = y₁.store }) y' at_start, (now, Reran-trans h q.1))

update_by_rolling-Ran : (w : World) (job : Job) (y : Sys) → Ran job y (update_by_rolling w job y)
unfolding update_by_rolling on_store
update_by_rolling-Ran w job y =
    let old = snapshot_job_tasks w job.name y in
    let y₁ = on_store (store_job job (w.now y.trace)) y in
    finish_rolling-Ran job y y₁ (roll w job (wanted job.count) 0 old y₁) refl
      (roll-Quiet w job (wanted job.count) 0 old y₁) (w.now y.trace, as_before)

finish_blue_green-Ran :
    (job : Job) (old : List TaskRef) (y y₁ : Sys) (x : Option DispatchError × Sys)
    → y₁.state.dispatching ≡ y.state.dispatching
    → Quiet job y₁ x.1
    → Stored job y y₁
    → Ran job y (finish_blue_green job old x)
unfolding finish_blue_green emit on_state
finish_blue_green-Ran job old y y₁ (some e, y') d q (now, h) =
    let at_start : Quiet job (record y { store = y₁.store }) y' = (q.0 ∙ d, q.1) in
    (Unlocked-Quiet job.name (record y { store = y₁.store }) y' at_start, (now, Reran-trans h q.1))
finish_blue_green-Ran job old y y₁ (none, y') d q (now, h) =
    let y₂ = stop_each job.name old y' in
    let all : Quiet job y₁ y₂ = Quiet-trans y₁ y' y₂ q (stop_each-Quiet job.name old y') in
    let at_start : Quiet job (record y { store = y₁.store }) y₂ = (all.0 ∙ d, all.1) in
    (
      Unlocked-Quiet job.name (record y { store = y₁.store }) y₂ at_start,
      (now, Reran-trans h all.1),
    )

update_by_blue_green-Ran :
    (w : World) (job : Job) (y : Sys) → Ran job y (update_by_blue_green w job y)
unfolding update_by_blue_green on_store
update_by_blue_green-Ran w job y =
    let old = snapshot_job_tasks w job.name y in
    let y₁ = on_store (store_job job (w.now y.trace)) y in
    finish_blue_green-Ran job old y y₁ (dispatch_beside w job (wanted job.count) y₁) refl
      (dispatch_beside-Quiet w job (wanted job.count) y₁) (w.now y.trace, as_before)

of_dispatch-Ran :
    (job : Job) (y : Sys) (x : Option DispatchError × Sys)
    → Unlocked job.name y x.1
    → Stored job y x.1
    → Ran job y (of_dispatch x)
unfolding of_dispatch
of_dispatch-Ran job y (none, y') f h = (f, h)
of_dispatch-Ran job y (some e, y') f h = (f, h)

cleared : {job : Job} (name : String) (y : Sys) → Quiet job y (on_state (clear_placements name) y)
unfolding on_state clear_placements
cleared name y = (refl, as_before)

update_by_recreate-Ran :
    (w : World) (job : Job) (y : Sys)
    → KeepsClaims w
    → str_eq job.name "" ≡ false
    → Ran job y (update_by_recreate w job y)
unfolding update_by_recreate on_state
update_by_recreate-Ran w job y keeps named =
    let agents = placed_agents job.name y.state.placed y.state.agents in
    let y₀ = on_state (clear_placements job.name) y in
    let y₁ = stop_on_all w job.name agents y₀ in
    let y₂ = on_state (unlock_job job.name) y₁ in
    let flags = submit_job-Flags w job y₂ keeps named in
    let stopped : Quiet job y y₁ =
      Quiet-trans y y₀ y₁ (cleared job.name y) (stop_on_all-Quiet w job.name agents y₀) in
    let unlocked = Unlocked-Quiet job.name y y₁ stopped in
    let store =
      subst
        (λ s. Reran job (store_job job (w.now y₂.trace) s).jobs (submit_job w job y₂).1.store.jobs)
        (stop_on_all-store w job.name agents y₀) (submit_job-store w job y₂ keeps named) in
    of_dispatch-Ran job y (submit_job w job y₂) (λ n. flags n ∙ unlocked n) (w.now y₂.trace, store)

pub run_policy-Ran :
    (w : World) (policy : Policy) (job : Job) (y : Sys)
    → KeepsClaims w
    → str_eq job.name "" ≡ false
    → Ran job y (run_policy w policy job y)
unfolding run_policy
run_policy-Ran w rolling job y keeps named = update_by_rolling-Ran w job y
run_policy-Ran w recreate job y keeps named = update_by_recreate-Ran w job y keeps named
run_policy-Ran w blue_green job y keeps named = update_by_blue_green-Ran w job y

settle_update-Flags :
    (w : World) (job : Job) (x : Option UpdateError × Sys) → Flags x.1 (settle_update w job x).1
unfolding settle_update normalize_all on_store
settle_update-Flags w job (some e, y) n = refl
settle_update-Flags w job (none, y) n = refl

-- An update leaves the flag of every job as it found it, whatever its policy and however it ends:
-- unknown job or policy, locked, a failed dispatch, an interruption, or success. So no update
-- strands the lock of its job. The job has a name, and no leader is stopped between a claim and
-- the look at it.
pub update_job_op-Flags :
    (w : World) (new : Job) (y : Sys)
    → KeepsClaims w
    → str_eq new.name "" ≡ false
    → Flags y (update_job_op w new y).1
unfolding update_job_op
update_job_op-Flags w new y keeps named = elim (Option-cases (get_job new.name y.store)) [
  | inl e ↦ rw (e, update_job_op) (λ n. refl)
  | inr (old, e) ↦ elim (Option-cases (policy_of new.update_policy)) [
    | inl f ↦ rw (e, update_job_op) (rw f (λ n. refl))
    | inr (policy, f) ↦
        let job : Job = record new {
          priority = if is_some new.priority then new.priority else old.priority;
          deploying = true;
        } in
        let y₁ = (claim_job w new.name y).1 in
        elim (Bool-cases (claim_job w new.name y).0) [
          | inr g ↦
              let (flags, store) = claim-refused w new.name y keeps g in
              rw (e, update_job_op) (rw f (simp g (Quiet-Flags y y₁ flags)))
          | inl g ↦
              let ran = run_policy-Ran w policy job y₁ keeps named in
              let released = claim-release w new.name y y₁ g refl in
              let settled = settle_update-Flags w job (run_policy w policy job y₁) in
              rw (e, update_job_op) (rw f (simp g (λ n. settled n ∙ ran.0 n ∙ released n)))
        ]
  ]
]
