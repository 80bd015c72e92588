-- ===== src/Leader/Dispatch/Claim.antt =====
-- dispatchInstances and the flag by which one dispatch of a job at a time goes through.
use easyrun.Prelude.{
  ℕ, zero, suc, ◌≡◌, refl, ap, sym, ◌∙◌, inl, inr, true, false, none, arith, if◌then◌else◌,
  Bool-cases, Option-cases,
}
use easyrun.Prelude.Int.{ℤ}
use easyrun.Prelude.Text.{String, str_eq, str_eq_iff}
use easyrun.Prelude.Dict.{insert, lookup-insert, lookup-erase}
use easyrun.Types.{Job}
use easyrun.Leader.State.{LeaderState, is_dispatching, lock_job, unlock_job}
use easyrun.Leader.System.{World, Sys, Since, unmoved, on_state}
use easyrun.Leader.System.Own.{Reran, as_before}
use easyrun.Leader.Dispatch.{
  dispatch_to_available_agent, dispatch_times, dispatch_claimed, dispatch_instances, wanted,
}
use easyrun.Leader.Dispatch.Preemption.{
  Fair, Fairly, Fairly-refl, Fairly-trans, dispatch_to_available_agent-Fairly,
}

pub is_dispatching-unlock_job :
    (name n : String) (s : LeaderState)
    → is_dispatching n (unlock_job name s) ≡ (if str_eq name n then false else is_dispatching n s)
unfolding unlock_job is_dispatching
is_dispatching-unlock_job name n s = ground (arith, lookup-erase name n s.dispatching)

pub is_dispatching-lock_job :
    (name n : String) (s : LeaderState)
    → is_dispatching n (lock_job name s).1 ≡ (if str_eq name n then true else is_dispatching n s)
unfolding lock_job is_dispatching
is_dispatching-lock_job name n s =
    ground (arith, str_eq_iff name n, lookup-insert name n true s.dispatching)

dispatching-same :
    (n : String) (s s' : LeaderState)
    → s.dispatching ≡ s'.dispatching
    → is_dispatching n s ≡ is_dispatching n s'
unfolding is_dispatching
dispatching-same n s s' e = rw e refl

-- A claim that is given back leaves every flag as it was, where the job was not claimed.
pub lock-unlock :
    (name : String) (s s' : LeaderState)
    → is_dispatching name s ≡ false
    → s'.dispatching ≡ (lock_job name s).1.dispatching
    → (n : String) → is_dispatching n (unlock_job name s') ≡ is_dispatching n s
lock-unlock name s s' free same n =
    let back : is_dispatching n s' ≡ is_dispatching n (lock_job name s).1 =
      dispatching-same n s' (lock_job name s).1 same in
    ground (
      arith,
      back,
      is_dispatching-unlock_job name n s',
      is_dispatching-lock_job name n s,
      str_eq_iff name n,
    )

dispatch_times-Fairly :
    (w : World) (job : Job) (n : ℕ) (y : Sys) → Fairly job y (dispatch_times w job n y).1
unfolding dispatch_times
dispatch_times-Fairly w job zero y = Fairly-refl job y
dispatch_times-Fairly w job (suc n) y =
    let y' = (dispatch_to_available_agent w job y).1 in
    let first = dispatch_to_available_agent-Fairly w job y in
    elim (Option-cases (dispatch_to_available_agent w job y).0) [
      | inl e ↦ rw (e, dispatch_times) (Fairly-trans first (dispatch_times-Fairly w job n y'))
      | inr (err, e) ↦ rw (e, dispatch_times) first
    ]

-- A dispatch of instances does nothing while another dispatch holds the job. In every case, also
-- where it fails halfway, it leaves the flags of all jobs as it found them, and the jobs of the
-- store but for this one, which the leader's own node registers again as it prepares it, and does on
-- the agents only what is fair for the job.
pub dispatch_instances-releases :
    (w : World) (job : Job) (count : ℤ) (y : Sys)
    → let y' = (dispatch_instances w job count y).1 in
      (is_dispatching job.name y.state ≡ true → dispatch_instances w job count y ≡ (none, y))
      × ((n : String) → is_dispatching n y'.state ≡ is_dispatching n y.state)
      × Reran job y.store.jobs y'.store.jobs
      × Since (Fair job y.store) y.trace y'.trace
unfolding dispatch_instances dispatch_claimed lock_job on_state
dispatch_instances-releases w job count y = elim (Bool-cases (is_dispatching job.name y.state)) [
  | inl e ↦ simp e ((λ h. refl), (λ n. refl), as_before, unmoved)
  | inr e ↦
      let claimed : LeaderState = record y.state {
        dispatching = insert job.name true y.state.dispatching;
      } in
      let y₁ : Sys = record y { state = claimed } in
      let goes = dispatch_times-Fairly w job (wanted count) y₁ in
      let y₂ = (dispatch_times w job (wanted count) y₁).1 in
      let same : (lock_job job.name y.state).1 ≡ claimed = simp e refl in
      let flags =
        lock-unlock job.name y.state y₂.state e
          (goes.state.dispatching ∙ ap (λ s. s.dispatching) (sym same)) in
      simp e ((λ h. ground (arith, h)), flags, goes.store, goes.calls)
]
