-- ===== src/Leader/Reconcile/Submit.antt =====
-- DispatchJob and reconcileJob: the flags of the jobs and the store over the whole of a call.
use easyrun.Prelude.{
  ℕ, ◌-◌, ◌≡◌, refl, sym, subst, ◌∙◌, ◌⊎◌, inl, inr, Bool, true, false, List, [], ◌∷◌, Option, none,
  some, arith, if◌then◌else◌, Bool-cases, Option-cases, ltb, length,
}
use easyrun.Prelude.Int.{pos}
use easyrun.Prelude.Text.{String, str_eq, str_eq_refl}
use easyrun.Prelude.Dict.{lookup-insert}
use easyrun.Types.{Agent, Job}
use easyrun.Node.State.{AgentState}
use easyrun.Node.Store.{get_job, store_job}
use easyrun.Leader.State.{
  LeaderState, is_dispatching, lock_job, unlock_job, track_placement, get_agents, lift_tombstone,
  total_placed,
}
use easyrun.Leader.System.{
  World, Sys, Event, on_state, on_store, emit, send_run_to_agent, send_job_to_agent, claim_job,
  notified, of_job,
}
use easyrun.Leader.State.{is_tombstoned}
use easyrun.Leader.System.Own.{Reran, as_before, Reran-trans, Reran-lookup, own_run-Reran}
use easyrun.Node.Capacity.{prepare_job}
use easyrun.Leader.Dispatch.{DispatchError, dispatch_instances, wanted}
use easyrun.Leader.Dispatch.Claim.{lock-unlock, dispatch_instances-releases}
use easyrun.Leader.Reconcile.{
  is_daemon, lacking, send_to_all, report_daemon, reconcile_daemon, reconcile_job, tell_placed,
  dispatch_stored, when_settled, submit_job,
}

-- The flags as they are held have not changed, and the jobs of the store but for this one.
abbrev pub Quiet : Job → Sys → Sys → Type 0
Quiet job y y' = (y'.state.dispatching ≡ y.state.dispatching) × Reran job y.store.jobs y'.store.jobs

-- Every flag reads as it did.
abbrev pub Flags : Sys → Sys → Type 0
Flags y y' = (n : String) → is_dispatching n y'.state ≡ is_dispatching n y.state

-- A leader is not stopped between a claim and the look at it.
abbrev pub KeepsClaims : World → Type 0
KeepsClaims w = (t : List Event) → (w.stopping t).1 ≡ false

pub Quiet-trans : {job : Job} (y y' y'' : Sys) → Quiet job y y' → Quiet job y' y'' → Quiet job y y''
Quiet-trans y y' y'' p q = (q.0 ∙ p.0, Reran-trans p.1 q.1)

pub Quiet-Flags : (y y' : Sys) → y'.state.dispatching ≡ y.state.dispatching → Flags y y'
unfolding is_dispatching
Quiet-Flags y y' e n = rw e refl

pub send_run_to_agent-Quiet :
    (w : World) (agent : Agent) (job : Job) (replace : Bool) (y : Sys)
    → Quiet job y (send_run_to_agent w agent job replace y).1
unfolding send_run_to_agent emit
send_run_to_agent-Quiet w agent job replace y =
    elim (Bool-cases (is_tombstoned job.name (w.now y.trace) y.state)) [
      | inl e ↦ simp e (refl, as_before)
      | inr e ↦ simp e (refl, own_run-Reran w agent job replace y)
    ]

lock_job-free :
    (name : String) (s : LeaderState) → (lock_job name s).0 ≡ true → is_dispatching name s ≡ false
unfolding lock_job
lock_job-free name s h = ground (arith, h)

pub claim_job-store : (w : World) (name : String) (y : Sys) → (claim_job w name y).1.store ≡ y.store
unfolding claim_job
claim_job-store w name y = ground arith

-- A claim that was given, and given back.
pub claim-release :
    (w : World) (name : String) (y y' : Sys)
    → (claim_job w name y).0 ≡ true
    → y'.state.dispatching ≡ (claim_job w name y).1.state.dispatching
    → Flags y (on_state (unlock_job name) y')
unfolding claim_job on_state
claim-release w name y y' given same =
    lock-unlock name y.state y'.state (lock_job-free name y.state (ground (arith, given)))
      (same ∙ ground (arith, given))

pub claim-refused :
    (w : World) (name : String) (y : Sys)
    → KeepsClaims w
    → (claim_job w name y).0 ≡ false
    → ((claim_job w name y).1.state.dispatching ≡ y.state.dispatching)
      × ((claim_job w name y).1.store ≡ y.store)
unfolding claim_job lock_job
claim-refused w name y keeps h = ground (arith, h, keeps y.trace)

pub send_to_all-Quiet :
    (w : World) (job : Job) (agents : List Agent) (y : Sys)
    → Quiet job y (send_to_all w job agents y).1
unfolding send_to_all send_job_to_agent on_state track_placement
send_to_all-Quiet w job [] y = (refl, as_before)
send_to_all-Quiet w job (a ∷ rest) y =
    let y₁ = (send_run_to_agent w a job false y).1 in
    let y₂ = on_state (track_placement a.id job.name) y₁ in
    let sent = send_run_to_agent-Quiet w a job false y in
    elim (Option-cases (send_run_to_agent w a job false y).0) [
      | inl e ↦
          rw (e, send_to_all)
            (Quiet-trans y y₂ (send_to_all w job rest y₂).1 sent (send_to_all-Quiet w job rest y₂))
      | inr (err, e) ↦
          rw (e, send_to_all)
            (Quiet-trans y y₁ (send_to_all w job rest y₁).1 sent (send_to_all-Quiet w job rest y₁))
    ]

report_daemon-store :
    (job : Job) (k n : ℕ) (y : Sys) → (report_daemon job k (n, y)).1.store ≡ y.store
unfolding report_daemon emit
report_daemon-store job k n y = ground arith

report_daemon-Quiet : (job : Job) (k : ℕ) (x : ℕ × Sys) → Quiet job x.1 (report_daemon job k x).1
unfolding report_daemon emit
report_daemon-Quiet job k (n, y) = (
  ground arith,
  subst (λ s. Reran job y.store.jobs s.jobs) (sym (report_daemon-store job k n y)) as_before,
)

-- What a dispatch of a whole job keeps.
abbrev pub Kept : Job → Sys → Sys → Type 0
Kept job y y' = Flags y y' × Reran job y.store.jobs y'.store.jobs

unmoved_store : (job : Job) (y y' : Sys) → y'.store ≡ y.store → Reran job y.store.jobs y'.store.jobs
unmoved_store job y y' e = rw e as_before

reconcile_daemon-Kept :
    (w : World) (job : Job) (agents : List Agent) (y : Sys)
    → KeepsClaims w
    → Kept job y (reconcile_daemon w job agents y).1
unfolding reconcile_daemon on_state
reconcile_daemon-Kept w job agents y keeps =
    let y₁ = (claim_job w job.name y).1 in
    let missing = lacking job.name y₁.state agents in
    let sent = send_to_all w job missing y₁ in
    let y₂ = (report_daemon job (length missing) sent).1 in
    let quiet : Quiet job y₁ y₂ =
      Quiet-trans y₁ sent.1 y₂ (send_to_all-Quiet w job missing y₁)
        (report_daemon-Quiet job (length missing) sent) in
    elim (Bool-cases (claim_job w job.name y).0) [
      | inr e ↦
          let (flags, store) = claim-refused w job.name y keeps e in
          rw (e, reconcile_daemon) (Quiet-Flags y y₁ flags, unmoved_store job y y₁ store)
      | inl e ↦
          rw (e, reconcile_daemon)
            (
              claim-release w job.name y y₂ e quiet.0,
              Reran-trans (unmoved_store job y y₁ (claim_job-store w job.name y)) quiet.1,
            )
    ]

pub emit-Kept : {job : Job} (e : Event) (y y' : Sys) → Kept job y y' → Kept job y (emit e y')
unfolding emit
emit-Kept e y y' k = k

pub reconcile_job-Kept :
    (w : World) (job : Job) (agents : List Agent) (y : Sys)
    → KeepsClaims w
    → Kept job y (reconcile_job w job agents y).1
unfolding reconcile_job
reconcile_job-Kept w job agents y keeps =
    let missing = wanted job.count - total_placed job.name y.state in
    let (idle, flags, store, calls) = dispatch_instances-releases w job (pos missing) y in
    elim (Bool-cases (is_dispatching job.name y.state)) [
      | inl e ↦ simp e ((λ n. refl), as_before)
      | inr e ↦ elim (Bool-cases (is_daemon job)) [
        | inl f ↦ simp (e, f) (reconcile_daemon-Kept w job agents y keeps)
        | inr f ↦ elim (Bool-cases (ltb 0 missing)) [
          | inr g ↦ simp (e, f, g) ((λ n. refl), as_before)
          | inl g ↦
              simp (e, f, g)
                (emit-Kept (notified (of_job job.name)) y
                  (dispatch_instances w job (pos missing) y).1 (flags, store))
        ]
      ]
    ]

tell_placed-Kept :
    (job : Job) (y : Sys) (x : Option DispatchError × Sys)
    → Kept job y x.1
    → Kept job y (tell_placed job x).1
unfolding tell_placed
tell_placed-Kept job y (none, y') k = emit-Kept (notified (of_job job.name)) y y' k
tell_placed-Kept job y (some e, y') k = k

dispatch_stored-Kept :
    (w : World) (job : Job) (y : Sys) → KeepsClaims w → Kept job y (dispatch_stored w job y).1
unfolding dispatch_stored
dispatch_stored-Kept w job y keeps = elim (Bool-cases (is_daemon job)) [
  | inl e ↦
      let x = reconcile_job w job (get_agents y.state) y in
      simp e (tell_placed-Kept job y x (reconcile_job-Kept w job (get_agents y.state) y keeps))
  | inr e ↦
      let (idle, flags, store, calls) = dispatch_instances-releases w job job.count y in
      simp e (tell_placed-Kept job y (dispatch_instances w job job.count y) (flags, store))
]

when_settled-Kept :
    (settled : Bool) (w : World) (job : Job) (y : Sys)
    → KeepsClaims w
    → Kept job y (when_settled settled w job y).1
unfolding when_settled
when_settled-Kept false w job y keeps = ((λ n. refl), as_before)
when_settled-Kept true w job y keeps = dispatch_stored-Kept w job y keeps

pub get_job-store_job :
    (n : String) (job : Job) (now : ℕ) (s : AgentState)
    → get_job n (store_job job now s) ≡ (if str_eq job.name n then some job else get_job n s)
unfolding get_job store_job
get_job-store_job n job now s = lookup-insert job.name n job s.jobs

-- What a submission leaves of the store: the job, and what its dispatches registered again.
pub submit_job-store :
    (w : World) (job : Job) (y : Sys)
    → KeepsClaims w
    → str_eq job.name "" ≡ false
    → Reran job (store_job job (w.now y.trace) y.store).jobs (submit_job w job y).1.store.jobs
unfolding submit_job on_store on_state
submit_job-store w job y keeps named =
    let y₁ = on_store (store_job job (w.now y.trace)) (on_state (lift_tombstone job.name) y) in
    simp named ((when_settled-Kept y.state.settled w job y₁ keeps).1)

pub submit_job-Flags :
    (w : World) (job : Job) (y : Sys)
    → KeepsClaims w
    → str_eq job.name "" ≡ false
    → Flags y (submit_job w job y).1
unfolding submit_job on_store on_state lift_tombstone
submit_job-Flags w job y keeps named =
    let y₁ = on_store (store_job job (w.now y.trace)) (on_state (lift_tombstone job.name) y) in
    let lifted : Flags y y₁ = Quiet-Flags y y₁ refl in
    simp named (λ n. (when_settled-Kept y.state.settled w job y₁ keeps).0 n ∙ lifted n)

-- A job with a name that is submitted stands in the store when the submission returns, with or
-- without an error and whatever the agents answer: as it was submitted, or, where the leader's own
-- node was asked to start it, as that node prepared it, with its driver and its limits filled in.
-- Every other job and the flags of all jobs are as they were. No leader is stopped between a claim
-- and the look at it.
pub submit_job-stores :
    (w : World) (job : Job) (y : Sys)
    → KeepsClaims w
    → str_eq job.name "" ≡ false
    → let y' = (submit_job w job y).1 in
      ((get_job job.name y'.store ≡ some job)
        ⊎ (get_job job.name y'.store ≡ some (prepare_job job)))
      × ((n : String)
          → if str_eq job.name n then Unit else (get_job n y'.store ≡ get_job n y.store))
      × Flags y y'
unfolding get_job
submit_job-stores w job y keeps named =
    let ran = submit_job-store w job y keeps named in
    let stored : (n : String)
        → get_job n (store_job job (w.now y.trace) y.store)
          ≡ (if str_eq job.name n then some job else get_job n y.store) =
      λ n. get_job-store_job n job (w.now y.trace) y.store in
    (
      elim (Reran-lookup job.name ran) [
        | inl h ↦ inl (h ∙ stored job.name ∙ simp (str_eq_refl job.name) refl)
        | inr (same, h) ↦ inr h
      ],
      λ n. elim (Bool-cases (str_eq job.name n)) [
        | inl same ↦ simp same tt
        | inr other ↦ simp other (elim (Reran-lookup n ran) [
          | inl h ↦ h ∙ stored n ∙ simp other refl
          | inr (same, h) ↦ absurd (ground (arith, same, other))
        ])
      ],
      submit_job-Flags w job y keeps named,
    )
