-- ===== src/Leader/Dispatch/Preemption.antt =====
-- dispatchJob with its second pass, which makes room on the agents that were full.
use easyrun.Prelude.{
  ℕ, ◌≡◌, refl, sym, ap, subst, ◌∙◌, or_else, inl, inr, Bool, true, false, List, [], ◌∷◌, Option,
  some, arith, length, ◌==◌, Bool-cases, Option-cases,
}
use easyrun.Prelude.Int.{ℤ, ◌<ℤ◌}
use easyrun.Prelude.Text.{String}
use easyrun.Types.{Agent, Job}
use easyrun.Node.Store.{get_job}
use easyrun.Node.State.{AgentState}
use easyrun.Leader.State.{
  LeaderState, counts_of, effective_priority, track_placement, forget_placement,
}
use easyrun.Leader.State.Victim.{IsPlaced, find_victim_lem}
use easyrun.Leader.System.{
  World, Sys, Event, Topic, of_job, stop_call, notified, Since, unmoved, grown, on_state, emit,
  send_job_to_agent, stop_tasks_on_agent,
}
use easyrun.Leader.System.Own.{Reran, as_before, Reran-trans, Reran-lookup, prepare_job-keeps}
use easyrun.Leader.Dispatch.{
  Pass, found, candidates, first_pass, after_pass, or_unplaced, preempt_on, preempt, dispatch_job,
  dispatch_to_available_agent,
}
use easyrun.Leader.Dispatch.Frame.{
  Same, Same-refl, Same-trans, Since-trans, Since-map, IsRunOf, send_job_to_agent-Sent, Settles,
  first_pass-Settles, Passed,
}

-- What a dispatch of the job may do: start it, stop a job of the store that is strictly less
-- important, or tell that a job has changed.
pub data Fair (job : Job) (store : AgentState) : Event → Type 0 where
  starts : {e : Event} → IsRunOf job e → Fair job store e
  evicts :
      (id name : String) (victim : Job)
      → get_job name store ≡ some victim
      → effective_priority job.priority <ℤ effective_priority victim.priority
      → Fair job store (stop_call id victim.name)
  tells : (t : Topic) → Fair job store (notified t)

pub record Fairly (job : Job) (y y' : Sys) : Type 0 where
  pub state : Same y.state y'.state
  pub store : Reran job y.store.jobs y'.store.jobs
  pub calls : Since (Fair job y.store) y.trace y'.trace

not_below_itself : (p : ℤ) → p <ℤ p → ⊥
not_below_itself p h = omega (arith, h)

-- A victim that stands in the store after the job was registered again stood there before: it is not
-- the job itself, which is not less important than itself.
Fair-before :
    {job : Job} {s s' : AgentState} {e : Event}
    → Reran job s.jobs s'.jobs
    → Fair job s' e
    → Fair job s e
unfolding get_job
Fair-before p (starts h) = starts h
Fair-before p (tells t) = tells t
Fair-before {job = job} p (evicts id name victim here less) = elim (Reran-lookup name p) [
  | inl h ↦ evicts id name victim (sym h ∙ here) less
  | inr (same, h) ↦
      let is : effective_priority victim.priority ≡ effective_priority job.priority =
        ap (λ o. effective_priority (or_else o victim).priority) (sym here ∙ h)
        ∙ ap effective_priority (prepare_job-keeps job).1 in
      absurd (
        not_below_itself (effective_priority job.priority)
          (subst (λ p. effective_priority job.priority <ℤ p) is less))
]

pub Fairly-refl : (job : Job) (y : Sys) → Fairly job y y
Fairly-refl job y = record { state = Same-refl y.state; store = as_before; calls = unmoved }

pub Fairly-trans :
    {job : Job} {y y' y'' : Sys} → Fairly job y y' → Fairly job y' y'' → Fairly job y y''
Fairly-trans p q = record {
  state = Same-trans p.state q.state;
  store = Reran-trans p.store q.store;
  calls = Since-trans p.calls (Since-map (λ e h. Fair-before p.store h) q.calls);
}

Passed-Fairly : {job : Job} {y y' : Sys} → Passed job y y' → Fairly job y y'
Passed-Fairly p = record {
  state = p.state;
  store = p.store;
  calls = Since-map (λ e h. starts h) p.calls;
}

IsPlaced-stored :
    (find : String → Option Job) (v : Job) (m : List (String × ℕ))
    → IsPlaced find v m
    → (name : String) × (find name ≡ some v)
IsPlaced-stored find v [] h = absurd h
IsPlaced-stored find v ((name, count) ∷ m) (inl h) = (name, h.1)
IsPlaced-stored find v ((name, count) ∷ m) (inr h) = IsPlaced-stored find v m h

forget-Same : (id name : String) (s : LeaderState) → Same s (forget_placement id name s)
unfolding forget_placement
forget-Same id name s = ground arith

sent-Fairly :
    (w : World) (agent : Agent) (job : Job) (y : Sys)
    → Fairly job y (send_job_to_agent w agent job y).1
sent-Fairly w agent job y =
    let (e, f, g) = send_job_to_agent-Sent w agent job y in
    record { state = rw e (Same-refl y.state); store = f; calls = Since-map (λ e h. starts h) g }

track-Fairly :
    (id : String) (job : Job) (y : Sys) → Fairly job y (on_state (track_placement id job.name) y)
unfolding on_state track_placement
track-Fairly id job y = record {
  state = record {
    agents = refl;
    sorted = refl;
    dispatching = refl;
    settled = refl;
    tombstones = refl;
  };
  store = as_before;
  calls = unmoved;
}

forget-Fairly :
    (id name : String) (job : Job) (y : Sys) → Fairly job y (on_state (forget_placement id name) y)
unfolding on_state
forget-Fairly id name job y = record {
  state = forget-Same id name y.state;
  store = as_before;
  calls = unmoved;
}

tell-Fairly : (t : Topic) (job : Job) (y : Sys) → Fairly job y (emit (notified t) y)
unfolding emit
tell-Fairly t job y = record {
  state = Same-refl y.state;
  store = as_before;
  calls = grown unmoved (tells t);
}

stop-Fairly :
    (w : World) (agent : Agent) (name : String) (victim job : Job) (y : Sys)
    → get_job name y.store ≡ some victim
    → effective_priority job.priority <ℤ effective_priority victim.priority
    → Fairly job y (stop_tasks_on_agent w agent victim.name y).1
unfolding stop_tasks_on_agent emit
stop-Fairly w agent name victim job y e less = record {
  state = Same-refl y.state;
  store = as_before;
  calls = grown unmoved (evicts agent.id name victim e less);
}

preempt_on-Fairly :
    (w : World) (job : Job) (agent : Agent) (name : String) (victim : Job) (y : Sys)
    → get_job name y.store ≡ some victim
    → effective_priority job.priority <ℤ effective_priority victim.priority
    → Fairly job y (preempt_on w job agent victim y).1
unfolding preempt_on
preempt_on-Fairly w job agent name victim y here less =
    let y₁ = (stop_tasks_on_agent w agent victim.name y).1 in
    let y₂ = on_state (forget_placement agent.id victim.name) y₁ in
    let y₃ = (send_job_to_agent w agent job y₂).1 in
    let y₄ = on_state (track_placement agent.id job.name) y₃ in
    let stops = stop-Fairly w agent name victim job y here less in
    let sends =
      Fairly-trans stops
        (Fairly-trans (forget-Fairly agent.id victim.name job y₁) (sent-Fairly w agent job y₂)) in
    elim (Bool-cases (stop_tasks_on_agent w agent victim.name y).0) [
      | inr e ↦ rw (e, preempt_on) stops
      | inl e ↦ elim (Option-cases (send_job_to_agent w agent job y₂).0) [
        | inl f ↦
            let told = tell-Fairly (of_job victim.name) job y₄ in
            rw (e, preempt_on)
              (rw f (Fairly-trans sends (Fairly-trans (track-Fairly agent.id job y₃) told)))
        | inr (err, f) ↦ rw (e, preempt_on) (rw f sends)
      ]
    ]

preempt-Fairly :
    (w : World) (job : Job) (agents : List Agent) (y : Sys)
    → Fairly job y (preempt w job agents y).1
unfolding preempt
preempt-Fairly w job [] y = Fairly-refl job y
preempt-Fairly w job (agent ∷ rest) y =
    let find : String → Option Job = λ n. get_job n y.store in
    elim (find_victim_lem find agent.id job.priority y.state) [
      | inl (e, h) ↦ rw (e, preempt) (preempt-Fairly w job rest y)
      | inr (victim, e, placed, less, most) ↦
          let (name, here) = IsPlaced-stored find victim (counts_of agent.id y.state) placed in
          let y' = (preempt_on w job agent victim y).1 in
          let first = preempt_on-Fairly w job agent name victim y here less in
          elim (Bool-cases (preempt_on w job agent victim y).0) [
            | inl f ↦ rw (e, preempt) (rw f first)
            | inr f ↦ rw (e, preempt) (rw f (Fairly-trans first (preempt-Fairly w job rest y')))
          ]
    ]

or_unplaced-state : (x : Bool × Sys) → (or_unplaced x).1 ≡ x.1
unfolding or_unplaced
or_unplaced-state (true, y) = refl
or_unplaced-state (false, y) = refl

after_pass-Fairly :
    (w : World) (job : Job) (y : Sys) (x : Pass × Sys)
    → Settles job y x
    → Fairly job y (after_pass w job true x).1
unfolding after_pass
after_pass-Fairly w job y (found, y') (p, placed) = Passed-Fairly p
after_pass-Fairly w job y (candidates l, y') (p, e) =
    rw (or_unplaced-state (preempt w job l y'))
      (Fairly-trans (Passed-Fairly p) (preempt-Fairly w job l y'))

-- A dispatch that may preempt does nothing on the agents but start this job, beside what runs, and
-- stop jobs that stand in the store and are strictly less important than it. It leaves
-- the leader's state as it was but for the turn and the placements, and the jobs of the store but for
-- this one, which the leader's own node registers again as it prepares it when it is asked to start
-- it.
pub dispatch_to_available_agent-Fairly :
    (w : World) (job : Job) (y : Sys) → Fairly job y (dispatch_to_available_agent w job y).1
unfolding dispatch_to_available_agent dispatch_job
dispatch_to_available_agent-Fairly w job y = elim (Bool-cases (length y.state.agents == 0)) [
  | inl e ↦ simp e (Fairly-refl job y)
  | inr e ↦
      let n = length y.state.agents in
      simp e (after_pass-Fairly w job y (first_pass w job n [] y) (first_pass-Settles w job n [] y))
]
