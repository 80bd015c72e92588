-- ===== src/Leader/Dispatch/Frame.antt =====
-- What a pass over the agents changes, and how it counts what it has placed.
use easyrun.Prelude.{
  ℕ, zero, suc, ◌+◌, ◌≡◌, refl, ap, ◌∙◌, false, ◌&&◌, List, [], arith, if◌then◌else◌, or_else,
  length, ◌==◌, Bool-cases, Option-cases, inl, inr,
}
use easyrun.Prelude.Text.{String, str_eq, str_eq_iff}
use easyrun.Prelude.Dict.{lookup, insert, lookup-insert}
use easyrun.Types.{Agent, Job}
use easyrun.Leader.State.{
  LeaderState, next_agent, track_placement, placed_at, count_at, counts_of, is_tombstoned,
}
use easyrun.Leader.System.{
  World, Sys, Event, run_call, Since, unmoved, grown, on_state, emit, send_run_to_agent,
  send_job_to_agent,
}
use easyrun.Leader.System.Own.{Reran, as_before, Reran-trans, own_run-Reran}
use easyrun.Leader.Dispatch.{Pass, found, candidates, first_pass, note_candidate}

-- A start of this job, beside what runs already.
abbrev pub IsRunOf : Job → Event → Type 0
IsRunOf job e = (id : String) × (e ≡ run_call id job false)

-- The leader's state but for the turn and the placements.
pub record Same (s s' : LeaderState) : Type 0 where
  pub agents : s'.agents ≡ s.agents
  pub sorted : s'.agents_sorted ≡ s.agents_sorted
  pub dispatching : s'.dispatching ≡ s.dispatching
  pub settled : s'.settled ≡ s.settled
  pub tombstones : s'.tombstones ≡ s.tombstones

pub Same-refl : (s : LeaderState) → Same s s
Same-refl s = record {
  agents = refl;
  sorted = refl;
  dispatching = refl;
  settled = refl;
  tombstones = refl;
}

pub Same-trans : {s s' s'' : LeaderState} → Same s s' → Same s' s'' → Same s s''
Same-trans p q = record {
  agents = q.agents ∙ p.agents;
  sorted = q.sorted ∙ p.sorted;
  dispatching = q.dispatching ∙ p.dispatching;
  settled = q.settled ∙ p.settled;
  tombstones = q.tombstones ∙ p.tombstones;
}

pub Since-trans {ℓ} :
    {P : Event → Type ℓ} {t t' t'' : List Event} → Since P t t' → Since P t' t'' → Since P t t''
Since-trans p unmoved = p
Since-trans p (grown q e) = grown (Since-trans p q) e

pub Since-map {ℓ κ} :
    {P : Event → Type ℓ} {Q : Event → Type κ} {t t' : List Event}
    → ((e : Event) → P e → Q e)
    → Since P t t'
    → Since Q t t'
Since-map f unmoved = unmoved
Since-map f (grown p h) = grown (Since-map f p) (f _ h)

pub next_agent-Same :
    (s : LeaderState) → Same s (next_agent s).1 × ((next_agent s).1.placed ≡ s.placed)
unfolding next_agent
next_agent-Same s = elim (Bool-cases (length s.agents_sorted == 0)) [
  | inl e ↦ simp e (Same-refl s, refl)
  | inr e ↦ simp e (
    record { agents = refl; sorted = refl; dispatching = refl; settled = refl; tombstones = refl },
    refl,
  )
]

-- A call to start the job changes the trace, and the store where it reaches the leader's own node.
abbrev pub Sent : Job → Sys → Sys → Type 0
Sent job y y' =
    (y'.state ≡ y.state)
    × Reran job y.store.jobs y'.store.jobs
    × Since (IsRunOf job) y.trace y'.trace

pub send_job_to_agent-Sent :
    (w : World) (agent : Agent) (job : Job) (y : Sys)
    → Sent job y (send_job_to_agent w agent job y).1
unfolding send_job_to_agent send_run_to_agent emit
send_job_to_agent-Sent w agent job y =
    elim (Bool-cases (is_tombstoned job.name (w.now y.trace) y.state)) [
      | inl e ↦ simp e (refl, as_before, unmoved)
      | inr e ↦ simp e (refl, own_run-Reran w agent job false y, grown unmoved (agent.id, refl))
    ]

-- One instance more of the job, on one agent.
abbrev pub PlacesOne : String → LeaderState → LeaderState → Type 0
PlacesOne name s s' = (id : String) × (s'.placed ≡ (track_placement id name s).placed)

pub record Passed (job : Job) (y y' : Sys) : Type 0 where
  pub state : Same y.state y'.state
  pub store : Reran job y.store.jobs y'.store.jobs
  pub calls : Since (IsRunOf job) y.trace y'.trace

abbrev pub Settles : Job → Sys → Pass × Sys → Type 0
Settles job y (found, y') = Passed job y y' × PlacesOne job.name y.state y'.state
Settles job y (candidates l, y') = Passed job y y' × (y'.state.placed ≡ y.state.placed)

placed-track :
    (id name : String) (s s' : LeaderState)
    → s'.placed ≡ s.placed
    → (track_placement id name s').placed ≡ (track_placement id name s).placed
unfolding track_placement placed_at counts_of
placed-track id name s s' e = rw e refl

Passed-trans : {job : Job} {y y' y'' : Sys} → Passed job y y' → Passed job y' y'' → Passed job y y''
Passed-trans p q = record {
  state = Same-trans p.state q.state;
  store = Reran-trans p.store q.store;
  calls = Since-trans p.calls q.calls;
}

Settles-trans :
    (job : Job) (y y' : Sys) (x : Pass × Sys)
    → Passed job y y'
    → y'.state.placed ≡ y.state.placed
    → Settles job y' x
    → Settles job y x
Settles-trans job y y' (found, z) p e (q, placed) =
    (Passed-trans p q, (placed.0, placed.1 ∙ placed-track placed.0 job.name y.state y'.state e))
Settles-trans job y y' (candidates l, z) p e (q, f) = (Passed-trans p q, f ∙ e)

-- The call of one agent on the pass.
sent-Passed :
    (w : World) (agent : Agent) (job : Job) (y : Sys)
    → let y' = (send_job_to_agent w agent job y).1 in
      Passed job y y' × (y'.state.placed ≡ y.state.placed)
sent-Passed w agent job y =
    let (e, f, g) = send_job_to_agent-Sent w agent job y in
    (record { state = rw e (Same-refl y.state); store = f; calls = g }, ap (λ s. s.placed) e)

track-Passed :
    (id : String) (job : Job) (y : Sys) → Passed job y (on_state (track_placement id job.name) y)
unfolding on_state track_placement
track-Passed id job y = record {
  state = record {
    agents = refl;
    sorted = refl;
    dispatching = refl;
    settled = refl;
    tombstones = refl;
  };
  store = as_before;
  calls = unmoved;
}

pub first_pass-Settles :
    (w : World) (job : Job) (n : ℕ) (seen : List Agent) (y : Sys)
    → Settles job y (first_pass w job n seen y)
unfolding first_pass on_state
first_pass-Settles w job zero seen y =
    (record { state = Same-refl y.state; store = as_before; calls = unmoved }, refl)
first_pass-Settles w job (suc n) seen y =
    let (same, placed) = next_agent-Same y.state in
    let y₁ : Sys = record y { state = (next_agent y.state).1 } in
    let turned : Passed job y y₁ = record { state = same; store = as_before; calls = unmoved } in
    elim (Option-cases (next_agent y.state).0) [
      | inl e ↦ rw (e, first_pass) (turned, placed)
      | inr (agent, e) ↦
          let y₂ = (send_job_to_agent w agent job y₁).1 in
          let (sent, kept) = sent-Passed w agent job y₁ in
          let moved : Passed job y y₂ = Passed-trans turned sent in
          elim (Option-cases (send_job_to_agent w agent job y₁).0) [
            | inl f ↦
                let tracked = placed-track agent.id job.name y.state y₂.state (kept ∙ placed) in
                rw (e, first_pass)
                  (simp f (Passed-trans moved (track-Passed agent.id job y₂), (agent.id, tracked)))
            | inr (err, f) ↦
                let rest = first_pass-Settles w job n (note_candidate err agent seen) y₂ in
                let x = first_pass w job n (note_candidate err agent seen) y₂ in
                rw (e, first_pass) (simp f (Settles-trans job y y₂ x moved (kept ∙ placed) rest))
          ]
    ]

-- Placing an instance counts one more of that job there, and touches no other count.
pub placed_at-track :
    (id name i n : String) (s : LeaderState)
    → placed_at i n (track_placement id name s)
      ≡ (if str_eq id i && str_eq name n then placed_at i n s + 1 else placed_at i n s)
unfolding track_placement placed_at count_at counts_of
placed_at-track id name i n s =
    let counts = or_else (lookup id s.placed) [] in
    let c = or_else (lookup name counts) 0 + 1 in
    let m = insert name c counts in
    ground (
      arith,
      str_eq_iff id i,
      str_eq_iff name n,
      lookup-insert id i m s.placed,
      lookup-insert name n c counts,
    )
