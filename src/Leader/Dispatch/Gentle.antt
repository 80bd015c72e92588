-- ===== src/Leader/Dispatch/Gentle.antt =====
-- dispatchJob without its second pass, as an update dispatches, and any dispatch of a deleted job.
use easyrun.Prelude.{
  ℕ, zero, suc, ◌+◌, ◌≡◌, refl, ap, ◌∙◌, Bool, true, false, ◌&&◌, [], ◌∷◌, Option, none, some,
  if◌then◌else◌, length, ◌==◌, Bool-cases, Option-cases, inl, inr,
}
use easyrun.Prelude.Text.{String, str_eq}
use easyrun.Types.{Agent, Job}
use easyrun.Leader.State.{
  LeaderState, next_agent, placed_at, is_tombstoned, counts_of, track_placement,
}
use easyrun.Leader.System.{World, Sys, unmoved, refused, send_run_to_agent, send_job_to_agent}
use easyrun.Leader.System.Own.{as_before}
use easyrun.Leader.Dispatch.{
  Pass, found, candidates, first_pass, note_candidate, is_no_capacity, DispatchError, after_pass,
  or_unplaced, preempt, dispatch_job, dispatch_without_preemption,
}
use easyrun.Leader.Dispatch.Frame.{
  Same, Same-refl, next_agent-Same, Passed, Settles, first_pass-Settles, placed_at-track,
}

-- The counts after one more instance of a job on an agent, and the same counts.
abbrev pub CountsOneMore : String → LeaderState → LeaderState → Type 0
CountsOneMore name s s' =
    (id : String) × ((i n : String)
      → placed_at i n s'
        ≡ (if str_eq id i && str_eq name n then placed_at i n s + 1 else placed_at i n s))

abbrev pub CountsAlike : LeaderState → LeaderState → Type 0
CountsAlike s s' = (i n : String) → placed_at i n s' ≡ placed_at i n s

abbrev pub Gentle : Job → Sys → Option DispatchError × Sys → Type 0
Gentle job y (none, y') = Passed job y y' × CountsOneMore job.name y.state y'.state
Gentle job y (some e, y') = Passed job y y' × CountsAlike y.state y'.state

placed_at-placed :
    (i n : String) (s s' : LeaderState) → s'.placed ≡ s.placed → placed_at i n s' ≡ placed_at i n s
unfolding placed_at counts_of
placed_at-placed i n s s' e = rw e refl

after_pass-Gentle :
    (w : World) (job : Job) (y : Sys) (x : Pass × Sys)
    → Settles job y x
    → Gentle job y (after_pass w job false x)
unfolding after_pass
after_pass-Gentle w job y (found, y') (p, placed) = (
  p,
  (
    placed.0,
    λ i n.
        placed_at-placed i n (track_placement placed.0 job.name y.state) y'.state placed.1
        ∙ placed_at-track placed.0 job.name i n y.state,
  ),
)
after_pass-Gentle w job y (candidates [], y') (p, e) =
    (p, λ i n. placed_at-placed i n y.state y'.state e)
after_pass-Gentle w job y (candidates (a ∷ l), y') (p, e) =
    (p, λ i n. placed_at-placed i n y.state y'.state e)

-- A dispatch without preemption starts this job beside what runs, and makes no other call: it
-- stops nothing. It leaves the leader's state as it was but for the turn and the placements, and the
-- jobs of the store but for this one, which the leader's own node registers again as it prepares it
-- for its driver when it is asked to start it. Where it succeeds there is one agent on which one more instance of the job is
-- counted, and no other count changes; where it fails no count changes at all.
pub dispatch_without_preemption_lem :
    (w : World) (job : Job) (y : Sys) → Gentle job y (dispatch_without_preemption w job y)
unfolding dispatch_without_preemption dispatch_job
dispatch_without_preemption_lem w job y = elim (Bool-cases (length y.state.agents == 0)) [
  | inl e ↦
      simp e (record { state = Same-refl y.state; store = as_before; calls = unmoved }, λ i n. refl)
  | inr e ↦
      let n = length y.state.agents in
      simp e (after_pass-Gentle w job y (first_pass w job n [] y) (first_pass-Settles w job n [] y))
]

-- The turn may have passed on, and nothing else has changed.
abbrev pub OnlyTurned : Sys → Sys → Type 0
OnlyTurned y y' = (k : ℕ) × (y' ≡ record y { state = record y.state { round_robin = k } })

abbrev pub Refuses : Sys → Option DispatchError × Sys → Type 0
Refuses y (none, y') = ⊥
Refuses y (some e, y') = OnlyTurned y y'

abbrev RefusesPass : Sys → Pass × Sys → Type 0
RefusesPass y (found, y') = ⊥
RefusesPass y (candidates [], y') = OnlyTurned y y'
RefusesPass y (candidates (a ∷ l), y') = ⊥

send_job_to_agent-refused :
    (w : World) (agent : Agent) (job : Job) (y : Sys)
    → is_tombstoned job.name (w.now y.trace) y.state ≡ true
    → send_job_to_agent w agent job y ≡ (some refused, y)
unfolding send_job_to_agent send_run_to_agent
send_job_to_agent-refused w agent job y e = simp e

next_turn : (s : LeaderState) → (k : ℕ) × ((next_agent s).1 ≡ record s { round_robin = k })
unfolding next_agent
next_turn s = elim (Bool-cases (length s.agents_sorted == 0)) [
  | inl e ↦ (s.round_robin, (simp e refl))
  | inr e ↦ (s.round_robin + 1, (simp e refl))
]

RefusesPass-turned :
    (y y' : Sys) (x : Pass × Sys) → OnlyTurned y y' → RefusesPass y' x → RefusesPass y x
RefusesPass-turned y y' (found, z) turned h = absurd h
RefusesPass-turned y y' (candidates [], z) (k, e) (j, f) = (j, rw e at f)
RefusesPass-turned y y' (candidates (a ∷ l), z) turned h = absurd h

tombstoned-Same :
    (name : String) (now : ℕ) (s s' : LeaderState)
    → Same s s'
    → is_tombstoned name now s ≡ true
    → is_tombstoned name now s' ≡ true
unfolding is_tombstoned
tombstoned-Same name now s s' same h = rw same.tombstones h

first_pass-refuses :
    (w : World) (job : Job) (n : ℕ) (y : Sys)
    → is_tombstoned job.name (w.now y.trace) y.state ≡ true
    → RefusesPass y (first_pass w job n [] y)
unfolding first_pass note_candidate is_no_capacity
first_pass-refuses w job zero y dead = (y.state.round_robin, refl)
first_pass-refuses w job (suc n) y dead =
    let (k, turn) = next_turn y.state in
    let y₁ : Sys = record y { state = (next_agent y.state).1 } in
    let turned : OnlyTurned y y₁ = (k, ap (λ s. record y { state = s }) turn) in
    let dead₁ : is_tombstoned job.name (w.now y₁.trace) y₁.state ≡ true =
      tombstoned-Same job.name (w.now y.trace) y.state y₁.state (next_agent-Same y.state).0 dead in
    elim (Option-cases (next_agent y.state).0) [
      | inl e ↦ rw (e, first_pass) turned
      | inr (agent, e) ↦
          let rest = first_pass-refuses w job n y₁ dead₁ in
          let sent = send_job_to_agent-refused w agent job y₁ dead₁ in
          rw (e, first_pass)
            (rw (ap (λ x. x.0) sent, ap (λ x. x.1) sent)
              (RefusesPass-turned y y₁ (first_pass w job n [] y₁) turned rest))
    ]

after_pass-Refuses :
    (w : World) (job : Job) (allow : Bool) (y : Sys) (x : Pass × Sys)
    → RefusesPass y x
    → Refuses y (after_pass w job allow x)
unfolding after_pass or_unplaced preempt
after_pass-Refuses w job allow y (found, y') h = absurd h
after_pass-Refuses w job allow y (candidates (a ∷ l), y') h = absurd h
after_pass-Refuses w job true y (candidates [], y') h = h
after_pass-Refuses w job false y (candidates [], y') h = h

-- While the name of a job is tombstoned, a dispatch of it fails with an error and makes no call to
-- any agent, whether or not it may preempt: nothing changes but the turn.
pub dispatch_job-tombstoned :
    (w : World) (job : Job) (allow_preempt : Bool) (y : Sys)
    → is_tombstoned job.name (w.now y.trace) y.state ≡ true
    → Refuses y (dispatch_job w job allow_preempt y)
unfolding dispatch_job
dispatch_job-tombstoned w job allow y dead = elim (Bool-cases (length y.state.agents == 0)) [
  | inl e ↦ simp e (y.state.round_robin, refl)
  | inr e ↦
      let n = length y.state.agents in
      simp e (
        after_pass-Refuses w job allow y (first_pass w job n [] y)
          (first_pass-refuses w job n y dead))
]
