-- ===== src/Leader/Reconcile/Daemon.antt =====
-- A daemon has one instance on an agent at most, whatever the reconciliations meet.
use easyrun.Prelude.{
  ℕ, ◌+◌, ◌≡◌, ◌≢◌, ◌⊎◌, refl, sym, ap, subst, ◌∙◌, inl, inr, ◌&&◌, List, [], ◌∷◌, arith,
  Bool-cases, Option-cases, All, length, ◌==◌,
}
use easyrun.Prelude.Text.{String, str_eq, str_eq_iff}
use easyrun.Types.{Agent, Job}
use easyrun.Leader.State.{LeaderState, placed_at, counts_of, track_placement, lock_job, unlock_job}
use easyrun.Leader.System.{World, Sys, on_state, emit, send_job_to_agent, claim_job}
use easyrun.Leader.Dispatch.Frame.{send_job_to_agent-Sent, placed_at-track}
use easyrun.Leader.Reconcile.{lacking, send_to_all, report_daemon, reconcile_daemon}

abbrev pub HasOther : String → List Agent → Type 0
HasOther id = All (λ b. b.id ≢ id)

-- No two agents of the list have one id.
abbrev pub Distinct : List Agent → Type 0
Distinct [] = Unit
Distinct (a ∷ more) = HasOther a.id more × Distinct more

abbrev IsOf : String → List Agent → Type 0
IsOf id [] = ⊥
IsOf id (a ∷ more) = (a.id ≡ id) ⊎ IsOf id more

-- The count of a job on an agent more it was, or one more for this job on one of the agents.
abbrev OneMore : String → List Agent → LeaderState → LeaderState → String → String → Type 0
OneMore name more s s' i n =
    (placed_at i n s' ≡ placed_at i n s)
    ⊎ ((n ≡ name) × IsOf i more × (placed_at i n s' ≡ placed_at i n s + 1))

sent-state :
    (w : World) (agent : Agent) (job : Job) (y : Sys)
    → (send_job_to_agent w agent job y).1.state ≡ y.state
sent-state w agent job y = (send_job_to_agent-Sent w agent job y).0

send_to_all-elsewhere :
    (w : World) (job : Job) (more : List Agent) (y : Sys) (i n : String)
    → HasOther i more
    → placed_at i n (send_to_all w job more y).1.state ≡ placed_at i n y.state
unfolding send_to_all on_state
send_to_all-elsewhere w job [] y i n h = refl
send_to_all-elsewhere w job (a ∷ more) y i n h =
    let y₁ = (send_job_to_agent w a job y).1 in
    let y₂ = on_state (track_placement a.id job.name) y₁ in
    let same : placed_at i n y₁.state ≡ placed_at i n y.state =
      ap (placed_at i n) (sent-state w a job y) in
    elim (Option-cases (send_job_to_agent w a job y).0) [
      | inr (e, f) ↦ rw (f, send_to_all) (send_to_all-elsewhere w job more y₁ i n h.1 ∙ same)
      | inl f ↦
          let tracked : placed_at i n y₂.state ≡ placed_at i n y₁.state =
            ground (arith, placed_at-track a.id job.name i n y₁.state, str_eq_iff a.id i, h.0) in
          rw (f, send_to_all) (send_to_all-elsewhere w job more y₂ i n h.1 ∙ tracked ∙ same)
    ]

weaken :
    (name : String) (a : Agent) (more : List Agent) (s s₁ s' : LeaderState) (i n : String)
    → placed_at i n s₁ ≡ placed_at i n s
    → OneMore name more s₁ s' i n
    → OneMore name (a ∷ more) s s' i n
weaken name a more s s₁ s' i n e (inl f) = inl (f ∙ e)
weaken name a more s s₁ s' i n e (inr (here, of, f)) = inr (here, inr of, f ∙ ap (λ k. k + 1) e)

send_to_all-OneMore :
    (w : World) (job : Job) (more : List Agent) (y : Sys) (i n : String)
    → Distinct more
    → OneMore job.name more y.state (send_to_all w job more y).1.state i n
unfolding send_to_all on_state
send_to_all-OneMore w job [] y i n h = inl refl
send_to_all-OneMore w job (a ∷ more) y i n h =
    let y₁ = (send_job_to_agent w a job y).1 in
    let y₂ = on_state (track_placement a.id job.name) y₁ in
    let same : placed_at i n y₁.state ≡ placed_at i n y.state =
      ap (placed_at i n) (sent-state w a job y) in
    elim (Option-cases (send_job_to_agent w a job y).0) [
      | inr (e, f) ↦
          let rest = send_to_all-OneMore w job more y₁ i n h.1 in
          rw (f, send_to_all)
            (weaken job.name a more y.state y₁.state (send_to_all w job more y₁).1.state i n same
              rest)
      | inl f ↦ elim (Bool-cases (str_eq a.id i && str_eq job.name n)) [
        | inr other ↦
            let tracked : placed_at i n y₂.state ≡ placed_at i n y₁.state =
              placed_at-track a.id job.name i n y₁.state ∙ (simp other) in
            let rest = send_to_all-OneMore w job more y₂ i n h.1 in
            rw (f, send_to_all)
              (weaken job.name a more y.state y₂.state (send_to_all w job more y₂).1.state i n
                (tracked ∙ same) rest)
        | inl here ↦
            let id_is : a.id ≡ i = ground (arith, str_eq_iff a.id i, here) in
            let name_is : job.name ≡ n = ground (arith, str_eq_iff job.name n, here) in
            let tracked : placed_at i n y₂.state ≡ placed_at i n y₁.state + 1 =
              placed_at-track a.id job.name i n y₁.state ∙ (simp here) in
            let others : HasOther i more = subst (λ k. HasOther k more) id_is h.0 in
            let rest = send_to_all-elsewhere w job more y₂ i n others in
            rw (f, send_to_all)
              (inr (sym name_is, inl id_is, rest ∙ tracked ∙ ap (λ k. k + 1) same))
      ]
    ]

lacking-none :
    (name i : String) (s : LeaderState) (l : List Agent)
    → IsOf i (lacking name s l)
    → placed_at i name s ≡ 0
unfolding lacking
lacking-none name i s [] h = absurd h
lacking-none name i s (a ∷ l) h = elim (Bool-cases (placed_at a.id name s == 0)) [
  | inr e ↦ lacking-none name i s l (simp e at h)
  | inl e ↦ first (ground arith) (simp e at h) (λ rest. lacking-none name i s l rest)
]
  where
    first :
        placed_at a.id name s ≡ 0
        → (a.id ≡ i) ⊎ IsOf i (lacking name s l)
        → (IsOf i (lacking name s l) → placed_at i name s ≡ 0)
        → placed_at i name s ≡ 0
    first e (inl same) next = subst (λ k. placed_at k name s ≡ 0) same e
    first e (inr rest) next = next rest

HasOther-lacking :
    (id name : String) (s : LeaderState) (l : List Agent)
    → HasOther id l
    → HasOther id (lacking name s l)
unfolding lacking
HasOther-lacking id name s [] h = tt
HasOther-lacking id name s (a ∷ l) h = elim (Bool-cases (placed_at a.id name s == 0)) [
  | inr e ↦ simp e (HasOther-lacking id name s l h.1)
  | inl e ↦ simp e (h.0, HasOther-lacking id name s l h.1)
]

Distinct-lacking :
    (name : String) (s : LeaderState) (l : List Agent) → Distinct l → Distinct (lacking name s l)
unfolding lacking
Distinct-lacking name s [] h = tt
Distinct-lacking name s (a ∷ l) h = elim (Bool-cases (placed_at a.id name s == 0)) [
  | inr e ↦ simp e (Distinct-lacking name s l h.1)
  | inl e ↦ simp e (HasOther-lacking a.id name s l h.0, Distinct-lacking name s l h.1)
]

placed_at-claim :
    (w : World) (name i n : String) (y : Sys)
    → placed_at i n (claim_job w name y).1.state ≡ placed_at i n y.state
unfolding claim_job lock_job placed_at counts_of
placed_at-claim w name i n y = ground arith

placed_at-unlock :
    (name i n : String) (s : LeaderState) → placed_at i n (unlock_job name s) ≡ placed_at i n s
unfolding unlock_job placed_at counts_of
placed_at-unlock name i n s = refl

report_daemon-state :
    (job : Job) (missing : ℕ) (x : ℕ × Sys) → (report_daemon job missing x).1.state ≡ x.1.state
unfolding report_daemon emit
report_daemon-state job missing (k, y) = ground arith

-- A reconciliation of a daemon over agents of distinct ids changes no count but this job's on an
-- agent that had none of it, and makes that count one: no agent gets a second instance.
pub reconcile_daemon-once :
    (w : World) (job : Job) (agents : List Agent) (y : Sys) (i n : String)
    → Distinct agents
    → let s' = (reconcile_daemon w job agents y).1.state in
      (placed_at i n s' ≡ placed_at i n y.state)
      ⊎ ((n ≡ job.name) × (placed_at i n y.state ≡ 0) × (placed_at i n s' ≡ 1))
unfolding reconcile_daemon on_state
reconcile_daemon-once w job agents y i n distinct =
    let y₁ = (claim_job w job.name y).1 in
    let missing = lacking job.name y₁.state agents in
    let kept = placed_at-claim w job.name i n y in
    let sent = send_to_all w job missing y₁ in
    let after : placed_at i n
          (unlock_job job.name (report_daemon job (length missing) sent).1.state)
        ≡ placed_at i n sent.1.state =
      placed_at-unlock job.name i n (report_daemon job (length missing) sent).1.state
      ∙ ap (placed_at i n) (report_daemon-state job (length missing) sent) in
    elim (Bool-cases (claim_job w job.name y).0) [
      | inr e ↦ rw (e, reconcile_daemon) (inl kept)
      | inl e ↦
          let outcome =
            send_to_all-OneMore w job missing y₁ i n
              (Distinct-lacking job.name y₁.state agents distinct) in
          rw (e, reconcile_daemon)
            (elim outcome [
              | inl f ↦ inl (after ∙ f ∙ kept)
              | inr (named, of, f) ↦
                  let none_there = lacking-none job.name i y₁.state agents of in
                  let zero_here : placed_at i n y₁.state ≡ 0 =
                    ap (λ k. placed_at i k y₁.state) named ∙ none_there in
                  inr (named, sym kept ∙ zero_here, after ∙ f ∙ ap (λ k. k + 1) zero_here)
            ])
    ]
