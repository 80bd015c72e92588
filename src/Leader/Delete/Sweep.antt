-- ===== src/Leader/Delete/Sweep.antt =====
-- A deleted job against the dispatches that were under way, and against a new submission.
use easyrun.Prelude.{
  ℕ, zero, suc, ◌+◌, ◌≤◌, ◌<◌, ◌≡◌, refl, ap, ◌∙◌, inl, inr, Bool, true, false, List, [], ◌∷◌, none,
  some, arith, Option-cases, is_some,
}
use easyrun.Prelude.Text.{String}
use easyrun.Prelude.Dict.{lookup-erase_self}
use easyrun.Types.{Agent, Job}
use easyrun.Node.State.{AgentState}
use easyrun.Node.Store.{get_job, delete_job}
use easyrun.Leader.State.{get_agents, set_tombstone}
use easyrun.Leader.System.{World, Sys, on_state, on_store, delete_task_on_agent, emit}
use easyrun.Leader.Update.{placed_agents, clear_placements}
use easyrun.Leader.Delete.{
  Others, delete_on_all, has_tombstone, sweep, after_sweep, delete_job_by_name,
}

-- What dispatches under way may do to a deleted job: as long as they bring it back only in rounds
-- before `m`, the tombstone stays, and the leader is not stopped.
pub record Straggles (name : String) (m : ℕ) (others : Others) : Type 0 where
  pub keeps_tombstone : (k : ℕ) (y : Sys) → has_tombstone name (others.during k y).state ≡ true
  pub runs : (k : ℕ) → others.done k ≡ false
  pub ends :
      (k : ℕ) (y : Sys)
      → m ≤ k
      → get_job name y.store ≡ none
      → get_job name (others.during k y).store ≡ none

delete_on_all-store :
    (name : String) (l : List Agent) (y : Sys) → (delete_on_all name l y).store ≡ y.store
unfolding delete_on_all delete_task_on_agent emit
delete_on_all-store name [] y = refl
delete_on_all-store name (a ∷ l) y = delete_on_all-store name l (delete_task_on_agent a name y)

deleted : (name : String) (now : ℕ) (s : AgentState) → get_job name (delete_job name now s) ≡ none
unfolding get_job delete_job
deleted name now s = lookup-erase_self name s.jobs

sweep-gone :
    (w : World) (others : Others) (name : String) (m k tries : ℕ) (y : Sys)
    → Straggles name m others
    → m < k + tries
    → has_tombstone name y.state ≡ true
    → (m < k → get_job name y.store ≡ none)
    → get_job name (sweep w others name k tries y).1.store ≡ none
unfolding sweep on_store
sweep-gone w others name m k zero y late in_time stone gone = gone (omega arith)
sweep-gone w others name m k (suc tries) y late in_time stone gone =
    let y₁ = on_store (delete_job name (w.now y.trace)) y in
    let y₂ = delete_on_all name (get_agents y.state) y₁ in
    let y₃ = others.during k y₂ in
    let away : get_job name y₂.store ≡ none =
      ap (get_job name) (delete_on_all-store name (get_agents y.state) y₁)
      ∙ deleted name (w.now y.trace) y.store in
    elim (Option-cases (get_job name y.store)) [
      | inl e ↦ simp (stone, e)
      | inr (j, e) ↦
          simp (stone, e, late.runs k)
            (sweep-gone w others name m (k + 1) tries y₃ late (omega arith)
              (late.keeps_tombstone k y₂) (λ h. late.ends k y₂ (omega arith) away))
    ]

sweep-lifted :
    (w : World) (others : Others) (name : String) (k tries : ℕ) (y : Sys)
    → has_tombstone name y.state ≡ false
    → sweep w others name k (suc tries) y ≡ (false, y)
unfolding sweep
sweep-lifted w others name k tries y h = simp h

after_sweep-store : (name : String) (x : Bool × Sys) → (after_sweep name x).store ≡ x.1.store
unfolding after_sweep emit on_state
after_sweep-store name (true, y) = refl
after_sweep-store name (false, y) = refl

-- A job that is deleted is not in the store afterwards, even if dispatches under way bring it back
-- during the deletion itself and during the first two sweeps after it, as long as nobody lifts its
-- tombstone and the leader is not stopped.
pub delete_job_by_name-gone :
    (w : World) (others : Others) (name : String) (y : Sys)
    → Straggles name 3 others
    → get_job name (delete_job_by_name w others name y).store ≡ none
unfolding delete_job_by_name
delete_job_by_name-gone w others name y late = elim (Option-cases (get_job name y.store)) [
  | inl e ↦ simp e
  | inr (j, e) ↦
      let y₁ = on_state (set_tombstone name (w.now y.trace)) y in
      let y₂ = on_store (delete_job name (w.now y.trace)) y₁ in
      let agents = placed_agents name y₂.state.placed y₂.state.agents in
      let y₃ = delete_on_all name agents (on_state (clear_placements name) y₂) in
      let y₄ = others.during 0 y₃ in
      let swept =
        sweep-gone w others name 3 1 3 y₄ late (omega arith) (late.keeps_tombstone 0 y₃)
          (λ h. absurd (omega arith)) in
      simp e (ap (get_job name) (after_sweep-store name (sweep w others name 1 3 y₄)) ∙ swept)
]

-- A job that is submitted again while its old one is being deleted stays: where the others lift the
-- tombstone and store the new job during the deletion, that job is in the store afterwards.
pub delete_job_by_name-resubmitted :
    (w : World) (others : Others) (name : String) (job : Job) (y : Sys)
    → is_some (get_job name y.store) ≡ true
    → ((z : Sys) → has_tombstone name (others.during 0 z).state ≡ false)
    → ((z : Sys) → get_job name (others.during 0 z).store ≡ some job)
    → get_job name (delete_job_by_name w others name y).store ≡ some job
unfolding delete_job_by_name
delete_job_by_name-resubmitted w others name job y here lifted stored =
    let y₁ = on_state (set_tombstone name (w.now y.trace)) y in
    let y₂ = on_store (delete_job name (w.now y.trace)) y₁ in
    let agents = placed_agents name y₂.state.placed y₂.state.agents in
    let y₃ = delete_on_all name agents (on_state (clear_placements name) y₂) in
    let y₄ = others.during 0 y₃ in
    simp here (
      ap (get_job name) (after_sweep-store name (sweep w others name 1 3 y₄))
      ∙ ap (λ x. get_job name x.1.store) (sweep-lifted w others name 1 2 y₄ (lifted y₃))
      ∙ stored y₃)
