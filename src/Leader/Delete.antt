-- ===== src/Leader/Delete.antt =====
-- internal/leader/dispatch.go, DeleteJobByName. While the agents are asked to delete their tasks,
-- other goroutines go on: what they do during each round of calls is a parameter.
pub mod Sweep
use easyrun.Prelude.{
  ℕ, zero, suc, ◌+◌, Bool, true, false, not, ◌||◌, List, [], ◌∷◌, Option, none, some, if◌then◌else◌,
  is_some,
}
use easyrun.Prelude.Text.{String}
use easyrun.Prelude.Dict.{lookup}
use easyrun.Types.{Agent}
use easyrun.Node.Store.{get_job, delete_job}
use easyrun.Leader.State.{LeaderState, get_agents, set_tombstone, unlock_job}
use easyrun.Leader.System.{
  World, Sys, reconcile_spawned, on_state, on_store, emit, delete_task_on_agent,
}
use easyrun.Leader.Update.{placed_agents, clear_placements}

-- What the others do during the round of a number, and whether the leader is stopped after it.
pub record Others : Type 0 where
  pub during : ℕ → Sys → Sys
  pub done : ℕ → Bool

unfoldable pub delete_on_all : String → List Agent → Sys → Sys
delete_on_all name [] y = y
delete_on_all name (a ∷ rest) y = delete_on_all name rest (delete_task_on_agent a name y)

unfoldable pub has_tombstone : String → LeaderState → Bool
has_tombstone name s = is_some (lookup name s.tombstones)

-- At most `tries` rounds, the next of the number `k`; `true` is a stop on the way.
unfoldable pub sweep : World → Others → String → ℕ → ℕ → Sys → Bool × Sys
unfolding has_tombstone
sweep w others name k zero y = (false, y)
sweep w others name k (suc tries) y =
    let y₁ = on_store (delete_job name (w.now y.trace)) y in
    let y₂ = others.during k (delete_on_all name (get_agents y.state) y₁) in
    let rest = sweep w others name (k + 1) tries y₂ in
    if not (has_tombstone name y.state) || not (is_some (get_job name y.store))
    then (false, y)
    else if others.done k
    then (true, y₂)
    else rest

unfoldable pub after_sweep : String → Bool × Sys → Sys
after_sweep name (true, y) = y
after_sweep name (false, y) = emit reconcile_spawned (on_state (unlock_job name) y)

unfoldable pub delete_job_by_name : World → Others → String → Sys → Sys
unfolding after_sweep
delete_job_by_name w others name y =
    if is_some (get_job name y.store)
    then (let y₁ = on_state (set_tombstone name (w.now y.trace)) y in
        let y₂ = on_store (delete_job name (w.now y.trace)) y₁ in
        let agents = placed_agents name y₂.state.placed y₂.state.agents in
        let y₃ = delete_on_all name agents (on_state (clear_placements name) y₂) in
        after_sweep name (sweep w others name 1 3 (others.during 0 y₃)))
    else y
