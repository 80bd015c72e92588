-- ===== src/Leader/Dispatch.antt =====
-- internal/leader/dispatch.go: finding a place for a job.
pub mod Frame
pub mod Gentle
pub mod Preemption
pub mod Claim
use easyrun.Prelude.{
  ℕ, zero, suc, ◌+◌, Bool, true, false, not, List, [], ◌∷◌, ◌++◌, Option, none, some, ltb, ◌==◌,
  if◌then◌else◌, length,
}
use easyrun.Prelude.Int.{ℤ, pos, negsuc}
use easyrun.Prelude.Text.{String}
use easyrun.Types.{Agent, Job}
use easyrun.Node.Store.{get_job}
use easyrun.Leader.State.{
  next_agent, track_placement, forget_placement, find_victim, lock_job, unlock_job,
}
use easyrun.Leader.System.{
  World, Sys, Topic, of_job, notified, SendError, no_capacity, affinity_mismatch, refused, on_state,
  emit, send_job_to_agent, stop_tasks_on_agent,
}

-- `full` is the error that wraps errNoCapacity; `all_rejected` and `name_required` are a daemon's and
-- that of a job without a name.
pub data DispatchError : Type 0 where
  no_agents full unplaced all_rejected name_required : DispatchError

-- What the first pass comes to: the job found a place, or these agents had no room for it.
pub data Pass : Type 0 where
  found : Pass
  candidates : List Agent → Pass

unfoldable pub is_no_capacity : SendError → Bool
is_no_capacity no_capacity = true
is_no_capacity _ = false

unfoldable pub note_candidate : SendError → Agent → List Agent → List Agent
note_candidate e agent seen = if is_no_capacity e then seen ++ agent ∷ [] else seen

-- One agent after the other, `n` at most.
unfoldable pub first_pass : World → Job → ℕ → List Agent → Sys → Pass × Sys
first_pass w job zero seen y = (candidates seen, y)
first_pass w job (suc n) seen y =
    let (next, state) = next_agent y.state in
    let y₁ : Sys = record y { state = state } in
    elim next [
      | none ↦ (candidates seen, y₁)
      | some agent ↦
          let (err, y₂) = send_job_to_agent w agent job y₁ in
          elim err [
            | none ↦ (found, on_state (track_placement agent.id job.name) y₂)
            | some e ↦ first_pass w job n (note_candidate e agent seen) y₂
          ]
    ]

-- What evicting a victim from an agent comes to.
unfoldable pub preempt_on : World → Job → Agent → Job → Sys → Bool × Sys
preempt_on w job agent victim y =
    let (stopped, y₁) = stop_tasks_on_agent w agent victim.name y in
    if not stopped
    then (false, y₁)
    else (let (err, y₂) =
          send_job_to_agent w agent job (on_state (forget_placement agent.id victim.name) y₁) in
        elim err [
          | none ↦ (
            true,
            emit (notified (of_job victim.name)) (on_state (track_placement agent.id job.name) y₂),
          )
          | some e ↦ (false, y₂)
        ])

unfoldable pub preempt : World → Job → List Agent → Sys → Bool × Sys
preempt w job [] y = (false, y)
preempt w job (agent ∷ rest) y =
    elim (find_victim (λ n. get_job n y.store) agent.id job.priority y.state) [
      | none ↦ preempt w job rest y
      | some victim ↦
          let (placed, y') = preempt_on w job agent victim y in
          elim placed [ true ↦ (true, y') | false ↦ preempt w job rest y' ]
    ]

unfoldable pub or_unplaced : Bool × Sys → Option DispatchError × Sys
or_unplaced (true, y) = (none, y)
or_unplaced (false, y) = (some unplaced, y)

unfoldable pub after_pass : World → Job → Bool → Pass × Sys → Option DispatchError × Sys
unfolding or_unplaced
after_pass w job allow_preempt (found, y) = (none, y)
after_pass w job false (candidates [], y) = (some unplaced, y)
after_pass w job false (candidates (a ∷ rest), y) = (some full, y)
after_pass w job true (candidates agents, y) = or_unplaced (preempt w job agents y)

unfoldable pub dispatch_job : World → Job → Bool → Sys → Option DispatchError × Sys
unfolding after_pass
dispatch_job w job allow_preempt y =
    let count = length y.state.agents in
    if count == 0
    then (some no_agents, y)
    else after_pass w job allow_preempt (first_pass w job count [] y)

unfoldable pub dispatch_to_available_agent : World → Job → Sys → Option DispatchError × Sys
dispatch_to_available_agent w job y = dispatch_job w job true y

unfoldable pub dispatch_without_preemption : World → Job → Sys → Option DispatchError × Sys
dispatch_without_preemption w job y = dispatch_job w job false y

-- How many instances a count asks for: one, unless it is positive.
unfoldable pub wanted : ℤ → ℕ
wanted (pos zero) = 1
wanted (pos (suc n)) = suc n
wanted (negsuc n) = 1

unfoldable pub dispatch_times : World → Job → ℕ → Sys → Option DispatchError × Sys
dispatch_times w job zero y = (none, y)
dispatch_times w job (suc n) y =
    let (err, y') = dispatch_to_available_agent w job y in
    elim err [ none ↦ dispatch_times w job n y' | some e ↦ (some e, y') ]

unfoldable pub dispatch_claimed : World → Job → ℕ → Bool × Sys → Option DispatchError × Sys
dispatch_claimed w job n (false, y) = (none, y)
dispatch_claimed w job n (true, y) =
    let (err, y') = dispatch_times w job n y in (err, on_state (unlock_job job.name) y')

unfoldable pub dispatch_instances : World → Job → ℤ → Sys → Option DispatchError × Sys
unfolding dispatch_claimed
dispatch_instances w job count y =
    let (claimed, state) = lock_job job.name y.state in
    dispatch_claimed w job (wanted count) (claimed, record y { state = state })
