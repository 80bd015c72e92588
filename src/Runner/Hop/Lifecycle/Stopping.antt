-- ===== src/Runner/Hop/Lifecycle/Stopping.antt =====
-- Stop of internal/runner/hopos.go: what it stops, what it frees, and what it keeps claimed.
use easyrun.Prelude.{
  ℕ, Bool, ◌≡◌, ◌≢◌, ◌⊎◌, if◌then◌else◌, true, false, not, ◌||◌, Option, none, some, List, [], ◌∷◌,
  is_some, All,
}
use easyrun.Prelude.Text.{String}
use easyrun.Prelude.Dict.{lookup}
use easyrun.Runner.Hop.{HopRunner, owner_of, flag}
use easyrun.Runner.Hop.Lifecycle.{
  cancel_start, begin_stop, StopWorld, StopResult, not_ours, released, quarantined, stop_failed,
}
use easyrun.Runner.Hop.Lifecycle.Ownership.{Owns}

abbrev pub Owned : HopRunner → String → List ℕ → Type 0
Owned r id calls = All (λ c. owner_of c r.in_use ≡ some id) calls

-- The state from which the stop goes on, once the download has wound down or the wait for it is over.
abbrev pub waited : StopWorld → String → HopRunner → HopRunner
waited w id r = w.during (cancel_start id r)

-- Whether an app may run on the task's slot: it was adopted, or the start that is under way has placed
-- it there by the end of the wait.
abbrev pub may_run : StopWorld → String → HopRunner → Bool
may_run w id r =
    not (is_some (lookup id r.starts)) || flag id (waited w id (begin_stop id r).1).armed

abbrev pub slot_list : Option ℕ → List ℕ
slot_list none = []
slot_list (some slot) = slot ∷ []

-- The slot manager is told to stop the task's slot exactly where an app may run there.
abbrev pub Told : StopWorld → String → HopRunner → List ℕ → Type 0
Told w id r calls = calls ≡ (if may_run w id r then slot_list (lookup id r.slots) else [])

-- Meanwhile the slot stays with the task, or a start of it that is under way gives it up, with its
-- mark of what it has placed.
abbrev pub Lingers : StopWorld → String → HopRunner → Type 0
Lingers w id r =
    (slot : ℕ)
    → lookup id r.slots ≡ some slot
    → (lookup id (waited w id (begin_stop id r).1).slots ≡ some slot)
      ⊎ ((is_some (lookup id r.starts) ≡ true)
          × (flag id (waited w id (begin_stop id r).1).armed ≡ false))

abbrev pub StopOutcome : StopWorld → String → HopRunner → StopResult × List ℕ × HopRunner → Type 0
StopOutcome w id r (not_ours, calls, r') = (lookup id r.slots ≡ none) × (calls ≡ []) × (r' ≡ r)
StopOutcome w id r (released, calls, r') =
    Owned (waited w id (begin_stop id r).1) id calls
    × Told w id r calls
    × Owns r'
    × (lookup id r'.slots ≡ none)
    × ((c : ℕ) → owner_of c r'.in_use ≢ some id)
StopOutcome w id r (quarantined, calls, r') =
    (calls ≡ []) × (r' ≡ waited w id (begin_stop id r).1) × Owns r'
StopOutcome w id r (stop_failed, calls, r') =
    Owned (waited w id (begin_stop id r).1) id calls
    × Told w id r calls
    × (r' ≡ waited w id (begin_stop id r).1)
    × Owns r'
