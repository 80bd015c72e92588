-- ===== src/Runner/Hop.antt =====
-- internal/runner/hopos.go: the runner of HopOS, whose slots are cores. The slot manager of the node
-- is outside: a parameter that says how many cores there are, what runs on a slot, of which class it
-- is, and, where it can, whether a dedicated run of cores can be placed.
pub mod FirstFit
pub mod Lifecycle
pub mod Logged
use easyrun.Prelude.{
  ℕ, zero, suc, ◌+◌, ◌-◌, Bool, true, false, not, ◌&&◌, ◌||◌, Option, none, some, List, [], ◌∷◌,
  ltb, leb, ◌==◌, if◌then◌else◌, or_else, is_some, length, ◌++◌, get_elem?, set, ◌>>=◌,
}
use easyrun.Prelude.Int.{ℤ}
use easyrun.Prelude.Text.{String, str_eq}
use easyrun.Prelude.Dict.{Dict, lookup, insert, erase}
use easyrun.Runner.Logs.{LogBroadcaster, new_log_broadcaster, write}
use easyrun.Runner.Logs.Store.{LogStore, put, retire, stdout}

pub record SlotManager : Type 0 where
  pub num_cores : ℕ
  pub core_on : ℕ → Bool
  pub core_class : ℕ → String
  pub can_place_dedicated : Option (ℕ → ℕ → Bool)

-- Slots by the task that claimed them. `starts` has the tasks whose start this runner began, with
-- whether it was cancelled: the source's `cancels` and `dones`, which come and go together.
pub record HopRunner : Type 0 where
  pub slots : Dict ℕ
  pub in_use : List (ℕ × String)
  pub fault_logged : Dict Bool
  pub stopping : Dict Bool
  pub starts : Dict Bool
  pub armed : Dict Bool
  pub logs : LogStore

unfoldable pub owner_of : ℕ → List (ℕ × String) → Option String
owner_of c [] = none
owner_of c ((d, id) ∷ m) = if d == c then some id else owner_of c m

unfoldable pub set_owner : ℕ → String → List (ℕ × String) → List (ℕ × String)
set_owner c id [] = (c, id) ∷ []
set_owner c id ((d, j) ∷ m) = if d == c then (c, id) ∷ m else (d, j) ∷ set_owner c id m

unfoldable pub disown : String → List (ℕ × String) → List (ℕ × String)
disown id [] = []
disown id ((d, j) ∷ m) = if str_eq j id then disown id m else (d, j) ∷ disown id m

-- A map of flags, as Go reads it: false where there is no entry.
unfoldable pub flag : String → Dict Bool → Bool
flag id m = or_else (lookup id m) false

pub data Allocation : Type 0 where
  slot_found : ℕ → Allocation
  no_capacity out_of_fuel : Allocation

module _ (sm : SlotManager) where
  unfoldable pub cage_free : String → Bool → List (ℕ × String) → ℕ → Bool
  cage_free class shared in_use c =
      not (is_some (owner_of c in_use))
      && not (sm.core_on c)
      && (shared || str_eq class "" || str_eq (sm.core_class c) class)

  unfoldable pub cages_free : String → Bool → List (ℕ × String) → ℕ → ℕ → Bool
  unfolding cage_free
  cages_free class shared in_use slot zero = true
  cages_free class shared in_use slot (suc n) =
      cage_free class shared in_use slot && cages_free class shared in_use (suc slot) n

  -- Whether the slot manager lets a dedicated run of cores stand there; it is asked of physical ones.
  unfoldable pub placeable : Bool → ℕ → ℕ → Bool
  placeable shared cores slot =
      if not shared && leb (slot + cores - 1) sm.num_cores
      then (elim sm.can_place_dedicated [ none ↦ true | some can ↦ can slot cores ])
      else true

  unfoldable pub first_slot : Bool → ℕ
  first_slot shared = if shared then sm.num_cores + 1 else 1

  -- `none` is the source's -1, no limit.
  unfoldable pub slot_limit : String → Bool → ℕ → Option ℕ
  slot_limit class shared cores =
      if shared
      then none
      else if not (str_eq class "") || ltb 1 cores
      then some sm.num_cores
      else none

  unfoldable pub within : Option ℕ → ℕ → ℕ → Bool
  within none cores slot = true
  within (some limit) cores slot = leb (slot + cores - 1) limit

  unfoldable pub fits : String → Bool → List (ℕ × String) → ℕ → ℕ → Bool
  unfolding placeable cages_free
  fits class shared in_use cores slot =
      placeable shared cores slot && cages_free class shared in_use slot cores

  unfoldable pub search_slot : String → Bool → List (ℕ × String) → Option ℕ → ℕ → ℕ → ℕ → Allocation
  unfolding within fits
  search_slot class shared in_use limit cores slot zero = out_of_fuel
  search_slot class shared in_use limit cores slot (suc fuel) =
      let later = search_slot class shared in_use limit cores (suc slot) fuel in
      if not (within limit cores slot)
      then no_capacity
      else if fits class shared in_use cores slot
      then slot_found slot
      else later

  unfoldable pub allocate_slot : ℕ → String → ℕ → Bool → HopRunner → Allocation
  unfolding first_slot slot_limit search_slot
  allocate_slot fuel class cores shared r =
      search_slot class shared r.in_use (slot_limit class shared cores) cores (first_slot shared)
        fuel
