-- ===== src/Node/Handoff.antt =====
-- internal/agent/handoff.go: the state of an agent that its successor on the same node takes over,
-- with the slots of the tasks. The encoding is outside: a parameter.
pub mod RoundTrip
pub mod Adoption
use easyrun.Prelude.{ℕ, Bool, true, false, Option, none, some, List, [], ◌∷◌, ◌==◌, if◌then◌else◌}
use easyrun.Prelude.Int.{ℤ, pos, ltb_ℤ, eqb_ℤ, quot_int}
use easyrun.Prelude.Text.{String, str_eq}
use easyrun.Prelude.Dict.{Dict, lookup, insert, erase}
use easyrun.Types.{Job, Task}
use easyrun.Node.State.{AgentState}
use easyrun.Runner.Hop.{HopRunner}
use easyrun.Runner.Hop.Lifecycle.{adopt_running}

abbrev pub handoff_version : ℤ
handoff_version = pos 1

-- A null in the blob stands for a nil pointer: `none`.
pub record Handoff : Type 0 where
  pub version : ℤ
  pub jobs : Dict (Option Job)
  pub tasks : Dict (Option Task)

-- Blobs; the source's empty one is `empty`, and a decoding that fails gives none.
pub record Codec (B : Type 0) : Type 0 where
  pub encode : Handoff → Option B
  pub decode : B → Option Handoff
  pub is_empty : B → Bool

pub data RestoreError : Type 0 where
  unreadable other_version : RestoreError

unfoldable pub pointers : {A : Type 0} → Dict A → Dict (Option A)
pointers [] = []
pointers ((k, v) ∷ m) = (k, some v) ∷ pointers m

unfoldable pub snapshot_of : AgentState → Handoff
snapshot_of s = record {
  version = handoff_version;
  jobs = pointers s.jobs;
  tasks = pointers s.tasks;
}

-- The entries that are not nil, each over what stands there.
unfoldable pub take_over : {A : Type 0} → Dict (Option A) → Dict A → Dict A
take_over [] m = m
take_over ((k, none) ∷ ps) m = take_over ps m
take_over ((k, some v) ∷ ps) m = take_over ps (insert k v m)

-- A task that gets its name back is an object of the map again.
unfoldable pub forget_names : {A : Type 0} → Dict (Option A) → Dict A → Dict A
forget_names [] m = m
forget_names ((k, none) ∷ ps) m = forget_names ps m
forget_names ((k, some v) ∷ ps) m = forget_names ps (erase k m)

unfoldable pub restore_state : Handoff → AgentState → AgentState
unfolding take_over forget_names
restore_state h s = record s {
  jobs = take_over h.jobs s.jobs;
  tasks = take_over h.tasks s.tasks;
  gone = forget_names h.tasks s.gone;
}

-- The slots of the tasks, whatever their state, and the cores of those with more than one.
unfoldable pub held_slots : Dict (Option Task) → Dict ℤ
held_slots [] = []
held_slots ((id, none) ∷ ts) = held_slots ts
held_slots ((id, some t) ∷ ts) =
    if ltb_ℤ t.pid (pos 1) then held_slots ts else (id, t.pid) ∷ held_slots ts

unfoldable pub held_cores : Dict (Option Task) → Dict ℤ
held_cores [] = []
held_cores ((id, none) ∷ ts) = held_cores ts
held_cores ((id, some t) ∷ ts) =
    let n = quot_int t.cpu_shares 1024 in
    if ltb_ℤ t.pid (pos 1)
    then held_cores ts
    else if ltb_ℤ (pos 1) n
    then (id, n) ∷ held_cores ts
    else held_cores ts

-- A node of another kind has no runner that adopts.
unfoldable pub adopt : Handoff → Option HopRunner → Option HopRunner
unfolding held_slots held_cores
adopt h none = none
adopt h (some r) = some (adopt_running (held_slots h.tasks) (held_cores h.tasks) r)

abbrev pub Restored : Type 0
Restored = Option RestoreError × AgentState × Option HopRunner

unfoldable pub restore_decoded : Option Handoff → AgentState → Option HopRunner → Restored
unfolding restore_state adopt
restore_decoded none s r = (some unreadable, s, r)
restore_decoded (some h) s r =
    if eqb_ℤ h.version handoff_version
    then (none, restore_state h s, adopt h r)
    else (some other_version, s, r)

module _ {B : Type 0} (codec : Codec B) where
  unfoldable pub snapshot : AgentState → Option B
  unfolding snapshot_of
  snapshot s = codec.encode (snapshot_of s)

  unfoldable pub restore : B → AgentState → Option HopRunner → Restored
  unfolding restore_decoded
  restore b s r = if codec.is_empty b then (none, s, r) else restore_decoded (codec.decode b) s r
