-- ===== src/Leader/State.antt =====
-- internal/leader/leader.go and dispatch.go: the state that the leader's one goroutine owns, and the
-- operations that it runs on it. A sorted agent is held by its id, for the source shares the record
-- with the map of agents. Counts of placed tasks are natural numbers: agents report what they count.
pub mod Registry
pub mod RoundRobin
pub mod Victim
use easyrun.Prelude.{
  ℕ, zero, suc, ◌+◌, ◌-◌, ◌%◌, Bool, true, false, not, ◌&&◌, List, [], ◌∷◌, map, Option, none, some,
  ltb, leb, ◌==◌, if◌then◌else◌, or_else, is_some, length, get_elem?, keep, any,
}
use easyrun.Prelude.Int.{ℤ, pos, ltb_ℤ, max_int}
use easyrun.Prelude.Text.{String, str_eq, str_ltb}
use easyrun.Prelude.Dict.{Dict, lookup, insert, erase, keys, values}
use easyrun.Prelude.Sort.{sort_by}
use easyrun.Types.{Agent, Job}

abbrev pub Counts : Type 0
Counts = Dict ℕ

pub record LeaderState : Type 0 where
  pub agents : Dict Agent
  pub agents_sorted : List String
  pub placed : Dict Counts
  pub dispatching : Dict Bool
  pub settled : Bool
  pub round_robin : ℕ
  pub tombstones : Dict ℕ

-- As the state loop starts, with or without a settle period.
unfoldable pub init : ℕ → LeaderState
init settle_delay = record {
  agents = [];
  agents_sorted = [];
  placed = [];
  dispatching = [];
  settled = settle_delay == 0;
  round_robin = 0;
  tombstones = [];
}

-- The end of the settle period; the reconciliation that it starts is the caller's.
unfoldable pub settle : LeaderState → LeaderState
settle s = record s { settled = true }

unfoldable pub rebuild_sorted_agents : LeaderState → LeaderState
rebuild_sorted_agents s = record s { agents_sorted = sort_by str_ltb (keys s.agents) }

unfoldable pub heartbeat : String → String → ℤ → ℕ → LeaderState → Bool × LeaderState
heartbeat id version temp now s = elim (lookup id s.agents) [
  | none ↦ (false, s)
  | some a ↦
      let a' = record a { last_seen = now; version = version; temp_milli_c = temp } in
      (true, record s { agents = insert id a' s.agents })
]

pub data Registered : Type 0 where
  rejected : Registered
  registered : (reconcile : Bool) → Registered

-- Another agent, heard from within the timeout, holds the id at another endpoint.
unfoldable pub is_duplicate : ℕ → String → ℕ → Option Agent → Bool
is_duplicate timeout endpoint now none = false
is_duplicate timeout endpoint now (some a) =
    not (str_eq a.endpoint endpoint) && ltb (now - a.last_seen) timeout

unfoldable pub new_agent : String → String → String → ℕ → Agent
new_agent id endpoint version now = record {
  id = id;
  endpoint = endpoint;
  version = version;
  last_seen = now;
  temp_milli_c = pos 0;
}

unfoldable pub replace_placed : String → Option Counts → Dict Counts → Dict Counts
replace_placed id none m = erase id m
replace_placed id (some counts) m = insert id counts (erase id m)

-- The first half of `RegisterAgent`.
unfoldable pub register_op :
    ℕ → String → String → String → Option Counts → ℕ → LeaderState → Registered × LeaderState
unfolding new_agent replace_placed rebuild_sorted_agents
register_op timeout id endpoint version placed now s =
    if is_duplicate timeout endpoint now (lookup id s.agents) then (rejected, s) else (
      registered s.settled,
      rebuild_sorted_agents (record s {
        agents = insert id (new_agent id endpoint version now) (erase id s.agents);
        placed = replace_placed id placed s.placed;
      }),
    )

unfoldable pub unregister_op : String → LeaderState → LeaderState
unfolding rebuild_sorted_agents
unregister_op id s =
    rebuild_sorted_agents (record s { agents = erase id s.agents; placed = erase id s.placed })

unfoldable pub is_dead : ℕ → ℕ → Agent → Bool
is_dead timeout now a = ltb timeout (now - a.last_seen)

unfoldable pub dead_ids : ℕ → ℕ → Dict Agent → List String
dead_ids timeout now m = keys (keep (λ e. is_dead timeout now e.1) m)

unfoldable pub erase_all {ℓ} : {V : Type ℓ} → List String → Dict V → Dict V
erase_all [] m = m
erase_all (k ∷ ks) m = erase_all ks (erase k m)

unfoldable pub drop_agents : List String → LeaderState → LeaderState
unfolding rebuild_sorted_agents
drop_agents [] s = s
drop_agents (k ∷ ks) s =
    rebuild_sorted_agents
      (record s { agents = erase_all (k ∷ ks) s.agents; placed = erase_all (k ∷ ks) s.placed })

-- `checkDeadAgents`: before the settle period is over nobody is dead.
unfoldable pub check_dead_op : ℕ → ℕ → LeaderState → List String × LeaderState
check_dead_op timeout now s =
    if s.settled
    then (let dead = dead_ids timeout now s.agents in (dead, drop_agents dead s))
    else ([], s)

unfoldable pub get_agents : LeaderState → List Agent
get_agents s = values s.agents

unfoldable pub get_agent : String → LeaderState → Option Agent
get_agent id s = lookup id s.agents

-- The agent behind a sorted entry.
unfoldable pub resolve : LeaderState → Option String → Option Agent
resolve s none = none
resolve s (some id) = lookup id s.agents

unfoldable pub next_agent : LeaderState → Option Agent × LeaderState
unfolding resolve
next_agent s = if length s.agents_sorted == 0 then (none, s) else (
  resolve s (get_elem? s.agents_sorted (s.round_robin % length s.agents_sorted)),
  record s { round_robin = s.round_robin + 1 },
)

-- What a Go map of counts reads for a key, and the map that an absent agent reads as.
unfoldable pub count_at : String → Counts → ℕ
count_at name m = or_else (lookup name m) 0

unfoldable pub counts_of : String → LeaderState → Counts
counts_of id s = or_else (lookup id s.placed) []

unfoldable pub placed_at : String → String → LeaderState → ℕ
unfolding count_at counts_of
placed_at id name s = count_at name (counts_of id s)

unfoldable pub track_placement : String → String → LeaderState → LeaderState
unfolding placed_at
track_placement id name s = record s {
  placed = insert id (insert name (placed_at id name s + 1) (counts_of id s)) s.placed;
}

-- The decrement of `MarkUnplaced` and of the stops of an update: never below 0.
unfoldable pub unplace : String → String → LeaderState → LeaderState
unfolding placed_at
unplace id name s =
    if ltb 0 (placed_at id name s)
    then record s {
      placed = insert id (insert name (placed_at id name s - 1) (counts_of id s)) s.placed;
    }
    else s

-- `delete(s.placed[id], name)`.
unfoldable pub forget_placement : String → String → LeaderState → LeaderState
forget_placement id name s = elim (lookup id s.placed) [
  | none ↦ s
  | some counts ↦ record s { placed = insert id (erase name counts) s.placed }
]

-- What is placed of a job on the agents that are alive.
unfoldable pub total_on : String → List String → LeaderState → ℕ
total_on name [] s = 0
total_on name (id ∷ ids) s = placed_at id name s + total_on name ids s

unfoldable pub total_placed : String → LeaderState → ℕ
total_placed name s = total_on name (keys s.agents) s

-- A missing priority comes last.
unfoldable pub effective_priority : Option ℤ → ℤ
effective_priority none = pos max_int
effective_priority (some p) = p

unfoldable pub pick_victim : (String → Option Job) → Counts → Option Job × ℤ → Option Job × ℤ
pick_victim find [] best = best
pick_victim find ((name, count) ∷ m) best = pick_victim find m (
    if ltb 0 count
    then elim (find name) [
      | none ↦ best
      | some j ↦
          if ltb_ℤ best.1 (effective_priority j.priority)
          then (some j, effective_priority j.priority)
          else best
    ]
    else best)

unfoldable pub find_victim : (String → Option Job) → String → Option ℤ → LeaderState → Option Job
unfolding effective_priority counts_of
find_victim find id priority s =
    (pick_victim find (counts_of id s) (none, effective_priority priority)).0

unfoldable pub is_dispatching : String → LeaderState → Bool
is_dispatching name s = or_else (lookup name s.dispatching) false

-- The check and the claim are one operation; `true` is a claim.
unfoldable pub lock_job : String → LeaderState → Bool × LeaderState
unfolding is_dispatching
lock_job name s =
    if is_dispatching name s
    then (false, s)
    else (true, record s { dispatching = insert name true s.dispatching })

unfoldable pub unlock_job : String → LeaderState → LeaderState
unlock_job name s = record s { dispatching = erase name s.dispatching }

-- Two minutes.
abbrev pub tombstone_ttl : ℕ
tombstone_ttl = 120000000000

unfoldable pub is_tombstoned : String → ℕ → LeaderState → Bool
is_tombstoned name now s = elim (lookup name s.tombstones) [
  | none ↦ false
  | some t ↦ leb (now - t) tombstone_ttl
]

unfoldable pub lift_tombstone : String → LeaderState → LeaderState
lift_tombstone name s = record s { tombstones = erase name s.tombstones }

unfoldable pub fresh_tombstones : ℕ → Dict ℕ → Dict ℕ
fresh_tombstones now = keep (λ e. not (ltb tombstone_ttl (now - e.1)))

unfoldable pub set_tombstone : String → ℕ → LeaderState → LeaderState
unfolding fresh_tombstones
set_tombstone name now s = record s {
  tombstones = insert name now (fresh_tombstones now s.tombstones);
}
