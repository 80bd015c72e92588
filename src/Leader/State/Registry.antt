-- ===== src/Leader/State/Registry.antt =====
-- Which agents the leader knows, and the order that it keeps them in.
use easyrun.Prelude.{
  ℕ, ◌≡◌, ◌≢◌, refl, sym, ◌⊎◌, inl, inr, Bool, true, false, ◌&&◌, List, [], ◌∷◌, Option, none, some,
  arith, if◌then◌else◌, Bool-cases, Option-cases, any,
}
use easyrun.Prelude.Int.{ℤ}
use easyrun.Prelude.Text.{String, str_eq, str_eq_iff, str_ltb}
use easyrun.Prelude.Dict.{
  Dict, lookup, insert, erase, keys, lookup-insert, lookup-erase, lookup-insert_self,
  lookup-erase_self, IsUnique, IsUnique-insert, IsUnique-erase,
}
use easyrun.Prelude.Sort.{sort_by}
use easyrun.Types.{Agent}
use easyrun.Leader.State.{
  LeaderState, Counts, init, settle, rebuild_sorted_agents, heartbeat, rejected, registered,
  is_duplicate, new_agent, replace_placed, register_op, unregister_op, is_dead, dead_ids, erase_all,
  drop_agents, check_dead_op, next_agent, track_placement, unplace, forget_placement, lock_job,
  unlock_job, lift_tombstone, set_tombstone,
}

-- No agent is known twice, and the list that turns go by is the agents' ids in order.
pub IsRegistry : LeaderState → Type 0
IsRegistry s = IsUnique s.agents × (s.agents_sorted ≡ sort_by str_ltb (keys s.agents))

-- One operation of the leader on its state.
pub data Step : LeaderState → LeaderState → Type 0 where
  settled : (s : LeaderState) → Step s (settle s)
  beaten :
      (id version : String) (temp : ℤ) (now : ℕ) (s : LeaderState)
      → Step s (heartbeat id version temp now s).1
  came :
      (timeout : ℕ) (id endpoint version : String) (placed : Option Counts) (now : ℕ)
      (s : LeaderState)
      → Step s (register_op timeout id endpoint version placed now s).1
  left : (id : String) (s : LeaderState) → Step s (unregister_op id s)
  checked : (timeout now : ℕ) (s : LeaderState) → Step s (check_dead_op timeout now s).1
  turned : (s : LeaderState) → Step s (next_agent s).1
  tracked : (id name : String) (s : LeaderState) → Step s (track_placement id name s)
  unplaced : (id name : String) (s : LeaderState) → Step s (unplace id name s)
  forgotten : (id name : String) (s : LeaderState) → Step s (forget_placement id name s)
  locked : (name : String) (s : LeaderState) → Step s (lock_job name s).1
  unlocked : (name : String) (s : LeaderState) → Step s (unlock_job name s)
  lifted : (name : String) (s : LeaderState) → Step s (lift_tombstone name s)
  buried : (name : String) (now : ℕ) (s : LeaderState) → Step s (set_tombstone name now s)

pub data Reach (settle_delay : ℕ) : LeaderState → Type 0 where
  start : Reach settle_delay (init settle_delay)
  after : {s s' : LeaderState} → Reach settle_delay s → Step s s' → Reach settle_delay s'

-- A key that is there keeps its place in the order of the keys.
keys-insert :
    {V : Type 0} (k : String) (v w : V) (m : Dict V)
    → lookup k m ≡ some w
    → keys (insert k v m) ≡ keys m
unfolding lookup insert
keys-insert k v w [] h = absurd (ground arith)
keys-insert k v w ((j, u) ∷ m) h = elim (Bool-cases (str_eq j k)) [
  | inl e ↦ ground (arith, e, str_eq_iff j k)
  | inr e ↦ ground (arith, e, h, keys-insert k v w m)
]

heartbeat-IsRegistry :
    (id version : String) (temp : ℤ) (now : ℕ) (s : LeaderState)
    → IsRegistry s
    → IsRegistry (heartbeat id version temp now s).1
unfolding heartbeat IsRegistry
heartbeat-IsRegistry id version temp now s h = elim (Option-cases (lookup id s.agents)) [
  | inl e ↦ rw (e, heartbeat) h
  | inr (a, e) ↦
      rw (e, heartbeat)
        (
          IsUnique-insert id (record a { last_seen = now; version = version; temp_milli_c = temp })
              s.agents h.0,
          rw
              (keys-insert id (record a { last_seen = now; version = version; temp_milli_c = temp })
                a s.agents e)
              h.1,
        )
]

IsUnique-erase_all : (ks : List String) (m : Dict Agent) → IsUnique m → IsUnique (erase_all ks m)
unfolding erase_all
IsUnique-erase_all [] m h = h
IsUnique-erase_all (k ∷ ks) m h = IsUnique-erase_all ks (erase k m) (IsUnique-erase k m h)

check-IsRegistry :
    (timeout now : ℕ) (s : LeaderState) → IsRegistry s → IsRegistry (check_dead_op timeout now s).1
unfolding check_dead_op IsRegistry drop_agents rebuild_sorted_agents
check-IsRegistry timeout now s h = elim (Bool-cases s.settled) [
  | inr e ↦ simp e h
  | inl e ↦ simp e (dropped (dead_ids timeout now s.agents))
]
  where
    dropped : (ids : List String) → IsRegistry (drop_agents ids s)
    dropped [] = h
    dropped (k ∷ ks) = (IsUnique-erase_all (k ∷ ks) s.agents h.0, refl)

Step-IsRegistry : {s s' : LeaderState} → Step s s' → IsRegistry s → IsRegistry s'
unfolding settle register_op rebuild_sorted_agents unregister_op next_agent track_placement unplace
    forget_placement lock_job unlock_job lift_tombstone set_tombstone IsRegistry
Step-IsRegistry (settled s) h = h
Step-IsRegistry (beaten id version temp now s) h = heartbeat-IsRegistry id version temp now s h
Step-IsRegistry (came timeout id endpoint version placed now s) h =
    elim (Bool-cases (is_duplicate timeout endpoint now (lookup id s.agents))) [
      | inl e ↦ simp e h
      | inr e ↦ simp e (
        IsUnique-insert id (new_agent id endpoint version now) (erase id s.agents)
            (IsUnique-erase id s.agents h.0),
        refl,
      )
    ]
Step-IsRegistry (left id s) h = (IsUnique-erase id s.agents h.0, refl)
Step-IsRegistry (checked timeout now s) h = check-IsRegistry timeout now s h
Step-IsRegistry (turned s) h = ground (arith, h)
Step-IsRegistry (tracked id name s) h = h
Step-IsRegistry (unplaced id name s) h = ground (arith, h)
Step-IsRegistry (forgotten id name s) h = ground (arith, h)
Step-IsRegistry (locked name s) h = ground (arith, h)
Step-IsRegistry (unlocked name s) h = h
Step-IsRegistry (lifted name s) h = h
Step-IsRegistry (buried name now s) h = h

-- In every state that the leader's operations can reach, no agent is known twice, and the list that
-- the turns go by holds exactly the ids of the agents that it knows, in the order of their names.
pub Reach-IsRegistry : {settle_delay : ℕ} {s : LeaderState} → Reach settle_delay s → IsRegistry s
unfolding init IsRegistry sort_by
Reach-IsRegistry start = (tt, refl)
Reach-IsRegistry (after r step) = Step-IsRegistry step (Reach-IsRegistry r)

replaced_here :
    (id : String) (placed : Option Counts) (m : Dict Counts)
    → lookup id (replace_placed id placed m) ≡ placed
unfolding replace_placed
replaced_here id none m = lookup-erase_self id m
replaced_here id (some counts) m = lookup-insert_self id counts (erase id m)

replaced_there :
    (id k : String) (placed : Option Counts) (m : Dict Counts)
    → id ≢ k
    → lookup k (replace_placed id placed m) ≡ lookup k m
unfolding replace_placed
replaced_there id k none m h = ground (arith, str_eq_iff id k, lookup-erase id k m)
replaced_there id k (some counts) m h =
    ground (arith, str_eq_iff id k, lookup-insert id k counts (erase id m), lookup-erase id k m)

-- A registration is refused exactly where an agent of that id is known at another endpoint and was
-- heard from within the timeout; then nothing changes. Otherwise the agent is known at its new
-- endpoint, as heard from now, with the counts that it reports and none from before, and every
-- other agent and its counts are as they were.
pub register_op_lem :
    (timeout : ℕ) (id endpoint version : String) (placed : Option Counts) (now : ℕ)
    (s : LeaderState)
    → let (answer, s') = register_op timeout id endpoint version placed now s in
      ((is_duplicate timeout endpoint now (lookup id s.agents) ≡ true)
        × (answer ≡ rejected)
        × (s' ≡ s))
      ⊎ ((is_duplicate timeout endpoint now (lookup id s.agents) ≡ false)
          × (answer ≡ registered s.settled)
          × (lookup id s'.agents ≡ some (new_agent id endpoint version now))
          × (lookup id s'.placed ≡ placed)
          × ((k : String)
              → k ≢ id
              → (lookup k s'.agents ≡ lookup k s.agents)
                × (lookup k s'.placed ≡ lookup k s.placed)))
unfolding register_op rebuild_sorted_agents
register_op_lem timeout id endpoint version placed now s =
    elim (Bool-cases (is_duplicate timeout endpoint now (lookup id s.agents))) [
      | inl e ↦ simp e (inl (refl, refl, refl))
      | inr e ↦ simp e (inr (refl, refl, lookup-insert_self id _ _, its, others))
    ]
  where
    its : lookup id (replace_placed id placed s.placed) ≡ placed
    its = replaced_here id placed s.placed

    others :
        (k : String)
        → k ≢ id
        → (lookup k (insert id (new_agent id endpoint version now) (erase id s.agents))
            ≡ lookup k s.agents)
          × (lookup k (replace_placed id placed s.placed) ≡ lookup k s.placed)
    others k h = (
      ground (
        arith,
        str_eq_iff id k,
        lookup-insert id k (new_agent id endpoint version now) (erase id s.agents),
        lookup-erase id k s.agents,
      ),
      replaced_there id k placed s.placed (λ e. h (sym e)),
    )

lookup-erase_all :
    {V : Type 0} (k : String) (ks : List String) (m : Dict V)
    → lookup k (erase_all ks m) ≡ (if any (λ j. str_eq j k) ks then none else lookup k m)
unfolding erase_all
lookup-erase_all k [] m = refl
lookup-erase_all k (j ∷ ks) m =
    ground (arith, lookup-erase_all k ks (erase j m), lookup-erase j k m)

lookup-drop_agents :
    (k : String) (ids : List String) (s : LeaderState)
    → (lookup k (drop_agents ids s).agents
        ≡ (if any (λ j. str_eq j k) ids then none else lookup k s.agents))
      × (lookup k (drop_agents ids s).placed
          ≡ (if any (λ j. str_eq j k) ids then none else lookup k s.placed))
unfolding drop_agents rebuild_sorted_agents
lookup-drop_agents k [] s = (refl, refl)
lookup-drop_agents k (j ∷ ids) s =
    (lookup-erase_all k (j ∷ ids) s.agents, lookup-erase_all k (j ∷ ids) s.placed)

-- Whether the agent that stands under an id is dead; one that does not stand there is not.
abbrev pub died : ℕ → ℕ → Option Agent → Bool
died timeout now none = false
died timeout now (some a) = is_dead timeout now a

any-dead_ids :
    (timeout now : ℕ) (k : String) (m : Dict Agent)
    → IsUnique m
    → any (λ j. str_eq j k) (dead_ids timeout now m) ≡ died timeout now (lookup k m)
unfolding dead_ids lookup is_dead
any-dead_ids timeout now k [] h = refl
any-dead_ids timeout now k ((j, a) ∷ m) h =
    ground (arith, str_eq_iff j k, h.0, h.1, any-dead_ids timeout now k m h.1)

-- The check for dead agents: once the leader has settled, it removes an agent and all that is
-- counted on it exactly where the agent was last heard from longer ago than the timeout, and
-- leaves every other agent and its counts as they were. Before that it changes nothing.
pub check_dead_op_lem :
    (timeout now : ℕ) (s : LeaderState) (k : String)
    → IsUnique s.agents
    → let s' = (check_dead_op timeout now s).1 in
      let gone = s.settled && died timeout now (lookup k s.agents) in
      (lookup k s'.agents ≡ (if gone then none else lookup k s.agents))
      × (lookup k s'.placed ≡ (if gone then none else lookup k s.placed))
unfolding check_dead_op
check_dead_op_lem timeout now s k unique = elim (Bool-cases s.settled) [
  | inr e ↦ simp e (refl, refl)
  | inl e ↦
      simp (e, sym (any-dead_ids timeout now k s.agents unique))
        (lookup-drop_agents k (dead_ids timeout now s.agents) s)
]
