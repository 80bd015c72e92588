-- ===== src/Leader/Reconcile/Surplus.antt =====
-- trimReturningAgentSurplus: what a returning agent is told to stop is placed elsewhere.
use easyrun.Prelude.{
  ℕ, ◌+◌, ◌≤◌, ◌≡◌, refl, inl, inr, true, false, [], ◌∷◌, map, Option, none, some, arith,
  Bool-cases, Option-cases, All, keep, or_else,
}
use easyrun.Prelude.Text.{String, str_eq_iff, str_eq_refl}
use easyrun.Prelude.Dict.{Dict, lookup, erase, IsUnique}
use easyrun.Types.{Job}
use easyrun.Leader.State.{LeaderState, Counts, count_at, counts_of}
use easyrun.Leader.Dispatch.{wanted}
use easyrun.Leader.Reconcile.{is_daemon, total_all, is_redundant, redundant}

-- A job of the store that is no daemon, and of which the other agents have as many as it wants.
abbrev pub Covered : (String → Option Job) → Dict Counts → String → Type 0
Covered find others name =
    (job : Job) × (find name ≡ some job)
    × (is_daemon job ≡ false)
    × (wanted job.count ≤ total_all name others)

total_all-erase_absent :
    (id name : String) (m : Dict Counts)
    → lookup id m ≡ none
    → total_all name (erase id m) ≡ total_all name m
unfolding total_all erase lookup
total_all-erase_absent id name [] h = refl
total_all-erase_absent id name ((j, c) ∷ m) h = ground (arith, h, total_all-erase_absent id name m)

-- Without an agent, the total is less by what is counted on it.
total_all-erase :
    (id name : String) (m : Dict Counts)
    → IsUnique m
    → total_all name (erase id m) + count_at name (or_else (lookup id m) []) ≡ total_all name m
unfolding total_all erase lookup count_at
total_all-erase id name [] h = refl
total_all-erase id name ((j, c) ∷ m) h = ground (
  arith,
  str_eq_iff j id,
  h.0,
  h.1,
  total_all-erase id name m h.1,
  total_all-erase_absent id name m,
)

abbrev EntriesOf : Counts → Counts → Type 0
EntriesOf whole = All (λ e. lookup e.0 whole ≡ some e.1)

EntriesOf-cons :
    (k : String) (v : ℕ) (whole m : Counts)
    → lookup k whole ≡ none
    → EntriesOf whole m
    → EntriesOf ((k, v) ∷ whole) m
unfolding lookup
EntriesOf-cons k v whole [] h hs = tt
EntriesOf-cons k v whole ((j, c) ∷ m) h hs =
    (ground (arith, str_eq_iff k j, h, hs.0), EntriesOf-cons k v whole m h hs.1)

EntriesOf-self : (m : Counts) → IsUnique m → EntriesOf m m
unfolding lookup
EntriesOf-self [] h = tt
EntriesOf-self ((k, v) ∷ m) h =
    (ground (arith, str_eq_refl k), EntriesOf-cons k v m m h.0 (EntriesOf-self m h.1))

is_redundant-Covered :
    (find : String → Option Job) (id name : String) (count : ℕ) (s : LeaderState)
    → IsUnique s.placed
    → lookup name (counts_of id s) ≡ some count
    → is_redundant find s.placed (name, count) ≡ true
    → Covered find (erase id s.placed) name
unfolding is_redundant counts_of count_at
is_redundant-Covered find id name count s unique here h = elim (Option-cases (find name)) [
  | inl e ↦ absurd (ground (arith, h, e))
  | inr (job, e) ↦
      let total = total_all-erase id name s.placed unique in
      (job, e, ground (arith, h, e), ground (arith, h, e, total, here))
]

redundant-go :
    (find : String → Option Job) (id : String) (s : LeaderState) (m : Counts)
    → IsUnique s.placed
    → EntriesOf (counts_of id s) m
    → All (Covered find (erase id s.placed)) (map (λ e. e.0) (keep (is_redundant find s.placed) m))
redundant-go find id s [] unique h = tt
redundant-go find id s ((name, count) ∷ m) unique h =
    elim (Bool-cases (is_redundant find s.placed (name, count))) [
      | inr e ↦ simp e (redundant-go find id s m unique h.1)
      | inl e ↦ simp e (
        is_redundant-Covered find id name count s unique h.0 e,
        redundant-go find id s m unique h.1,
      )
    ]

-- Where no agent and no job is counted twice, each job that a returning agent is told to stop is
-- one of the store, no daemon, and the other agents have as many instances of it as it wants.
pub redundant-Covered :
    (find : String → Option Job) (id : String) (s : LeaderState)
    → IsUnique s.placed
    → IsUnique (counts_of id s)
    → All (Covered find (erase id s.placed)) (redundant find id s)
unfolding redundant
redundant-Covered find id s unique counts =
    redundant-go find id s (counts_of id s) unique (EntriesOf-self (counts_of id s) counts)
