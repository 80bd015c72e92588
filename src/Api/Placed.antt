-- ===== src/Api/Placed.antt =====
-- GetPlacedCounts of internal/leader/leader.go, which the status of internal/api/server.go reports.
use easyrun.Prelude.{ℕ, ◌+◌, ◌≡◌, refl, none, [], ◌∷◌, if◌then◌else◌, arith}
use easyrun.Prelude.Text.{String, str_eq, str_eq_iff}
use easyrun.Prelude.Dict.{Dict, lookup, insert, lookup-insert, IsUnique}
use easyrun.Leader.State.{Counts, LeaderState, count_at}
use easyrun.Leader.Reconcile.{total_all}
use easyrun.Api.{add_counts, placed_counts, get_placed_counts, sum_of}

-- No job stands twice in the counts of an agent.
abbrev pub AllUnique : Dict Counts → Type 0
AllUnique [] = Unit
AllUnique ((id, counts) ∷ placed) = IsUnique counts × AllUnique placed

count_at-insert :
    (name k : String) (c : ℕ) (m : Dict ℕ)
    → count_at name (insert k c m) ≡ (if str_eq k name then c else count_at name m)
unfolding count_at
count_at-insert name k c m = ground (arith, lookup-insert k name c m)

count_at-cons :
    (name k : String) (c : ℕ) (m : Dict ℕ)
    → count_at name ((k, c) ∷ m) ≡ (if str_eq k name then c else count_at name m)
unfolding count_at lookup
count_at-cons name k c m = ground arith

count_at-absent : (name : String) (m : Dict ℕ) → lookup name m ≡ none → count_at name m ≡ 0
unfolding count_at
count_at-absent name m h = rw h refl

count_at-empty : (name : String) → count_at name [] ≡ 0
unfolding count_at lookup
count_at-empty name = refl

count_at-add_counts :
    (name : String) (cs : Counts) (m : Dict ℕ)
    → IsUnique cs
    → count_at name (add_counts cs m) ≡ count_at name m + count_at name cs
unfolding add_counts
count_at-add_counts name [] m u = ground (arith, count_at-empty name)
count_at-add_counts name ((k, c) ∷ cs) m u = ground (
  arith,
  str_eq_iff k name,
  count_at-add_counts name cs (insert k (count_at k m + c) m) u.1,
  count_at-insert name k (count_at k m + c) m,
  count_at-cons name k c cs,
  count_at-absent k cs u.0,
)

count_at-placed_counts :
    (name : String) (placed : Dict Counts) (m : Dict ℕ)
    → AllUnique placed
    → count_at name (placed_counts placed m) ≡ count_at name m + total_all name placed
unfolding placed_counts total_all
count_at-placed_counts name [] m u = omega arith
count_at-placed_counts name ((id, counts) ∷ placed) m u = ground (
  arith,
  count_at-placed_counts name placed (add_counts counts m) u.1,
  count_at-add_counts name counts m u.0,
)

sum_of-insert :
    (k : String) (c : ℕ) (m : Dict ℕ) → sum_of (insert k (count_at k m + c) m) ≡ sum_of m + c
unfolding sum_of insert
sum_of-insert k c [] = ground (arith, count_at-empty k)
sum_of-insert k c ((j, w) ∷ m) = ground (arith, sum_of-insert k c m, count_at-cons k j w m)

sum_of-add_counts : (cs : Counts) (m : Dict ℕ) → sum_of (add_counts cs m) ≡ sum_of m + sum_of cs
unfolding sum_of add_counts
sum_of-add_counts [] m = omega arith
sum_of-add_counts ((k, c) ∷ cs) m =
    omega (arith, sum_of-add_counts cs (insert k (count_at k m + c) m), sum_of-insert k c m)

-- All that agents report, job by job and agent by agent.
abbrev pub sum_all : Dict Counts → ℕ
sum_all [] = 0
sum_all ((id, counts) ∷ placed) = sum_of counts + sum_all placed

sum_of-placed_counts :
    (placed : Dict Counts) (m : Dict ℕ)
    → sum_of (placed_counts placed m) ≡ sum_of m + sum_all placed
unfolding placed_counts
sum_of-placed_counts [] m = omega arith
sum_of-placed_counts ((id, counts) ∷ placed) m =
    omega (arith, sum_of-placed_counts placed (add_counts counts m), sum_of-add_counts counts m)

-- Where no job stands twice in an agent's counts: what the status shows of a job is what is placed of
-- it on all agents that have counts, and the total is the sum of all counts of all agents.
pub get_placed_counts_lem :
    (name : String) (s : LeaderState)
    → AllUnique s.placed
    → (count_at name (get_placed_counts s) ≡ total_all name s.placed)
      × (sum_of (get_placed_counts s) ≡ sum_all s.placed)
unfolding get_placed_counts sum_of
get_placed_counts_lem name s u = (
  omega (arith, count_at-placed_counts name s.placed [] u, count_at-empty name),
  omega (arith, sum_of-placed_counts s.placed []),
)
