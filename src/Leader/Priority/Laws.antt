-- ===== src/Leader/Priority/Laws.antt =====
-- What renumbering the jobs does to their order and to the store.
use easyrun.Prelude.{
  ℕ, zero, suc, ◌+◌, ◌≤◌, ◌≡◌, refl, ◌∙◌, List, [], ◌∷◌, ◌++◌, map, Option, none, some, arith, All,
  length, get_elem?, take, drop,
}
use mathlib.Core.List.{Perm}
use easyrun.Prelude.Int.{ℤ, pos, negsuc}
use easyrun.Prelude.Text.{String, str_eq_iff}
use easyrun.Prelude.Dict.{lookup-insert}
use easyrun.Prelude.Sort.{sort_by, sort_by-perm, All-sort_by}
use easyrun.Types.{Job}
use easyrun.Node.State.{AgentState}
use easyrun.Node.Store.{get_job, update_job}
use easyrun.Leader.Priority.{
  comes_before, with_priority, has_rank, ranked, commit_rank, renumber, normalize_priorities,
  remove_named, clamp, moved,
}

-- A job but for its priority.
abbrev pub strip : Option Job → Option Job
strip none = none
strip (some j) = some (record j { priority = none })

-- The store holds each of these jobs, but perhaps at another priority.
abbrev pub Holds : AgentState → List Job → Type 0
Holds s = All (λ j. strip (get_job j.name s) ≡ strip (some j))

-- The priorities of the jobs count up from a number.
abbrev pub CountUp : ℕ → List Job → Type 0
CountUp i [] = Unit
CountUp i (j ∷ js) = (j.priority ≡ some (pos i)) × CountUp (i + 1) js

commit_rank-strip :
    (i : ℕ) (j : Job) (now : ℕ) (s : AgentState) (n : String)
    → strip (get_job j.name s) ≡ strip (some j)
    → strip (get_job n (commit_rank i j now s)) ≡ strip (get_job n s)
unfolding commit_rank get_job update_job
commit_rank-strip i j now s n h =
    ground (arith, h, str_eq_iff j.name n, lookup-insert j.name n (with_priority i j) s.jobs)

ranked-priority : (i : ℕ) (j : Job) → (ranked i j).priority ≡ some (pos i)
unfolding ranked has_rank
ranked-priority i j = ground arith

ranked-name : (i : ℕ) (j : Job) → (ranked i j).name ≡ j.name
unfolding ranked
ranked-name i j = ground arith

Holds-commit :
    (i : ℕ) (j : Job) (now : ℕ) (s : AgentState) (js : List Job)
    → strip (get_job j.name s) ≡ strip (some j)
    → Holds s js
    → Holds (commit_rank i j now s) js
Holds-commit i j now s [] h hs = tt
Holds-commit i j now s (k ∷ js) h hs =
    (commit_rank-strip i j now s k.name h ∙ hs.0, Holds-commit i j now s js h hs.1)

renumber_lem :
    (i : ℕ) (js : List Job) (now : ℕ) (s : AgentState)
    → Holds s js
    → let (js', s') = renumber i js now s in
      CountUp i js'
      × (map (λ j. j.name) js' ≡ map (λ j. j.name) js)
      × ((n : String) → strip (get_job n s') ≡ strip (get_job n s))
unfolding renumber
renumber_lem i [] now s h = (tt, refl, λ n. refl)
renumber_lem i (j ∷ js) now s h =
    let s₁ = commit_rank i j now s in
    let (up, names, kept) = renumber_lem (i + 1) js now s₁ (Holds-commit i j now s js h.0 h.1) in
    (
      (ranked-priority i j, up),
      rw (ranked-name i j, names) refl,
      λ n. kept n ∙ commit_rank-strip i j now s n h.0,
    )

-- Renumbering the jobs that the store holds gives them the priorities 0, 1, 2, … in a list that is
-- in order of the old priorities, the same names and no other; in the store no job appears, none
-- goes, and nothing of a job changes but its priority.
pub normalize_priorities_lem :
    (jobs : List Job) (now : ℕ) (s : AgentState)
    → Holds s jobs
    → let (jobs', s') = normalize_priorities jobs now s in
      CountUp 0 jobs'
      × (map (λ j. j.name) jobs' ≡ map (λ j. j.name) (sort_by comes_before jobs))
      × Perm (sort_by comes_before jobs) jobs
      × ((n : String) → strip (get_job n s') ≡ strip (get_job n s))
unfolding normalize_priorities
normalize_priorities_lem jobs now s h =
    let p = sort_by-perm comes_before jobs in
    let (up, names, kept) =
      renumber_lem 0 (sort_by comes_before jobs) now s (All-sort_by comes_before _ jobs h) in
    (up, names, p, kept)

clamp_le : (target : ℤ) (k : ℕ) → clamp target k ≤ k
unfolding clamp
clamp_le (pos n) k = ground arith
clamp_le (negsuc n) k = ground arith

get-insert_at :
    (m : ℕ) (x : Job) (xs : List Job)
    → m ≤ length xs
    → get_elem? (take m xs ++ x ∷ drop m xs) m ≡ some x
get-insert_at zero x xs h = refl
get-insert_at (suc m) x [] h = absurd (omega arith)
get-insert_at (suc m) x (y ∷ xs) h = get-insert_at m x xs (omega arith)

-- A job that is moved to an index stands there, or at the nearest end where the index is outside.
pub moved-places :
    (job : Job) (target : ℤ) (jobs : List Job)
    → let k = length (remove_named job.name (sort_by comes_before jobs)) in
      get_elem? (moved job target jobs) (clamp target k) ≡ some job
unfolding moved
moved-places job target jobs =
    let rest = remove_named job.name (sort_by comes_before jobs) in
    get-insert_at (clamp target (length rest)) job rest (clamp_le target (length rest))
