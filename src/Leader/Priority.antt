-- ===== src/Leader/Priority.antt =====
-- internal/leader/health.go and leader.go: the order of the jobs, and the priorities that follow it.
pub mod Laws
use easyrun.Prelude.{
  ℕ, ◌+◌, ◌-◌, Bool, true, false, List, [], ◌∷◌, ◌++◌, Option, none, some, ltb, if◌then◌else◌,
  length, take, drop,
}
use easyrun.Prelude.Int.{ℤ, pos, negsuc, ltb_ℤ, eqb_ℤ}
use easyrun.Prelude.Text.{String, str_eq, str_ltb}
use easyrun.Prelude.Sort.{sort_by}
use easyrun.Types.{Job}
use easyrun.Node.State.{AgentState}
use easyrun.Node.Store.{get_job, get_jobs, update_job}
use easyrun.Leader.State.{effective_priority}

-- The test of both sorts: by priority, and by name where that is the same.
unfoldable pub comes_before : Job → Job → Bool
comes_before a b =
    let p = effective_priority a.priority in
    let q = effective_priority b.priority in if eqb_ℤ p q then str_ltb a.name b.name else ltb_ℤ p q

abbrev pub with_priority : ℕ → Job → Job
with_priority i j = record j { priority = some (pos i) }

unfoldable pub has_rank : ℕ → Option ℤ → Bool
has_rank i none = false
has_rank i (some p) = eqb_ℤ p (pos i)

unfoldable pub ranked : ℕ → Job → Job
unfolding has_rank
ranked i j = if has_rank i j.priority then j else with_priority i j

-- A job that has its rank is not written; an update does not bring back one that is gone.
unfoldable pub commit_rank : ℕ → Job → ℕ → AgentState → AgentState
unfolding has_rank
commit_rank i j now s =
    if has_rank i j.priority then s else (update_job (with_priority i j) now s).1

unfoldable pub renumber : ℕ → List Job → ℕ → AgentState → List Job × AgentState
unfolding ranked
renumber i [] now s = ([], s)
renumber i (j ∷ js) now s =
    let (rest, s') = renumber (i + 1) js now (commit_rank i j now s) in (ranked i j ∷ rest, s')

unfoldable pub normalize_priorities : List Job → ℕ → AgentState → List Job × AgentState
normalize_priorities jobs now s = renumber 0 (sort_by comes_before jobs) now s

-- The first job of the name is taken out.
unfoldable pub remove_named : String → List Job → List Job
remove_named name [] = []
remove_named name (j ∷ js) = if str_eq j.name name then js else j ∷ remove_named name js

unfoldable pub clamp : ℤ → ℕ → ℕ
clamp (negsuc n) k = 0
clamp (pos n) k = if ltb k n then k else n

unfoldable pub moved : Job → ℤ → List Job → List Job
unfolding remove_named clamp
moved job target jobs =
    let rest = remove_named job.name (sort_by comes_before jobs) in
    let at_index = clamp target (length rest) in take at_index rest ++ job ∷ drop at_index rest

unfoldable pub write_ranks : ℕ → List Job → ℕ → AgentState → AgentState
write_ranks i [] now s = s
write_ranks i (j ∷ js) now s = write_ranks (i + 1) js now (update_job (with_priority i j) now s).1

-- `PatchJobPriority`, but for the notification and the reconciliation that it starts: `none` where
-- there is no such job.
unfoldable pub patch_job_priority : String → ℤ → ℕ → AgentState → Option AgentState
patch_job_priority name target now s = elim (get_job name s) [
  | none ↦ none
  | some job ↦ some (write_ranks 0 (moved job target (get_jobs s)) now s)
]
