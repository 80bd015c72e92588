-- ===== src/JobStore.antt =====
-- internal/leader/leader.go, JobStore: what the leader asks of the store of jobs, with the laws
-- that it relies on. internal/agent/agent.go implements it, and internal/leader/persist.go
-- decorates it.
use easyrun.Prelude.{ℕ, ◌≡◌, Bool, List, [], ◌∷◌, Option, none, some, if◌then◌else◌, is_some}
use easyrun.Prelude.Text.{String, str_eq}
use easyrun.Types.{Job}

-- The job of a name that stands last in a list of jobs.
unfoldable pub last_named : String → List Job → Option Job
last_named n [] = none
last_named n (j ∷ js) =
    let rest = last_named n js in
    if is_some rest then rest else (if str_eq j.name n then some j else none)

pub record JobStore (S : Type 0) : Type 0 where
  pub get_jobs : S → List Job
  pub get_job : String → S → Option Job
  pub store_job : Job → ℕ → S → S
  pub update_job : Job → ℕ → S → Bool × S
  pub delete_job : String → ℕ → S → S
  pub get_state_time : S → ℕ
  pub sync_jobs : List Job → ℕ → S → S

-- A stored job is found by its name; a deleted one is not; an update never adds a name.
pub record Laws {S : Type 0} (store : JobStore S) : Type 0 where
  pub get-store :
      (n : String) (j : Job) (now : ℕ) (s : S)
      → store.get_job n (store.store_job j now s)
        ≡ (if str_eq j.name n then some j else store.get_job n s)
  pub get-delete :
      (n k : String) (now : ℕ) (s : S)
      → store.get_job n (store.delete_job k now s)
        ≡ (if str_eq k n then none else store.get_job n s)
  pub get-update :
      (n : String) (j : Job) (now : ℕ) (s : S)
      → store.get_job n (store.update_job j now s).1 ≡ (
          if str_eq j.name n
          then (if is_some (store.get_job n s) then some j else none)
          else store.get_job n s)
  pub update_reports :
      (j : Job) (now : ℕ) (s : S) → (store.update_job j now s).0 ≡ is_some (store.get_job j.name s)
  pub get-sync :
      (n : String) (js : List Job) (now : ℕ) (s : S)
      → store.get_job n (store.sync_jobs js now s)
        ≡ (let found = last_named n js in if is_some found then found else store.get_job n s)
