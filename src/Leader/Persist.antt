-- ===== src/Leader/Persist.antt =====
-- internal/leader/persist.go: the committed state, over any store of jobs. Reading the state from
-- outside and decoding it are the caller's.
pub mod Laws
pub mod Flush
use easyrun.Prelude.{ℕ, Bool, true, false, List, [], ◌∷◌, Option, none, some, if◌then◌else◌, any}
use easyrun.Prelude.Text.{String, str_eq}
use easyrun.Types.{Job}
use easyrun.JobStore.{JobStore}

pub record PersistedState : Type 0 where
  pub updated : ℕ
  pub jobs : List Job

unfoldable pub in_snapshot : List Job → String → Bool
in_snapshot jobs name = any (λ j. str_eq j.name name) jobs

module _ {S : Type 0} (store : JobStore S) where
  -- Each job of the store that the snapshot does not know is dropped.
  unfoldable pub drop_unknown : List Job → List Job → ℕ → S → S
  unfolding in_snapshot
  drop_unknown known [] now s = s
  drop_unknown known (j ∷ js) now s =
      drop_unknown known js now
        (if in_snapshot known j.name then s else store.delete_job j.name now s)

  -- What the load found: nothing committed, or a snapshot. An error of the store or a snapshot that
  -- cannot be read is the caller's, and changes nothing.
  unfoldable pub load_committed_state : Option PersistedState → ℕ → S → Bool × S
  load_committed_state none now s = (false, s)
  load_committed_state (some st) now s =
      (true, store.sync_jobs st.jobs st.updated (drop_unknown st.jobs (store.get_jobs s) now s))

  -- The decorated store: the inner one, and whether the committed state is behind.
  unfoldable pub dirty_tracking : JobStore (S × Bool)
  dirty_tracking = record {
    get_jobs = λ t. store.get_jobs t.0;
    get_job = λ n t. store.get_job n t.0;
    store_job = λ j now t. (store.store_job j now t.0, true);
    update_job = λ j now t.
        let (ok, s) = store.update_job j now t.0 in (ok, (s, (if ok then true else t.1)));
    delete_job = λ n now t. (store.delete_job n now t.0, true);
    get_state_time = λ t. store.get_state_time t.0;
    sync_jobs = λ js updated t. (store.sync_jobs js updated t.0, true);
  }
