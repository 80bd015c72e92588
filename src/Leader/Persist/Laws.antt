-- ===== src/Leader/Persist/Laws.antt =====
-- What loading the committed state makes of a store that keeps its laws, and that the decorated
-- store keeps them too.
use easyrun.Prelude.{
  ℕ, ◌≡◌, refl, ◌∙◌, inl, inr, Bool, true, false, List, [], ◌∷◌, Option, none, some, arith,
  if◌then◌else◌, any, is_some, Bool-cases,
}
use easyrun.Prelude.Text.{String, str_eq, str_eq_iff}
use easyrun.Types.{Job}
use easyrun.JobStore.{JobStore, Laws, last_named}
use easyrun.Leader.Persist.{
  PersistedState, in_snapshot, drop_unknown, load_committed_state, dirty_tracking,
}

abbrev names : String → List Job → Bool
names n js = any (λ j. str_eq j.name n) js

last_named-in_snapshot : (n : String) (js : List Job) → is_some (last_named n js) ≡ in_snapshot js n
unfolding last_named in_snapshot
last_named-in_snapshot n [] = refl
last_named-in_snapshot n (j ∷ js) = ground (arith, last_named-in_snapshot n js)

module _ {S : Type 0} (store : JobStore S) (laws : Laws store) where
  get-drop_unknown :
      (n : String) (known js : List Job) (now : ℕ) (s : S)
      → store.get_job n (drop_unknown store known js now s) ≡ (
          if names n js
          then (if in_snapshot known n then store.get_job n s else none)
          else store.get_job n s)
  unfolding drop_unknown
  get-drop_unknown n known [] now s = refl
  get-drop_unknown n known (j ∷ js) now s = elim (Bool-cases (in_snapshot known j.name)) [
    | inl e ↦ simp e (ground (arith, e, str_eq_iff j.name n, get-drop_unknown n known js now s))
    | inr e ↦
        let gone = get-drop_unknown n known js now (store.delete_job j.name now s) in
        simp e (gone ∙ ground (arith, e, str_eq_iff j.name n, laws.get-delete n j.name now s))
  ]

  -- After a load of a snapshot a store that keeps its laws finds under a name exactly what stands last under it in
  -- the snapshot, and nothing where the snapshot has no such job, whatever the store held before.
  -- The store lists every job that it finds.
  pub load_committed_state-exact :
      (n : String) (st : PersistedState) (now : ℕ) (s : S)
      → (is_some (store.get_job n s) ≡ true → names n (store.get_jobs s) ≡ true)
      → store.get_job n (load_committed_state store (some st) now s).1 ≡ last_named n st.jobs
  unfolding load_committed_state
  load_committed_state-exact n st now s lists =
      let s' = drop_unknown store st.jobs (store.get_jobs s) now s in
      let kept = get-drop_unknown n st.jobs (store.get_jobs s) now s in
      laws.get-sync n st.jobs st.updated s'
      ∙ settle (last_named n st.jobs) (store.get_job n s') (store.get_job n s)
          (names n (store.get_jobs s)) (in_snapshot st.jobs n) (last_named-in_snapshot n st.jobs)
          kept lists
    where
      settle :
          (found before after : Option Job) (listed known : Bool)
          → is_some found ≡ known
          → before ≡ (if listed then (if known then after else none) else after)
          → (is_some after ≡ true → listed ≡ true)
          → (if is_some found then found else before) ≡ found
      settle (some j) before after listed known e f g = refl
      settle none before after true known e f g = ground (arith, e, f)
      settle none before none false known e f g = f
      settle none before (some j) false known e f g = absurd (ground (arith, g refl))

  -- The store that tracks its changes keeps every law that the inner store keeps.
  pub dirty_tracking-Laws : Laws (dirty_tracking store)
  unfolding dirty_tracking
  dirty_tracking-Laws = record {
    get-store = λ n j now t. laws.get-store n j now t.0;
    get-delete = λ n k now t. laws.get-delete n k now t.0;
    get-update = λ n j now t. laws.get-update n j now t.0;
    update_reports = λ j now t. laws.update_reports j now t.0;
    get-sync = λ n js now t. laws.get-sync n js now t.0;
  }
