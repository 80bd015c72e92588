-- ===== src/Leader/Update/Progress.antt =====
-- The mark of an update in progress, which a reader of the store and a new leader go by.
use easyrun.Prelude.{
  ◌≡◌, refl, sym, ap, subst, ◌∙◌, inl, inr, Bool, true, false, List, [], ◌∷◌, Option, none, some,
  arith, if◌then◌else◌, All, is_some,
}
use easyrun.Prelude.Text.{String, str_eq, str_eq_iff, str_eq_refl}
use easyrun.Prelude.Dict.{Dict, lookup, insert, values, lookup-insert}
use easyrun.Types.{Job}
use easyrun.Node.State.{AgentState}
use easyrun.Node.Store.{get_job, get_jobs, store_job}
use easyrun.Leader.System.{World, Sys, on_store, claim_job}
use easyrun.Leader.Priority.Laws.{strip, Holds, normalize_priorities_lem}
use easyrun.Leader.System.Own.{Reran, as_before, again, Reran-lookup, prepare_job-keeps}
use easyrun.Node.Capacity.{prepare_job}
use easyrun.Leader.Reconcile.Submit.{KeepsClaims, get_job-store_job, claim_job-store}
use easyrun.Leader.Update.{
  UpdateError, Policy, policy_of, run_policy, normalize_all, settle_update, update_job_op,
}
use easyrun.Leader.Update.Flags.{Stored, run_policy-Ran}

-- Each job stands once, under its own name.
abbrev pub IsNamed : Dict Job → Type 0
IsNamed [] = Unit
IsNamed ((k, j) ∷ m) = (j.name ≡ k) × (lookup k m ≡ none) × IsNamed m

IsNamed-insert : (j : Job) (m : Dict Job) → IsNamed m → IsNamed (insert j.name j m)
unfolding insert lookup
IsNamed-insert j [] h = (refl, refl, tt)
IsNamed-insert j ((k, i) ∷ m) h = ground (
  arith,
  str_eq_iff k j.name,
  str_eq_iff j.name k,
  h.0,
  h.1,
  h.2,
  IsNamed-insert j m h.2,
  lookup-insert j.name k j m,
)

abbrev HeldIn : Dict Job → List Job → Type 0
HeldIn m = All (λ j. lookup j.name m ≡ some j)

HeldIn-cons :
    (k : String) (i : Job) (m : Dict Job) (js : List Job)
    → lookup k m ≡ none
    → HeldIn m js
    → HeldIn ((k, i) ∷ m) js
unfolding lookup
HeldIn-cons k i m [] e h = tt
HeldIn-cons k i m (j ∷ js) e h =
    (ground (arith, str_eq_iff k j.name, e, h.0), HeldIn-cons k i m js e h.1)

HeldIn-values : (m : Dict Job) → IsNamed m → HeldIn m (values m)
unfolding lookup
HeldIn-values [] h = tt
HeldIn-values ((k, j) ∷ m) h = (
  ground (arith, str_eq_iff k j.name, h.0),
  HeldIn-cons k j m (values m) h.1 (HeldIn-values m h.2),
)

Holds-HeldIn : (s : AgentState) (js : List Job) → HeldIn s.jobs js → Holds s js
unfolding get_job
Holds-HeldIn s [] h = tt
Holds-HeldIn s (j ∷ js) h = (ap strip h.0, Holds-HeldIn s js h.1)

pub normalize_all-strip :
    (w : World) (y : Sys) (n : String)
    → IsNamed y.store.jobs
    → strip (get_job n (normalize_all w y).store) ≡ strip (get_job n y.store)
unfolding normalize_all on_store get_jobs
normalize_all-strip w y n named =
    let held = Holds-HeldIn y.store (values y.store.jobs) (HeldIn-values y.store.jobs named) in
    (normalize_priorities_lem (values y.store.jobs) (w.now y.trace) y.store held).3 n

-- Whether the job that is found is marked as in progress.
abbrev pub deploying_of : Option Job → Option Bool
deploying_of none = none
deploying_of (some j) = some j.deploying

deploying-strip : (o : Option Job) → deploying_of (strip o) ≡ deploying_of o
deploying-strip none = refl
deploying-strip (some j) = refl

IsNamed-Reran : {job : Job} {m m' : Dict Job} → Reran job m m' → IsNamed m → IsNamed m'
IsNamed-Reran as_before h = h
IsNamed-Reran {job = job} (again {m = m''} p) h =
    IsNamed-insert (prepare_job job) m'' (IsNamed-Reran p h)

IsNamed-Stored :
    (job : Job) (y y' : Sys) → Stored job y y' → IsNamed y.store.jobs → IsNamed y'.store.jobs
unfolding store_job
IsNamed-Stored job y y' (now, ran) h = IsNamed-Reran ran (IsNamed-insert job y.store.jobs h)

-- The mark that stays on a job after its update.
abbrev Marked : Job → Option UpdateError × Sys → Type 0
Marked job (err, y) = deploying_of (get_job job.name y.store) ≡ some (is_some err)

-- The job is found with its mark, whether or not the leader's own node registered it again.
Stored-deploying :
    (job : Job) (y y' : Sys)
    → Stored job y y'
    → deploying_of (get_job job.name y'.store) ≡ some job.deploying
unfolding get_job
Stored-deploying job y y' (now, ran) = elim (Reran-lookup job.name ran) [
  | inl h ↦
      ap deploying_of h
      ∙ ap deploying_of (get_job-store_job job.name job now y.store)
      ∙ simp (str_eq_refl job.name) refl
  | inr (same, h) ↦ ap deploying_of h ∙ ap some (prepare_job-keeps job).2
]

settle_update-Marked :
    (w : World) (job : Job) (y : Sys) (x : Option UpdateError × Sys)
    → job.deploying ≡ true
    → IsNamed y.store.jobs
    → Stored job y x.1
    → Marked job (settle_update w job x)
unfolding settle_update on_store
settle_update-Marked w job y (some e, y') h named stored =
    let here = normalize_all-strip w y' job.name (IsNamed-Stored job y y' stored named) in
    sym (deploying-strip _)
    ∙ ap deploying_of here
    ∙ deploying-strip _
    ∙ Stored-deploying job y y' stored
    ∙ ap some h
settle_update-Marked w job y (none, y') h named stored =
    let done : Job = record job { deploying = false } in
    let y₂ = on_store (store_job done (w.now y'.trace)) y' in
    let again : IsNamed y₂.store.jobs =
      IsNamed-Stored done y' y₂ (w.now y'.trace, as_before)
        (IsNamed-Stored job y y' stored named) in
    sym (deploying-strip _)
    ∙ ap deploying_of (normalize_all-strip w y₂ job.name again)
    ∙ deploying-strip _
    ∙ ap deploying_of (get_job-store_job job.name done (w.now y'.trace) y'.store)
    ∙ simp (str_eq_refl job.name)

-- An update of a known job, by a known policy, that gets the lock of its job leaves the job in the
-- store, marked as in progress exactly where the update has failed: so a failed or interrupted
-- update is seen by whoever reads the store, and a success clears the mark. The store holds each
-- job once under its own name, the job has a name, and no leader is stopped between a claim and
-- the look at it.
pub update_job_op-Marked :
    (w : World) (new old : Job) (policy : Policy) (y : Sys)
    → KeepsClaims w
    → str_eq new.name "" ≡ false
    → IsNamed y.store.jobs
    → get_job new.name y.store ≡ some old
    → policy_of new.update_policy ≡ some policy
    → (claim_job w new.name y).0 ≡ true
    → let (err, y') = update_job_op w new y in
      deploying_of (get_job new.name y'.store) ≡ some (is_some err)
unfolding update_job_op
update_job_op-Marked w new old policy y keeps named keyed e f g =
    let job : Job = record new {
      priority = if is_some new.priority then new.priority else old.priority;
      deploying = true;
    } in
    let y₁ = (claim_job w new.name y).1 in
    let keyed₁ : IsNamed y₁.store.jobs =
      subst (λ s. IsNamed s.jobs) (sym (claim_job-store w new.name y)) keyed in
    let ran = run_policy-Ran w policy job y₁ keeps named in
    let marked = settle_update-Marked w job y₁ (run_policy w policy job y₁) refl keyed₁ ran.1 in
    rw (e, update_job_op) (rw f (simp g marked))
