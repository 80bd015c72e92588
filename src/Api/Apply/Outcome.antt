-- ===== src/Api/Apply/Outcome.antt =====
-- What becomes of a request to apply a job in internal/api/server.go.
use easyrun.Prelude.{
  ℕ, ◌+◌, ◌≡◌, refl, ap, ◌∙◌, true, false, not, ◌&&◌, Option, none, some, List, [], ◌∷◌,
  if◌then◌else◌, arith, Bool-cases, Option-cases, inl, inr, is_some, length, ◌==◌,
}
use easyrun.Prelude.Int.{ℤ}
use easyrun.Prelude.Dict.{lookup, lookup-insert}
use easyrun.Node.State.{AgentState}
use easyrun.Leader.Priority.{with_priority, write_ranks, moved, patch_job_priority}
use easyrun.Prelude.Text.{String, str_eq}
use easyrun.Types.{Job}
use easyrun.Node.Store.{get_job, get_jobs, update_job}
use easyrun.Leader.System.{World, Sys, emit}
use easyrun.Leader.Dispatch.{DispatchError}
use easyrun.Leader.Reconcile.{submit_job}
use easyrun.Leader.Reconcile.Submit.{KeepsClaims, submit_job-stores}
use easyrun.Leader.Update.{
  UpdateError, not_found, unknown_policy, locked, interrupted, dispatch_failed, replace_failed,
  update_job_op,
}
use easyrun.Leader.InitJobs.{next_priority}
use easyrun.Api.{Response, patched, patch_priority, code_of}
use easyrun.Api.Apply.{
  accept, default_driver, is_hop_image, answer_update, after_submit, create, apply_accepted,
  handle_apply_job,
}

-- An update never takes a job away.
update_job-present :
    (n : String) (j : Job) (now : ℕ) (s : AgentState)
    → is_some (get_job n s) ≡ true
    → is_some (get_job n (update_job j now s).1) ≡ true
unfolding get_job update_job
update_job-present n j now s h = elim (Bool-cases (is_some (lookup j.name s.jobs))) [
  | inl e ↦ simp e (ground (arith, h, lookup-insert j.name n j s.jobs))
  | inr e ↦ simp e h
]

write_ranks-present :
    (n : String) (i : ℕ) (js : List Job) (now : ℕ) (s : AgentState)
    → is_some (get_job n s) ≡ true
    → is_some (get_job n (write_ranks i js now s)) ≡ true
unfolding write_ranks
write_ranks-present n i [] now s h = h
write_ranks-present n i (j ∷ js) now s h =
    write_ranks-present n (i + 1) js now (update_job (with_priority i j) now s).1
      (update_job-present n (with_priority i j) now s h)

abbrev HasJob : String → Option AgentState → Type 0
HasJob n none = Unit
HasJob n (some s) = is_some (get_job n s) ≡ true

patch_job_priority-HasJob :
    (name n : String) (target : ℤ) (now : ℕ) (s : AgentState)
    → is_some (get_job n s) ≡ true
    → HasJob n (patch_job_priority name target now s)
unfolding patch_job_priority
patch_job_priority-HasJob name n target now s h = elim (Option-cases (get_job name s)) [
  | inl e ↦ rw (e, HasJob) tt
  | inr (job, e) ↦ rw (e, HasJob) (write_ranks-present n 0 (moved job target (get_jobs s)) now s h)
]

patched-present :
    (name n : String) (y : Sys) (o : Option AgentState)
    → HasJob n o
    → is_some (get_job n y.store) ≡ true
    → is_some (get_job n (patched name y o).1.store) ≡ true
unfolding patched emit
patched-present name n y none k h = h
patched-present name n y (some s) k h = k

patch_priority-present :
    (w : World) (name n : String) (target : ℤ) (y : Sys)
    → is_some (get_job n y.store) ≡ true
    → is_some (get_job n (patch_priority w name target y).1.store) ≡ true
unfolding patch_priority
patch_priority-present w name n target y h =
    patched-present name n y (patch_job_priority name target (w.now y.trace) y.store)
      (patch_job_priority-HasJob name n target (w.now y.trace) y.store h) h

-- Created: the answer is a 201 and the job stands in the store.
abbrev pub IsCreated : String → Response × Sys → Type 0
IsCreated name (response, y) = (code_of response ≡ 201) × (is_some (get_job name y.store) ≡ true)

after_submit-IsCreated :
    (w : World) (name : String) (priority : Option ℤ) (e : Option DispatchError) (y : Sys)
    → is_some (get_job name y.store) ≡ true
    → IsCreated name (after_submit w name priority (e, y))
unfolding after_submit code_of
after_submit-IsCreated w name priority (some e) y h = (refl, h)
after_submit-IsCreated w name none none y h = (refl, h)
after_submit-IsCreated w name (some target) none y h =
    (refl, patch_priority-present w name name target y h)

create-IsCreated :
    (w : World) (job : Job) (y : Sys)
    → KeepsClaims w
    → str_eq job.name "" ≡ false
    → IsCreated job.name (create w job y)
unfolding create
create-IsCreated w job y keeps named =
    let priority = if is_some job.priority then job.priority else some (next_priority y) in
    let job' : Job = record job { priority = priority } in
    let (e, y') = submit_job w job' y in
    after_submit-IsCreated w job.name job.priority e y'
      (elim (submit_job-stores w job' y keeps named).0 [
        | inl h ↦ ap is_some h
        | inr h ↦ ap is_some h
      ])

-- The answer to an update, by how it ended.
abbrev pub update_code : Option UpdateError → ℕ
update_code none = 200
update_code (some locked) = 409
update_code (some _) = 500

abbrev pub Answered : Job → Option UpdateError × Sys → Response × Sys → Type 0
Answered job (e, y') (response, y'') = (code_of response ≡ update_code e) × (y'' ≡ y')

answer_update-Answered :
    (job : Job) (e : Option UpdateError) (y : Sys) → Answered job (e, y) (answer_update job (e, y))
unfolding answer_update code_of
answer_update-Answered job none y = (refl, refl)
answer_update-Answered job (some not_found) y = (refl, refl)
answer_update-Answered job (some unknown_policy) y = (refl, refl)
answer_update-Answered job (some locked) y = (refl, refl)
answer_update-Answered job (some interrupted) y = (refl, refl)
answer_update-Answered job (some (dispatch_failed e)) y = (refl, refl)
answer_update-Answered job (some (replace_failed e)) y = (refl, refl)

abbrev pub Applied : World → Sys → Option Job → Response × Sys → Type 0
Applied w y none (response, y') = (code_of response ≡ 400) × (y' ≡ y)
Applied w y (some job) (response, y') =
    if is_some (get_job job.name y.store)
    then Answered job (update_job_op w job y) (response, y')
    else IsCreated job.name (response, y')

-- What accepts gives has the name that the request gave it, and that is not empty.
abbrev IsNamed : Option Job → Type 0
IsNamed none = Unit
IsNamed (some job) = str_eq job.name "" ≡ false

default_driver-name : (job : Job) → (default_driver job).name ≡ job.name
unfolding default_driver
default_driver-name job =
    elim (Bool-cases (
      str_eq job.driver ""
      && (str_eq job.command "" && (str_eq job.image "" && length job.artifacts == 1)))) [
        | inl e ↦ simp e refl
        | inr e ↦ simp e refl
      ]

accept-IsNamed : (spec : Option Job) → IsNamed (accept spec)
unfolding accept
accept-IsNamed none = tt
accept-IsNamed (some spec) =
    let job = default_driver spec in
    elim (Bool-cases (str_eq spec.name "")) [
      | inl e ↦ simp e tt
      | inr e ↦
          elim (Bool-cases
            (str_eq job.command "" && (str_eq job.image "" && not (is_hop_image job)))) [
              | inl f ↦ simp (e, f) tt
              | inr f ↦ simp (e, f) (ap (λ n. str_eq n "") (default_driver-name spec) ∙ e)
            ]
    ]

apply_accepted-Applied :
    (w : World) (o : Option Job) (y : Sys)
    → KeepsClaims w
    → IsNamed o
    → Applied w y o (apply_accepted w o y)
unfolding apply_accepted code_of
apply_accepted-Applied w none y keeps named = (refl, refl)
apply_accepted-Applied w (some job) y keeps named =
    elim (Bool-cases (is_some (get_job job.name y.store))) [
      | inl e ↦ let (err, y') = update_job_op w job y in simp e (answer_update-Answered job err y')
      | inr e ↦ simp e (create-IsCreated w job y keeps named)
    ]

-- A request to apply a job, where no leader is stopped between a claim and the look at it. One that
-- is not accepted is answered with a 400 and changes nothing. One for a name that is in the store is
-- the update of that job: a 200 where it succeeds, a 409 where another update holds the job, a 500
-- for any other error. One for a new name is answered with a 201, whether or not the dispatch
-- succeeds, and a job of that name then stands in the store.
pub handle_apply_job-Applied :
    (w : World) (spec : Option Job) (y : Sys)
    → KeepsClaims w
    → Applied w y (accept spec) (handle_apply_job w spec y)
unfolding handle_apply_job
handle_apply_job-Applied w spec y keeps =
    apply_accepted-Applied w (accept spec) y keeps (accept-IsNamed spec)
