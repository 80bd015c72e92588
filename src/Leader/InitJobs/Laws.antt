-- ===== src/Leader/InitJobs/Laws.antt =====
-- What seeding leaves alone, and what decoding lets through.
use easyrun.Prelude.{
  ℕ, suc, ◌≡◌, ap, ◌∙◌, inl, inr, true, false, List, [], ◌∷◌, Option, none, some, arith, is_some,
  Bool-cases, All,
}
use easyrun.Prelude.Text.{String, str_eq, str_eq_iff}
use easyrun.Types.{Job}
use easyrun.Node.Store.{get_job}
use easyrun.Leader.System.{World, Sys}
use easyrun.Leader.Reconcile.{submit_job}
use easyrun.Leader.Reconcile.Submit.{KeepsClaims, submit_job-stores}
use easyrun.Leader.InitJobs.{
  Decoded, jobs_of, bad_spec, with_driver, is_runnable, prepend, decode_from, decode_init_jobs,
  with_default_priority, seed_init_jobs,
}

-- A job as a cluster may be seeded with it.
abbrev pub IsSeed : Job → Type 0
IsSeed j = (str_eq j.name "" ≡ false) × (is_runnable j ≡ true)

abbrev pub AllSeeds : Decoded → Type 0
AllSeeds (jobs_of js) = All IsSeed js
AllSeeds (bad_spec i e) = Unit

prepend-AllSeeds : (j : Job) (d : Decoded) → IsSeed j → AllSeeds d → AllSeeds (prepend j d)
unfolding prepend
prepend-AllSeeds j (jobs_of js) h hs = (h, hs)
prepend-AllSeeds j (bad_spec i e) h hs = tt

with_driver-name : (j : Job) → (with_driver j).name ≡ j.name
unfolding with_driver
with_driver-name j = ground arith

decode_from-AllSeeds : (i : ℕ) (specs : List (Option Job)) → AllSeeds (decode_from i specs)
unfolding decode_from
decode_from-AllSeeds i [] = tt
decode_from-AllSeeds i (none ∷ specs) = tt
decode_from-AllSeeds i (some j ∷ specs) = elim (Bool-cases (str_eq j.name "")) [
  | inl e ↦ simp e tt
  | inr e ↦ elim (Bool-cases (is_runnable (with_driver j))) [
    | inr f ↦ simp (e, f) tt
    | inl f ↦
        let named : str_eq (with_driver j).name "" ≡ false =
          ap (λ n. str_eq n "") (with_driver-name j) ∙ e in
        simp (e, f)
          (prepend-AllSeeds (with_driver j) (decode_from (suc i) specs) (named, f)
            (decode_from-AllSeeds (suc i) specs))
  ]
]

with_default_priority-name : (y : Sys) (j : Job) → (with_default_priority y j).name ≡ j.name
unfolding with_default_priority
with_default_priority-name y j = ground arith

submit-keeps :
    (w : World) (j : Job) (y : Sys) (n : String) (old : Job)
    → KeepsClaims w
    → str_eq j.name "" ≡ false
    → is_some (get_job j.name y.store) ≡ false
    → get_job n y.store ≡ some old
    → get_job n (submit_job w j y).1.store ≡ some old
submit-keeps w j y n old keeps named absent here =
    let (stored, others, flags) = submit_job-stores w j y keeps named in
    elim (Bool-cases (str_eq j.name n)) [
      | inr e ↦
          let other : get_job n (submit_job w j y).1.store ≡ get_job n y.store =
            simp e at (others n) in
          other ∙ here
      | inl e ↦
          let same : get_job j.name y.store ≡ get_job n y.store =
            ap (λ k. get_job k y.store) (ground (arith, str_eq_iff j.name n, e)) in
          absurd (ground (arith, same, here, absent))
    ]

-- A seed never overwrites the state of the cluster: with jobs as the decoding lets them through, a
-- job that stands in the store before the seeding stands there afterwards, unchanged, whatever the
-- agents answer, where no leader is stopped between a claim and the look at it.
pub seed_init_jobs-keeps :
    (w : World) (jobs : List Job) (y : Sys) (n : String) (old : Job)
    → KeepsClaims w
    → All IsSeed jobs
    → get_job n y.store ≡ some old
    → get_job n (seed_init_jobs w jobs y).store ≡ some old
unfolding seed_init_jobs
seed_init_jobs-keeps w [] y n old keeps seeds here = here
seed_init_jobs-keeps w (j ∷ js) y n old keeps seeds here =
    elim (Bool-cases (is_some (get_job j.name y.store))) [
      | inl e ↦ simp e (seed_init_jobs-keeps w js y n old keeps seeds.1 here)
      | inr e ↦
          let job = with_default_priority y j in
          let name = with_default_priority-name y j in
          let named : str_eq job.name "" ≡ false = ap (λ k. str_eq k "") name ∙ seeds.0.0 in
          let absent : is_some (get_job job.name y.store) ≡ false =
            ap (λ k. is_some (get_job k y.store)) name ∙ e in
          simp e (
            seed_init_jobs-keeps w js (submit_job w job y).1 n old keeps seeds.1
              (submit-keeps w job y n old keeps named absent here))
    ]

-- Whatever specs are decoded: either one of them is refused, or every job that comes out has a name
-- and something to run.
pub decode_init_jobs-AllSeeds : (specs : List (Option Job)) → AllSeeds (decode_init_jobs specs)
unfolding decode_init_jobs
decode_init_jobs-AllSeeds specs = decode_from-AllSeeds 0 specs
