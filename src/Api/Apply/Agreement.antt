-- ===== src/Api/Apply/Agreement.antt =====
-- Where internal/api/server.go and internal/leader/init.go take the same jobs.
use easyrun.Prelude.{
  ℕ, suc, ◌≡◌, ◌≢◌, refl, sym, map, Option-cases, ap, ◌∙◌, not, ◌&&◌, Option, none, some, List, [],
  ◌∷◌, if◌then◌else◌, arith, Bool-cases, inl, inr, ◌>>=◌,
}
use easyrun.Prelude.Text.{str_eq}
use easyrun.Types.{Job}
use easyrun.Leader.InitJobs.{
  Decoded, jobs_of, bad_spec, prepend, with_driver, is_runnable, decode_from, decode_init_jobs,
}
use easyrun.Api.Apply.{accept, default_driver, is_hop_image}

-- The jobs of a list of requests, where every one of them is accepted.
abbrev pub accept_all : List (Option Job) → Option (List Job)
accept_all [] = some []
accept_all (o ∷ os) = accept o >>= λ j. accept_all os >>= λ js. some (j ∷ js)

abbrev pub decoded : Decoded → Option (List Job)
decoded (jobs_of js) = some js
decoded (bad_spec i e) = none

decoded-prepend :
    (j : Job) (d : Decoded) → decoded (prepend j d) ≡ (decoded d >>= λ js. some (j ∷ js))
unfolding prepend
decoded-prepend j (jobs_of js) = refl
decoded-prepend j (bad_spec i e) = refl

with_driver-default_driver : (j : Job) → with_driver j ≡ default_driver j
unfolding with_driver default_driver
with_driver-default_driver j = refl

is_runnable-is_hop_image :
    (j : Job)
    → is_runnable j ≡ not (str_eq j.command "" && (str_eq j.image "" && not (is_hop_image j)))
unfolding is_runnable is_hop_image
is_runnable-is_hop_image j = ground arith

accept-is_runnable :
    (j : Job)
    → accept (some j) ≡ (
        if str_eq j.name ""
        then none
        else if is_runnable (with_driver j)
        then some (with_driver j)
        else none)
unfolding accept
accept-is_runnable j =
    rw (with_driver-default_driver j, is_runnable-is_hop_image (default_driver j)) (ground arith)

accept-none : accept none ≡ none
unfolding accept
accept-none = refl

decode_from-accept_all :
    (i : ℕ) (specs : List (Option Job)) → decoded (decode_from i specs) ≡ accept_all specs
unfolding decode_from
decode_from-accept_all i [] = refl
decode_from-accept_all i (none ∷ specs) = rw accept-none refl
decode_from-accept_all i (some j ∷ specs) = elim (Bool-cases (str_eq j.name "")) [
  | inl e ↦ simp (accept-is_runnable j, e) refl
  | inr e ↦ elim (Bool-cases (is_runnable (with_driver j))) [
    | inl f ↦
        simp (accept-is_runnable j, e, f)
          (decoded-prepend (with_driver j) (decode_from (suc i) specs)
            ∙ ap (λ o. o >>= λ js. some (with_driver j ∷ js))
                (decode_from-accept_all (suc i) specs))
    | inr f ↦ simp (accept-is_runnable j, e, f) refl
  ]
]

cons_mono :
    (o : Option Job) (r r' : Option (List Job)) (js : List Job)
    → ((ks : List Job) → r ≡ some ks → r' ≡ some ks)
    → (o >>= λ j. r >>= λ ks. some (j ∷ ks)) ≡ some js
    → (o >>= λ j. r' >>= λ ks. some (j ∷ ks)) ≡ some js
cons_mono none r r' js f h = h
cons_mono (some j) none r' js f h = ground (arith, h)
cons_mono (some j) (some ks) r' js f h = rw (f ks refl) h

-- What the first gives the second gives too.
abbrev pub IsBelow : Option (List Job) → Option (List Job) → Type 0
IsBelow none o = Unit
IsBelow (some js) o = o ≡ some js

none≢accepted : (j : Job) → none ≢ some j
none≢accepted j h = ground (arith, h)

none≢accepted_all : (js : List Job) → none ≢ some js
none≢accepted_all js h = ground (arith, h)

module _ {Spec : Type 0} (strict lenient : Spec → Option Job)
    (agree : (s : Spec) (j : Job) → strict s ≡ some j → lenient s ≡ some j) where
  accept-lenient : (s : Spec) (j : Job) → accept (strict s) ≡ some j → accept (lenient s) ≡ some j
  accept-lenient s j h = elim (Option-cases (strict s)) [
    | inl e ↦ absurd (none≢accepted j (sym (ap accept e ∙ accept-none) ∙ h))
    | inr (k, e) ↦ ap accept (agree s k e ∙ sym e) ∙ h
  ]

  accept_all-lenient :
      (specs : List Spec) (js : List Job)
      → accept_all (map strict specs) ≡ some js
      → accept_all (map lenient specs) ≡ some js
  accept_all-lenient [] js h = h
  accept_all-lenient (s ∷ specs) js h = elim (Option-cases (accept (strict s))) [
    | inl e ↦ absurd (none≢accepted_all js (rw e at h))
    | inr (j, e) ↦ rw (accept-lenient s j e) (
        cons_mono (some j) (accept_all (map strict specs)) (accept_all (map lenient specs)) js
          (accept_all-lenient specs) (rw e at h))
  ]

  below : (o o' : Option (List Job)) → ((js : List Job) → o ≡ some js → o' ≡ some js) → IsBelow o o'
  below none o' f = tt
  below (some js) o' f = f js refl

  -- Two decoders of a spec, the strict one of the init jobs, which refuses a field that no job has,
  -- and the one of the API, which passes over it; what the strict one takes the other takes as the
  -- same job. Where init jobs decode, the API would take each of them, posted by itself, as the same
  -- job, drivers filled in alike. And after the same decoder, the strict one, both take the same jobs
  -- and refuse the same: they differ in nothing else.
  pub decode_init_jobs-accept_all :
      (specs : List Spec)
      → IsBelow (decoded (decode_init_jobs (map strict specs))) (accept_all (map lenient specs))
        × (decoded (decode_init_jobs (map strict specs)) ≡ accept_all (map strict specs))
  unfolding decode_init_jobs
  decode_init_jobs-accept_all specs =
      let strictly = decode_from-accept_all 0 (map strict specs) in
      (
        below (decoded (decode_from 0 (map strict specs))) (accept_all (map lenient specs))
            (λ js h. accept_all-lenient specs js (sym strictly ∙ h)),
        strictly,
      )
