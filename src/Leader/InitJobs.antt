-- ===== src/Leader/InitJobs.antt =====
-- internal/leader/init.go: the jobs that a cluster begins with. The decoder of a job is the caller's,
-- and strict: a spec that it refuses, one with an unknown field included, is `none`.
pub mod Laws
use easyrun.Prelude.{
  ℕ, suc, Bool, true, false, not, ◌&&◌, ◌||◌, List, [], ◌∷◌, Option, none, some, ◌==◌,
  if◌then◌else◌, ltb, length, is_some,
}
use easyrun.Prelude.Int.{ℤ, pos}
use easyrun.Prelude.Text.{String, str_eq}
use easyrun.Types.{Job, driver_hop}
use easyrun.Node.Store.{get_job, get_jobs}
use easyrun.Leader.System.{World, Sys}
use easyrun.Leader.Reconcile.{submit_job}

pub data InitError : Type 0 where
  undecodable name_missing nothing_to_run : InitError

pub data Decoded : Type 0 where
  jobs_of : List Job → Decoded
  bad_spec : ℕ → InitError → Decoded

-- Exactly one artifact, and nothing else to run, can only be for the hop driver.
unfoldable pub with_driver : Job → Job
with_driver j =
    if str_eq j.driver "" && (str_eq j.command "" && (str_eq j.image "" && length j.artifacts == 1))
    then record j { driver = driver_hop }
    else j

unfoldable pub is_runnable : Job → Bool
is_runnable j =
    not (str_eq j.command "" && str_eq j.image "")
    || (str_eq j.driver driver_hop && ltb 0 (length j.artifacts))

-- The number of the spec comes with the error.
unfoldable pub prepend : Job → Decoded → Decoded
prepend j (jobs_of js) = jobs_of (j ∷ js)
prepend j (bad_spec i e) = bad_spec i e

unfoldable pub decode_from : ℕ → List (Option Job) → Decoded
unfolding with_driver is_runnable prepend
decode_from i [] = jobs_of []
decode_from i (none ∷ specs) = bad_spec i undecodable
decode_from i (some j ∷ specs) =
    let rest = decode_from (suc i) specs in
    if str_eq j.name ""
    then bad_spec i name_missing
    else if is_runnable (with_driver j)
    then prepend (with_driver j) rest
    else bad_spec i nothing_to_run

unfoldable pub decode_init_jobs : List (Option Job) → Decoded
decode_init_jobs specs = decode_from 0 specs

unfoldable pub next_priority : Sys → ℤ
next_priority y = pos (length (get_jobs y.store))

-- A priority that is missing is the next one.
unfoldable pub with_default_priority : Sys → Job → Job
with_default_priority y j =
    if is_some j.priority then j else record j { priority = some (next_priority y) }

-- Errors are only logged.
unfoldable pub seed_init_jobs : World → List Job → Sys → Sys
unfolding with_default_priority
seed_init_jobs w [] y = y
seed_init_jobs w (j ∷ js) y =
    seed_init_jobs w js (
      if is_some (get_job j.name y.store)
      then y
      else (submit_job w (with_default_priority y j) y).1)
