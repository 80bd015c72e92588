-- ===== src/Examples/Servers.antt =====
-- The theorems about the API and the signatures, applied.
use easyrun.Prelude.Dict.{lookup}
use easyrun.Prelude.{
  Bool, true, false, ◌≡◌, refl, [], ◌∷◌, none, some, arith, if◌then◌else◌, Option, List, map,
}
use easyrun.Prelude.Text.{String, str_eq}
use Prim.Native.String.{◌++◌}
use easyrun.Types.{Job}
use easyrun.Leader.Reconcile.{total_all}
use easyrun.Leader.State.{count_at}
use easyrun.Leader.InitJobs.{decode_init_jobs}
use easyrun.Api.{get_placed_counts, sum_of}
use easyrun.Api.Placed.{get_placed_counts_lem}
use easyrun.Api.Apply.{accept, handle_apply_job}
use easyrun.Api.Apply.Agreement.{IsBelow, accept_all, decoded, decode_init_jobs-accept_all}
use easyrun.Api.Apply.Outcome.{Applied, handle_apply_job-Applied}
use easyrun.Auth.{Call, Request, body_of, Crypto, passed, sign_call, require_hmac}
use easyrun.Auth.Signed.{Wire, delivered, IsSmall, sign_call-passes, require_hmac-passed}
use easyrun.Examples.Data.{web, leader, world, cluster}

-- A spec is a job, and whether it has a field that no job has.
abbrev Spec : Type 0
Spec = Bool × Job

abbrev strict : Spec → Option Job
strict (unknown, job) = if unknown then none else some job

abbrev lenient : Spec → Option Job
lenient (unknown, job) = some job

strict-lenient : (s : Spec) (j : Job) → strict s ≡ some j → lenient s ≡ some j
strict-lenient (true, job) j h = ground (arith, h)
strict-lenient (false, job) j h = h

abbrev specs : List Spec
specs = (false, web) ∷ []

decode_init_jobs-accept_all_example :
    IsBelow (decoded (decode_init_jobs (map strict specs))) (accept_all (map lenient specs))
    × (decoded (decode_init_jobs (map strict specs)) ≡ accept_all (map strict specs))
decode_init_jobs-accept_all_example =
    decode_init_jobs-accept_all strict lenient strict-lenient specs

abbrev cron : Job
cron = record web { name = "cron" }

handle_apply_job-Applied_example :
    Applied world cluster (accept (some cron)) (handle_apply_job world (some cron) cluster)
handle_apply_job-Applied_example = handle_apply_job-Applied world (some cron) cluster (λ t. refl)

get_placed_counts_lem_example :
    (count_at "web" (get_placed_counts leader) ≡ 3) × (sum_of (get_placed_counts leader) ≡ 4)
unfolding lookup total_all sum_of count_at
get_placed_counts_lem_example =
    get_placed_counts_lem "web" leader ((refl, (refl, tt)), ((refl, tt), tt))

-- A toy in place of the hashes: the key and the text are shown.
abbrev toy : Crypto String
toy = record {
  sha256 = λ b. b;
  hmac = λ k t. k;
  size = λ b. 0;
  empty = "";
  path_of_url = λ u. some "/v1/jobs";
}

abbrev call : Call String
call = record { method = ""; url = "http://a/v1/jobs"; body = "{}"; auth = "" }

abbrev http : Wire
http = record { method = λ m. if str_eq m "" then "GET" else m; path = λ u. "/v1/jobs" }

sign_call-passes_example :
    require_hmac toy "key" (delivered http (sign_call toy call "key")) ≡ passed
sign_call-passes_example =
    sign_call-passes toy http call "key" (refl, (λ m e. simp e refl), refl) (omega arith)

abbrev posted : Request String
posted = record { method = "GET"; path = "/v1/jobs"; body = body_of "{}"; auth = "key" }

require_hmac-passed_example :
    (toy.hmac "key" ("GET" ++ "\n" ++ "/v1/jobs" ++ "\n" ++ "{}") ≡ "key")
    × IsSmall toy (body_of "{}")
unfolding require_hmac
require_hmac-passed_example = require_hmac-passed toy "key" posted refl refl
