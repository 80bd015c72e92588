-- ===== src/Auth.antt =====
-- pkg/httputil/auth.go: the signature of a request. The hash and the keyed hash, both as texts, the
-- size of a body and the path of a URL are outside: parameters.
pub mod Signed
use easyrun.Prelude.{
  ℕ, ◌*◌, Bool, true, false, Option, none, some, List, [], ◌∷◌, ltb, if◌then◌else◌, or_else,
}
use easyrun.Prelude.Text.{String, str_eq}
use Prim.Native.String.{◌++◌}

abbrev pub max_body_bytes : ℕ
max_body_bytes = 512 * 1024

-- `auth` is the header of the signature, empty where there is none.
pub record Call (B : Type 0) : Type 0 where
  pub method : String
  pub url : String
  pub body : B
  pub auth : String

-- What reading a body gives.
pub data Body (B : Type 0) : Type 0 where
  no_body : Body B
  unreadable : Body B
  body_of : B → Body B

pub record Request (B : Type 0) : Type 0 where
  pub method : String
  pub path : String
  pub body : Body B
  pub auth : String

pub data Verdict : Type 0 where
  passed bad_body too_large unauthorized : Verdict

pub record Crypto (B : Type 0) : Type 0 where
  pub sha256 : B → String
  pub hmac : (key text : String) → String
  pub size : B → ℕ
  pub empty : B
  pub path_of_url : String → Option String

module _ {B : Type 0} (c : Crypto B) where
  unfoldable pub signing_string : (method path : String) → B → String
  signing_string method path body = method ++ "\n" ++ path ++ "\n" ++ c.sha256 body

  unfoldable pub sign : (key method path : String) → B → String
  unfolding signing_string
  sign key method path body = c.hmac key (signing_string method path body)

  -- An empty method is a GET.
  unfoldable pub method_of : String → String
  method_of method = if str_eq method "" then "GET" else method

  unfoldable pub sign_call : Call B → String → Call B
  unfolding sign method_of
  sign_call call key = if str_eq key "" then call else record call {
    auth = sign key (method_of call.method) (or_else (c.path_of_url call.url) call.url) call.body;
  }

  unfoldable pub check_signature : String → Request B → B → Verdict
  unfolding sign
  check_signature key r body =
      if str_eq (sign key r.method r.path body) r.auth then passed else unauthorized

  unfoldable pub check_body : String → Request B → Body B → Verdict
  unfolding check_signature
  check_body key r no_body = check_signature key r c.empty
  check_body key r unreadable = bad_body
  check_body key r (body_of b) =
      if ltb max_body_bytes (c.size b) then too_large else check_signature key r b

  -- `RequireHMAC`: whether the handler runs.
  unfoldable pub require_hmac : String → Request B → Verdict
  unfolding check_body
  require_hmac key r = if str_eq key "" then passed else check_body key r r.body
