-- ===== src/Auth/Signed.antt =====
-- Which requests pass the check of pkg/httputil/auth.go.
use easyrun.Prelude.{◌≡◌, ◌≤◌, refl, sym, ◌∙◌, false, some, ltb, arith, Bool-cases, inl, inr}
use easyrun.Prelude.Text.{String, str_eq, str_eq_iff, str_eq_refl}
use Prim.Native.String.{◌++◌}
use easyrun.Auth.{
  Call, Body, no_body, unreadable, body_of, Request, passed, Crypto, max_body_bytes, sign,
  signing_string, method_of, sign_call, check_signature, check_body, require_hmac,
}

-- What the transport makes of a call: the method and the path that the server sees.
pub record Wire : Type 0 where
  pub method : String → String
  pub path : String → String

abbrev pub delivered : {B : Type 0} → Wire → Call B → Request B
delivered wire call = record {
  method = wire.method call.method;
  path = wire.path call.url;
  body = body_of call.body;
  auth = call.auth;
}

-- HTTP sends a call without a method as a GET, any other with its method, and the path of its URL.
abbrev pub IsHttp : {B : Type 0} → Crypto B → Wire → String → Type 0
IsHttp c wire url =
    (wire.method "" ≡ "GET")
    × ((m : String) → str_eq m "" ≡ false → wire.method m ≡ m)
    × (c.path_of_url url ≡ some (wire.path url))

-- The body that the signature covers.
abbrev pub covered : {B : Type 0} → Crypto B → Body B → B
covered c no_body = c.empty
covered c unreadable = c.empty
covered c (body_of b) = b

module _ {B : Type 0} (c : Crypto B) where
  method_of-wire :
      (wire : Wire) (m url : String) → IsHttp c wire url → method_of c m ≡ wire.method m
  unfolding method_of
  method_of-wire wire m url (get, other, path) = elim (Bool-cases (str_eq m "")) [
    | inl e ↦ ground (arith, e, get, str_eq_iff m "")
    | inr e ↦ ground (arith, e, other m e)
  ]

  -- A call that was signed with a key passes at a server with the same key, where its body is not too
  -- large, its URL has a path, and the transport keeps to HTTP: a call without a method is a GET, any
  -- other keeps its method, and the server sees the path of the URL.
  pub sign_call-passes :
      (wire : Wire) (call : Call B) (key : String)
      → IsHttp c wire call.url
      → c.size call.body ≤ max_body_bytes
      → require_hmac c key (delivered wire (sign_call c call key)) ≡ passed
  unfolding require_hmac sign_call check_body check_signature
  sign_call-passes wire call key http small = elim (Bool-cases (str_eq key "")) [
    | inl e ↦ simp e refl
    | inr e ↦
        let text = sign c key (wire.method call.method) (wire.path call.url) call.body in
        let fits : ltb max_body_bytes (c.size call.body) ≡ false = ground (arith, small) in
        let method = method_of-wire wire call.method call.url http in
        simp (e, fits, method, http.2, str_eq_refl text) refl
  ]

  abbrev pub IsSmall : Body B → Type 0
  IsSmall no_body = Unit
  IsSmall unreadable = ⊥
  IsSmall (body_of b) = c.size b ≤ max_body_bytes

  check_signature-passed :
      (key : String) (r : Request B) (body : B)
      → check_signature c key r body ≡ passed
      → sign c key r.method r.path body ≡ r.auth
  unfolding check_signature
  check_signature-passed key r body h =
      ground (arith, h, str_eq_iff (sign c key r.method r.path body) r.auth)

  check_body-passed :
      (key : String) (r : Request B) (body : Body B)
      → check_body c key r body ≡ passed
      → (sign c key r.method r.path (covered c body) ≡ r.auth) × IsSmall body
  unfolding check_body
  check_body-passed key r no_body h = (check_signature-passed key r c.empty h, tt)
  check_body-passed key r unreadable h = ground (arith, h)
  check_body-passed key r (body_of b) h = elim (Bool-cases (ltb max_body_bytes (c.size b))) [
    | inl e ↦ ground (arith, h, e)
    | inr e ↦ (check_signature-passed key r b (ground (arith, h, e)), ground (arith, e))
  ]

  -- The text that the signature is of, line by line.
  sign-written :
      (key method path : String) (body : B)
      → sign c key method path body ≡ c.hmac key (method ++ "\n" ++ path ++ "\n" ++ c.sha256 body)
  unfolding sign signing_string
  sign-written key method path body = refl

  -- With a key, a request whose handler runs carries as its signature the keyed hash of three lines,
  -- its method, its path and the hash of its body, and the body could be read and is not too large.
  -- A signature that was taken from another request passes only where the keyed hash of both is the
  -- same.
  pub require_hmac-passed :
      (key : String) (r : Request B)
      → str_eq key "" ≡ false
      → require_hmac c key r ≡ passed
      → (c.hmac key (r.method ++ "\n" ++ r.path ++ "\n" ++ c.sha256 (covered c r.body)) ≡ r.auth)
        × IsSmall r.body
  unfolding require_hmac
  require_hmac-passed key r keyed h =
      let (signed, small) = check_body-passed key r r.body (ground (arith, h, keyed)) in
      (sym (sign-written key r.method r.path (covered c r.body)) ∙ signed, small)
