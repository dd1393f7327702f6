-- ===== src/Authority/Tokens.antt =====
-- packages/digi-authority/src/tokens.ts. The library jose and Node's base64 and JSON are a parameter.
use trustid.Base.{
  ℕ, ◌/◌, ◌+◌, Bool, true, false, not, Option, none, some, List, [], ◌∷◌, String, ltb, eqb,
  if◌then◌else◌, ◌&&◌, ◌||◌, ◌==◌, includes, find, get_or, map,
}
use trustid.Base.JsMap
use trustid.Base.Json.{Json, elems, texts_json, entries, object, bool, num, str, arr, obj}
use trustid.Base.Number.{Number, nat, num_lt}
use trustid.Base.Text.{codes, has_infix, lower}
use trustid.Base.Effect.{Outcome, ok, failed, thrown}
use trustid.Authority.Types.{
  authority_issuer, max_token_ttl_seconds, ApprovalMode, mode_text, Limits, Claims, Reason, bad_alg,
  unknown_kid, malformed, not_yet_valid, wrong_actor, wrong_action, wrong_resource, wrong_audience,
  token_expired, invalid_token,
}
use trustid.Authority.Claims.{Payload, is_authority_claims_shape}

-- A public key in JWK form, with its material as a text.
pub record Jwk : Type 0 where
  pub kid : Option String
  pub material : String

pub record Header : Type 0 where
  pub alg : Option String
  pub kid : Option String

-- What a `catch` sees: the `claim` of a jose error, or "", and the message.
pub record JwtError : Type 0 where
  pub claim : String
  pub message : String

pub data Attempt {ℓ} (A : Type ℓ) : Type ℓ where
  value : A → Attempt A
  raised : JwtError → Attempt A

pub record JwtOptions : Type 0 where
  pub issuer : String
  pub audience : String
  pub clock_tolerance : ℕ
  pub current_date : ℕ

-- jose, and the decoding of a token's first part. `jwt_verify` is called with the algorithm EdDSA
-- and the required claims of the source.
pub record Jose : Type 0 where
  pub decode_header : String → Attempt Header
  pub import_jwk : Jwk → Attempt String
  pub jwt_verify : String → String → JwtOptions → Attempt Payload
  pub sign : String → String → Payload → String

pub record SigningKey : Type 0 where
  pub kid : String
  pub private_key : String
  pub public_jwk : Jwk

pub record MintInput : Type 0 where
  pub owner_id : String
  pub audience : String
  pub actor : String
  pub actions : List String
  pub resources : List String
  pub limits : Limits
  pub approval : ApprovalMode
  pub grant_id : String
  pub grant_version : ℕ
  pub one_time : Bool
  pub jti : String
  pub ttl_seconds : Number
  pub now : ℕ
  pub owner_trust_id : Option String

-- `o ? { ownerTrustId: o } : {}`
abbrev pub truthy : Option String → Option String
truthy none = none
truthy (some s) = if s == "" then none else some s

-- No caller gives `clockSkewSeconds`, so `nbf` is `iat`.
unfoldable pub mint_claims : MintInput → ℕ → Claims
mint_claims input ttl = record {
  iss = authority_issuer;
  sub = input.owner_id;
  aud = input.audience;
  actor = input.actor;
  actions = input.actions;
  resources = input.resources;
  limits = input.limits;
  approval = mode_text input.approval;
  grant_id = input.grant_id;
  grant_version = nat input.grant_version;
  one_time = input.one_time;
  jti = input.jti;
  iat = nat (input.now / 1000);
  nbf = nat (input.now / 1000);
  exp = nat (input.now / 1000 + ttl);
  owner_trust_id = truthy input.owner_trust_id;
}

abbrev pub trust_entry : Option String → Payload
trust_entry none = []
trust_entry (some s) = ("ownerTrustId", str s) ∷ []

-- The claims as an object.
unfoldable pub claims_payload : Claims → Payload
claims_payload c =
    ("iss", str c.iss)
    ∷ ("sub", str c.sub)
    ∷ ("aud", str c.aud)
    ∷ ("actor", str c.actor)
    ∷ ("actions", arr (texts_json c.actions))
    ∷ ("resources", arr (texts_json c.resources))
    ∷ ("limits", obj (object c.limits))
    ∷ ("approval", str c.approval)
    ∷ ("grantId", str c.grant_id)
    ∷ ("grantVersion", num c.grant_version)
    ∷ ("oneTime", bool c.one_time)
    ∷ ("jti", str c.jti)
    ∷ ("iat", num c.iat)
    ∷ ("nbf", num c.nbf)
    ∷ ("exp", num c.exp)
    ∷ trust_entry c.owner_trust_id

-- `!Number.isInteger(ttl) || ttl <= 0 || ttl > 300`, or the ttl.
abbrev pub accepted_ttl : Number → Option ℕ
accepted_ttl (nat n) = if eqb n 0 || ltb max_token_ttl_seconds n then none else some n
accepted_ttl _ = none

abbrev pub Minted : Type 0
Minted = String × Claims

unfoldable pub mint_authority_token : Jose → SigningKey → MintInput → Outcome Reason Minted
unfolding mint_claims
mint_authority_token jose key input = elim (accepted_ttl input.ttl_seconds) [
  | none ↦ thrown "invalid_authority_ttl"
  | some ttl ↦
      let claims = mint_claims input ttl in
      if is_authority_claims_shape (claims_payload claims)
      then ok (jose.sign key.private_key key.kid (claims_payload claims), claims)
      else thrown "invalid_authority_claims"
]

pub record VerifyInput : Type 0 where
  pub token : String
  pub expected_audience : String
  pub expected_actor : Option String
  pub expected_action : Option String
  pub expected_resource : Option String
  pub public_jwks : List Jwk
  pub now : ℕ
  pub clock_tolerance_seconds : Option ℕ

-- `String(v ?? "")`, for a payload that has the shape: a text is itself.
abbrev pub text_of : Option Json → String
text_of (some (str s)) = s
text_of _ = ""

-- `Number(v ?? 0)`, likewise.
abbrev pub number_of : Option Json → Number
number_of (some (num n)) = n
number_of _ = nat 0

abbrev pub bool_of : Option Json → Bool
bool_of (some (bool b)) = b
bool_of _ = false

-- `Array.isArray(v) ? (v as string[]) : []`, likewise.
abbrev pub texts_of : Option Json → List String
texts_of (some (arr vs)) = map (λ v. text_of (some v)) (elems vs)
texts_of _ = []

abbrev pub limits_of : Option Json → Limits
limits_of (some (obj fs)) = entries fs
limits_of _ = []

-- `verifyAuthorityToken` does not read `ownerTrustId`.
unfoldable pub payload_claims : Payload → Claims
payload_claims p = record {
  iss = authority_issuer;
  sub = text_of (JsMap.get p "sub");
  aud = text_of (JsMap.get p "aud");
  actor = text_of (JsMap.get p "actor");
  actions = texts_of (JsMap.get p "actions");
  resources = texts_of (JsMap.get p "resources");
  limits = limits_of (JsMap.get p "limits");
  approval = text_of (JsMap.get p "approval");
  grant_id = text_of (JsMap.get p "grantId");
  grant_version = number_of (JsMap.get p "grantVersion");
  one_time = bool_of (JsMap.get p "oneTime");
  jti = text_of (JsMap.get p "jti");
  iat = number_of (JsMap.get p "iat");
  nbf = number_of (JsMap.get p "nbf");
  exp = number_of (JsMap.get p "exp");
  owner_trust_id = none;
}

-- `expected && !test(expected)`: an expectation that is absent or empty is not tested.
abbrev pub violates : Option String → (String → Bool) → Bool
violates none test = false
violates (some e) test = not (e == "") && not (test e)

-- The tests of the claims against the expectations.
unfoldable pub check_claims : VerifyInput → Claims → Outcome Reason Claims
check_claims input c =
    if c.sub == "" || c.actor == "" || c.jti == "" || c.grant_id == ""
    then failed malformed
    else if violates input.expected_actor (λ e. c.actor == e)
    then failed wrong_actor
    else if violates input.expected_action (includes c.actions)
    then failed wrong_action
    else if violates input.expected_resource (includes c.resources)
    then failed wrong_resource
    else ok c

abbrev pub mentions : String → String → Bool
mentions message part = has_infix (codes part) (codes message)

-- `/part/i.test(message)`, for a part in lower case.
abbrev pub mentions_any_case : String → String → Bool
mentions_any_case message part = has_infix (codes part) (map lower (codes message))

-- The `catch`.
unfoldable pub classify : JwtError → Reason
classify e =
    if e.claim == "aud" || mentions e.message "\"aud\"" || mentions_any_case e.message "audience"
    then wrong_audience
    else if e.claim == "exp"
        || mentions e.message "\"exp\""
        || mentions_any_case e.message "jwt expired"
    then token_expired
    else if e.claim == "nbf" || mentions e.message "\"nbf\""
    then not_yet_valid
    else invalid_token

-- `===` on values that may be undefined.
abbrev pub same_text : Option String → Option String → Bool
same_text none none = true
same_text (some s) (some t) = s == t
same_text _ _ = false

-- What follows a verified signature.
unfoldable pub accept_payload : VerifyInput → Payload → Outcome Reason Claims
unfolding payload_claims check_claims
accept_payload input p =
    if not (is_authority_claims_shape p)
    then failed malformed
    else if num_lt (nat (input.now / 1000)) (number_of (JsMap.get p "iat"))
    then failed not_yet_valid
    else check_claims input (payload_claims p)

abbrev pub options_of : VerifyInput → JwtOptions
options_of input = record {
  issuer = authority_issuer;
  audience = input.expected_audience;
  clock_tolerance = get_or input.clock_tolerance_seconds 0;
  current_date = input.now;
}

unfoldable pub verify_with_key : Jose → VerifyInput → Jwk → Outcome Reason Claims
unfolding classify accept_payload
verify_with_key jose input jwk = elim (jose.import_jwk jwk) [
  | raised e ↦ failed (classify e)
  | value key ↦ elim (jose.jwt_verify input.token key (options_of input)) [
    | raised e ↦ failed (classify e)
    | value p ↦ accept_payload input p
  ]
]

unfoldable pub verify_authority_token : Jose → VerifyInput → Outcome Reason Claims
unfolding verify_with_key
verify_authority_token jose input = elim (jose.decode_header input.token) [
  | raised e ↦ failed (classify e)
  | value header ↦
      if not (same_text header.alg (some "EdDSA"))
      then failed bad_alg
      else (elim (find (λ k. same_text k.kid header.kid) input.public_jwks) [
        | none ↦ failed unknown_kid
        | some jwk ↦ verify_with_key jose input jwk
      ])
]
