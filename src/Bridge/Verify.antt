-- ===== src/Bridge/Verify.antt =====
-- packages/digi-bridge/src/verify.ts: the verification of a TrustID assertion. The library jose and
-- the cache of keys are parameters; the cache of the source is Bridge/Keys.
use trustid.Base.{
  ℕ, ◌+◌, ◌*◌, ◌/◌, Bool, true, false, not, ◌&&◌, ◌||◌, Option, none, some, List, [], ◌∷◌, String,
  ltb, any, includes, get_or, is_some, ◌==◌, if◌then◌else◌,
}
use trustid.Base.JsMap
use trustid.Base.Json.{Json, Items, null, undefined, num, str, arr}
use trustid.Base.JsMap.{JsMap}
use trustid.Base.Number.{Number, nat, nan, num_lt, num_le, is_finite}
use trustid.Base.Text.{codes, is_space, strip_prefix, trim}
use trustid.Base.Utf.{utf16_length}
use trustid.Base.Effect.{Effect, pure, fail, ◌>>=◌, ◌>>◌}
use trustid.Bridge.Types.{
  Reason, malformed_jwt, bad_signature, expired, not_active, future_iat, issuer_mismatch,
  audience_mismatch, missing_audience, unknown_kid, unsupported_alg, alg_none, missing_sub,
  malformed_sub, missing_jti, missing_claims, Verified,
}

pub record Header : Type 0 where
  pub alg : Option String
  pub kid : Option String

abbrev pub Payload : Type 0
Payload = JsMap Json

-- What `jwtVerify` raises, as far as the source tells the errors apart: `JWTExpired`,
-- `JWTClaimValidationFailed` with its claim or "", and any other.
pub data JoseError : Type 0 where
  jwt_expired : JoseError
  claim_failed : String → JoseError
  other_error : JoseError

pub data Verdict : Type 0 where
  verified : Payload → Verdict
  rejected : JoseError → Verdict

pub record JwtOptions : Type 0 where
  pub issuer : String
  pub audience : String
  pub clock_tolerance : ℕ
  pub current_date : ℕ

-- jose; a decoder gives `none` where it throws. `jwt_verify` is called with the algorithm EdDSA.
pub record Jose : Type 0 where
  pub decode_protected_header : String → Option Header
  pub decode_jwt : String → Option Payload
  pub jwt_verify : String → String → JwtOptions → Verdict

-- `resolveDigiAudience` of packages/shared/src/index.ts: first DIGI_AUDIENCE, then the node
-- environment given, then NODE_ENV.
unfoldable pub resolve_digi_audience : Option String → Option String → Option String → String
unfolding trim
resolve_digi_audience digi_audience given node_env =
    let explicit = trim (get_or digi_audience "") in
    if not (explicit == "")
    then explicit
    else if get_or given (get_or node_env "development") == "production"
    then "digiconomy:digi"
    else "digiconomy:digi:dev"

abbrev pub allowed_assertion_algs : List String
allowed_assertion_algs = "EdDSA" ∷ []

abbrev pub max_iat_skew_sec : ℕ
max_iat_skew_sec = 120

-- `normalizeSubject`, for a text.
unfoldable pub normalize_text : String → Option String
unfolding trim
normalize_text sub =
    let s = trim sub in
    if ltb (utf16_length s) 3 || ltb 128 (utf16_length s)
    then none
    else if any is_space (codes s)
    then none
    else some s

unfoldable pub normalize_subject : Option Json → Option String
unfolding normalize_text
normalize_subject (some (str s)) = normalize_text s
normalize_subject _ = none

-- The tests of the header.
unfoldable pub refuse_header : Header → Option Reason
refuse_header h =
    if get_or h.alg "" == "none" || get_or h.alg "" == "None"
    then some alg_none
    else if not (includes allowed_assertion_algs (get_or h.alg "undefined"))
    then some unsupported_alg
    else if get_or h.kid "" == ""
    then some unknown_kid
    else none

-- `v == null`.
abbrev pub is_nullish : Option Json → Bool
is_nullish none = true
is_nullish (some null) = true
is_nullish (some undefined) = true
is_nullish _ = false

-- `typeof v === "number" ? v : other`.
abbrev pub number_or : Number → Option Json → Number
number_or other (some (num n)) = n
number_or other _ = other

abbrev pub text_or : String → Option Json → String
text_or other (some (str s)) = s
text_or other _ = other

-- `v === s` for a text s.
abbrev pub is_text_of : String → Option Json → Bool
is_text_of s (some (str t)) = t == s
is_text_of s _ = false

-- `Array.isArray(aud) ? aud[0] : aud`.
abbrev pub first_element : Items → Option Json
first_element Items.nil = none
first_element (Items.cons v vs) = some v

abbrev pub single_audience : Option Json → Option Json
single_audience (some (arr vs)) = first_element vs
single_audience aud = aud

-- The `catch` around `jwtVerify`.
unfoldable pub classify : Option Payload → JoseError → Reason
classify decoded jwt_expired = expired
classify decoded (claim_failed claim) =
    if claim == "exp"
    then expired
    else if claim == "nbf"
    then not_active
    else if claim == "iss"
    then issuer_mismatch
    else if claim == "aud"
    then (elim decoded [
      | none ↦ audience_mismatch
      | some p ↦ if is_nullish (JsMap.get p "aud") then missing_audience else audience_mismatch
    ])
    else missing_claims
classify decoded other_error = bad_signature

abbrev pub iat_of : Payload → Number
iat_of p = number_or nan (JsMap.get p "iat")

abbrev pub nbf_of : Payload → Number
nbf_of p = number_or (iat_of p) (JsMap.get p "nbf")

abbrev pub exp_of : Payload → Number
exp_of p = number_or nan (JsMap.get p "exp")

abbrev pub audience_text : Payload → String
audience_text p = text_or "" (single_audience (JsMap.get p "aud"))

-- The LifeOS audience, and any other that starts like it and is not the expected one.
unfoldable pub is_lifeos : String → String → Bool
is_lifeos aud expected =
    aud == "lifeos"
    || (is_some (strip_prefix (codes "lifeos") (codes aud)) && not (aud == expected))

-- The tests of the times, of the issuer and of the audience that come first.
unfoldable pub refuse_origin : String → String → ℕ → Payload → Option Reason
unfolding is_lifeos
refuse_origin issuer audience now p =
    if is_finite (iat_of p) && num_lt (nat (now + max_iat_skew_sec)) (iat_of p)
    then some future_iat
    else if is_finite (nbf_of p) && num_lt (nat (now + 5)) (nbf_of p)
    then some not_active
    else if not (is_text_of issuer (JsMap.get p "iss"))
    then some issuer_mismatch
    else if is_nullish (JsMap.get p "aud")
    then some missing_audience
    else if not (is_text_of audience (single_audience (JsMap.get p "aud")))
    then some audience_mismatch
    else if is_lifeos (audience_text p) audience
    then some audience_mismatch
    else none

abbrev pub jti_of : Payload → String
jti_of p = trim (text_or "" (JsMap.get p "jti"))

-- The tests of the subject, of the id and of the times that come last.
unfoldable pub refuse_claims : ℕ → Payload → Option Reason
unfolding normalize_subject trim
refuse_claims now p =
    if is_nullish (JsMap.get p "sub")
    then some missing_sub
    else if get_or (normalize_subject (JsMap.get p "sub")) "" == ""
    then some malformed_sub
    else if jti_of p == ""
    then some missing_jti
    else if not (is_finite (iat_of p)) || not (is_finite (exp_of p))
    then some missing_claims
    else if num_lt (nat (now + max_iat_skew_sec)) (iat_of p)
    then some future_iat
    else if num_lt (nat (now + 5)) (nbf_of p)
    then some not_active
    else if num_le (exp_of p) (nat now)
    then some expired
    else none

unfoldable pub verified_of : String → Payload → Verified
unfolding normalize_subject
verified_of kid p = record {
  issuer = text_or "" (JsMap.get p "iss");
  audience = audience_text p;
  subject = get_or (normalize_subject (JsMap.get p "sub")) "";
  jti = jti_of p;
  iat = iat_of p;
  nbf = nbf_of p;
  exp = exp_of p;
  kid = kid;
}

pub record VerifyInput : Type 0 where
  pub assertion : String
  pub expected_issuer : String
  pub expected_audience : Option String
  pub now_sec : Option ℕ

-- The host: the library, the cache of keys (`getKey`), the clock and the environment.
pub record Checker (S : Type 0) : Type 0 where
  pub jose : Jose
  pub get_key : Header → Effect S Reason (Option String)
  pub clock : Effect S Reason ℕ
  pub digi_audience : Option String
  pub node_env : Option String

abbrev pub audience_for : Option String → Option String → Option String → String
audience_for (some a) digi_audience node_env = a
audience_for none digi_audience node_env = resolve_digi_audience digi_audience node_env node_env

abbrev pub options_of : String → String → ℕ → JwtOptions
options_of issuer audience now = record {
  issuer = issuer;
  audience = audience;
  clock_tolerance = 5;
  current_date = now * 1000;
}

module _ {S : Type 0} where
  -- An early return with a reason, if there is one.
  unfoldable pub stop : Option Reason → Effect S Reason (Unit {0})
  unfolding pure fail
  stop none = pure tt
  stop (some r) = fail r

  -- A value that has to be there.
  unfoldable pub need : {A : Type 0} → Reason → Option A → Effect S Reason A
  unfolding pure fail
  need r none = fail r
  need r (some a) = pure a

  unfoldable pub accept : Option Payload → Verdict → Effect S Reason Payload
  unfolding pure fail
  accept decoded (verified p) = pure p
  accept decoded (rejected e) = fail (classify decoded e)

  module _ (checker : Checker S) where
    unfoldable pub now_of : Option ℕ → Effect S Reason ℕ
    unfolding ◌>>=◌
    now_of (some n) = pure n
    now_of none = do now ← checker.clock; pure (now / 1000)

    -- From the header on, at a time in seconds and for an audience.
    unfoldable pub verify_at : VerifyInput → String → ℕ → Effect S Reason Verified
    unfolding stop need accept ◌>>=◌
    verify_at i audience now = do
      stop (if i.assertion == "" then some malformed_jwt else none)
      header ← need malformed_jwt (checker.jose.decode_protected_header i.assertion)
      stop (refuse_header header)
      key ← checker.get_key header
      key ← need unknown_kid key
      p ←
          accept (checker.jose.decode_jwt i.assertion)
            (checker.jose.jwt_verify i.assertion key (options_of i.expected_issuer audience now))
      stop (refuse_origin i.expected_issuer audience now p)
      stop (refuse_claims now p)
      pure (verified_of (get_or header.kid "") p)

    unfoldable pub verify_digi_assertion : VerifyInput → Effect S Reason Verified
    unfolding now_of verify_at ◌>>=◌
    verify_digi_assertion i = do
      now ← now_of i.now_sec
      verify_at i (audience_for i.expected_audience checker.digi_audience checker.node_env) now
