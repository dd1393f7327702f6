-- ===== src/Verifier.antt =====
-- packages/authority-verifier/src/index.ts: what a service that is not Digi does with an authority
-- token. It checks the token by itself and then has Digi consume it.
pub mod Accepted
pub mod Agreement
pub mod Gate
pub mod Resource
mod Examples
use trustid.Base.{
  ℕ, ◌/◌, Bool, true, false, not, ◌&&◌, ◌||◌, Option, none, some, List, [], ◌∷◌, String, includes,
  find, get_or, is_some, ◌==◌, if◌then◌else◌,
}
use trustid.Base.JsMap
use trustid.Base.Json.{Json, null, undefined, bool, num, str}
use trustid.Base.Number.{nat, nan, num_lt, num_eq}
use trustid.Base.Text.{trim}
use trustid.Base.Effect.{Outcome, ok, failed, thrown, Effect, pure, fail, ◌>>=◌}
use trustid.Authority.Types.{authority_issuer, Claims}
use trustid.Authority.Claims.{Payload, is_authority_claims_shape}
use trustid.Authority.Tokens.{
  Jwk, Header, JwtError, Attempt, value, raised, JwtOptions, Jose, payload_claims, number_of,
  same_text, mentions, mentions_any_case,
}

-- The result `{ ok: false, reason, metric }`.
pub record Refusal : Type 0 where
  pub reason : String
  pub metric : Option String

abbrev pub refusal : String → Refusal
refusal reason = record { reason = reason; metric = some "authority_verify_failure" }

abbrev pub plain_refusal : String → Refusal
plain_refusal reason = record { reason = reason; metric = none }

pub record VerifyAuthorityInput : Type 0 where
  pub token : String
  pub audience : String
  pub action : String
  pub resource : String
  pub actor : String
  pub owner_id : Option String
  pub public_jwks : List Jwk
  pub jwks_url : Option String
  pub now : Option ℕ
  pub clock_tolerance_seconds : Option ℕ

-- jose, its verification by the keys behind a URL, and the present: as jose reads it when it is given
-- no date, and as the source reads it.
pub record VerifierHost : Type 0 where
  pub jose : Jose
  pub remote : String → String → JwtOptions → Attempt Payload
  pub jose_now : ℕ
  pub now : ℕ

-- `!v`
abbrev pub is_falsy : Option Json → Bool
is_falsy none = true
is_falsy (some null) = true
is_falsy (some undefined) = true
is_falsy (some (bool b)) = not b
is_falsy (some (num nan)) = true
is_falsy (some (num n)) = num_eq n (nat 0)
is_falsy (some (str s)) = s == ""
is_falsy _ = false

-- `typeof v === "string" ? v : null`
abbrev pub text_or_null : Option Json → Option String
text_or_null (some (str s)) = some s
text_or_null _ = none

-- The claims of a payload that has the shape.
unfoldable pub verified_claims : Payload → Claims
unfolding payload_claims
verified_claims p = record (payload_claims p) {
  owner_trust_id = text_or_null (JsMap.get p "ownerTrustId");
}

-- The tests of the claims against the operation.
unfoldable pub match_claims : VerifyAuthorityInput → Claims → Outcome Refusal Claims
match_claims i c =
    if c.sub == "" || c.actor == "" || c.jti == "" || c.grant_id == ""
    then failed (refusal "malformed")
    else if not (get_or i.owner_id "" == "") && not (c.sub == get_or i.owner_id "")
    then failed (refusal "wrong_owner")
    else if not (c.actor == i.actor)
    then failed (refusal "wrong_actor")
    else if not (includes c.actions i.action)
    then failed (refusal "wrong_action")
    else if not (includes c.resources i.resource)
    then failed (record { reason = "wrong_resource"; metric = some "authority_wrong_resource" })
    else ok c

-- The `catch`.
unfoldable pub explain : JwtError → Refusal
explain e =
    if e.claim == "aud" || mentions e.message "\"aud\"" || mentions_any_case e.message "audience"
    then record { reason = "wrong_audience"; metric = some "authority_wrong_audience" }
    else if e.claim == "exp"
        || mentions e.message "\"exp\""
        || mentions_any_case e.message "jwt expired"
    then record { reason = "expired"; metric = some "authority_expired" }
    else if e.claim == "nbf" || mentions e.message "\"nbf\""
    then refusal "not_yet_valid"
    else if mentions_any_case e.message "issuer" || e.claim == "iss"
    then refusal "wrong_issuer"
    else if mentions_any_case e.message "no matching"
        || mentions_any_case e.message "jwks"
        || mentions_any_case e.message "key"
    then refusal "unknown_kid"
    else refusal "invalid_token"

module _ (host : VerifierHost) where
  -- What follows a verified signature.
  unfoldable pub admit : VerifyAuthorityInput → Payload → Outcome Refusal Claims
  unfolding verified_claims match_claims
  admit i p =
      if not (is_authority_claims_shape p)
      then failed (refusal "malformed")
      else if num_lt (nat (get_or i.now host.now / 1000)) (number_of (JsMap.get p "iat"))
      then failed (plain_refusal "not_yet_valid")
      else if is_falsy (JsMap.get p "actor")
          || is_falsy (JsMap.get p "actions")
          || is_falsy (JsMap.get p "grantId")
          || is_falsy (JsMap.get p "jti")
      then failed (refusal "not_authority_token")
      else match_claims i (verified_claims p)

  abbrev pub jwt_options : VerifyAuthorityInput → JwtOptions
  jwt_options i = record {
    issuer = authority_issuer;
    audience = i.audience;
    clock_tolerance = get_or i.clock_tolerance_seconds 0;
    current_date = get_or i.now host.jose_now;
  }

  unfoldable pub settle : VerifyAuthorityInput → Attempt Payload → Outcome Refusal Claims
  unfolding admit explain
  settle i (value p) = admit i p
  settle i (raised e) = failed (explain e)

  unfoldable pub verify_by_jwk : VerifyAuthorityInput → String → Option Jwk → Outcome Refusal Claims
  unfolding settle explain
  verify_by_jwk i token none = failed (refusal "unknown_kid")
  verify_by_jwk i token (some jwk) = elim (host.jose.import_jwk jwk) [
    | raised e ↦ failed (explain e)
    | value key ↦ settle i (host.jose.jwt_verify token key (jwt_options i))
  ]

  -- The keys that are given, or those behind the URL.
  unfoldable pub verify_by :
      VerifyAuthorityInput → String → Header → List Jwk → Outcome Refusal Claims
  unfolding verify_by_jwk settle
  verify_by i token header (k ∷ ks) =
      verify_by_jwk i token (find (λ j. same_text j.kid header.kid) (k ∷ ks))
  verify_by i token header [] =
      if get_or i.jwks_url "" == ""
      then failed (refusal "no_jwks")
      else settle i (host.remote (get_or i.jwks_url "") token (jwt_options i))

  unfoldable pub verify_decoded :
      VerifyAuthorityInput → String → Attempt Header → Outcome Refusal Claims
  unfolding verify_by
  verify_decoded i token (raised e) = failed (refusal "malformed_token")
  verify_decoded i token (value header) =
      if not (same_text header.alg (some "EdDSA"))
      then failed (refusal "bad_alg")
      else verify_by i token header i.public_jwks

  unfoldable pub verify_authority : VerifyAuthorityInput → Outcome Refusal Claims
  unfolding verify_decoded trim
  verify_authority i =
      if trim i.token == ""
      then failed (refusal "missing_token")
      else verify_decoded i (trim i.token) (host.jose.decode_header (trim i.token))

-- What the consumption client sends and gets.
pub record Presented : Type 0 where
  pub token : String
  pub audience : String
  pub actor : String
  pub action : String
  pub resource : String

pub record Decision : Type 0 where
  pub decision : String
  pub grant_id : Option String
  pub jti : Option String
  pub reason : Option String

abbrev pub presented : VerifyAuthorityInput → Presented
presented i = record {
  token = i.token;
  audience = i.audience;
  actor = i.actor;
  action = i.action;
  resource = i.resource;
}

-- The test of Digi's answer.
unfoldable pub bind_decision : Claims → Decision → Outcome Refusal Claims
bind_decision c d =
    if not (d.decision == "ALLOW")
    then failed (plain_refusal (get_or d.reason "consume_denied"))
    else if not (same_text d.grant_id (some c.grant_id)) || not (same_text d.jti (some c.jti))
    then failed (plain_refusal "consume_binding_mismatch")
    else ok c

-- The answer, or that there was none.
unfoldable pub consumed_as : Claims → Outcome Refusal Decision → Outcome Refusal Claims
unfolding bind_decision
consumed_as c (ok d) = bind_decision c d
consumed_as c (failed r) = failed (plain_refusal "authority_unavailable")
consumed_as c (thrown m) = failed (plain_refusal "authority_unavailable")

module _ {S : Type 0} (host : VerifierHost) (consume : Presented → Effect S Refusal Decision) where
  unfoldable pub consume_verified :
      VerifyAuthorityInput → Outcome Refusal Claims → Effect S Refusal Claims
  unfolding consumed_as
  consume_verified i (ok c) s =
      (consumed_as c (consume (presented i) s).0, (consume (presented i) s).1)
  consume_verified i (failed r) s = (failed r, s)
  consume_verified i (thrown m) s = (thrown m, s)

  unfoldable pub authorize_authority : VerifyAuthorityInput → Effect S Refusal Claims
  unfolding verify_authority consume_verified
  authorize_authority i s = consume_verified i (verify_authority host i) s
