-- ===== src/Verifier/Agreement.antt =====
-- What `verifyAuthority` of packages/authority-verifier accepts, `verifyAuthorityToken` of
-- packages/digi-authority accepts; the verifier refuses more, by its tests of the owner and the actor.
use trustid.Base.{
  ℕ, ◌/◌, ◌≡◌, ◌≢◌, inl, inr, refl, sym, ap, ◌∙◌, Bool, true, false, none, some, [], String, arith,
  includes, get_or, ◌==◌, eq_iff, Bool-cases,
}
use trustid.Base.JsMap
use trustid.Base.Number.{nat, num_lt}
use trustid.Base.Text.{trim}
use trustid.Base.Effect.{ok}
use trustid.Authority.Types.{authority_issuer, Claims}
use trustid.Authority.Claims.{Payload}
use trustid.Authority.Tokens.{
  value, options_of, VerifyInput, payload_claims, number_of, check_claims, accept_payload,
  verify_with_key, verify_authority_token, violates,
}
use trustid.Verifier.Accepted.{IsMatching, IsAdmitted, signed_inv, verify_authority_lem}
use trustid.Verifier.{VerifyAuthorityInput, VerifierHost, verified_claims, verify_authority}

-- The same question to Digi's own check.
abbrev pub digi_input : VerifyAuthorityInput → ℕ → VerifyInput
digi_input i now = record {
  token = trim i.token;
  expected_audience = i.audience;
  expected_actor = some i.actor;
  expected_action = some i.action;
  expected_resource = some i.resource;
  public_jwks = i.public_jwks;
  now = now;
  clock_tolerance_seconds = i.clock_tolerance_seconds;
}

-- Digi's check leaves the owner's TrustID out.
abbrev pub without_trust_id : Claims → Claims
without_trust_id c = record c { owner_trust_id = none }

met : (e : String) (test : String → Bool) → test e ≡ true → violates (some e) test ≡ false
met e test h = elim (Bool-cases (e == "")) [ inl blank ↦ ground arith | inr given ↦ ground arith ]

-- Claims that match the operation pass Digi's tests.
matched_both :
    (i : VerifyAuthorityInput) (now : ℕ) (c : Claims)
    → IsMatching i c
    → check_claims (digi_input i now) (without_trust_id c) ≡ ok (without_trust_id c)
unfolding check_claims
matched_both i now c m =
    rw
      (
        m.complete,
        met i.actor (λ e. c.actor == e) ((eq_iff c.actor i.actor).1 m.actor),
        met i.action (includes c.actions) m.action,
        met i.resource (includes c.resources) m.resource,
      )
      refl

module _ (host : VerifierHost) where
  admitted_both :
      (i : VerifyAuthorityInput) (now : ℕ) (p : Payload) (c : Claims)
      → i.now ≡ some now
      → IsAdmitted host i p c
      → accept_payload (digi_input i now) p ≡ ok (without_trust_id c)
  unfolding accept_payload verified_claims
  admitted_both i now p c dated a =
      let issued : num_lt (nat (now / 1000)) (number_of (JsMap.get p "iat")) ≡ false =
        ap (λ o. num_lt (nat (get_or o host.now / 1000)) (number_of (JsMap.get p "iat")))
          (sym dated)
        ∙ a.issued in
      let claims : payload_claims p ≡ without_trust_id c = ap without_trust_id (sym a.claims) in
      rw (a.shape, issued)
        (ap (check_claims (digi_input i now)) claims ∙ matched_both i now c a.matching)

  -- A token that the verifier accepts by the keys that it is given is accepted by Digi's own check of
  -- the same token for the same operation at the same time, with the same claims but for the owner's
  -- TrustID, which that check leaves out.
  pub verify_authority-agrees :
      (i : VerifyAuthorityInput) (now : ℕ) (c : Claims)
      → i.now ≡ some now
      → i.public_jwks ≢ []
      → verify_authority host i ≡ ok c
      → verify_authority_token host.jose (digi_input i now) ≡ ok (without_trust_id c)
  unfolding verify_authority_token verify_with_key
  verify_authority-agrees i now c dated keyed h =
      let (_, (header, p, decoded, alg, signed, admitted)) = verify_authority_lem host i c h in
      elim (signed_inv host i header p signed) [
        | inr (none_given, _) ↦ absurd (keyed none_given)
        | inl (jwk, key, found, imported, checked) ↦
            let checked_at : host.jose.jwt_verify (trim i.token) key (options_of (digi_input i now))
                ≡ value p =
              ap
                (λ o. host.jose.jwt_verify (trim i.token) key (record {
                  issuer = authority_issuer;
                  audience = i.audience;
                  clock_tolerance = get_or i.clock_tolerance_seconds 0;
                  current_date = get_or o host.jose_now;
                }))
                (sym dated)
              ∙ checked in
            rw (verify_authority_token, decoded, alg, found, verify_with_key, imported, checked_at)
              (admitted_both i now p c dated admitted)
      ]
