-- ===== src/Zk/Examples.antt =====
-- The claims of packages/zk/src at work with a small attestation.
use trustid.Base.{◌≡◌, refl, true, some, List, [], ◌∷◌, String}
use trustid.Base.Number
use trustid.Base.Decimal
use trustid.Base.Number.{Number, nat}
use trustid.Base.Effect.{ok}
use trustid.Zk.{
  Crypto, TrustTierProof, accepted, clamp_tier, sign_signals, attest_tier, prove_trust_tier_gte,
  verify_trust_tier_gte,
}
use trustid.Zk.Claims.{
  ZkClaimBundle, ClaimResult, ProveInput, compliance_tier_from_trust_tier_proof,
  prove_compliance_tier, prove_claim_bundle,
}
use trustid.Zk.Verify.{named, attestation_of, verify_zk_claim_bundle}
use trustid.Zk.Attested.{verify_zk_claim_bundle_lem}
use trustid.Zk.Proved.{prove-verify_trust_tier}
use trustid.Zk.Bundles.{prove-verify_zk_claim_bundle, relabel_compliance}

abbrev crypto : Crypto
crypto = record {
  attest_digest = λ s. "digest";
  hmac_hex = λ k t. "00ff";
  sha256_hex = λ s. "0102";
  big_of_hex = λ s. some "258";
}

abbrev input : ProveInput
input = record {
  claim_type = "compliance_tier";
  tier = nat 5;
  min_tier = nat 2;
  nullifier = "abcdef";
  audience = "shop";
  client_id = "c1";
  scopes = "b" ∷ "a" ∷ [];
  authorized = true;
  issuer_secret = "secret";
  issued_at = "now";
}

abbrev tier_proof : TrustTierProof
tier_proof = attest_tier crypto (nat 3) (nat 2) "abcdef" "secret" "258"

abbrev claim : ZkClaimBundle
claim = compliance_tier_from_trust_tier_proof "shop" "now" tier_proof

tier_proved : prove_trust_tier_gte crypto (nat 5) (nat 2) "abcdef" "secret" ≡ ok tier_proof
unfolding prove_trust_tier_gte
tier_proved = refl

proved : prove_compliance_tier crypto input ≡ ok claim
unfolding prove_compliance_tier
proved = refl

bundle_proved : prove_claim_bundle crypto input ≡ ok (some claim)
unfolding prove_claim_bundle
bundle_proved = refl

tier_example :
    (verify_trust_tier_gte crypto tier_proof.proof.attestation tier_proof.public_signals "secret"
      ≡ ok accepted)
    × (tier_proof.claim.satisfied ≡ Number.num_le (clamp_tier (nat 2)) (clamp_tier (nat 5)))
tier_example =
    prove-verify_trust_tier crypto (λ k t. refl) (nat 5) (nat 2) "abcdef" "secret" tier_proof
      tier_proved

bundle_example :
    (r : ClaimResult) × (verify_zk_claim_bundle crypto claim "secret" ≡ ok r) × (r.valid ≡ true)
bundle_example = prove-verify_zk_claim_bundle crypto (λ k t. refl) input claim bundle_proved

verified : verify_zk_claim_bundle crypto claim "secret" ≡ ok (named "compliance_tier" accepted)
unfolding verify_zk_claim_bundle compliance_tier_from_trust_tier_proof attest_tier Number.num_eq
    Number.num_le Number.num_lt Decimal.number_text
verified = refl

attested_example :
    (signals : List String) × (claim.public_signals ≡ some signals)
    × (attestation_of claim.proof ≡ some (sign_signals crypto "secret" signals))
unfolding compliance_tier_from_trust_tier_proof
attested_example =
    verify_zk_claim_bundle_lem crypto claim "secret" (named "compliance_tier" accepted) verified
      refl refl

relabel_example :
    (verify_zk_claim_bundle crypto (record claim { claim_type = "payment_step_up" }) "secret"
      ≡ ok (named "payment_step_up" accepted))
    × (verify_zk_claim_bundle crypto (record claim { claim_type = "uniqueness" }) "secret"
        ≡ ok (named "uniqueness" accepted))
unfolding compliance_tier_from_trust_tier_proof attest_tier Number.num_le
relabel_example = relabel_compliance crypto (λ k t. refl) input claim proved refl
