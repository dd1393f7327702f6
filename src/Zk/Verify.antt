-- ===== src/Zk/Verify.antt =====
-- packages/zk/src/claims.ts: the verification of a claim bundle and of a batch.
use trustid.Base.{
  Bool, false, not, ◌||◌, Option, none, some, List, [], ◌∷◌, String, every, is_some, includes, ◌==◌,
  if◌then◌else◌,
}
use trustid.Base.Effect.{ok, failed, thrown}
use trustid.Zk.{
  Crypto, Proof, Result, rejected_for, Thrown, sign_signals, compare_attestation,
  verify_trust_tier_gte,
}
use trustid.Zk.Claims.{ZkClaimBundle, ClaimResult}

-- What stands under a name in the table of verifiers, a plain object: one of its own functions, or
-- what the object inherits.
pub data Verifier : Type 0 where
  compliance_tier uniqueness authorization payment_step_up : Verifier
  object_constructor object_to_string object_other : Verifier

-- The other names of `Object.prototype`: called without a receiver they throw.
abbrev pub inherited_names : List String
inherited_names =
    "__proto__" ∷ "hasOwnProperty" ∷ "isPrototypeOf" ∷ "propertyIsEnumerable" ∷ "toLocaleString"
    ∷ "valueOf" ∷ "__defineGetter__" ∷ "__defineSetter__" ∷ "__lookupGetter__" ∷ "__lookupSetter__"
    ∷ []

-- `CLAIM_VERIFIERS[name]`
unfoldable pub verifier_of : String → Option Verifier
verifier_of name =
    if name == "compliance_tier" || name == "trust_tier_gte"
    then some compliance_tier
    else if name == "uniqueness"
    then some uniqueness
    else if name == "authorization"
    then some authorization
    else if name == "payment_step_up"
    then some payment_step_up
    else if name == "constructor"
    then some object_constructor
    else if name == "toString"
    then some object_to_string
    else if includes inherited_names name
    then some object_other
    else none

abbrev pub named : String → Result → ClaimResult
named claim_type r = record { valid = r.valid; claim_type = some claim_type; reason = r.reason }

abbrev pub refuse : String → String → ClaimResult
refuse claim_type why = named claim_type (rejected_for why)

-- `{ ...result, claimType }`
abbrev pub labelled : String → Thrown Result → Thrown ClaimResult
labelled claim_type (ok r) = ok (named claim_type r)
labelled claim_type (failed m) = failed m
labelled claim_type (thrown m) = thrown m

abbrev pub attestation_of : Option Proof → Option String
attestation_of none = none
attestation_of (some p) = p.attestation

-- `signals[1] === "1"` and `signals[2] === "1"`
abbrev pub second_is_one : List String → Bool
second_is_one (a ∷ b ∷ more) = b == "1"
second_is_one _ = false

abbrev pub third_is_one : List String → Bool
third_is_one (a ∷ b ∷ c ∷ more) = c == "1"
third_is_one _ = false

abbrev pub malformed_claim : ClaimResult
malformed_claim = record { valid = false; claim_type = none; reason = some "malformed_claim" }

abbrev pub add_result : Thrown ClaimResult → Thrown (List ClaimResult) → Thrown (List ClaimResult)
add_result (ok r) (ok rs) = ok (r ∷ rs)
add_result (ok r) (failed m) = failed m
add_result (ok r) (thrown m) = thrown m
add_result (failed m) _ = failed m
add_result (thrown m) _ = thrown m

pub record BatchResult : Type 0 where
  pub valid : Bool
  pub results : List ClaimResult

-- `results.every((r) => r.valid)`
abbrev pub batch_of : Thrown (List ClaimResult) → Thrown BatchResult
batch_of (ok rs) = ok (record { valid = every (λ r. r.valid) rs; results = rs })
batch_of (failed m) = failed m
batch_of (thrown m) = thrown m

module _ (crypto : Crypto) where
  -- `verifyAttestationOnly`
  unfoldable pub verify_attestation_only : Option String → List String → String → Thrown Result
  unfolding sign_signals compare_attestation
  verify_attestation_only attestation signals secret =
      compare_attestation (sign_signals crypto secret signals) attestation

  unfoldable pub verify_flagged :
      String → String → Bool → Option String → List String → String → Thrown ClaimResult
  unfolding verify_attestation_only
  verify_flagged claim_type why flag attestation signals secret =
      let checked = verify_attestation_only attestation signals secret in
      if not flag then ok (refuse claim_type why) else labelled claim_type checked

  unfoldable pub verify_compliance_tier_claim :
      Option String → List String → String → Thrown ClaimResult
  unfolding verify_trust_tier_gte
  verify_compliance_tier_claim attestation signals secret =
      labelled "compliance_tier" (verify_trust_tier_gte crypto attestation signals secret)

  -- The call of what the table gives. `Object(claim)` is the claim itself.
  unfoldable pub run_verifier : Verifier → ZkClaimBundle → List String → String → Thrown ClaimResult
  unfolding verify_compliance_tier_claim verify_flagged
  run_verifier compliance_tier claim signals secret =
      verify_compliance_tier_claim (attestation_of claim.proof) signals secret
  run_verifier uniqueness claim signals secret =
      verify_flagged "uniqueness" "not_bound" (third_is_one signals) (attestation_of claim.proof)
        signals secret
  run_verifier authorization claim signals secret =
      verify_flagged "authorization" "not_authorized" (second_is_one signals)
        (attestation_of claim.proof) signals secret
  run_verifier payment_step_up claim signals secret =
      verify_flagged "payment_step_up" "not_authorized" (third_is_one signals)
        (attestation_of claim.proof) signals secret
  run_verifier object_constructor claim signals secret =
      ok (record { valid = claim.own_valid; claim_type = some claim.claim_type; reason = none })
  run_verifier object_to_string claim signals secret =
      ok (record { valid = false; claim_type = none; reason = none })
  run_verifier object_other claim signals secret = thrown "TypeError"

  unfoldable pub verify_named :
      Option Verifier → ZkClaimBundle → List String → String → Thrown ClaimResult
  unfolding run_verifier
  verify_named none claim signals secret = ok (refuse claim.claim_type "unknown_claim_type")
  verify_named (some v) claim signals secret = run_verifier v claim signals secret

  unfoldable pub verify_signals : ZkClaimBundle → Proof → List String → String → Thrown ClaimResult
  unfolding verify_named verifier_of
  verify_signals claim proof signals secret =
      let checked = verify_named (verifier_of claim.claim_type) claim signals secret in
      if not (is_some proof.pi_a) || not (is_some proof.pi_b) || not (is_some proof.pi_c)
      then ok (refuse claim.claim_type "malformed_proof")
      else checked

  abbrev pub verify_parts :
      ZkClaimBundle → Option Proof → Option (List String) → String → Thrown ClaimResult
  verify_parts claim (some proof) (some signals) secret =
      if claim.claim_type == ""
      then ok malformed_claim
      else verify_signals claim proof signals secret
  verify_parts claim _ _ secret = ok malformed_claim

  unfoldable pub verify_zk_claim_bundle : ZkClaimBundle → String → Thrown ClaimResult
  unfolding verify_signals
  verify_zk_claim_bundle claim secret = verify_parts claim claim.proof claim.public_signals secret

  -- `claims.map(…)`: a throw ends it.
  unfoldable pub verify_each : List ZkClaimBundle → String → Thrown (List ClaimResult)
  unfolding verify_zk_claim_bundle
  verify_each [] secret = ok []
  verify_each (c ∷ cs) secret = add_result (verify_zk_claim_bundle c secret) (verify_each cs secret)

  unfoldable pub verify_zk_claim_bundles : List ZkClaimBundle → String → Thrown BatchResult
  unfolding verify_each
  verify_zk_claim_bundles claims secret = batch_of (verify_each claims secret)
