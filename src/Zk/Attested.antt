-- ===== src/Zk/Attested.antt =====
-- What a verified claim of packages/zk/src rests on.
use trustid.Base.{
  ◌≡◌, inl, inr, refl, sym, ap, ◌∙◌, Bool, true, false, not, ◌||◌, Option, none, some, List, [],
  ◌∷◌, String, arith, is_some, ◌==◌, eq_iff, Bool-cases,
}
use trustid.Base.Effect.{ok, failed, thrown}
use trustid.Zk.{
  Crypto, Proof, Result, Thrown, sign_signals, compare_texts, compare_attestation, and_then,
  verify_trust_tier_gte,
}
use trustid.Zk.Claims.{ZkClaimBundle, ClaimResult}
use trustid.Zk.Verify.{
  Verifier, compliance_tier, uniqueness, authorization, payment_step_up, object_constructor,
  object_to_string, object_other, verifier_of, named, labelled, attestation_of, second_is_one,
  third_is_one, verify_attestation_only, verify_flagged, verify_compliance_tier_claim, run_verifier,
  verify_named, verify_signals, verify_parts, verify_zk_claim_bundle,
}

-- Two texts that the comparison takes for one are equal and not empty.
compare_inv :
    (expected : String) (got : Option String) (r : Result)
    → compare_attestation expected got ≡ ok r
    → r.valid ≡ true
    → (got ≡ some expected) × ((expected == "") ≡ false)
unfolding compare_attestation compare_texts
compare_inv expected none r h valid = absurd (ground arith)
compare_inv expected (some got) r h valid = elim (Bool-cases (expected == got)) [
  | inl same ↦
      (ap some (sym ((eq_iff expected got).0 same)), ground (arith, (eq_iff expected got).0 same))
  | inr other ↦ absurd (ground arith)
]

and_then_inv :
    (c : Thrown Result) (next r : Result)
    → and_then c next ≡ ok r
    → r.valid ≡ true
    → (r0 : Result) × (c ≡ ok r0) × (r0.valid ≡ true) × (r ≡ next)
and_then_inv (ok r0) next r h valid = elim (Bool-cases r0.valid) [
  | inl good ↦ (r0, refl, good, ground arith)
  | inr bad ↦ absurd (ground arith)
]
and_then_inv (failed m) next r h valid = absurd cc
and_then_inv (thrown m) next r h valid = absurd cc

labelled_inv :
    (claim_type : String) (c : Thrown Result) (r : ClaimResult)
    → labelled claim_type c ≡ ok r
    → (r0 : Result) × (c ≡ ok r0) × (r ≡ named claim_type r0)
labelled_inv claim_type (ok r0) r h = (r0, refl, cc)
labelled_inv claim_type (failed m) r h = absurd cc
labelled_inv claim_type (thrown m) r h = absurd cc

module _ (crypto : Crypto) where
  tier_inv :
      (attestation : Option String) (signals : List String) (secret : String) (r : Result)
      → verify_trust_tier_gte crypto attestation signals secret ≡ ok r
      → r.valid ≡ true
      → attestation ≡ some (sign_signals crypto secret signals)
  unfolding verify_trust_tier_gte
  tier_inv attestation (a ∷ b ∷ c ∷ d ∷ more) secret r h valid =
      let (r0, compared, good, _) = and_then_inv _ _ r h valid in
      (compare_inv _ attestation r0 compared good).0
  tier_inv attestation [] secret r h valid = absurd (ground arith)
  tier_inv attestation (a ∷ []) secret r h valid = absurd (ground arith)
  tier_inv attestation (a ∷ b ∷ []) secret r h valid = absurd (ground arith)
  tier_inv attestation (a ∷ b ∷ c ∷ []) secret r h valid = absurd (ground arith)

  flagged_inv :
      (claim_type why : String) (flag : Bool) (attestation : Option String) (signals : List String)
      (secret : String) (r : ClaimResult)
      → verify_flagged crypto claim_type why flag attestation signals secret ≡ ok r
      → r.valid ≡ true
      → attestation ≡ some (sign_signals crypto secret signals)
  unfolding verify_flagged verify_attestation_only
  flagged_inv claim_type why false attestation signals secret r h valid = absurd (ground arith)
  flagged_inv claim_type why true attestation signals secret r h valid =
      let (r0, compared, same) = labelled_inv claim_type _ r h in
      (compare_inv _ attestation r0 compared (ap (λ x. x.valid) (sym same) ∙ valid)).0

  run_inv :
      (v : Verifier) (claim : ZkClaimBundle) (signals : List String) (secret : String)
      (r : ClaimResult)
      → run_verifier crypto v claim signals secret ≡ ok r
      → r.valid ≡ true
      → claim.own_valid ≡ false
      → attestation_of claim.proof ≡ some (sign_signals crypto secret signals)
  unfolding run_verifier verify_compliance_tier_claim
  run_inv compliance_tier claim signals secret r h valid own =
      let (r0, checked, same) = labelled_inv "compliance_tier" _ r h in
      tier_inv (attestation_of claim.proof) signals secret r0 checked
        (ap (λ x. x.valid) (sym same) ∙ valid)
  run_inv uniqueness claim signals secret r h valid own =
      flagged_inv "uniqueness" "not_bound" (third_is_one signals) (attestation_of claim.proof)
        signals secret r h valid
  run_inv authorization claim signals secret r h valid own =
      flagged_inv "authorization" "not_authorized" (second_is_one signals)
        (attestation_of claim.proof) signals secret r h valid
  run_inv payment_step_up claim signals secret r h valid own =
      flagged_inv "payment_step_up" "not_authorized" (third_is_one signals)
        (attestation_of claim.proof) signals secret r h valid
  run_inv object_constructor claim signals secret r h valid own = absurd (ground arith)
  run_inv object_to_string claim signals secret r h valid own = absurd (ground arith)
  run_inv object_other claim signals secret r h valid own = absurd cc

  named_inv :
      (v : Option Verifier) (claim : ZkClaimBundle) (signals : List String) (secret : String)
      (r : ClaimResult)
      → verify_named crypto v claim signals secret ≡ ok r
      → r.valid ≡ true
      → claim.own_valid ≡ false
      → attestation_of claim.proof ≡ some (sign_signals crypto secret signals)
  unfolding verify_named
  named_inv none claim signals secret r h valid own = absurd (ground arith)
  named_inv (some v) claim signals secret r h valid own =
      run_inv v claim signals secret r h valid own

  signals_inv :
      (claim : ZkClaimBundle) (proof : Proof) (signals : List String) (secret : String)
      (r : ClaimResult)
      → verify_signals crypto claim proof signals secret ≡ ok r
      → r.valid ≡ true
      → claim.own_valid ≡ false
      → attestation_of claim.proof ≡ some (sign_signals crypto secret signals)
  unfolding verify_signals
  signals_inv claim proof signals secret r h valid own =
      elim (Bool-cases
        (not (is_some proof.pi_a) || not (is_some proof.pi_b) || not (is_some proof.pi_c))) [
          | inl broken ↦ absurd (ground arith)
          | inr whole ↦
              named_inv (verifier_of claim.claim_type) claim signals secret r (ground arith) valid
                own
        ]

  -- A bundle that verifies carries the issuer's attestation of its own public signals, provided that
  -- the object has no property `valid` of its own that is true.
  pub verify_zk_claim_bundle_lem :
      (claim : ZkClaimBundle) (secret : String) (r : ClaimResult)
      → verify_zk_claim_bundle crypto claim secret ≡ ok r
      → r.valid ≡ true
      → claim.own_valid ≡ false
      → (signals : List String) × (claim.public_signals ≡ some signals)
        × (attestation_of claim.proof ≡ some (sign_signals crypto secret signals))
  unfolding verify_zk_claim_bundle
  verify_zk_claim_bundle_lem claim secret r h valid own = go claim.proof claim.public_signals refl h
    where
      go :
          (proof : Option Proof) (signals : Option (List String))
          → claim.public_signals ≡ signals
          → verify_parts crypto claim proof signals secret ≡ ok r
          → (ss : List String) × (claim.public_signals ≡ some ss)
            × (attestation_of claim.proof ≡ some (sign_signals crypto secret ss))
      go (some proof) (some signals) given g = elim (Bool-cases (claim.claim_type == "")) [
        | inl blank ↦ absurd (ground arith)
        | inr typed ↦
            (signals, given, signals_inv claim proof signals secret r (ground arith) valid own)
      ]
      go none signals given g = absurd (ground arith)
      go (some proof) none given g = absurd (ground arith)
