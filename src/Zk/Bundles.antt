-- ===== src/Zk/Bundles.antt =====
-- The bundles that packages/zk/src/claims.ts proves, verified by the same file: under their own label,
-- and under another.
use Prim.Native.String
use trustid.Base.{
  ◌≡◌, inl, inr, refl, sym, ap, ◌∙◌, Bool, true, false, not, ◌||◌, some, List, [], ◌∷◌, String,
  arith, ◌==◌, eq_iff, Bool-cases, Option-cases,
}
use trustid.Base.Number.{num_le}
use trustid.Base.Effect.{ok, failed, thrown, Outcome-cases}
use trustid.Zk.{
  Crypto, take_text, accepted, Thrown, flag, clamp_tier, proof_of, sign_signals, tier_signals,
  attest_tier, prove_trust_tier_gte,
}
use trustid.Zk.Claims.{
  ZkClaimBundle, ClaimResult, nothing, join_spaces, sorted, ProveInput, attest,
  compliance_tier_from_trust_tier_proof, with_tier, hash_to_big_int_string, prove_compliance_tier,
  prove_uniqueness, prove_authorization, prove_payment_step_up, maybe, prove_claim_bundle,
}
use trustid.Zk.Verify.{
  named, refuse, labelled, third_is_one, verify_attestation_only, verify_flagged,
  verify_zk_claim_bundle,
}
use trustid.Zk.Proved.{clamp_tier-IsTier, same_texts, signed, attested, prove_inv}

-- The result of a claim whose third or second signal is a flag.
abbrev pub flagged_result : String → Bool → ClaimResult
flagged_result claim_type true = named claim_type accepted
flagged_result claim_type false = refuse claim_type "not_authorized"

flagged_valid : (claim_type : String) (b : Bool) → (flagged_result claim_type b).valid ≡ b
flagged_valid claim_type true = refl
flagged_valid claim_type false = refl

maybe_inv : (m : Thrown ZkClaimBundle) (b : ZkClaimBundle) → maybe m ≡ ok (some b) → m ≡ ok b
maybe_inv (ok c) b h = cc
maybe_inv (failed m) b h = absurd cc
maybe_inv (thrown m) b h = absurd cc

-- A kind that is not the authorization.
other_kind :
    (s k : String) (a : Bool)
    → (s == k) ≡ true
    → (k == "authorization") ≡ false
    → true ≡ not (s == "authorization") || a
other_kind s k a same other = rw ((eq_iff s k).0 same, other) refl

tier_kind :
    (s : String) (a : Bool)
    → (s == "compliance_tier" || s == "trust_tier_gte") ≡ true
    → true ≡ not (s == "authorization") || a
tier_kind s a h = elim (Bool-cases (s == "compliance_tier")) [
  | inl same ↦ other_kind s "compliance_tier" a same refl
  | inr other ↦ other_kind s "trust_tier_gte" a (ground arith) refl
]

option_inv : (a b : Bool) → some a ≡ some b → a ≡ b
option_inv a b h = cc

flag_read : (b : Bool) → (flag b == "1") ≡ b
flag_read true = refl
flag_read false = refl

module _ (crypto : Crypto)
    (attests : (key text : String) → (crypto.hmac_hex key text == "") ≡ false) where
  own_attestation :
      (secret : String) (signals : List String)
      → verify_attestation_only crypto (some (sign_signals crypto secret signals)) signals secret
        ≡ ok accepted
  unfolding verify_attestation_only
  own_attestation secret signals = same_texts _ (signed crypto attests secret signals)

  flagged_verifies :
      (claim_type : String) (allowed : Bool) (secret : String) (signals : List String)
      → verify_flagged crypto claim_type "not_authorized" allowed
          (some (sign_signals crypto secret signals))
          signals
          secret
        ≡ ok (flagged_result claim_type allowed)
  unfolding verify_flagged
  flagged_verifies claim_type false secret signals = refl
  flagged_verifies claim_type true secret signals =
      ap (labelled claim_type) (own_attestation secret signals)

  uniqueness_verifies :
      (i : ProveInput) (b : ZkClaimBundle)
      → prove_uniqueness crypto i ≡ ok b
      → verify_zk_claim_bundle crypto b i.issuer_secret ≡ ok (named "uniqueness" accepted)
  unfolding prove_uniqueness attest proof_of verify_zk_claim_bundle verify_flagged
  uniqueness_verifies i b h = elim (Option-cases (crypto.big_of_hex (take_text 16 i.nullifier))) [
    | inl bad ↦ absurd (ground arith)
    | inr (subject, read) ↦
        elim (Outcome-cases (hash_to_big_int_string crypto (String.◌++◌ "audience:" i.audience))) [
          | inl (audience, hashed) ↦
              let made : b
                  ≡ attest crypto "uniqueness" "uniqueness_v1" i.issuer_secret i.nullifier
                      (record nothing { verified = some true }) i.audience i.issued_at
                      (subject ∷ audience ∷ "1" ∷ []) =
                cc in
              ap (λ c. verify_zk_claim_bundle crypto c i.issuer_secret) made
              ∙ ap (labelled "uniqueness")
                  (own_attestation i.issuer_secret (subject ∷ audience ∷ "1" ∷ []))
          | inr other ↦ absurd (ground arith)
        ]
  ]

  authorization_verifies :
      (i : ProveInput) (b : ZkClaimBundle)
      → prove_authorization crypto i ≡ ok b
      → verify_zk_claim_bundle crypto b i.issuer_secret
        ≡ ok (flagged_result "authorization" i.authorized)
  unfolding prove_authorization attest proof_of verify_zk_claim_bundle
  authorization_verifies i b h =
      elim (Outcome-cases (hash_to_big_int_string crypto (String.◌++◌ "client:" i.client_id))) [
        | inl (client, hashed) ↦
            elim (Outcome-cases (
              hash_to_big_int_string crypto
                (String.◌++◌ "scopes:" (crypto.sha256_hex (join_spaces (sorted i.scopes)))))) [
                  | inl (scopes, digested) ↦
                      let signals = client ∷ flag i.authorized ∷ scopes ∷ [] in
                      let made : b
                          ≡ attest crypto "authorization" "authorization_v1" i.issuer_secret
                              i.nullifier (record nothing { authorized = some i.authorized })
                              i.audience i.issued_at signals =
                        cc in
                      ap (λ c. verify_zk_claim_bundle crypto c i.issuer_secret) made
                      ∙ ap
                          (λ x.
                            verify_flagged crypto "authorization" "not_authorized" x
                              (some (sign_signals crypto i.issuer_secret signals)) signals
                              i.issuer_secret)
                          (flag_read i.authorized)
                      ∙ flagged_verifies "authorization" i.authorized i.issuer_secret signals
                  | inr other ↦ absurd (ground arith)
                ]
        | inr other ↦ absurd (ground arith)
      ]

  -- A payment step-up verifies exactly when it was proved as authorized.
  pub prove-verify_payment_step_up :
      (challenge_id payment_hash : String) (i : ProveInput) (b : ZkClaimBundle)
      → prove_payment_step_up crypto challenge_id payment_hash i ≡ ok b
      → verify_zk_claim_bundle crypto b i.issuer_secret
        ≡ ok (flagged_result "payment_step_up" i.authorized)
  unfolding prove_payment_step_up attest proof_of verify_zk_claim_bundle
  prove-verify_payment_step_up challenge_id payment_hash i b h =
      elim (Outcome-cases (hash_to_big_int_string crypto (String.◌++◌ "challenge:" challenge_id))) [
        | inl (challenge, hashed) ↦
            elim (Outcome-cases
              (hash_to_big_int_string crypto (String.◌++◌ "payment:" payment_hash))) [
                | inl (payment, digested) ↦
                    elim (Outcome-cases (
                      hash_to_big_int_string crypto
                        (String.◌++◌ "nullifier:" (take_text 32 i.nullifier)))) [
                          | inl (subject, named_by) ↦
                              let signals =
                                challenge ∷ payment ∷ flag i.authorized ∷ subject ∷ [] in
                              let made : b
                                  ≡ attest crypto "payment_step_up" "payment_step_up_v1"
                                      i.issuer_secret i.nullifier
                                      (record nothing { authorized = some i.authorized }) i.audience
                                      i.issued_at signals =
                                cc in
                              ap (λ c. verify_zk_claim_bundle crypto c i.issuer_secret) made
                              ∙ ap
                                  (λ x.
                                    verify_flagged crypto "payment_step_up" "not_authorized" x
                                      (some (sign_signals crypto i.issuer_secret signals)) signals
                                      i.issuer_secret)
                                  (flag_read i.authorized)
                              ∙ flagged_verifies "payment_step_up" i.authorized i.issuer_secret
                                  signals
                          | inr other ↦ absurd (ground arith)
                        ]
                | inr other ↦ absurd (ground arith)
              ]
        | inr other ↦ absurd (ground arith)
      ]

  compliance_inv :
      (i : ProveInput) (b : ZkClaimBundle)
      → prove_compliance_tier crypto i ≡ ok b
      → (big : String) × (b
          ≡ compliance_tier_from_trust_tier_proof i.audience i.issued_at (
              attest_tier crypto
                (clamp_tier i.tier)
                (clamp_tier i.min_tier)
                i.nullifier
                i.issuer_secret
                big))
  unfolding prove_compliance_tier with_tier
  compliance_inv i b h =
      elim (Outcome-cases
        (prove_trust_tier_gte crypto i.tier i.min_tier i.nullifier i.issuer_secret)) [
          | inl (p, proved) ↦
              let (big, made) =
                prove_inv crypto attests i.tier i.min_tier i.nullifier i.issuer_secret p proved in
              let from : b ≡ compliance_tier_from_trust_tier_proof i.audience i.issued_at p = cc in
              (big, from ∙ ap (compliance_tier_from_trust_tier_proof i.audience i.issued_at) made)
          | inr other ↦ absurd (ground arith)
        ]

  compliance_verifies :
      (i : ProveInput) (b : ZkClaimBundle)
      → prove_compliance_tier crypto i ≡ ok b
      → verify_zk_claim_bundle crypto b i.issuer_secret ≡ ok (named "compliance_tier" accepted)
  unfolding compliance_tier_from_trust_tier_proof attest_tier proof_of verify_zk_claim_bundle
  compliance_verifies i b h =
      let (big, made) = compliance_inv i b h in
      ap (λ c. verify_zk_claim_bundle crypto c i.issuer_secret) made
      ∙ ap (labelled "compliance_tier") (
          attested crypto attests (clamp_tier i.min_tier) (clamp_tier i.tier) i.nullifier
            i.issuer_secret big (clamp_tier-IsTier i.min_tier) (clamp_tier-IsTier i.tier))

  -- Whatever `proveClaimBundle` proves is verified under the same secret, and it is valid unless it is
  -- an authorization that was proved as not authorized.
  pub prove-verify_zk_claim_bundle :
      (i : ProveInput) (b : ZkClaimBundle)
      → prove_claim_bundle crypto i ≡ ok (some b)
      → (r : ClaimResult) × (verify_zk_claim_bundle crypto b i.issuer_secret ≡ ok r)
        × (r.valid ≡ not (i.claim_type == "authorization") || i.authorized)
  unfolding prove_claim_bundle
  prove-verify_zk_claim_bundle i b h =
      elim (Bool-cases (i.claim_type == "compliance_tier" || i.claim_type == "trust_tier_gte")) [
        | inl tier ↦ (
          named "compliance_tier" accepted,
          compliance_verifies i b (maybe_inv _ b (ground arith)),
          tier_kind i.claim_type i.authorized tier,
        )
        | inr other ↦ elim (Bool-cases (i.claim_type == "uniqueness")) [
          | inl unique ↦ (
            named "uniqueness" accepted,
            uniqueness_verifies i b (maybe_inv _ b (ground arith)),
            other_kind i.claim_type "uniqueness" i.authorized unique refl,
          )
          | inr not_unique ↦ elim (Bool-cases (i.claim_type == "authorization")) [
            | inl authorization ↦ (
              flagged_result "authorization" i.authorized,
              authorization_verifies i b (maybe_inv _ b (ground arith)),
              ground (arith, flagged_valid "authorization" i.authorized),
            )
            | inr unknown ↦ absurd (ground arith)
          ]
        ]
      ]

  -- The attestation does not say what kind of claim it is for: a compliance claim whose tier reaches
  -- the minimum verifies just as well when it is relabelled as a payment step-up or as uniqueness.
  pub relabel_compliance :
      (i : ProveInput) (b : ZkClaimBundle)
      → prove_compliance_tier crypto i ≡ ok b
      → b.disclosed.verified ≡ some true
      → (verify_zk_claim_bundle crypto (record b { claim_type = "payment_step_up" }) i.issuer_secret
          ≡ ok (named "payment_step_up" accepted))
        × (verify_zk_claim_bundle crypto (record b { claim_type = "uniqueness" }) i.issuer_secret
            ≡ ok (named "uniqueness" accepted))
  unfolding compliance_tier_from_trust_tier_proof attest_tier proof_of verify_zk_claim_bundle
      verify_flagged
  relabel_compliance i b h reached =
      let (big, made) = compliance_inv i b h in
      let m = clamp_tier i.min_tier in
      let t = clamp_tier i.tier in
      let satisfied : num_le m t ≡ true =
        option_inv _ _ (ap (λ c. c.disclosed.verified) (sym made) ∙ reached) in
      let signals = tier_signals crypto t m big in
      let third : third_is_one signals ≡ true = ap (λ x. flag x == "1") satisfied in
      (
        ap
              (λ c.
                verify_zk_claim_bundle crypto (record c { claim_type = "payment_step_up" })
                  i.issuer_secret)
              made
            ∙ ap
                (λ x.
                  verify_flagged crypto "payment_step_up" "not_authorized" x
                    (some (sign_signals crypto i.issuer_secret signals)) signals i.issuer_secret)
                third
            ∙ ap (labelled "payment_step_up") (own_attestation i.issuer_secret signals),
        ap
              (λ c.
                verify_zk_claim_bundle crypto (record c { claim_type = "uniqueness" })
                  i.issuer_secret)
              made
            ∙ ap
                (λ x.
                  verify_flagged crypto "uniqueness" "not_bound" x
                    (some (sign_signals crypto i.issuer_secret signals)) signals i.issuer_secret)
                third
            ∙ ap (labelled "uniqueness") (own_attestation i.issuer_secret signals),
      )
