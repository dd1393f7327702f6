-- ===== src/Zk/Proved.antt =====
-- The attestations that packages/zk/src makes are accepted by its own verification.
use trustid.Base.{
  ℕ, zero, suc, ◌≡◌, inl, inr, refl, ap, ◌∙◌, Bool, true, false, some, List, String, arith, leb,
  ◌==◌, eq_iff, if◌then◌else◌, Bool-cases, Option-cases,
}
use trustid.Base.Number.{Number, nat, negsuc, nan, infinite, num_lt, num_le, num_eq, num_min}
use trustid.Base.Decimal.{number_text, text_number}
use trustid.Base.Effect.{ok}
use trustid.Zk.{
  Crypto, TrustTierProof, accepted, take_text, flag, at_least_zero, clamp_tier, proof_of,
  sign_signals, tier_signals, attest_tier, prove_trust_tier_gte, compare_texts, compare_attestation,
  tier_consistent, and_then, verify_trust_tier_gte,
}

-- A tier as the attestations carry it: 0 to 3, or NaN where the number given is NaN.
pub data IsTier : Number → Type 0 where
  tier_0 : IsTier (nat 0)
  tier_1 : IsTier (nat 1)
  tier_2 : IsTier (nat 2)
  tier_3 : IsTier (nat 3)
  not_a_number : IsTier nan

three_or_more : (n : ℕ) → leb 3 (suc (suc (suc (suc n)))) ≡ true
three_or_more n = ground arith

up_to_three : (n : ℕ) → IsTier (at_least_zero (if leb 3 n then nat 3 else nat n))
up_to_three zero = tier_0
up_to_three (suc zero) = tier_1
up_to_three (suc (suc zero)) = tier_2
up_to_three (suc (suc (suc zero))) = tier_3
up_to_three (suc (suc (suc (suc n)))) = rw (three_or_more n) tier_3

-- Every tier is attested as one of 0 to 3, or as NaN.
pub clamp_tier-IsTier : (n : Number) → IsTier (clamp_tier n)
unfolding clamp_tier num_min num_le
clamp_tier-IsTier (nat n) = up_to_three n
clamp_tier-IsTier (negsuc n) = tier_0
clamp_tier-IsTier nan = not_a_number
clamp_tier-IsTier infinite = tier_3

read_tier : (n : Number) → IsTier n → text_number (number_text n) ≡ n
unfolding text_number number_text
read_tier n tier_0 = refl
read_tier n tier_1 = refl
read_tier n tier_2 = refl
read_tier n tier_3 = refl
read_tier n not_a_number = refl

read_flag : (b : Bool) → text_number (flag b) ≡ (if b then nat 1 else nat 0)
unfolding text_number
read_flag true = refl
read_flag false = refl

not_below : (m t : Number) → num_le m t ≡ true → num_lt t m ≡ false
unfolding num_le num_lt
not_below (nat a) (nat b) h = ground arith
not_below (nat a) (negsuc b) h = absurd cc
not_below (nat a) nan h = absurd cc
not_below (nat a) infinite h = refl
not_below (negsuc a) (nat b) h = refl
not_below (negsuc a) (negsuc b) h = ground arith
not_below (negsuc a) nan h = absurd cc
not_below (negsuc a) infinite h = refl
not_below nan t h = absurd cc
not_below infinite (nat b) h = absurd cc
not_below infinite (negsuc b) h = absurd cc
not_below infinite nan h = absurd cc
not_below infinite infinite h = refl

consistent : (m t : Number) → tier_consistent m (if num_le m t then nat 1 else nat 0) t ≡ accepted
unfolding tier_consistent num_eq
consistent m t = elim (Bool-cases (num_le m t)) [
  | inl reached ↦ rw (reached, not_below m t reached) refl
  | inr missed ↦ rw (missed) refl
]

pub same_texts : (s : String) → (s == "") ≡ false → compare_attestation s (some s) ≡ ok accepted
unfolding compare_attestation compare_texts
same_texts s given = ground (arith, eq_iff s s)

module _ (crypto : Crypto)
    (attests : (key text : String) → (crypto.hmac_hex key text == "") ≡ false) where
  pub signed :
      (secret : String) (signals : List String) → (sign_signals crypto secret signals == "") ≡ false
  unfolding sign_signals
  signed secret signals = attests _ _

  tier_checks :
      (m t : Number)
      → IsTier m
      → IsTier t
      → tier_consistent
          (text_number (number_text m))
          (text_number (flag (num_le m t)))
          (text_number (number_text t))
        ≡ accepted
  tier_checks m t is_m is_t =
      ap (λ x. tier_consistent x (text_number (flag (num_le m t))) (text_number (number_text t)))
        (read_tier m is_m)
      ∙ ap (λ x. tier_consistent m x (text_number (number_text t))) (read_flag (num_le m t))
      ∙ ap (tier_consistent m (if num_le m t then nat 1 else nat 0)) (read_tier t is_t)
      ∙ consistent m t

  pub attested :
      (m t : Number) (nullifier secret big : String)
      → IsTier m
      → IsTier t
      → verify_trust_tier_gte crypto
          (attest_tier crypto t m nullifier secret big).proof.attestation
          (attest_tier crypto t m nullifier secret big).public_signals
          secret
        ≡ ok accepted
  unfolding attest_tier proof_of verify_trust_tier_gte
  attested m t nullifier secret big is_m is_t =
      let signals = tier_signals crypto t m big in
      let checks =
        tier_consistent (text_number (number_text m)) (text_number (flag (num_le m t)))
          (text_number (number_text t)) in
      ap (λ c. and_then c checks)
        (same_texts (sign_signals crypto secret signals) (signed secret signals))
      ∙ ap ok (tier_checks m t is_m is_t)

  -- What is proved is the attestation of the two tiers.
  pub prove_inv :
      (tier min_tier : Number) (nullifier secret : String) (p : TrustTierProof)
      → prove_trust_tier_gte crypto tier min_tier nullifier secret ≡ ok p
      → (big : String) × (p
          ≡ attest_tier crypto (clamp_tier tier) (clamp_tier min_tier) nullifier secret big)
  unfolding prove_trust_tier_gte
  prove_inv tier min_tier nullifier secret p h =
      elim (Option-cases (crypto.big_of_hex (take_text 16 nullifier))) [
        | inl bad ↦ absurd (ground arith)
        | inr (big, read) ↦ (big, cc)
      ]

  -- An attestation of a tier verifies under the same secret, and its flag says whether the tier, cut to
  -- 0 to 3, reaches the minimum, cut likewise.
  pub prove-verify_trust_tier :
      (tier min_tier : Number) (nullifier secret : String) (p : TrustTierProof)
      → prove_trust_tier_gte crypto tier min_tier nullifier secret ≡ ok p
      → (verify_trust_tier_gte crypto p.proof.attestation p.public_signals secret ≡ ok accepted)
        × (p.claim.satisfied ≡ num_le (clamp_tier min_tier) (clamp_tier tier))
  unfolding attest_tier
  prove-verify_trust_tier tier min_tier nullifier secret p h =
      let (big, made) = prove_inv tier min_tier nullifier secret p h in
      (
        ap (λ q. verify_trust_tier_gte crypto q.proof.attestation q.public_signals secret) made
            ∙ attested (clamp_tier min_tier) (clamp_tier tier) nullifier secret big
                (clamp_tier-IsTier min_tier) (clamp_tier-IsTier tier),
        ap (λ q. q.claim.satisfied) made,
      )
