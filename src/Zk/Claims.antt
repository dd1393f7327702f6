-- ===== src/Zk/Claims.antt =====
-- packages/zk/src/claims.ts: the claim bundles, how they are attested and how they are verified.
use Prim.Native.String
use trustid.Base.{
  ℕ, Bool, true, false, ◌||◌, Option, none, some, List, [], ◌∷◌, String, ltb, ◌==◌, if◌then◌else◌,
}
use trustid.Base.Number.{Number}
use trustid.Base.Decimal.{text_number}
use trustid.Base.Utf.{utf16_units}
use trustid.Base.Effect.{ok, failed, thrown}
use trustid.Zk.{
  Crypto, Proof, TrustTierProof, Thrown, slice, take_text, flag, proof_of, sign_signals,
  prove_trust_tier_gte,
}

pub record Disclosed : Type 0 where
  pub trust_tier : Option Number
  pub verified : Option Bool
  pub authorized : Option Bool

abbrev pub nothing : Disclosed
nothing = record { trust_tier = none; verified = none; authorized = none }

-- A bundle. A field that may have another type is an option. `own_valid` is whether the object has a
-- truthy property `valid` of its own, which no function of the package writes.
pub record ZkClaimBundle : Type 0 where
  pub claim_type : String
  pub proof : Option Proof
  pub public_signals : Option (List String)
  pub nullifier : String
  pub disclosed : Disclosed
  pub issued_at : String
  pub audience : String
  pub own_valid : Bool

pub record ClaimResult : Type 0 where
  pub valid : Bool
  pub claim_type : Option String
  pub reason : Option String

abbrev pub bundle :
    String → Proof → List String → String → Disclosed → String → String → ZkClaimBundle
bundle claim_type proof signals nullifier disclosed audience issued_at = record {
  claim_type = claim_type;
  proof = some proof;
  public_signals = some signals;
  nullifier = nullifier;
  disclosed = disclosed;
  issued_at = issued_at;
  audience = audience;
  own_valid = false;
}

-- The order of two texts by their UTF-16 units, which is the order of `sort`.
abbrev text_before : List ℕ → List ℕ → Bool
text_before [] _ = true
text_before (c ∷ s) [] = false
text_before (c ∷ s) (d ∷ t) =
    let rest = text_before s t in if ltb c d then true else if ltb d c then false else rest

abbrev insert_text : String → List String → List String
insert_text s [] = s ∷ []
insert_text s (t ∷ ts) =
    let rest = insert_text s ts in
    if text_before (utf16_units s) (utf16_units t) then s ∷ t ∷ ts else t ∷ rest

abbrev pub sorted : List String → List String
sorted [] = []
sorted (s ∷ ss) = insert_text s (sorted ss)

-- `scopes.join(" ")`
unfoldable pub join_spaces : List String → String
join_spaces [] = ""
join_spaces (s ∷ []) = s
join_spaces (s ∷ t ∷ ts) = String.◌++◌ s (String.◌++◌ " " (join_spaces (t ∷ ts)))

-- `Number(signals[3])`
abbrev pub fourth_number : List String → Option Number
fourth_number (a ∷ b ∷ c ∷ d ∷ more) = some (text_number d)
fourth_number _ = none

unfoldable pub compliance_tier_from_trust_tier_proof :
    String → String → TrustTierProof → ZkClaimBundle
compliance_tier_from_trust_tier_proof audience issued_at p =
    bundle "compliance_tier" p.proof p.public_signals p.claim.nullifier
      (record {
        trust_tier = fourth_number p.public_signals;
        verified = some p.claim.satisfied;
        authorized = none;
      })
      audience issued_at

pub record ProveInput : Type 0 where
  pub claim_type : String
  pub tier : Number
  pub min_tier : Number
  pub nullifier : String
  pub audience : String
  pub client_id : String
  pub scopes : List String
  pub authorized : Bool
  pub issuer_secret : String
  pub issued_at : String

unfoldable pub with_tier : String → String → Thrown TrustTierProof → Thrown ZkClaimBundle
unfolding compliance_tier_from_trust_tier_proof
with_tier audience issued_at (ok p) =
    ok (compliance_tier_from_trust_tier_proof audience issued_at p)
with_tier audience issued_at (failed m) = failed m
with_tier audience issued_at (thrown m) = thrown m

-- The signals in the order in which the source computes them.
abbrev pub and_text : Thrown String → (String → Thrown ZkClaimBundle) → Thrown ZkClaimBundle
and_text (ok t) next = next t
and_text (failed m) next = failed m
and_text (thrown m) next = thrown m

abbrev pub big_or_throw : Option String → Thrown String
big_or_throw none = thrown "SyntaxError"
big_or_throw (some big) = ok big

abbrev pub maybe : Thrown ZkClaimBundle → Thrown (Option ZkClaimBundle)
maybe (ok b) = ok (some b)
maybe (failed m) = failed m
maybe (thrown m) = thrown m

module _ (crypto : Crypto) where
  unfoldable pub hash_to_big_int_string : String → Thrown String
  hash_to_big_int_string v = big_or_throw (crypto.big_of_hex (slice 0 16 (crypto.sha256_hex v)))

  -- The end of a proof: the bundle over the signals.
  unfoldable pub attest :
      String → String → String → String → Disclosed → String → String → List String → ZkClaimBundle
  unfolding sign_signals proof_of
  attest claim_type circuit secret nullifier disclosed audience issued_at signals =
      bundle claim_type (proof_of (sign_signals crypto secret signals) circuit) signals nullifier
        disclosed audience issued_at

  unfoldable pub prove_compliance_tier : ProveInput → Thrown ZkClaimBundle
  unfolding prove_trust_tier_gte with_tier
  prove_compliance_tier i =
      with_tier i.audience i.issued_at
        (prove_trust_tier_gte crypto i.tier i.min_tier i.nullifier i.issuer_secret)

  unfoldable pub prove_uniqueness : ProveInput → Thrown ZkClaimBundle
  unfolding attest
  prove_uniqueness i =
      and_text (big_or_throw (crypto.big_of_hex (take_text 16 i.nullifier))) λ subject.
        and_text (hash_to_big_int_string (String.◌++◌ "audience:" i.audience)) λ audience. ok (
          attest "uniqueness" "uniqueness_v1" i.issuer_secret i.nullifier
            (record nothing { verified = some true }) i.audience i.issued_at
            (subject ∷ audience ∷ "1" ∷ []))

  unfoldable pub prove_authorization : ProveInput → Thrown ZkClaimBundle
  unfolding attest join_spaces
  prove_authorization i =
      and_text (hash_to_big_int_string (String.◌++◌ "client:" i.client_id)) λ client.
        and_text
          (hash_to_big_int_string
            (String.◌++◌ "scopes:" (crypto.sha256_hex (join_spaces (sorted i.scopes)))))
          λ scopes. ok (
            attest "authorization" "authorization_v1" i.issuer_secret i.nullifier
              (record nothing { authorized = some i.authorized }) i.audience i.issued_at
              (client ∷ flag i.authorized ∷ scopes ∷ []))

  unfoldable pub prove_payment_step_up : String → String → ProveInput → Thrown ZkClaimBundle
  unfolding attest
  prove_payment_step_up challenge_id payment_hash i =
      and_text (hash_to_big_int_string (String.◌++◌ "challenge:" challenge_id)) λ challenge.
        and_text (hash_to_big_int_string (String.◌++◌ "payment:" payment_hash)) λ payment.
          and_text (hash_to_big_int_string (String.◌++◌ "nullifier:" (take_text 32 i.nullifier)))
            λ subject. ok (
              attest "payment_step_up" "payment_step_up_v1" i.issuer_secret i.nullifier
                (record nothing { authorized = some i.authorized }) i.audience i.issued_at
                (challenge ∷ payment ∷ flag i.authorized ∷ subject ∷ []))

  unfoldable pub prove_claim_bundle : ProveInput → Thrown (Option ZkClaimBundle)
  unfolding prove_compliance_tier prove_uniqueness prove_authorization
  prove_claim_bundle i =
      if i.claim_type == "compliance_tier" || i.claim_type == "trust_tier_gte"
      then maybe (prove_compliance_tier i)
      else if i.claim_type == "uniqueness"
      then maybe (prove_uniqueness i)
      else if i.claim_type == "authorization"
      then maybe (prove_authorization i)
      else ok none
