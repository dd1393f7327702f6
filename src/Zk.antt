-- ===== src/Zk.antt =====
-- packages/zk/src/trust-tier.ts and types.ts: the attestations of a trust tier. Node's hashes and
-- BigInt are parameters; `pi_a`, `pi_b` and `pi_c` are pieces of the attestation.
pub mod Claims
pub mod Verify
pub mod Attested
pub mod Proved
pub mod Bundles
mod Examples
use Prim.Native.String
use trustid.Base.{
  ℕ, zero, suc, ◌-◌, Bool, true, false, not, ◌&&◌, ◌||◌, Option, none, some, List, [], ◌∷◌, String,
  eqb, ◌==◌, if◌then◌else◌,
}
use trustid.Base.Number.{Number, nat, negsuc, num_lt, num_le, num_min, num_eq}
pub use trustid.Base.Text.{take_text}
use trustid.Base.Utf.{utf16_length, utf8_length}
use trustid.Base.Decimal.{number_text, text_number}
use trustid.Base.Effect.{Outcome, ok, thrown}

-- `attest_digest` is SHA-256 as a buffer, which is a key here; `hmac_hex` and `sha256_hex` give digits.
-- `big_of_hex` is `BigInt("0x" + s).toString()`, none where that throws.
pub record Crypto : Type 0 where
  pub attest_digest : String → String
  pub hmac_hex : String → String → String
  pub sha256_hex : String → String
  pub big_of_hex : String → Option String

abbrev pub protocol : String
protocol = "groth16-hybrid-v1"

abbrev pub circuit_id : String
circuit_id = "trust_tier_gte"

-- `Groth16Proof`. A field that a caller may leave out, or give another type, is an option.
pub record Proof : Type 0 where
  pub pi_a : Option (List String)
  pub pi_b : Option (List (List String))
  pub pi_c : Option (List String)
  pub protocol : Option String
  pub curve : Option String
  pub attestation : Option String

pub record TierClaim : Type 0 where
  pub min_tier : Number
  pub satisfied : Bool
  pub nullifier : String

-- Its `protocol` and `circuit` are the two constants above.
pub record TrustTierProof : Type 0 where
  pub public_signals : List String
  pub proof : Proof
  pub claim : TierClaim

-- `{ valid, reason }`
pub record Result : Type 0 where
  pub valid : Bool
  pub reason : Option String

abbrev pub accepted : Result
accepted = record { valid = true; reason = none }

abbrev pub rejected_for : String → Result
rejected_for why = record { valid = false; reason = some why }

-- The only early end of these functions is a throw.
abbrev pub Thrown : Type 0 → Type 0
Thrown A = Outcome String A

-- `signals.join("|")`
unfoldable pub join : List String → String
join [] = ""
join (s ∷ []) = s
join (s ∷ t ∷ ts) = String.◌++◌ s (String.◌++◌ "|" (join (t ∷ ts)))

unfoldable pub drop_text : ℕ → String → String
drop_text zero s = s
drop_text (suc n) String.[] = ""
drop_text (suc n) (String.◌∷◌ c s) = drop_text n s

-- `s.slice(from, to)` of a text of hexadecimal digits.
abbrev pub slice : ℕ → ℕ → String → String
slice from to s = take_text (to - from) (drop_text from s)

unfoldable pub proof_of : String → String → Proof
proof_of attestation protocol = record {
  pi_a = some (slice 0 32 attestation ∷ slice 32 64 attestation ∷ "1" ∷ []);
  pi_b = some (
      (slice 0 16 attestation ∷ slice 16 32 attestation ∷ [])
      ∷ (slice 32 48 attestation ∷ slice 48 64 attestation ∷ [])
      ∷ ("1" ∷ "0" ∷ [])
      ∷ []);
  pi_c = some (slice 0 32 attestation ∷ "1" ∷ "1" ∷ []);
  protocol = some protocol;
  curve = some "hybrid";
  attestation = some attestation;
}

-- `Math.max(0, n)`
abbrev pub at_least_zero : Number → Number
at_least_zero (negsuc n) = nat 0
at_least_zero n = n

-- `Math.max(0, Math.min(3, Math.floor(n)))`
unfoldable pub clamp_tier : Number → Number
unfolding num_min
clamp_tier n = at_least_zero (num_min (nat 3) n)

abbrev pub flag : Bool → String
flag true = "1"
flag false = "0"

module _ (crypto : Crypto) where
  unfoldable pub attest_key : String → String
  attest_key secret = crypto.attest_digest (String.◌++◌ "trustid-zk-v1:" secret)

  unfoldable pub sign_signals : String → List String → String
  sign_signals secret signals = crypto.hmac_hex (attest_key secret) (join signals)

  abbrev pub tier_signals : Number → Number → String → List String
  tier_signals tier min_tier big =
      number_text min_tier ∷ big ∷ flag (num_le min_tier tier) ∷ number_text tier ∷ []

  unfoldable pub attest_tier : Number → Number → String → String → String → TrustTierProof
  unfolding sign_signals proof_of
  attest_tier tier min_tier nullifier secret big = record {
    public_signals = tier_signals tier min_tier big;
    proof = proof_of (sign_signals secret (tier_signals tier min_tier big)) protocol;
    claim = record { min_tier = min_tier; satisfied = num_le min_tier tier; nullifier = nullifier };
  }

  unfoldable pub prove_trust_tier_gte : Number → Number → String → String → Thrown TrustTierProof
  unfolding attest_tier clamp_tier
  prove_trust_tier_gte tier min_tier nullifier secret =
      elim (crypto.big_of_hex (take_text 16 nullifier)) [
        | none ↦ thrown "SyntaxError"
        | some big ↦ ok (attest_tier (clamp_tier tier) (clamp_tier min_tier) nullifier secret big)
      ]

-- The comparison of the attestations; `timingSafeEqual` throws for buffers of two lengths.
unfoldable pub compare_texts : String → String → Thrown Result
compare_texts expected got =
    if got == "" || not (eqb (utf16_length expected) (utf16_length got))
    then ok (rejected_for "bad_attestation")
    else if not (eqb (utf8_length expected) (utf8_length got))
    then thrown "ERR_CRYPTO_TIMING_SAFE_EQUAL_LENGTH"
    else if expected == got
    then ok accepted
    else ok (rejected_for "attestation_mismatch")

unfoldable pub compare_attestation : String → Option String → Thrown Result
unfolding compare_texts
compare_attestation expected none = ok (rejected_for "bad_attestation")
compare_attestation expected (some got) = compare_texts expected got

-- The last two tests of `verifyTrustTierGte`.
unfoldable pub tier_consistent : Number → Number → Number → Result
tier_consistent min_tier satisfied tier =
    if num_eq satisfied (nat 1) && num_lt tier min_tier
    then rejected_for "tier_constraint"
    else if num_eq satisfied (nat 0) && num_le min_tier tier
    then rejected_for "satisfied_flag"
    else accepted

abbrev pub and_then : Thrown Result → Result → Thrown Result
and_then (ok r) next = if r.valid then ok next else ok r
and_then other next = other

module _ (crypto : Crypto) where
  -- The public signals by position.
  unfoldable pub verify_trust_tier_gte : Option String → List String → String → Thrown Result
  unfolding sign_signals compare_attestation tier_consistent text_number
  verify_trust_tier_gte attestation (min_tier ∷ big ∷ satisfied ∷ tier ∷ more) secret =
      and_then
        (compare_attestation (sign_signals crypto secret (min_tier ∷ big ∷ satisfied ∷ tier ∷ more))
          attestation)
        (tier_consistent (text_number min_tier) (text_number satisfied) (text_number tier))
  verify_trust_tier_gte attestation _ secret = ok (rejected_for "missing_signals")
