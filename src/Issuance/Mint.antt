-- ===== src/Issuance/Mint.antt =====
-- The claims that `issueDigiSubjectAssertion` of apps/api/src/modules/trust-bridge/digi-assertion.ts
-- signs, and what `verifyDigiAssertion` of packages/digi-bridge makes of them.
use trustid.Base.{
  ℕ, ◌+◌, ◌≤◌, ◌<◌, ◌≡◌, refl, Bool, true, false, ◌&&◌, none, some, [], ◌∷◌, String, arith, ltb,
  leb, is_some, ◌==◌, eq_refl,
}
use trustid.Base.JsMap
use trustid.Base.Json.{num, str}
use trustid.Base.Number.{nat, num_lt, num_le, is_finite}
use trustid.Base.Text.{trim, codes, strip_prefix}
use trustid.Base.Effect.{ok, ◌>>=◌}
use trustid.Bridge.Types.{Verified}
use trustid.Bridge.Verify.{
  Header, Payload, verified, Checker, VerifyInput, normalize_text, normalize_subject, refuse_header,
  refuse_origin, refuse_claims, is_lifeos, verified_of, verify_at, options_of, stop, need, accept,
}

-- `DIGI_ASSERTION_TTL_SECONDS` of packages/shared/src/index.ts.
abbrev pub assertion_ttl_seconds : ℕ
assertion_ttl_seconds = 60

pub record Minting : Type 0 where
  pub issuer : String
  pub audience : String
  pub trust_id : String
  pub jti : String
  pub now_sec : ℕ
  pub kid : String

-- The protected header that is signed; `typ` is not read by the bridge.
abbrev pub signed_header : Minting → Header
signed_header m = record { alg = some "EdDSA"; kid = some m.kid }

-- The claims that are signed.
unfoldable pub signed_claims : Minting → Payload
signed_claims m =
    ("typ", str "trustid+digi")
    ∷ ("iss", str m.issuer)
    ∷ ("aud", str m.audience)
    ∷ ("sub", str m.trust_id)
    ∷ ("iat", num (nat m.now_sec))
    ∷ ("nbf", num (nat m.now_sec))
    ∷ ("exp", num (nat (m.now_sec + assertion_ttl_seconds)))
    ∷ ("jti", str m.jti)
    ∷ []

-- The assertion's contents, as the bridge returns them.
abbrev pub contents : Minting → Verified
contents m = record {
  issuer = m.issuer;
  audience = m.audience;
  subject = m.trust_id;
  jti = m.jti;
  iat = nat m.now_sec;
  nbf = nat m.now_sec;
  exp = nat (m.now_sec + assertion_ttl_seconds);
  kid = m.kid;
}

-- Values that need no change by the bridge, and an audience that is not LifeOS.
pub record IsPlain (m : Minting) : Type 0 where
  pub trust_id : normalize_text m.trust_id ≡ some m.trust_id
  pub trust_id_given : (m.trust_id == "") ≡ false
  pub jti : trim m.jti ≡ m.jti
  pub jti_given : (m.jti == "") ≡ false
  pub kid_given : (m.kid == "") ≡ false
  pub audience : (m.audience == "lifeos") ≡ false

header_passes : (m : Minting) → IsPlain m → refuse_header (signed_header m) ≡ none
unfolding refuse_header
header_passes m plain = rw (plain.kid_given) refl

soon : (a b k : ℕ) → a ≤ b + 5 → 5 ≤ k → ltb (b + k) a ≡ false
soon a b k h g = ground arith

and_false : (b : Bool) → (b && false) ≡ false
and_false false = refl
and_false true = refl

is_lifeos-own : (a : String) → (a == "lifeos") ≡ false → is_lifeos a a ≡ false
unfolding is_lifeos
is_lifeos-own a h =
    rw (h, eq_refl a, and_false (is_some (strip_prefix (codes "lifeos") (codes a)))) refl

late : (now n : ℕ) → now < n + 60 → leb (n + 60) now ≡ false
late now n h = ground arith

ltb_free : (n now k : ℕ) → n ≤ now + 5 → 5 ≤ k → ltb (now + k) n ≡ false
ltb_free n now k h g = ground arith

origin_passes :
    (m : Minting) (now : ℕ)
    → IsPlain m
    → m.now_sec ≤ now + 5
    → refuse_origin m.issuer m.audience now (signed_claims m) ≡ none
unfolding refuse_origin signed_claims JsMap.get num_lt is_finite
origin_passes m now plain early =
    let a = ltb_free m.now_sec now 120 early (omega arith) in
    let b = ltb_free m.now_sec now 5 early (omega arith) in
    let l = is_lifeos-own m.audience plain.audience in
    let e = eq_refl m.issuer in let f = eq_refl m.audience in ground arith

claims_pass :
    (m : Minting) (now : ℕ)
    → IsPlain m
    → m.now_sec ≤ now + 5
    → now < m.now_sec + 60
    → refuse_claims now (signed_claims m) ≡ none
unfolding refuse_claims signed_claims JsMap.get num_lt num_le is_finite normalize_subject
claims_pass m now plain early alive =
    let a = ltb_free m.now_sec now 120 early (omega arith) in
    let b = ltb_free m.now_sec now 5 early (omega arith) in
    let c = late now m.now_sec alive in
    rw (plain.trust_id, plain.trust_id_given, plain.jti, plain.jti_given, a, b, c) refl

verified_minted : (m : Minting) → IsPlain m → verified_of m.kid (signed_claims m) ≡ contents m
unfolding verified_of signed_claims JsMap.get normalize_subject
verified_minted m plain = rw (plain.trust_id, plain.jti) refl

module _ {S : Type 0} (checker : Checker S) where
  -- The bridge accepts an assertion that `issueDigiSubjectAssertion` has signed and reads its
  -- contents from it, where the library reads the header and the claims back, the key is found and
  -- the signature verifies, for a TrustID that passes the bridge's own test of subjects, an audience
  -- other than LifeOS, and ids that are given and trimmed; from 5 seconds before its time of
  -- issuance until its 60 seconds are over.
  pub verify_at-signed_claims :
      (m : Minting) (i : VerifyInput) (now : ℕ) (s : S) (public : String)
      → IsPlain m
      → (i.assertion == "") ≡ false
      → i.expected_issuer ≡ m.issuer
      → checker.jose.decode_protected_header i.assertion ≡ some (signed_header m)
      → (checker.get_key (signed_header m) s).0 ≡ ok (some public)
      → checker.jose.jwt_verify i.assertion public (options_of m.issuer m.audience now)
        ≡ verified (signed_claims m)
      → m.now_sec ≤ now + 5
      → now < m.now_sec + 60
      → (verify_at checker i m.audience now s).0 ≡ ok (contents m)
  unfolding verify_at ◌>>=◌ stop need accept
  verify_at-signed_claims m i now s public plain given from headed keyed signed early alive =
      rw
        (
          given,
          from,
          headed,
          header_passes m plain,
          keyed,
          signed,
          origin_passes m now plain early,
          claims_pass m now plain early alive,
          verified_minted m plain,
        )
        refl
