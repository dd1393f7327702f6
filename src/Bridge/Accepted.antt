-- ===== src/Bridge/Accepted.antt =====
-- What holds of an assertion that `verifyDigiAssertion` of packages/digi-bridge/src/verify.ts accepts.
use trustid.Base.{
  ℕ, ◌+◌, ◌≤◌, ◌≡◌, ◌⊎◌, inl, inr, refl, sym, ap, ◌∙◌, true, false, Option, none, some, String,
  arith, any, eq_iff, Option-cases, get_or, ◌==◌,
}
use trustid.Base.JsMap
use trustid.Base.Json.{Json, str}
use trustid.Base.Number.{Number, nat, negsuc, nan, infinite, num_lt, num_le, is_finite}
use trustid.Base.Text.{codes, is_space}
use trustid.Base.Utf.{utf16_length}
use trustid.Base.Effect.{ok, Outcome-cases, ◌>>=◌}
use trustid.Bridge.Types.{Verified}
use trustid.Bridge.Verify.{
  Header, Payload, JoseError, Verdict, verified, rejected, Checker, VerifyInput, refuse_header,
  refuse_origin, refuse_claims, verified_of, verify_at, verify_digi_assertion, now_of, audience_for,
  options_of, normalize_subject, normalize_text, iat_of, exp_of, nbf_of, jti_of, text_or,
  is_text_of, audience_text, single_audience, is_lifeos,
}

-- What an accepted assertion satisfies, at the reading `now` and for the expected audience.
pub record IsVerified {S : Type 0} (checker : Checker S) (i : VerifyInput) (expected : String)
    (now : ℕ) (v : Verified) : Type 0 where
  pub header : Header
  pub decoded : checker.jose.decode_protected_header i.assertion ≡ some header
  pub alg : header.alg ≡ some "EdDSA"
  pub kid : header.kid ≡ some v.kid
  pub kid_given : (v.kid == "") ≡ false
  pub state : S
  pub key : String
  pub key_found : (checker.get_key header state).0 ≡ ok (some key)
  pub payload : Payload
  pub signed :
      checker.jose.jwt_verify i.assertion key (options_of i.expected_issuer expected now)
      ≡ verified payload
  pub issuer : v.issuer ≡ i.expected_issuer
  pub audience : v.audience ≡ expected
  pub not_lifeos : (expected == "lifeos") ≡ false
  pub subject : normalize_subject (JsMap.get payload "sub") ≡ some v.subject
  pub subject_length : (3 ≤ utf16_length v.subject) × (utf16_length v.subject ≤ 128)
  pub subject_blanks : any is_space (codes v.subject) ≡ false
  pub jti : v.jti ≡ jti_of payload
  pub jti_given : (v.jti == "") ≡ false
  pub issued : num_lt (nat (now + 120)) v.iat ≡ false
  pub begun : num_lt (nat (now + 5)) v.nbf ≡ false
  pub unexpired : num_lt (nat now) v.exp ≡ true

header_inv :
    (h : Header)
    → refuse_header h ≡ none
    → (h.alg ≡ some "EdDSA") × ((kid : String) × (h.kid ≡ some kid) × ((kid == "") ≡ false))
unfolding refuse_header
header_inv h e = go h.alg h.kid e
  where
    go :
        (alg kid : Option String)
        → refuse_header (record { alg = alg; kid = kid }) ≡ none
        → (alg ≡ some "EdDSA") × ((k : String) × (kid ≡ some k) × ((k == "") ≡ false))
    go none kid r = absurd (ground arith)
    go (some a) none r = absurd (ground arith)
    go (some a) (some k) r =
        (ap some (sym ((eq_iff "EdDSA" a).0 (ground arith))), (k, refl, ground arith))

text_of_inv : (s : String) (v : Option Json) → is_text_of s v ≡ true → text_or "" v ≡ s
text_of_inv s v h = go v h
  where
    go : (v : Option Json) → is_text_of s v ≡ true → text_or "" v ≡ s
    go (some (str t)) h = (eq_iff t s).0 h
    go v h = absurd cc

origin_inv :
    (issuer expected : String) (now : ℕ) (p : Payload)
    → refuse_origin issuer expected now p ≡ none
    → (text_or "" (JsMap.get p "iss") ≡ issuer)
      × (audience_text p ≡ expected)
      × ((expected == "lifeos") ≡ false)
unfolding refuse_origin is_lifeos
origin_inv issuer expected now p h =
    let same = text_of_inv expected (single_audience (JsMap.get p "aud")) (ground arith) in
    (text_of_inv issuer (JsMap.get p "iss") (ground arith), same, rw (← same) (ground arith))

subject_inv :
    (s v : String)
    → normalize_text s ≡ some v
    → ((3 ≤ utf16_length v) × (utf16_length v ≤ 128)) × (any is_space (codes v) ≡ false)
unfolding normalize_text
subject_inv s v h = ground arith

none_is_empty : (o : Option String) → o ≡ none → (get_or o "" == "") ≡ false → ⊥
none_is_empty none e h = cc
none_is_empty (some v) e h = cc

claims_inv :
    (now : ℕ) (p : Payload)
    → refuse_claims now p ≡ none
    → ((v : String) × (normalize_subject (JsMap.get p "sub") ≡ some v)
        × ((3 ≤ utf16_length v) × (utf16_length v ≤ 128))
        × (any is_space (codes v) ≡ false))
      × ((jti_of p == "") ≡ false)
      × (num_lt (nat (now + 120)) (iat_of p) ≡ false)
      × (num_lt (nat (now + 5)) (nbf_of p) ≡ false)
      × (num_lt (nat now) (exp_of p) ≡ true)
unfolding refuse_claims normalize_subject num_lt num_le is_finite
claims_inv now p h = (
  subject_of (JsMap.get p "sub") (ground arith),
  ground arith,
  ground arith,
  ground arith,
  fresh (exp_of p) (ground arith) (ground arith),
)
  where
    subject_of :
        (sub : Option Json)
        → (get_or (normalize_subject sub) "" == "") ≡ false
        → (v : String) × (normalize_subject sub ≡ some v)
          × ((3 ≤ utf16_length v) × (utf16_length v ≤ 128))
          × (any is_space (codes v) ≡ false)
    subject_of (some (str s)) h = elim (Option-cases (normalize_text s)) [
      | inl missing ↦ absurd (none_is_empty (normalize_text s) missing h)
      | inr (v, found) ↦ let (bounds, blanks) = subject_inv s v found in (v, found, bounds, blanks)
    ]
    subject_of sub h = absurd (ground arith)

    fresh :
        (x : Number) → is_finite x ≡ true → num_le x (nat now) ≡ false → num_lt (nat now) x ≡ true
    fresh (nat n) finite later = ground arith
    fresh (negsuc n) finite later = absurd cc
    fresh nan finite later = absurd cc
    fresh infinite finite later = absurd cc

Verdict-cases :
    (v : Verdict) → ((p : Payload) × (v ≡ verified p)) ⊎ ((e : JoseError) × (v ≡ rejected e))
Verdict-cases (verified p) = inl (p, refl)
Verdict-cases (rejected e) = inr (e, refl)

module _ {S : Type 0} (checker : Checker S) where
  -- What the steps of a verification that returns have found.
  record Steps (i : VerifyInput) (expected : String) (now : ℕ) (s : S) (v : Verified) : Type 0 where
    header : Header
    decoded : checker.jose.decode_protected_header i.assertion ≡ some header
    headed : refuse_header header ≡ none
    key : String
    key_found : (checker.get_key header s).0 ≡ ok (some key)
    payload : Payload
    signed :
        checker.jose.jwt_verify i.assertion key (options_of i.expected_issuer expected now)
        ≡ verified payload
    origin : refuse_origin i.expected_issuer expected now payload ≡ none
    claims : refuse_claims now payload ≡ none
    result : v ≡ verified_of (get_or header.kid "") payload

  verify-Steps :
      (i : VerifyInput) (expected : String) (now : ℕ) (s : S) (v : Verified)
      → (verify_at checker i expected now s).0 ≡ ok v
      → Steps i expected now s v
  unfolding verify_at
  verify-Steps i expected now s v h =
      elim (Option-cases (checker.jose.decode_protected_header i.assertion)) [
        | inl undecoded ↦ absurd (ground arith)
        | inr (header, decoded) ↦ elim (Outcome-cases (checker.get_key header s).0) [
          | inl (found, asked) ↦ elim (Option-cases found) [
            | inl missing ↦ absurd (ground arith)
            | inr (key, there) ↦
                elim (Verdict-cases (
                  checker.jose.jwt_verify i.assertion key
                    (options_of i.expected_issuer expected now))) [
                      | inl (p, signed) ↦ record {
                        header = header;
                        decoded = decoded;
                        headed = ground arith;
                        key = key;
                        key_found = asked ∙ ap ok there;
                        payload = p;
                        signed = signed;
                        origin = ground arith;
                        claims = ground arith;
                        result = ground arith;
                      }
                      | inr (e, unsigned) ↦ absurd (ground arith)
                    ]
          ]
          | inr (inl (e, failing)) ↦ absurd (ground arith)
          | inr (inr (m, throwing)) ↦ absurd (ground arith)
        ]
      ]

  -- A verification that returns a result has found everything that the record above lists.
  pub verify_at-IsVerified :
      (i : VerifyInput) (expected : String) (now : ℕ) (s : S) (v : Verified)
      → (verify_at checker i expected now s).0 ≡ ok v
      → IsVerified checker i expected now v
  unfolding verified_of
  verify_at-IsVerified i expected now s v h =
      let st = verify-Steps i expected now s v h in
      let (alg, (kid, named, kid_given)) = header_inv st.header st.headed in
      let (issuer, audience, not_lifeos) =
        origin_inv i.expected_issuer expected now st.payload st.origin in
      let ((subject, found, lengths, blanks), jti, issued, begun, unexpired) =
        claims_inv now st.payload st.claims in
      let v_subject = ap (λ w. w.subject) st.result ∙ ap (λ o. get_or o "") found in
      let v_kid = ap (λ w. w.kid) st.result ∙ ap (λ o. get_or o "") named in
      record {
        header = st.header;
        decoded = st.decoded;
        alg = alg;
        kid = named ∙ ap some (sym v_kid);
        kid_given = rw (v_kid) kid_given;
        state = s;
        key = st.key;
        key_found = st.key_found;
        payload = st.payload;
        signed = st.signed;
        issuer = ap (λ w. w.issuer) st.result ∙ issuer;
        audience = ap (λ w. w.audience) st.result ∙ audience;
        not_lifeos = not_lifeos;
        subject = found ∙ ap some (sym v_subject);
        subject_length = rw (v_subject) lengths;
        subject_blanks = rw (v_subject) blanks;
        jti = ap (λ w. w.jti) st.result;
        jti_given = rw (st.result) jti;
        issued = rw (st.result) issued;
        begun = rw (st.result) begun;
        unexpired = rw (st.result) unexpired;
      }

  pub verify_digi_assertion-IsVerified :
      (i : VerifyInput) (s : S) (v : Verified)
      → (verify_digi_assertion checker i s).0 ≡ ok v
      → (now : ℕ) × ((now_of checker i.now_sec s).0 ≡ ok now)
        × IsVerified checker i
            (audience_for i.expected_audience checker.digi_audience checker.node_env)
            now
            v
  unfolding verify_digi_assertion ◌>>=◌
  verify_digi_assertion-IsVerified i s v h = elim (Outcome-cases (now_of checker i.now_sec s).0) [
    | inl (now, at_now) ↦ (
      now,
      at_now,
      verify_at-IsVerified i
          (audience_for i.expected_audience checker.digi_audience checker.node_env) now
          (now_of checker i.now_sec s).1 v (ground arith),
    )
    | inr (inl (e, failing)) ↦ absurd (ground arith)
    | inr (inr (m, throwing)) ↦ absurd (ground arith)
  ]
