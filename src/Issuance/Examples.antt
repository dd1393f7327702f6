-- ===== src/Issuance/Examples.antt =====
-- Twelve calls in one window, for the limit of apps/api/src/modules/trust-bridge/digi-assertion.ts,
-- and an assertion at its last second.
use trustid.Base.{ℕ, ◌≤◌, ◌≡◌, refl, none, some, List, [], ◌∷◌, String, arith, length, filter}
use trustid.Base.JsMap
use trustid.Base.Number
use trustid.Base.Text
use trustid.Base.Effect.{ok, failed, pure}
use trustid.Bridge.Verify
use trustid.Bridge.Types.{expired}
use trustid.Bridge.Verify.{verified, Checker, VerifyInput, verify_at}
use trustid.Issuance.Mint.{
  Minting, signed_header, signed_claims, contents, IsPlain, verify_at-signed_claims,
}
use trustid.Issuance.{is_recent, assert_issuance_rate_limit}
use trustid.Issuance.Window.{no_calls, call_at, accepted_times, accepted_times_lem}

abbrev repeated : List (String × ℕ)
repeated =
    ("u1", 1)
    ∷ ("u1", 2)
    ∷ ("u2", 2)
    ∷ ("u1", 3)
    ∷ ("u1", 4)
    ∷ ("u1", 5)
    ∷ ("u1", 6)
    ∷ ("u1", 7)
    ∷ ("u1", 8)
    ∷ ("u1", 9)
    ∷ ("u1", 10)
    ∷ ("u1", 11)
    ∷ []

window_example : length (filter (is_recent 20) (accepted_times "u1" repeated [] [])) ≤ 10
window_example = accepted_times_lem "u1" repeated 0 20 (
    call_at (omega arith) (
      call_at (omega arith) (
        call_at (omega arith) (
          call_at (omega arith) (
            call_at (omega arith) (
              call_at (omega arith) (
                call_at (omega arith) (
                  call_at (omega arith) (
                    call_at (omega arith) (
                      call_at (omega arith) (
                        call_at (omega arith)
                          (call_at (omega arith) (no_calls (omega arith))))))))))))))

ten_accepted : length (accepted_times "u1" repeated [] []) ≡ 10
unfolding accepted_times assert_issuance_rate_limit JsMap.get JsMap.set
ten_accepted = refl

abbrev minting : Minting
minting = record {
  issuer = "trustid";
  audience = "digi";
  trust_id = "user-1";
  jti = "j1";
  now_sec = 1000000;
  kid = "k1";
}

abbrev checker : Checker (Unit {0})
checker = record {
  jose = record {
    decode_protected_header = λ a. some (signed_header minting);
    decode_jwt = λ a. some (signed_claims minting);
    jwt_verify = λ a k o. verified (signed_claims minting);
  };
  get_key = λ h. pure (some "public");
  clock = pure 1000059000;
  digi_audience = none;
  node_env = none;
}

abbrev presented : VerifyInput
presented = record {
  assertion = "a.b.c";
  expected_issuer = "trustid";
  expected_audience = some "digi";
  now_sec = none;
}

minting-IsPlain : IsPlain minting
unfolding Verify.normalize_text Text.trim
minting-IsPlain = record {
  trust_id = refl;
  trust_id_given = refl;
  jti = refl;
  jti_given = refl;
  kid_given = refl;
  audience = refl;
}

mint_example : (verify_at checker presented "digi" 1000059 tt).0 ≡ ok (contents minting)
unfolding pure
mint_example =
    verify_at-signed_claims checker minting presented 1000059 tt "public" minting-IsPlain refl refl
      refl refl refl (omega arith) (omega arith)

-- A second later it has expired.
expired_example : (verify_at checker presented "digi" 1000060 tt).0 ≡ failed expired
unfolding verify_at Verify.refuse_header Verify.refuse_origin Number.is_finite JsMap.get
    Number.num_lt Text.strip_prefix Verify.refuse_claims Number.num_le signed_claims
expired_example = refl
