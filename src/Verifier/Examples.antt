-- ===== src/Verifier/Examples.antt =====
-- The verifier of packages/authority-verifier/src/index.ts at work on one token.
use trustid.Base.{ℕ, ◌≡◌, refl, true, false, none, some, [], ◌∷◌, ◌+◌, ◌==◌}
use trustid.Base.JsMap
use trustid.Base.Json.{texts_json, bool, num, str, arr, obj, end}
use trustid.Base.Number
use trustid.Base.Number.{nat}
use trustid.Base.Text
use trustid.Base.Effect.{ok, Effect}
use trustid.Authority.Claims
use trustid.Authority.Claims.{Payload}
use trustid.Authority.Types.{Claims}
use trustid.Authority.Tokens.{Jwk, Header, value, same_text, verify_authority_token}
use trustid.Verifier.{
  Refusal, VerifyAuthorityInput, VerifierHost, Presented, Decision, verified_claims,
  verify_authority, authorize_authority,
}
use trustid.Verifier.Accepted.{IsSigned, IsAdmitted, verify_authority_lem}
use trustid.Verifier.Agreement.{digi_input, without_trust_id, verify_authority-agrees}
use trustid.Verifier.Gate.{IsConsumed, authorize_authority_lem}
use trustid.Verifier.Resource.{
  parse_elf_com_resource, write_resource, conversation, parse-write_resource,
}

abbrev payload : Payload
payload =
    ("iss", str "digiconomy-authority")
    ∷ ("sub", str "owner-1")
    ∷ ("aud", str "elfcom")
    ∷ ("actor", str "app:mail")
    ∷ ("actions", arr (texts_json ("read" ∷ [])))
    ∷ ("resources", arr (texts_json ("elfcom:conversation:c1" ∷ [])))
    ∷ ("limits", obj end)
    ∷ ("approval", str "ALLOW")
    ∷ ("grantId", str "g1")
    ∷ ("grantVersion", num (nat 1))
    ∷ ("oneTime", bool false)
    ∷ ("jti", str "t1")
    ∷ ("iat", num (nat 1000))
    ∷ ("nbf", num (nat 1000))
    ∷ ("exp", num (nat 1060))
    ∷ []

abbrev key : Jwk
key = record { kid = some "k1"; material = "public" }

abbrev host : VerifierHost
host = record {
  jose = record {
    decode_header = λ t. value (record { alg = some "EdDSA"; kid = some "k1" });
    import_jwk = λ k. value k.material;
    jwt_verify = λ t k o. value payload;
    sign = λ k i p. "signed";
  };
  remote = λ u t o. value payload;
  jose_now = 1010000;
  now = 1010000;
}

abbrev input : VerifyAuthorityInput
input = record {
  token = "a.b.c";
  audience = "elfcom";
  action = "read";
  resource = "elfcom:conversation:c1";
  actor = "app:mail";
  owner_id = some "owner-1";
  public_jwks = key ∷ [];
  jwks_url = none;
  now = some 1010000;
  clock_tolerance_seconds = none;
}

abbrev claims : Claims
claims = verified_claims payload

-- A client that counts its calls and says yes.
abbrev consume : Presented → Effect ℕ Refusal Decision
consume p n = (
  ok (record { decision = "ALLOW"; grant_id = some "g1"; jti = some "t1"; reason = none }),
  n + 1,
)

accepts : verify_authority host input ≡ ok claims
unfolding verify_authority Claims.is_authority_claims_shape JsMap.get Claims.is_trimmed
    Claims.is_actor_key Text.strip_prefix Number.is_integer Number.num_lt Number.is_safe_integer
    Number.num_le Number.num_add
accepts = refl

accepted_example :
    ((Text.trim "a.b.c" == "") ≡ false)
    × ((header : Header) × (p : Payload) × (host.jose.decode_header (Text.trim "a.b.c")
          ≡ value header)
        × (same_text header.alg (some "EdDSA") ≡ true)
        × IsSigned host input header p
        × IsAdmitted host input p claims)
accepted_example = verify_authority_lem host input claims accepts

agrees_example :
    verify_authority_token host.jose (digi_input input 1010000) ≡ ok (without_trust_id claims)
agrees_example = verify_authority-agrees host input 1010000 claims refl (λ e. cc) accepts

authorized : (authorize_authority host consume input 0).0 ≡ ok claims
unfolding authorize_authority Claims.is_authority_claims_shape JsMap.get Claims.is_trimmed
    Claims.is_actor_key Text.strip_prefix Number.is_integer Number.num_lt Number.is_safe_integer
    Number.num_le Number.num_add
authorized = refl

gate_example :
    (verify_authority host input ≡ ok claims)
    × IsConsumed consume input 0 claims
    × ((authorize_authority host consume input 0).1 ≡ 1)
gate_example = authorize_authority_lem host consume input 0 claims authorized

resource_example :
    parse_elf_com_resource (write_resource (conversation "c1")) ≡ some (conversation "c1")
resource_example = parse-write_resource (conversation "c1") refl
