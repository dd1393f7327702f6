-- ===== src/Bridge/Examples.antt =====
-- Runs of the exchange and of the in-memory stores of packages/digi-bridge, on a small host.
use trustid.Base.{
  ◌≡◌, ◌≢◌, refl, true, false, none, some, List, [], ◌∷◌, String, arith, length, not, ◌≤◌, ltb,
  ◌||◌, ◌==◌, if◌then◌else◌,
}
use trustid.Base.JsMap
use trustid.Base.Number
use trustid.Base.Text
use trustid.Bridge.Verify
use trustid.Bridge.Memory
use trustid.Base.Json.{Items, num, str, obj, arr, field, end, cons, nil}
use trustid.Base.Number.{nat}
use trustid.Base.Decimal.{number_text}
use trustid.Base.Effect.{ok, pure, ◌>>=◌}
use trustid.Base.Effect.Keeps.{Keeps-pure}
use trustid.Bridge.Types.{Verified, ConsumeInput, Resolved, NewSession, DigiSession}
use trustid.Bridge.Verify.{
  Header, Payload, Verdict, verified, JwtOptions, Jose, Checker, verify_digi_assertion, jti_of,
}
use trustid.Bridge.Keys.{answer, KeyHost, new_cache, get_key}
use trustid.Bridge.Keys.Bounds.{get_key-fetches, get_key_lem}
use trustid.Bridge.Exchange.{Host, ExchangeInput, ExchangeSuccess, exchange}
use trustid.Bridge.Memory.{
  Memory, MemoryEnv, empty, deref, get_cell, new_session, resolve_or_create, try_consume, create,
  resolve, revoke, key,
}
use trustid.Bridge.Memory.Completes.{memory_host, exchange-completes}
use trustid.Bridge.Memory.Key.{has_no_nul, key-injective}
use trustid.Bridge.Memory.Owners.{IsSound}
use trustid.Bridge.Memory.Identity.{
  Call, call_resolve_or_create, call_try_consume, call_create, call_revoke, perform, perform_all,
  perform_all-IsSound, resolve-same_owner,
}
use trustid.Bridge.Memory.Replay.{consumed, try_consume-refines, memory-IsReplaySafe}
use trustid.Bridge.Memory.Sessions.{resolve_lem, create-resolve, revoke-resolve}
use trustid.Bridge.Once.{IsReplaySafe, done, exchange-at_most_once}
use trustid.Bridge.Frame.{verify_input, Hooks}

abbrev env : MemoryEnv
env = record {
  clock = λ n. 1000000000;
  random_hex = λ n. "a1";
  random_token = λ n. "token";
  sha256_hex = λ t. t;
}

abbrev claims : Payload
claims =
    ("iss", str "trustid")
    ∷ ("aud", str "digi")
    ∷ ("sub", str "user-1")
    ∷ ("jti", str "j1")
    ∷ ("iat", num (nat 1000000))
    ∷ ("exp", num (nat 1000600))
    ∷ []

abbrev pub jose : Jose
jose = record {
  decode_protected_header = λ a. some (record { alg = some "EdDSA"; kid = some "k1" });
  decode_jwt = λ a. some claims;
  jwt_verify = λ a k o. verified claims;
}

abbrev checker : Checker Memory
checker = record {
  jose = jose;
  get_key = λ h. pure (some "public");
  clock = pure 1000000000;
  digi_audience = none;
  node_env = none;
}

abbrev host : Host Memory
host = memory_host env checker none (λ n. "later")

abbrev pub input : ExchangeInput
input = record {
  assertion = "a.b.c";
  expected_issuer = "trustid";
  expected_audience = "digi";
  now_sec = some 1000000;
}

abbrev pub verified_user : Verified
verified_user = record {
  issuer = "trustid";
  audience = "digi";
  subject = "user-1";
  jti = "j1";
  iat = nat 1000000;
  nbf = nat 1000000;
  exp = nat 1000600;
  kid = "k1";
}

abbrev pub session : ExchangeSuccess
session = record {
  owner_id = "own_a1";
  owner_created = true;
  session_token = "token";
  session_id = "ses_a1";
  expires_at = "later";
  subject = "user-1";
}

verifies :
    (s : Memory) → (verify_digi_assertion checker (verify_input input) s).0 ≡ ok verified_user
unfolding verify_digi_assertion Verify.refuse_header Verify.refuse_origin Number.is_finite JsMap.get
    Number.num_lt Text.strip_prefix Verify.refuse_claims Number.num_le Verify.verified_of
verifies s = refl

first_exchange : (exchange host input empty).0 ≡ ok session
unfolding exchange memory_host Verify.refuse_header Verify.refuse_origin Number.is_finite JsMap.get
    Number.num_lt Text.strip_prefix Verify.refuse_claims Number.num_le Memory.memory_stores
    try_consume resolve_or_create create Verify.verified_of
first_exchange = refl

empty-IsSound : IsSound empty
unfolding JsMap.get
empty-IsSound = record {
  keyed = λ k x found. absurd cc;
  owned = λ k x found. absurd cc;
  named = λ id o found. absurd cc;
}

pure_hooks : (P : Memory → Type 0) → Hooks host P
unfolding memory_host
pure_hooks P = record {
  get_key = λ h. Keeps-pure (some "public");
  clock = Keeps-pure 1000000000;
  audit = λ sink event details there. absurd cc;
}

host-IsReplaySafe : IsReplaySafe host consumed
unfolding memory_host
host-IsReplaySafe =
    memory-IsReplaySafe env host refl (λ j. pure_hooks (λ s. consumed s j ≡ true))
      (λ around there. absurd cc)

once_example : (exchange host input (exchange host input empty).1).0 ≢ ok session
unfolding memory_host
once_example =
    exchange-at_most_once host consumed host-IsReplaySafe empty (exchange host input empty).1 input
      input session session (λ a k o p h. ground arith) refl first_exchange done

completes_example :
    (r : ExchangeSuccess) × ((exchange (memory_host env checker none (λ n. "later")) input empty).0
      ≡ ok r)
    × (r.subject ≡ "user-1")
unfolding verify_digi_assertion JsMap.get Verify.refuse_header Verify.refuse_origin Number.is_finite
    Number.num_lt Text.strip_prefix Verify.refuse_claims Number.num_le
completes_example =
    exchange-completes env checker none (λ n. "later") input empty verified_user (verifies empty)
      empty-IsSound refl

abbrev first_use : ConsumeInput
first_use = record { jti = "j1"; issuer = "trustid"; subject = "user-1"; expires_at = nat 9 }

refines_example :
    ((try_consume env first_use empty).0 ≡ ok (not (consumed empty "j1")))
    × ((j : String)
        → consumed (try_consume env first_use empty).1 j ≡ consumed empty j || "j1" == j)
    × ((try_consume env first_use empty).1
        ≡ record empty { consumed = (try_consume env first_use empty).1.consumed })
refines_example = try_consume-refines env first_use empty

safe_example : IsReplaySafe host consumed
unfolding memory_host
safe_example =
    memory-IsReplaySafe env host refl (λ j. pure_hooks (λ s. consumed s j ≡ true))
      (λ around there. absurd cc)

-- Two identities, one of them met again, with ids that differ.
abbrev identities : List Call
identities =
    call_resolve_or_create "trustid" "user-1"
    ∷ call_resolve_or_create "trustid" "user-2"
    ∷ call_try_consume first_use
    ∷ call_create "own_0" none
    ∷ call_resolve_or_create "trustid" "user-1"
    ∷ call_revoke "ses_a"
    ∷ []

abbrev counting_env : MemoryEnv
counting_env = record env { random_hex = λ n. number_text (nat n) }

sound_example : IsSound (perform_all counting_env identities empty)
sound_example = perform_all-IsSound counting_env identities empty empty-IsSound

-- The owner store of that run is not empty.
two_owners : length (perform_all counting_env identities empty).owners ≡ 2
unfolding perform_all perform resolve_or_create try_consume create revoke JsMap.get JsMap.set
    JsMap.modify ◌>>=◌ key number_text
two_owners = refl

same_owner_example :
    (first second : Resolved) × ((resolve_or_create env "trustid" "user-1" empty).0 ≡ ok first)
    × ((resolve_or_create env "trustid" "user-1" (
          perform_all env
            (call_create "own_a1" none ∷ [])
            (resolve_or_create env "trustid" "user-1" empty).1)).0
        ≡ ok second)
    × (second.owner.id ≡ first.owner.id)
    × (second.created ≡ false)
same_owner_example =
    resolve-same_owner env "trustid" "user-1" empty (call_create "own_a1" none ∷ []) empty-IsSound

abbrev issuer : String
issuer = "trustid"

key_example : (issuer ≡ issuer) × (issuer ≡ issuer)
unfolding has_no_nul
key_example = key-injective issuer issuer issuer issuer refl refl refl

create_example :
    (made : NewSession) × ((create env "own_a1" (some 60) empty).0 ≡ ok made)
    × (made.session.owner_id ≡ "own_a1")
    × ((resolve env made.token (create env "own_a1" (some 60) empty).1).0
        ≡ ok (if ltb made.session.expires_at 1000000000 then none else some made.session))
unfolding create
create_example = create-resolve env "own_a1" (some 60) empty

abbrev made_session : DigiSession
made_session = new_session "ses_a1" "own_a1" "token" 1000000000 (some 60)

resolve_example :
    (deref
        (create env "own_a1" (some 60) empty).1.cells
        (JsMap.get (create env "own_a1" (some 60) empty).1.by_hash "token")
      ≡ some made_session)
    × (made_session.revoked_at ≡ none)
    × (1000000000 ≤ 1000060000)
unfolding create resolve JsMap.get JsMap.set ◌>>=◌ deref get_cell
resolve_example = resolve_lem env "token" (create env "own_a1" (some 60) empty).1 made_session refl

revoke_example :
    (resolve env "token" (revoke env "ses_a1" (create env "own_a1" (some 60) empty).1).1).0
    ≡ ok none
unfolding create JsMap.get JsMap.set get_cell ◌>>=◌
revoke_example =
    revoke-resolve env "ses_a1" "token" 0 made_session (create env "own_a1" (some 60) empty).1 refl
      refl refl

-- One key set with one key.
abbrev key_host : KeyHost
key_host = record {
  fetch = λ n. answer true (some (obj (field "keys" (arr (cons (str "k1") nil)) end)));
  clock = λ n. 1000;
  is_jwks = λ ks. true;
  choose = λ ks h. h.kid;
  ttl_ms = none;
}

abbrev key_header : Header
key_header = record { alg = some "EdDSA"; kid = some "k1" }

fetches_example : (get_key key_host key_header new_cache).1.fetches ≤ 2
fetches_example = get_key-fetches key_host key_header new_cache

key_found : (get_key key_host key_header new_cache).0 ≡ ok (some "k1")
unfolding get_key
key_found = refl

get_key_example :
    (key_header.alg ≡ some "EdDSA")
    × ((keys : Items) × ((get_key key_host key_header new_cache).1.local_jwks ≡ some keys)
        × (key_host.choose keys key_header ≡ some "k1"))
get_key_example = get_key_lem key_host key_header new_cache "k1" key_found
