-- ===== src/Authority/Claims.antt =====
-- packages/shared/src/authority-claims.ts: the shape of an authority token's payload.
use Prim.Native.String
use trustid.Base.{
  ℕ, Bool, true, false, not, Option, none, some, List, [], ◌∷◌, String, ◌&&◌, ◌||◌, ◌==◌, includes,
  any, every,
}
use trustid.Base.JsMap
use trustid.Base.Json.{Json, elems, entries, undefined, bool, num, str, arr, obj}
use trustid.Base.Number.{nat, num_lt, num_le, num_add, is_integer, is_finite, is_safe_integer}
use trustid.Base.Text.{codes, strip_prefix, trim, is_space}

-- The payload of a JWT: the entries of an object.
abbrev pub Payload : Type 0
Payload = List (String × Json)

abbrev pub allowed_keys : List String
allowed_keys =
    "iss" ∷ "sub" ∷ "aud" ∷ "actor" ∷ "actions" ∷ "resources" ∷ "limits" ∷ "approval" ∷ "grantId"
    ∷ "grantVersion" ∷ "oneTime" ∷ "jti" ∷ "iat" ∷ "nbf" ∷ "exp" ∷ "ownerTrustId" ∷ []

-- `v.length > 0 && v.trim() === v`
unfoldable pub is_trimmed : String → Bool
is_trimmed s = not (s == "") && trim s == s

abbrev pub is_text : Option Json → Bool
is_text (some (str s)) = is_trimmed s
is_text _ = false

abbrev pub same_json_text : Json → Json → Bool
same_json_text (str s) (str t) = s == t
same_json_text _ _ = false

-- `new Set(v).size === v.length`, on an array of texts.
abbrev pub all_distinct : List Json → Bool
all_distinct [] = true
all_distinct (v ∷ vs) = not (any (same_json_text v) vs) && all_distinct vs

abbrev pub is_scope_list : List Json → Bool
is_scope_list [] = false
is_scope_list (v ∷ vs) = every (λ w. is_text (some w)) (v ∷ vs) && all_distinct (v ∷ vs)

abbrev pub is_scope : Option Json → Bool
is_scope (some (arr vs)) = is_scope_list (elems vs)
is_scope _ = false

abbrev pub no_spaces : List ℕ → Bool
no_spaces [] = false
no_spaces (c ∷ s) = every (λ d. not (is_space d)) (c ∷ s)

abbrev pub actor_types : List String
actor_types = "human" ∷ "app" ∷ "service" ∷ "digital_twin" ∷ "device" ∷ "business" ∷ []

abbrev pub has_type : List ℕ → String → Bool
has_type actor t = elim (strip_prefix (codes (String.◌++◌ t ":")) actor) [
  | none ↦ false
  | some r ↦ no_spaces r
]

-- The regular expression for the actor.
unfoldable pub is_actor_key : String → Bool
is_actor_key actor = any (has_type (codes actor)) actor_types

abbrev pub is_actor : Option Json → Bool
is_actor (some (str s)) = is_actor_key s
is_actor _ = false

abbrev pub is_approval : Option Json → Bool
is_approval (some (str s)) = s == "ALLOW" || s == "ALLOW_WITH_LIMITS"
is_approval _ = false

abbrev pub is_bool : Option Json → Bool
is_bool (some (bool b)) = true
is_bool _ = false

abbrev pub is_version : Option Json → Bool
is_version (some (num n)) = is_integer n && not (num_lt n (nat 1))
is_version _ = false

abbrev pub is_time : Option Json → Bool
is_time (some (num n)) = is_safe_integer n
is_time _ = false

-- The comparisons of the three times, which are safe integers by then.
abbrev pub times_fit : Option Json → Option Json → Option Json → Bool
times_fit (some (num iat)) (some (num nbf)) (some (num exp)) =
    not (num_le exp iat) && not (num_lt exp nbf) && not (num_lt (num_add iat 300) exp)
times_fit _ _ _ = false

abbrev pub is_absent_or_text : Option Json → Bool
is_absent_or_text none = true
is_absent_or_text (some undefined) = true
is_absent_or_text v = is_text v

abbrev pub is_limit_value : Json → Bool
is_limit_value (str s) = true
is_limit_value (num n) = is_finite n && num_le (nat 0) n
is_limit_value _ = false

abbrev pub is_limits : Option Json → Bool
is_limits (some (obj fs)) = every (λ kv. is_limit_value kv.1) (entries fs)
is_limits _ = false

-- The tests in the source's order; each that fails returns false at once.
unfoldable pub is_authority_claims_shape : Payload → Bool
is_authority_claims_shape p =
    every (λ kv. includes allowed_keys kv.0) p
    && every (λ k. is_text (JsMap.get p k))
        ("iss" ∷ "sub" ∷ "aud" ∷ "actor" ∷ "grantId" ∷ "jti" ∷ [])
    && is_actor (JsMap.get p "actor")
    && is_scope (JsMap.get p "actions")
    && is_scope (JsMap.get p "resources")
    && is_approval (JsMap.get p "approval")
    && is_bool (JsMap.get p "oneTime")
    && is_version (JsMap.get p "grantVersion")
    && every (λ k. is_time (JsMap.get p k)) ("iat" ∷ "nbf" ∷ "exp" ∷ [])
    && times_fit (JsMap.get p "iat") (JsMap.get p "nbf") (JsMap.get p "exp")
    && is_absent_or_text (JsMap.get p "ownerTrustId")
    && is_limits (JsMap.get p "limits")
