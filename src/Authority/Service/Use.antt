-- ===== src/Authority/Service/Use.antt =====
-- `useToken` and `verifyTokenLocally`: a consumer presents a token.
use trustid.Base.{
  ℕ, Bool, true, false, not, Option, none, some, List, [], ◌∷◌, String, min, if◌then◌else◌, ◌&&◌,
  ◌||◌, ◌==◌, includes, any,
}
use trustid.Base.Number.{nat, num_eq, num_lt, is_safe_integer}
use trustid.Base.Json.{Json, num}
use trustid.Base.Effect.{Outcome, ok, failed, thrown, pure, fail, ◌>>=◌, ◌>>◌, reject_if}
use trustid.Authority.Types.{
  ActorRef, ApprovalMode, allow, allow_with_limits, actor_key, parse_actor_key, revoked, consumed,
  same_status, Limits, Conditions, Grant, Claims, Reason, is_revoked, replay, grant_not_active,
  grant_version_mismatch, grant_binding_mismatch, grant_not_approved, unsupported_conditions,
  delegation_chain_unsupported, unsupported_limits, invalid_limits, grant_unavailable_or_limit,
}
use trustid.Authority.Policy.{limit_exceeded}
use trustid.Authority.Store.{
  denied, replay_rejected, used, text, why, get_grant, reserve_use, try_consume_jti,
}
use trustid.Authority.Tokens.{VerifyInput, verify_authority_token}
use trustid.Authority.Service.Env.{
  Env, M, AuditFields, no_fields, now_fn, audit, read_store, run_store, grant_is_live,
}
use trustid.Authority.Service.Issue.{lift}

pub record UseInput : Type 0 where
  pub token : String
  pub expected_audience : String
  pub expected_actor : String
  pub expected_action : String
  pub expected_resource : String

pub record Used : Type 0 where
  pub grant_id : String
  pub jti : String

abbrev pub truthy_text : Option String → Bool
truthy_text none = false
truthy_text (some s) = not (s == "")

-- `Object.values(conditions).some(Boolean)`
unfoldable pub has_condition : Conditions → Bool
has_condition c =
    c.require_step_up
    || c.require_trusted_device
    || c.require_owner_online
    || c.business_hours_only
    || c.assisted_mode_only
    || truthy_text c.bound_device_id
    || truthy_text c.bound_session_id

abbrev pub is_allowing : ApprovalMode → Bool
is_allowing allow = true
is_allowing allow_with_limits = true
is_allowing _ = false

abbrev pub count_keys : List String
count_keys = "maxPosts" ∷ "maxMessages" ∷ "maxDeployments" ∷ []

-- `typeof v !== "number" || !Number.isSafeInteger(v) || v < 0`
abbrev pub is_bad_limit : Json → Bool
is_bad_limit (num n) = not (is_safe_integer n) || num_lt n (nat 0)
is_bad_limit _ = true

abbrev pub binds : Grant → Claims → UseInput → Bool
binds g c input =
    g.owner_id == c.sub
    && actor_key g.actor_type g.actor_id == c.actor
    && g.audience == c.aud
    && includes g.actions input.expected_action
    && includes g.resources input.expected_resource

-- The tests between that of the interval and that of the limits, in the order of the source.
unfoldable pub refuse_use : Grant → Claims → UseInput → Option Reason
unfolding has_condition
refuse_use g c input =
    if not (num_eq (nat g.grant_version) c.grant_version)
    then some grant_version_mismatch
    else if not (binds g c input)
    then some grant_binding_mismatch
    else if not (is_allowing g.approval_mode)
    then some grant_not_approved
    else if has_condition g.conditions
    then some unsupported_conditions
    else if truthy_text g.parent_grant_id
    then some delegation_chain_unsupported
    else if any (λ kv. not (includes count_keys kv.0)) g.limits
    then some unsupported_limits
    else if any (λ kv. is_bad_limit kv.1) g.limits
    then some invalid_limits
    else none

-- `counts.length ? Math.min(...counts) : null`; every value is a natural number by then.
unfoldable pub min_count : Limits → Option ℕ
min_count [] = none
min_count ((k, num (nat n)) ∷ limits) = elim (min_count limits) [
  | none ↦ some n
  | some m ↦ some (min n m)
]
min_count ((k, v) ∷ limits) = min_count limits

abbrev pub verify_input : Env → UseInput → ℕ → VerifyInput
verify_input env i now = record {
  token = i.token;
  expected_audience = i.expected_audience;
  expected_actor = some i.expected_actor;
  expected_action = some i.expected_action;
  expected_resource = some i.expected_resource;
  public_jwks = env.signing_key.public_jwk ∷ [];
  now = now;
  clock_tolerance_seconds = none;
}

-- The actor of an audit event, from a key.
abbrev pub actor_fields : Option ActorRef → AuditFields → AuditFields
actor_fields none f = f
actor_fields (some a) f = record f { actor_type = some a.type; actor_id = some a.id }

module _ (env : Env) where
  unfoldable pub deny_use : {A : Type 0} → UseInput → Claims → Reason → M A
  deny_use i c reason = do
    audit env denied
        (actor_fields (parse_actor_key c.actor) (record no_fields {
          owner_id = some c.sub;
          grant_id = some c.grant_id;
          jti = some c.jti;
        }))
        (("decision", text "DENY")
          ∷ ("reason", why reason)
          ∷ ("action", text i.expected_action)
          ∷ ("resource", text i.expected_resource)
          ∷ ("audience", text i.expected_audience)
          ∷ [])
    fail reason

  -- The tests by `refuse_use` and by the limits.
  unfoldable pub stop_use : UseInput → Claims → Option Reason → M (Unit {0})
  stop_use i c none = pure tt
  stop_use i c (some reason) = deny_use i c reason

  unfoldable pub stop_exceeded : Claims → Grant → Option Reason → M (Unit {0})
  stop_exceeded c g none = pure tt
  stop_exceeded c g (some reason) = do
    audit env denied (record no_fields { grant_id = some g.id; jti = some c.jti })
        (("reason", why reason) ∷ [])
    fail reason

  unfoldable pub reject_replay : Claims → Grant → M (Unit {0})
  reject_replay c g = do
    audit env replay_rejected
        (record no_fields {
          owner_id = some g.owner_id;
          actor_type = some g.actor_type;
          actor_id = some g.actor_id;
          grant_id = some g.id;
          jti = some c.jti;
        })
        []
    fail replay

  unfoldable pub consume_once : Claims → Grant → M (Unit {0})
  consume_once c g = do
    first ← run_store (try_consume_jti c.jti)
    reject_if (not first) (reject_replay c g)

  unfoldable pub record_use : UseInput → Claims → Grant → M Used
  record_use i c g = do
    audit env used
        (record no_fields {
          owner_id = some g.owner_id;
          actor_type = some g.actor_type;
          actor_id = some g.actor_id;
          grant_id = some g.id;
          jti = some c.jti;
        })
        (("decision", text "ALLOW")
          ∷ ("reason", text "ALLOW")
          ∷ ("action", text i.expected_action)
          ∷ ("resource", text i.expected_resource)
          ∷ ("audience", text i.expected_audience)
          ∷ [])
    pure (record { grant_id = g.id; jti = c.jti })

  -- From the tests of the grant on.
  unfoldable pub use_grant : UseInput → Claims → Grant → M Used
  use_grant i c g = do
    reject_if (same_status g.status revoked) (deny_use i c is_revoked)
    reject_if (same_status g.status consumed) (deny_use i c replay)
    now ← now_fn env
    reject_if (not (grant_is_live g now)) (deny_use i c grant_not_active)
    stop_use i c (refuse_use g c i)
    stop_exceeded c g (limit_exceeded g.limits g.usage_count)
    if c.one_time || g.one_time then consume_once c g else pure tt
    later ← now_fn env
    reserved ←
        run_store
          (reserve_use g.id g.grant_version later (min_count g.limits) (c.one_time || g.one_time))
    reject_if (not reserved)
        (deny_use i c (if g.one_time then replay else grant_unavailable_or_limit))
    record_use i c g

  unfoldable pub use_found : UseInput → Claims → Option Grant → M Used
  use_found i c none = deny_use i c is_revoked
  use_found i c (some g) = use_grant i c g

  unfoldable pub use_claims : UseInput → Claims → M Used
  use_claims i c = do found ← read_store (λ s. get_grant s c.grant_id); use_found i c found

  -- A token that does not verify: the attempt is recorded under the expected actor.
  unfoldable pub reject_token : UseInput → Reason → M Used
  reject_token i reason = do
    audit env denied (actor_fields (parse_actor_key i.expected_actor) no_fields) (
        ("decision", text "DENY")
        ∷ ("reason", why reason)
        ∷ ("phase", text "verify")
        ∷ ("action", text i.expected_action)
        ∷ ("resource", text i.expected_resource)
        ∷ ("audience", text i.expected_audience)
        ∷ [])
    fail reason

  unfoldable pub use_verified : UseInput → Outcome Reason Claims → M Used
  use_verified i (ok c) = use_claims i c
  use_verified i (failed reason) = reject_token i reason
  use_verified i (thrown message) = lift (thrown message)

  unfoldable pub use_token : UseInput → M Used
  use_token i = do
    now ← now_fn env
    use_verified i (verify_authority_token env.jose (verify_input env i now))

  unfoldable pub verify_token_locally : VerifyInput → M Claims
  verify_token_locally i = do
    now ← now_fn env
    lift (
        verify_authority_token env.jose
          (record i { public_jwks = env.signing_key.public_jwk ∷ []; now = now }))
