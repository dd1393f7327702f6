-- ===== src/Authority/Service/Issue.antt =====
-- `issueToken` and `issueTokenFromGrant`: tokens for a grant.
use trustid.Base.{
  ℕ, ◌/◌, Bool, true, false, not, Option, none, some, List, [], ◌∷◌, String, leb, if◌then◌else◌,
  ◌||◌, ◌==◌, includes, every, get_or,
}
use trustid.Base.Number.{Number, nat, num_lt, num_le, num_min, is_integer}
use trustid.Base.Effect.{Outcome, ok, failed, thrown, pure, fail, throw, ◌>>=◌, ◌>>◌}
use trustid.Authority.Types.{
  actor_key, Date, at, past, invalid, max_token_ttl_seconds, revoked, same_status, Grant, Reason,
  not_found, is_revoked, grant_not_active, empty_scope, ttl_escalation, grant_expired,
  action_not_in_grant, resource_not_in_grant,
}
use trustid.Authority.Policy.{limit_exceeded}
use trustid.Authority.Store.{token_issued, DetailValue, text, texts, get_grant}
use trustid.Authority.Tokens.{MintInput, Minted, mint_authority_token, truthy}
use trustid.Authority.Service.Env.{
  Env, M, no_fields, ask, now_fn, new_id, audit, read_store, grant_is_live, remaining_seconds,
}

pub record Narrow : Type 0 where
  pub actions : Option (List String)
  pub resources : Option (List String)
  pub ttl_seconds : Option Number

pub record ScopeOf : Type 0 where
  pub actions : List String
  pub resources : List String
  pub ttl_seconds : Option Number

abbrev pub is_empty : List String → Bool
is_empty [] = true
is_empty (x ∷ xs) = false

-- `ttl !== undefined && (!Number.isInteger(ttl) || ttl <= 0 || ttl > max)`
abbrev pub escalates_ttl : Option Number → Number → Bool
escalates_ttl none max = false
escalates_ttl (some n) max = not (is_integer n) || num_le n (nat 0) || num_lt max n

-- `Math.floor(validUntil / 1000) <= Math.floor(now / 1000)`
abbrev pub ends_this_second : Date → ℕ → Bool
ends_this_second (at t) now = leb (t / 1000) (now / 1000)
ends_this_second (past t) now = true
ends_this_second invalid now = false

-- The tests of `issueToken` after the grant is found, in the order of the source.
unfoldable pub refuse_issue : Grant → ScopeOf → Number → ℕ → Option Reason
refuse_issue g scope max_ttl now =
    if not (grant_is_live g now)
    then some (if same_status g.status revoked then is_revoked else grant_not_active)
    else if is_empty scope.actions || is_empty scope.resources
    then some empty_scope
    else if escalates_ttl scope.ttl_seconds max_ttl
    then some ttl_escalation
    else if ends_this_second g.valid_until now
    then some grant_expired
    else if not (every (includes g.actions) scope.actions)
    then some action_not_in_grant
    else if not (every (includes g.resources) scope.resources)
    then some resource_not_in_grant
    else limit_exceeded g.limits g.usage_count

abbrev pub scope_of : Grant → Narrow → ScopeOf
scope_of g n = record {
  actions = get_or n.actions g.actions;
  resources = get_or n.resources g.resources;
  ttl_seconds = n.ttl_seconds;
}

-- What the owner gets, or the end of the method.
unfoldable pub lift : {A : Type 0} → Outcome Reason A → M A
lift (ok a) = pure a
lift (failed r) = fail r
lift (thrown message) = throw message

unfoldable pub stop_for : Option Reason → M (Unit {0})
stop_for none = pure tt
stop_for (some r) = fail r

-- `!grant || grant.ownerId !== ownerId`
unfoldable pub owned : String → Option Grant → Option Grant
owned owner_id none = none
owned owner_id (some g) = if g.owner_id == owner_id then some g else none

abbrev pub ask_resolver : Option (ℕ → String → Option String) → String → M (Option String)
ask_resolver none owner_id = pure none
ask_resolver (some resolve) owner_id = ask (λ t. resolve t owner_id)

unfoldable pub mint_input : Grant → ScopeOf → Number → String → Option String → ℕ → MintInput
mint_input g scope ttl jti trust now = record {
  owner_id = g.owner_id;
  audience = g.audience;
  actor = actor_key g.actor_type g.actor_id;
  actions = scope.actions;
  resources = scope.resources;
  limits = g.limits;
  approval = g.approval_mode;
  grant_id = g.id;
  grant_version = g.grant_version;
  one_time = g.one_time;
  jti = jti;
  ttl_seconds = ttl;
  now = now;
  owner_trust_id = truthy trust;
}

-- `Math.min(ttl ?? tokenTtlSeconds, 300, remaining)`
unfoldable pub token_ttl : Option Number → Number → Number → Number
token_ttl asked default remaining =
    num_min (num_min (get_or asked default) (nat max_token_ttl_seconds)) remaining

-- `ownerTrustId: ownerTrustId ?? undefined`
abbrev pub trust_detail : Option String → List (String × DetailValue)
trust_detail none = []
trust_detail (some t) = ("ownerTrustId", text t) ∷ []

module _ (env : Env) where
  unfoldable pub issue_token_from_grant : Grant → ScopeOf → M Minted
  issue_token_from_grant g scope = do
    jti ← new_id env "jti"
    trust ← ask_resolver env.resolve_owner_trust_id g.owner_id
    ttl_now ← now_fn env
    mint_now ← now_fn env
    let ttl =
        token_ttl scope.ttl_seconds env.token_ttl_seconds (remaining_seconds g.valid_until ttl_now)
    minted ←
        lift (
          mint_authority_token env.jose env.signing_key (mint_input g scope ttl jti trust mint_now))
    audit env token_issued
        (record no_fields {
          owner_id = some g.owner_id;
          actor_type = some g.actor_type;
          actor_id = some g.actor_id;
          grant_id = some g.id;
          jti = some jti;
        })
        (("actions", texts scope.actions)
          ∷ ("resources", texts scope.resources)
          ∷ ("aud", text g.audience)
          ∷ trust_detail trust)
    pure minted

  unfoldable pub issue_found : Narrow → Option Grant → M Minted
  issue_found narrow none = fail not_found
  issue_found narrow (some g) = do
    now ← now_fn env
    stop_for (refuse_issue g (scope_of g narrow) env.token_ttl_seconds now)
    issue_token_from_grant g (scope_of g narrow)

  unfoldable pub issue_token : String → String → Narrow → M Minted
  issue_token owner_id grant_id narrow = do
    found ← read_store (λ s. get_grant s grant_id)
    issue_found narrow (owned owner_id found)
