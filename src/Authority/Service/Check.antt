-- ===== src/Authority/Service/Check.antt =====
-- `check`: the policy's decision on an action, and the grant or the request that follows from it.
use trustid.Base.{
  ℕ, ◌+◌, Bool, not, Option, none, some, [], ◌∷◌, String, if◌then◌else◌, ◌&&◌, ◌==◌, includes, find,
}
use trustid.Base.Effect.{pure, ◌>>=◌, ◌>>◌}
use trustid.Authority.Types.{
  ApprovalMode, same_type, deny, ask_owner, allow_with_limits, active, pending, at, Conditions,
  no_conditions, Grant, CheckInput, owner_boundary, step_up_required, policy_deny, Reason,
  CheckResult, allowed, denied_for, asked, allowed_within,
}
use trustid.Authority.Policy.{PolicyMatch, evaluate_actor_policy, default_match, limit_exceeded}
use trustid.Authority.Store.{
  requested, denied, owner_approval_requested, text, why, bounds, list_grants, CreateGrantInput,
  CreateRequestInput,
}
use trustid.Authority.Store
use trustid.Authority.Service.Env.{
  Env, M, AuditFields, no_fields, now_fn, audit, insert_grant, insert_request, read_store,
  find_policy, grant_is_live, is_own_app,
}

abbrev pub fields_of : CheckInput → AuditFields
fields_of i = record no_fields {
  owner_id = some i.owner_id;
  actor_type = some i.actor.type;
  actor_id = some i.actor.id;
}

-- The test of `find` on the owner's active grants.
unfoldable pub serves : CheckInput → ℕ → Grant → Bool
unfolding grant_is_live
serves i now g =
    same_type g.actor_type i.actor.type
    && g.actor_id == i.actor.id
    && g.audience == i.audience
    && includes g.actions i.action
    && includes g.resources i.resource
    && grant_is_live g now

abbrev pub conditions_of : PolicyMatch → Conditions
conditions_of m = record no_conditions { require_step_up = m.require_step_up }

unfoldable pub policy_grant : CheckInput → PolicyMatch → ℕ → String → CreateGrantInput
policy_grant i m now id = record {
  id = id;
  owner_id = i.owner_id;
  actor_type = i.actor.type;
  actor_id = i.actor.id;
  audience = i.audience;
  actions = i.action ∷ [];
  resources = i.resource ∷ [];
  limits = m.limits;
  conditions = conditions_of m;
  approval_mode = m.decision;
  consequence = m.consequence;
  one_time = m.one_time;
  valid_from = at now;
  valid_until = at (now + 604800000);
  status = active;
  policy_version = none;
  grant_version = none;
  parent_grant_id = none;
}

unfoldable pub owner_request : CheckInput → PolicyMatch → String → CreateRequestInput
owner_request i m id = record {
  id = id;
  owner_id = i.owner_id;
  actor_type = i.actor.type;
  actor_id = i.actor.id;
  audience = i.audience;
  action = i.action;
  resource = i.resource;
  consequence = m.consequence;
  decision = ask_owner;
  status = pending;
  step_up_provided = i.step_up_provided;
  grant_id = none;
}

module _ (env : Env) where
  unfoldable pub policy_match : CheckInput → PolicyMatch
  policy_match i = elim (find_policy env i.actor i.audience) [
    | none ↦ default_match deny i.action
    | some p ↦ evaluate_actor_policy p i.actor i.action i.audience i.resource
  ]

  unfoldable pub deny_check : CheckInput → Reason → M CheckResult
  deny_check i reason = do
    audit env denied (fields_of i) (("reason", why reason) ∷ ("action", text i.action) ∷ [])
    pure (denied_for reason)

  unfoldable pub ask : CheckInput → PolicyMatch → M CheckResult
  ask i m = do
    req ← insert_request env (owner_request i m)
    audit env owner_approval_requested (record (fields_of i) { request_id = some req.id })
        (("action", text i.action) ∷ ("resource", text i.resource) ∷ [])
    pure (asked req.id)

  -- `existing`, or a new grant.
  unfoldable pub reuse_or_create : CheckInput → PolicyMatch → ℕ → Option Grant → M Grant
  reuse_or_create i m now (some g) = pure g
  reuse_or_create i m now none = insert_grant env (policy_grant i m now)

  unfoldable pub answer_by : CheckInput → Grant → ApprovalMode → M CheckResult
  answer_by i g allow_with_limits = do
    audit env Store.allowed (record (fields_of i) { grant_id = some g.id })
        (("mode", text "ALLOW_WITH_LIMITS") ∷ ("limits", bounds g.limits) ∷ [])
    pure (allowed_within g.id g.limits)
  answer_by i g mode = do
    audit env Store.allowed (record (fields_of i) { grant_id = some g.id })
        (("mode", text "ALLOW") ∷ [])
    pure (allowed g.id)

  -- What follows once the grant is chosen.
  unfoldable pub answer : CheckInput → PolicyMatch → Grant → Option Reason → M CheckResult
  answer i m g (some exceeded) = do
    audit env denied (record (fields_of i) { grant_id = some g.id }) (("reason", why exceeded) ∷ [])
    pure (denied_for exceeded)
  answer i m g none = answer_by i g m.decision

  unfoldable pub grant_check : CheckInput → PolicyMatch → ℕ → M CheckResult
  grant_check i m now = do
    live ← read_store (λ s. find (serves i now) (list_grants s i.owner_id (some active)))
    g ← reuse_or_create i m now live
    answer i m g (limit_exceeded g.limits g.usage_count)

  unfoldable pub decide_by : CheckInput → PolicyMatch → ℕ → ApprovalMode → M CheckResult
  decide_by i m now deny = do
    audit env denied (fields_of i) (("action", text i.action) ∷ ("resource", text i.resource) ∷ [])
    pure (denied_for policy_deny)
  decide_by i m now ask_owner = ask i m
  decide_by i m now mode = grant_check i m now

  -- After the audit of the request: step-up, then by the policy's decision.
  unfoldable pub decide : CheckInput → PolicyMatch → ℕ → M CheckResult
  decide i m now =
      if m.require_step_up && not i.step_up_provided
      then deny_check i step_up_required
      else decide_by i m now m.decision

  -- The end of `check` for an app that names itself as the owner.
  unfoldable pub refuse_own_app : CheckInput → M CheckResult
  refuse_own_app i = do
    audit env denied (fields_of i) (
        ("reason", why owner_boundary)
        ∷ ("action", text i.action)
        ∷ ("resource", text i.resource)
        ∷ [])
    pure (denied_for owner_boundary)

  unfoldable pub request_and_decide : CheckInput → ℕ → M CheckResult
  request_and_decide i now = do
    audit env requested (fields_of i) (
        ("action", text i.action)
        ∷ ("resource", text i.resource)
        ∷ ("audience", text i.audience)
        ∷ [])
    decide i (policy_match i) now

  unfoldable pub check : CheckInput → M CheckResult
  check i = do
    now ← now_fn env
    if is_own_app i.actor.type i.actor.id i.owner_id
        then refuse_own_app i
        else request_and_decide i now
