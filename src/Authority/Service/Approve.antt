-- ===== src/Authority/Service/Approve.antt =====
-- `approveRequest`, `denyRequest`, `revoke` and `delegate`: what the owner does. `enqueue` runs the
-- answers to one request after one another, so each is a method of its own here.
use trustid.Base.{
  ℕ, Bool, true, false, not, Option, none, some, [], ◌∷◌, String, if◌then◌else◌, ◌&&◌, ◌==◌, get_or,
}
use trustid.Base.Number.{Number, nat, num_add}
use trustid.Base.Effect.{pure, fail, ◌>>=◌, ◌>>◌}
use trustid.Authority.Types.{
  date_of, ApprovalMode, allow, ask_owner, active, pending, Status, revoked, Consequence,
  is_critical, at, no_conditions, same_status, Grant, Request, Reason, not_found, not_pending,
  actor_cannot_approve, step_up_required, delegation_chain_unsupported,
}
use trustid.Authority.Types
use trustid.Authority.Store.{
  denied, approved, revoked_event, text, flag, why, get_grant, get_request, update_grant_status,
  resolve_request, CreateGrantInput,
}
use trustid.Authority.Tokens.{Minted}
use trustid.Authority.Service.Env.{
  Env, M, no_fields, ask, now_fn, audit, insert_grant, read_store, run_store, is_own_app,
}
use trustid.Authority.Service.Issue.{issue_token_from_grant, owned}

-- `!req || req.ownerId !== ownerId`
unfoldable pub owned_request : String → Option Request → Option Request
owned_request owner_id none = none
owned_request owner_id (some r) = if r.owner_id == owner_id then some r else none

abbrev pub is_ask : ApprovalMode → Bool
is_ask ask_owner = true
is_ask _ = false

-- A critical payment that was asked for without a step-up.
unfoldable pub lacks_step_up : Request → Bool
lacks_step_up r =
    is_critical r.consequence
    && is_ask r.decision
    && not r.step_up_provided
    && r.action == "payment.approve"

pub record ApproveOptions : Type 0 where
  pub one_time : Option Bool
  pub ttl_ms : Option Number

unfoldable pub approved_grant : String → Request → ApproveOptions → ℕ → String → CreateGrantInput
approved_grant owner_id r opts now id = record {
  id = id;
  owner_id = owner_id;
  actor_type = r.actor_type;
  actor_id = r.actor_id;
  audience = r.audience;
  actions = r.action ∷ [];
  resources = r.resource ∷ [];
  limits = [];
  conditions = no_conditions;
  approval_mode = allow;
  consequence = r.consequence;
  one_time = get_or opts.one_time true;
  valid_from = at now;
  valid_until = date_of (num_add (get_or opts.ttl_ms (nat 3600000)) now);
  status = active;
  policy_version = none;
  grant_version = none;
  parent_grant_id = none;
}

module _ (env : Env) where
  -- `store.resolveRequest`, at the store's own date.
  unfoldable pub resolve : String → Status → Option String → M (Option Request)
  resolve id status grant_id = do
    date ← ask env.system_date
    run_store (resolve_request date id status grant_id)

  -- The two refusals that write to the audit log.
  unfoldable pub refuse_own : String → String → Request → M (Grant × Minted)
  refuse_own owner_id request_id r = do
    audit env denied
        (record no_fields {
          owner_id = some owner_id;
          actor_type = some r.actor_type;
          actor_id = some r.actor_id;
          request_id = some request_id;
        })
        (("reason", why actor_cannot_approve) ∷ [])
    fail actor_cannot_approve

  unfoldable pub refuse_payment : String → String → M (Grant × Minted)
  refuse_payment owner_id request_id = do
    resolve request_id Types.denied none
    audit env denied (record no_fields { owner_id = some owner_id; request_id = some request_id })
        (("reason", text "step_up_required_on_approve") ∷ [])
    fail step_up_required

  -- The rest of `approvePending` for a request that passes the tests.
  unfoldable pub approve_open : String → String → Request → ApproveOptions → M (Grant × Minted)
  approve_open owner_id request_id r opts = do
    now ← now_fn env
    g ← insert_grant env (approved_grant owner_id r opts now)
    resolve request_id active (some g.id)
    audit env approved
        (record no_fields {
          owner_id = some owner_id;
          actor_type = some r.actor_type;
          actor_id = some r.actor_id;
          grant_id = some g.id;
          request_id = some request_id;
        })
        (("oneTime", flag (get_or opts.one_time true))
          ∷ ("reusable", flag (not (get_or opts.one_time true)))
          ∷ [])
    minted ←
        issue_token_from_grant env g
          (record { actions = r.action ∷ []; resources = r.resource ∷ []; ttl_seconds = none })
    pure (g, minted)

  unfoldable pub approve_found :
      String → String → ApproveOptions → Option Request → M (Grant × Minted)
  approve_found owner_id request_id opts none = fail not_found
  approve_found owner_id request_id opts (some r) =
      if not (same_status r.status pending)
      then fail not_pending
      else if is_own_app r.actor_type r.actor_id owner_id
      then refuse_own owner_id request_id r
      else if lacks_step_up r
      then refuse_payment owner_id request_id
      else approve_open owner_id request_id r opts

  unfoldable pub approve_pending : String → String → ApproveOptions → M (Grant × Minted)
  approve_pending owner_id request_id opts = do
    found ← read_store (λ s. get_request s request_id)
    approve_found owner_id request_id opts (owned_request owner_id found)

  unfoldable pub approve_request : String → String → ApproveOptions → M (Grant × Minted)
  unfolding approve_pending
  approve_request owner_id request_id opts = approve_pending owner_id request_id opts

  unfoldable pub deny_open : String → String → Request → M (Unit {0})
  deny_open owner_id request_id r = do
    resolve request_id Types.denied none
    audit env denied
        (record no_fields {
          owner_id = some owner_id;
          actor_type = some r.actor_type;
          actor_id = some r.actor_id;
          request_id = some request_id;
        })
        (("by", text "owner") ∷ [])

  unfoldable pub deny_found : String → String → Option Request → M (Unit {0})
  deny_found owner_id request_id none = fail not_found
  deny_found owner_id request_id (some r) =
      if not (same_status r.status pending)
      then fail not_pending
      else deny_open owner_id request_id r

  unfoldable pub deny_pending : String → String → M (Unit {0})
  deny_pending owner_id request_id = do
    found ← read_store (λ s. get_request s request_id)
    deny_found owner_id request_id (owned_request owner_id found)

  unfoldable pub deny_request : String → String → M (Unit {0})
  unfolding deny_pending
  deny_request owner_id request_id = deny_pending owner_id request_id

  -- The rest of `revoke` for a grant that is not revoked yet.
  unfoldable pub revoke_live : String → String → Grant → M (Unit {0})
  revoke_live owner_id grant_id g = do
    now ← now_fn env
    run_store (update_grant_status grant_id revoked (some (some now)))
    audit env revoked_event
        (record no_fields {
          owner_id = some owner_id;
          actor_type = some g.actor_type;
          actor_id = some g.actor_id;
          grant_id = some grant_id;
        })
        []

  unfoldable pub revoke_found : String → String → Option Grant → M (Unit {0})
  revoke_found owner_id grant_id none = fail not_found
  revoke_found owner_id grant_id (some g) =
      if same_status g.status revoked then pure tt else revoke_live owner_id grant_id g

  unfoldable pub revoke : String → String → M (Unit {0})
  revoke owner_id grant_id = do
    found ← read_store (λ s. get_grant s grant_id)
    revoke_found owner_id grant_id (owned owner_id found)

  -- Chained delegation is switched off.
  unfoldable pub delegate : String → String → M Grant
  delegate owner_id parent_grant_id = fail delegation_chain_unsupported
