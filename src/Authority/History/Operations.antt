-- ===== src/Authority/History/Operations.antt =====
-- Every operation of the service, however it ends, takes a valid state to a later one.
use trustid.Base.{ℕ, refl, Option, none, some, String}
use trustid.Base.Effect.Keeps.{Keeps, Leads, Leads-bind, Leads-then, Keeps-both, keeps_rules}
use trustid.Authority.Types.{
  Grant, Reason, CheckInput, deny, ask_owner, allow_with_limits, ApprovalMode,
}
use trustid.Authority.Policy.{PolicyMatch}
use trustid.Authority.Tokens.{VerifyInput}
use trustid.Authority.Service.Env.{Env, Service, insert_request}
use trustid.Authority.Service.Check
use trustid.Authority.Service.Check.{
  policy_grant, owner_request, deny_check, reuse_or_create, answer, answer_by, grant_check, decide,
  decide_by, refuse_own_app, request_and_decide, check,
}
use trustid.Authority.Service.Issue.{
  Narrow, ScopeOf, ask_resolver, issue_token_from_grant, issue_found, issue_token,
}
use trustid.Authority.Service.Approve.{revoke_live, revoke_found, revoke}
use trustid.Authority.Service.Use.{verify_token_locally}
use trustid.Authority.History.Collisions.{Becomes}
use trustid.Authority.History.Calls.{
  IsOpen, Keeps-of, ask-Keeps, read_store-Keeps, or_else-Keeps, lift-Keeps, stop_for-Keeps,
  now_fn-Keeps, new_id-Keeps, audit-Keeps, insert_grant-Keeps, insert_request-Keeps,
  try_consume_jti-Keeps, reserve_use-Keeps, resolve_request-Leads, update_grant_status-Keeps,
}

pub ruleset call_rules = (
  keeps_rules, ask-Keeps, read_store-Keeps, or_else-Keeps, lift-Keeps, stop_for-Keeps, now_fn-Keeps,
  new_id-Keeps, audit-Keeps, try_consume_jti-Keeps, update_grant_status-Keeps,
)

module _ (env : Env) (start : Service) where
  deny_check-Keeps : (i : CheckInput) (r : Reason) → Keeps (Becomes env start) (deny_check env i r)
  unfolding deny_check
  deny_check-Keeps i r = search call_rules

  policy_grant-Keeps :
      (i : CheckInput) (m : PolicyMatch) (now : ℕ) (o : Option Grant)
      → Keeps (Becomes env start) (reuse_or_create env i m now o)
  unfolding reuse_or_create policy_grant
  policy_grant-Keeps i m now (some g) = search call_rules
  policy_grant-Keeps i m now none = insert_grant-Keeps env start _ (λ id. refl)

  owner_request-Keeps :
      (i : CheckInput) (m : PolicyMatch)
      → Keeps (Becomes env start) (insert_request env (owner_request i m))
  unfolding owner_request
  owner_request-Keeps i m = insert_request-Keeps env start (owner_request i m) (λ id. refl)

  ask-request-Keeps :
      (i : CheckInput) (m : PolicyMatch) → Keeps (Becomes env start) (Check.ask env i m)
  unfolding Check.ask
  ask-request-Keeps i m = search (call_rules, owner_request-Keeps)

  answer_by-Keeps :
      (i : CheckInput) (g : Grant) (mode : ApprovalMode)
      → Keeps (Becomes env start) (answer_by env i g mode)
  unfolding answer_by
  answer_by-Keeps i g allow_with_limits = search call_rules
  answer_by-Keeps i g _ = search call_rules

  answer-Keeps :
      (i : CheckInput) (m : PolicyMatch) (g : Grant) (o : Option Reason)
      → Keeps (Becomes env start) (answer env i m g o)
  unfolding answer
  answer-Keeps i m g (some e) = search call_rules
  answer-Keeps i m g none = answer_by-Keeps i g m.decision

  grant_check-Keeps :
      (i : CheckInput) (m : PolicyMatch) (now : ℕ)
      → Keeps (Becomes env start) (grant_check env i m now)
  unfolding grant_check
  grant_check-Keeps i m now = search (call_rules, policy_grant-Keeps, answer-Keeps)

  decide_by-Keeps :
      (i : CheckInput) (m : PolicyMatch) (now : ℕ) (mode : ApprovalMode)
      → Keeps (Becomes env start) (decide_by env i m now mode)
  unfolding decide_by
  decide_by-Keeps i m now deny = search call_rules
  decide_by-Keeps i m now ask_owner = ask-request-Keeps i m
  decide_by-Keeps i m now _ = grant_check-Keeps i m now

  pub check-Keeps : (i : CheckInput) → Keeps (Becomes env start) (check env i)
  unfolding check request_and_decide refuse_own_app decide
  check-Keeps i = search (call_rules, deny_check-Keeps, decide_by-Keeps) depth 7

  ask_resolver-Keeps :
      (o : Option (ℕ → String → Option String)) (owner : String)
      → Keeps (Becomes env start) (ask_resolver o owner)
  ask_resolver-Keeps none owner = search call_rules
  ask_resolver-Keeps (some f) owner = search call_rules

  pub issue_token_from_grant-Keeps :
      (g : Grant) (scope : ScopeOf) → Keeps (Becomes env start) (issue_token_from_grant env g scope)
  unfolding issue_token_from_grant
  issue_token_from_grant-Keeps g scope = search (call_rules, ask_resolver-Keeps) depth 9

  issue_found-Keeps :
      (n : Narrow) (o : Option Grant) → Keeps (Becomes env start) (issue_found env n o)
  unfolding issue_found
  issue_found-Keeps n none = search call_rules
  issue_found-Keeps n (some g) = search (call_rules, issue_token_from_grant-Keeps)

  pub issue_token-Keeps :
      (owner grant_id : String) (n : Narrow)
      → Keeps (Becomes env start) (issue_token env owner grant_id n)
  unfolding issue_token
  issue_token-Keeps owner grant_id n = search (call_rules, issue_found-Keeps)

  revoke_found-Keeps :
      (owner grant_id : String) (o : Option Grant)
      → Keeps (Becomes env start) (revoke_found env owner grant_id o)
  unfolding revoke_found revoke_live
  revoke_found-Keeps owner grant_id none = search call_rules
  revoke_found-Keeps owner grant_id (some g) = search call_rules

  pub revoke-Keeps :
      (owner grant_id : String) → Keeps (Becomes env start) (revoke env owner grant_id)
  unfolding revoke
  revoke-Keeps owner grant_id = search (call_rules, revoke_found-Keeps)

  pub verify_token_locally-Keeps :
      (i : VerifyInput) → Keeps (Becomes env start) (verify_token_locally env i)
  unfolding verify_token_locally
  verify_token_locally-Keeps i = search call_rules
