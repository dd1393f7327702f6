-- ===== src/Authority/Examples.antt =====
-- The authority service at work: a host with counted ids and clocks and one known token, tests of the
-- operations, and the theorems at these inputs.
mod Ids
use trustid.Authority.Examples.Ids.{all_differ, all_differ_lem, append_cancel}
use trustid.Base.{
  ℕ, zero, suc, ◌+◌, ◌≤◌, ◌<◌, ◌≡◌, ◌≢◌, ◌⊎◌, inl, inr, refl, sym, ◌∙◌, ap, arith, eqb, eq_iff,
  ◌==◌, ◌&&◌, not, Bool, Bool-cases, true, false, none, some, [], ◌∷◌, String,
}
use Prim.Native.String
use trustid.Base.JsMap
use trustid.Base.Number.{num_min, nat, is_integer, num_lt, is_safe_integer, num_le, num_add, num_eq}
use trustid.Base.Text.{trim, strip_prefix, take_text, without_dashes}
use trustid.Base.Decimal.{number_text}
use trustid.Base.Effect.{ok, failed, ◌>>=◌}
use trustid.Authority.Types.{
  actor_key, at, active, medium, allow, no_conditions, Grant, Claims, CheckInput, Reason,
  digital_twin, authority_issuer, allowed, asked, denied_for, is_revoked, replay,
}
use trustid.Authority.Policy.{
  digi_authority_policies, consequence_for_action, limit_exceeded, evaluate_rules, rule_applies,
  evaluate_actor_policy,
}
use trustid.Authority.Store.{
  list_grants, create_grant, get_grant, reserve_use, try_consume_jti, update_grant_status,
}
use trustid.Authority.Claims.{is_authority_claims_shape, is_actor_key, is_trimmed}
use trustid.Authority.Tokens.{
  Jose, value, claims_payload, payload_claims, verify_authority_token, verify_with_key,
  accept_payload, check_claims, mint_authority_token, mint_claims,
}
use trustid.Authority.Service.Env.{
  Env, Service, random_id, find_policy, read_store, run_store, now_fn, audit, insert_grant,
  grant_is_live, is_own_app, remaining_seconds,
}
use trustid.Authority.Service.Check.{
  check, policy_match, request_and_decide, refuse_own_app, decide, decide_by, deny_check,
  grant_check, serves, reuse_or_create, policy_grant, answer, answer_by,
}
use trustid.Authority.Service.Use.{
  UseInput, Used, use_token, use_verified, use_claims, use_found, use_grant, deny_use, stop_use,
  stop_exceeded, consume_once, reject_replay, record_use, refuse_use, min_count, has_condition,
}
use trustid.Authority.Service.Approve.{revoke, revoke_found, revoke_live}
use trustid.Authority.Service.Issue.{
  Narrow, owned, issue_token, issue_found, stop_for, refuse_issue, issue_token_from_grant, lift,
  mint_input, token_ttl,
}
use trustid.Authority.History.Evolution.{IsValid, IsSound, Evolves}
use trustid.Authority.History.Collisions.{AreDistinct}
use trustid.Authority.Types
use trustid.Authority.Types.{app, Request, low, ask_owner, not_pending}
use trustid.Authority.Store.{create_request, get_request, resolve_request}
use trustid.Authority.Policy.{ddi_pdi_capability_binding, is_ddi_pdi_capability}
use trustid.Authority.Service.Env.{insert_request}
use trustid.Authority.Service.Check.{ask, owner_request}
use trustid.Authority.Service.Approve.{
  ApproveOptions, approve_request, deny_request, deny_pending, deny_found, deny_open, owned_request,
  resolve,
}
use trustid.Authority.History.Runs.{denies}
use trustid.Authority.Settlement.{settled-not_pending}
use trustid.Authority.Revocation.{VerifiesAs, revoke-use_token}
use trustid.Authority.Decisions.{IsDdiRequest, check_production}
use trustid.Authority.Issuance.{IsTokenFor, issue_token-IsTokenFor}
use trustid.Authority.Admission.{IsAccepted, use_token-IsAccepted}
use trustid.Authority.Replay.{use_token_once}
use trustid.Authority.History.Runs.{
  checks, uses, fresh, fresh-IsValid, run, run-Evolves, run-IsSound,
}

-- The claims of the token that the host accepts.
abbrev sample_claims : Claims
sample_claims = record {
  iss = authority_issuer;
  sub = "ada";
  aud = "tv";
  actor = "digital_twin:mrfundzman";
  actions = "tv.program.create" ∷ [];
  resources = "channel" ∷ [];
  limits = [];
  approval = "ALLOW";
  grant_id = "auth_3";
  grant_version = nat 1;
  one_time = true;
  jti = "j";
  iat = nat 1000;
  nbf = nat 1000;
  exp = nat 1300;
  owner_trust_id = none;
}

abbrev toy_jose : Jose
toy_jose = record {
  decode_header = λ token. value (record { alg = some "EdDSA"; kid = some "auth-1" });
  import_jwk = λ jwk. value jwk.material;
  jwt_verify = λ token key options. value (claims_payload sample_claims);
  sign = λ key kid payload. "token";
}

abbrev toy : Env
toy = record {
  now_fn = λ n. 1000000 + n;
  system_date = λ n. 1000000 + n;
  random_uuid = λ n. number_text (nat n);
  policies = digi_authority_policies false;
  token_ttl_seconds = nat 300;
  signing_key = record {
    kid = "auth-1";
    private_key = "d";
    public_jwk = record { kid = some "auth-1"; material = "x" };
  };
  resolve_owner_trust_id = none;
  jose = toy_jose;
}

abbrev toy_digits : ℕ → String
toy_digits n = take_text 16 (without_dashes (number_text (nat n)))

toy_differs : all_differ toy_digits 40 ≡ true
unfolding take_text without_dashes number_text
toy_differs = refl

toy-AreDistinct : (n : ℕ) → n ≤ 40 → AreDistinct toy n
unfolding random_id
toy-AreDistinct n le = record {
  apart = λ prefix k m before below same.
      all_differ_lem toy_digits 40 toy_differs k m before (omega arith) (
        append_cancel "_" (toy_digits m) (toy_digits k) (
          append_cancel prefix (String.◌++◌ "_" (toy_digits m)) (String.◌++◌ "_" (toy_digits k))
            same));
}

abbrev create_program : CheckInput
create_program = record {
  owner_id = "ada";
  actor = record { type = digital_twin; id = "mrfundzman" };
  action = "tv.program.create";
  resource = "channel";
  audience = "tv";
  step_up_provided = false;
}

-- Everything that a run of the service computes with.
service_runs : Unit {0}
unfolding run check request_and_decide refuse_own_app decide decide_by deny_check grant_check serves
    reuse_or_create policy_grant answer answer_by policy_match find_policy evaluate_actor_policy
    evaluate_rules rule_applies digi_authority_policies consequence_for_action limit_exceeded
    list_grants create_grant get_grant JsMap.get JsMap.set JsMap.modify JsMap.values read_store
    use_token use_verified use_claims use_found use_grant deny_use stop_use stop_exceeded
    consume_once reject_replay record_use refuse_use min_count has_condition grant_is_live
    reserve_use try_consume_jti revoke revoke_found revoke_live owned update_grant_status run_store
    now_fn audit insert_grant verify_with_key accept_payload check_claims is_actor_key is_trimmed
    mint_claims verify_authority_token trim strip_prefix is_integer num_lt is_safe_integer num_le
    num_add num_eq actor_key is_authority_claims_shape claims_payload payload_claims ◌>>=◌ ask
    insert_request create_request deny_request deny_pending deny_found deny_open owned_request
    resolve resolve_request get_request ddi_pdi_capability_binding is_ddi_pdi_capability
    owner_request random_id take_text without_dashes number_text
service_runs = tt

check_allows : (check toy create_program fresh).0 ≡ ok (allowed "auth_3")
unfolding service_runs
check_allows = refl

abbrev present : UseInput
present = record {
  token = "token";
  expected_audience = "tv";
  expected_actor = "digital_twin:mrfundzman";
  expected_action = "tv.program.create";
  expected_resource = "channel";
}

abbrev ready : Service
ready = run toy fresh (checks create_program ∷ [])

distinct_ready : AreDistinct toy ready.ticks
unfolding service_runs
distinct_ready = toy-AreDistinct _ (omega arith)

ready-IsValid : IsValid toy ready
ready-IsValid =
    (run-Evolves toy fresh (checks create_program ∷ []) distinct_ready (fresh-IsValid toy)).valid

use_accepts : (use_token toy present ready).0 ≡ ok (record { grant_id = "auth_3"; jti = "j" })
unfolding service_runs
use_accepts = refl

use_again : (use_token toy present (use_token toy present ready).1).0 ≡ failed replay
unfolding service_runs
use_again = refl

abbrev program_grant : Grant
program_grant = record {
  id = "auth_3";
  owner_id = "ada";
  actor_type = digital_twin;
  actor_id = "mrfundzman";
  audience = "tv";
  actions = "tv.program.create" ∷ [];
  resources = "channel" ∷ [];
  limits = [];
  conditions = no_conditions;
  approval_mode = allow;
  consequence = medium;
  one_time = false;
  valid_from = at 1000000;
  valid_until = at 605800000;
  status = active;
  policy_version = 1;
  grant_version = 1;
  parent_grant_id = none;
  usage_count = 0;
  created_at = 1000004;
  revoked_at = none;
}

grant_is_there : JsMap.get ready.store.grants "auth_3" ≡ some program_grant
unfolding service_runs
grant_is_there = refl

-- The grant after the use of a one-time token for it.
abbrev used_grant : Grant
used_grant = record program_grant { usage_count = 1; status = Types.consumed }

used_grant_is_there :
    JsMap.get (run toy fresh (checks create_program ∷ uses present ∷ [])).store.grants "auth_3"
    ≡ some used_grant
unfolding service_runs
used_grant_is_there = refl

distinct_used : AreDistinct toy (run toy fresh (checks create_program ∷ uses present ∷ [])).ticks
unfolding service_runs
distinct_used = toy-AreDistinct _ (omega arith)

run-IsSound_example : IsSound used_grant
run-IsSound_example =
    run-IsSound toy (checks create_program ∷ uses present ∷ []) "auth_3" used_grant distinct_used
      used_grant_is_there

use_token-IsAccepted_example :
    IsAccepted toy ready present (record { grant_id = "auth_3"; jti = "j" })
use_token-IsAccepted_example =
    use_token-IsAccepted toy ready present (record { grant_id = "auth_3"; jti = "j" }) ready-IsValid
      use_accepts

abbrev withdrawn : Service
withdrawn = run toy (revoke toy "ada" "auth_3" ready).1 (checks create_program ∷ [])

verifies_withdrawn : VerifiesAs toy withdrawn present sample_claims
unfolding service_runs
verifies_withdrawn = refl

distinct_withdrawn : AreDistinct toy withdrawn.ticks
unfolding service_runs
distinct_withdrawn = toy-AreDistinct _ (omega arith)

revoke-use_token_example : (use_token toy present withdrawn).0 ≡ failed is_revoked
revoke-use_token_example =
    revoke-use_token toy ready "ada" "auth_3" program_grant (checks create_program ∷ []) present
      sample_claims distinct_withdrawn ready-IsValid grant_is_there refl verifies_withdrawn refl

abbrev after_use : Service
after_use = run toy (use_token toy present ready).1 (checks create_program ∷ [])

verifies_ready : VerifiesAs toy ready present sample_claims
unfolding service_runs
verifies_ready = refl

verifies_after_use : VerifiesAs toy after_use present sample_claims
unfolding service_runs
verifies_after_use = refl

abbrev first_use : Used
first_use = record { grant_id = "auth_3"; jti = "j" }

distinct_after_use : AreDistinct toy after_use.ticks
unfolding service_runs
distinct_after_use = toy-AreDistinct _ (omega arith)

use_token_once_example : (use_token toy present after_use).0 ≢ ok first_use
use_token_once_example =
    use_token_once toy ready present first_use sample_claims (checks create_program ∷ []) present
      sample_claims first_use distinct_after_use ready-IsValid use_accepts verifies_ready refl
      verifies_after_use refl refl

abbrev production : Env
production = record toy { policies = digi_authority_policies true }

check_production_example :
    (((r : Reason) × ((check production create_program fresh).0 ≡ ok (denied_for r)))
      ⊎ ((id : String) × ((check production create_program fresh).0 ≡ ok (asked id))
          × IsDdiRequest create_program
          × (is_own_app digital_twin "mrfundzman" "ada" ≡ false)))
    × ((check production create_program fresh).1.store.grants ≡ [])
check_production_example = check_production production refl create_program fresh

abbrev narrow : Narrow
narrow = record { actions = none; resources = none; ttl_seconds = none }

abbrev issued : Claims
issued = record sample_claims { one_time = false; jti = "jti_8" }

issues : (issue_token toy "ada" "auth_3" narrow ready).0 ≡ ok ("token", issued)
unfolding service_runs issue_token issue_found stop_for refuse_issue issue_token_from_grant lift
    mint_authority_token mint_input token_ttl num_min remaining_seconds
issues = refl

issue_token-IsTokenFor_example :
    (g : Grant) × (JsMap.get ready.store.grants "auth_3" ≡ some g)
    × (g.owner_id ≡ "ada")
    × (grant_is_live g (1000000 + ready.ticks) ≡ true)
    × IsTokenFor g issued (1000000 + suc (suc ready.ticks)) (1000000 + suc (suc (suc ready.ticks)))
issue_token-IsTokenFor_example =
    issue_token-IsTokenFor toy "ada" "auth_3" narrow "token" issued ready issues

run-Evolves_example : Evolves toy ready after_use
unfolding run use_token
run-Evolves_example =
    run-Evolves toy ready (uses present ∷ checks create_program ∷ []) distinct_after_use
      ready-IsValid

-- A state in which the owner has denied a request.
abbrev answered_request : Request
answered_request = record {
  id = "req_3";
  owner_id = "ada";
  actor_type = app;
  actor_id = "show";
  audience = "ddi";
  action = "data.read";
  resource = "ddi:pdi:home:data.read";
  consequence = low;
  decision = ask_owner;
  status = Types.denied;
  step_up_provided = false;
  grant_id = none;
  created_at = 1000004;
  resolved_at = some 1000007;
}

abbrev question : CheckInput
question = record {
  owner_id = "ada";
  actor = record { type = app; id = "show" };
  action = "data.read";
  resource = "ddi:pdi:home:data.read";
  audience = "ddi";
  step_up_provided = false;
}

abbrev answered : Service
answered = run toy fresh (checks question ∷ denies "ada" "req_3" ∷ [])

distinct_answered : AreDistinct toy answered.ticks
unfolding service_runs
distinct_answered = toy-AreDistinct _ (omega arith)

answered-IsValid : IsValid toy answered
answered-IsValid =
    (run-Evolves toy fresh (checks question ∷ denies "ada" "req_3" ∷ []) distinct_answered
      (fresh-IsValid toy)).valid

request_is_there : JsMap.get answered.store.requests "req_3" ≡ some answered_request
unfolding service_runs
request_is_there = refl

distinct_asked_again : AreDistinct toy (run toy answered (checks question ∷ [])).ticks
unfolding service_runs
distinct_asked_again = toy-AreDistinct _ (omega arith)

settled-not_pending_example :
    let s' = run toy answered (checks question ∷ []) in
    ((opts : ApproveOptions) → approve_request toy "ada" "req_3" opts s' ≡ (failed not_pending, s'))
    × (deny_request toy "ada" "req_3" s' ≡ (failed not_pending, s'))
settled-not_pending_example =
    settled-not_pending toy answered "ada" "req_3" answered_request (checks question ∷ [])
      distinct_asked_again answered-IsValid request_is_there refl refl
