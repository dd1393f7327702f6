-- ===== src/Authority/Store.antt =====
-- `MemoryAuthorityStore` of packages/digi-authority/src/stores.ts. What it hands out are copies, so
-- only its own methods change what it holds. `now` is the answer of `new Date()` in the call.
use trustid.Base.{
  ℕ, ◌+◌, Bool, true, false, not, Option, none, some, List, [], ◌∷◌, ◌++◌, String, leb, eqb,
  if◌then◌else◌, ◌&&◌, ◌||◌, ◌==◌, includes, filter, slice_last, get_or,
}
use trustid.Base.JsMap
use trustid.Base.JsMap.{JsMap}
use trustid.Authority.Types.{
  ActorType, ApprovalMode, Status, active, consumed, pending, same_status, Consequence, Date,
  before, not_before, Limits, Conditions, Grant, Request, Reason,
}

-- The `type` of an audit event.
pub data AuditType : Type 0 where
  requested denied allowed owner_approval_requested approved : AuditType
  revoked_event token_issued replay_rejected used : AuditType

pub data DetailValue : Type 0 where
  text : String → DetailValue
  texts : List String → DetailValue
  flag : Bool → DetailValue
  why : Reason → DetailValue
  bounds : Limits → DetailValue

pub record AuditEvent : Type 0 where
  pub id : String
  pub type : AuditType
  pub owner_id : Option String
  pub actor_type : Option ActorType
  pub actor_id : Option String
  pub grant_id : Option String
  pub request_id : Option String
  pub jti : Option String
  pub detail : List (String × DetailValue)
  pub created_at : ℕ

-- The service gives every optional field of the source's record but three: version fields and
-- parent, which `toGrant` fills with 1, 1 and null.
pub record CreateGrantInput : Type 0 where
  pub id : String
  pub owner_id : String
  pub actor_type : ActorType
  pub actor_id : String
  pub audience : String
  pub actions : List String
  pub resources : List String
  pub limits : Limits
  pub conditions : Conditions
  pub approval_mode : ApprovalMode
  pub consequence : Consequence
  pub one_time : Bool
  pub valid_from : Date
  pub valid_until : Date
  pub status : Status
  pub policy_version : Option ℕ
  pub grant_version : Option ℕ
  pub parent_grant_id : Option String

pub record CreateRequestInput : Type 0 where
  pub id : String
  pub owner_id : String
  pub actor_type : ActorType
  pub actor_id : String
  pub audience : String
  pub action : String
  pub resource : String
  pub consequence : Consequence
  pub decision : ApprovalMode
  pub status : Status
  pub step_up_provided : Bool
  pub grant_id : Option String

pub record Store : Type 0 where
  pub grants : JsMap Grant
  pub requests : JsMap Request
  pub consumed : List String
  pub audit : List AuditEvent

abbrev pub empty : Store
empty = record { grants = []; requests = []; consumed = []; audit = [] }

unfoldable pub to_grant : ℕ → CreateGrantInput → Grant
to_grant now row = record {
  id = row.id;
  owner_id = row.owner_id;
  actor_type = row.actor_type;
  actor_id = row.actor_id;
  audience = row.audience;
  actions = row.actions;
  resources = row.resources;
  limits = row.limits;
  conditions = row.conditions;
  approval_mode = row.approval_mode;
  consequence = row.consequence;
  one_time = row.one_time;
  valid_from = row.valid_from;
  valid_until = row.valid_until;
  status = row.status;
  policy_version = get_or row.policy_version 1;
  grant_version = get_or row.grant_version 1;
  parent_grant_id = row.parent_grant_id;
  usage_count = 0;
  created_at = now;
  revoked_at = none;
}

-- `maxUsage !== null && g.usageCount >= maxUsage`
abbrev pub at_cap : Option ℕ → ℕ → Bool
at_cap none usage = false
at_cap (some m) usage = leb m usage

-- The test that `reserveUse` refuses by.
unfoldable pub is_unavailable : Grant → ℕ → ℕ → Option ℕ → Bool
is_unavailable g version now max_usage =
    not (same_status g.status active)
    || not (eqb g.grant_version version)
    || before now g.valid_from
    || not_before now g.valid_until
    || at_cap max_usage g.usage_count

unfoldable pub take_use : Bool → Grant → Grant
take_use one_time g = record g {
  usage_count = g.usage_count + 1;
  status = if one_time then consumed else g.status;
}

unfoldable pub reserve_use : String → ℕ → ℕ → Option ℕ → Bool → Store → Bool × Store
unfolding is_unavailable take_use
reserve_use id version now max_usage one_time s = elim (JsMap.get s.grants id) [
  | none ↦ (false, s)
  | some g ↦
      if is_unavailable g version now max_usage
      then (false, s)
      else (true, record s { grants = JsMap.modify s.grants id (take_use one_time) })
]

unfoldable pub create_grant : ℕ → CreateGrantInput → Store → Grant × Store
unfolding to_grant
create_grant now input s =
    let g = to_grant now input in (g, record s { grants = JsMap.set s.grants g.id g })

unfoldable pub get_grant : Store → String → Option Grant
get_grant s id = JsMap.get s.grants id

unfoldable pub list_grants : Store → String → Option Status → List Grant
list_grants s owner_id status =
    filter
      (λ g.
        g.owner_id == owner_id && (elim status [ none ↦ true | some t ↦ same_status g.status t ]))
      (JsMap.values s.grants)

-- `revokedAt` is `undefined` (outer none), null or a date.
unfoldable pub update_grant_status :
    String → Status → Option (Option ℕ) → Store → Option Grant × Store
unfolding get_grant
update_grant_status id status revoked_at s =
    let assign =
      λ (g : Grant). record g { status = status; revoked_at = get_or revoked_at g.revoked_at } in
    elim (JsMap.get s.grants id) [
      | none ↦ (none, s)
      | some g ↦
          let s' = record s { grants = JsMap.modify s.grants id assign } in (get_grant s' id, s')
    ]

unfoldable pub bump_grant_usage : String → Store → ℕ × Store
bump_grant_usage id s = elim (JsMap.get s.grants id) [
  | none ↦ (0, s)
  | some g ↦ (
    g.usage_count + 1,
    record s {
      grants = JsMap.modify s.grants id (λ h. record h { usage_count = h.usage_count + 1 });
    },
  )
]

unfoldable pub create_request : ℕ → CreateRequestInput → Store → Request × Store
create_request now input s =
    let r : Request = record {
      id = input.id;
      owner_id = input.owner_id;
      actor_type = input.actor_type;
      actor_id = input.actor_id;
      audience = input.audience;
      action = input.action;
      resource = input.resource;
      consequence = input.consequence;
      decision = input.decision;
      status = input.status;
      step_up_provided = input.step_up_provided;
      grant_id = input.grant_id;
      created_at = now;
      resolved_at = none;
    } in
    (r, record s { requests = JsMap.set s.requests r.id r })

unfoldable pub get_request : Store → String → Option Request
get_request s id = JsMap.get s.requests id

unfoldable pub list_pending_requests : Store → String → List Request
list_pending_requests s owner_id =
    filter (λ r. r.owner_id == owner_id && same_status r.status pending) (JsMap.values s.requests)

unfoldable pub resolve_request :
    ℕ → String → Status → Option String → Store → Option Request × Store
unfolding get_request
resolve_request now id status grant_id s =
    let assign =
      λ (r : Request). record r { status = status; grant_id = grant_id; resolved_at = some now } in
    elim (JsMap.get s.requests id) [
      | none ↦ (none, s)
      | some r ↦
          let s' = record s { requests = JsMap.modify s.requests id assign } in
          (get_request s' id, s')
    ]

unfoldable pub try_consume_jti : String → Store → Bool × Store
try_consume_jti jti s =
    if includes s.consumed jti
    then (false, s)
    else (true, record s { consumed = s.consumed ++ jti ∷ [] })

unfoldable pub is_jti_consumed : Store → String → Bool
is_jti_consumed s jti = includes s.consumed jti

-- The service always gives `createdAt`.
unfoldable pub append_audit : AuditEvent → Store → Store
append_audit event s = record s { audit = s.audit ++ event ∷ [] }

abbrev pub is_of_owner : String → Option String → Bool
is_of_owner owner_id none = false
is_of_owner owner_id (some o) = o == owner_id

unfoldable pub list_audit : Store → String → Option ℕ → List AuditEvent
list_audit s owner_id limit =
    slice_last (get_or limit 100) (filter (λ e. is_of_owner owner_id e.owner_id) s.audit)
