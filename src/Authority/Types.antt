-- ===== src/Authority/Types.antt =====
-- packages/digi-authority/src/types.ts and the records of stores.ts.
use Prim.Native.Char.{Char, code}
use Prim.Native.String
use trustid.Base.{
  ◌==◌, ℕ, Bool, true, false, Option, none, some, List, String, leb, ltb, eqb, if◌then◌else◌,
}
use trustid.Base.Json.{Json}
use trustid.Base.Number.{Number, nat, negsuc, time_clip}
use trustid.Base.Text.{trim}

pub data ActorType : Type 0 where
  human app service digital_twin device business : ActorType

abbrev pub type_text : ActorType → String
type_text human = "human"
type_text app = "app"
type_text service = "service"
type_text digital_twin = "digital_twin"
type_text device = "device"
type_text business = "business"

-- The union types of the source are unions of texts: `===` on them.
abbrev pub same_type : ActorType → ActorType → Bool
same_type human human = true
same_type app app = true
same_type service service = true
same_type digital_twin digital_twin = true
same_type device device = true
same_type business business = true
same_type _ _ = false

pub record ActorRef : Type 0 where
  pub type : ActorType
  pub id : String

-- `${type}:${id}`
unfoldable pub actor_key : ActorType → String → String
actor_key t i = String.◌++◌ (String.◌++◌ (type_text t) ":") i

pub data ApprovalMode : Type 0 where
  allow deny ask_owner allow_with_limits : ApprovalMode

abbrev pub mode_text : ApprovalMode → String
mode_text allow = "ALLOW"
mode_text deny = "DENY"
mode_text ask_owner = "ASK_OWNER"
mode_text allow_with_limits = "ALLOW_WITH_LIMITS"

pub data Status : Type 0 where
  pending active denied expired revoked consumed : Status

abbrev pub same_status : Status → Status → Bool
same_status pending pending = true
same_status active active = true
same_status denied denied = true
same_status expired expired = true
same_status revoked revoked = true
same_status consumed consumed = true
same_status _ _ = false

pub data Consequence : Type 0 where
  low medium high critical : Consequence

abbrev pub is_critical : Consequence → Bool
is_critical critical = true
is_critical _ = false

abbrev pub authority_issuer : String
authority_issuer = "digiconomy-authority"

abbrev pub max_token_ttl_seconds : ℕ
max_token_ttl_seconds = 300

-- A `Date`: milliseconds since 1970, `n + 1` milliseconds before it, or an invalid date, whose time is
-- `NaN`.
pub data Date : Type 0 where
  at : ℕ → Date
  past : ℕ → Date
  invalid : Date

-- `n < d`, `n >= d` and `Number.isFinite(d)` on `getTime()`; false on `NaN`.
abbrev pub before : ℕ → Date → Bool
before n (at t) = ltb n t
before n (past t) = false
before n invalid = false

abbrev pub not_before : ℕ → Date → Bool
not_before n (at t) = leb t n
not_before n (past t) = true
not_before n invalid = false

abbrev pub is_valid : Date → Bool
is_valid (at t) = true
is_valid (past t) = true
is_valid invalid = false

abbrev date_at : Number → Date
date_at (nat t) = at t
date_at (negsuc t) = past t
date_at _ = invalid

-- `new Date(n)`
unfoldable pub date_of : Number → Date
unfolding time_clip
date_of n = date_at (time_clip n)

-- `{ [key: string]: number | string | undefined }`, in the order of its keys.
abbrev pub Limits : Type 0
Limits = List (String × Json)

pub record Conditions : Type 0 where
  pub require_step_up : Bool
  pub require_trusted_device : Bool
  pub require_owner_online : Bool
  pub business_hours_only : Bool
  pub assisted_mode_only : Bool
  pub bound_device_id : Option String
  pub bound_session_id : Option String

-- `{}`: a condition that is not given is as falsy as one that is `false`.
abbrev pub no_conditions : Conditions
no_conditions = record {
  require_step_up = false;
  require_trusted_device = false;
  require_owner_online = false;
  business_hours_only = false;
  assisted_mode_only = false;
  bound_device_id = none;
  bound_session_id = none;
}

pub record Grant : Type 0 where
  pub id : String
  pub owner_id : String
  pub actor_type : ActorType
  pub actor_id : String
  pub audience : String
  pub actions : List String
  pub resources : List String
  pub limits : Limits
  pub conditions : Conditions
  pub approval_mode : ApprovalMode
  pub consequence : Consequence
  pub one_time : Bool
  pub valid_from : Date
  pub valid_until : Date
  pub status : Status
  pub policy_version : ℕ
  pub grant_version : ℕ
  pub parent_grant_id : Option String
  pub usage_count : ℕ
  pub created_at : ℕ
  pub revoked_at : Option ℕ

pub record Request : Type 0 where
  pub id : String
  pub owner_id : String
  pub actor_type : ActorType
  pub actor_id : String
  pub audience : String
  pub action : String
  pub resource : String
  pub consequence : Consequence
  pub decision : ApprovalMode
  pub status : Status
  pub step_up_provided : Bool
  pub grant_id : Option String
  pub created_at : ℕ
  pub resolved_at : Option ℕ

pub record CheckInput : Type 0 where
  pub owner_id : String
  pub actor : ActorRef
  pub action : String
  pub resource : String
  pub audience : String
  pub step_up_provided : Bool

-- The texts that the source returns as `reason`.
pub data Reason : Type 0 where
  owner_boundary step_up_required policy_deny : Reason
  max_posts_exceeded max_messages_exceeded max_deployments_exceeded : Reason
  not_found not_pending actor_cannot_approve : Reason
  is_revoked grant_not_active empty_scope ttl_escalation grant_expired : Reason
  action_not_in_grant resource_not_in_grant : Reason
  replay grant_version_mismatch grant_binding_mismatch grant_not_approved : Reason
  unsupported_conditions delegation_chain_unsupported unsupported_limits invalid_limits : Reason
  grant_unavailable_or_limit : Reason
  bad_alg unknown_kid malformed not_yet_valid wrong_actor wrong_action wrong_resource : Reason
  wrong_audience token_expired invalid_token : Reason
  owner_mismatch audience_escalation expiry_escalation action_escalation : Reason
  resource_escalation limit_escalation : Reason

pub data CheckResult : Type 0 where
  allowed : String → CheckResult
  denied_for : Reason → CheckResult
  asked : String → CheckResult
  allowed_within : String → Limits → CheckResult

pub record Claims : Type 0 where
  pub iss : String
  pub sub : String
  pub aud : String
  pub actor : String
  pub actions : List String
  pub resources : List String
  pub limits : Limits
  pub approval : String
  pub grant_id : String
  pub grant_version : Number
  pub one_time : Bool
  pub jti : String
  pub iat : Number
  pub nbf : Number
  pub exp : Number
  pub owner_trust_id : Option String

-- `raw.slice(0, i)` and `raw.slice(i + 1)` at the first colon.
abbrev pub cons_left : Char → Option (String × String) → Option (String × String)
cons_left c none = none
cons_left c (some (l, r)) = some (String.◌∷◌ c l, r)

unfoldable pub split_at_colon : String → Option (String × String)
split_at_colon String.[] = none
split_at_colon (String.◌∷◌ c s) =
    let rest = split_at_colon s in if eqb (code c) b':' then some ("", s) else cons_left c rest

unfoldable pub parse_type : String → Option ActorType
parse_type s =
    if s == "human"
    then some human
    else if s == "app"
    then some app
    else if s == "service"
    then some service
    else if s == "digital_twin"
    then some digital_twin
    else if s == "device"
    then some device
    else if s == "business"
    then some business
    else none

abbrev pub actor_ref : Option ActorType → String → Option ActorRef
actor_ref none i = none
actor_ref (some t) i = if i == "" then none else some (record { type = t; id = i })

abbrev pub ref_of_parts : Option (String × String) → Option ActorRef
ref_of_parts none = none
ref_of_parts (some (l, r)) = actor_ref (parse_type l) (trim r)

-- A colon in front leaves the type empty, and no type is empty.
unfoldable pub parse_actor_key : String → Option ActorRef
unfolding split_at_colon parse_type
parse_actor_key raw = ref_of_parts (split_at_colon raw)
