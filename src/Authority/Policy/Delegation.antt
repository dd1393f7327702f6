-- ===== src/Authority/Policy/Delegation.antt =====
-- `assertDelegationSubset` of packages/digi-authority/src/policy.ts.
use trustid.Base.{
  Bool, true, false, not, Option, none, some, List, [], ◌∷◌, String, ltb, if◌then◌else◌, ◌||◌, ◌==◌,
  includes, every,
}
use trustid.Base.JsMap
use trustid.Base.Json.{Json, num, str}
use trustid.Base.Number.{nat, num_lt, is_finite}
use trustid.Authority.Types.{
  Limits, Date, at, past, invalid, Reason, owner_mismatch, audience_escalation, expiry_escalation,
  action_escalation, resource_escalation, limit_escalation,
}

pub record Scope : Type 0 where
  pub actions : List String
  pub resources : List String
  pub valid_until : Date
  pub limits : Limits
  pub audience : String
  pub owner_id : String

-- `!Number.isFinite(child) || child > parent`; a comparison with an invalid parent is false.
abbrev pub outlives : Date → Date → Bool
outlives invalid parent = true
outlives (at t) (at p) = ltb p t
outlives (at t) (past p) = true
outlives (at t) invalid = false
outlives (past t) (at p) = false
outlives (past t) (past p) = ltb t p
outlives (past t) invalid = false

-- The two tests of one entry of the parent's limits against the child's value.
abbrev pub entry_escalates : Json → Option Json → Bool
entry_escalates (num p) (some (num v)) = not (is_finite v) || num_lt v (nat 0) || num_lt p v
entry_escalates (num p) _ = true
entry_escalates (str p) (some (str v)) = not (p == v)
entry_escalates (str p) _ = true
entry_escalates _ _ = false

-- The loop over the parent's limits.
abbrev pub limits_escalate : Limits → Limits → Bool
limits_escalate [] child = false
limits_escalate ((k, p) ∷ parent) child =
    entry_escalates p (JsMap.get child k) || limits_escalate parent child

abbrev pub number_above : Option Json → Json → Bool
number_above (some (num p)) (num v) = num_lt p v
number_above _ _ = false

-- The loop over the child's limits.
abbrev pub introduces_above : Limits → Limits → Bool
introduces_above parent [] = false
introduces_above parent ((k, v) ∷ child) =
    number_above (JsMap.get parent k) v || introduces_above parent child

unfoldable pub assert_delegation_subset : Scope → Scope → Option Reason
assert_delegation_subset parent child =
    if not (child.owner_id == parent.owner_id)
    then some owner_mismatch
    else if not (child.audience == parent.audience)
    then some audience_escalation
    else if outlives child.valid_until parent.valid_until
    then some expiry_escalation
    else if not (every (includes parent.actions) child.actions)
    then some action_escalation
    else if not (every (includes parent.resources) child.resources)
    then some resource_escalation
    else if limits_escalate parent.limits child.limits
    then some limit_escalation
    else if introduces_above parent.limits child.limits
    then some limit_escalation
    else none
