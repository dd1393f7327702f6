-- ===== src/Authority/Policy.antt =====
-- packages/digi-authority/src/policy.ts.
pub mod Delegation
pub mod Narrowing
use mathlib.Core.List.{reverse}
use trustid.Base.{
  ℕ, Bool, true, false, not, Option, none, some, List, [], ◌∷◌, String, leb, eqb, if◌then◌else◌,
  ◌&&◌, ◌||◌, ◌==◌, includes, get_or, any, every,
}
use trustid.Base.JsMap
use trustid.Base.Json.{Json, num}
use trustid.Base.Number.{nat, num_le}
use trustid.Base.Text.{codes, strip_prefix, has_infix}
use trustid.Authority.Types.{
  ActorType, app, digital_twin, same_type, ActorRef, ApprovalMode, allow, deny, ask_owner,
  allow_with_limits, Consequence, low, medium, high, critical, Limits, Reason, max_posts_exceeded,
  max_messages_exceeded, max_deployments_exceeded,
}

-- Whether `resourceBinding` is "ddi-pdi-capability".
pub record PolicyRule : Type 0 where
  pub actions : List String
  pub resources : Option (List String)
  pub ddi_pdi_binding : Bool
  pub decision : ApprovalMode
  pub limits : Option Limits
  pub consequence : Option Consequence
  pub require_step_up : Bool
  pub one_time : Bool

pub record ActorPolicy : Type 0 where
  pub actor_type : ActorType
  pub actor_id : String
  pub audience : String
  pub rules : List PolicyRule
  pub default_decision : Option ApprovalMode

pub record PolicyMatch : Type 0 where
  pub decision : ApprovalMode
  pub limits : Limits
  pub consequence : Consequence
  pub require_step_up : Bool
  pub one_time : Bool

abbrev pub is_letter : ℕ → Bool
is_letter c = (leb b'A' c && leb c b'Z') || (leb b'a' c && leb c b'z')

abbrev pub is_word : ℕ → Bool
is_word c = is_letter c || (leb b'0' c && leb c b'9') || eqb c b'_'

-- `[A-Za-z][A-Za-z0-9_]*$`
abbrev pub is_identifier : List ℕ → Bool
is_identifier [] = false
is_identifier (c ∷ s) = is_letter c && every is_word s

abbrev pub domains : List String
domains =
    "identity." ∷ "communication." ∷ "data." ∷ "jobs." ∷ "distribution." ∷ "value."
    ∷ "intelligence." ∷ []

abbrev pub in_domain : List ℕ → String → Bool
in_domain action d = elim (strip_prefix (codes d) action) [
  | none ↦ false
  | some r ↦ is_identifier r
]

-- The regular expression `DDI_PDI_CAPABILITY`.
unfoldable pub is_ddi_pdi_capability : List ℕ → Bool
is_ddi_pdi_capability action = any (in_domain action) domains

-- The text before a suffix, if the text has it.
abbrev pub strip_suffix : List ℕ → List ℕ → Option (List ℕ)
strip_suffix p s = elim (strip_prefix (reverse p) (reverse s)) [
  | none ↦ none
  | some r ↦ some (reverse r)
]

abbrev pub starts_with_colon : List ℕ → Bool
starts_with_colon [] = false
starts_with_colon (c ∷ s) = eqb c b':'

abbrev pub is_infrastructure_id : List ℕ → Bool
is_infrastructure_id [] = false
is_infrastructure_id (c ∷ s) =
    not (starts_with_colon (c ∷ s)) && not (starts_with_colon (reverse (c ∷ s)))

-- A resource that is shorter than prefix and suffix together has an empty slice between them.
unfoldable pub ddi_pdi_capability_binding : String → String → Bool
unfolding is_ddi_pdi_capability
ddi_pdi_capability_binding action resource =
    is_ddi_pdi_capability (codes action)
    && (elim (strip_prefix (codes "ddi:pdi:") (codes resource)) [
      | none ↦ false
      | some r ↦ elim (strip_suffix (b':' ∷ codes action) r) [
        | none ↦ false
        | some i ↦ is_infrastructure_id i
      ]
    ])

unfoldable pub ddi_pdi_application_policy : ActorPolicy
ddi_pdi_application_policy = record {
  actor_type = app;
  actor_id = "*";
  audience = "ddi";
  default_decision = some deny;
  rules =
      record {
        actions = [];
        resources = none;
        ddi_pdi_binding = true;
        decision = ask_owner;
        limits = none;
        consequence = some low;
        require_step_up = false;
        one_time = false;
      }
      ∷ [];
}

abbrev pub rule : List String → ApprovalMode → Option Limits → Consequence → Bool → PolicyRule
rule actions decision limits consequence guarded = record {
  actions = actions;
  resources = none;
  ddi_pdi_binding = false;
  decision = decision;
  limits = limits;
  consequence = some consequence;
  require_step_up = guarded;
  one_time = guarded;
}

-- `DIGITAL_TWIN_MRFUNDZMAN_POLICY`; the one rule that requires a step-up is the one-time rule.
unfoldable pub digital_twin_policy : ActorPolicy
digital_twin_policy = record {
  actor_type = digital_twin;
  actor_id = "mrfundzman";
  audience = "*";
  default_decision = some deny;
  rules =
      rule ("tv.program.create" ∷ "radio.program.create" ∷ []) allow none medium false
      ∷ rule ("tv.program.publish" ∷ "radio.program.publish" ∷ []) allow_with_limits
          (some (("maxPosts", num (nat 1)) ∷ [])) high false
      ∷ rule ("tv.live.start" ∷ "radio.live.start" ∷ []) ask_owner none high false
      ∷ rule ("message.send" ∷ []) allow_with_limits (some (("maxMessages", num (nat 10)) ∷ []))
          medium false
      ∷ rule ("message.broadcast" ∷ []) ask_owner none high false
      ∷ rule ("payment.approve" ∷ []) ask_owner none critical true
      ∷ rule ("authority.delegate" ∷ "ownership.transfer" ∷ "security.change" ∷ []) deny none
          critical false
      ∷ [];
}

unfoldable pub digi_authority_policies : Bool → List ActorPolicy
unfolding ddi_pdi_application_policy digital_twin_policy
digi_authority_policies production =
    if production
    then ddi_pdi_application_policy ∷ []
    else ddi_pdi_application_policy ∷ digital_twin_policy ∷ []

abbrev pub starts_with : String → String → Bool
starts_with s p = elim (strip_prefix (codes p) (codes s)) [ none ↦ false | some _ ↦ true ]

abbrev pub contains : String → String → Bool
contains s p = has_infix (codes p) (codes s)

unfoldable pub consequence_for_action : String → Consequence
consequence_for_action action =
    if starts_with action "payment."
      || action == "ownership.transfer"
      || action == "security.change"
      || action == "device.revoke"
      || action == "authority.delegate"
    then critical
    else if contains action ".publish" || contains action ".live."
    then high
    else if contains action ".send" || contains action ".create" || contains action ".write"
    then medium
    else low

-- The test of one rule, with its two `continue`s.
unfoldable pub rule_applies : PolicyRule → String → String → Bool
rule_applies r action resource =
    if r.ddi_pdi_binding
    then ddi_pdi_capability_binding action resource
    else includes r.actions action
      && (elim r.resources [ none ↦ true | some rs ↦ includes rs resource ])

abbrev pub default_match : ApprovalMode → String → PolicyMatch
default_match decision action = record {
  decision = decision;
  limits = [];
  consequence = consequence_for_action action;
  require_step_up = false;
  one_time = false;
}

-- The loop over the rules: the first that applies decides.
unfoldable pub evaluate_rules : List PolicyRule → ApprovalMode → String → String → PolicyMatch
evaluate_rules [] default action resource = default_match default action
evaluate_rules (r ∷ rs) default action resource =
    let rest = evaluate_rules rs default action resource in
    if rule_applies r action resource
    then record {
      decision = r.decision;
      limits = get_or r.limits [];
      consequence = get_or r.consequence (consequence_for_action action);
      require_step_up = r.require_step_up;
      one_time = r.one_time;
    }
    else rest

abbrev pub same_actor : ActorPolicy → ActorRef → Bool
same_actor p a =
    if p.actor_id == "*"
    then same_type p.actor_type a.type
    else same_type p.actor_type a.type && p.actor_id == a.id

unfoldable pub evaluate_actor_policy :
    ActorPolicy → ActorRef → String → String → String → PolicyMatch
evaluate_actor_policy p actor action audience resource =
    if not (same_actor p actor)
    then default_match deny action
    else if not (p.audience == "*") && not (p.audience == audience)
    then default_match deny action
    else evaluate_rules p.rules (get_or p.default_decision deny) action resource

-- `typeof limits[key] === "number" && usageCount >= limits[key]`
abbrev pub reaches : Option Json → ℕ → Bool
reaches (some (num n)) usage = num_le n (nat usage)
reaches _ usage = false

unfoldable pub limit_exceeded : Limits → ℕ → Option Reason
limit_exceeded limits usage =
    if reaches (JsMap.get limits "maxPosts") usage
    then some max_posts_exceeded
    else if reaches (JsMap.get limits "maxMessages") usage
    then some max_messages_exceeded
    else if reaches (JsMap.get limits "maxDeployments") usage
    then some max_deployments_exceeded
    else none
