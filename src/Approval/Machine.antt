-- ===== src/Approval/Machine.antt =====
-- The states and the table of apps/api/src/modules/device-approval/fsm.ts, over the statuses of
-- packages/shared/src/index.ts.
use trustid.Base.{Bool, Option, none, some, List, [], ◌∷◌, String, ◌==◌, if◌then◌else◌, includes}

pub data ApprovalFsmState : Type 0 where
  pending pushed viewed approved temporary declined expired : ApprovalFsmState

abbrev pub text : ApprovalFsmState → String
text pending = "pending"
text pushed = "pushed"
text viewed = "viewed"
text approved = "approved"
text temporary = "temporary"
text declined = "declined"
text expired = "expired"

pub data ApprovalFsmEvent : Type 0 where
  created push_dispatched push_failed was_viewed was_approved temporary_granted denied has_expired :
      ApprovalFsmEvent

abbrev pub event_text : ApprovalFsmEvent → String
event_text created = "created"
event_text push_dispatched = "push_dispatched"
event_text push_failed = "push_failed"
event_text was_viewed = "viewed"
event_text was_approved = "approved"
event_text temporary_granted = "temporary_granted"
event_text denied = "denied"
event_text has_expired = "expired"

abbrev pub active_statuses : List String
active_statuses = text pending ∷ text pushed ∷ text viewed ∷ []

abbrev pub terminal_statuses : List String
terminal_statuses = text approved ∷ text temporary ∷ text declined ∷ text expired ∷ []

unfoldable pub is_device_approval_active : String → Bool
is_device_approval_active status = includes active_statuses status

unfoldable pub is_device_approval_terminal : String → Bool
is_device_approval_terminal status = includes terminal_statuses status

-- One row of `TRANSITIONS`.
abbrev pub Row : Type 0
Row = ApprovalFsmEvent → Option ApprovalFsmState

abbrev pub pending_row : Row
pending_row push_dispatched = some pushed
pending_row push_failed = some pending
pending_row was_viewed = some viewed
pending_row was_approved = some approved
pending_row temporary_granted = some temporary
pending_row denied = some declined
pending_row has_expired = some expired
pending_row created = none

abbrev pub pushed_row : Row
pushed_row was_viewed = some viewed
pushed_row was_approved = some approved
pushed_row temporary_granted = some temporary
pushed_row denied = some declined
pushed_row has_expired = some expired
pushed_row _ = none

abbrev pub viewed_row : Row
viewed_row was_approved = some approved
viewed_row temporary_granted = some temporary
viewed_row denied = some declined
viewed_row has_expired = some expired
viewed_row _ = none

-- `TRANSITIONS[current]?.[event] ?? null`; any other text has no row.
unfoldable pub transition : String → ApprovalFsmEvent → Option ApprovalFsmState
transition current event =
    if current == text pending
    then pending_row event
    else if current == text pushed
    then pushed_row event
    else if current == text viewed
    then viewed_row event
    else none

unfoldable pub next_approval_state : String → ApprovalFsmEvent → Option ApprovalFsmState
unfolding is_device_approval_terminal transition
next_approval_state current event =
    if is_device_approval_terminal current then none else transition current event
