-- ===== src/Approval/Columns.antt =====
-- The columns that `transitionApprovalFsm` of apps/api/src/modules/device-approval/fsm.ts writes.
use trustid.Base.{ℕ, ◌≡◌, ◌≢◌, ◌⊎◌, inl, inr, refl, false, Option, none, some, String, ◌==◌, arith}
use trustid.Base.JsMap
use trustid.Base.JsMap.{get-set}
use trustid.Approval.Machine.{
  ApprovalFsmState, text, pending, pushed, viewed, approved, temporary, declined, expired,
  ApprovalFsmEvent, created, push_dispatched, push_failed, was_viewed, was_approved,
  temporary_granted, denied, has_expired, next_approval_state, transition,
}
use trustid.Approval.Desk.{map_some, string, Columns, transition_data}

-- The status that the chain of tests on the event writes.
abbrev pub event_status : ApprovalFsmEvent → Option ApprovalFsmState
event_status push_dispatched = some pushed
event_status push_failed = some pending
event_status was_viewed = some viewed
event_status was_approved = some approved
event_status temporary_granted = some temporary
event_status denied = some declined
event_status has_expired = some expired
event_status created = none

-- It agrees with the table.
pub next-event_status :
    (from : String) (e : ApprovalFsmEvent) (n : ApprovalFsmState)
    → next_approval_state from e ≡ some n
    → event_status e ≡ some n
unfolding next_approval_state transition
next-event_status from push_dispatched n h = ground arith
next-event_status from push_failed n h = ground arith
next-event_status from was_viewed n h = ground arith
next-event_status from was_approved n h = ground arith
next-event_status from temporary_granted n h = ground arith
next-event_status from denied n h = ground arith
next-event_status from has_expired n h = ground arith
next-event_status from created n h = ground arith

pub created_stops :
    (from : String) (n : ApprovalFsmState) → next_approval_state from created ≢ some n
created_stops from n h = let none_is_some = next-event_status from created n h in ground arith

-- The columns that an event writes, and those of the caller that stay.
module _ (d : Columns) (now : ℕ) (next : Option ApprovalFsmState) where
  pub data_status :
      (e : ApprovalFsmEvent)
      → (e ≡ push_failed)
        ⊎ ((e ≡ created)
            ⊎ (JsMap.get (transition_data e next now d) "status"
                ≡ map_some (λ n. string (text n)) (event_status e)))
  unfolding transition_data
  data_status push_dispatched = inr (inr (rw (get-set, get-set, get-set) refl))
  data_status push_failed = inl refl
  data_status was_viewed = inr (inr (rw (get-set, get-set) refl))
  data_status was_approved = inr (inr (rw (get-set, get-set) refl))
  data_status temporary_granted = inr (inr (rw (get-set, get-set) refl))
  data_status denied = inr (inr (rw (get-set, get-set) refl))
  data_status has_expired = inr (inr (rw (get-set, get-set) refl))
  data_status created = inr (inl refl)

  pub data_push_failed :
      (k : String)
      → ("pushFailedAt" == k) ≡ false
      → JsMap.get (transition_data push_failed next now d) k ≡ JsMap.get d k
  unfolding transition_data
  data_push_failed k other = rw (get-set, other) refl
