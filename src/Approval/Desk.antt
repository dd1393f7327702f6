-- ===== src/Approval/Desk.antt =====
-- `transitionApprovalFsm` and `expireApprovalIfNeeded` of apps/api/src/modules/device-approval/fsm.ts.
-- The database client is a parameter.
use trustid.Base.{
  ℕ, suc, Bool, true, false, not, ◌||◌, Option, none, some, List, [], ◌∷◌, ◌++◌, String, ◌==◌, leb,
  get_or, if◌then◌else◌,
}
use trustid.Base.JsMap
use trustid.Base.JsMap.{JsMap}
use trustid.Base.Effect.{Outcome, ok, failed, thrown, Effect, pure, fail, ◌>>=◌, ◌>>◌}
use trustid.Approval.Machine.{
  ApprovalFsmState, text, pushed, viewed, approved, temporary, declined, expired, ApprovalFsmEvent,
  created, push_dispatched, push_failed, was_viewed, was_approved, temporary_granted, denied,
  has_expired, event_text, next_approval_state, is_device_approval_terminal,
  is_device_approval_active,
}

-- A row of deviceApprovalRequest; times are milliseconds.
pub record ApprovalRow : Type 0 where
  pub id : String
  pub user_id : String
  pub status : String
  pub correlation_id : String
  pub poll_token_hash : String
  pub expires_at : ℕ
  pub application_name : Option String
  pub requested_device_name : String
  pub platform : Option String
  pub browser : Option String
  pub location : Option String
  pub ip : Option String
  pub user_agent : Option String
  pub client_id : Option String
  pub oauth_consent_code_id : Option String
  pub guest_session_id : Option String
  pub push_dispatched_at : Option ℕ
  pub push_failed_at : Option ℕ
  pub viewed_at : Option ℕ
  pub resolved_at : Option ℕ
  pub created_at : ℕ

-- A value of a column that a caller of `transitionApprovalFsm` writes.
pub data Value : Type 0 where
  null : Value
  string : String → Value
  date : ℕ → Value

-- `Record<string, unknown>` with the columns to write.
abbrev pub Columns : Type 0
Columns = JsMap Value

pub record EventPayload : Type 0 where
  pub correlation_id : String
  pub request_id : String
  pub status : String
  pub application_name : String
  pub device_name : String
  pub platform : Option String
  pub browser : Option String
  pub location : Option String
  pub client_id : Option String
  pub oauth_consent_code_id : Option String
  pub guest_session_id : Option String
  pub expires_at : String
  pub created_at : String
  pub viewed_at : Option String
  pub push_dispatched_at : Option String
  pub push_failed_at : Option String
  pub resolved_at : Option String

abbrev pub map_some : {A B : Type 0} → (A → B) → Option A → Option B
map_some f none = none
map_some f (some a) = some (f a)

-- `toApprovalEventPayload`; the first argument is `toISOString`.
unfoldable pub to_approval_event_payload : (ℕ → String) → ApprovalRow → EventPayload
to_approval_event_payload iso row = record {
  correlation_id = row.correlation_id;
  request_id = row.id;
  status = row.status;
  application_name = get_or row.application_name "TrustID";
  device_name = row.requested_device_name;
  platform = row.platform;
  browser = row.browser;
  location = row.location;
  client_id = row.client_id;
  oauth_consent_code_id = row.oauth_consent_code_id;
  guest_session_id = row.guest_session_id;
  expires_at = iso row.expires_at;
  created_at = iso row.created_at;
  viewed_at = map_some iso row.viewed_at;
  push_dispatched_at = map_some iso row.push_dispatched_at;
  push_failed_at = map_some iso row.push_failed_at;
  resolved_at = map_some iso row.resolved_at;
}

pub record AuditInput : Type 0 where
  pub type : String
  pub actor_type : Option String
  pub actor_id : Option String
  pub metadata : Columns
  pub ip : Option String
  pub user_agent : Option String

-- What `recordAudit` is called with.
pub record AuditEntry : Type 0 where
  pub type : String
  pub user_id : String
  pub actor_type : String
  pub actor_id : Option String
  pub metadata : Columns
  pub ip : Option String
  pub user_agent : Option String

pub record TransitionInput : Type 0 where
  pub row : ApprovalRow
  pub event : ApprovalFsmEvent
  pub audit : Option AuditInput
  pub extra_data : Columns

-- A message to the user's devices and to the guest that polls.
pub record Broadcast : Type 0 where
  pub user_id : String
  pub poll_token_hash : String
  pub type : String
  pub payload : EventPayload
  pub at : String

-- The Prisma client over a database of type `S`: `deviceApprovalRequest.update`, which throws where
-- no row has the id, `findUnique`, and `auditEvent.create`.
pub record Prisma (S : Type 0) : Type 0 where
  pub find_unique : S → String → Option ApprovalRow
  pub update : String → Columns → S → Outcome String ApprovalRow × S
  pub create_audit_event : AuditEntry → S → Outcome String (Unit {0}) × S

pub record Host (S : Type 0) : Type 0 where
  pub prisma : Prisma S
  pub clock : ℕ → ℕ
  pub to_iso_string : ℕ → String

-- The database, the messages sent so far, and how often the clock was read.
pub record Desk (S : Type 0) : Type 0 where
  pub db : S
  pub sent : List Broadcast
  pub ticks : ℕ

-- The error with status code 409.
pub record Conflict : Type 0 where
  pub status : String
  pub event : ApprovalFsmEvent

abbrev pub is_push_failed : ApprovalFsmEvent → Bool
is_push_failed push_failed = true
is_push_failed _ = false

-- The columns that the chain of tests on the event writes over `extraData`.
unfoldable pub transition_data : ApprovalFsmEvent → Option ApprovalFsmState → ℕ → Columns → Columns
transition_data push_dispatched next now d =
    JsMap.set
      (JsMap.set (JsMap.set d "status" (string (text pushed))) "pushDispatchedAt" (date now))
      "pushFailedAt" null
transition_data push_failed next now d = JsMap.set d "pushFailedAt" (date now)
transition_data was_viewed next now d =
    JsMap.set (JsMap.set d "status" (string (text viewed))) "viewedAt" (date now)
transition_data was_approved next now d =
    JsMap.set (JsMap.set d "status" (string (text approved))) "resolvedAt" (date now)
transition_data temporary_granted next now d =
    JsMap.set (JsMap.set d "status" (string (text temporary))) "resolvedAt" (date now)
transition_data denied next now d =
    JsMap.set (JsMap.set d "status" (string (text declined))) "resolvedAt" (date now)
transition_data has_expired next now d =
    JsMap.set (JsMap.set d "status" (string (text expired))) "resolvedAt" (date now)
transition_data created (some next) now d = JsMap.set d "status" (string (text next))
transition_data created none now d = d

abbrev pub known_actor_type : Option String → String
known_actor_type (some t) =
    if t == "user" || t == "application" || t == "system" then t else "system"
known_actor_type none = "system"

-- `{ ...a, ...b }`
abbrev pub spread : Columns → Columns → Columns
spread a [] = a
spread a ((k, v) ∷ b) = spread (JsMap.set a k v) b

abbrev pub is_created : ApprovalFsmEvent → Bool
is_created created = true
is_created _ = false

-- The type of the message for a row's new status.
unfoldable pub message_type : String → ApprovalFsmEvent → String
message_type status event =
    if is_device_approval_terminal status
    then "approval.resolved"
    else if is_created event
    then "approval.created"
    else "approval.state"

abbrev pub rethrow : {A : Type 0} → Outcome String A → Outcome Conflict A
rethrow (ok a) = ok a
rethrow (failed e) = thrown e
rethrow (thrown e) = thrown e

module _ {S : Type 0} where
  -- A call of the client: an error it raises is thrown on.
  unfoldable pub call : {A : Type 0} → (S → Outcome String A × S) → Effect (Desk S) Conflict A
  call f d = let (r, s) = f d.db in (rethrow r, record d { db = s })

  unfoldable pub read_clock : (ℕ → ℕ) → Effect (Desk S) Conflict ℕ
  read_clock clock d = (ok (clock d.ticks), record d { ticks = suc d.ticks })

  unfoldable pub send : Broadcast → Effect (Desk S) Conflict (Unit {0})
  send m d = (ok tt, record d { sent = d.sent ++ (m ∷ []) })

  -- The guard: an event without a next state is a conflict, unless a push failed.
  unfoldable pub guard :
      Option ApprovalFsmState → TransitionInput → Effect (Desk S) Conflict (Unit {0})
  guard (some next) i = pure tt
  guard none i =
      if is_push_failed i.event
      then pure tt
      else fail (record { status = i.row.status; event = i.event })

  module _ (host : Host S) where
    unfoldable pub audit :
        TransitionInput → ApprovalRow → Option AuditInput → Effect (Desk S) Conflict (Unit {0})
    unfolding call
    audit i updated none = pure tt
    audit i updated (some a) = call (
        host.prisma.create_audit_event (record {
          type = a.type;
          user_id = i.row.user_id;
          actor_type = known_actor_type a.actor_type;
          actor_id = a.actor_id;
          metadata =
              spread
                (("requestId", string i.row.id)
                  ∷ ("correlationId", string i.row.correlation_id)
                  ∷ ("from", string i.row.status)
                  ∷ ("to", string updated.status)
                  ∷ ("event", string (event_text i.event))
                  ∷ [])
                a.metadata;
          ip = a.ip;
          user_agent = a.user_agent;
        }))

    unfoldable pub transition_approval_fsm : TransitionInput → Effect (Desk S) Conflict ApprovalRow
    unfolding call read_clock send guard audit ◌>>=◌
    transition_approval_fsm i = do
      guard (next_approval_state i.row.status i.event) i
      now ← read_clock host.clock
      updated ← call (
          host.prisma.update i.row.id
            (transition_data i.event (next_approval_state i.row.status i.event) now i.extra_data))
      audit i updated i.audit
      send (record {
        user_id = i.row.user_id;
        poll_token_hash = i.row.poll_token_hash;
        type = message_type updated.status i.event;
        payload = to_approval_event_payload host.to_iso_string updated;
        at = host.to_iso_string now;
      })
      pure updated

    abbrev pub expired_input : ApprovalRow → TransitionInput
    expired_input row = record {
      row = row;
      event = has_expired;
      audit = some (record {
        type = "device.approval.expired";
        actor_type = none;
        actor_id = none;
        metadata = [];
        ip = none;
        user_agent = none;
      });
      extra_data = [];
    }

    -- The part after the status was found active and the clock was read.
    unfoldable pub expire_at : ApprovalRow → ℕ → Effect (Desk S) Conflict Bool
    unfolding ◌>>=◌
    expire_at row now =
        if leb now row.expires_at
        then pure false
        else (transition_approval_fsm (expired_input row) >>= λ _. pure true)

    unfoldable pub expire_approval_if_needed : ApprovalRow → Effect (Desk S) Conflict Bool
    unfolding ◌>>=◌ read_clock
    expire_approval_if_needed row =
        if not (is_device_approval_active row.status)
        then pure false
        else (read_clock host.clock >>= expire_at row)
