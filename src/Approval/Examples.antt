-- ===== src/Approval/Examples.antt =====
-- The approval machine at work on a table of one row, and the theorems at it.
use trustid.Base.{
  ◌+◌, ◌≡◌, ◌≢◌, ◌≤◌, ◌<◌, ◌⊎◌, inl, inr, refl, sym, ap, subst, ◌∙◌, Bool, true, false, none, some,
  List, [], ◌∷◌, String, ◌==◌, arith, Bool-cases, eq_iff, if◌then◌else◌,
}
use trustid.Base.JsMap
use trustid.Base.Effect.{Outcome, ok, thrown, ◌>>=◌}
use trustid.Approval.Machine.{
  ApprovalFsmEvent, push_dispatched, was_viewed, was_approved, next_approval_state, transition,
  is_device_approval_terminal, is_device_approval_active,
}
use trustid.Approval.Desk.{
  ApprovalRow, Columns, Prisma, Host, Desk, TransitionInput, transition_approval_fsm, guard, call,
  read_clock, send, audit, transition_data, message_type, to_approval_event_payload,
  expire_approval_if_needed, expire_at,
}
use trustid.Approval.Expiry.{expire-IsExpired}
use trustid.Approval.Table.{IsTable, IsWritten, text_after, time_after}
use trustid.Approval.Moves.{IsMoved, transition-IsMoved}
use trustid.Approval.Lifecycle.{Move, Rises, move, moves, moves-IsForward}

abbrev written : Columns → ApprovalRow → ApprovalRow
written d row = record row {
  status = text_after (JsMap.get d "status") row.status;
  resolved_at = time_after (JsMap.get d "resolvedAt") row.resolved_at;
  viewed_at = time_after (JsMap.get d "viewedAt") row.viewed_at;
  push_dispatched_at = time_after (JsMap.get d "pushDispatchedAt") row.push_dispatched_at;
  push_failed_at = time_after (JsMap.get d "pushFailedAt") row.push_failed_at;
}

abbrev answer : Bool → Columns → ApprovalRow → Outcome String ApprovalRow × ApprovalRow
answer true d row = (ok (written d row), written d row)
answer false d row = (thrown "P2025", row)

abbrev one_row : Prisma ApprovalRow
one_row = record {
  find_unique = λ row id. if row.id == id then some row else none;
  update = λ id d row. answer (row.id == id) d row;
  create_audit_event = λ a row. (ok tt, row);
}

found_here :
    (s row : ApprovalRow) (id : String)
    → one_row.find_unique s id ≡ some row
    → ((s.id == id) ≡ true) × (s ≡ row)
found_here s row id h = elim (Bool-cases (s.id == id)) [
  | inl here ↦ (here, ground arith)
  | inr away ↦ absurd (ground arith)
]

answer_ok :
    (b : Bool) (d : Columns) (s u : ApprovalRow)
    → (answer b d s).0 ≡ ok u
    → (b ≡ true) × (written d s ≡ u)
answer_ok true d s u h = (refl, ground arith)
answer_ok false d s u h = absurd (cc)

one_row-updated :
    (s : ApprovalRow) (id : String) (d : Columns) (row u : ApprovalRow)
    → one_row.find_unique s id ≡ some row
    → (one_row.update id d s).0 ≡ ok u
    → IsWritten d row u × (one_row.find_unique (one_row.update id d s).1 id ≡ some u)
one_row-updated s id d row u found h =
    let (here, same) = found_here s row id found in
    let (_, is_u) = answer_ok (s.id == id) d s u h in
    (
      subst (λ x. IsWritten d x u) same
          (subst (λ x. IsWritten d s x) is_u
            (record {
              id = refl;
              status = refl;
              resolved_at = refl;
              viewed_at = refl;
              push_dispatched_at = refl;
              push_failed_at = refl;
            })),
      rw here (rw here (ap some is_u)),
    )

one_row-others :
    (s : ApprovalRow) (id j : String) (d : Columns)
    → id ≢ j
    → one_row.find_unique (one_row.update id d s).1 j ≡ one_row.find_unique s j
one_row-others s id j d apart = elim (Bool-cases (s.id == id)) [
  | inl here ↦ elim (Bool-cases (s.id == j)) [
    | inl there ↦ absurd (apart (sym ((eq_iff s.id id).0 here) ∙ (eq_iff s.id j).0 there))
    | inr away ↦ rw here (rw away refl)
  ]
  | inr away ↦ rw away refl
]

one_row-IsTable : IsTable one_row
one_row-IsTable = record {
  keyed = λ s id row h.
      let (here, same) = found_here s row id h in
      ap (λ (x : ApprovalRow). x.id) (sym same) ∙ (eq_iff s.id id).0 here;
  updated = one_row-updated;
  missing =
      λ s id d u absent h. let (here, _) = answer_ok (s.id == id) d s u h in absurd (ground arith);
  others = one_row-others;
  atomic = λ s id d h. elim (Bool-cases (s.id == id)) [
    | inl here ↦ absurd (h (written d s) (rw here refl))
    | inr away ↦ rw away refl
  ];
  apart = λ s a j. refl;
}

abbrev host : Host ApprovalRow
host = record { prisma = one_row; clock = λ n. 5000 + n; to_iso_string = λ t. "date" }

abbrev late_host : Host ApprovalRow
late_host = record host { clock = λ n. 10000 + n }

abbrev asked : ApprovalRow
asked = record {
  id = "r";
  user_id = "ada";
  status = "pending";
  correlation_id = "c";
  poll_token_hash = "p";
  expires_at = 9000;
  application_name = none;
  requested_device_name = "phone";
  platform = none;
  browser = none;
  location = none;
  ip = none;
  user_agent = none;
  client_id = none;
  oauth_consent_code_id = none;
  guest_session_id = none;
  push_dispatched_at = none;
  push_failed_at = none;
  viewed_at = none;
  resolved_at = none;
  created_at = 1000;
}

abbrev desk : ApprovalRow → Desk ApprovalRow
desk row = record { db = row; sent = []; ticks = 0 }

abbrev on_r : ApprovalFsmEvent → Move
on_r event = record { id = "r"; event = event; audit = none; extra_data = [] }

-- Everything that a call computes with.
desk_runs : Unit {0}
unfolding moves move transition_approval_fsm guard call read_clock send audit transition_data
    message_type to_approval_event_payload next_approval_state transition
    is_device_approval_terminal JsMap.get JsMap.set ◌>>=◌
desk_runs = tt

abbrev approval_course : List Move
approval_course =
    on_r push_dispatched ∷ on_r was_viewed ∷ on_r was_approved ∷ on_r push_dispatched ∷ []

ends_approved : (moves host (desk asked) approval_course).db.status ≡ "approved"
unfolding desk_runs
ends_approved = refl

moves-IsForward_example :
    (r' : ApprovalRow) × (one_row.find_unique (moves host (desk asked) approval_course).db "r"
      ≡ some r')
    × Rises "pending" r'.status
    × (is_device_approval_terminal "pending" ≡ true → r'.status ≡ "pending")
unfolding JsMap.get
moves-IsForward_example =
    moves-IsForward host one_row-IsTable (desk asked) approval_course "r" asked
      (refl, (refl, (refl, (refl, tt)))) refl

-- A push that returns late, with a snapshot from before the approval.
abbrev late_push : TransitionInput
late_push = record { row = asked; event = push_dispatched; audit = none; extra_data = [] }

abbrev settled : ApprovalRow
settled = record asked { status = "approved"; resolved_at = some 4000 }

abbrev reverted : ApprovalRow
reverted = record settled { status = "pushed"; push_dispatched_at = some 5000 }

late_push_returns : (transition_approval_fsm host late_push (desk settled)).0 ≡ ok reverted
unfolding desk_runs
late_push_returns = refl

-- The owner's answer, given while the push is on its way.
abbrev owner_answer : TransitionInput
owner_answer = record { row = asked; event = was_approved; audit = none; extra_data = [] }

abbrev answered : ApprovalRow
answered = record asked { status = "approved"; resolved_at = some 5000 }

abbrev reopened : ApprovalRow
reopened = record answered { status = "pushed"; push_dispatched_at = some 5001 }

transition-IsMoved_example : IsMoved host late_push (desk settled) settled reverted
transition-IsMoved_example =
    transition-IsMoved host one_row-IsTable late_push (desk settled) settled reverted refl
      late_push_returns

expire_returns : (expire_approval_if_needed late_host asked (desk asked)).0 ≡ ok true
unfolding desk_runs expire_approval_if_needed expire_at is_device_approval_active
expire_returns = refl

expire-IsExpired_example :
    let s = (expire_approval_if_needed late_host asked (desk asked)).1.db in
    ((true ≡ false)
      × (s ≡ asked)
      × ((is_device_approval_active "pending" ≡ false) ⊎ (10000 ≤ 9000)))
    ⊎ ((true ≡ true)
        × (is_device_approval_active "pending" ≡ true)
        × (9000 < 10000)
        × ((u : ApprovalRow) × (one_row.find_unique s "r" ≡ some u) × (u.status ≡ "expired")))
expire-IsExpired_example =
    expire-IsExpired late_host one_row-IsTable asked asked (desk asked) true refl expire_returns
