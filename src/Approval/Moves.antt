-- ===== src/Approval/Moves.antt =====
-- What `transitionApprovalFsm` does to the stored requests.
use trustid.Base.{
  suc, ◌≡◌, ◌≢◌, ◌⊎◌, inl, inr, refl, ◌∙◌, true, false, Option, none, some, [], ◌∷◌, ◌++◌, String,
  arith, Option-cases, Bool-cases,
}
use trustid.Base.JsMap
use trustid.Base.JsMap.{get-set}
use trustid.Base.Effect.{Outcome, ok, failed, thrown, Outcome-cases, ◌>>=◌}
use trustid.Approval.Machine.{
  ApprovalFsmState, text, ApprovalFsmEvent, push_failed, next_approval_state,
}
use trustid.Approval.Desk.{
  ApprovalRow, Columns, Host, Desk, AuditInput, TransitionInput, transition_data,
  transition_approval_fsm, guard, call, read_clock, send, audit, is_push_failed, Broadcast,
  message_type, to_approval_event_payload,
}
use trustid.Approval.Columns.{next-event_status, created_stops, data_status, data_push_failed}
use trustid.Approval.Table.{IsTable, IsWritten}

-- The status that a caller's snapshot and the event lead to.
abbrev pub Goes : String → ApprovalFsmEvent → String → Type 0
Goes from e to =
    ((n : ApprovalFsmState) × (next_approval_state from e ≡ some n) × (to ≡ text n))
    ⊎ ((e ≡ push_failed) × (to ≡ from))

module _ {S : Type 0} (host : Host S) where
  abbrev pub data_of : TransitionInput → Desk S → Columns
  data_of i d =
      transition_data i.event (next_approval_state i.row.status i.event) (host.clock d.ticks)
        i.extra_data

  -- A call that passes the guard is a write and then an audit.
  transition_inv :
      (i : TransitionInput) (d : Desk S) (u : ApprovalRow)
      → (transition_approval_fsm host i d).0 ≡ ok u
      → let w = host.prisma.update i.row.id (data_of i d) d.db in
        (w.0 ≡ ok u) × ((next_approval_state i.row.status i.event ≢ none) ⊎ (i.event ≡ push_failed))
  unfolding transition_approval_fsm guard call read_clock send audit ◌>>=◌
  transition_inv i d u h = ground arith

module _ {S : Type 0} (host : Host S) where
  silent_status :
      (i : TransitionInput) (d : Desk S)
      → i.event ≡ push_failed
      → JsMap.get i.extra_data "status" ≡ none
      → JsMap.get (data_of host i d) "status" ≡ none
  silent_status i d fails silent = rw fails (
      rw
        (data_push_failed i.extra_data (host.clock d.ticks)
          (next_approval_state i.row.status push_failed) "status" refl)
        silent)

module _ {S : Type 0} (host : Host S) (table : IsTable host.prisma) where
  stays :
      (i : TransitionInput) (d : Desk S) (r u : ApprovalRow)
      → i.event ≡ push_failed
      → r.status ≡ i.row.status
      → JsMap.get i.extra_data "status" ≡ none
      → IsWritten (data_of host i d) r u
      → Goes i.row.status i.event u.status
  stays i d r u fails same silent w =
      inr (fails, w.status ∙ rw (silent_status host i d fails silent) same)

  -- The written status is where the snapshot's status and the event lead to.
  pub goes :
      (i : TransitionInput) (d : Desk S) (r u : ApprovalRow)
      → r.status ≡ i.row.status
      → JsMap.get i.extra_data "status" ≡ none
      → (next_approval_state i.row.status i.event ≢ none) ⊎ (i.event ≡ push_failed)
      → IsWritten (data_of host i d) r u
      → Goes i.row.status i.event u.status
  goes i d r u same silent passed w =
      elim (Option-cases (next_approval_state i.row.status i.event)) [
        | inl ends ↦ elim passed [
          | inl goes_on ↦ absurd (goes_on ends)
          | inr fails ↦ stays i d r u fails same silent w
        ]
        | inr (n, moves) ↦
            elim (data_status i.extra_data (host.clock d.ticks)
              (next_approval_state i.row.status i.event) i.event) [
                | inl fails ↦ stays i d r u fails same silent w
                | inr rest ↦ elim rest [
                  | inl makes ↦ absurd (created_stops i.row.status n (rw (← makes) moves))
                  | inr writes ↦ inl (
                    n,
                    moves,
                    w.status ∙ rw (writes, next-event_status i.row.status i.event n moves) refl,
                  )
                ]
              ]
      ]

module _ {S : Type 0} (host : Host S) where
  abbrev pub Passes : TransitionInput → Type 0
  Passes i = (next_approval_state i.row.status i.event ≢ none) ⊎ (i.event ≡ push_failed)

  abbrev write : TransitionInput → Desk S → Outcome String ApprovalRow × S
  write i d = host.prisma.update i.row.id (data_of host i d) d.db

  guard-Passes :
      (i : TransitionInput)
      → ((next_approval_state i.row.status i.event ≡ none) × (is_push_failed i.event ≡ false))
        ⊎ (((d : Desk S) → guard (next_approval_state i.row.status i.event) i d ≡ (ok tt, d))
            × Passes i)
  unfolding guard ◌>>=◌
  guard-Passes i = elim (Option-cases (next_approval_state i.row.status i.event)) [
    | inl ends ↦ elim (Bool-cases (is_push_failed i.event)) [
      | inl fails ↦ inr (λ d. rw ends (rw fails refl), inr (is_push_failed_true i.event fails))
      | inr other ↦ inl (ends, other)
    ]
    | inr (n, moves) ↦ inr (λ d. rw moves refl, inl λ ends. cc (moves, ends))
  ]
    where
      is_push_failed_true : (e : ApprovalFsmEvent) → is_push_failed e ≡ true → e ≡ push_failed
      is_push_failed_true e h = ground arith

  refused :
      (i : TransitionInput) (d : Desk S)
      → next_approval_state i.row.status i.event ≡ none
      → is_push_failed i.event ≡ false
      → transition_approval_fsm host i d
        ≡ (failed (record { status = i.row.status; event = i.event }), d)
  unfolding transition_approval_fsm guard ◌>>=◌
  refused i d ends other = rw ends (rw other refl)

  written_db :
      (i : TransitionInput) (d : Desk S) (u : ApprovalRow)
      → guard (next_approval_state i.row.status i.event) i d ≡ (ok tt, d)
      → (write i d).0 ≡ ok u
      → (transition_approval_fsm host i d).1.db
        ≡ (audit host i u i.audit (record d { db = (write i d).1; ticks = suc d.ticks })).1.db
  unfolding transition_approval_fsm call read_clock send ◌>>=◌
  written_db i d u passed h = rw passed (rw h (ground arith))

  failed_db :
      (i : TransitionInput) (d : Desk S)
      → guard (next_approval_state i.row.status i.event) i d ≡ (ok tt, d)
      → ((u : ApprovalRow) → (write i d).0 ≢ ok u)
      → (transition_approval_fsm host i d).1.db ≡ (write i d).1
  unfolding transition_approval_fsm call read_clock send ◌>>=◌
  failed_db i d passed h = rw passed (elim (Outcome-cases (write i d).0) [
    | inl (u, returns) ↦ absurd (h u returns)
    | inr (inl (e, raised)) ↦ rw raised refl
    | inr (inr (m, raised)) ↦ rw raised refl
  ])

  ends_apart :
      {o : Outcome String ApprovalRow} {u : ApprovalRow}
      → ((e : String) × (o ≡ failed e)) ⊎ ((m : String) × (o ≡ thrown m))
      → o ≢ ok u
  ends_apart (inl (e, h)) returns = cc (h, returns)
  ends_apart (inr (m, h)) returns = cc (h, returns)

  audit_finds :
      IsTable host.prisma
      → (i : TransitionInput) (u : ApprovalRow) (a : Option AuditInput) (d : Desk S) (j : String)
      → host.prisma.find_unique (audit host i u a d).1.db j ≡ host.prisma.find_unique d.db j
  unfolding audit call ◌>>=◌
  audit_finds table i u none d j = refl
  audit_finds table i u (some a) d j = table.apart d.db _ j

  -- What a call leaves in the database, however it ends: nothing changed, or one write.
  abbrev pub Leaves : TransitionInput → Desk S → ApprovalRow → S → Type 0
  Leaves i d r s =
      ((j : String) → host.prisma.find_unique s j ≡ host.prisma.find_unique d.db j)
      ⊎ ((u : ApprovalRow) × (host.prisma.find_unique s i.row.id ≡ some u)
          × IsWritten (data_of host i d) r u
          × Passes i
          × ((j : String)
              → i.row.id ≢ j
              → host.prisma.find_unique s j ≡ host.prisma.find_unique d.db j))

  pub transition-Leaves :
      IsTable host.prisma
      → (i : TransitionInput) (d : Desk S) (r : ApprovalRow)
      → host.prisma.find_unique d.db i.row.id ≡ some r
      → Leaves i d r (transition_approval_fsm host i d).1.db
  transition-Leaves table i d r found = elim (guard-Passes i) [
    | inl (ends, other) ↦ inl λ j. rw (refused i d ends other) refl
    | inr (passed, passes) ↦ elim (Outcome-cases (write i d).0) [
      | inl (u, h) ↦
          let (w, there) = table.updated d.db i.row.id (data_of host i d) r u found h in
          let same = written_db i d u (passed d) h in
          let keeps =
            audit_finds table i u i.audit (record d { db = (write i d).1; ticks = suc d.ticks }) in
          inr (
            u,
            rw same (keeps i.row.id ∙ there),
            w,
            passes,
            λ j apart. rw same (keeps j ∙ table.others d.db i.row.id j (data_of host i d) apart),
          )
      | inr errs ↦
          let none_written : (u : ApprovalRow) → (write i d).0 ≢ ok u =
            λ u returns. ends_apart errs returns in
          inl λ j.
            rw (failed_db i d (passed d) none_written)
              (rw (table.atomic d.db i.row.id (data_of host i d) none_written) refl)
    ]
  ]

  -- A move that returns, of any event but a failed push, goes where the snapshot's status leads.
  advances :
      (i : TransitionInput) (d : Desk S) (r u : ApprovalRow)
      → i.event ≢ push_failed
      → Passes i
      → IsWritten (data_of host i d) r u
      → (n : ApprovalFsmState) × (next_approval_state i.row.status i.event ≡ some n)
        × (u.status ≡ text n)
  advances i d r u other (inr fails) w = absurd (other fails)
  advances i d r u other (inl moves) w =
      elim (Option-cases (next_approval_state i.row.status i.event)) [
        | inl ends ↦ absurd (moves ends)
        | inr (n, to) ↦
            elim (data_status i.extra_data (host.clock d.ticks)
              (next_approval_state i.row.status i.event) i.event) [
                | inl fails ↦ absurd (other fails)
                | inr (inl makes) ↦ absurd (created_stops i.row.status n (rw (← makes) to))
                | inr (inr writes) ↦ (
                  n,
                  to,
                  w.status ∙ rw (writes, next-event_status i.row.status i.event n to) refl,
                )
              ]
      ]

  -- The message that a call sends.
  abbrev pub message : TransitionInput → Desk S → ApprovalRow → Broadcast
  message i d u = record {
    user_id = i.row.user_id;
    poll_token_hash = i.row.poll_token_hash;
    type = message_type u.status i.event;
    payload = to_approval_event_payload host.to_iso_string u;
    at = host.to_iso_string (host.clock d.ticks);
  }

  guard_ok :
      (i : TransitionInput) (d : Desk S)
      → Passes i
      → guard (next_approval_state i.row.status i.event) i d ≡ (ok tt, d)
  guard_ok i d passes = elim (guard-Passes i) [
    | inl (ends, other) ↦ absurd (stopped i.event ends other passes)
    | inr (passed, _) ↦ passed d
  ]
    where
      stopped :
          {next : Option ApprovalFsmState} (e : ApprovalFsmEvent)
          → next ≡ none
          → is_push_failed e ≡ false
          → (next ≢ none) ⊎ (e ≡ push_failed)
          → ⊥
      stopped e ends other p = ground arith

  audit_sent :
      (i : TransitionInput) (u : ApprovalRow) (a : Option AuditInput) (d : Desk S)
      → (audit host i u a d).1.sent ≡ d.sent
  unfolding audit call ◌>>=◌
  audit_sent i u none d = refl
  audit_sent i u (some a) d = refl

  sends :
      (i : TransitionInput) (d : Desk S) (u : ApprovalRow)
      → Passes i
      → (write i d).0 ≡ ok u
      → (transition_approval_fsm host i d).0 ≡ ok u
      → (transition_approval_fsm host i d).1.sent ≡ d.sent ++ (message i d u ∷ [])
  unfolding transition_approval_fsm call read_clock send ◌>>=◌
  sends i d u passes returns h =
      let d' = record d { db = (write i d).1; ticks = suc d.ticks } in
      let kept = audit_sent i u i.audit d' in
      elim (Outcome-cases (audit host i u i.audit d').0) [
        | inl (_, audited) ↦ rw (guard_ok i d passes) (rw returns (rw audited (rw kept refl)))
        | inr (inl (e, raised)) ↦
            let fails : (transition_approval_fsm host i d).0 ≡ failed e =
              rw (guard_ok i d passes) (rw returns (rw raised refl)) in
            absurd (cc (fails, h))
        | inr (inr (m, raised)) ↦
            let throws : (transition_approval_fsm host i d).0 ≡ thrown m =
              rw (guard_ok i d passes) (rw returns (rw raised refl)) in
            absurd (cc (throws, h))
      ]

  -- What a call that returns has done, to the stored row `r`.
  pub record IsMoved (i : TransitionInput) (d : Desk S) (r u : ApprovalRow) : Type 0 where
    pub stored : host.prisma.find_unique (transition_approval_fsm host i d).1.db i.row.id ≡ some u
    pub others :
        (j : String)
        → i.row.id ≢ j
        → host.prisma.find_unique (transition_approval_fsm host i d).1.db j
          ≡ host.prisma.find_unique d.db j
    pub advanced :
        i.event ≢ push_failed
        → (n : ApprovalFsmState) × (next_approval_state i.row.status i.event ≡ some n)
          × (u.status ≡ text n)
    pub stayed :
        i.event ≡ push_failed → JsMap.get i.extra_data "status" ≡ none → u.status ≡ r.status
    pub sent : (transition_approval_fsm host i d).1.sent ≡ d.sent ++ (message i d u ∷ [])

  -- A call that returns has written the row that it returns and no other, and has sent one message with
  -- that row. For every event but a failed push, the row's status is the one that the table gives for
  -- the caller's snapshot and the event; for a failed push it is the stored one, where the caller's
  -- columns leave the status to the machine.
  pub transition-IsMoved :
      IsTable host.prisma
      → (i : TransitionInput) (d : Desk S) (r u : ApprovalRow)
      → host.prisma.find_unique d.db i.row.id ≡ some r
      → (transition_approval_fsm host i d).0 ≡ ok u
      → IsMoved i d r u
  transition-IsMoved table i d r u found h =
      let (returns, passes) = transition_inv host i d u h in
      let (w, there) = table.updated d.db i.row.id (data_of host i d) r u found returns in
      let same = written_db i d u (guard_ok i d passes) returns in
      let keeps =
        audit_finds table i u i.audit (record d { db = (write i d).1; ticks = suc d.ticks }) in
      record {
        stored = rw same (keeps i.row.id ∙ there);
        others =
            λ j apart. rw same (keeps j ∙ table.others d.db i.row.id j (data_of host i d) apart);
        advanced = λ other. advances i d r u other passes w;
        stayed = λ fails silent. w.status ∙ rw (silent_status host i d fails silent) refl;
        sent = sends i d u passes returns h;
      }
