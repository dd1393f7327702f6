-- ===== src/Approval/Expiry.antt =====
-- `expireApprovalIfNeeded` of apps/api/src/modules/device-approval/fsm.ts.
use trustid.Base.{
  suc, ◌≤◌, ◌<◌, ◌≡◌, ◌⊎◌, inl, inr, refl, ◌∙◌, ap, Bool, true, false, some, arith, Bool-cases, leb,
}
use trustid.Base.Effect.{Outcome, ok, pure, Outcome-cases, ◌>>=◌}
use trustid.Approval.Machine.{
  ApprovalFsmState, text, has_expired, expired, is_device_approval_active,
}
use trustid.Approval.Desk.{
  ApprovalRow, Host, Desk, Conflict, read_clock, expire_at, expired_input,
  expire_approval_if_needed, transition_approval_fsm,
}
use trustid.Approval.Table.{IsTable}
use trustid.Approval.Columns.{event_status, next-event_status}
use trustid.Approval.Moves.{transition-IsMoved}

expired_text : (n : ApprovalFsmState) → event_status has_expired ≡ some n → text n ≡ "expired"
expired_text n h = let is_expired : expired ≡ n = cc in rw (← is_expired) refl

module _ {S : Type 0} (host : Host S) where
  abbrev after_clock : Desk S → Desk S
  after_clock d = record d { ticks = suc d.ticks }

  ends_false :
      {p : Outcome Conflict Bool × Desk S} {d : Desk S} {b : Bool}
      → p ≡ (ok false, d)
      → p.0 ≡ ok b
      → b ≡ false
  ends_false same h = ground arith

  over_stays :
      (row : ApprovalRow) (d : Desk S)
      → is_device_approval_active row.status ≡ false
      → expire_approval_if_needed host row d ≡ (ok false, d)
  unfolding expire_approval_if_needed ◌>>=◌
  over_stays row d over = rw over refl

  early_stays :
      (row : ApprovalRow) (d : Desk S)
      → is_device_approval_active row.status ≡ true
      → leb (host.clock d.ticks) row.expires_at ≡ true
      → expire_approval_if_needed host row d ≡ (ok false, after_clock d)
  unfolding expire_approval_if_needed expire_at read_clock ◌>>=◌
  early_stays row d active early = rw active (rw early refl)

  late_moves :
      (row : ApprovalRow) (d : Desk S)
      → is_device_approval_active row.status ≡ true
      → leb (host.clock d.ticks) row.expires_at ≡ false
      → expire_approval_if_needed host row d
        ≡ (transition_approval_fsm host (expired_input host row) >>= λ _. pure true) (after_clock d)
  unfolding expire_approval_if_needed expire_at read_clock ◌>>=◌
  late_moves row d active late = rw active (rw late refl)

  bind_true_inv :
      (row : ApprovalRow) (d : Desk S) (b : Bool)
      → let m = transition_approval_fsm host (expired_input host row) in
        ((m >>= λ _. pure true) d).0 ≡ ok b
        → (b ≡ true)
          × ((u : ApprovalRow) × ((m d).0 ≡ ok u) × (((m >>= λ _. pure true) d).1 ≡ (m d).1))
  unfolding ◌>>=◌
  bind_true_inv row d b h =
      elim (Outcome-cases (transition_approval_fsm host (expired_input host row) d).0) [
        | inl (u, returns) ↦ (ground arith, (u, returns, rw returns refl))
        | inr (inl (e, raised)) ↦ absurd (ground arith)
        | inr (inr (m, raised)) ↦ absurd (ground arith)
      ]

  expire_inv :
      (row : ApprovalRow) (d : Desk S) (b : Bool)
      → (expire_approval_if_needed host row d).0 ≡ ok b
      → let t = transition_approval_fsm host (expired_input host row) (after_clock d) in
        ((b ≡ false)
          × ((expire_approval_if_needed host row d).1.db ≡ d.db)
          × ((is_device_approval_active row.status ≡ false)
              ⊎ (host.clock d.ticks ≤ row.expires_at)))
        ⊎ ((b ≡ true)
            × (is_device_approval_active row.status ≡ true)
            × (row.expires_at < host.clock d.ticks)
            × ((u : ApprovalRow) × (t.0 ≡ ok u) × ((expire_approval_if_needed host row d).1 ≡ t.1)))
  expire_inv row d b h = elim (Bool-cases (is_device_approval_active row.status)) [
    | inl active ↦ elim (Bool-cases (leb (host.clock d.ticks) row.expires_at)) [
      | inl early ↦
          let same = early_stays row d active early in
          inl (
            ends_false same h,
            ap (λ (p : Outcome Conflict Bool × Desk S). p.1.db) same,
            inr (ground arith),
          )
      | inr late ↦
          let same = late_moves row d active late in
          let (is_true, (u, returns, state)) =
            bind_true_inv row (after_clock d) b (rw (← same) h) in
          inr (is_true, active, ground arith, (u, returns, rw same state))
    ]
    | inr over ↦
        let same = over_stays row d over in
        inl (ends_false same h, ap (λ (p : Outcome Conflict Bool × Desk S). p.1.db) same, inl over)
  ]

  -- A call that returns true has found an active request past its expiry and left it stored as expired;
  -- one that returns false has written nothing, and the request was not active or not past its expiry
  -- at the clock's reading. `r` is the stored row.
  pub expire-IsExpired :
      IsTable host.prisma
      → (row r : ApprovalRow) (d : Desk S) (b : Bool) → host.prisma.find_unique d.db row.id ≡ some r
      → (expire_approval_if_needed host row d).0 ≡ ok b
      → let s = (expire_approval_if_needed host row d).1.db in
        ((b ≡ false)
          × (s ≡ d.db)
          × ((is_device_approval_active row.status ≡ false)
              ⊎ (host.clock d.ticks ≤ row.expires_at)))
        ⊎ ((b ≡ true)
            × (is_device_approval_active row.status ≡ true)
            × (row.expires_at < host.clock d.ticks)
            × ((u : ApprovalRow) × (host.prisma.find_unique s row.id ≡ some u)
                × (u.status ≡ "expired")))
  expire-IsExpired table row r d b found h = elim (expire_inv row d b h) [
    | inl stays ↦ inl stays
    | inr (is_true, active, late, (u, returns, state)) ↦
        let m =
          transition-IsMoved host table (expired_input host row) (after_clock d) r u found
            returns in
        let (n, to, at_n) = m.advanced λ fails. cc fails in
        inr (
          is_true,
          active,
          late,
          (
            u,
            rw state m.stored,
            at_n ∙ expired_text n (next-event_status row.status has_expired n to),
          ),
        )
  ]
