-- ===== src/Approval/Progress.antt =====
-- The table of apps/api/src/modules/device-approval/fsm.ts: what a move does to a status.
use trustid.Base.{
  ℕ, ◌≤◌, ◌<◌, ◌≡◌, ◌≢◌, ◌⊎◌, inl, inr, refl, ap, true, false, none, some, String, ◌==◌, arith,
  eq_iff, if◌then◌else◌, Bool-cases,
}
use trustid.Approval.Machine.{
  ApprovalFsmState, text, pending, pushed, viewed, approved, temporary, declined, expired,
  ApprovalFsmEvent, push_failed, next_approval_state, transition, is_device_approval_terminal,
  is_device_approval_active,
}

-- How far a request has come: pending, pushed, viewed, and any end.
abbrev pub rank : ApprovalFsmState → ℕ
rank pending = 0
rank pushed = 1
rank viewed = 2
rank _ = 3

nil_ne : {n : ApprovalFsmState} → none ≡ some n → ⊥
nil_ne h = ground arith

-- The table reads only statuses that are not an end, and a move goes on to a status of higher rank,
-- except that a failed push leaves a pending request pending.
pub next_approval_state-rises :
    (s n : ApprovalFsmState) (e : ApprovalFsmEvent)
    → next_approval_state (text s) e ≡ some n
    → (rank s < rank n) ⊎ ((e ≡ push_failed) × (s ≡ pending) × (n ≡ pending))
unfolding next_approval_state transition is_device_approval_terminal
next_approval_state-rises pending n e h = ground arith
next_approval_state-rises pushed n e h = ground arith
next_approval_state-rises viewed n e h = ground arith
next_approval_state-rises approved n e h = absurd (nil_ne h)
next_approval_state-rises temporary n e h = absurd (nil_ne h)
next_approval_state-rises declined n e h = absurd (nil_ne h)
next_approval_state-rises expired n e h = absurd (nil_ne h)

pub is_terminal_or_active :
    (s : ApprovalFsmState)
    → ((is_device_approval_terminal (text s) ≡ true) × (rank s ≡ 3))
      ⊎ ((is_device_approval_terminal (text s) ≡ false) × (rank s < 3))
unfolding is_device_approval_terminal is_device_approval_active
is_terminal_or_active pending = ground arith
is_terminal_or_active pushed = ground arith
is_terminal_or_active viewed = ground arith
is_terminal_or_active approved = ground arith
is_terminal_or_active temporary = ground arith
is_terminal_or_active declined = ground arith
is_terminal_or_active expired = ground arith

-- The statuses that the table moves on from.
pub next-some :
    (current : String) (e : ApprovalFsmEvent) (n : ApprovalFsmState)
    → next_approval_state current e ≡ some n
    → (s : ApprovalFsmState) × (current ≡ text s)
unfolding next_approval_state transition
next-some current e n h = elim (Bool-cases (current == text pending)) [
  | inl a ↦ (pending, (eq_iff current (text pending)).0 a)
  | inr a ↦ elim (Bool-cases (current == text pushed)) [
    | inl b ↦ (pushed, (eq_iff current (text pushed)).0 b)
    | inr b ↦ elim (Bool-cases (current == text viewed)) [
      | inl c ↦ (viewed, (eq_iff current (text viewed)).0 c)
      | inr c ↦ absurd (ground arith)
    ]
  ]
]

-- The same of a status text; a text that is no status ranks as an end.
abbrev pub text_rank : String → ℕ
text_rank t =
    if t == text pending
    then 0
    else if t == text pushed
    then 1
    else if t == text viewed
    then 2
    else 3

pub text_rank-text : (s : ApprovalFsmState) → text_rank (text s) ≡ rank s
text_rank-text pending = refl
text_rank-text pushed = refl
text_rank-text viewed = refl
text_rank-text approved = refl
text_rank-text temporary = refl
text_rank-text declined = refl
text_rank-text expired = refl

pub text_rank_bound : (t : String) → text_rank t ≤ 3
text_rank_bound t = ground arith

-- The ends are at the highest rank.
pub terminal-text_rank : (t : String) → is_device_approval_terminal t ≡ true → text_rank t ≡ 3
unfolding is_device_approval_terminal
terminal-text_rank t h = elim (Bool-cases (t == text pending)) [
  | inl a ↦ absurd (not_end pending refl ((eq_iff t (text pending)).0 a))
  | inr a ↦ elim (Bool-cases (t == text pushed)) [
    | inl b ↦ absurd (not_end pushed refl ((eq_iff t (text pushed)).0 b))
    | inr b ↦ elim (Bool-cases (t == text viewed)) [
      | inl c ↦ absurd (not_end viewed refl ((eq_iff t (text viewed)).0 c))
      | inr c ↦ rw (a, b, c) refl
    ]
  ]
]
  where
    not_end : (s : ApprovalFsmState) → is_device_approval_terminal (text s) ≡ false → t ≢ text s
    not_end s runs same = let at_s = ap is_device_approval_terminal same in cc (runs, at_s, h)
