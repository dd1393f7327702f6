-- ===== src/Approval/Lifecycle.antt =====
-- The life of a stored request under the calls of apps/api/src/modules/device-approval/fsm.ts.
use trustid.Base.{
  ◌<◌, ◌≡◌, ◌⊎◌, inl, inr, refl, sym, ◌∙◌, ap, true, Option, none, some, List, [], ◌∷◌, String,
  ◌==◌, arith, Option-cases, Bool-cases, eq_iff,
}
use trustid.Base.JsMap
use trustid.Approval.Machine.{text, ApprovalFsmEvent, is_device_approval_terminal}
use trustid.Approval.Progress.{
  rank, text_rank, text_rank-text, text_rank_bound, terminal-text_rank, next_approval_state-rises,
  next-some,
}
use trustid.Approval.Desk.{
  ApprovalRow, Columns, Host, Desk, AuditInput, TransitionInput, transition_approval_fsm,
}
use trustid.Approval.Table.{IsTable}
use trustid.Approval.Moves.{Goes, transition-Leaves, goes}

-- A call on the stored row of a request: the caller reads the row and moves it at once.
pub record Move : Type 0 where
  pub id : String
  pub event : ApprovalFsmEvent
  pub audit : Option AuditInput
  pub extra_data : Columns

abbrev input_of : Move → ApprovalRow → TransitionInput
input_of m row = record { row = row; event = m.event; audit = m.audit; extra_data = m.extra_data }

some_injective : {a b : ApprovalRow} → some a ≡ some b → a ≡ b
some_injective h = cc

module _ {S : Type 0} (host : Host S) where
  unfoldable pub move : Desk S → Move → Desk S
  move d m = on (host.prisma.find_unique d.db m.id)
    where
      on : Option ApprovalRow → Desk S
      on none = d
      on (some row) = (transition_approval_fsm host (input_of m row) d).1

  unfoldable pub moves : Desk S → List Move → Desk S
  unfolding move
  moves d [] = d
  moves d (m ∷ ms) = moves (move d m) ms

-- The caller's columns leave the status to the machine.
abbrev pub IsSilent : Move → Type 0
IsSilent m = JsMap.get m.extra_data "status" ≡ none

abbrev pub AllSilent : List Move → Type 0
AllSilent [] = Unit {0}
AllSilent (m ∷ ms) = IsSilent m × AllSilent ms

-- From one status to a later one: the same, or one of higher rank.
abbrev pub Rises : String → String → Type 0
Rises a b = (a ≡ b) ⊎ (text_rank a < text_rank b)

Goes-Rises : (a b : String) (e : ApprovalFsmEvent) → Goes a e b → Rises a b
Goes-Rises a b e (inr (fails, same)) = inl (sym same)
Goes-Rises a b e (inl (n, h, there)) =
    let (s, here) = next-some a e n h in
    let ranks : (text_rank a ≡ rank s) × (text_rank b ≡ rank n) =
      (rw here (text_rank-text s), rw there (text_rank-text n)) in
    elim (next_approval_state-rises s n e (rw (← here) h)) [
      | inl up ↦ inr (ground arith)
      | inr (fails, at_s, at_n) ↦ inl (here ∙ ap text (at_s ∙ sym at_n) ∙ sym there)
    ]

Rises-trans : (a b c : String) → Rises a b → Rises b c → Rises a c
Rises-trans a b c p q = ground arith

module _ {S : Type 0} (host : Host S) where
  -- The stored request under an id, and where it is later.
  abbrev pub Later : S → S → String → Type 0
  Later s s' id =
      (r : ApprovalRow)
      → host.prisma.find_unique s id ≡ some r
      → (r' : ApprovalRow) × (host.prisma.find_unique s' id ≡ some r') × Rises r.status r'.status

  move-Later :
      IsTable host.prisma
      → (d : Desk S) (m : Move) (id : String) → IsSilent m
      → Later d.db (move host d m).db id
  unfolding move
  move-Later table d m id silent r found = elim (Option-cases (host.prisma.find_unique d.db m.id)) [
    | inl missing ↦ rw (missing, move) (r, found, inl refl)
    | inr (row, here) ↦ rw (here, move) (call_Later row here)
  ]
    where
      call_Later :
          (row : ApprovalRow)
          → host.prisma.find_unique d.db m.id ≡ some row
          → (r' : ApprovalRow) × (host.prisma.find_unique
                (transition_approval_fsm host (input_of m row) d).1.db
                id
              ≡ some r')
            × Rises r.status r'.status
      call_Later row here =
          let key = table.keyed d.db m.id row here in
          elim (transition-Leaves host table (input_of m row) d row
            (ap (host.prisma.find_unique d.db) key ∙ here)) [
              | inl same ↦ (r, same id ∙ found, inl refl)
              | inr (u, there, w, passes, apart) ↦ elim (Bool-cases (m.id == id)) [
                | inl this ↦
                    let at_id = (eq_iff m.id id).0 this in
                    let is_row : some r ≡ some row =
                      sym found ∙ ap (host.prisma.find_unique d.db) (sym at_id) ∙ here in
                    (
                      u,
                      ap (host.prisma.find_unique _) (sym (key ∙ at_id)) ∙ there,
                      rw (some_injective is_row) (
                          Goes-Rises row.status u.status m.event
                            (goes host table (input_of m row) d row u refl silent passes w)),
                    )
                | inr other ↦ (
                  r,
                  apart id (λ same.
                        let yes_id = (eq_iff m.id id).1 (sym key ∙ same) in cc (other, yes_id))
                      ∙ found,
                  inl refl,
                )
              ]
            ]

  moves-Later :
      IsTable host.prisma
      → (d : Desk S) (ms : List Move) (id : String) → AllSilent ms
      → Later d.db (moves host d ms).db id
  unfolding moves
  moves-Later table d [] id silent r found = (r, found, inl refl)
  moves-Later table d (m ∷ ms) id (first, rest) r found =
      let (r', found', up) = move-Later table d m id first r found in
      let (r'', found'', up') = moves-Later table (move host d m) ms id rest r' found' in
      (r'', found'', Rises-trans r.status r'.status r''.status up up')

  -- A stored request only goes forward: after any calls that each read the stored row and move it,
  -- whether they succeed or not, it is still there with the same status or one of higher rank, and a
  -- request that was approved, made temporary, declined or expired keeps its status. The callers leave
  -- the status column to the machine.
  pub moves-IsForward :
      IsTable host.prisma
      → (d : Desk S) (ms : List Move) (id : String) (r : ApprovalRow) → AllSilent ms
      → host.prisma.find_unique d.db id ≡ some r
      → (r' : ApprovalRow) × (host.prisma.find_unique (moves host d ms).db id ≡ some r')
        × Rises r.status r'.status
        × (is_device_approval_terminal r.status ≡ true → r'.status ≡ r.status)
  moves-IsForward table d ms id r silent found =
      let (r', found', up) = moves-Later table d ms id silent r found in
      (r', found', up, λ ends. settled r.status r'.status (terminal-text_rank r.status ends) up)
    where
      settled : (a b : String) → text_rank a ≡ 3 → Rises a b → b ≡ a
      settled a b ends (inl same) = sym same
      settled a b ends (inr up) = let top = text_rank_bound b in absurd (ground arith)
