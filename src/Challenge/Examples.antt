-- ===== src/Challenge/Examples.antt =====
-- The challenges of apps/api/src/modules/authentication/challenges.ts on a table of one row.
use trustid.Base.{
  ℕ, ◌≡◌, inl, inr, refl, Bool, true, false, none, some, [], ◌∷◌, String, arith, ◌==◌,
  if◌then◌else◌, Bool-cases,
}
use trustid.Base.Number.{nat, num_lt}
use trustid.Base.Effect.{Outcome, ok, failed, thrown}
use trustid.Challenge.{
  ChallengeRow, ConsumeReason, already_consumed, ConsumeInput, ChallengeTable, marked,
  IsChallengeTable, consume_found, consume_web_authn_challenge,
}
use trustid.Challenge.Once.{done, consume-at_most_once}

abbrev consume_one : Bool → ℕ → ChallengeRow → Outcome ConsumeReason ChallengeRow × ChallengeRow
consume_one true now row =
    (ok (record row { consumed_at = some now }), record row { consumed_at = some now })
consume_one false now row = (thrown "P2025", row)

abbrev one_row : ChallengeTable ChallengeRow
one_row = record {
  find_unique = λ row c. if row.challenge == c then some row else none;
  consume_row = λ id now row. consume_one (row.id == id) now row;
  create = λ new row. (thrown "P2002", row);
  clock = λ row. (ok 1000, row);
}

one_row-IsChallengeTable : IsChallengeTable one_row
one_row-IsChallengeTable = record {
  consume_row_writes = λ id c now s row h. elim (Bool-cases (s.id == id)) [
    | inl same ↦ rw (same) (found s c id now same)
    | inr other ↦ absurd (ground arith)
  ];
  consume_row_throws = λ id c now s never. elim (Bool-cases (s.id == id)) [
    | inl same ↦ absurd (never (record s { consumed_at = some now }) (rw (same) refl))
    | inr other ↦ rw (other) refl
  ];
  create_keeps = λ new c s row h. h;
  clock_keeps = λ c s. refl;
}
  where
    found :
        (s : ChallengeRow) (c id : String) (now : ℕ)
        → (s.id == id) ≡ true
        → (if s.challenge == c then some (record s { consumed_at = some now }) else none)
          ≡ marked id now (if s.challenge == c then some s else none)
    found s c id now same = elim (Bool-cases (s.challenge == c)) [
      | inl this ↦ rw (this, same) refl
      | inr that ↦ rw (that) refl
    ]

abbrev open_row : ChallengeRow
open_row = record {
  id = "w1";
  purpose = "login";
  challenge = "c1";
  user_id = some "u1";
  expires_at = nat 2000;
  consumed_at = none;
}

abbrev input : ConsumeInput
input = record { challenge = "c1"; purposes = "login" ∷ []; user_id = some "u1" }

abbrev used_row : ChallengeRow
used_row = record open_row { consumed_at = some 1000 }

accepted : (consume_web_authn_challenge one_row input open_row).0 ≡ ok used_row
unfolding consume_web_authn_challenge num_lt
accepted = refl

once_only_example :
    (consume_web_authn_challenge one_row input
      (consume_web_authn_challenge one_row input open_row).1).0
    ≡ failed already_consumed
once_only_example =
    consume-at_most_once one_row one_row-IsChallengeTable input input open_row
      (consume_web_authn_challenge one_row input open_row).1 used_row accepted done refl

-- Two requests that have both read the row before either has written are both accepted.
overlapping :
    ((consume_found one_row input (one_row.find_unique open_row "c1") open_row).0 ≡ ok used_row)
    × ((consume_found one_row input
          (one_row.find_unique open_row "c1")
          (consume_found one_row input (one_row.find_unique open_row "c1") open_row).1).0
        ≡ ok used_row)
unfolding consume_found num_lt
overlapping = (refl, refl)
