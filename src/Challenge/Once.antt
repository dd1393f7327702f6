-- ===== src/Challenge/Once.antt =====
-- A challenge of apps/api/src/modules/authentication/challenges.ts is consumed at most once by calls
-- that run one after another.
use trustid.Base.{
  ℕ, ◌≡◌, ◌≢◌, ◌⊎◌, inl, inr, refl, sym, ap, ◌∙◌, subst, true, false, Option, none, some, String,
  arith, includes, get_or, is_some, ◌==◌, eq_iff, Bool-cases, Option-cases,
}
use trustid.Base.Number.{Number, nat, num_lt}
use trustid.Base.Effect.{Outcome, ok, failed, thrown, fail, continue, Outcome-cases, ◌>>=◌}
use trustid.Base.Effect.Keeps.{Keeps, keeps_rules}
use trustid.Challenge.{
  ChallengeRow, ConsumeReason, already_consumed, ConsumeInput, NewChallenge, ChallengeTable, marked,
  IsChallengeTable, other_user, store_web_authn_challenge, mark, expire, consume_current, judge,
  consume_found, consume_web_authn_challenge,
}

not_ok :
    {A : Type 0} (o : Outcome ConsumeReason A) (a : A)
    → o ≡ ok a
    → ((e : ConsumeReason) × (o ≡ failed e)) ⊎ ((m : String) × (o ≡ thrown m))
    → ⊥
not_ok o a h (inl (e, failing)) = cc
not_ok o a h (inr (m, throwing)) = cc

module _ {S : Type 0} (table : ChallengeTable S) (law : IsChallengeTable table) where
  -- The challenge is there and has been consumed.
  abbrev IsConsumed : String → S → Type 0
  IsConsumed c s =
      (row : ChallengeRow) × (table.find_unique s c ≡ some row) × (is_some row.consumed_at ≡ true)

  marked-IsConsumed :
      (id : String) (now : ℕ) (row : ChallengeRow)
      → is_some row.consumed_at ≡ true
      → (r : ChallengeRow) × (marked id now (some row) ≡ some r) × (is_some r.consumed_at ≡ true)
  marked-IsConsumed id now row h = elim (Bool-cases (row.id == id)) [
    | inl same ↦ (record row { consumed_at = some now }, rw (same) refl, refl)
    | inr other ↦ (row, rw (other) refl, h)
  ]

  clock-Keeps : (c : String) → Keeps (IsConsumed c) table.clock
  clock-Keeps c = record { at = λ s (row, there, done). (row, law.clock_keeps c s ∙ there, done) }

  create-Keeps : (c : String) (new : NewChallenge) → Keeps (IsConsumed c) (table.create new)
  create-Keeps c new = record {
    at = λ s (row, there, done). (row, law.create_keeps new c s row there, done);
  }

  consume_row-Keeps : (c id : String) (now : ℕ) → Keeps (IsConsumed c) (table.consume_row id now)
  consume_row-Keeps c id now = record {
    at = λ s (row, there, done). elim (Outcome-cases (table.consume_row id now s).0) [
      | inl (r, returned) ↦
          let (after, is_after, still) = marked-IsConsumed id now row done in
          (
            after,
            law.consume_row_writes id c now s r returned ∙ ap (marked id now) there ∙ is_after,
            still,
          )
      | inr other ↦ (
        row,
        law.consume_row_throws id c now s (λ r returned. not_ok _ r returned other) ∙ there,
        done,
      )
    ];
  }

  mark-Keeps : (c : String) (row : ChallengeRow) → Keeps (IsConsumed c) (mark table row)
  unfolding mark
  mark-Keeps c row = search (keeps_rules, clock-Keeps, consume_row-Keeps)

  judge-Keeps :
      (c : String) (i : ConsumeInput) (row : ChallengeRow)
      → Keeps (IsConsumed c) (judge table i row)
  unfolding judge expire consume_current
  judge-Keeps c i row = search (keeps_rules, clock-Keeps, mark-Keeps) depth 8

  found-Keeps :
      (c : String) (i : ConsumeInput) (o : Option ChallengeRow)
      → Keeps (IsConsumed c) (consume_found table i o)
  unfolding consume_found
  found-Keeps c i none = search keeps_rules
  found-Keeps c i (some row) = search (keeps_rules, judge-Keeps)

  consume-Keeps :
      (c : String) (i : ConsumeInput) → Keeps (IsConsumed c) (consume_web_authn_challenge table i)
  unfolding consume_web_authn_challenge
  consume-Keeps c i = record {
    at = λ s h. (found-Keeps c i (table.find_unique s i.challenge)).at s h;
  }

  -- A row that `update` has written is consumed.
  mark_inv :
      (c : String) (row r : ChallengeRow) (s : S)
      → table.find_unique s c ≡ some row
      → (mark table row s).0 ≡ ok r
      → IsConsumed c (mark table row s).1
  unfolding mark ◌>>=◌
  mark_inv c row r s there h =
      let read = table.clock s in
      elim (Outcome-cases read.0) [
        | inl (now, returned) ↦
            let written : (table.consume_row row.id now read.1).0 ≡ ok r = ground arith in
            let same : table.find_unique (table.consume_row row.id now read.1).1 c
                ≡ some (record row { consumed_at = some now }) =
              law.consume_row_writes row.id c now read.1 r written
              ∙ ap (marked row.id now) (law.clock_keeps c s ∙ there)
              ∙ ground (arith, eq_iff row.id row.id) in
            rw (returned, continue) (record row { consumed_at = some now }, same, refl)
        | inr (inl (e, failing)) ↦ absurd (ground arith)
        | inr (inr (m, throwing)) ↦ absurd (ground arith)
      ]

  expire_never : (row r : ChallengeRow) (s : S) → (expire table row s).0 ≢ ok r
  unfolding expire fail ◌>>=◌
  expire_never row r s h = elim (Outcome-cases (mark table row s).0) [
    | inl (a, returned) ↦ ground arith
    | inr (inl (e, failing)) ↦ ground arith
    | inr (inr (m, throwing)) ↦ ground arith
  ]

  current_inv :
      (c : String) (i : ConsumeInput) (row r : ChallengeRow) (s : S)
      → table.find_unique s c ≡ some row
      → (consume_current table i row s).0 ≡ ok r
      → IsConsumed c (consume_current table i row s).1
  unfolding consume_current fail
  current_inv c i row r s there h = elim (Bool-cases (includes i.purposes row.purpose)) [
    | inr wrong ↦ absurd (ground arith)
    | inl right ↦ elim (Bool-cases (other_user (get_or i.user_id "") (get_or row.user_id ""))) [
      | inl other ↦ absurd (ground arith)
      | inr same ↦ rw (right, same) (mark_inv c row r s there (ground arith))
    ]
  ]

  judge_inv :
      (c : String) (i : ConsumeInput) (row r : ChallengeRow) (s : S)
      → table.find_unique s c ≡ some row
      → (judge table i row s).0 ≡ ok r
      → IsConsumed c (judge table i row s).1
  unfolding judge ◌>>=◌
  judge_inv c i row r s there h =
      let read = table.clock s in
      elim (Outcome-cases read.0) [
        | inl (now, returned) ↦ elim (Bool-cases (num_lt row.expires_at (nat now))) [
          | inl late ↦ absurd (expire_never row r read.1 (ground arith))
          | inr in_time ↦
              rw (returned, continue, in_time)
                (current_inv c i row r read.1 (law.clock_keeps c s ∙ there) (ground arith))
        ]
        | inr (inl (e, failing)) ↦ absurd (ground arith)
        | inr (inr (m, throwing)) ↦ absurd (ground arith)
      ]

  -- A challenge that has been consumed is refused.
  consumed_refused :
      (i : ConsumeInput) (s : S)
      → IsConsumed i.challenge s
      → (consume_web_authn_challenge table i s).0 ≡ failed already_consumed
  unfolding consume_web_authn_challenge consume_found fail
  consumed_refused i s (row, there, done) = rw (there, consume_found, done) refl

  no_row :
      (i : ConsumeInput) (s : S) (r : ChallengeRow)
      → table.find_unique s i.challenge ≡ none
      → (consume_web_authn_challenge table i s).0 ≢ ok r
  unfolding consume_web_authn_challenge consume_found fail
  no_row i s r missing h = ground arith

  first_use :
      (i : ConsumeInput) (s : S) (row : ChallengeRow)
      → table.find_unique s i.challenge ≡ some row
      → is_some row.consumed_at ≡ false
      → consume_web_authn_challenge table i s ≡ judge table i row s
  unfolding consume_web_authn_challenge
  first_use i s row there fresh = rw (there, consume_found, fresh) refl

  consume_inv :
      (i : ConsumeInput) (s : S) (r : ChallengeRow)
      → (consume_web_authn_challenge table i s).0 ≡ ok r
      → IsConsumed i.challenge (consume_web_authn_challenge table i s).1
  unfolding consume_web_authn_challenge
  consume_inv i s r h = elim (Option-cases (table.find_unique s i.challenge)) [
    | inl missing ↦ absurd (no_row i s r missing h)
    | inr (row, there) ↦ elim (Bool-cases (is_some row.consumed_at)) [
      | inl used ↦ absurd (ground (arith, consumed_refused i s (row, there, used)))
      | inr fresh ↦
          let run : consume_web_authn_challenge table i s ≡ judge table i row s =
            first_use i s row there fresh in
          rw (run) (judge_inv i.challenge i row r s there (ap (λ x. x.0) (sym run) ∙ h))
    ]
  ]

  -- Calls of the two operations, one after another.
  pub data Calls : S → S → Type 0 where
    done : {s : S} → Calls s s
    consume_then :
        {s t : S} (i : ConsumeInput) → Calls (consume_web_authn_challenge table i s).1 t → Calls s t
    store_then :
        {s t : S} (purpose challenge : String) (user_id : Option String) (ttl_ms : Option Number)
        → Calls (store_web_authn_challenge table purpose challenge user_id ttl_ms s).1 t
        → Calls s t

  store-Keeps :
      (c purpose challenge : String) (user_id : Option String) (ttl_ms : Option Number)
      → Keeps (IsConsumed c) (store_web_authn_challenge table purpose challenge user_id ttl_ms)
  unfolding store_web_authn_challenge
  store-Keeps c purpose challenge user_id ttl_ms = search (keeps_rules, clock-Keeps, create-Keeps)

  Calls-keep : (c : String) {s t : S} → Calls s t → IsConsumed c s → IsConsumed c t
  Calls-keep c done h = h
  Calls-keep c (consume_then {s} i rest) h = Calls-keep c rest ((consume-Keeps c i).at s h)
  Calls-keep c (store_then {s} p ch u ttl rest) h =
      Calls-keep c rest ((store-Keeps c p ch u ttl).at s h)

  -- A challenge is consumed at most once: after `consumeWebAuthnChallenge` has accepted it, and any
  -- further calls one after another, every attempt to consume it, for whatever purpose and user, is
  -- refused as consumed.
  pub consume-at_most_once :
      (i j : ConsumeInput) (s t : S) (r : ChallengeRow)
      → (consume_web_authn_challenge table i s).0 ≡ ok r
      → Calls (consume_web_authn_challenge table i s).1 t
      → i.challenge ≡ j.challenge
      → (consume_web_authn_challenge table j t).0 ≡ failed already_consumed
  consume-at_most_once i j s t r h between same =
      consumed_refused j t
        (subst (λ c. IsConsumed c t) same (Calls-keep i.challenge between (consume_inv i s r h)))
