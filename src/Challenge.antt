-- ===== src/Challenge.antt =====
-- apps/api/src/modules/authentication/challenges.ts: the challenges of WebAuthn ceremonies, each to be
-- answered once. The database client is a parameter; calls run one after another.
pub mod Once
mod Examples
use trustid.Base.{
  ℕ, ◌+◌, ◌≡◌, ◌≢◌, Bool, true, false, not, ◌&&◌, Option, none, some, List, String, ltb, includes,
  get_or, is_some, ◌==◌, if◌then◌else◌,
}
use trustid.Base.Number.{Number, nat, num_lt, num_add, time_clip}
use trustid.Base.Effect.{Outcome, ok, failed, thrown, Effect, pure, fail, ◌>>=◌, ◌>>◌}

pub record ChallengeRow : Type 0 where
  pub id : String
  pub purpose : String
  pub challenge : String
  pub user_id : Option String
  pub expires_at : Number
  pub consumed_at : Option ℕ

pub data ConsumeReason : Type 0 where
  unknown already_consumed expired purpose_mismatch user_mismatch : ConsumeReason

pub record ConsumeInput : Type 0 where
  pub challenge : String
  pub purposes : List String
  pub user_id : Option String

-- What a new row is given.
pub record NewChallenge : Type 0 where
  pub purpose : String
  pub challenge : String
  pub user_id : Option String
  pub expires_at : Number

-- The table of the client, and the clock. `consume_row` is the update of `consumedAt` by the row's id.
pub record ChallengeTable (S : Type 0) : Type 0 where
  pub find_unique : S → String → Option ChallengeRow
  pub consume_row : String → ℕ → Effect S ConsumeReason ChallengeRow
  pub create : NewChallenge → Effect S ConsumeReason ChallengeRow
  pub clock : Effect S ConsumeReason ℕ

-- `update` sets the field in the row with the id, or throws and writes nothing; a new row leaves those
-- that are there, and the clock leaves every row.
abbrev pub marked : String → ℕ → Option ChallengeRow → Option ChallengeRow
marked id now none = none
marked id now (some row) =
    if row.id == id then some (record row { consumed_at = some now }) else some row

pub record IsChallengeTable {S : Type 0} (table : ChallengeTable S) : Type 0 where
  pub consume_row_writes :
      (id c : String) (now : ℕ) (s : S) (row : ChallengeRow)
      → (table.consume_row id now s).0 ≡ ok row
      → table.find_unique (table.consume_row id now s).1 c ≡ marked id now (table.find_unique s c)
  pub consume_row_throws :
      (id c : String) (now : ℕ) (s : S)
      → ((row : ChallengeRow) → (table.consume_row id now s).0 ≢ ok row)
      → table.find_unique (table.consume_row id now s).1 c ≡ table.find_unique s c
  pub create_keeps :
      (new : NewChallenge) (c : String) (s : S) (row : ChallengeRow)
      → table.find_unique s c ≡ some row
      → table.find_unique (table.create new s).1 c ≡ some row
  pub clock_keeps :
      (c : String) (s : S) → table.find_unique (table.clock s).1 c ≡ table.find_unique s c

-- `input.userId && row.userId && row.userId !== input.userId`
abbrev pub other_user : String → String → Bool
other_user given owner = not (given == "") && not (owner == "") && not (owner == given)

module _ {S : Type 0} (table : ChallengeTable S) where
  -- Five minutes, where no time to live is given; a time to live may be negative. What the client does
  -- with an invalid date is its own.
  unfoldable pub store_web_authn_challenge :
      String → String → Option String → Option Number → Effect S ConsumeReason ChallengeRow
  unfolding ◌>>=◌
  store_web_authn_challenge purpose challenge user_id ttl_ms = do
    now ← table.clock
    table.create (record {
      purpose = purpose;
      challenge = challenge;
      user_id = user_id;
      expires_at = time_clip (num_add (get_or ttl_ms (nat 300000)) now);
    })

  unfoldable pub mark : ChallengeRow → Effect S ConsumeReason ChallengeRow
  unfolding ◌>>=◌
  mark row = do now ← table.clock; table.consume_row row.id now

  unfoldable pub expire : ChallengeRow → Effect S ConsumeReason ChallengeRow
  unfolding mark ◌>>=◌
  expire row = do mark row; fail expired

  unfoldable pub consume_current : ConsumeInput → ChallengeRow → Effect S ConsumeReason ChallengeRow
  unfolding mark fail
  consume_current i row =
      if not (includes i.purposes row.purpose)
      then fail purpose_mismatch
      else if other_user (get_or i.user_id "") (get_or row.user_id "")
      then fail user_mismatch
      else mark row

  unfoldable pub judge : ConsumeInput → ChallengeRow → Effect S ConsumeReason ChallengeRow
  unfolding expire consume_current ◌>>=◌
  judge i row = do
    now ← table.clock
    if num_lt row.expires_at (nat now) then expire row else consume_current i row

  unfoldable pub consume_found :
      ConsumeInput → Option ChallengeRow → Effect S ConsumeReason ChallengeRow
  unfolding judge fail
  consume_found i none = fail unknown
  consume_found i (some row) =
      if is_some row.consumed_at then fail already_consumed else judge i row

  unfoldable pub consume_web_authn_challenge : ConsumeInput → Effect S ConsumeReason ChallengeRow
  unfolding consume_found
  consume_web_authn_challenge i s = consume_found i (table.find_unique s i.challenge) s
