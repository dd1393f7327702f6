-- ===== src/Bridge/Outage.antt =====
-- Runs of the exchange of packages/digi-bridge/src/exchange.ts in a transaction, over a store that is
-- one bit: whether the id is consumed.
use trustid.Base.{◌≡◌, ◌≢◌, refl, Bool, true, false, none, some, arith, not, if◌then◌else◌}
use trustid.Base.JsMap
use trustid.Base.Number
use trustid.Base.Text
use trustid.Base.Effect.{Outcome, ok, failed, thrown, Effect, pure, throw, ◌>>=◌}
use trustid.Base.Effect.Keeps.{Keeps-pure}
use trustid.Bridge.Types.{Reason, ConsumeInput, Stores, DigiOwner, NewSession, ExternalIdentity}
use trustid.Bridge.Verify
use trustid.Bridge.Verify.{Checker, verify_digi_assertion}
use trustid.Bridge.Exchange.{Host, ExchangeSuccess, Written, exchange, write, transacted}
use trustid.Bridge.Frame.{Hooks}
use trustid.Bridge.Transaction.{IsTransaction, exchange-all_or_nothing, exchange-returns_session}
use trustid.Bridge.Examples.{jose, input, session, verified_user}

abbrev owner : DigiOwner
owner = record { id = "own_a1"; status = "active"; created_at = 0; updated_at = 0 }

abbrev identity : ExternalIdentity
identity = record {
  id = "xid_a1";
  owner_id = "own_a1";
  issuer = "trustid";
  subject = "user-1";
  created_at = 0;
  last_seen_at = 0;
}

abbrev made : NewSession
made = record {
  session = record {
    id = "ses_a1";
    owner_id = "own_a1";
    token_hash = "h";
    expires_at = 9;
    created_at = 0;
    revoked_at = none;
  };
  token = "token";
}

-- The owners are there or not; a session can always be made.
abbrev bit_stores : Bool → Stores Bool
bit_stores up = record {
  resolve_or_create = λ issuer subject s.
      if up
      then (ok (record { owner = owner; created = true; identity = identity }), s)
      else (thrown "down", s);
  try_consume = λ c s. (ok (not s), true);
  create = λ o ttl s. (ok made, s);
}

abbrev keep_or_undo : Outcome Reason Written → Bool → Bool → Outcome Reason Written × Bool
keep_or_undo (ok w) t s = (ok w, t)
keep_or_undo (failed e) t s = (failed e, s)
keep_or_undo (thrown m) t s = (thrown m, s)

abbrev undoing : Effect Bool Reason Written → Effect Bool Reason Written
undoing m s = keep_or_undo (m s).0 (m s).1 s

undoing-IsTransaction : IsTransaction undoing
undoing-IsTransaction = record {
  commits = λ m s w h. back (m s) s w h;
  rolls_back = λ m s never. undone (m s) s never;
}
  where
    back :
        (r : Outcome Reason Written × Bool) (s : Bool) (w : Written)
        → (keep_or_undo r.0 r.1 s).0 ≡ ok w
        → keep_or_undo r.0 r.1 s ≡ r
    back (ok w, t) s w2 h = refl
    back (failed e, t) s w2 h = absurd cc
    back (thrown m, t) s w2 h = absurd cc

    undone :
        (r : Outcome Reason Written × Bool) (s : Bool)
        → ((w : Written) → (keep_or_undo r.0 r.1 s).0 ≢ ok w)
        → (keep_or_undo r.0 r.1 s).1 ≡ s
    undone (ok w, t) s never = absurd (never w refl)
    undone (failed e, t) s never = refl
    undone (thrown m, t) s never = refl

abbrev bit_checker : Checker Bool
bit_checker = record {
  jose = jose;
  get_key = λ h. pure (some "public");
  clock = pure 1000000000;
  digi_audience = none;
  node_env = none;
}

abbrev bit_host : Bool → Host Bool
bit_host up = record {
  checker = bit_checker;
  stores = bit_stores up;
  audit = if up then some (λ event details. throw "no log") else none;
  run_write = some undoing;
  to_iso = λ n. "later";
}

bit_hooks : (P : Bool → Type 0) → Hooks (bit_host false) P
bit_hooks P = record {
  get_key = λ h. Keeps-pure (some "public");
  clock = Keeps-pure 1000000000;
  audit = λ sink event details there. absurd cc;
}

down : (r : ExchangeSuccess) → (exchange (bit_host false) input false).0 ≢ ok r
unfolding exchange Verify.refuse_header Verify.refuse_origin Number.is_finite JsMap.get
    Number.num_lt Text.strip_prefix Verify.refuse_claims Number.num_le Verify.verified_of
down r h = ground arith

refusal_stores_nothing :
    (c : ConsumeInput) (s : Bool)
    → ((bit_stores false).try_consume c s).0 ≡ ok false
    → ((bit_stores false).try_consume c s).1 ≡ s
refusal_stores_nothing c false h = absurd cc
refusal_stores_nothing c true h = refl

-- The id is consumed before the owner store fails, and the transaction undoes that.
rollback_example : (exchange (bit_host false) input false).1 ≡ false
rollback_example =
    exchange-all_or_nothing (bit_host false) (λ s. s) undoing refl undoing-IsTransaction
      (λ x. bit_hooks (λ s. s ≡ x)) refusal_stores_nothing input false down

returns_example : (exchange (bit_host true) input false).0 ≡ ok session
unfolding verify_digi_assertion Verify.refuse_header Verify.refuse_origin Number.is_finite JsMap.get
    Number.num_lt Text.strip_prefix Verify.refuse_claims Number.num_le Verify.verified_of transacted
    write ◌>>=◌
returns_example =
    exchange-returns_session (bit_host true) input false verified_user "own_a1" "xid_a1" true
      "ses_a1" "token" "later" refl refl
