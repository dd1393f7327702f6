-- ===== src/Bridge/Transaction.antt =====
-- The transaction around the durable writes of packages/digi-bridge/src/exchange.ts (`runWrite`).
use trustid.Base.{
  ◌≡◌, ◌≢◌, ◌⊎◌, inl, inr, refl, sym, ap, ◌∙◌, Bool, true, false, Bool-cases, Option, none, some,
  String, [], ◌∷◌, subst, arith,
}
use trustid.Base.Effect.{Outcome, ok, failed, thrown, Effect, continue, Outcome-cases, ◌>>=◌}
use trustid.Base.Effect.Keeps.{Keeps, Keeps-bind}
use trustid.Bridge.Types.{Reason, Verified, ConsumeInput}
use trustid.Base.Number.{to_millis}
use trustid.Bridge.Verify.{verify_digi_assertion}
use trustid.Bridge.Exchange.{
  Host, ExchangeInput, ExchangeSuccess, Written, replayed, written, recover, catching, refused,
  on_failure, quietly, transacted, add_owner_session, write, give_up, map_reject_event, reason_text,
  record_event, finish, exchange,
}
use trustid.Bridge.Frame.{
  verify_input, Hooks, Written-cases, Keeps-verify, Keeps-finish, Keeps-give_up, Keeps-record_event,
}

-- A transaction that returns is the writes it is given; one that does not leaves the state as it was.
pub record IsTransaction {S : Type 0} (around : Effect S Reason Written → Effect S Reason Written)
    : Type 0 where
  pub commits :
      (m : Effect S Reason Written) (s : S) (w : Written) → (around m s).0 ≡ ok w → around m s ≡ m s
  pub rolls_back :
      (m : Effect S Reason Written) (s : S)
      → ((w : Written) → (around m s).0 ≢ ok w)
      → (around m s).1 ≡ s

no_ok :
    {A : Type 0} (o : Outcome Reason A) (a : A)
    → o ≡ ok a
    → ((e : Reason) × (o ≡ failed e)) ⊎ ((m : String) × (o ≡ thrown m))
    → ⊥
no_ok o a h (inl (e, failing)) = cc
no_ok o a h (inr (m, throwing)) = cc

module _ {S : Type 0} {P : S → Type 0} where
  -- What the writes keep, a transaction around them keeps.
  pub Keeps-transacted :
      (around : Option (Effect S Reason Written → Effect S Reason Written))
      (m : Effect S Reason Written)
      → ((f : Effect S Reason Written → Effect S Reason Written)
          → around ≡ some f
          → IsTransaction f)
      → Keeps P m
      → Keeps P (transacted around m)
  unfolding transacted
  Keeps-transacted none m law km = km
  Keeps-transacted (some around) m law km = record {
    at = λ s h. elim (Outcome-cases (around m s).0) [
      | inl (w, returned) ↦ rw ((law around refl).commits m s w returned) (km.at s h)
      | inr other ↦
          rw
            ((law around refl).rolls_back m s (λ w returned. no_ok (around m s).0 w returned other))
            h
    ];
  }

-- Writes that have returned are the writes of the body.
pub transacted_inv :
    {S : Type 0} (around : Option (Effect S Reason Written → Effect S Reason Written))
    (m : Effect S Reason Written) (s : S) (w : Written)
    → ((f : Effect S Reason Written → Effect S Reason Written) → around ≡ some f → IsTransaction f)
    → (transacted around m s).0 ≡ ok w
    → transacted around m s ≡ m s
unfolding transacted
transacted_inv none m s w law h = refl
transacted_inv (some around) m s w law h = (law around refl).commits m s w h

abbrev pub consumption : Verified → ConsumeInput
consumption v = record {
  jti = v.jti;
  issuer = v.issuer;
  subject = v.subject;
  expires_at = to_millis v.exp;
}

module _ {S : Type 0} (host : Host S) where
  -- What follows a verification that returns.
  after : Verified → Effect S Reason ExchangeSuccess
  after v = catching (transacted host.run_write (write host v)) (give_up host) >>= finish host v

  exchange-after :
      (i : ExchangeInput) (s : S) (v : Verified)
      → (verify_digi_assertion host.checker (verify_input i) s).0 ≡ ok v
      → exchange host i s ≡ after v (verify_digi_assertion host.checker (verify_input i) s).1
  unfolding exchange ◌>>=◌ on_failure refused after
  exchange-after i s v h = rw (h, refused, continue) refl

  committed :
      (v : Verified) (s : S) (w : Written)
      → (transacted host.run_write (write host v) s).0 ≡ ok w
      → after v s ≡ finish host v w (transacted host.run_write (write host v) s).1
  unfolding after ◌>>=◌ catching
  committed v s w h = rw (h, recover, continue) refl

  finish_written :
      (v : Verified) (w : Written) (s : S)
      → w ≢ replayed
      → (r : ExchangeSuccess) × ((finish host v w s).0 ≡ ok r)
  unfolding finish ◌>>=◌ quietly
  finish_written v replayed s new = absurd (new refl)
  finish_written v (written o i c n t e) s new = (_, refl)

  module _ {P : S → Type 0} (around : Effect S Reason Written → Effect S Reason Written)
      (there : host.run_write ≡ some around) (law : IsTransaction around) (hooks : Hooks host P)
      (replay_keeps : (v : Verified) (s : S)
        → (write host v s).0 ≡ ok replayed
        → P s
        → P (write host v s).1) where
    undone :
        (v : Verified) (s : S)
        → ((e : Reason) × ((transacted host.run_write (write host v) s).0 ≡ failed e))
          ⊎ ((m : String) × ((transacted host.run_write (write host v) s).0 ≡ thrown m))
        → (transacted host.run_write (write host v) s).1 ≡ s
    unfolding transacted
    undone v s other =
        let runs = ap (λ o. transacted o (write host v) s) there in
        ap (λ x. x.1) runs
        ∙ law.rolls_back (write host v) s
            (λ w returned. no_ok _ w (ap (λ x. x.0) runs ∙ returned) other)

    Keeps-recovered : (o : Outcome Reason Written) → Keeps P (recover o (give_up host))
    unfolding recover
    Keeps-recovered (ok w) = record { at = λ s h. h }
    Keeps-recovered (failed e) = record { at = λ s h. h }
    Keeps-recovered (thrown m) = record { at = λ s h. (Keeps-give_up host hooks).at s h }

    after_keeps :
        (v : Verified) (s : S)
        → ((r : ExchangeSuccess) → (after v s).0 ≢ ok r)
        → P s
        → P (after v s).1
    unfolding after catching ◌>>=◌ transacted
    after_keeps v s unsuccessful h =
        let made = transacted host.run_write (write host v) s in
        let runs = ap (λ o. transacted o (write host v) s) there in
        elim (Outcome-cases made.0) [
          | inl (w, returned) ↦
              let same = committed v s w returned in
              elim (Written-cases w) [
                | inl replay ↦
                    let body =
                      runs ∙ law.commits (write host v) s w (ap (λ x. x.0) (sym runs) ∙ returned) in
                    rw (same, body)
                      ((Keeps-finish host hooks v w).at (write host v s).1
                        (replay_keeps v s (ap (λ x. x.0) (sym body) ∙ returned ∙ ap ok replay) h))
                | inr (o, i, c, n, t, e, new) ↦
                    let (r, success) = finish_written v w made.1 (λ replay. cc) in
                    absurd (unsuccessful r (ap (λ x. x.0) same ∙ success))
              ]
          | inr other ↦
              (Keeps-bind (recover made.0 (give_up host)) (finish host v) (Keeps-recovered made.0)
                  (Keeps-finish host hooks v)).at
                made.1 (subst P (sym (undone v s other)) h)
        ]

  -- A verification that refuses or throws leaves what its hooks leave.
  unverified_keeps :
      {P : S → Type 0} (hooks : Hooks host P) (i : ExchangeInput) (s : S)
      → ((e : Reason) × ((verify_digi_assertion host.checker (verify_input i) s).0 ≡ failed e))
        ⊎ ((m : String) × ((verify_digi_assertion host.checker (verify_input i) s).0 ≡ thrown m))
      → P (verify_digi_assertion host.checker (verify_input i) s).1
      → P (exchange host i s).1
  unfolding exchange on_failure refused ◌>>=◌
  unverified_keeps {P} hooks i s (inl (e, failing)) h =
      let s1 = (verify_digi_assertion host.checker (verify_input i) s).1 in
      let told = record_event host.audit (map_reject_event e) (("reason", reason_text e) ∷ []) in
      let same : (exchange host i s).1 ≡ (told s1).1 = elim (Outcome-cases (told s1).0) [
        | inl (a, returned) ↦ ground arith
        | inr (inl (r, stopped)) ↦ ground arith
        | inr (inr (m, throwing)) ↦ ground arith
      ] in
      subst P (sym same) (
        (Keeps-record_event host hooks (map_reject_event e) (("reason", reason_text e) ∷ [])).at s1
          h)
  unverified_keeps {P} hooks i s (inr (m, throwing)) h =
      let same : (exchange host i s).1 ≡ (verify_digi_assertion host.checker (verify_input i) s).1 =
        ground arith in
      subst P (sym same) h

  exchange_keeps :
      {P : S → Type 0} (around : Effect S Reason Written → Effect S Reason Written)
      → host.run_write ≡ some around
      → IsTransaction around
      → Hooks host P
      → ((v : Verified) (s : S) → (write host v s).0 ≡ ok replayed → P s → P (write host v s).1)
      → (i : ExchangeInput) (s : S) → ((r : ExchangeSuccess) → (exchange host i s).0 ≢ ok r)
      → P s
      → P (exchange host i s).1
  unfolding transacted
  exchange_keeps {P} around there law hooks replay_keeps i s refused_or_thrown h =
      let checked = verify_digi_assertion host.checker (verify_input i) s in
      let kept = (Keeps-verify host hooks (verify_input i)).at s h in
      elim (Outcome-cases checked.0) [
        | inl (v, returned) ↦
            let same = exchange-after i s v returned in
            rw (same) (
              after_keeps around there law hooks replay_keeps v checked.1
                (λ r e. refused_or_thrown r (ap (λ x. x.0) same ∙ e)) kept)
        | inr other ↦ unverified_keeps hooks i s other kept
      ]

  add_never_replayed : (v : Verified) (s : S) → (add_owner_session host v true s).0 ≢ ok replayed
  unfolding add_owner_session ◌>>=◌
  add_never_replayed v s h =
      let resolved = host.stores.resolve_or_create v.issuer v.subject s in
      elim (Outcome-cases resolved.0) [
        | inl (r, found) ↦ elim (Outcome-cases (host.stores.create r.owner.id none resolved.1).0) [
          | inl (m, made) ↦ absurd (ground arith)
          | inr (inl (e, failing)) ↦ absurd (ground arith)
          | inr (inr (t, throwing)) ↦ absurd (ground arith)
        ]
        | inr (inl (e, failing)) ↦ absurd (ground arith)
        | inr (inr (t, throwing)) ↦ absurd (ground arith)
      ]

  -- Writes that return a replay are a consumption that was refused, and no more.
  write_replayed :
      (v : Verified) (s : S)
      → (write host v s).0 ≡ ok replayed
      → ((host.stores.try_consume (consumption v) s).0 ≡ ok false)
        × ((write host v s).1 ≡ (host.stores.try_consume (consumption v) s).1)
  unfolding write ◌>>=◌
  write_replayed v s h =
      let taken = host.stores.try_consume (consumption v) s in
      elim (Outcome-cases taken.0) [
        | inl (b, returned) ↦ elim (Bool-cases b) [
          | inl new ↦ absurd (add_never_replayed v taken.1 (rw (← h) (rw (returned, new) refl)))
          | inr old ↦ (returned ∙ ap ok old, rw (returned, old, add_owner_session) refl)
        ]
        | inr (inl (e, failing)) ↦ absurd (ground arith)
        | inr (inr (t, throwing)) ↦ absurd (ground arith)
      ]

  -- An exchange whose writes run in a transaction and that does not succeed leaves what the host
  -- stores as it was, with any of the three writes undone that was made before one failed. The host
  -- promises that a refused `tryConsume` stores nothing, and that the cache of keys, the clock and the
  -- audit sink leave what is stored.
  pub exchange-all_or_nothing :
      {D : Type 0} (stored : S → D) (around : Effect S Reason Written → Effect S Reason Written)
      → host.run_write ≡ some around
      → IsTransaction around
      → ((x : D) → Hooks host (λ t. stored t ≡ x))
      → ((c : ConsumeInput) (s : S)
          → (host.stores.try_consume c s).0 ≡ ok false
          → stored (host.stores.try_consume c s).1 ≡ stored s)
      → (i : ExchangeInput) (s : S) → ((r : ExchangeSuccess) → (exchange host i s).0 ≢ ok r)
      → stored (exchange host i s).1 ≡ stored s
  exchange-all_or_nothing stored around there law hooks refusal i s never =
      exchange_keeps {P = λ t. stored t ≡ stored s} around there law (hooks (stored s))
        (λ v t replay same.
          let (refused_use, state) = write_replayed v t replay in
          ap stored state ∙ refusal (consumption v) t refused_use ∙ same)
        i s never refl

  -- Once the writes are committed, the exchange returns the session they made, whatever the audit
  -- sink does: an error of the sink never hides a session that is stored.
  pub exchange-returns_session :
      (i : ExchangeInput) (s : S) (v : Verified) (owner_id identity_id : String) (created : Bool)
      (session_id token expires_at : String)
      → (verify_digi_assertion host.checker (verify_input i) s).0 ≡ ok v
      → (transacted host.run_write
          (write host v)
          (verify_digi_assertion host.checker (verify_input i) s).1).0
        ≡ ok (written owner_id identity_id created session_id token expires_at)
      → (exchange host i s).0
        ≡ ok (record {
          owner_id = owner_id;
          owner_created = created;
          session_token = token;
          session_id = session_id;
          expires_at = expires_at;
          subject = v.subject;
        })
  unfolding finish ◌>>=◌ quietly
  exchange-returns_session i s v o d c n t e verifying writing =
      ap (λ x. x.0) (exchange-after i s v verifying ∙ committed v _ (written o d c n t e) writing)
