-- ===== src/Bridge/Frame.antt =====
-- The steps of the exchange of packages/digi-bridge/src/exchange.ts that succeeds, and what an
-- exchange leaves in place, for any property of the state.
use trustid.Base.{
  ℕ, ◌≡◌, ◌≢◌, ◌⊎◌, inl, inr, refl, Bool, true, false, Option, none, some, String, arith,
  Option-cases,
}
use trustid.Base.Effect.{Outcome, ok, failed, thrown, Effect, fail, Outcome-cases, ◌>>=◌}
use trustid.Base.Effect.Keeps.{Keeps, Keeps-bind, Keeps-pure, Keeps-fail, keeps_rules}
use trustid.Bridge.Types.{Reason, Verified, DigiAuditEvent, ConsumeInput}
use trustid.Bridge.Verify.{
  VerifyInput, Verdict, Header, Payload, verified, rejected, verify_digi_assertion, verify_at,
  now_of, stop, need, accept,
}
use trustid.Bridge.Exchange.{
  Host, ExchangeInput, ExchangeSuccess, Written, replayed, written, Meta, recover, catching,
  refused, on_failure, quietly, record_event, transacted, add_owner_session, write, give_up,
  announce, finish, exchange,
}

abbrev pub verify_input : ExchangeInput → VerifyInput
verify_input i = record {
  assertion = i.assertion;
  expected_issuer = i.expected_issuer;
  expected_audience = some i.expected_audience;
  now_sec = i.now_sec;
}

-- What the hooks of a host leave in place.
pub record Hooks {S : Type 0} (host : Host S) (P : S → Type 0) : Type 0 where
  pub get_key : (h : Header) → Keeps P (host.checker.get_key h)
  pub clock : Keeps P host.checker.clock
  pub audit :
      (sink : DigiAuditEvent → Meta → Effect S Reason (Unit {0})) (event : DigiAuditEvent)
      (details : Meta)
      → host.audit ≡ some sink
      → Keeps P (sink event details)

pub Written-cases :
    (w : Written)
    → (w ≡ replayed)
      ⊎ ((owner_id identity_id : String) × (created : Bool) × (session_id token expires_at : String)
          × (w ≡ written owner_id identity_id created session_id token expires_at))
Written-cases replayed = inl refl
Written-cases (written o i c s t e) = inr (o, i, c, s, t, e, refl)

module _ {S : Type 0} (host : Host S) where
  -- What the steps of an exchange that succeeds have returned.
  pub record Succeeded (i : ExchangeInput) (s : S) (r : ExchangeSuccess) : Type 0 where
    pub v : Verified
    pub verifying : (verify_digi_assertion host.checker (verify_input i) s).0 ≡ ok v
    pub w : Written
    pub writing :
        (transacted host.run_write
          (write host v)
          (verify_digi_assertion host.checker (verify_input i) s).1).0
        ≡ ok w
    pub not_replayed : w ≢ replayed
    pub subject : r.subject ≡ v.subject
    pub end_state :
        (exchange host i s).1
        ≡ (finish host v w
            (transacted host.run_write
              (write host v)
              (verify_digi_assertion host.checker (verify_input i) s).1).1).1

  finish_inv :
      (v : Verified) (w : Written) (s : S) (r : ExchangeSuccess)
      → (finish host v w s).0 ≡ ok r
      → (w ≢ replayed) × (r.subject ≡ v.subject)
  unfolding finish ◌>>=◌ quietly
  finish_inv v replayed s r h = absurd (ground arith)
  finish_inv v (written o i c n t e) s r h = (λ same. cc, ground arith)

  give_up_never : (s : S) (w : Written) → (give_up host s).0 ≢ ok w
  unfolding give_up ◌>>=◌ quietly
  give_up_never s w h = ground arith

  pub exchange_inv :
      (i : ExchangeInput) (s : S) (r : ExchangeSuccess)
      → (exchange host i s).0 ≡ ok r
      → Succeeded i s r
  unfolding exchange catching ◌>>=◌ on_failure refused recover
  exchange_inv i s r h =
      let checked = verify_digi_assertion host.checker (verify_input i) s in
      elim (Outcome-cases checked.0) [
        | inl (v, verifying) ↦
            let made = transacted host.run_write (write host v) checked.1 in
            elim (Outcome-cases made.0) [
              | inl (w, writing) ↦
                  let (fresh, subject) = finish_inv v w made.1 r (ground arith) in
                  record {
                    v = v;
                    verifying = verifying;
                    w = w;
                    writing = writing;
                    not_replayed = fresh;
                    subject = subject;
                    end_state = ground arith;
                  }
              | inr (inl (e, failing)) ↦ absurd (ground arith)
              | inr (inr (m, throwing)) ↦ elim (Outcome-cases (give_up host made.1).0) [
                | inl (w, never) ↦ absurd (give_up_never made.1 w never)
                | inr (inl (e, failing)) ↦ absurd (ground arith)
                | inr (inr (t, again)) ↦ absurd (ground arith)
              ]
            ]
        | inr (inl (e, failing)) ↦ absurd (ground arith)
        | inr (inr (m, throwing)) ↦ absurd (ground arith)
      ]

module _ {S : Type 0} {P : S → Type 0} where
  Keeps-recover :
      {A : Type 0} (m handler : Effect S Reason A)
      → Keeps P m
      → Keeps P handler
      → Keeps P (catching m handler)
  unfolding catching recover
  Keeps-recover {A} m handler km kh = record { at = λ s h. go (m s).0 (m s).1 (km.at s h) }
    where
      go : (o : Outcome Reason A) (s : S) → P s → P (recover o handler s).1
      go (ok a) s h = h
      go (failed r) s h = h
      go (thrown t) s h = kh.at s h

  Keeps-on_failure :
      {A : Type 0} (m : Effect S Reason A) (handler : Reason → Effect S Reason (Unit {0}))
      → Keeps P m
      → ((r : Reason) → Keeps P (handler r))
      → Keeps P (on_failure m handler)
  unfolding on_failure refused
  Keeps-on_failure {A} m handler km kh = record { at = λ s h. go (m s).0 (m s).1 (km.at s h) }
    where
      go : (o : Outcome Reason A) (s : S) → P s → P (refused o handler s).1
      go (ok a) s h = h
      go (failed r) s h = (Keeps-bind (handler r) (λ _. fail r) (kh r) (λ _. Keeps-fail r)).at s h
      go (thrown t) s h = h

  Keeps-stop : (o : Option Reason) → Keeps P (stop o)
  unfolding stop
  Keeps-stop none = Keeps-pure tt
  Keeps-stop (some r) = Keeps-fail r

  Keeps-need : {A : Type 0} (r : Reason) (o : Option A) → Keeps P (need r o)
  unfolding need
  Keeps-need r none = Keeps-fail r
  Keeps-need r (some a) = Keeps-pure a

  Keeps-accept : (decoded : Option Payload) (verdict : Verdict) → Keeps P (accept decoded verdict)
  unfolding accept
  Keeps-accept decoded (verified p) = Keeps-pure p
  Keeps-accept decoded (rejected e) = Keeps-fail _

  module _ (host : Host S) (hooks : Hooks host P) where
    Keeps-now_of : (given : Option ℕ) → Keeps P (now_of host.checker given)
    unfolding now_of
    Keeps-now_of none = Keeps-bind _ _ hooks.clock (λ now. Keeps-pure _)
    Keeps-now_of (some n) = Keeps-pure n

    Keeps-verify_at :
        (i : VerifyInput) (expected : String) (now : ℕ)
        → Keeps P (verify_at host.checker i expected now)
    unfolding verify_at
    Keeps-verify_at i expected now =
        search (keeps_rules, Keeps-stop, Keeps-need, Keeps-accept, hooks.get_key) depth 12

    -- A verification writes only what the cache of keys and the clock write.
    pub Keeps-verify : (i : VerifyInput) → Keeps P (verify_digi_assertion host.checker i)
    unfolding verify_digi_assertion
    Keeps-verify i = search (keeps_rules, Keeps-now_of, Keeps-verify_at)

    pub Keeps-record_event :
        (event : DigiAuditEvent) (details : Meta) → Keeps P (record_event host.audit event details)
    unfolding record_event
    Keeps-record_event event details = elim (Option-cases host.audit) [
      | inl missing ↦ rw (missing, record_event) (Keeps-pure tt)
      | inr (sink, there) ↦ rw (there, record_event) (hooks.audit sink event details there)
    ]

    Keeps-quietly : (m : Effect S Reason (Unit {0})) → Keeps P m → Keeps P (quietly m)
    unfolding quietly
    Keeps-quietly m km = record { at = λ s h. km.at s h }

    Keeps-announce :
        (v : Verified) (o i : String) (created : Bool) (n : String)
        → Keeps P (announce host v o i created n)
    unfolding announce
    Keeps-announce v o i created n = search (keeps_rules, Keeps-record_event)

    pub Keeps-finish : (v : Verified) (w : Written) → Keeps P (finish host v w)
    unfolding finish
    Keeps-finish v replayed = search (keeps_rules, Keeps-record_event)
    Keeps-finish v (written o i created n t e) = search (keeps_rules, Keeps-quietly, Keeps-announce)

    pub Keeps-give_up : Keeps P (give_up host)
    unfolding give_up
    Keeps-give_up = search (keeps_rules, Keeps-quietly, Keeps-record_event)

    -- An exchange keeps what its hooks and its writes keep.
    pub Keeps-exchange :
        (i : ExchangeInput)
        → ((v : Verified) → Keeps P (transacted host.run_write (write host v)))
        → Keeps P (exchange host i)
    unfolding exchange
    Keeps-exchange i writes =
        search
          (
            keeps_rules, Keeps-on_failure, Keeps-verify, Keeps-recover, writes, Keeps-give_up,
            Keeps-finish, Keeps-record_event,
          )
          depth 8

    pub Keeps-add_owner_session :
        (v : Verified) (consumed : Bool)
        → ((issuer subject : String) → Keeps P (host.stores.resolve_or_create issuer subject))
        → ((owner_id : String) (ttl : Option ℕ) → Keeps P (host.stores.create owner_id ttl))
        → Keeps P (add_owner_session host v consumed)
    unfolding add_owner_session
    Keeps-add_owner_session v false resolve create = search keeps_rules
    Keeps-add_owner_session v true resolve create = search (keeps_rules, resolve, create)

    pub Keeps-write :
        (v : Verified)
        → ((c : ConsumeInput) → Keeps P (host.stores.try_consume c))
        → ((issuer subject : String) → Keeps P (host.stores.resolve_or_create issuer subject))
        → ((owner_id : String) (ttl : Option ℕ) → Keeps P (host.stores.create owner_id ttl))
        → Keeps P (write host v)
    unfolding write
    Keeps-write v consume resolve create =
        search (keeps_rules, consume, Keeps-add_owner_session, resolve, create)
