-- ===== src/Bridge/Exchange.antt =====
-- packages/digi-bridge/src/exchange.ts: an assertion is verified, and its id, its owner and a session
-- are written. The outcome `{ ok: false, reason }` is an early return with the reason.
use trustid.Base.{ℕ, Bool, true, false, Option, none, some, List, [], ◌∷◌, String, if◌then◌else◌}
use trustid.Base.Number.{to_millis}
use trustid.Base.Effect.{Outcome, ok, failed, thrown, Effect, pure, fail, throw, ◌>>=◌, ◌>>◌}
use trustid.Bridge.Types.{
  Reason, malformed_jwt, bad_signature, expired, not_active, future_iat, issuer_mismatch,
  audience_mismatch, missing_audience, unknown_kid, unsupported_alg, alg_none, missing_sub,
  malformed_sub, missing_jti, replay, missing_claims, Verified, DigiAuditEvent,
  trust_assertion_accepted, trust_assertion_rejected, trust_assertion_replay_rejected,
  trust_assertion_wrong_issuer, trust_assertion_wrong_audience, trust_assertion_expired,
  trust_assertion_bad_signature, trust_assertion_unknown_kid, digi_owner_created,
  digi_owner_resolved, digi_session_created, digi_persistence_failed, Stores,
}
use trustid.Bridge.Verify.{Checker, verify_digi_assertion}

pub record ExchangeSuccess : Type 0 where
  pub owner_id : String
  pub owner_created : Bool
  pub session_token : String
  pub session_id : String
  pub expires_at : String
  pub subject : String

-- What the durable writes return: `outcome` of the source.
pub data Written : Type 0 where
  replayed : Written
  written :
      (owner_id identity_id : String) (created : Bool) (session_id token expires_at : String)
      → Written

abbrev pub Meta : Type 0
Meta = List (String × String)

-- The stores and the hooks of the input; `to_iso` is `toISOString`.
pub record Host (S : Type 0) : Type 0 where
  pub checker : Checker S
  pub stores : Stores S
  pub audit : Option (DigiAuditEvent → Meta → Effect S Reason (Unit {0}))
  pub run_write : Option (Effect S Reason Written → Effect S Reason Written)
  pub to_iso : ℕ → String

pub record ExchangeInput : Type 0 where
  pub assertion : String
  pub expected_issuer : String
  pub expected_audience : String
  pub now_sec : Option ℕ

unfoldable pub map_reject_event : Reason → DigiAuditEvent
map_reject_event replay = trust_assertion_replay_rejected
map_reject_event issuer_mismatch = trust_assertion_wrong_issuer
map_reject_event audience_mismatch = trust_assertion_wrong_audience
map_reject_event missing_audience = trust_assertion_wrong_audience
map_reject_event expired = trust_assertion_expired
map_reject_event bad_signature = trust_assertion_bad_signature
map_reject_event alg_none = trust_assertion_bad_signature
map_reject_event unsupported_alg = trust_assertion_bad_signature
map_reject_event unknown_kid = trust_assertion_unknown_kid
map_reject_event _ = trust_assertion_rejected

unfoldable pub reason_text : Reason → String
reason_text malformed_jwt = "malformed_jwt"
reason_text bad_signature = "bad_signature"
reason_text expired = "expired"
reason_text not_active = "not_active"
reason_text future_iat = "future_iat"
reason_text issuer_mismatch = "issuer_mismatch"
reason_text audience_mismatch = "audience_mismatch"
reason_text missing_audience = "missing_audience"
reason_text unknown_kid = "unknown_kid"
reason_text unsupported_alg = "unsupported_alg"
reason_text alg_none = "alg_none"
reason_text missing_sub = "missing_sub"
reason_text malformed_sub = "malformed_sub"
reason_text missing_jti = "missing_jti"
reason_text replay = "replay"
reason_text missing_claims = "missing_claims"

module _ {S : Type 0} where
  module _ {A : Type 0} where
    -- `try { … } catch { … }`
    unfoldable pub recover : Outcome Reason A → Effect S Reason A → Effect S Reason A
    recover (ok a) handler s = (ok a, s)
    recover (failed r) handler s = (failed r, s)
    recover (thrown m) handler s = handler s

    unfoldable pub catching : Effect S Reason A → Effect S Reason A → Effect S Reason A
    unfolding recover
    catching m handler s = recover (m s).0 handler (m s).1

    -- `if (!verified.ok) { …; return { ok: false, … } }`
    unfoldable pub refused :
        Outcome Reason A → (Reason → Effect S Reason (Unit {0})) → Effect S Reason A
    unfolding ◌>>=◌
    refused (ok a) handler s = (ok a, s)
    refused (failed r) handler s = (handler r >> fail r) s
    refused (thrown m) handler s = (thrown m, s)

    unfoldable pub on_failure :
        Effect S Reason A → (Reason → Effect S Reason (Unit {0})) → Effect S Reason A
    unfolding refused
    on_failure m handler s = refused (m s).0 handler (m s).1

  -- `try { … } catch {}`: however it ends, the code goes on.
  unfoldable pub quietly : Effect S Reason (Unit {0}) → Effect S Reason (Unit {0})
  quietly m s = (ok tt, (m s).1)

  unfoldable pub record_event :
      Option (DigiAuditEvent → Meta → Effect S Reason (Unit {0}))
      → DigiAuditEvent
      → Meta
      → Effect S Reason (Unit {0})
  unfolding pure
  record_event none event details = pure tt
  record_event (some sink) event details = sink event details

  unfoldable pub transacted :
      Option (Effect S Reason Written → Effect S Reason Written)
      → Effect S Reason Written
      → Effect S Reason Written
  transacted none m = m
  transacted (some around) m = around m

  module _ (host : Host S) where
    unfoldable pub add_owner_session : Verified → Bool → Effect S Reason Written
    unfolding pure ◌>>=◌
    add_owner_session v false = pure replayed
    add_owner_session v true = do
      resolved ← host.stores.resolve_or_create v.issuer v.subject
      made ← host.stores.create resolved.owner.id none
      pure (
          written resolved.owner.id resolved.identity.id resolved.created made.session.id made.token
            (host.to_iso made.session.expires_at))

    -- The body given to `runWrite`.
    unfoldable pub write : Verified → Effect S Reason Written
    unfolding add_owner_session ◌>>=◌
    write v = do
      consumed ← host.stores.try_consume (record {
        jti = v.jti;
        issuer = v.issuer;
        subject = v.subject;
        expires_at = to_millis v.exp;
      })
      add_owner_session v consumed

    -- The `catch` around it.
    unfoldable pub give_up : Effect S Reason Written
    unfolding quietly record_event ◌>>=◌
    give_up = do
      quietly (record_event host.audit digi_persistence_failed (("reason", "storage_failure") ∷ []))
      throw "Digi Core persistence failed"

    -- The events of a successful exchange.
    unfoldable pub announce :
        Verified → String → String → Bool → String → Effect S Reason (Unit {0})
    unfolding record_event ◌>>=◌
    announce v owner_id identity_id created session_id = do
      record_event host.audit trust_assertion_accepted
          (("jti", v.jti) ∷ ("issuer", v.issuer) ∷ ("audience", v.audience) ∷ [])
      record_event host.audit (if created then digi_owner_created else digi_owner_resolved)
          (("ownerId", owner_id) ∷ ("identityId", identity_id) ∷ ("issuer", v.issuer) ∷ [])
      record_event host.audit digi_session_created
          (("ownerId", owner_id) ∷ ("sessionId", session_id) ∷ [])

    unfoldable pub finish : Verified → Written → Effect S Reason ExchangeSuccess
    unfolding record_event quietly announce ◌>>=◌
    finish v replayed = do
      record_event host.audit trust_assertion_replay_rejected (("jti", v.jti) ∷ [])
      fail replay
    finish v (written owner_id identity_id created session_id token expires_at) = do
      quietly (announce v owner_id identity_id created session_id)
      pure (record {
        owner_id = owner_id;
        owner_created = created;
        session_token = token;
        session_id = session_id;
        expires_at = expires_at;
        subject = v.subject;
      })

    unfoldable pub exchange : ExchangeInput → Effect S Reason ExchangeSuccess
    unfolding on_failure transacted catching write give_up finish record_event map_reject_event
        reason_text verify_digi_assertion ◌>>=◌
    exchange i = do
      v ←
          on_failure
            (verify_digi_assertion host.checker (record {
              assertion = i.assertion;
              expected_issuer = i.expected_issuer;
              expected_audience = some i.expected_audience;
              now_sec = i.now_sec;
            }))
            (λ r. record_event host.audit (map_reject_event r) (("reason", reason_text r) ∷ []))
      w ← catching (transacted host.run_write (write v)) give_up
      finish v w
