-- ===== src/Bridge/Memory/Completes.antt =====
-- The exchange of packages/digi-bridge/src/exchange.ts over the in-memory stores of stores.ts.
use trustid.Base.{ℕ, ◌≡◌, refl, Bool, false, Option, none, [], ◌∷◌, String}
use trustid.Base.Effect.{ok, Effect, continue, ◌>>=◌}
use trustid.Base.Number.{to_millis}
use trustid.Bridge.Types.{Reason, Verified, DigiAuditEvent, ConsumeInput}
use trustid.Bridge.Verify.{Checker, verify_digi_assertion}
use trustid.Bridge.Exchange.{
  Host, ExchangeInput, ExchangeSuccess, written, Meta, transacted, add_owner_session, write,
  exchange,
}
use trustid.Bridge.Frame.{verify_input}
use trustid.Bridge.Transaction.{exchange-returns_session}
use trustid.Bridge.Memory.{Memory, MemoryEnv, resolve_or_create, try_consume, memory_stores}
use trustid.Bridge.Memory.Owners.{IsSound}
use trustid.Bridge.Memory.Identity.{
  call_try_consume, perform, perform_all, perform_all-IsSound, resolve_returns,
}
use trustid.Bridge.Memory.Replay.{consumed, try_consume-refines}
use trustid.Bridge.Memory.Sessions.{created_session}

-- A host over the in-memory stores, with no transaction, as the source composes them.
unfoldable pub memory_host :
    MemoryEnv
    → Checker Memory
    → Option (DigiAuditEvent → Meta → Effect Memory Reason (Unit {0}))
    → (ℕ → String)
    → Host Memory
memory_host env checker audit to_iso = record {
  checker = checker;
  stores = memory_stores env;
  audit = audit;
  run_write = none;
  to_iso = to_iso;
}

module _ (env : MemoryEnv) (checker : Checker Memory)
    (audit : Option (DigiAuditEvent → Meta → Effect Memory Reason (Unit {0})))
    (to_iso : ℕ → String) where
  -- The writes for an id that is not consumed return a session.
  write_completes :
      (v : Verified) (s : Memory)
      → IsSound s
      → consumed s v.jti ≡ false
      → (o d : String) × (c : Bool) × (n t e : String) × ((write
            (memory_host env checker audit to_iso)
            v
            s).0
          ≡ ok (written o d c n t e))
  unfolding write add_owner_session memory_host memory_stores perform perform_all ◌>>=◌
  write_completes v s sound new =
      let input : ConsumeInput = record {
        jti = v.jti;
        issuer = v.issuer;
        subject = v.subject;
        expires_at = to_millis v.exp;
      } in
      let (result, _, _) = try_consume-refines env input s in
      let s2 = (try_consume env input s).1 in
      let sound2 = perform_all-IsSound env (call_try_consume input ∷ []) s sound in
      let (r, resolved, _) = resolve_returns env v.issuer v.subject s2 sound2 in
      let s3 = (resolve_or_create env v.issuer v.subject s2).1 in
      let (made, created, _, _, _, _, _) = created_session env r.owner.id none s3 in
      (
        r.owner.id,
        r.identity.id,
        r.created,
        made.session.id,
        made.token,
        to_iso made.session.expires_at,
        rw (result, new, continue, resolved, created) refl,
      )

  -- An assertion that verifies, whose id the replay store has not consumed, is exchanged for a
  -- session of its subject, whatever the audit sink does.
  pub exchange-completes :
      (i : ExchangeInput) (s : Memory) (v : Verified)
      → (verify_digi_assertion checker (verify_input i) s).0 ≡ ok v
      → IsSound (verify_digi_assertion checker (verify_input i) s).1
      → consumed (verify_digi_assertion checker (verify_input i) s).1 v.jti ≡ false
      → (r : ExchangeSuccess) × ((exchange (memory_host env checker audit to_iso) i s).0 ≡ ok r)
        × (r.subject ≡ v.subject)
  unfolding transacted memory_host
  exchange-completes i s v verifying sound new =
      let (o, d, c, n, t, e, writing) =
        write_completes v (verify_digi_assertion checker (verify_input i) s).1 sound new in
      (
        _,
        exchange-returns_session (memory_host env checker audit to_iso) i s v o d c n t e verifying
            writing,
        refl,
      )
