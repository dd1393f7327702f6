-- ===== src/Bridge/Once.antt =====
-- An assertion is exchanged at most once: packages/digi-bridge/src/exchange.ts over any stores that
-- keep what ReplayStore of types.ts promises.
use mathlib.Core.Option
use trustid.Base.{
  ℕ, ◌≡◌, ◌≢◌, inl, inr, sym, ap, ◌∙◌, Bool, true, false, Option, some, String, arith, Bool-cases,
}
use trustid.Base.Effect.{ok, Effect, Outcome-cases, ◌>>=◌}
use trustid.Base.Effect.Keeps.{Keeps}
use trustid.Bridge.Types.{Reason, Verified, ConsumeInput}
use trustid.Bridge.Verify.{Payload, JwtOptions, verified, jti_of, verify_digi_assertion}
use trustid.Bridge.Accepted.{verify_digi_assertion-IsVerified}
use trustid.Bridge.Exchange.{
  Host, ExchangeInput, ExchangeSuccess, Written, replayed, add_owner_session, write, exchange,
}
use trustid.Bridge.Transaction.{IsTransaction, consumption, Keeps-transacted, transacted_inv}
use trustid.Bridge.Frame.{
  verify_input, Hooks, Succeeded, exchange_inv, Keeps-verify, Keeps-finish, Keeps-exchange,
  Keeps-write, Keeps-add_owner_session,
}

-- What the exchange relies on: `consumed` is the set of the ids that `tryConsume` has taken. No
-- operation takes an id out of it, and `tryConsume` returns true for a new id only.
pub record IsReplaySafe {S : Type 0} (host : Host S) (consumed : S → String → Bool) : Type 0 where
  pub fresh :
      (c : ConsumeInput) (s : S)
      → (host.stores.try_consume c s).0 ≡ ok true
      → (consumed s c.jti ≡ false) × (consumed (host.stores.try_consume c s).1 c.jti ≡ true)
  pub consume_keeps :
      (j : String) (c : ConsumeInput) → Keeps (λ s. consumed s j ≡ true) (host.stores.try_consume c)
  pub resolve_keeps :
      (j issuer subject : String)
      → Keeps (λ s. consumed s j ≡ true) (host.stores.resolve_or_create issuer subject)
  pub create_keeps :
      (j owner_id : String) (ttl : Option ℕ)
      → Keeps (λ s. consumed s j ≡ true) (host.stores.create owner_id ttl)
  pub hooks : (j : String) → Hooks host (λ s. consumed s j ≡ true)
  pub transaction :
      (around : Effect S Reason Written → Effect S Reason Written)
      → host.run_write ≡ some around
      → IsTransaction around

-- Any exchanges, one after another.
pub data Exchanges {S : Type 0} (host : Host S) : S → S → Type 0 where
  done : {s : S} → Exchanges host s s
  then : {s t : S} (i : ExchangeInput) → Exchanges host (exchange host i s).1 t → Exchanges host s t

module _ {S : Type 0} (host : Host S) (consumed : S → String → Bool)
    (safe : IsReplaySafe host consumed) where
  exchange_keeps :
      (j : String) (i : ExchangeInput) → Keeps (λ s. consumed s j ≡ true) (exchange host i)
  exchange_keeps j i = Keeps-exchange host (safe.hooks j) i λ v.
      Keeps-transacted host.run_write (write host v) safe.transaction (
        Keeps-write host (safe.hooks j) v (safe.consume_keeps j) (safe.resolve_keeps j)
          (safe.create_keeps j))

  Exchanges-keep :
      (j : String) {s t : S} → Exchanges host s t → consumed s j ≡ true → consumed t j ≡ true
  Exchanges-keep j done h = h
  Exchanges-keep j (then {s} i rest) h = Exchanges-keep j rest ((exchange_keeps j i).at s h)

  -- Writes that return something but a replay have taken a new id.
  write_inv :
      (v : Verified) (s : S) (w : Written)
      → (write host v s).0 ≡ ok w
      → w ≢ replayed
      → (consumed s v.jti ≡ false) × (consumed (write host v s).1 v.jti ≡ true)
  unfolding write add_owner_session ◌>>=◌
  write_inv v s w h new =
      let tried = host.stores.try_consume (consumption v) s in
      elim (Outcome-cases tried.0) [
        | inl (taken, returned) ↦ elim (Bool-cases taken) [
          | inl new_id ↦
              let (before, after) = safe.fresh (consumption v) s (returned ∙ ap ok new_id) in
              let rest =
                Keeps-add_owner_session host (safe.hooks v.jti) v true (safe.resolve_keeps v.jti)
                  (safe.create_keeps v.jti) in
              (before, rw (returned, new_id) (rest.at tried.1 after))
          | inr old_id ↦ absurd (new (ground arith))
        ]
        | inr (inl (e, failing)) ↦ absurd (ground arith)
        | inr (inr (m, throwing)) ↦ absurd (ground arith)
      ]

  -- A successful exchange has taken the id of the assertion, and found it not taken.
  pub exchange_takes :
      (i : ExchangeInput) (s : S) (r : ExchangeSuccess) (steps : Succeeded host i s r)
      → (consumed s steps.v.jti ≡ false) × (consumed (exchange host i s).1 steps.v.jti ≡ true)
  exchange_takes i s r steps =
      let checked = (verify_digi_assertion host.checker (verify_input i) s).1 in
      let same =
        transacted_inv host.run_write (write host steps.v) checked steps.w safe.transaction
          steps.writing in
      let (before, after) =
        write_inv steps.v checked steps.w (ap (λ x. x.0) (sym same) ∙ steps.writing)
          steps.not_replayed in
      (
        elim (Bool-cases (consumed s steps.v.jti)) [
          | inl taken ↦ absurd (
              ground (
                arith,
                (Keeps-verify host (safe.hooks steps.v.jti) (verify_input i)).at s taken,
                before,
              ))
          | inr new ↦ new
        ],
        rw (steps.end_state, same)
            ((Keeps-finish host (safe.hooks steps.v.jti) steps.v steps.w).at
              (write host steps.v checked).1 after),
      )

  -- No two successful exchanges of one run have taken the same id.
  pub exchange_once :
      {s u : S} (i j : ExchangeInput) (first second : ExchangeSuccess)
      (one : Succeeded host i s first)
      → Exchanges host (exchange host i s).1 u
      → (two : Succeeded host j u second) → one.v.jti ≢ two.v.jti
  exchange_once {s} {u} i j first second one between two same =
      let (_, taken) = exchange_takes i s first one in
      let (untaken, _) = exchange_takes j u second two in
      absurd (ground (arith, Exchanges-keep one.v.jti between taken, untaken, same))

  -- Two exchanges of a run, with other exchanges between them, do not both succeed when the
  -- assertions carry the same id: in particular no assertion is exchanged twice. The stores keep
  -- `IsReplaySafe`, and the payload that jose verifies is the one it decodes.
  pub exchange-at_most_once :
      (s u : S) (i j : ExchangeInput) (first second : ExchangeSuccess)
      → ((a k : String) (o : JwtOptions) (p : Payload)
          → host.checker.jose.jwt_verify a k o ≡ verified p
          → host.checker.jose.decode_jwt a ≡ some p)
      → Option.map jti_of (host.checker.jose.decode_jwt i.assertion)
        ≡ Option.map jti_of (host.checker.jose.decode_jwt j.assertion)
      → (exchange host i s).0 ≡ ok first
      → Exchanges host (exchange host i s).1 u
      → (exchange host j u).0 ≢ ok second
  exchange-at_most_once s u i j first second decodes same_id h between g =
      let one = exchange_inv host i s first h in
      let two = exchange_inv host j u second g in
      let (_, _, p) =
        verify_digi_assertion-IsVerified host.checker (verify_input i) s one.v one.verifying in
      let (_, _, q) =
        verify_digi_assertion-IsVerified host.checker (verify_input j) u two.v two.verifying in
      let decoded = ap (Option.map jti_of) (decodes i.assertion p.key _ p.payload p.signed) in
      let decoded' = ap (Option.map jti_of) (decodes j.assertion q.key _ q.payload q.signed) in
      exchange_once i j first second one between two
        (ground (arith, p.jti, q.jti, decoded, decoded', same_id))
