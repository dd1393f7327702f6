-- ===== src/Bridge/Memory/Replay.antt =====
-- The replay store of packages/digi-bridge/src/stores.ts is a set of ids, and it is what the exchange
-- relies on.
use trustid.Base.{
  ℕ, ◌≡◌, inl, inr, refl, sym, ap, ◌∙◌, Bool, true, false, ◌||◌, not, Option, none, some, String,
  arith, is_some, Bool-cases, eq_iff, ◌==◌,
}
use trustid.Base.JsMap
use trustid.Base.JsMap.{JsMap, get-set}
use trustid.Base.Effect.{ok, Effect, ◌>>=◌}
use trustid.Bridge.Types.{Reason, ExternalIdentity, ConsumeInput}
use trustid.Bridge.Memory.{
  Memory, MemoryEnv, draw, update, new_id, add_owner, resolve_found, resolve_or_create, try_consume,
  create, memory_stores, key,
}
use trustid.Bridge.Memory.Owners.{touch_state, resolve_run}
use trustid.Bridge.Exchange.{Host, Written}
use trustid.Bridge.Frame.{Hooks}
use trustid.Bridge.Transaction.{IsTransaction}
use trustid.Bridge.Once.{IsReplaySafe}

-- The abstract view: which ids have been consumed.
abbrev pub consumed : Memory → String → Bool
consumed s j = is_some (JsMap.get s.consumed j)

module _ (env : MemoryEnv) where
  -- `tryConsume` on the memory is insertion into a set of ids: it returns whether the id is new, the
  -- set has grown by the id, and nothing else of the memory has changed.
  pub try_consume-refines :
      (c : ConsumeInput) (s : Memory)
      → ((try_consume env c s).0 ≡ ok (not (consumed s c.jti)))
        × ((j : String) → consumed (try_consume env c s).1 j ≡ consumed s j || c.jti == j)
        × ((try_consume env c s).1 ≡ record s { consumed = (try_consume env c s).1.consumed })
  unfolding try_consume
  try_consume-refines c s = elim (Bool-cases (consumed s c.jti)) [
    | inl taken ↦ (ground arith, λ j. ground (arith, eq_iff c.jti j), ground arith)
    | inr new ↦ (
      ground arith,
      λ j. ground (
        arith,
        get-set s.consumed c.jti j
            (record { issuer = c.issuer; subject = c.subject; expires_at = c.expires_at }),
      ),
      ground arith,
    )
  ]

  memory_fresh :
      (c : ConsumeInput) (s : Memory)
      → (try_consume env c s).0 ≡ ok true
      → (consumed s c.jti ≡ false) × (consumed (try_consume env c s).1 c.jti ≡ true)
  memory_fresh c s taken =
      let (result, grown, _) = try_consume-refines c s in
      (ground (arith, result, taken), ground (arith, grown c.jti, eq_iff c.jti c.jti))

  memory_grows :
      (c : ConsumeInput) (s : Memory) (j : String)
      → consumed s j ≡ true
      → consumed (try_consume env c s).1 j ≡ true
  memory_grows c s j h =
      let (result, grown, _) = try_consume-refines c s in ground (arith, grown j, h)

  resolve-consumed :
      (issuer subject : String) (s : Memory)
      → (resolve_or_create env issuer subject s).1.consumed ≡ s.consumed
  unfolding resolve_found add_owner draw update new_id ◌>>=◌
  resolve-consumed issuer subject s =
      ap (λ x. x.1.consumed) (resolve_run env issuer subject s)
      ∙ go (JsMap.get s.by_key (key issuer subject))
    where
      go :
          (o : Option ExternalIdentity)
          → (resolve_found env issuer subject o s).1.consumed ≡ s.consumed
      go none = refl
      go (some x) = ap (λ t. t.consumed) (touch_state env (key issuer subject) x s)

  create-consumed :
      (o : String) (ttl : Option ℕ) (s : Memory) → (create env o ttl s).1.consumed ≡ s.consumed
  unfolding create draw new_id update ◌>>=◌
  create-consumed o ttl s = refl

  -- The memory stores keep what the exchange relies on, with any clock and cache of keys that leave
  -- the consumed ids.
  pub memory-IsReplaySafe :
      (host : Host Memory)
      → host.stores ≡ memory_stores env
      → ((j : String) → Hooks host (λ s. consumed s j ≡ true))
      → ((around : Effect Memory Reason Written → Effect Memory Reason Written)
          → host.run_write ≡ some around
          → IsTransaction around)
      → IsReplaySafe host consumed
  unfolding memory_stores
  memory-IsReplaySafe host stores hooks transaction = record {
    fresh = λ c s taken.
        rw (stores) (memory_fresh c s (ap (λ st. (st.try_consume c s).0) (sym stores) ∙ taken));
    consume_keeps = λ j c. record { at = λ s h. rw (stores) (memory_grows c s j h) };
    resolve_keeps = λ j issuer subject. record {
      at = λ s h.
          rw (stores) (ap (λ m. is_some (JsMap.get m j)) (resolve-consumed issuer subject s) ∙ h);
    };
    create_keeps = λ j o ttl. record {
      at = λ s h. rw (stores) (ap (λ m. is_some (JsMap.get m j)) (create-consumed o ttl s) ∙ h);
    };
    hooks = hooks;
    transaction = transaction;
  }
