-- ===== src/Bridge/Keys/Bounds.antt =====
-- What a call of `getKey` of packages/digi-bridge/src/verify.ts fetches and gives.
use trustid.Base.{
  suc, ◌+◌, ◌≤◌, ◌≡◌, ◌≢◌, ◌⊎◌, inl, inr, refl, sym, ap, subst, ◌∙◌, Bool, true, false, ◌||◌,
  Option, none, some, String, arith, ltb, get_or, ◌==◌, eq_iff, if◌then◌else◌, Bool-cases,
  Option-cases,
}
use trustid.Base.Json.{Items}
use trustid.Base.Effect.{ok, pure, throw, continue, ◌>>=◌, Outcome-cases}
use trustid.Bridge.Verify.{Header}
use trustid.Bridge.Keys.{
  Response, no_answer, answer, KeyCache, KeyHost, keys_of, store_keys, load_from, load, is_old,
  load_if, ensure_fresh, chosen, lookup, retry, fetch_key, get_key,
}

module _ (host : KeyHost) where
  store_keys-fetches :
      (o : Option Items) (s : KeyCache) → (store_keys host o s).1.fetches ≡ s.fetches
  unfolding store_keys
  store_keys-fetches none s = refl
  store_keys-fetches (some keys) s = elim (Bool-cases (host.is_jwks keys)) [
    | inl valid ↦ ground arith
    | inr invalid ↦ ground arith
  ]

  load-fetches : (s : KeyCache) → (load host s).1.fetches ≡ suc s.fetches
  unfolding load load_from throw
  load-fetches s = go (host.fetch s.fetches)
    where
      go :
          (r : Response)
          → (load_from host r (record s { fetches = suc s.fetches })).1.fetches ≡ suc s.fetches
      go no_answer = refl
      go (answer false body) = refl
      go (answer true body) =
          store_keys-fetches (keys_of body) (record s { fetches = suc s.fetches })

  load_if-fetches : (b : Bool) (s : KeyCache) → (load_if host b s).1.fetches ≤ s.fetches + 1
  unfolding load_if pure
  load_if-fetches true s = grind (arith, load-fetches s)
  load_if-fetches false s = omega arith

  ensure_fresh-fetches :
      (o : Option Items) (s : KeyCache) → (ensure_fresh host o s).1.fetches ≤ s.fetches + 1
  unfolding ensure_fresh is_old ◌>>=◌
  ensure_fresh-fetches none s = grind (arith, load-fetches s)
  ensure_fresh-fetches (some keys) s =
      load_if-fetches (ltb (s.loaded_at + get_or host.ttl_ms 300000) (host.clock s.ticks))
        (record s { ticks = suc s.ticks })

  retry-fetches :
      (h : Header) (o : Option String) (s : KeyCache) → (retry host h o s).1.fetches ≤ s.fetches + 1
  unfolding retry lookup pure ◌>>=◌
  retry-fetches h (some k) s = omega arith
  retry-fetches h none s = elim (Outcome-cases (load host s).0) [
    | inl (a, returned) ↦ ground (arith, load-fetches s)
    | inr (inl (e, failing)) ↦ ground (arith, load-fetches s)
    | inr (inr (m, throwing)) ↦ ground (arith, load-fetches s)
  ]

  fetch_key-fetches : (h : Header) (s : KeyCache) → (fetch_key host h s).1.fetches ≤ s.fetches + 2
  unfolding fetch_key lookup ◌>>=◌
  fetch_key-fetches h s =
      let fresh = ensure_fresh host s.local_jwks s in
      elim (Outcome-cases fresh.0) [
        | inl (a, returned) ↦ ground (
          arith,
          ensure_fresh-fetches s.local_jwks s,
          retry-fetches h (chosen host h fresh.1.local_jwks) fresh.1,
        )
        | inr (inl (e, failing)) ↦ ground (arith, ensure_fresh-fetches s.local_jwks s)
        | inr (inr (m, throwing)) ↦ ground (arith, ensure_fresh-fetches s.local_jwks s)
      ]

  held :
      (h : Header) (o : Option Items) (k : String)
      → chosen host h o ≡ some k
      → (keys : Items) × (o ≡ some keys) × (host.choose keys h ≡ some k)
  held h none k e = absurd cc
  held h (some keys) k e = (keys, refl, e)

  fetched :
      (h : Header) (s : KeyCache) (k : String)
      → (fetch_key host h s).0 ≡ ok (some k)
      → (keys : Items) × ((fetch_key host h s).1.local_jwks ≡ some keys)
        × (host.choose keys h ≡ some k)
  unfolding fetch_key lookup retry pure ◌>>=◌
  fetched h s k returned =
      let fresh = ensure_fresh host s.local_jwks s in
      elim (Outcome-cases fresh.0) [
        | inl (a, kept) ↦ elim (Option-cases (chosen host h fresh.1.local_jwks)) [
          | inr (k', found) ↦
              rw (kept, continue, found, retry) (held h fresh.1.local_jwks k (found ∙ ground arith))
          | inl missing ↦
              let again = load host fresh.1 in
              elim (Outcome-cases again.0) [
                | inl (b, loaded) ↦
                    rw (kept, continue, missing, retry, loaded, continue)
                      (held h again.1.local_jwks k (ground arith))
                | inr (inl (e, failing)) ↦ absurd (ground arith)
                | inr (inr (m, throwing)) ↦ absurd (ground arith)
              ]
        ]
        | inr (inl (e, failing)) ↦ absurd (ground arith)
        | inr (inr (m, throwing)) ↦ absurd (ground arith)
      ]

  -- The algorithm decides whether the cache is asked at all.
  get_key_run :
      (h : Header) (s : KeyCache)
      → ((get_key host h s ≡ (ok none, s)) × (h.alg ≢ some "EdDSA"))
        ⊎ ((get_key host h s ≡ fetch_key host h s) × (h.alg ≡ some "EdDSA"))
  unfolding get_key pure
  get_key_run h s = go h.alg h.kid
    where
      go :
          (alg kid : Option String)
          → ((get_key host (record { alg = alg; kid = kid }) s ≡ (ok none, s))
              × (alg ≢ some "EdDSA"))
            ⊎ ((get_key host (record { alg = alg; kid = kid }) s
                  ≡ fetch_key host (record { alg = alg; kid = kid }) s)
                × (alg ≡ some "EdDSA"))
      go none kid = inl (refl, λ e. cc)
      go (some a) kid = elim (Bool-cases ("EdDSA" == a)) [
        | inl same ↦
            inr (rw (← (eq_iff "EdDSA" a).0 same) refl, ap some (sym ((eq_iff "EdDSA" a).0 same)))
        | inr other ↦ inl (
          elim (Bool-cases (a == "none" || a == "None")) [
            | inl unsigned ↦ rw (unsigned) refl
            | inr signed ↦ elim (Bool-cases (a == "")) [
              | inl blank ↦ rw (signed, blank) refl
              | inr named ↦ rw (signed, named, other) refl
            ]
          ],
          λ e. ground (arith, eq_iff "EdDSA" a),
        )
      ]

  -- A call of `getKey` fetches the keys at most twice, however it ends, and not at all for a header
  -- whose algorithm is not EdDSA.
  pub get_key-fetches :
      (h : Header) (s : KeyCache)
      → (get_key host h s).1.fetches ≤ s.fetches + (if get_or h.alg "" == "EdDSA" then 2 else 0)
  get_key-fetches h s = elim (get_key_run h s) [
    | inl (run, other) ↦ rw (run) (omega arith)
    | inr (run, eddsa) ↦ rw (run) (
        subst
          (λ o.
            (fetch_key host h s).1.fetches ≤ s.fetches + (if get_or o "" == "EdDSA" then 2 else 0))
          (sym eddsa) (fetch_key-fetches h s))
  ]

  -- A key that `getKey` returns is one that jose chooses for the header, whose algorithm is EdDSA,
  -- among the keys that the cache then holds.
  pub get_key_lem :
      (h : Header) (s : KeyCache) (k : String)
      → (get_key host h s).0 ≡ ok (some k)
      → (h.alg ≡ some "EdDSA")
        × ((keys : Items) × ((get_key host h s).1.local_jwks ≡ some keys)
            × (host.choose keys h ≡ some k))
  get_key_lem h s k returned = elim (get_key_run h s) [
    | inl (run, other) ↦ absurd (ground (arith, run, returned))
    | inr (run, eddsa) ↦ (eddsa, rw (run) (fetched h s k (ap (λ x. x.0) (sym run) ∙ returned)))
  ]
