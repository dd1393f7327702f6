-- ===== src/Bridge/Keys.antt =====
-- packages/digi-bridge/src/verify.ts: `createJwksCache`, the cache of the issuer's keys. The
-- answers to the fetches, the clock, and jose's test and choice of keys are parameters.
pub mod Bounds
use trustid.Base.{
  ℕ, suc, ◌+◌, ◌-◌, ◌≤◌, ◌≡◌, ◌⊎◌, inl, inr, refl, sym, ap, Bool, true, false, not, ◌||◌, Option,
  none, some, String, arith, ltb, includes, get_or, is_some, ◌==◌, eq_iff, if◌then◌else◌,
  Bool-cases, Option-cases,
}
use trustid.Base.JsMap
use trustid.Base.Json.{Json, Items, entries, null, undefined, arr, obj}
use trustid.Base.Effect.{
  Outcome, ok, failed, thrown, Effect, pure, throw, continue, ◌>>=◌, ◌>>◌, Outcome-cases,
}
use trustid.Bridge.Types.{Reason}
use trustid.Bridge.Verify.{Header, allowed_assertion_algs}

-- What the fetch gives: no answer, or a status and the body that `json()` reads, if it reads one.
pub data Response : Type 0 where
  no_answer : Response
  answer : (is_ok : Bool) (body : Option Json) → Response

-- `localJwks` and `loadedAt`, and the numbers of readings of the clock and of fetches so far.
pub record KeyCache : Type 0 where
  pub local_jwks : Option Items
  pub loaded_at : ℕ
  pub ticks : ℕ
  pub fetches : ℕ

abbrev pub new_cache : KeyCache
new_cache = record { local_jwks = none; loaded_at = 0; ticks = 0; fetches = 0 }

pub record KeyHost : Type 0 where
  pub fetch : ℕ → Response
  pub clock : ℕ → ℕ
  pub is_jwks : Items → Bool
  pub choose : Items → Header → Option String
  pub ttl_ms : Option ℕ

-- `Array.isArray(body.keys) ? body.keys : []`; none where the access throws.
abbrev pub array_or_empty : Option Json → Items
array_or_empty (some (arr vs)) = vs
array_or_empty _ = Items.nil

abbrev pub keys_of : Option Json → Option Items
keys_of none = none
keys_of (some null) = none
keys_of (some undefined) = none
keys_of (some (obj m)) = some (array_or_empty (JsMap.get (entries m) "keys"))
keys_of (some _) = some Items.nil

abbrev pub Cached : Type 0 → Type 0
Cached A = Effect KeyCache Reason A

module _ (host : KeyHost) where
  -- The end of `load`: `createLocalJWKSet` throws for what is no set of keys.
  unfoldable pub store_keys : Option Items → Cached (Unit {0})
  store_keys none s = (thrown "TypeError", s)
  store_keys (some keys) s =
      if host.is_jwks keys
      then (
        ok tt,
        record s { local_jwks = some keys; loaded_at = host.clock s.ticks; ticks = suc s.ticks },
      )
      else (thrown "JWKSInvalid", s)

  unfoldable pub load_from : Response → Cached (Unit {0})
  unfolding throw store_keys
  load_from no_answer = throw "fetch failed"
  load_from (answer false body) = throw "jwks_http"
  load_from (answer true body) = store_keys (keys_of body)

  unfoldable pub load : Cached (Unit {0})
  unfolding load_from
  load s = load_from (host.fetch s.fetches) (record s { fetches = suc s.fetches })

  -- `Date.now() - loadedAt > ttlMs`.
  unfoldable pub is_old : Cached Bool
  is_old s = (
    ok (ltb (s.loaded_at + get_or host.ttl_ms 300000) (host.clock s.ticks)),
    record s { ticks = suc s.ticks },
  )

  unfoldable pub load_if : Bool → Cached (Unit {0})
  unfolding load pure
  load_if true = load
  load_if false = pure tt

  -- `ensureFresh(false)`; `ensureFresh(true)` is `load`.
  unfoldable pub ensure_fresh : Option Items → Cached (Unit {0})
  unfolding load load_if is_old ◌>>=◌
  ensure_fresh none = load
  ensure_fresh (some keys) = do old ← is_old; load_if old

  -- `localJwks(header)`; none where it throws.
  abbrev pub chosen : Header → Option Items → Option String
  chosen h none = none
  chosen h (some keys) = host.choose keys h

  unfoldable pub lookup : Header → Cached (Option String)
  lookup h s = (ok (chosen h s.local_jwks), s)

  unfoldable pub retry : Header → Option String → Cached (Option String)
  unfolding load lookup pure ◌>>=◌
  retry h (some k) = pure (some k)
  retry h none = do load; lookup h

  unfoldable pub fetch_key : Header → Cached (Option String)
  unfolding ensure_fresh lookup retry ◌>>=◌
  fetch_key h = do
    cached ← (λ s. (ok s.local_jwks, s))
    ensure_fresh cached
    found ← lookup h
    retry h found

  unfoldable pub get_key : Header → Cached (Option String)
  unfolding fetch_key pure
  get_key h =
      if get_or h.alg "" == "none" || get_or h.alg "" == "None"
      then pure none
      else if get_or h.alg "" == "" || not (includes allowed_assertion_algs (get_or h.alg ""))
      then pure none
      else fetch_key h
