-- ===== src/Authority/History/Evolution.antt =====
-- What holds of a state of the service, and what a later state keeps of an earlier one.
use trustid.Base.{ℕ, ◌≤◌, ◌<◌, ◌≡◌, refl, ◌∙◌, ap, true, false, some, String, arith, includes}
use trustid.Base.JsMap
use trustid.Authority.Types.{Grant, Request, active, pending, revoked, same_status}
use trustid.Authority.Service.Env.{Env, random_id, Service}
use trustid.Authority.Service.Use.{min_count}

-- A grant's uses stay within its own limits, and a one-time grant is used at most once.
pub record IsSound (g : Grant) : Type 0 where
  pub capped : (m : ℕ) → min_count g.limits ≡ some m → g.usage_count ≤ m
  pub once : g.one_time ≡ true → g.usage_count ≤ 1
  pub unused : g.one_time ≡ true → g.status ≡ active → g.usage_count ≡ 0

-- The ids of a prefix that were drawn before `n`.
abbrev pub IsDrawn : Env → String → ℕ → String → Type 0
IsDrawn env prefix n id = (k : ℕ) × (k < n) × (id ≡ random_id env prefix k)

pub record IsValid (env : Env) (s : Service) : Type 0 where
  pub keyed : (id : String) (g : Grant) → JsMap.get s.store.grants id ≡ some g → g.id ≡ id
  pub drawn :
      (id : String) (g : Grant)
      → JsMap.get s.store.grants id ≡ some g
      → IsDrawn env "auth" s.ticks id
  pub sound : (id : String) (g : Grant) → JsMap.get s.store.grants id ≡ some g → IsSound g
  pub asked :
      (id : String) (r : Request)
      → JsMap.get s.store.requests id ≡ some r
      → IsDrawn env "req" s.ticks id

-- Only a grant's use count, status and date of revocation change; use ends when it is no longer
-- active, and revocation is for good.
pub record GrantLater (g g' : Grant) : Type 0 where
  pub fixed :
      record g' { usage_count = g.usage_count; status = g.status; revoked_at = g.revoked_at } ≡ g
  pub grows : g.usage_count ≤ g'.usage_count
  pub frozen :
      same_status g.status active ≡ false
      → (g'.usage_count ≡ g.usage_count) × (same_status g'.status active ≡ false)
  pub stays_revoked : g.status ≡ revoked → g'.status ≡ revoked

-- A request that was answered stays as it is.
pub record RequestLater (r r' : Request) : Type 0 where
  pub fixed :
      record r' { status = r.status; grant_id = r.grant_id; resolved_at = r.resolved_at } ≡ r
  pub settled : same_status r.status pending ≡ false → r' ≡ r

pub record Evolves (env : Env) (s s' : Service) : Type 0 where
  pub valid : IsValid env s'
  pub ticks : s.ticks ≤ s'.ticks
  pub grants :
      (id : String) (g : Grant)
      → JsMap.get s.store.grants id ≡ some g
      → (g' : Grant) × (JsMap.get s'.store.grants id ≡ some g') × GrantLater g g'
  pub requests :
      (id : String) (r : Request)
      → JsMap.get s.store.requests id ≡ some r
      → (r' : Request) × (JsMap.get s'.store.requests id ≡ some r') × RequestLater r r'
  pub consumed :
      (jti : String) → includes s.store.consumed jti ≡ true → includes s'.store.consumed jti ≡ true

pub GrantLater-refl : (g : Grant) → GrantLater g g
GrantLater-refl g = record {
  fixed = refl;
  grows = omega arith;
  frozen = λ h. (refl, h);
  stays_revoked = λ h. h;
}

pub GrantLater-trans : (a b c : Grant) → GrantLater a b → GrantLater b c → GrantLater a c
GrantLater-trans a b c p q = record {
  fixed =
      ap
        (λ (g : Grant). record g {
          usage_count = a.usage_count;
          status = a.status;
          revoked_at = a.revoked_at;
        })
        q.fixed
      ∙ p.fixed;
  grows = omega arith;
  frozen = λ h. let (u, i) = p.frozen h in let (v, j) = q.frozen i in (v ∙ u, j);
  stays_revoked = λ h. q.stays_revoked (p.stays_revoked h);
}

pub RequestLater-refl : (r : Request) → RequestLater r r
RequestLater-refl r = record { fixed = refl; settled = λ h. refl }

pub RequestLater-trans : (a b c : Request) → RequestLater a b → RequestLater b c → RequestLater a c
RequestLater-trans a b c p q = record {
  fixed =
      ap
        (λ (r : Request). record r {
          status = a.status;
          grant_id = a.grant_id;
          resolved_at = a.resolved_at;
        })
        q.fixed
      ∙ p.fixed;
  settled = λ h. let e : b ≡ a = p.settled h in q.settled (rw e h) ∙ e;
}

pub Evolves-refl : (env : Env) (s : Service) → IsValid env s → Evolves env s s
Evolves-refl env s v = record {
  valid = v;
  ticks = omega arith;
  grants = λ id g h. (g, h, GrantLater-refl g);
  requests = λ id r h. (r, h, RequestLater-refl r);
  consumed = λ jti h. h;
}

pub Evolves-trans :
    (env : Env) (s t u : Service) → Evolves env s t → Evolves env t u → Evolves env s u
Evolves-trans env s t u p q = record {
  valid = q.valid;
  ticks = omega (arith, p.ticks, q.ticks);
  grants = λ id a h.
      let (b, hb, ab) = p.grants id a h in
      let (c, hc, bc) = q.grants id b hb in (c, hc, GrantLater-trans a b c ab bc);
  requests = λ id a h.
      let (b, hb, ab) = p.requests id a h in
      let (c, hc, bc) = q.requests id b hb in (c, hc, RequestLater-trans a b c ab bc);
  consumed = λ jti h. q.consumed jti (p.consumed jti h);
}
