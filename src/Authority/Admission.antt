-- ===== src/Authority/Admission.antt =====
-- What an accepted `useToken` implies.
use trustid.Base.{
  ℕ, suc, ◌<◌, ◌≤◌, ◌⊎◌, ◌≡◌, ◌∙◌, refl, true, false, ◌||◌, none, some, [], ◌∷◌, ◌++◌, arith,
  Option-cases, inl, inr, sym, subst, eq_iff, includes,
}
use trustid.Base.JsMap
use trustid.Base.JsMap.{get-modify_self}
use trustid.Base.Effect.{ok, ◌>>=◌}
use trustid.Authority.Store.{take_use, reserve_use, try_consume_jti}
use trustid.Authority.Types.{
  Grant, Claims, Date, at, past, invalid, is_valid, actor_key, allow, allow_with_limits, active,
  revoked, same_status,
}
use trustid.Base.Number.{nat, num_eq}
use trustid.Authority.History.Evolution.{IsValid}
use trustid.Authority.History.Calls.{includes-append_self}
use trustid.Authority.Policy.{limit_exceeded}
use trustid.Authority.Service.Env.{run_store, Env, Service, audit, now_fn, grant_is_live}
use trustid.Authority.Service.Use.{
  reject_replay, consume_once, record_use, UseInput, Used, deny_use, stop_use, stop_exceeded,
  has_condition, use_grant, verify_input, use_found, use_claims, use_verified, use_token, min_count,
  reject_token, refuse_use,
}
use trustid.Authority.Service.Issue.{lift}
use trustid.Authority.Tokens.{verify_authority_token}
use trustid.Authority.Store.{get_grant}
use trustid.Authority.Service.Env.{read_store}
use trustid.Authority.Revocation.{VerifiesAs}
use trustid.Base.Effect.{Outcome-cases}

-- The moment lies in the grant's interval, whose ends are dates.
pub record IsWithin (g : Grant) (now : ℕ) : Type 0 where
  pub closes : ℕ
  pub from_given : is_valid g.valid_from ≡ true
  pub until_date : g.valid_until ≡ at closes
  pub opened : (opens : ℕ) → g.valid_from ≡ at opens → opens ≤ now
  pub not_closed : now < closes

-- When a grant authorises the use of a token, in terms of the grant, the claims and the use.
pub record IsAuthorised (g : Grant) (c : Claims) (i : UseInput) (now : ℕ) : Type 0 where
  pub status : g.status ≡ active
  pub interval : IsWithin g now
  pub version : num_eq (nat g.grant_version) c.grant_version ≡ true
  pub owner : g.owner_id ≡ c.sub
  pub actor : actor_key g.actor_type g.actor_id ≡ c.actor
  pub audience : g.audience ≡ c.aud
  pub action : includes g.actions i.expected_action ≡ true
  pub resource : includes g.resources i.expected_resource ≡ true
  pub approved : (g.approval_mode ≡ allow) ⊎ (g.approval_mode ≡ allow_with_limits)
  pub unconditional : has_condition g.conditions ≡ false
  pub counted : (m : ℕ) → min_count g.limits ≡ some m → g.usage_count < m
  pub not_exceeded : limit_exceeded g.limits g.usage_count ≡ none

-- What an accepted use was based on, and what it changed.
pub record IsAccepted (env : Env) (s : Service) (i : UseInput) (u : Used) : Type 0 where
  pub claims : Claims
  pub verified : VerifiesAs env s i claims
  pub grant : Grant
  pub found : JsMap.get s.store.grants claims.grant_id ≡ some grant
  pub authorised : IsAuthorised grant claims i (env.now_fn (suc s.ticks))
  pub counted :
      JsMap.get (use_token env i s).1.store.grants claims.grant_id
      ≡ some (take_use (claims.one_time || grant.one_time) grant)
  pub spent :
      (claims.one_time || grant.one_time) ≡ true
      → (includes s.store.consumed claims.jti ≡ false)
        × (includes (use_token env i s).1.store.consumed claims.jti ≡ true)
  pub grant_id : u.grant_id ≡ grant.id
  pub jti : u.jti ≡ claims.jti

live-IsWithin :
    (g : Grant) (now : ℕ) → grant_is_live g now ≡ true → (g.status ≡ active) × IsWithin g now
unfolding grant_is_live
live-IsWithin g now h = go g.valid_from g.valid_until refl refl
  where
    go : (f t : Date) → g.valid_from ≡ f → g.valid_until ≡ t → (g.status ≡ active) × IsWithin g now
    go (at a) (at b) p q = (
      ground arith,
      record {
        closes = b;
        from_given = rw p refl;
        until_date = q;
        opened = λ o r. let same : at a ≡ at o = sym p ∙ r in ground arith;
        not_closed = ground arith;
      },
    )
    go (past a) (at b) p q = (
      ground arith,
      record {
        closes = b;
        from_given = rw p refl;
        until_date = q;
        opened = λ o r. let same : past a ≡ at o = sym p ∙ r in absurd cc;
        not_closed = ground arith;
      },
    )
    go (at a) (past b) p q = absurd (ground arith)
    go (past a) (past b) p q = absurd (ground arith)
    go (past a) invalid p q = absurd (ground arith)
    go invalid t p q = absurd (ground arith)
    go (at a) invalid p q = absurd (ground arith)

abbrev ticked : Service → Service
ticked s = record s { ticks = suc s.ticks }

module _ (env : Env) where
  use_grant_tests :
      (s : Service) (i : UseInput) (c : Claims) (g : Grant) (u : Used)
      → (use_grant env i c g s).0 ≡ ok u
      → (same_status g.status revoked ≡ false)
        × (grant_is_live g (env.now_fn s.ticks) ≡ true)
        × (refuse_use g c i ≡ none)
        × (limit_exceeded g.limits g.usage_count ≡ none)
  unfolding use_grant deny_use stop_use stop_exceeded now_fn ◌>>=◌ audit
  use_grant_tests s i c g u h = ground arith

  use_grant_writes :
      (s : Service) (i : UseInput) (c : Claims) (g : Grant) (u : Used)
      → JsMap.get s.store.grants g.id ≡ some g
      → (use_grant env i c g s).0 ≡ ok u
      → ((use_grant env i c g s).1.store.grants
          ≡ JsMap.modify s.store.grants g.id (take_use (c.one_time || g.one_time)))
        × ((use_grant env i c g s).1.store.requests ≡ s.store.requests)
        × (u.grant_id ≡ g.id)
        × (u.jti ≡ c.jti)
  unfolding use_grant deny_use stop_use stop_exceeded consume_once reject_replay record_use now_fn
      run_store reserve_use try_consume_jti ◌>>=◌ audit
  use_grant_writes s i c g u found h = ground arith

  use_grant_consumes :
      (s : Service) (i : UseInput) (c : Claims) (g : Grant) (u : Used)
      → JsMap.get s.store.grants g.id ≡ some g
      → (use_grant env i c g s).0 ≡ ok u
      → (c.one_time || g.one_time) ≡ true
      → (includes s.store.consumed c.jti ≡ false)
        × ((use_grant env i c g s).1.store.consumed ≡ s.store.consumed ++ c.jti ∷ [])
  unfolding use_grant deny_use stop_use stop_exceeded consume_once reject_replay record_use now_fn
      run_store reserve_use try_consume_jti ◌>>=◌ audit
  use_grant_consumes s i c g u found h once = ground arith

  use_grant_room :
      (s : Service) (i : UseInput) (c : Claims) (g : Grant) (u : Used) (m : ℕ)
      → JsMap.get s.store.grants g.id ≡ some g
      → (use_grant env i c g s).0 ≡ ok u
      → min_count g.limits ≡ some m
      → g.usage_count < m
  unfolding use_grant deny_use stop_use stop_exceeded consume_once reject_replay record_use now_fn
      run_store reserve_use try_consume_jti ◌>>=◌ audit
  use_grant_room s i c g u m found h cap = ground arith

  -- An accepted call verified a token and found the grant that it names.
  use_token_inv :
      (s : Service) (i : UseInput) (u : Used)
      → (use_token env i s).0 ≡ ok u
      → (c : Claims) × VerifiesAs env s i c
        × ((g : Grant) × (JsMap.get s.store.grants c.grant_id ≡ some g)
            × (use_token env i s ≡ use_grant env i c g (ticked s)))
  unfolding use_token now_fn read_store get_grant use_claims reject_token audit lift ◌>>=◌ use_found
      use_verified deny_use
  use_token_inv s i u h =
      elim (Outcome-cases
        (verify_authority_token env.jose (verify_input env i (env.now_fn s.ticks)))) [
          | inl (c, verified) ↦ elim (Option-cases (JsMap.get s.store.grants c.grant_id)) [
            | inl missing ↦ absurd (ground arith)
            | inr (g, found) ↦ (
              c,
              verified,
              (g, found, rw (verified, use_token, use_verified) (rw (found, use_found) refl)),
            )
          ]
          | inr (inl (r, refused)) ↦ absurd (ground arith)
          | inr (inr (m, broken)) ↦ absurd (ground arith)
        ]

  use_grant-IsAuthorised :
      (s : Service) (i : UseInput) (c : Claims) (g : Grant) (u : Used)
      → JsMap.get s.store.grants g.id ≡ some g
      → (use_grant env i c g s).0 ≡ ok u
      → IsAuthorised g c i (env.now_fn s.ticks)
  unfolding refuse_use
  use_grant-IsAuthorised s i c g u found h =
      let (not_gone, live, bound, fits) = use_grant_tests s i c g u h in
      let (current, within) = live-IsWithin g (env.now_fn s.ticks) live in
      record {
        status = current;
        interval = within;
        version = ground arith;
        owner = ground (arith, eq_iff g.owner_id c.sub);
        actor = ground (arith, eq_iff (actor_key g.actor_type g.actor_id) c.actor);
        audience = ground (arith, eq_iff g.audience c.aud);
        action = ground arith;
        resource = ground arith;
        approved = ground arith;
        unconditional = ground arith;
        counted = λ m e. use_grant_room s i c g u m found h e;
        not_exceeded = fits;
      }

  -- A use that `useToken` accepts is authorised: its token verifies, and the grant that the claims
  -- name is active and within its interval at the clock's second reading, of the claimed owner, actor,
  -- audience and version, covers the expected action and resource, is approved without conditions,
  -- and is not used up. The grant has then been used once more, and for a one-time token or grant the
  -- token id, new until then, is consumed.
  pub use_token-IsAccepted :
      (s : Service) (i : UseInput) (u : Used)
      → IsValid env s
      → (use_token env i s).0 ≡ ok u
      → IsAccepted env s i u
  use_token-IsAccepted s i u v h =
      let (c, verified, more) = use_token_inv s i u h in
      let (g, found, same) = more in
      let accepted : (use_grant env i c g (ticked s)).0 ≡ ok u = rw (← same) h in
      let under : JsMap.get s.store.grants g.id ≡ some g =
        subst (λ k. JsMap.get s.store.grants k ≡ some g) (sym (v.keyed c.grant_id g found)) found in
      let (written, kept, named, once) = use_grant_writes (ticked s) i c g u under accepted in
      record {
        claims = c;
        verified = verified;
        grant = g;
        found = found;
        authorised = use_grant-IsAuthorised (ticked s) i c g u under accepted;
        counted = rw same (
            rw written (
              subst
                (λ k.
                  JsMap.get (JsMap.modify s.store.grants g.id (take_use (c.one_time || g.one_time)))
                    k
                  ≡ some (take_use (c.one_time || g.one_time) g))
                (v.keyed c.grant_id g found)
                (get-modify_self s.store.grants g.id (take_use (c.one_time || g.one_time)) g
                  under)));
        spent = λ spends.
            let (new, added) = use_grant_consumes (ticked s) i c g u under accepted spends in
            (new, rw same (rw added (includes-append_self s.store.consumed c.jti)));
        grant_id = named;
        jti = once;
      }
