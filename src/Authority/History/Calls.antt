-- ===== src/Authority/History/Calls.antt =====
-- The calls of the service's helpers and of its store keep an evolution going.
use trustid.Base.{
  ℕ, suc, ◌≤◌, ◌≡◌, ◌⊎◌, refl, ap, Bool, true, false, Option, none, some, List, [], ◌∷◌, ◌++◌,
  String, arith, includes, eq_refl, Option-cases, Bool-cases, inl, inr, get_or,
}
use trustid.Base.JsMap
use trustid.Base.Effect.{Outcome, ok, failed, thrown}
use trustid.Base.Effect.Keeps.{Keeps, Leads, Keeps-pure, Keeps-fail, Keeps-throw}
use trustid.Authority.Types.{Grant, Request, Status, Reason, pending, revoked, same_status}
use trustid.Authority.Store.{
  Store, AuditType, DetailValue, create_grant, create_request, CreateGrantInput, CreateRequestInput,
  to_grant, reserve_use, is_unavailable, take_use, try_consume_jti, resolve_request,
  update_grant_status,
}
use trustid.Authority.Service.Env.{
  Env, random_id, Service, M, AuditFields, ask, run_store, read_store, or_else, now_fn, new_id,
  audit, insert_grant, insert_request,
}
use trustid.Authority.Service.Issue.{lift, stop_for}
use trustid.Authority.Service.Use.{min_count}
use trustid.Authority.History.Evolution.{
  IsSound, IsValid, GrantLater, Evolves, Evolves-refl, Evolves-trans,
}
use trustid.Authority.History.Collisions.{
  Collided, Collided-later, Stands, Becomes, Becomes-trans, Becomes-step,
}
use trustid.Authority.History.Actions.{
  unless_repeated, aside-Evolves, consumed-Evolves, with_grant-Evolves, with_request-Evolves,
  with_new_grant-Evolves, with_new_request-Evolves,
}

pub IsSound-to_grant : (now : ℕ) (input : CreateGrantInput) → IsSound (to_grant now input)
unfolding to_grant
IsSound-to_grant now input = record {
  capped = λ m h. omega arith;
  once = λ h. omega arith;
  unused = λ h a. refl;
}

includes-append :
    (xs : List String) (x j : String) → includes xs j ≡ true → includes (xs ++ x ∷ []) j ≡ true
includes-append [] x j h = ground arith
includes-append (y ∷ ys) x j h = ground (arith, includes-append ys x j)

pub includes-append_self : (xs : List String) (x : String) → includes (xs ++ x ∷ []) x ≡ true
includes-append_self [] x = ground (arith, eq_refl x)
includes-append_self (y ∷ ys) x = ground (arith, includes-append_self ys x)

-- The request under an id, if any, waits for its answer.
pub record IsOpen (id : String) (s : Service) : Type 0 where
  pub waits :
      (r : Request) → JsMap.get s.store.requests id ≡ some r → same_status r.status pending ≡ true

module _ (env : Env) where
  try_consume_jti-Evolves :
      (jti : String) (s : Service)
      → IsValid env s
      → Evolves env s (record s { store = (try_consume_jti jti s.store).1 })
  unfolding try_consume_jti
  try_consume_jti-Evolves jti s v = elim (Bool-cases (includes s.store.consumed jti)) [
    | inl old ↦ rw old (Evolves-refl env s v)
    | inr new ↦ rw new (
        consumed-Evolves env s (s.store.consumed ++ jti ∷ []) v
          (λ j h. includes-append s.store.consumed jti j h))
  ]

  revoke_later :
      (id : String) (date : Option (Option ℕ)) (g : Grant)
      → IsSound g
      → let g' = record g { status = revoked; revoked_at = get_or date g.revoked_at } in
        GrantLater g g' × IsSound g' × (g'.id ≡ g.id)
  revoke_later id date g i = (
    record {
      fixed = refl;
      grows = omega arith;
      frozen = λ h. (refl, refl);
      stays_revoked = λ h. refl;
    },
    record { capped = i.capped; once = i.once; unused = λ o e. cc },
    refl,
  )

  revoke-Evolves :
      (id : String) (date : Option (Option ℕ)) (s : Service)
      → IsValid env s
      → Evolves env s (record s { store = (update_grant_status id revoked date s.store).1 })
  unfolding update_grant_status
  revoke-Evolves id date s v = elim (Option-cases (JsMap.get s.store.grants id)) [
    | inl missing ↦ rw (missing, update_grant_status) (Evolves-refl env s v)
    | inr (g, found) ↦
        rw (found, update_grant_status)
          (with_grant-Evolves env s id
            (λ h. record h { status = revoked; revoked_at = get_or date h.revoked_at }) v
            (λ h e. revoke_later id date h (v.sound id h e)))
  ]

  resolve_request-Evolves :
      (date : ℕ) (id : String) (status : Status) (grant_id : Option String) (s : Service)
      → IsValid env s
      → IsOpen id s
      → Evolves env s (record s { store = (resolve_request date id status grant_id s.store).1 })
  unfolding resolve_request
  resolve_request-Evolves date id status grant_id s v open_ =
      elim (Option-cases (JsMap.get s.store.requests id)) [
        | inl missing ↦ rw (missing, resolve_request) (Evolves-refl env s v)
        | inr (r, found) ↦
            rw (found, resolve_request)
              (with_request-Evolves env s id
                (λ q. record q { status = status; grant_id = grant_id; resolved_at = some date }) v
                (λ q e. record { fixed = refl; settled = λ h. cc (open_.waits q e, h) }))
      ]

  take_later :
      (g h : Grant) (version now : ℕ) (once : Bool)
      → (g.one_time ≡ true → once ≡ true)
      → (h.limits ≡ g.limits)
      → (h.one_time ≡ g.one_time)
      → is_unavailable h version now (min_count g.limits) ≡ false
      → IsSound h
      → GrantLater h (take_use once h) × IsSound (take_use once h) × ((take_use once h).id ≡ h.id)
  unfolding is_unavailable take_use
  take_later g h version now once spends limits one free i = (
    record {
      fixed = refl;
      grows = omega arith;
      frozen = λ e. ground arith;
      stays_revoked = λ e. ground arith;
    },
    record {
      capped = λ m e. ground arith;
      once = λ o. ground (arith, i.unused);
      unused = λ o a. ground arith;
    },
    refl,
  )

  reserve_use-Evolves :
      (g : Grant) (now : ℕ) (once : Bool) (s : Service)
      → (g.one_time ≡ true → once ≡ true)
      → IsValid env s
      → (h : Grant) → JsMap.get s.store.grants g.id ≡ some h
      → h.limits ≡ g.limits
      → h.one_time ≡ g.one_time
      → Evolves env s (record s {
        store = (reserve_use g.id g.grant_version now (min_count g.limits) once s.store).1;
      })
  unfolding reserve_use
  reserve_use-Evolves g now once s spends v h found limits one =
      elim (Bool-cases (is_unavailable h g.grant_version now (min_count g.limits))) [
        | inl refused ↦ rw (found, reserve_use, refused) (Evolves-refl env s v)
        | inr free ↦
            rw (found, reserve_use, free)
              (with_grant-Evolves env s g.id (take_use once) v (λ k e.
                let same : k ≡ h = cc (e, found) in
                rw same (
                  take_later g h g.grant_version now once spends limits one free
                    (v.sound g.id h found))))
      ]

module _ (env : Env) (start : Service) where
  -- A method that goes on from every valid state goes on from the start.
  pub Keeps-of :
      {A : Type 0} (m : M A)
      → ((s : Service) → Stands env s → Becomes env s (m s).1)
      → Keeps (Becomes env start) m
  Keeps-of m step = record { at = λ s h. Becomes-trans env start s (m s).1 h (step s) }

  -- A call that draws no id.
  Keeps-by :
      {A : Type 0} (m : M A)
      → ((s : Service) → s.ticks ≤ (m s).1.ticks)
      → ((s : Service) → IsValid env s → Evolves env s (m s).1)
      → Keeps (Becomes env start) m
  Keeps-by m le step = Keeps-of m λ s. Becomes-step env s (m s).1 (le s) (λ v. inr (step s v))

  pub ask-Keeps : {A : Type 0} (f : ℕ → A) → Keeps (Becomes env start) (ask f)
  unfolding ask
  ask-Keeps f =
      Keeps-by (ask f) (λ s. omega arith)
        (λ s v. aside-Evolves env s (suc s.ticks) s.store.audit v (omega arith))

  pub read_store-Keeps : {A : Type 0} (f : Store → A) → Keeps (Becomes env start) (read_store f)
  unfolding read_store
  read_store-Keeps f = record { at = λ s h. h }

  pub or_else-Keeps :
      {A : Type 0} (m : M A) (o : Option A)
      → Keeps (Becomes env start) m
      → Keeps (Becomes env start) (or_else m o)
  unfolding or_else
  or_else-Keeps m none k = k
  or_else-Keeps m (some a) k = Keeps-pure a

  pub lift-Keeps : {A : Type 0} (o : Outcome Reason A) → Keeps (Becomes env start) (lift o)
  unfolding lift
  lift-Keeps (ok a) = Keeps-pure a
  lift-Keeps (failed e) = Keeps-fail e
  lift-Keeps (thrown m) = Keeps-throw m

  pub stop_for-Keeps : (o : Option Reason) → Keeps (Becomes env start) (stop_for o)
  unfolding stop_for
  stop_for-Keeps none = Keeps-pure tt
  stop_for-Keeps (some r) = Keeps-fail r

  pub now_fn-Keeps : Keeps (Becomes env start) (now_fn env)
  unfolding now_fn
  now_fn-Keeps = ask-Keeps env.now_fn

  pub new_id-Keeps : (prefix : String) → Keeps (Becomes env start) (new_id env prefix)
  unfolding new_id
  new_id-Keeps prefix = ask-Keeps (random_id env prefix)

  pub audit-Keeps :
      (type : AuditType) (fields : AuditFields) (detail : List (String × DetailValue))
      → Keeps (Becomes env start) (audit env type fields detail)
  unfolding audit
  audit-Keeps type fields detail =
      Keeps-by (audit env type fields detail) (λ s. omega arith)
        (λ s v. aside-Evolves env s (suc (suc s.ticks)) _ v (omega arith))

  pub insert_grant-Keeps :
      (input : String → CreateGrantInput)
      → ((id : String) → (input id).id ≡ id)
      → Keeps (Becomes env start) (insert_grant env input)
  unfolding insert_grant create_grant to_grant ask
  insert_grant-Keeps input named = Keeps-of (insert_grant env input) λ s.
      Becomes-step env s (insert_grant env input s).1 (omega arith) λ v.
        unless_repeated env s (suc (suc s.ticks)) v (omega arith) "auth" (omega arith) λ new.
          with_new_grant-Evolves env s (suc (suc s.ticks)) v (omega arith) _ new (named _)
            (IsSound-to_grant _ (input (random_id env "auth" s.ticks)))

  pub insert_request-Keeps :
      (input : String → CreateRequestInput)
      → ((id : String) → (input id).id ≡ id)
      → Keeps (Becomes env start) (insert_request env input)
  unfolding insert_request create_request ask
  insert_request-Keeps input named = Keeps-of (insert_request env input) λ s.
      Becomes-step env s (insert_request env input s).1 (omega arith) λ v.
        unless_repeated env s (suc (suc s.ticks)) v (omega arith) "req" (omega arith)
          λ new. with_new_request-Evolves env s (suc (suc s.ticks)) v (omega arith) _ new (named _)

  pub try_consume_jti-Keeps :
      (jti : String) → Keeps (Becomes env start) (run_store (try_consume_jti jti))
  unfolding run_store
  try_consume_jti-Keeps jti =
      Keeps-by (run_store (try_consume_jti jti)) (λ s. omega arith)
        (try_consume_jti-Evolves env jti)

  -- The grant was read under its id at the start: its terms are still those.
  pub reserve_use-Keeps :
      (g : Grant) (now : ℕ) (once : Bool)
      → Collided env start.ticks ⊎ (JsMap.get start.store.grants g.id ≡ some g)
      → (g.one_time ≡ true → once ≡ true)
      → Keeps
          (Becomes env start)
          (run_store (reserve_use g.id g.grant_version now (min_count g.limits) once))
  unfolding run_store
  reserve_use-Keeps g now once (inl twice) spends = record {
    at = λ s p. elim p [ inl again ↦ inl again | inr q ↦ inl (Collided-later env q.ticks twice) ];
  }
  reserve_use-Keeps g now once (inr read) spends = record {
    at = λ s p. elim p [
      | inl twice ↦ inl twice
      | inr q ↦
          let (h, found, later) = q.grants g.id g read in
          inr (
            Evolves-trans env start s _ q (
              reserve_use-Evolves env g now once s spends q.valid h found
                (ap (λ (x : Grant). x.limits) later.fixed)
                (ap (λ (x : Grant). x.one_time) later.fixed)))
    ];
  }

  pub resolve_request-Leads :
      (date : ℕ) (id : String) (status : Status) (grant_id : Option String)
      → Leads
          (λ s. Becomes env start s × IsOpen id s)
          (Becomes env start)
          (run_store (resolve_request date id status grant_id))
  unfolding run_store
  resolve_request-Leads date id status grant_id = record {
    to = λ s h. elim h.0 [
      | inl twice ↦ inl twice
      | inr p ↦ inr (
          Evolves-trans env start s _ p
            (resolve_request-Evolves env date id status grant_id s p.valid h.1))
    ];
  }

  pub update_grant_status-Keeps :
      (id : String) (date : Option (Option ℕ))
      → Keeps (Becomes env start) (run_store (update_grant_status id revoked date))
  unfolding run_store
  update_grant_status-Keeps id date =
      Keeps-by (run_store (update_grant_status id revoked date)) (λ s. omega arith)
        (revoke-Evolves env id date)
