-- ===== src/Authority/History/Answers.antt =====
-- The owner's answers to requests, and uses of tokens, take a valid state to a later one: these
-- depend on what was read at their start.
use trustid.Base.{
  ℕ, ◌≡◌, refl, Bool, true, false, not, Option, none, some, String, arith, ◌==◌, Option-cases,
  Bool-cases, inl, inr, ◌||◌, ◌⊎◌, sym, subst,
}
use trustid.Base.JsMap
use trustid.Base.Effect.{Outcome, ok, failed, thrown, fail, ◌>>=◌}
use trustid.Base.Effect.Keeps.{Keeps, Leads, Leads-bind, Leads-then, Keeps-both}
use trustid.Authority.Types.{
  Grant, Request, Reason, Claims, Status, same_status, pending, consumed, revoked,
}
use trustid.Authority.Types
use trustid.Authority.Store.{get_grant, get_request, create_grant, CreateGrantInput}
use trustid.Authority.Service.Env.{Env, Service, ask, read_store, now_fn, insert_grant, is_own_app}
use trustid.Authority.Service.Approve.{
  ApproveOptions, resolve, refuse_own, refuse_payment, approved_grant, owned_request, approve_open,
  approve_found, approve_request, deny_open, deny_found, deny_request, lacks_step_up,
}
use trustid.Authority.Service.Use.{
  UseInput, deny_use, stop_use, stop_exceeded, reject_replay, consume_once, record_use, use_grant,
  use_found, use_claims, reject_token, use_verified, use_token,
}
use trustid.Authority.History.Collisions.{Collided, Stands, Becomes, Becomes-refl}
use trustid.Authority.History.Calls.{
  IsOpen, Keeps-of, ask-Keeps, now_fn-Keeps, insert_grant-Keeps, reserve_use-Keeps,
  resolve_request-Leads,
}
use trustid.Authority.History.Operations.{call_rules, issue_token_from_grant-Keeps}

module _ (env : Env) (start : Service) (id : String) where
  abbrev Asked : Service → Type 0
  Asked s = Becomes env start s × IsOpen id s

  Asked-weak : (s : Service) → Asked s → Becomes env start s
  Asked-weak s h = h.0

  now_fn-IsOpen : Keeps (IsOpen id) (now_fn env)
  unfolding now_fn ask
  now_fn-IsOpen = record { at = λ s h. record { waits = h.waits } }

  ask-IsOpen : {A : Type 0} (f : ℕ → A) → Keeps (IsOpen id) (ask f)
  unfolding ask
  ask-IsOpen f = record { at = λ s h. record { waits = h.waits } }

  insert_grant-IsOpen :
      (input : String → CreateGrantInput) → Keeps (IsOpen id) (insert_grant env input)
  unfolding insert_grant create_grant ask
  insert_grant-IsOpen input = record { at = λ s h. record { waits = h.waits } }

  resolve-Leads :
      (status : Status) (grant_id : Option String)
      → Leads Asked (Becomes env start) (resolve env id status grant_id)
  unfolding resolve
  resolve-Leads status grant_id =
      Leads-bind (ask env.system_date) _ Asked-weak
        (Keeps-both _ (ask-Keeps env start env.system_date) (ask-IsOpen env.system_date))
        (λ date. resolve_request-Leads env start date id status grant_id)

  insert_approved-Keeps :
      (owner : String) (r : Request) (opts : ApproveOptions) (now : ℕ)
      → Keeps (Becomes env start) (insert_grant env (approved_grant owner r opts now))
  unfolding approved_grant
  insert_approved-Keeps owner r opts now = insert_grant-Keeps env start _ (λ id. refl)

  approve_open-Leads :
      (owner : String) (r : Request) (opts : ApproveOptions)
      → Leads Asked (Becomes env start) (approve_open env owner id r opts)
  unfolding approve_open
  approve_open-Leads owner r opts =
      Leads-bind (now_fn env) _ Asked-weak (Keeps-both _ (now_fn-Keeps env start) now_fn-IsOpen)
        λ now.
          Leads-bind (insert_grant env (approved_grant owner r opts now)) _ Asked-weak
            (Keeps-both _ (insert_approved-Keeps owner r opts now) (insert_grant-IsOpen _))
            λ g.
              Leads-then (resolve env id Types.active (some g.id)) _ (resolve-Leads _ _)
                (λ q. search (call_rules, issue_token_from_grant-Keeps))

  refuse_payment-Leads :
      (owner : String) → Leads Asked (Becomes env start) (refuse_payment env owner id)
  unfolding refuse_payment
  refuse_payment-Leads owner =
      Leads-then (resolve env id Types.denied none) _ (resolve-Leads _ _) (λ q. search call_rules)

  deny_open-Leads :
      (owner : String) (r : Request) → Leads Asked (Becomes env start) (deny_open env owner id r)
  unfolding deny_open
  deny_open-Leads owner r =
      Leads-then (resolve env id Types.denied none) _ (resolve-Leads _ _) (λ q. search call_rules)

  refuse_own-Keeps :
      (owner : String) (r : Request) → Keeps (Becomes env start) (refuse_own env owner id r)
  unfolding refuse_own
  refuse_own-Keeps owner r = search call_rules

module _ (env : Env) where
  -- A request read as pending waits.
  read-IsOpen :
      (s : Service) (id : String) (r : Request)
      → JsMap.get s.store.requests id ≡ some r
      → not (same_status r.status pending) ≡ false
      → IsOpen id s
  read-IsOpen s id r found waiting = record { waits = λ q e. ground (arith, waiting) }

  approve_known-Becomes :
      (owner id : String) (opts : ApproveOptions) (s : Service) (r : Request)
      → Stands env s
      → JsMap.get s.store.requests id ≡ some r
      → Becomes env s (approve_found env owner id opts (some r) s).1
  unfolding approve_found fail
  approve_known-Becomes owner id opts s r v found =
      elim (Bool-cases (not (same_status r.status pending))) [
        | inl settled ↦ rw (settled, approve_found) (Becomes-refl env s v)
        | inr waiting ↦
            let here : Becomes env s s = Becomes-refl env s v in
            let waits : IsOpen id s = read-IsOpen s id r found waiting in
            elim (Bool-cases (is_own_app r.actor_type r.actor_id owner)) [
              | inl own ↦
                  rw (waiting, approve_found, own) ((refuse_own-Keeps env s id owner r).at s here)
              | inr other ↦ elim (Bool-cases (lacks_step_up r)) [
                | inl lacks ↦
                    rw (waiting, approve_found, other, lacks)
                      ((refuse_payment-Leads env s id owner).to s (here, waits))
                | inr fine ↦
                    rw (waiting, approve_found, other, fine)
                      ((approve_open-Leads env s id owner r opts).to s (here, waits))
              ]
            ]
      ]

  deny_known-Becomes :
      (owner id : String) (s : Service) (r : Request)
      → Stands env s
      → JsMap.get s.store.requests id ≡ some r
      → Becomes env s (deny_found env owner id (some r) s).1
  unfolding deny_found fail
  deny_known-Becomes owner id s r v found = elim (Bool-cases (not (same_status r.status pending))) [
    | inl settled ↦ rw (settled, deny_found) (Becomes-refl env s v)
    | inr waiting ↦
        rw (waiting, deny_found)
          ((deny_open-Leads env s id owner r).to s
            (Becomes-refl env s v, read-IsOpen s id r found waiting))
  ]

  pub approve_request-Becomes :
      (owner id : String) (opts : ApproveOptions) (s : Service)
      → Stands env s
      → Becomes env s (approve_request env owner id opts s).1
  unfolding approve_request read_store get_request owned_request ◌>>=◌
  approve_request-Becomes owner id opts s v = elim (Option-cases (JsMap.get s.store.requests id)) [
    | inl missing ↦
        rw (missing, approve_request, owned_request) (unfold approve_found in Becomes-refl env s v)
    | inr (r, found) ↦ elim (Bool-cases (r.owner_id == owner)) [
      | inl mine ↦
          rw (found, approve_request, owned_request, mine)
            (approve_known-Becomes owner id opts s r v found)
      | inr other ↦
          rw (found, approve_request, owned_request, other)
            (unfold approve_found in Becomes-refl env s v)
    ]
  ]

  pub deny_request-Becomes :
      (owner id : String) (s : Service)
      → Stands env s
      → Becomes env s (deny_request env owner id s).1
  unfolding deny_request read_store get_request owned_request ◌>>=◌
  deny_request-Becomes owner id s v = elim (Option-cases (JsMap.get s.store.requests id)) [
    | inl missing ↦
        rw (missing, deny_request, owned_request) (unfold deny_found in Becomes-refl env s v)
    | inr (r, found) ↦ elim (Bool-cases (r.owner_id == owner)) [
      | inl mine ↦
          rw (found, deny_request, owned_request, mine) (deny_known-Becomes owner id s r v found)
      | inr other ↦
          rw (found, deny_request, owned_request, other) (unfold deny_found in Becomes-refl env s v)
    ]
  ]

  pub deny_use-Keeps :
      {A : Type 0} (start : Service) (i : UseInput) (c : Claims) (r : Reason)
      → Keeps (Becomes env start) (deny_use env {A = A} i c r)
  unfolding deny_use
  deny_use-Keeps start i c r = search call_rules

  stop_use-Keeps :
      (start : Service) (i : UseInput) (c : Claims) (o : Option Reason)
      → Keeps (Becomes env start) (stop_use env i c o)
  unfolding stop_use
  stop_use-Keeps start i c none = search call_rules
  stop_use-Keeps start i c (some r) = deny_use-Keeps start i c r

  stop_exceeded-Keeps :
      (start : Service) (c : Claims) (g : Grant) (o : Option Reason)
      → Keeps (Becomes env start) (stop_exceeded env c g o)
  unfolding stop_exceeded
  stop_exceeded-Keeps start c g none = search call_rules
  stop_exceeded-Keeps start c g (some r) = search call_rules

  consume_once-Keeps :
      (start : Service) (c : Claims) (g : Grant) → Keeps (Becomes env start) (consume_once env c g)
  unfolding consume_once reject_replay
  consume_once-Keeps start c g = search call_rules

  record_use-Keeps :
      (start : Service) (i : UseInput) (c : Claims) (g : Grant)
      → Keeps (Becomes env start) (record_use env i c g)
  unfolding record_use
  record_use-Keeps start i c g = search call_rules

  or-eq-true_right : (a b : Bool) → b ≡ true → (a || b) ≡ true
  or-eq-true_right a b h = ground arith

  use_grant-Keeps :
      (start : Service) (i : UseInput) (c : Claims) (g : Grant)
      → Collided env start.ticks ⊎ (JsMap.get start.store.grants g.id ≡ some g)
      → Keeps (Becomes env start) (use_grant env i c g)
  unfolding use_grant
  use_grant-Keeps start i c g read =
      search
        (
          call_rules,
          deny_use-Keeps,
          stop_use-Keeps,
          stop_exceeded-Keeps,
          consume_once-Keeps,
          record_use-Keeps,
          λ (now : ℕ).
              reserve_use-Keeps env start g now (c.one_time || g.one_time) read
                (or-eq-true_right c.one_time g.one_time),
        )
        depth 20

  read_under_id :
      (s : Service) (id : String) (g : Grant)
      → JsMap.get s.store.grants id ≡ some g
      → Stands env s
      → Collided env s.ticks ⊎ (JsMap.get s.store.grants g.id ≡ some g)
  read_under_id s id g found (inl twice) = inl twice
  read_under_id s id g found (inr v) =
      inr (subst (λ k. JsMap.get s.store.grants k ≡ some g) (sym (v.keyed id g found)) found)

  use_claims-Becomes :
      (i : UseInput) (c : Claims) (s : Service)
      → Stands env s
      → Becomes env s (use_claims env i c s).1
  unfolding use_claims use_found read_store get_grant ◌>>=◌
  use_claims-Becomes i c s v = elim (Option-cases (JsMap.get s.store.grants c.grant_id)) [
    | inl missing ↦
        rw (missing, use_claims, use_found)
          ((deny_use-Keeps s i c Types.is_revoked).at s (Becomes-refl env s v))
    | inr (g, found) ↦
        rw (found, use_claims, use_found)
          ((use_grant-Keeps s i c g (read_under_id s c.grant_id g found v)).at s
            (Becomes-refl env s v))
  ]

  use_verified-Keeps :
      (start : Service) (i : UseInput) (o : Outcome Reason Claims)
      → Keeps (Becomes env start) (use_verified env i o)
  unfolding use_verified reject_token
  use_verified-Keeps start i (ok c) = Keeps-of env start _ (use_claims-Becomes i c)
  use_verified-Keeps start i (failed r) = search call_rules
  use_verified-Keeps start i (thrown m) = search call_rules

  pub use_token-Keeps :
      (start : Service) (i : UseInput) → Keeps (Becomes env start) (use_token env i)
  unfolding use_token
  use_token-Keeps start i = search (call_rules, use_verified-Keeps)
