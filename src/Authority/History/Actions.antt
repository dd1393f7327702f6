-- ===== src/Authority/History/Actions.antt =====
-- The calls that operations are made of, as steps of an evolution.
use trustid.Base.{
  ℕ, ◌≤◌, ◌<◌, ◌≡◌, ◌≢◌, ◌⊎◌, refl, sym, ◌∙◌, ap, true, some, List, String, arith, includes, ◌==◌,
  eq_iff, Bool-cases, inl, inr,
}
use trustid.Base.JsMap
use trustid.Base.JsMap.{get-set, get-modify, get-set_inv, get-modify_inv}
use trustid.Authority.Types.{Grant, Request}
use trustid.Authority.Store.{AuditEvent}
use trustid.Authority.Service.Env.{Env, random_id, Service}
use trustid.Authority.History.Collisions.{Collided, drawn_before}
use trustid.Authority.History.Evolution.{
  IsSound, IsDrawn, IsValid, GrantLater, GrantLater-refl, RequestLater, RequestLater-refl, Evolves,
}

IsDrawn-later :
    (env : Env) (prefix : String) {m n : ℕ} {id : String}
    → m ≤ n
    → IsDrawn env prefix m id
    → IsDrawn env prefix n id
IsDrawn-later env prefix le (k, lt, e) = (k, omega arith, e)

-- The state with other clocks and another audit log.
abbrev pub aside : Service → ℕ → List AuditEvent → Service
aside s n log = record s { ticks = n; store = record s.store { audit = log } }

module _ (env : Env) where
  pub aside-Evolves :
      (s : Service) (n : ℕ) (log : List AuditEvent)
      → IsValid env s
      → s.ticks ≤ n
      → Evolves env s (aside s n log)
  aside-Evolves s n log v le = record {
    valid = record {
      keyed = v.keyed;
      drawn = λ id g h. IsDrawn-later env "auth" le (v.drawn id g h);
      sound = v.sound;
      asked = λ id r h. IsDrawn-later env "req" le (v.asked id r h);
    };
    ticks = le;
    grants = λ id g h. (g, h, GrantLater-refl g);
    requests = λ id r h. (r, h, RequestLater-refl r);
    consumed = λ jti h. h;
  }

  abbrev with_consumed : Service → List String → Service
  with_consumed s c = record s { store = record s.store { consumed = c } }

  pub consumed-Evolves :
      (s : Service) (c : List String)
      → IsValid env s
      → ((jti : String) → includes s.store.consumed jti ≡ true → includes c jti ≡ true)
      → Evolves env s (with_consumed s c)
  consumed-Evolves s c v more = record {
    valid = record { keyed = v.keyed; drawn = v.drawn; sound = v.sound; asked = v.asked };
    ticks = omega arith;
    grants = λ id g h. (g, h, GrantLater-refl g);
    requests = λ id r h. (r, h, RequestLater-refl r);
    consumed = more;
  }

  -- The object under one key is changed to a later state of it.
  abbrev with_grant : Service → String → (Grant → Grant) → Service
  with_grant s id f = record s {
    store = record s.store { grants = JsMap.modify s.store.grants id f };
  }

  module _ (s : Service) (key : String) (f : Grant → Grant) (v : IsValid env s)
      (later : (g : Grant)
        → JsMap.get s.store.grants key ≡ some g
        → GrantLater g (f g) × IsSound (f g) × ((f g).id ≡ g.id)) where
    same_or_later :
        (id : String) (g : Grant)
        → JsMap.get s.store.grants id ≡ some g
        → (g' : Grant) × (JsMap.get (JsMap.modify s.store.grants key f) id ≡ some g')
          × GrantLater g g'
    same_or_later id g h = elim (Bool-cases (key == id)) [
      | inl same ↦
          let e : key ≡ id = (eq_iff key id).0 same in
          (f g, rw get-modify (rw same (rw h refl)), (later g (rw e h)).0)
      | inr other ↦ (g, rw get-modify (rw other h), GrantLater-refl g)
    ]

    from_before :
        (id : String) (g' : Grant)
        → JsMap.get (JsMap.modify s.store.grants key f) id ≡ some g'
        → (g : Grant) × (JsMap.get s.store.grants id ≡ some g) × IsSound g' × (g'.id ≡ g.id)
    from_before id g' h =
        let (g, found, which) = get-modify_inv s.store.grants key id f g' h in
        elim which [
          | inl (same, e) ↦
              let (l, i, k) = later g (rw same found) in
              (g, found, rw e i, ap (λ (x : Grant). x.id) e ∙ k)
          | inr e ↦ (g, found, rw e (v.sound id g found), ap (λ (x : Grant). x.id) e)
        ]

    pub with_grant-Evolves : Evolves env s (with_grant s key f)
    with_grant-Evolves = record {
      valid = record {
        keyed = λ id g h. let (b, hb, i, e) = from_before id g h in e ∙ v.keyed id b hb;
        drawn = λ id g h. let (b, hb, i, e) = from_before id g h in v.drawn id b hb;
        sound = λ id g h. let (b, hb, i, e) = from_before id g h in i;
        asked = v.asked;
      };
      ticks = omega arith;
      grants = same_or_later;
      requests = λ id r h. (r, h, RequestLater-refl r);
      consumed = λ jti h. h;
    }

  -- A request is changed to a later state of it.
  abbrev with_request : Service → String → (Request → Request) → Service
  with_request s id f = record s {
    store = record s.store { requests = JsMap.modify s.store.requests id f };
  }

  module _ (s : Service) (key : String) (f : Request → Request) (v : IsValid env s)
      (later : (r : Request) → JsMap.get s.store.requests key ≡ some r → RequestLater r (f r)) where
    request_later :
        (id : String) (r : Request)
        → JsMap.get s.store.requests id ≡ some r
        → (r' : Request) × (JsMap.get (JsMap.modify s.store.requests key f) id ≡ some r')
          × RequestLater r r'
    request_later id r h = elim (Bool-cases (key == id)) [
      | inl same ↦
          let e : key ≡ id = (eq_iff key id).0 same in
          (f r, rw get-modify (rw same (rw h refl)), later r (rw e h))
      | inr other ↦ (r, rw get-modify (rw other h), RequestLater-refl r)
    ]

    pub with_request-Evolves : Evolves env s (with_request s key f)
    with_request-Evolves = record {
      valid = record {
        keyed = v.keyed;
        drawn = v.drawn;
        sound = v.sound;
        asked = λ id r h.
            let (b, hb, which) = get-modify_inv s.store.requests key id f r h in v.asked id b hb;
      };
      ticks = omega arith;
      grants = λ id g h. (g, h, GrantLater-refl g);
      requests = request_later;
      consumed = λ jti h. h;
    }

  -- A grant under an id that was just drawn.
  abbrev with_new_grant : Service → ℕ → Grant → Service
  with_new_grant s n g = record s {
    ticks = n;
    store = record s.store { grants = JsMap.set s.store.grants g.id g };
  }

  module _ (s : Service) (n : ℕ) (v : IsValid env s) (le : s.ticks < n) where
    abbrev IsNew : String → Type 0
    IsNew prefix = (k : ℕ) → k < s.ticks → random_id env prefix s.ticks ≢ random_id env prefix k

    is_new :
        (prefix id : String)
        → IsNew prefix
        → IsDrawn env prefix s.ticks id
        → random_id env prefix s.ticks ≢ id
    is_new prefix id new (k, lt, e) same = new k lt (same ∙ e)

    pub unless_repeated :
        {t : Service} (prefix : String)
        → s.ticks < t.ticks
        → (IsNew prefix → Evolves env s t)
        → Collided env t.ticks ⊎ Evolves env s t
    unless_repeated prefix later step =
        elim (drawn_before env prefix (random_id env prefix s.ticks) s.ticks) [
          | inl repeated ↦ inl (prefix, s.ticks, later, repeated)
          | inr new ↦ inr (step new)
        ]

    pub with_new_grant-Evolves :
        (g : Grant)
        → IsNew "auth"
        → g.id ≡ random_id env "auth" s.ticks
        → IsSound g
        → Evolves env s (with_new_grant s n g)
    with_new_grant-Evolves g new named sound = record {
      valid = record {
        keyed = λ id h e. elim (get-set_inv s.store.grants g.id id g h e) [
          | inl (k, same) ↦ ap (λ (x : Grant). x.id) same ∙ k
          | inr old ↦ v.keyed id h old
        ];
        drawn = λ id h e. elim (get-set_inv s.store.grants g.id id g h e) [
          | inl (k, same) ↦ (s.ticks, le, sym k ∙ named)
          | inr old ↦ IsDrawn-later env "auth" (omega arith) (v.drawn id h old)
        ];
        sound = λ id h e. elim (get-set_inv s.store.grants g.id id g h e) [
          | inl (k, same) ↦ rw same sound
          | inr old ↦ v.sound id h old
        ];
        asked = λ id r h. IsDrawn-later env "req" (omega arith) (v.asked id r h);
      };
      ticks = omega arith;
      grants = λ id h e. elim (Bool-cases (g.id == id)) [
        | inl same ↦
            absurd (is_new "auth" id new (v.drawn id h e) (sym named ∙ (eq_iff g.id id).0 same))
        | inr other ↦ (h, rw get-set (rw other e), GrantLater-refl h)
      ];
      requests = λ id r h. (r, h, RequestLater-refl r);
      consumed = λ jti h. h;
    }

    abbrev with_new_request : Request → Service
    with_new_request r = record s {
      ticks = n;
      store = record s.store { requests = JsMap.set s.store.requests r.id r };
    }

    pub with_new_request-Evolves :
        (r : Request)
        → IsNew "req"
        → r.id ≡ random_id env "req" s.ticks
        → Evolves env s (with_new_request r)
    with_new_request-Evolves r new named = record {
      valid = record {
        keyed = v.keyed;
        drawn = λ id g h. IsDrawn-later env "auth" (omega arith) (v.drawn id g h);
        sound = v.sound;
        asked = λ id h e. elim (get-set_inv s.store.requests r.id id r h e) [
          | inl (k, same) ↦ (s.ticks, le, sym k ∙ named)
          | inr old ↦ IsDrawn-later env "req" (omega arith) (v.asked id h old)
        ];
      };
      ticks = omega arith;
      grants = λ id g h. (g, h, GrantLater-refl g);
      requests = λ id h e. elim (Bool-cases (r.id == id)) [
        | inl same ↦
            absurd (is_new "req" id new (v.asked id h e) (sym named ∙ (eq_iff r.id id).0 same))
        | inr other ↦ (h, rw get-set (rw other e), RequestLater-refl h)
      ];
      consumed = λ jti h. h;
    }
