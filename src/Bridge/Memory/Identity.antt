-- ===== src/Bridge/Memory/Identity.antt =====
-- An identity keeps its owner under every sequence of calls of the stores of
-- packages/digi-bridge/src/stores.ts.
use trustid.Base.{
  ℕ, suc, ◌≡◌, inl, inr, refl, sym, ap, ◌∙◌, true, false, Option, none, some, List, [], ◌∷◌, String,
  arith, is_some, Option-cases, Bool-cases, eq_iff, ◌==◌,
}
use trustid.Base.JsMap
use trustid.Base.JsMap.{
  JsMap, get-set_inv, get-modify_inv, get-modify_self, get-set, get-modify, map_laws,
}
use trustid.Base.Effect.{ok, ◌>>=◌}
use trustid.Base.Effect.Keeps.{Keeps}
use trustid.Bridge.Types.{ExternalIdentity, DigiSession, ConsumeInput, Resolved}
use trustid.Bridge.Memory.{
  Memory, MemoryEnv, key, draw, update, look, new_id, touch, touched, resolve_found,
  resolve_or_create, try_consume, create, resolve, resolve_session, unless_expired, revoke,
  revoke_cell, deref,
}
use trustid.Bridge.Memory.Owners.{
  IsSound, IsOwnerOf, touch_state, owner_at, identity_at, add_owner_run, resolve_run,
  resolve_or_create-IsSound,
}

-- A call of one of the stores.
pub data Call : Type 0 where
  call_resolve_or_create : (issuer subject : String) → Call
  call_try_consume : ConsumeInput → Call
  call_create : String → Option ℕ → Call
  call_resolve : String → Call
  call_revoke : String → Call

module _ (env : MemoryEnv) where
  unfoldable pub perform : Call → Memory → Memory
  perform (call_resolve_or_create issuer subject) s = (resolve_or_create env issuer subject s).1
  perform (call_try_consume i) s = (try_consume env i s).1
  perform (call_create owner_id ttl) s = (create env owner_id ttl s).1
  perform (call_resolve token) s = (resolve env token s).1
  perform (call_revoke session_id) s = (revoke env session_id s).1

  unfoldable pub perform_all : List Call → Memory → Memory
  perform_all [] s = s
  perform_all (c ∷ cs) s = perform_all cs (perform c s)

  -- The other calls write nothing in the owner store.
  abbrev SameOwners : Memory → Memory → Type 0
  SameOwners s t = (t.by_key ≡ s.by_key) × (t.owners ≡ s.owners)

  try_consume-SameOwners : (i : ConsumeInput) (s : Memory) → SameOwners s (try_consume env i s).1
  unfolding try_consume
  try_consume-SameOwners i s = elim (Bool-cases (is_some (JsMap.get s.consumed i.jti))) [
    | inl taken ↦ (ground arith, ground arith)
    | inr new ↦ (ground arith, ground arith)
  ]

  create-SameOwners :
      (o : String) (ttl : Option ℕ) (s : Memory) → SameOwners s (create env o ttl s).1
  unfolding create draw new_id update ◌>>=◌
  create-SameOwners o ttl s = (refl, refl)

  resolve-SameOwners : (token : String) (s : Memory) → SameOwners s (resolve env token s).1
  unfolding resolve look resolve_session unless_expired draw ◌>>=◌
  resolve-SameOwners token s = go (deref s.cells (JsMap.get s.by_hash (env.sha256_hex token)))
    where
      go : (x : Option DigiSession) → SameOwners s (resolve_session env x s).1
      go none = (refl, refl)
      go (some x) = elim (Bool-cases (is_some x.revoked_at)) [
        | inl revoked ↦ (ground arith, ground arith)
        | inr live ↦ (ground arith, ground arith)
      ]

  revoke-SameOwners : (id : String) (s : Memory) → SameOwners s (revoke env id s).1
  unfolding revoke look revoke_cell draw update ◌>>=◌
  revoke-SameOwners id s = go (JsMap.get s.by_id id)
    where
      go : (x : Option ℕ) → SameOwners s (revoke_cell env x s).1
      go none = (refl, refl)
      go (some i) = (refl, refl)

  IsSound-same : (s t : Memory) → SameOwners s t → IsSound s → IsSound t
  IsSound-same s t (keys, owners) sound = record {
    keyed = λ k x found. sound.keyed k x (ap (λ m. JsMap.get m k) (sym keys) ∙ found);
    owned = λ k x found.
        let (o, there) = sound.owned k x (ap (λ m. JsMap.get m k) (sym keys) ∙ found) in
        (o, ap (λ m. JsMap.get m x.owner_id) owners ∙ there);
    named = λ id o found. sound.named id o (ap (λ m. JsMap.get m id) (sym owners) ∙ found);
  }

  IsOwnerOf-same :
      (k o : String) (s t : Memory) → SameOwners s t → IsOwnerOf k o s → IsOwnerOf k o t
  IsOwnerOf-same k o s t (keys, owners) (x, known, owner) =
      (x, ap (λ m. JsMap.get m k) keys ∙ known, owner)

  -- A call of `resolveOrCreate` for any identity leaves the known ones to their owners.
  resolve_or_create-IsOwnerOf :
      (k o issuer subject : String) → Keeps (IsOwnerOf k o) (resolve_or_create env issuer subject)
  unfolding resolve_found
  resolve_or_create-IsOwnerOf k o issuer subject = record {
    at = λ s (x, there, owner).
        rw (resolve_run env issuer subject s)
          (elim (Option-cases (JsMap.get s.by_key (key issuer subject))) [
            | inl new ↦
                rw (new, resolve_found, add_owner_run env (key issuer subject) issuer subject s)
                  (
                    x,
                    ground (
                      arith,
                      get-set s.by_key (key issuer subject) k
                          (identity_at env issuer subject s.ticks),
                      eq_iff (key issuer subject) k,
                      new,
                      there,
                    ),
                    owner,
                  )
            | inr (y, known) ↦
                rw (known, resolve_found, touch_state env (key issuer subject) y s)
                  (kept s.by_key (key issuer subject) k (env.clock s.ticks) x there owner)
          ]);
  }
    where
      kept :
          (m : JsMap ExternalIdentity) (j k : String) (seen : ℕ) (x : ExternalIdentity)
          → JsMap.get m k ≡ some x
          → x.owner_id ≡ o
          → (y : ExternalIdentity) × (JsMap.get
                (JsMap.modify m j (λ y. record y { last_seen_at = seen }))
                k
              ≡ some y)
            × (y.owner_id ≡ o)
      kept m j k seen x there owner = elim (Bool-cases (j == k)) [
        | inl same ↦ (
          record x { last_seen_at = seen },
          ground (arith, get-modify m j k (λ y. record y { last_seen_at = seen })),
          owner,
        )
        | inr other ↦
            (x, ground (arith, get-modify m j k (λ y. record y { last_seen_at = seen })), owner)
      ]

  perform-IsSound : (c : Call) (s : Memory) → IsSound s → IsSound (perform c s)
  unfolding perform
  perform-IsSound (call_resolve_or_create issuer subject) s h =
      (resolve_or_create-IsSound env issuer subject).at s h
  perform-IsSound (call_try_consume i) s h = IsSound-same s _ (try_consume-SameOwners i s) h
  perform-IsSound (call_create o ttl) s h = IsSound-same s _ (create-SameOwners o ttl s) h
  perform-IsSound (call_resolve token) s h = IsSound-same s _ (resolve-SameOwners token s) h
  perform-IsSound (call_revoke id) s h = IsSound-same s _ (revoke-SameOwners id s) h

  perform-IsOwnerOf :
      (k o : String) (c : Call) (s : Memory) → IsOwnerOf k o s → IsOwnerOf k o (perform c s)
  unfolding perform
  perform-IsOwnerOf k o (call_resolve_or_create issuer subject) s h =
      (resolve_or_create-IsOwnerOf k o issuer subject).at s h
  perform-IsOwnerOf k o (call_try_consume i) s h =
      IsOwnerOf-same k o s (try_consume env i s).1 (try_consume-SameOwners i s) h
  perform-IsOwnerOf k o (call_create owner_id ttl) s h =
      IsOwnerOf-same k o s (create env owner_id ttl s).1 (create-SameOwners owner_id ttl s) h
  perform-IsOwnerOf k o (call_resolve token) s h =
      IsOwnerOf-same k o s (resolve env token s).1 (resolve-SameOwners token s) h
  perform-IsOwnerOf k o (call_revoke id) s h =
      IsOwnerOf-same k o s (revoke env id s).1 (revoke-SameOwners id s) h

  -- The owner store is well formed after any calls of the stores on a well-formed memory: each
  -- identity stands under its own key and has its owner, and each owner stands under its id.
  pub perform_all-IsSound : (cs : List Call) (s : Memory) → IsSound s → IsSound (perform_all cs s)
  unfolding perform_all
  perform_all-IsSound [] s h = h
  perform_all-IsSound (c ∷ cs) s h = perform_all-IsSound cs (perform c s) (perform-IsSound c s h)

  perform_all-IsOwnerOf :
      (k o : String) (cs : List Call) (s : Memory)
      → IsOwnerOf k o s
      → IsOwnerOf k o (perform_all cs s)
  unfolding perform_all
  perform_all-IsOwnerOf k o [] s h = h
  perform_all-IsOwnerOf k o (c ∷ cs) s h =
      perform_all-IsOwnerOf k o cs (perform c s) (perform-IsOwnerOf k o c s h)

  -- For a known identity, `resolveOrCreate` returns its owner.
  resolve_known :
      (issuer subject o : String) (s : Memory)
      → IsSound s
      → IsOwnerOf (key issuer subject) o s
      → (r : Resolved) × ((resolve_or_create env issuer subject s).0 ≡ ok r)
        × (r.owner.id ≡ o)
        × (r.created ≡ false)
  unfolding touch draw update look touched resolve_found ◌>>=◌
  resolve_known issuer subject o s sound (x, known, owner) =
      let (old, has) = sound.owned (key issuer subject) x known in
      let updated =
        get-modify_self s.owners x.owner_id (λ w. record w { updated_at = env.clock (suc s.ticks) })
          old has in
      (
        record {
          owner = record old { updated_at = env.clock (suc s.ticks) };
          created = false;
          identity = record x { last_seen_at = env.clock s.ticks };
        },
        rw (resolve_run env issuer subject s, known, resolve_found, updated, touched) refl,
        sound.named x.owner_id old has ∙ owner,
        refl,
      )

  -- What `resolveOrCreate` returns, and that the identity is then known.
  pub resolve_returns :
      (issuer subject : String) (s : Memory)
      → IsSound s
      → (r : Resolved) × ((resolve_or_create env issuer subject s).0 ≡ ok r)
        × IsOwnerOf (key issuer subject) r.owner.id (resolve_or_create env issuer subject s).1
  unfolding resolve_found
  resolve_returns issuer subject s sound =
      elim (Option-cases (JsMap.get s.by_key (key issuer subject))) [
        | inl new ↦
            let made = identity_at env issuer subject s.ticks in
            let run =
              resolve_run env issuer subject s
              ∙ ap (λ x. resolve_found env issuer subject x s) new
              ∙ add_owner_run env (key issuer subject) issuer subject s in
            (
              record { owner = owner_at env s.ticks; created = true; identity = made },
              ap (λ x. x.0) run,
              rw (run) (
                made,
                ground (
                  arith,
                  get-set s.by_key (key issuer subject) (key issuer subject) made,
                  eq_iff (key issuer subject) (key issuer subject),
                ),
                refl,
              ),
            )
        | inr (x, known) ↦
            let there : IsOwnerOf (key issuer subject) x.owner_id s = (x, known, refl) in
            let (r, returned, owner, _) = resolve_known issuer subject x.owner_id s sound there in
            (
              r,
              returned,
              rw (owner) (
                  (resolve_or_create-IsOwnerOf (key issuer subject) x.owner_id issuer subject).at s
                    there),
            )
      ]

  -- An identity keeps its owner: after `resolveOrCreate` on a well-formed memory, and any calls of the
  -- stores that follow, `resolveOrCreate` for the same issuer and subject returns the same owner and
  -- creates none.
  pub resolve-same_owner :
      (issuer subject : String) (s : Memory) (cs : List Call)
      → IsSound s
      → (first second : Resolved) × ((resolve_or_create env issuer subject s).0 ≡ ok first)
        × ((resolve_or_create env issuer subject
              (perform_all cs (resolve_or_create env issuer subject s).1)).0
            ≡ ok second)
        × (second.owner.id ≡ first.owner.id)
        × (second.created ≡ false)
  resolve-same_owner issuer subject s cs sound =
      let (first, returned, owner) = resolve_returns issuer subject s sound in
      let s1 = (resolve_or_create env issuer subject s).1 in
      let sound1 = (resolve_or_create-IsSound env issuer subject).at s sound in
      let (second, again, same, created) =
        resolve_known issuer subject first.owner.id (perform_all cs s1)
          (perform_all-IsSound cs s1 sound1)
          (perform_all-IsOwnerOf (key issuer subject) first.owner.id cs s1 owner) in
      (first, second, returned, again, same, created)
