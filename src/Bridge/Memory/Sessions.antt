-- ===== src/Bridge/Memory/Sessions.antt =====
-- The session store of packages/digi-bridge/src/stores.ts: which session a token is resolved to, right
-- after the session is made, right after it is revoked, and in any state.
use trustid.Base.{
  ℕ, zero, suc, ◌≤◌, ◌≡◌, inl, inr, refl, sym, ap, ◌∙◌, false, Option, none, some, List, [], ◌∷◌,
  ◌++◌, String, arith, ltb, if◌then◌else◌, length, Option-cases, Bool-cases,
}
use trustid.Base.JsMap
use trustid.Base.JsMap.{JsMap, get-set_self}
use trustid.Base.Effect.{ok, pure, ◌>>=◌}
use trustid.Bridge.Types.{DigiSession, NewSession}
use trustid.Bridge.Memory.{
  Memory, MemoryEnv, draw, update, look, new_id, create, resolve, resolve_session, unless_expired,
  revoke, revoke_cell, deref, get_cell, set_cell,
}

get_cell-last :
    (xs : List DigiSession) (x : DigiSession) → get_cell (xs ++ (x ∷ [])) (length xs) ≡ some x
unfolding get_cell
get_cell-last [] x = refl
get_cell-last (y ∷ ys) x = get_cell-last ys x

get_cell-set_cell :
    (xs : List DigiSession) (i : ℕ) (f : DigiSession → DigiSession) (x : DigiSession)
    → get_cell xs i ≡ some x
    → get_cell (set_cell xs i f) i ≡ some (f x)
unfolding get_cell set_cell
get_cell-set_cell [] i f x h = absurd cc
get_cell-set_cell (y ∷ ys) zero f x h = ground arith
get_cell-set_cell (y ∷ ys) (suc i) f x h = get_cell-set_cell ys i f x h

not_below : (a b : ℕ) → ltb a b ≡ false → b ≤ a
not_below a b h = ground arith

module _ (env : MemoryEnv) where
  resolve_run :
      (token : String) (s : Memory)
      → resolve env token s
        ≡ resolve_session env (deref s.cells (JsMap.get s.by_hash (env.sha256_hex token))) s
  unfolding resolve look ◌>>=◌
  resolve_run token s = refl

  -- A session that `resolve` returns is the one that stands under the hash of the token; it is not
  -- revoked, and its end is not before the reading of the clock.
  pub resolve_lem :
      (token : String) (s : Memory) (x : DigiSession)
      → (resolve env token s).0 ≡ ok (some x)
      → (deref s.cells (JsMap.get s.by_hash (env.sha256_hex token)) ≡ some x)
        × (x.revoked_at ≡ none)
        × (env.clock s.ticks ≤ x.expires_at)
  unfolding resolve_session unless_expired draw ◌>>=◌
  resolve_lem token s x h =
      go (deref s.cells (JsMap.get s.by_hash (env.sha256_hex token)))
        (ap (λ r. r.0) (sym (resolve_run token s)) ∙ h)
    where
      go :
          (o : Option DigiSession)
          → (resolve_session env o s).0 ≡ ok (some x)
          → (o ≡ some x) × (x.revoked_at ≡ none) × (env.clock s.ticks ≤ x.expires_at)
      go none g = absurd (ground arith)
      go (some y) g = elim (Option-cases y.revoked_at) [
        | inr (at, revoked) ↦ absurd (ground arith)
        | inl live ↦ elim (Bool-cases (ltb y.expires_at (env.clock s.ticks))) [
          | inl late ↦ absurd (ground arith)
          | inr in_time ↦
              let same : y ≡ x = ground arith in
              (
                ap some same,
                ap (λ z. z.revoked_at) (sym same) ∙ live,
                rw (← same) (not_below _ _ in_time),
              )
        ]
      ]

  pub created_session :
      (owner_id : String) (ttl : Option ℕ) (s : Memory)
      → (made : NewSession) × ((create env owner_id ttl s).0 ≡ ok made)
        × (made.session.owner_id ≡ owner_id)
        × (made.session.revoked_at ≡ none)
        × (JsMap.get (create env owner_id ttl s).1.by_hash (env.sha256_hex made.token)
            ≡ some (length s.cells))
        × (JsMap.get (create env owner_id ttl s).1.by_id made.session.id ≡ some (length s.cells))
        × (get_cell (create env owner_id ttl s).1.cells (length s.cells) ≡ some made.session)
  unfolding create draw new_id update ◌>>=◌
  created_session owner_id ttl s = (
    record { session = _; token = env.random_token s.ticks },
    refl,
    refl,
    refl,
    get-set_self s.by_hash _ (length s.cells),
    get-set_self s.by_id _ (length s.cells),
    get_cell-last s.cells _,
  )

  -- A session that has just been made is resolved by its token, for as long as the clock does not
  -- read a time after its end, and after that it is not.
  pub create-resolve :
      (owner_id : String) (ttl : Option ℕ) (s : Memory)
      → (made : NewSession) × ((create env owner_id ttl s).0 ≡ ok made)
        × (made.session.owner_id ≡ owner_id)
        × ((resolve env made.token (create env owner_id ttl s).1).0
            ≡ ok (
                if ltb made.session.expires_at (env.clock (create env owner_id ttl s).1.ticks)
                then none
                else some made.session))
  unfolding deref resolve_session unless_expired draw ◌>>=◌
  create-resolve owner_id ttl s =
      let (made, returned, owner, live, hashed, named, stored) = created_session owner_id ttl s in
      (
        made,
        returned,
        owner,
        rw
            (
              resolve_run made.token (create env owner_id ttl s).1,
              hashed,
              deref,
              stored,
              resolve_session,
              live,
            )
            refl,
      )

  abbrev revoked_memory : ℕ → Memory → Memory
  revoked_memory i s = record s {
    cells = set_cell s.cells i (λ y. record y { revoked_at = some (env.clock s.ticks) });
    ticks = suc s.ticks;
  }

  revoke_state :
      (session_id : String) (i : ℕ) (s : Memory)
      → JsMap.get s.by_id session_id ≡ some i
      → (revoke env session_id s).1 ≡ revoked_memory i s
  unfolding revoke look revoke_cell update draw ◌>>=◌
  revoke_state session_id i s named = rw (named, revoke_cell) refl

  -- A revoked session is not resolved: `revoke` takes the id of the session that a token stands for.
  pub revoke-resolve :
      (session_id token : String) (i : ℕ) (x : DigiSession) (s : Memory)
      → JsMap.get s.by_id session_id ≡ some i
      → JsMap.get s.by_hash (env.sha256_hex token) ≡ some i
      → get_cell s.cells i ≡ some x
      → (resolve env token (revoke env session_id s).1).0 ≡ ok none
  unfolding deref resolve_session pure
  revoke-resolve session_id token i x s named hashed there =
      let changed =
        get_cell-set_cell s.cells i (λ y. record y { revoked_at = some (env.clock s.ticks) }) x
          there in
      rw
        (
          revoke_state session_id i s named,
          resolve_run token (revoked_memory i s),
          hashed,
          deref,
          changed,
          resolve_session,
        )
        refl
