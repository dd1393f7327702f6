-- ===== src/Bridge/Memory/Owners.antt =====
-- The owner store of packages/digi-bridge/src/stores.ts: its well-formedness, and that an issuer and
-- a subject keep their owner.
use Prim.Native.String
use trustid.Base.{
  ℕ, suc, ◌≡◌, inl, inr, refl, ap, ◌∙◌, true, Option, none, some, String, arith, Option-cases,
  Bool-cases, eq_iff, ◌==◌,
}
use trustid.Base.JsMap
use trustid.Base.JsMap.{JsMap, get-set_inv, get-modify_inv, get-set, get-modify, map_laws}
use trustid.Base.Effect.{ok, ◌>>=◌}
use trustid.Base.Effect.Keeps.{Keeps}
use trustid.Bridge.Types.{DigiOwner, ExternalIdentity}
use trustid.Bridge.Memory.{
  Memory, MemoryEnv, key, draw, update, look, new_id, new_owner, new_identity, touch, touched,
  add_owner, resolve_found, resolve_or_create,
}

-- Every identity stands under the key of its issuer and subject and has its owner, which stands
-- under its own id.
pub record IsSound (s : Memory) : Type 0 where
  pub keyed :
      (k : String) (x : ExternalIdentity)
      → JsMap.get s.by_key k ≡ some x
      → key x.issuer x.subject ≡ k
  pub owned :
      (k : String) (x : ExternalIdentity)
      → JsMap.get s.by_key k ≡ some x
      → (o : DigiOwner) × (JsMap.get s.owners x.owner_id ≡ some o)
  pub named : (id : String) (o : DigiOwner) → JsMap.get s.owners id ≡ some o → o.id ≡ id

-- An owner's id is known under a key.
abbrev pub IsOwnerOf : String → String → Memory → Type 0
IsOwnerOf k owner_id s =
    (x : ExternalIdentity) × (JsMap.get s.by_key k ≡ some x) × (x.owner_id ≡ owner_id)

pub touched_state :
    (x : ExternalIdentity) (o : Option DigiOwner) (s : Memory) → (touched x o s).1 ≡ s
unfolding touched
touched_state x none s = refl
touched_state x (some o) s = refl

pub modified :
    {V : Type 0} (m : JsMap V) (k j : String) (f : V → V) (v : V)
    → JsMap.get m j ≡ some v
    → (w : V) × (JsMap.get (JsMap.modify m k f) j ≡ some w)
modified m k j f v there = elim (Bool-cases (k == j)) [
  | inl same ↦ (f v, ground (arith, get-modify m k j f))
  | inr other ↦ (v, ground (arith, get-modify m k j f))
]

stored :
    {V : Type 0} (m : JsMap V) (k j : String) (w v : V)
    → JsMap.get m j ≡ some v
    → (u : V) × (JsMap.get (JsMap.set m k w) j ≡ some u)
stored m k j w v there = elim (Bool-cases (k == j)) [
  | inl same ↦ (w, ground (arith, get-set m k j w))
  | inr other ↦ (v, ground (arith, get-set m k j w))
]

module _ (env : MemoryEnv) where
  abbrev pub touch_memory : String → ExternalIdentity → Memory → Memory
  touch_memory k x s = record s {
    by_key = JsMap.modify s.by_key k (λ y. record y { last_seen_at = env.clock s.ticks });
    owners =
        JsMap.modify s.owners x.owner_id (λ o. record o { updated_at = env.clock (suc s.ticks) });
    ticks = suc (suc s.ticks);
  }

  pub touch_state :
      (k : String) (x : ExternalIdentity) (s : Memory) → (touch env k x s).1 ≡ touch_memory k x s
  unfolding touch draw update look ◌>>=◌
  touch_state k x s = touched_state _ _ (touch_memory k x s)

  touch_memory-IsSound :
      (k : String) (x : ExternalIdentity) (s : Memory) → IsSound s → IsSound (touch_memory k x s)
  touch_memory-IsSound k x s sound = record {
    keyed = λ j y found.
        let (y0, was, change) = get-modify_inv s.by_key k j _ y found in
        elim change [
          | inl (_, e) ↦ rw (e) (sound.keyed j y0 was)
          | inr e ↦ rw (e) (sound.keyed j y0 was)
        ];
    owned = λ j y found.
        let (y0, was, change) = get-modify_inv s.by_key k j _ y found in
        let (o, there) = sound.owned j y0 was in
        let same : y.owner_id ≡ y0.owner_id = elim change [
          | inl (_, e) ↦ ap (λ z. z.owner_id) e
          | inr e ↦ ap (λ z. z.owner_id) e
        ] in
        rw (same) (modified s.owners x.owner_id y0.owner_id _ o there);
    named = λ id o found.
        let (o0, was, change) = get-modify_inv s.owners x.owner_id id _ o found in
        elim change [
          | inl (_, e) ↦ ap (λ z. z.id) e ∙ sound.named id o0 was
          | inr e ↦ ap (λ z. z.id) e ∙ sound.named id o0 was
        ];
  }

  abbrev pub owner_id_at : ℕ → String
  owner_id_at ticks = String.◌++◌ "own" (String.◌++◌ "_" (env.random_hex ticks))

  abbrev pub owner_at : ℕ → DigiOwner
  owner_at ticks = new_owner (owner_id_at (suc ticks)) (env.clock ticks)

  abbrev pub identity_at : String → String → ℕ → ExternalIdentity
  identity_at issuer subject ticks =
      new_identity (String.◌++◌ "xid" (String.◌++◌ "_" (env.random_hex (suc (suc ticks)))))
        (owner_id_at (suc ticks)) issuer subject (env.clock ticks)

  abbrev pub add_memory : String → String → String → Memory → Memory
  add_memory k issuer subject s = record s {
    by_key = JsMap.set s.by_key k (identity_at issuer subject s.ticks);
    owners = JsMap.set s.owners (owner_id_at (suc s.ticks)) (owner_at s.ticks);
    ticks = suc (suc (suc s.ticks));
  }

  pub add_owner_run :
      (k issuer subject : String) (s : Memory)
      → add_owner env k issuer subject s ≡ (
        ok (record {
          owner = owner_at s.ticks;
          created = true;
          identity = identity_at issuer subject s.ticks;
        }),
        add_memory k issuer subject s,
      )
  unfolding add_owner new_id draw update ◌>>=◌
  add_owner_run k issuer subject s = refl

  add_memory-IsSound :
      (issuer subject : String) (s : Memory)
      → IsSound s
      → IsSound (add_memory (key issuer subject) issuer subject s)
  add_memory-IsSound issuer subject s sound = record {
    keyed = λ j y found.
        elim (get-set_inv s.by_key (key issuer subject) j (identity_at issuer subject s.ticks) y
          found) [
            | inl (same, e) ↦ ap (λ z. key z.issuer z.subject) e ∙ same
            | inr was ↦ sound.keyed j y was
          ];
    owned = λ j y found.
        elim (get-set_inv s.by_key (key issuer subject) j (identity_at issuer subject s.ticks) y
          found) [
            | inl (same, e) ↦ (
              owner_at s.ticks,
              ground (
                arith,
                get-set s.owners (owner_id_at (suc s.ticks)) y.owner_id (owner_at s.ticks),
                ap (λ z. z.owner_id) e,
                eq_iff (owner_id_at (suc s.ticks)) y.owner_id,
              ),
            )
            | inr was ↦
                let (o, there) = sound.owned j y was in
                stored s.owners (owner_id_at (suc s.ticks)) y.owner_id (owner_at s.ticks) o there
          ];
    named = λ id o found.
        elim (get-set_inv s.owners (owner_id_at (suc s.ticks)) id (owner_at s.ticks) o found) [
          | inl (same, e) ↦ ap (λ z. z.id) e ∙ same
          | inr was ↦ sound.named id o was
        ];
  }

  -- `resolveOrCreate` takes one of two ways, by what stands under the key.
  pub resolve_run :
      (issuer subject : String) (s : Memory)
      → resolve_or_create env issuer subject s
        ≡ resolve_found env issuer subject (JsMap.get s.by_key (key issuer subject)) s
  unfolding resolve_or_create look ◌>>=◌
  resolve_run issuer subject s = refl

  -- The owner store stays well formed.
  pub resolve_or_create-IsSound :
      (issuer subject : String) → Keeps IsSound (resolve_or_create env issuer subject)
  unfolding resolve_found
  resolve_or_create-IsSound issuer subject = record {
    at = λ s sound.
        rw (resolve_run issuer subject s)
          (elim (Option-cases (JsMap.get s.by_key (key issuer subject))) [
            | inl new ↦
                rw (new, resolve_found, add_owner_run (key issuer subject) issuer subject s)
                  (add_memory-IsSound issuer subject s sound)
            | inr (x, known) ↦
                rw (known, resolve_found, touch_state (key issuer subject) x s)
                  (touch_memory-IsSound (key issuer subject) x s sound)
          ]);
  }
