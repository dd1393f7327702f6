-- ===== src/Authority/History/Collisions.antt =====
-- Ids that are drawn twice. `newId` of packages/digi-authority/src/service.ts draws from finitely many
-- ids, so an evolution goes on until two of those drawn are the same.
use trustid.Base.{
  ℕ, zero, suc, ◌≤◌, ◌<◌, ◌≡◌, ◌≢◌, ◌⊎◌, ap, ◌∙◌, String, arith, eqb, ◌==◌, eq_iff, Bool-cases, inl,
  inr,
}
use trustid.Authority.Service.Env.{Env, random_id, Service}
use trustid.Authority.History.Evolution.{IsValid, Evolves, Evolves-refl, Evolves-trans}

-- A later id is one that was drawn before.
abbrev pub IsRepeated : Env → String → ℕ → Type 0
IsRepeated env prefix n = (k : ℕ) × (k < n) × (random_id env prefix n ≡ random_id env prefix k)

-- Two of the ids that were drawn before `n` are the same.
abbrev pub Collided : Env → ℕ → Type 0
Collided env n = (prefix : String) × (m : ℕ) × (m < n) × IsRepeated env prefix m

-- Of the ids that were drawn before `n`, no two are the same.
pub record AreDistinct (env : Env) (n : ℕ) : Type 0 where
  pub apart :
      (prefix : String) (k m : ℕ) → k < m → m < n → random_id env prefix m ≢ random_id env prefix k

pub AreDistinct-not_Collided : (env : Env) (n : ℕ) → AreDistinct env n → Collided env n → ⊥
AreDistinct-not_Collided env n distinct (prefix, m, below, (k, before, same)) =
    distinct.apart prefix k m before below same

pub Collided-later : (env : Env) {m n : ℕ} → m ≤ n → Collided env m → Collided env n
Collided-later env le (prefix, m, below, repeated) = (prefix, m, omega arith, repeated)

-- An id is one of those drawn before some tick, or none of them.
pub drawn_before :
    (env : Env) (prefix id : String) (n : ℕ)
    → ((k : ℕ) × (k < n) × (id ≡ random_id env prefix k))
      ⊎ ((k : ℕ) → k < n → id ≢ random_id env prefix k)
drawn_before env prefix id zero = inr λ k below same. absurd (omega arith)
drawn_before env prefix id (suc n) = elim (Bool-cases (id == random_id env prefix n)) [
  | inl same ↦ inl (n, omega arith, (eq_iff id (random_id env prefix n)).0 same)
  | inr other ↦ elim (drawn_before env prefix id n) [
    | inl (k, below, same) ↦ inl (k, omega arith, same)
    | inr new ↦ inr λ k below same. elim (Bool-cases (eqb k n)) [
      | inl last ↦
          let at_last : k ≡ n = ground arith in
          let same_id = same ∙ ap (random_id env prefix) at_last in
          absurd (cc (other, (eq_iff id (random_id env prefix n)).1 same_id))
      | inr earlier ↦ new k (ground arith) same
    ]
  ]
]

-- A valid state, unless two ids are the same.
abbrev pub Stands : Env → Service → Type 0
Stands env s = Collided env s.ticks ⊎ IsValid env s

-- A later state of a valid one, unless two ids are the same.
abbrev pub Becomes : Env → Service → Service → Type 0
Becomes env s t = Collided env t.ticks ⊎ Evolves env s t

pub Becomes-refl : (env : Env) (s : Service) → Stands env s → Becomes env s s
Becomes-refl env s (inl twice) = inl twice
Becomes-refl env s (inr v) = inr (Evolves-refl env s v)

pub Becomes-Stands : (env : Env) (s t : Service) → Becomes env s t → Stands env t
Becomes-Stands env s t (inl twice) = inl twice
Becomes-Stands env s t (inr p) = inr p.valid

pub Becomes-trans :
    (env : Env) (s t u : Service)
    → Becomes env s t
    → (Stands env t → Becomes env t u)
    → Becomes env s u
Becomes-trans env s t u (inl twice) next = elim (next (inl twice)) [
  | inl again ↦ inl again
  | inr q ↦ inl (Collided-later env q.ticks twice)
]
Becomes-trans env s t u (inr p) next = elim (next (inr p.valid)) [
  | inl twice ↦ inl twice
  | inr q ↦ inr (Evolves-trans env s t u p q)
]

-- A step from valid states, with a counter that does not go back.
pub Becomes-step :
    (env : Env) (s t : Service)
    → s.ticks ≤ t.ticks
    → (IsValid env s → Becomes env s t)
    → Stands env s
    → Becomes env s t
Becomes-step env s t le step (inl twice) = inl (Collided-later env le twice)
Becomes-step env s t le step (inr v) = step v

-- Where the ids are distinct, an evolution.
pub Becomes-Evolves :
    (env : Env) (s t : Service) → AreDistinct env t.ticks → Becomes env s t → Evolves env s t
Becomes-Evolves env s t distinct (inl twice) =
    absurd (AreDistinct-not_Collided env t.ticks distinct twice)
Becomes-Evolves env s t distinct (inr p) = p

-- Both of two evolutions, where the ids are distinct until the end of the second.
pub Becomes-both :
    (env : Env) (s t u : Service)
    → AreDistinct env u.ticks
    → Becomes env s t
    → (Stands env t → Becomes env t u)
    → Evolves env s t × Evolves env t u
Becomes-both env s t u distinct (inl twice) next = elim (next (inl twice)) [
  | inl again ↦ absurd (AreDistinct-not_Collided env u.ticks distinct again)
  | inr q ↦
      absurd (AreDistinct-not_Collided env u.ticks distinct (Collided-later env q.ticks twice))
]
Becomes-both env s t u distinct (inr p) next =
    (p, Becomes-Evolves env t u distinct (next (inr p.valid)))
