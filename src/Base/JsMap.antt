-- ===== src/Base/JsMap.antt =====
-- JavaScript's `Map<string, V>` as a list of entries in insertion order. `set` on a key that is
-- there keeps its place; a new key goes to the end.
use Prim.Native.String.{String}
use mathlib.Core.Path.{◌≡◌, refl}
use mathlib.Core.Option
use mathlib.Core.Option.{Option, none, some}
use mathlib.Core.List.{List, [], ◌∷◌}
use native.Mathlib.Omega.{arith}
use text.Mathlib.Text.{◌==◌}
use text.Mathlib.TextEquality.{eq_iff}
use mathlib.Core.Logic.{◌⊎◌, inl, inr}
use trustid.Base.Tests.{Bool-cases, Option-cases, if◌then◌else◌}

abbrev pub JsMap {ℓ} : Type ℓ → Type ℓ
JsMap V = List (String × V)

module _ {ℓ} {V : Type ℓ} where
  -- `m.get(k)`
  unfoldable pub get : JsMap V → String → Option V
  get [] k = none
  get ((j, v) ∷ m) k = if j == k then some v else get m k

  -- `m.set(k, v)`
  unfoldable pub set : JsMap V → String → V → JsMap V
  set [] k v = (k, v) ∷ []
  set ((j, w) ∷ m) k v = if j == k then (j, v) ∷ m else (j, w) ∷ set m k v

  -- Assignments to the fields of the object that stands under `k`, seen by every later `get`.
  unfoldable pub modify : JsMap V → String → (V → V) → JsMap V
  modify [] k f = []
  modify ((j, w) ∷ m) k f = if j == k then (j, f w) ∷ m else (j, w) ∷ modify m k f

  -- `[...m.values()]`
  unfoldable pub values : JsMap V → List V
  values [] = []
  values ((k, v) ∷ m) = v ∷ values m

  pub get-nil : (k : String) → get [] k ≡ none
  unfolding get
  get-nil k = refl

  pub get-set :
      (m : JsMap V) (k j : String) (v : V)
      → get (set m k v) j ≡ (if k == j then some v else get m j)
  unfolding get set
  get-set [] k j v = refl
  get-set ((i, w) ∷ m) k j v = ground (arith, get-set m k j v, eq_iff i k, eq_iff i j, eq_iff k j)

  pub get-set_self : (m : JsMap V) (k : String) (v : V) → get (set m k v) k ≡ some v
  get-set_self m k v = ground (arith, get-set m k k v, eq_iff k k)

  pub get-modify :
      (m : JsMap V) (k j : String) (f : V → V)
      → get (modify m k f) j ≡ (if k == j then Option.map f (get m j) else get m j)
  unfolding get modify
  get-modify [] k j f = ground arith
  get-modify ((i, w) ∷ m) k j f =
      ground (arith, get-modify m k j f, eq_iff i k, eq_iff i j, eq_iff k j)

module _ {ℓ} {V : Type ℓ} where
  pub get-modify_self :
      (m : JsMap V) (k : String) (f : V → V) (v : V)
      → get m k ≡ some v
      → get (modify m k f) k ≡ some (f v)
  get-modify_self m k f v found = ground (arith, get-modify m k k f, eq_iff k k)

  -- Where an entry of the map after a write comes from.
  pub get-modify_inv :
      (m : JsMap V) (k j : String) (f : V → V) (w : V)
      → get (modify m k f) j ≡ some w
      → (v : V) × (get m j ≡ some v) × (((k ≡ j) × (w ≡ f v)) ⊎ (w ≡ v))
  get-modify_inv m k j f w h = elim (Option-cases (get m j)) [
    | inl missing ↦ absurd (ground (arith, get-modify m k j f))
    | inr (v, found) ↦ elim (Bool-cases (k == j)) [
      | inl same ↦ (v, found, inl ((eq_iff k j).0 same, ground (arith, get-modify m k j f)))
      | inr other ↦ (v, found, inr (ground (arith, get-modify m k j f)))
    ]
  ]

  pub get-set_inv :
      (m : JsMap V) (k j : String) (v w : V)
      → get (set m k v) j ≡ some w
      → ((k ≡ j) × (w ≡ v)) ⊎ (get m j ≡ some w)
  get-set_inv m k j v w h = elim (Bool-cases (k == j)) [
    | inl same ↦ inl ((eq_iff k j).0 same, ground (arith, get-set m k j v))
    | inr other ↦ inr (ground (arith, get-set m k j v))
  ]

pub ruleset map_laws = (get-set, get-modify)
