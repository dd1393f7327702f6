-- ===== src/Base/Lists.antt =====
-- JavaScript's array methods on lists, and what holds of all members.
use Prim.Native.Nat.{ℕ, zero, suc, ◌-◌}
use Prim.Native.String.{String}
use mathlib.Core.Path.{◌≡◌}
use mathlib.Core.Bool.{Bool, true, false, ◌&&◌, ◌||◌}
use mathlib.Core.Option.{Option, none, some}
use mathlib.Core.List.{List, [], ◌∷◌}
use native.Mathlib.Omega.{arith}
use text.Mathlib.Text.{◌==◌}
use text.Mathlib.TextEquality.{eq_iff}
use trustid.Base.Tests.{if◌then◌else◌}

module _ {ℓ} {A : Type ℓ} where
  abbrev pub length : List A → ℕ
  length [] = 0
  length (x ∷ xs) = suc (length xs)

  -- `xs.every(p)` and `xs.some(p)`.
  abbrev pub every : (A → Bool) → List A → Bool
  every p [] = true
  every p (x ∷ xs) = p x && every p xs

  abbrev pub any : (A → Bool) → List A → Bool
  any p [] = false
  any p (x ∷ xs) = p x || any p xs

  -- `xs.find(p)`.
  abbrev pub find : (A → Bool) → List A → Option A
  find p [] = none
  find p (x ∷ xs) = if p x then some x else find p xs

  -- `xs.filter(p)`.
  abbrev pub filter : (A → Bool) → List A → List A
  filter p [] = []
  filter p (x ∷ xs) = let rest = filter p xs in if p x then x ∷ rest else rest

  abbrev pub drop : ℕ → List A → List A
  drop n [] = []
  drop zero (x ∷ xs) = x ∷ xs
  drop (suc n) (x ∷ xs) = drop n xs

  -- `o ?? d`.
  abbrev pub get_or : Option A → A → A
  get_or none d = d
  get_or (some a) d = a

  abbrev pub is_some : Option A → Bool
  is_some none = false
  is_some (some _) = true

-- `xs.slice(-n)`: the last n elements, and the whole array for n = 0.
abbrev pub slice_last {ℓ} : {A : Type ℓ} → ℕ → List A → List A
slice_last zero xs = xs
slice_last (suc n) xs = drop (length xs - suc n) xs

-- `xs.includes(s)`.
abbrev pub includes : List String → String → Bool
includes xs s = any (λ x. x == s) xs

module _ {ℓ κ} {A : Type ℓ} (P : A → Type κ) where
  abbrev pub All : List A → Type κ
  All [] = Unit
  All (x ∷ xs) = P x × All xs

-- Every member of the first list is in the second.
abbrev pub IsSubset : List String → List String → Type 0
IsSubset xs ys = All (λ x. includes ys x ≡ true) xs

pub find_sound {ℓ} :
    {A : Type ℓ} (p : A → Bool) (xs : List A) (x : A) → find p xs ≡ some x → p x ≡ true
find_sound p [] x h = ground arith
find_sound p (y ∷ ys) x h = ground (arith, find_sound p ys x)

pub every-IsSubset : (ys xs : List String) → every (λ x. includes ys x) xs ≡ true → IsSubset xs ys
every-IsSubset ys [] h = tt
every-IsSubset ys (x ∷ xs) h = ground (arith, every-IsSubset ys xs)

pub IsSubset-includes :
    (xs ys : List String) (a : String)
    → IsSubset xs ys
    → includes xs a ≡ true
    → includes ys a ≡ true
IsSubset-includes [] ys a s h = ground arith
IsSubset-includes (x ∷ xs) ys a s h = ground (arith, IsSubset-includes xs ys a s.1, eq_iff x a)
