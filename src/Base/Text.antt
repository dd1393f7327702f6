-- ===== src/Base/Text.antt =====
-- JavaScript's string methods. A text is walked as a list of code points; the source's UTF-16 units
-- differ from these only in how lengths count characters outside the basic plane.
use Prim.Native.Nat.{ℕ, zero, suc, ◌+◌}
use Prim.Native.Char.{Char, code}
use Prim.Native.String.{String}
use mathlib.Core.Path.{◌≡◌, refl}
use mathlib.Core.Bool.{Bool, true, false, ◌&&◌, ◌||◌}
use mathlib.Core.Option.{Option, none, some}
use mathlib.Core.List.{List, [], ◌∷◌, ◌++◌}
use native.Mathlib.Omega.{arith}
use trustid.Base.Tests.{leb, eqb, if◌then◌else◌}

abbrev pub codes : String → List ℕ
codes String.[] = []
codes (String.◌∷◌ c s) = code c ∷ codes s

-- The rest after a prefix, if the text has it.
unfoldable pub strip_prefix : List ℕ → List ℕ → Option (List ℕ)
strip_prefix [] s = some s
strip_prefix (c ∷ p) [] = none
strip_prefix (c ∷ p) (d ∷ s) = if eqb c d then strip_prefix p s else none

-- `s.includes(p)` on texts.
unfoldable pub has_infix : List ℕ → List ℕ → Bool
has_infix p [] = elim p [ [] ↦ true | _ ∷ _ ↦ false ]
has_infix p (d ∷ s) = elim (strip_prefix p (d ∷ s)) [ some _ ↦ true | none ↦ has_infix p s ]

-- WhiteSpace and LineTerminator of ECMAScript: what `trim` removes and `\s` matches.
unfoldable pub is_space : ℕ → Bool
is_space c =
    (leb 9 c && leb c 13)
    || eqb c 32
    || eqb c 160
    || eqb c 5760
    || (leb 8192 c && leb c 8202)
    || eqb c 8232
    || eqb c 8233
    || eqb c 8239
    || eqb c 8287
    || eqb c 12288
    || eqb c 65279

unfoldable pub trim_start : String → String
unfolding is_space
trim_start String.[] = ""
trim_start (String.◌∷◌ c s) = if is_space (code c) then trim_start s else String.◌∷◌ c s

abbrev pub cons_unless_blank : Char → String → String
cons_unless_blank c String.[] = if is_space (code c) then "" else String.◌∷◌ c ""
cons_unless_blank c (String.◌∷◌ d s) = String.◌∷◌ c (String.◌∷◌ d s)

unfoldable pub trim_end : String → String
unfolding is_space
trim_end String.[] = ""
trim_end (String.◌∷◌ c s) = cons_unless_blank c (trim_end s)

unfoldable pub trim : String → String
unfolding trim_start trim_end
trim s = trim_end (trim_start s)

-- The `i` flag of a regular expression over ASCII letters.
abbrev pub lower : ℕ → ℕ
lower c = if leb b'A' c && leb c b'Z' then c + 32 else c

abbrev pub codes_eq : List ℕ → List ℕ → Bool
codes_eq [] [] = true
codes_eq (c ∷ s) (d ∷ t) = eqb c d && codes_eq s t
codes_eq _ _ = false

pub codes_eq_sound : (s t : List ℕ) → codes_eq s t ≡ true → s ≡ t
codes_eq_sound [] [] h = refl
codes_eq_sound [] (d ∷ t) h = ground arith
codes_eq_sound (c ∷ s) [] h = ground arith
codes_eq_sound (c ∷ s) (d ∷ t) h = ground (arith, codes_eq_sound s t)

pub codes_eq_refl : (s : List ℕ) → codes_eq s s ≡ true
codes_eq_refl [] = refl
codes_eq_refl (c ∷ s) = ground (arith, codes_eq_refl s)

pub strip_prefix_sound : (p s r : List ℕ) → strip_prefix p s ≡ some r → s ≡ p ++ r
unfolding strip_prefix
strip_prefix_sound [] s r h = ground arith
strip_prefix_sound (c ∷ p) [] r h = ground arith
strip_prefix_sound (c ∷ p) (d ∷ s) r h = ground (arith, strip_prefix_sound p s r)

pub strip_prefix-append : (p r : List ℕ) → strip_prefix p (p ++ r) ≡ some r
unfolding strip_prefix
strip_prefix-append [] r = refl
strip_prefix-append (c ∷ p) r = ground (arith, strip_prefix-append p r)

-- `s.slice(0, n)` of a text of the basic plane.
unfoldable pub take_text : ℕ → String → String
take_text zero s = ""
take_text (suc n) String.[] = ""
take_text (suc n) (String.◌∷◌ c s) = String.◌∷◌ c (take_text n s)

-- `s.replace(/-/g, "")`
unfoldable pub without_dashes : String → String
without_dashes String.[] = ""
without_dashes (String.◌∷◌ c s) =
    let rest = without_dashes s in if eqb (code c) 45 then rest else String.◌∷◌ c rest
