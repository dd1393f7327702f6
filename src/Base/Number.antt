-- ===== src/Base/Number.antt =====
-- JavaScript's numbers as far as the program tells them apart: the integers, `NaN` and `Infinity`.
-- Fractions and negative infinity are left out.
use Prim.Native.Nat.{ℕ, ◌+◌, ◌*◌, ◌-◌, suc}
use mathlib.Core.Bool.{Bool, true, false}
use trustid.Base.Tests.{ltb, leb, eqb, if◌then◌else◌}

-- `negsuc n` is -(n + 1).
pub data Number : Type 0 where
  nat : ℕ → Number
  negsuc : ℕ → Number
  nan : Number
  infinite : Number

-- `a < b`; false where either is `NaN`.
unfoldable pub num_lt : Number → Number → Bool
num_lt (nat a) (nat b) = ltb a b
num_lt (negsuc a) (nat b) = true
num_lt (negsuc a) (negsuc b) = ltb b a
num_lt (nat a) infinite = true
num_lt (negsuc a) infinite = true
num_lt _ _ = false

-- `a <= b`.
unfoldable pub num_le : Number → Number → Bool
num_le (nat a) (nat b) = leb a b
num_le (negsuc a) (nat b) = true
num_le (negsuc a) (negsuc b) = leb b a
num_le (nat a) infinite = true
num_le (negsuc a) infinite = true
num_le infinite infinite = true
num_le _ _ = false

-- `a === b`.
unfoldable pub num_eq : Number → Number → Bool
num_eq (nat a) (nat b) = eqb a b
num_eq (negsuc a) (negsuc b) = eqb a b
num_eq infinite infinite = true
num_eq _ _ = false

-- `Math.min(a, b)`.
unfoldable pub num_min : Number → Number → Number
unfolding num_le
num_min nan b = nan
num_min a nan = nan
num_min a b = if num_le a b then a else b

-- `a + k`.
unfoldable pub num_add : Number → ℕ → Number
num_add (nat a) k = nat (a + k)
num_add (negsuc a) k = if leb k a then negsuc (a - k) else nat (k - suc a)
num_add nan k = nan
num_add infinite k = infinite

-- The time of `new Date(a)`, which is `NaN` from 100,000,000 days on either side of 1970.
unfoldable pub time_clip : Number → Number
time_clip (nat a) = if leb a 8640000000000000 then nat a else nan
time_clip (negsuc a) = if ltb a 8640000000000000 then negsuc a else nan
time_clip a = nan

-- Seconds in milliseconds: `a * 1000`.
unfoldable pub to_millis : Number → Number
to_millis (nat a) = nat (a * 1000)
to_millis (negsuc a) = negsuc (a * 1000 + 999)
to_millis a = a

unfoldable pub is_integer : Number → Bool
is_integer (nat _) = true
is_integer (negsuc _) = true
is_integer _ = false

unfoldable pub is_finite : Number → Bool
is_finite (nat _) = true
is_finite (negsuc _) = true
is_finite _ = false

-- 2^53 - 1
abbrev pub max_safe_integer : ℕ
max_safe_integer = 9007199254740991

unfoldable pub is_safe_integer : Number → Bool
is_safe_integer (nat n) = leb n max_safe_integer
is_safe_integer (negsuc n) = ltb n max_safe_integer
is_safe_integer _ = false
