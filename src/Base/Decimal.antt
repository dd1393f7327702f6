-- ===== src/Base/Decimal.antt =====
-- `String(n)` and `Number(s)` of JavaScript. Fractions, exponents and the other bases are left out: a
-- text with one of them is read as NaN here.
use Prim.Native.Nat.{ℕ, zero, suc, ◌+◌, ◌-◌, ◌*◌, ◌/◌, ◌%◌}
use Prim.Native.Char.{Char, code}
use Prim.Native.String.{String}
use mathlib.Core.Bool.{◌&&◌}
use mathlib.Core.Option.{Option, none, some}
use text.Mathlib.Text.{◌==◌}
use trustid.Base.Tests.{ltb, leb, if◌then◌else◌}
use trustid.Base.Number.{Number, nat, negsuc, nan, infinite}
use trustid.Base.Text.{trim}

abbrev digit : ℕ → Char
digit zero = "0"
digit (suc zero) = "1"
digit (suc (suc zero)) = "2"
digit (suc (suc (suc zero))) = "3"
digit (suc (suc (suc (suc zero)))) = "4"
digit (suc (suc (suc (suc (suc zero))))) = "5"
digit (suc (suc (suc (suc (suc (suc zero)))))) = "6"
digit (suc (suc (suc (suc (suc (suc (suc zero))))))) = "7"
digit (suc (suc (suc (suc (suc (suc (suc (suc zero)))))))) = "8"
digit _ = "9"

-- The digits of n before a text; fuel above n is enough, since n / 10 < n.
unfoldable digits_before : ℕ → ℕ → String → String
digits_before zero n s = s
digits_before (suc fuel) n s =
    let more = digits_before fuel (n / 10) (String.◌∷◌ (digit (n % 10)) s) in
    if ltb n 10 then String.◌∷◌ (digit n) s else more

unfoldable pub number_text : Number → String
unfolding digits_before
number_text (nat n) = digits_before (suc n) n ""
number_text (negsuc n) = String.◌∷◌ "-" (digits_before (suc (suc n)) (suc n) "")
number_text nan = "NaN"
number_text infinite = "Infinity"

unfoldable digits_value : String → ℕ → Option ℕ
digits_value String.[] n = some n
digits_value (String.◌∷◌ c s) n =
    let rest = digits_value s (n * 10 + (code c - b'0')) in
    if leb b'0' (code c) && leb (code c) b'9' then rest else none

abbrev natural : Option ℕ → Number
natural (some n) = nat n
natural none = nan

unfoldable unsigned : String → Number
unfolding digits_value
unsigned String.[] = nan
unsigned (String.◌∷◌ c s) =
    if String.◌∷◌ c s == "Infinity" then infinite else natural (digits_value (String.◌∷◌ c s) 0)

abbrev negative : Number → Number
negative (nat zero) = nat zero
negative (nat (suc n)) = negsuc n
negative _ = nan

abbrev with_sign : ℕ → String → String → Number
with_sign first rest whole =
    if leb first b'+' && leb b'+' first
    then unsigned rest
    else if leb first b'-' && leb b'-' first
    then negative (unsigned rest)
    else unsigned whole

abbrev signed : String → Number
signed String.[] = nat 0
signed (String.◌∷◌ c s) = with_sign (code c) s (String.◌∷◌ c s)

unfoldable pub text_number : String → Number
unfolding trim unsigned
text_number s = signed (trim s)
