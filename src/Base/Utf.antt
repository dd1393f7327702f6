-- ===== src/Base/Utf.antt =====
-- A text in UTF-16 units, as JavaScript counts and compares them, and its length in UTF-8 bytes, as
-- Node's buffers do.
use Prim.Native.Nat.{ℕ, ◌+◌, ◌-◌, ◌/◌, ◌%◌}
use Prim.Native.Char.{code}
use Prim.Native.String.{String}
use mathlib.Core.List.{List, [], ◌∷◌}
use trustid.Base.Tests.{ltb, if◌then◌else◌}

-- The units of a text: a code point from 65536 on is two.
unfoldable pub utf16_units : String → List ℕ
utf16_units String.[] = []
utf16_units (String.◌∷◌ c s) =
    let rest = utf16_units s in
    if ltb (code c) 65536
    then code c ∷ rest
    else (55296 + (code c - 65536) / 1024) ∷ (56320 + (code c - 65536) % 1024) ∷ rest

-- `s.length`
abbrev pub utf16_length : String → ℕ
utf16_length String.[] = 0
utf16_length (String.◌∷◌ c s) = (if ltb (code c) 65536 then 1 else 2) + utf16_length s

-- `Buffer.from(s).length`
abbrev pub utf8_length : String → ℕ
utf8_length String.[] = 0
utf8_length (String.◌∷◌ c s) =
    (if ltb (code c) 128
      then 1
      else if ltb (code c) 2048
      then 2
      else if ltb (code c) 65536
      then 3
      else 4)
    + utf8_length s
