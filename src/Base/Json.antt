-- ===== src/Base/Json.antt =====
-- JavaScript's plain values, as objects of type `unknown` hold them.
use Prim.Native.String.{String}
use mathlib.Core.Bool.{Bool}
use mathlib.Core.List.{List, [], ◌∷◌}
use trustid.Base.Number.{Number}

mutual
  pub data Json : Type 0 where
    null undefined : Json
    bool : Bool → Json
    num : Number → Json
    str : String → Json
    arr : Items → Json
    obj : Fields → Json

  pub data Items : Type 0 where
    nil : Items
    cons : Json → Items → Items

  pub data Fields : Type 0 where
    end : Fields
    field : String → Json → Fields → Fields

-- An array's elements, and an array of texts.
abbrev pub elems : Items → List Json
elems nil = []
elems (cons v vs) = v ∷ elems vs

abbrev pub texts_json : List String → Items
texts_json [] = nil
texts_json (s ∷ ss) = cons (str s) (texts_json ss)

-- An object's own entries, `Object.entries(o)`, and back.
abbrev pub entries : Fields → List (String × Json)
entries end = []
entries (field k v fs) = (k, v) ∷ entries fs

abbrev pub object : List (String × Json) → Fields
object [] = end
object ((k, v) ∷ kvs) = field k v (object kvs)
