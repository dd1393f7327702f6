-- ===== src/Bridge/Memory/Key.antt =====
-- The key of an identity in packages/digi-bridge/src/stores.ts tells identities of issuers without a
-- NUL apart.
use Prim.Native.Char.{code}
use Prim.Native.String
use trustid.Base.{
  ◌≡◌, inl, inr, refl, sym, ap, ◌∙◌, Bool, true, false, Option, none, some, String, arith, eqb,
  if◌then◌else◌, Bool-cases,
}
use trustid.Bridge.Memory.{key, separator}

-- The issuer and the subject of a key: what stands before and after the first NUL.
unfoldable split_key : String → Option (String × String)
split_key String.[] = none
split_key (String.◌∷◌ c s) =
    let rest = split_key s in
    if eqb (code c) 0
    then some (String.[], s)
    else elim rest [ none ↦ none | some (issuer, subject) ↦ some (String.◌∷◌ c issuer, subject) ]

unfoldable pub has_no_nul : String → Bool
has_no_nul String.[] = true
has_no_nul (String.◌∷◌ c s) = let rest = has_no_nul s in if eqb (code c) 0 then false else rest

split-key :
    (issuer subject : String)
    → has_no_nul issuer ≡ true
    → split_key (key issuer subject) ≡ some (issuer, subject)
unfolding split_key has_no_nul key
split-key String.[] subject h =
    rw (String.append.nil (String.◌++◌ separator subject))
      (rw (String.append.cons "\0" "" subject) (rw (String.append.nil subject) refl))
split-key (String.◌∷◌ c s) subject h = elim (Bool-cases (eqb (code c) 0)) [
  | inl nul ↦ absurd (ground arith)
  | inr other ↦
      let rest = split-key s subject (ground arith) in
      rw (String.append.cons c s (String.◌++◌ separator subject)) (rw (other, rest) refl)
]

-- Two identities of issuers without a NUL have the same key only if they have the same issuer and the
-- same subject.
pub key-injective :
    (issuer subject issuer' subject' : String)
    → has_no_nul issuer ≡ true
    → has_no_nul issuer' ≡ true
    → key issuer subject ≡ key issuer' subject'
    → (issuer ≡ issuer') × (subject ≡ subject')
key-injective issuer subject issuer' subject' h h' same =
    let e = sym (split-key issuer subject h) ∙ ap split_key same ∙ split-key issuer' subject' h' in
    (ground arith, ground arith)
