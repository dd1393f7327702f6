-- ===== src/Authority/Actors.antt =====
-- Actor keys: `actorKey` and `parseActorKey` of packages/digi-authority/src/types.ts.
use Prim.Native.String
use Prim.Native.Char.{code}
use trustid.Base.{
  if◌then◌else◌, eqb, ◌≡◌, refl, Bool, true, false, some, String, ◌==◌, arith, Bool-cases, inl, inr,
}
use trustid.Base.Text.{trim}
use trustid.Authority.Types.{
  ActorType, ActorRef, human, app, service, digital_twin, device, business, type_text, actor_key,
  parse_actor_key, split_at_colon, parse_type,
}

-- A text without a colon.
abbrev has_no_colon : String → Bool
has_no_colon String.[] = true
has_no_colon (String.◌∷◌ c s) =
    let rest = has_no_colon s in if eqb (code c) b':' then false else rest

split_first :
    (s i : String)
    → has_no_colon s ≡ true
    → split_at_colon (String.◌++◌ (String.◌++◌ s ":") i) ≡ some (s, i)
unfolding split_at_colon
split_first String.[] i h =
    rw (String.append.nil ":") (rw (String.append.cons ":" "" i) (rw (String.append.nil i) refl))
split_first (String.◌∷◌ c s) i h = elim (Bool-cases (eqb (code c) b':')) [
  | inl colon ↦ absurd (ground arith)
  | inr other ↦
      let rest = split_first s i (ground arith) in
      rw (String.append.cons c s ":")
        (rw (String.append.cons c (String.◌++◌ s ":") i) (rw other (rw rest refl)))
]

split-actor_key :
    (t : ActorType) (i : String) → split_at_colon (actor_key t i) ≡ some (type_text t, i)
unfolding actor_key
split-actor_key human i = split_first "human" i refl
split-actor_key app i = split_first "app" i refl
split-actor_key service i = split_first "service" i refl
split-actor_key digital_twin i = split_first "digital_twin" i refl
split-actor_key device i = split_first "device" i refl
split-actor_key business i = split_first "business" i refl

parse_type-text : (t : ActorType) → parse_type (type_text t) ≡ some t
unfolding parse_type
parse_type-text human = refl
parse_type-text app = refl
parse_type-text service = refl
parse_type-text digital_twin = refl
parse_type-text device = refl
parse_type-text business = refl

-- An actor whose id is not empty and has no blanks at its ends is read back from its key.
pub parse-actor_key :
    (a : ActorRef)
    → trim a.id ≡ a.id
    → (a.id == "") ≡ false
    → parse_actor_key (actor_key a.type a.id) ≡ some a
unfolding parse_actor_key
parse-actor_key a trimmed present =
    rw (split-actor_key a.type a.id) (rw trimmed (rw (parse_type-text a.type) (rw present refl)))
