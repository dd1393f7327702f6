-- ===== src/Verifier/Resource.antt =====
-- The resources of ElfCom in packages/authority-verifier/src/index.ts, and that they are read back.
use Prim.Native.Char.{code}
use Prim.Native.String
use trustid.Base.{
  ◌≡◌, refl, ap, ◌∙◌, Bool, true, not, Option, none, some, String, arith, eqb, any, ◌&&◌, ◌==◌,
  if◌then◌else◌,
}
use trustid.Base.Text.{codes}

pub data ElfComResource : Type 0 where
  conversation : String → ElfComResource
  recipient : String → ElfComResource

-- The text after a prefix.
unfoldable pub after_prefix : String → String → Option String
after_prefix String.[] s = some s
after_prefix (String.◌∷◌ c p) String.[] = none
after_prefix (String.◌∷◌ c p) (String.◌∷◌ d s) =
    let rest = after_prefix p s in if eqb (code c) (code d) then rest else none

-- `[^:]+`, for the whole text.
abbrev pub is_segment : String → Bool
is_segment s = not (s == "") && not (any (eqb b':') (codes s))

abbrev pub segment_after : String → String → Option String
segment_after prefix raw = elim (after_prefix prefix raw) [
  | none ↦ none
  | some s ↦ if is_segment s then some s else none
]

abbrev pub conversation_or : Option String → Option ElfComResource → Option ElfComResource
conversation_or (some id) other = some (conversation id)
conversation_or none other = other

abbrev pub recipient_of : Option String → Option ElfComResource
recipient_of (some id) = some (recipient id)
recipient_of none = none

unfoldable pub parse_elf_com_resource : String → Option ElfComResource
parse_elf_com_resource raw =
    conversation_or (segment_after "elfcom:conversation:" raw)
      (recipient_of (segment_after "elfcom:recipient:" raw))

unfoldable pub elf_com_conversation_resource : String → String
elf_com_conversation_resource conversation_id = String.◌++◌ "elfcom:conversation:" conversation_id

unfoldable pub elf_com_recipient_resource : String → String
elf_com_recipient_resource trust_id = String.◌++◌ "elfcom:recipient:" trust_id

-- The resource of the source's two functions that write one.
unfoldable pub write_resource : ElfComResource → String
write_resource (conversation id) = elf_com_conversation_resource id
write_resource (recipient id) = elf_com_recipient_resource id

abbrev pub id_of : ElfComResource → String
id_of (conversation id) = id
id_of (recipient id) = id

after_prefix-append : (p s : String) → after_prefix p (String.◌++◌ p s) ≡ some s
unfolding after_prefix
after_prefix-append String.[] s = rw (String.append.nil s) refl
after_prefix-append (String.◌∷◌ c p) s =
    rw (String.append.cons c p s) (ground (arith, after_prefix-append p s))

other_prefix :
    (s : String) → after_prefix "elfcom:conversation:" (String.◌++◌ "elfcom:recipient:" s) ≡ none
unfolding after_prefix
other_prefix s =
    rw
      (
        String.append.cons "e" "lfcom:recipient:" s,
        String.append.cons "l" "fcom:recipient:" s,
        String.append.cons "f" "com:recipient:" s,
        String.append.cons "c" "om:recipient:" s,
        String.append.cons "o" "m:recipient:" s,
        String.append.cons "m" ":recipient:" s,
        String.append.cons ":" "recipient:" s,
        String.append.cons "r" "ecipient:" s,
      )
      refl

segment_found :
    (prefix raw s : String)
    → after_prefix prefix raw ≡ some s
    → is_segment s ≡ true
    → segment_after prefix raw ≡ some s
segment_found prefix raw s there h = rw (segment_after, there, h) refl

segment_missing :
    (prefix raw : String) → after_prefix prefix raw ≡ none → segment_after prefix raw ≡ none
segment_missing prefix raw missing = rw (segment_after, missing) refl

-- A resource whose id is not empty and has no colon is read back from its text.
pub parse-write_resource :
    (r : ElfComResource)
    → is_segment (id_of r) ≡ true
    → parse_elf_com_resource (write_resource r) ≡ some r
unfolding parse_elf_com_resource write_resource elf_com_conversation_resource
    elf_com_recipient_resource
parse-write_resource (conversation id) h =
    let raw = String.◌++◌ "elfcom:conversation:" id in
    let found =
      segment_found "elfcom:conversation:" raw id (after_prefix-append "elfcom:conversation:" id)
        h in
    ap (λ o. conversation_or o (recipient_of (segment_after "elfcom:recipient:" raw))) found
parse-write_resource (recipient id) h =
    let raw = String.◌++◌ "elfcom:recipient:" id in
    let found =
      segment_found "elfcom:recipient:" raw id (after_prefix-append "elfcom:recipient:" id) h in
    ap (λ o. conversation_or o (recipient_of (segment_after "elfcom:recipient:" raw)))
      (segment_missing "elfcom:conversation:" raw (other_prefix id))
    ∙ ap recipient_of found
