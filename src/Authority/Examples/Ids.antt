-- ===== src/Authority/Examples/Ids.antt =====
-- Texts that differ from each other, as the ids of the hosts of the examples do.
use Prim.Native.String
use text.Mathlib.TextLemmas.{tail-eq_of_cons-eq}
use trustid.Base.{
  ℕ, zero, suc, ◌<◌, ◌≡◌, ◌≢◌, inl, inr, sym, ◌∙◌, ap, arith, eqb, eq_iff, ◌==◌, ◌&&◌, not, Bool,
  Bool-cases, true, String,
}

-- Whether no two of the texts below n are the same.
abbrev differs : (ℕ → String) → String → ℕ → Bool
differs f t zero = true
differs f t (suc n) = not (t == f n) && differs f t n

abbrev pub all_differ : (ℕ → String) → ℕ → Bool
all_differ f zero = true
all_differ f (suc n) = differs f (f n) n && all_differ f n

differs_lem :
    (f : ℕ → String) (t : String) (n : ℕ) → differs f t n ≡ true → (k : ℕ) → k < n → t ≢ f k
differs_lem f t zero h k below same = absurd (omega arith)
differs_lem f t (suc n) h k below same = elim (Bool-cases (eqb k n)) [
  | inl last ↦
      let at_last : k ≡ n = ground arith in
      let yes = (eq_iff t (f n)).1 (same ∙ ap f at_last) in ground arith
  | inr earlier ↦ differs_lem f t n (ground arith) k (ground arith) same
]

pub all_differ_lem :
    (f : ℕ → String) (n : ℕ) → all_differ f n ≡ true → (k m : ℕ) → k < m → m < n → f m ≢ f k
all_differ_lem f zero h k m before below same = absurd (omega arith)
all_differ_lem f (suc n) h k m before below same = elim (Bool-cases (eqb m n)) [
  | inl last ↦
      let at_last : m ≡ n = ground arith in
      differs_lem f (f n) n (ground arith) k (ground arith) (ap f (sym at_last) ∙ same)
  | inr earlier ↦ all_differ_lem f n (ground arith) k m before (ground arith) same
]

pub append_cancel : (p s t : String) → String.◌++◌ p s ≡ String.◌++◌ p t → s ≡ t
append_cancel String.[] s t h = sym (String.append.nil s) ∙ h ∙ String.append.nil t
append_cancel (String.◌∷◌ c p) s t h =
    append_cancel p s t
      (tail-eq_of_cons-eq (sym (String.append.cons c p s) ∙ h ∙ String.append.cons c p t))
