-- ===== src/Issuance/Window.antt =====
-- The limit of apps/api/src/modules/trust-bridge/digi-assertion.ts holds over every window.
use trustid.Base.{
  ℕ, ◌+◌, ◌≤◌, ◌≡◌, inl, inr, refl, sym, ap, ◌∙◌, subst, Bool, true, false, Option, none, some,
  List, [], ◌∷◌, ◌++◌, String, arith, leb, length, filter, get_or, ◌==◌, eq_iff, if◌then◌else◌,
  Bool-cases,
}
use trustid.Base.JsMap
use trustid.Base.JsMap.{JsMap, get-set, get-set_self}
use trustid.Issuance.{issue_max_per_window, Hits, is_recent, hits_of, assert_issuance_rate_limit}

filter-append : (p : ℕ → Bool) (xs ys : List ℕ) → filter p (xs ++ ys) ≡ filter p xs ++ filter p ys
filter-append p [] ys = refl
filter-append p (x ∷ xs) ys = elim (Bool-cases (p x)) [
  | inl kept ↦ ground (arith, filter-append p xs ys)
  | inr dropped ↦ ground (arith, filter-append p xs ys)
]

-- A filter that keeps less makes a weaker one before it redundant.
filter-filter :
    (p q : ℕ → Bool) (xs : List ℕ)
    → ((x : ℕ) → p x ≡ true → q x ≡ true)
    → filter p (filter q xs) ≡ filter p xs
filter-filter p q [] weaker = refl
filter-filter p q (x ∷ xs) weaker = elim (Bool-cases (q x)) [
  | inl kept ↦ ground (arith, filter-filter p q xs weaker)
  | inr dropped ↦ elim (Bool-cases (p x)) [
    | inl stronger ↦ absurd (ground (arith, weaker x stronger))
    | inr neither ↦ ground (arith, filter-filter p q xs weaker)
  ]
]

length-filter : (p : ℕ → Bool) (xs : List ℕ) → length (filter p xs) ≤ length xs
length-filter p [] = omega arith
length-filter p (x ∷ xs) = ground (arith, length-filter p xs)

length-append_one : (xs : List ℕ) (x : ℕ) → length (xs ++ (x ∷ [])) ≡ length xs + 1
length-append_one [] x = ground arith
length-append_one (y ∷ ys) x = ground (arith, length-append_one ys x)

-- A later window keeps nothing that an earlier one drops.
later_window : (now later t : ℕ) → now ≤ later → is_recent later t ≡ true → is_recent now t ≡ true
later_window now later t h recent = ground arith

-- Calls in the order of their times, each with its user: the times start at one and end by another,
-- and do not go back.
pub data IsOrdered : ℕ → List (String × ℕ) → ℕ → Type 0 where
  no_calls : {first final : ℕ} → first ≤ final → IsOrdered first [] final
  call_at :
      {first now final : ℕ} {user_id : String} {calls : List (String × ℕ)}
      → first ≤ now
      → IsOrdered now calls final
      → IsOrdered first ((user_id, now) ∷ calls) final

-- The hits after a call, accepted or not.
abbrev next_hits : Option Hits → Hits → Hits
next_hits none hits = hits
next_hits (some after) hits = after

-- The times of a user's accepted calls, after those known before.
abbrev add_accepted : Bool → Option Hits → ℕ → List ℕ → List ℕ
add_accepted mine none now log = log
add_accepted mine (some after) now log = if mine then log ++ (now ∷ []) else log

unfoldable pub accepted_times : String → List (String × ℕ) → Hits → List ℕ → List ℕ
accepted_times u [] hits log = log
accepted_times u ((user_id, now) ∷ calls) hits log =
    let result = assert_issuance_rate_limit user_id now hits in
    accepted_times u calls (next_hits result hits) (add_accepted (user_id == u) result now log)

-- The hits of a user agree with the times of the accepted calls on every window that ends later.
record Agrees (u : String) (hits : Hits) (log : List ℕ) (last : ℕ) : Type 0 where
  same :
      (now : ℕ) → last ≤ now → filter (is_recent now) (hits_of hits u) ≡ filter (is_recent now) log
  few : length (hits_of hits u) ≤ 10

Agrees-later :
    (u : String) (hits : Hits) (log : List ℕ) (last now : ℕ)
    → last ≤ now
    → Agrees u hits log last
    → Agrees u hits log now
Agrees-later u hits log last now h a = record {
  same = λ later g. a.same later (omega arith);
  few = a.few;
}

-- An accepted call of the user.
Agrees-accepted :
    (u : String) (hits : Hits) (log : List ℕ) (last now : ℕ)
    → last ≤ now
    → leb issue_max_per_window (length (filter (is_recent now) (hits_of hits u))) ≡ false
    → Agrees u hits log last
    → Agrees u
        (JsMap.set hits u (filter (is_recent now) (hits_of hits u) ++ (now ∷ [])))
        (log ++ (now ∷ []))
        now
Agrees-accepted u hits log last now h room a =
    let kept = filter (is_recent now) (hits_of hits u) in
    let stored : hits_of (JsMap.set hits u (kept ++ (now ∷ []))) u ≡ kept ++ (now ∷ []) =
      ap (λ o. get_or o []) (get-set_self hits u (kept ++ (now ∷ []))) in
    record {
      same = λ later g.
          ap (filter (is_recent later)) stored
          ∙ filter-append (is_recent later) kept (now ∷ [])
          ∙ ap (λ xs. xs ++ filter (is_recent later) (now ∷ []))
              (filter-filter (is_recent later) (is_recent now) (hits_of hits u)
                  (λ t. later_window now later t g)
                ∙ a.same later (omega arith))
          ∙ sym (filter-append (is_recent later) log (now ∷ []));
      few = rw (stored, length-append_one kept now) (room_for_one (length kept) room);
    }
  where
    room_for_one : (n : ℕ) → leb 10 n ≡ false → n + 1 ≤ 10
    room_for_one n free = ground arith

-- A call of another user.
Agrees-other :
    (u v : String) (hits : Hits) (log times : List ℕ) (last now : ℕ)
    → (v == u) ≡ false
    → last ≤ now
    → Agrees u hits log last
    → Agrees u (JsMap.set hits v times) log now
Agrees-other u v hits log times last now other h a =
    let unchanged : hits_of (JsMap.set hits v times) u ≡ hits_of hits u =
      ap (λ o. get_or o [])
        (get-set hits v u times ∙ ap (λ b. if b then some times else JsMap.get hits u) other) in
    record {
      same = λ later g. ap (filter (is_recent later)) unchanged ∙ a.same later (omega arith);
      few = rw (unchanged) a.few;
    }

Agrees-next :
    (u v : String) (hits : Hits) (log : List ℕ) (last now : ℕ)
    → last ≤ now
    → Agrees u hits log last
    → Agrees u
        (next_hits (assert_issuance_rate_limit v now hits) hits)
        (add_accepted (v == u) (assert_issuance_rate_limit v now hits) now log)
        now
unfolding assert_issuance_rate_limit
Agrees-next u v hits log last now h a =
    elim (Bool-cases
      (leb issue_max_per_window (length (filter (is_recent now) (hits_of hits v))))) [
        | inl full ↦ rw (full) (Agrees-later u hits log last now h a)
        | inr room ↦ elim (Bool-cases (v == u)) [
          | inl same ↦
              rw (room, same)
                (subst
                  (λ w.
                    Agrees u
                      (JsMap.set hits w (filter (is_recent now) (hits_of hits w) ++ (now ∷ [])))
                      (log ++ (now ∷ [])) now)
                  (sym ((eq_iff v u).0 same))
                  (Agrees-accepted u hits log last now h
                    (subst
                      (λ w.
                        leb issue_max_per_window (length (filter (is_recent now) (hits_of hits w)))
                        ≡ false)
                      ((eq_iff v u).0 same) room)
                    a))
          | inr other ↦
              rw (room, other)
                (Agrees-other u v hits log (filter (is_recent now) (hits_of hits v) ++ (now ∷ []))
                  last now other h a)
        ]
      ]

few_left : (p : ℕ → Bool) (xs : List ℕ) → length xs ≤ 10 → length (filter p xs) ≤ 10
few_left p xs h = omega (arith, length-filter p xs)

agreed :
    (u : String) (calls : List (String × ℕ)) (hits : Hits) (log : List ℕ) (first final : ℕ)
    → IsOrdered first calls final
    → Agrees u hits log first
    → length (filter (is_recent final) (accepted_times u calls hits log)) ≤ 10
unfolding accepted_times
agreed u [] hits log first final (no_calls h) a =
    subst (λ n. n ≤ 10) (ap length (a.same final h))
      (few_left (is_recent final) (hits_of hits u) a.few)
agreed u ((v, now) ∷ calls) hits log first final (call_at h rest) a =
    agreed u calls _ _ now final rest (Agrees-next u v hits log first now h a)

-- However the calls of all users come, with times that do not go back, no more than ten of one user's
-- calls are accepted in the 60 seconds before any time that is not before the last call.
pub accepted_times_lem :
    (u : String) (calls : List (String × ℕ)) (first final : ℕ)
    → IsOrdered first calls final
    → length (filter (is_recent final) (accepted_times u calls [] [])) ≤ 10
unfolding JsMap.get
accepted_times_lem u calls first final ordered =
    agreed u calls [] [] first final ordered (record { same = λ now h. refl; few = omega arith })
