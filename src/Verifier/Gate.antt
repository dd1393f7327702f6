-- ===== src/Verifier/Gate.antt =====
-- `authorizeAuthority` of packages/authority-verifier/src/index.ts lets an operation through only when
-- Digi has consumed the token for it.
use trustid.Base.{
  ◌≡◌, inl, inr, refl, sym, ap, ◌∙◌, Bool, true, false, ◌||◌, Option, none, some, String, arith,
  eq_iff,
}
use trustid.Base.Effect.{ok, failed, Effect, Outcome-cases}
use trustid.Authority.Types.{Claims}
use trustid.Authority.Tokens.{same_text}
use trustid.Verifier.{
  Refusal, VerifyAuthorityInput, VerifierHost, verify_authority, Presented, Decision, presented,
  bind_decision, consumed_as, consume_verified, authorize_authority,
}
use trustid.Verifier.Accepted.{passed, not-false}

-- What Digi answered to an operation that is let through.
pub record IsConsumed {S : Type 0} (consume : Presented → Effect S Refusal Decision)
    (i : VerifyAuthorityInput) (s : S) (c : Claims) : Type 0 where
  pub decision : Decision
  pub answered : (consume (presented i) s).0 ≡ ok decision
  pub allowed : decision.decision ≡ "ALLOW"
  pub grant_id : decision.grant_id ≡ some c.grant_id
  pub jti : decision.jti ≡ some c.jti

same_inv : (o : Option String) (t : String) → same_text o (some t) ≡ true → o ≡ some t
same_inv none t h = absurd cc
same_inv (some u) t h = ap some ((eq_iff u t).0 h)

either_false : (a b : Bool) → (a || b) ≡ false → (a ≡ false) × (b ≡ false)
either_false a b h = (ground arith, ground arith)

bind_inv :
    (c a : Claims) (d : Decision)
    → bind_decision c d ≡ ok a
    → (a ≡ c) × (d.decision ≡ "ALLOW") × (d.grant_id ≡ some c.grant_id) × (d.jti ≡ some c.jti)
unfolding bind_decision
bind_inv c a d h =
    let (allowed, h1) = passed _ _ _ a h in
    let (bound, h2) = passed _ _ _ a h1 in
    let (grant_id, jti) = either_false _ _ bound in
    (
      cc,
      (eq_iff d.decision "ALLOW").0 (not-false _ allowed),
      same_inv d.grant_id c.grant_id (not-false _ grant_id),
      same_inv d.jti c.jti (not-false _ jti),
    )

module _ {S : Type 0} (host : VerifierHost) (consume : Presented → Effect S Refusal Decision) where
  -- An operation is let through only with the claims of a verified token, after Digi has answered ALLOW
  -- to the same token and operation, for the same grant and the same token id. No answer, an error or
  -- any other decision lets nothing through.
  pub authorize_authority_lem :
      (i : VerifyAuthorityInput) (s : S) (c : Claims)
      → (authorize_authority host consume i s).0 ≡ ok c
      → (verify_authority host i ≡ ok c)
        × IsConsumed consume i s c
        × ((authorize_authority host consume i s).1 ≡ (consume (presented i) s).1)
  unfolding authorize_authority consume_verified consumed_as
  authorize_authority_lem i s c h = elim (Outcome-cases (verify_authority host i)) [
    | inl (a, accepted) ↦ elim (Outcome-cases (consume (presented i) s).0) [
      | inl (d, answered) ↦
          let run : (authorize_authority host consume i s).0 ≡ bind_decision a d =
            rw (accepted, consume_verified, answered, consumed_as) refl in
          let (same, allowed, grant_id, jti) = bind_inv a c d (sym run ∙ h) in
          (
            accepted ∙ ap ok (sym same),
            record {
              decision = d;
              answered = answered;
              allowed = allowed;
              grant_id = grant_id ∙ ap (λ x. some x.grant_id) (sym same);
              jti = jti ∙ ap (λ x. some x.jti) (sym same);
            },
            rw (accepted, consume_verified) refl,
          )
      | inr (inl (r, failing)) ↦ absurd (ground arith)
      | inr (inr (m, throwing)) ↦ absurd (ground arith)
    ]
    | inr (inl (r, refused)) ↦ absurd (ground arith)
    | inr (inr (m, throwing)) ↦ absurd (ground arith)
  ]

  -- A token that does not verify is never sent to Digi.
  pub authorize-unverified :
      (i : VerifyAuthorityInput) (s : S) (r : Refusal)
      → verify_authority host i ≡ failed r
      → authorize_authority host consume i s ≡ (failed r, s)
  unfolding authorize_authority consume_verified
  authorize-unverified i s r refused = rw (refused, consume_verified) refl
