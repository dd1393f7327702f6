-- ===== src/Authority/Decisions.antt =====
-- The decisions of `check`.
use trustid.Base.{
  ◌≡◌, ◌⊎◌, refl, Bool, true, false, not, ◌&&◌, none, some, [], ◌∷◌, String, arith, inl, inr,
  Bool-cases, eq_iff, find,
}
use trustid.Base.Effect.{ok, ◌>>=◌}
use trustid.Authority.Types.{
  ActorRef, app, deny, ask_owner, Reason, CheckInput, denied_for, asked, owner_boundary,
  step_up_required, policy_deny,
}
use trustid.Authority.Policy.{
  ActorPolicy, digi_authority_policies, ddi_pdi_application_policy, ddi_pdi_capability_binding,
  evaluate_actor_policy, evaluate_rules, rule_applies,
}
use trustid.Authority.Store.{create_request}
use trustid.Authority.Service.Env.{
  Env, Service, audit, now_fn, insert_request, find_policy, is_own_app,
}
use trustid.Authority.Service.Check.{
  policy_match, deny_check, ask, decide_by, decide, refuse_own_app, request_and_decide, check,
}

-- A resource of the DDI that an app may ask for.
abbrev pub IsDdiRequest : CheckInput → Type 0
IsDdiRequest i =
    (i.actor.type ≡ app)
    × (i.audience ≡ "ddi")
    × (ddi_pdi_capability_binding i.action i.resource ≡ true)

find_one :
    (p : ActorPolicy → Bool) (x : ActorPolicy)
    → (find p (x ∷ []) ≡ none) ⊎ (find p (x ∷ []) ≡ some x)
find_one p x = ground arith

ddi_match :
    (i : CheckInput)
    → let m =
        evaluate_actor_policy ddi_pdi_application_policy i.actor i.action i.audience i.resource in
      ((m.decision ≡ ask_owner) × IsDdiRequest i) ⊎ (m.decision ≡ deny)
unfolding evaluate_actor_policy ddi_pdi_application_policy evaluate_rules rule_applies
ddi_match i = ground (arith, eq_iff "ddi" i.audience)

module _ (env : Env) (production : env.policies ≡ digi_authority_policies true) where
  production_policy :
      (a : ActorRef) (audience : String)
      → (find_policy env a audience ≡ none)
        ⊎ (find_policy env a audience ≡ some ddi_pdi_application_policy)
  unfolding find_policy digi_authority_policies
  production_policy a audience = rw production (ground arith)

  production_match :
      (i : CheckInput)
      → (((policy_match env i).decision ≡ ask_owner) × IsDdiRequest i)
        ⊎ ((policy_match env i).decision ≡ deny)
  unfolding policy_match
  production_match i = elim (production_policy i.actor i.audience) [
    | inl missing ↦ rw (missing, policy_match) (inr refl)
    | inr found ↦ rw (found, policy_match) (ddi_match i)
  ]

  -- With the production policies, `check` never allows: it denies, or it asks the owner, and that only
  -- for an app on a DDI resource that its action binds, not for an app that names itself as the owner.
  -- It ends in a decision and changes no grant.
  pub check_production :
      (i : CheckInput) (s : Service)
      → (((r : Reason) × ((check env i s).0 ≡ ok (denied_for r)))
          ⊎ ((id : String) × ((check env i s).0 ≡ ok (asked id))
              × IsDdiRequest i
              × (is_own_app i.actor.type i.actor.id i.owner_id ≡ false)))
        × ((check env i s).1.store.grants ≡ s.store.grants)
  unfolding check refuse_own_app request_and_decide decide deny_check decide_by ask audit now_fn
      insert_request create_request ◌>>=◌
  check_production i s = elim (Bool-cases (is_own_app i.actor.type i.actor.id i.owner_id)) [
    | inl own ↦ rw (own, check) (inl (owner_boundary, refl), refl)
    | inr other ↦
        rw (other, check)
          (elim (Bool-cases ((policy_match env i).require_step_up && not i.step_up_provided)) [
            | inl stepped ↦ rw (stepped, decide) (inl (step_up_required, refl), refl)
            | inr passed ↦
                rw (passed, decide)
                  (elim (production_match i) [
                    | inl (asks, ddi) ↦ rw (asks, decide_by) (inr (_, refl, ddi, refl), refl)
                    | inr denies ↦ rw (denies, decide_by) (inl (policy_deny, refl), refl)
                  ])
          ])
  ]
