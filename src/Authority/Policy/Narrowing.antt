-- ===== src/Authority/Policy/Narrowing.antt =====
-- What `assertDelegationSubset` of packages/digi-authority/src/policy.ts accepts.
use trustid.Base.{◌≡◌, ◌≤◌, ℕ, true, false, Option, some, IsSubset, All}
use trustid.Base.JsMap
use trustid.Base.Json.{Json, num, str}
use trustid.Base.Number.{Number, nat, num_lt, is_finite}
use trustid.Authority.Types.{at}
use trustid.Authority.Policy.Delegation.{Scope}

-- A child's value for a limit of the parent.
abbrev pub Bounds : Json → Option Json → Type 0
Bounds (num p) v =
    (n : Number) × (v ≡ some (num n))
    × (is_finite n ≡ true)
    × (num_lt n (nat 0) ≡ false)
    × (num_lt p n ≡ false)
Bounds (str p) v = v ≡ some (str p)
Bounds _ v = Unit {0}

pub record IsNarrower (parent child : Scope) : Type 0 where
  pub owner : child.owner_id ≡ parent.owner_id
  pub audience : child.audience ≡ parent.audience
  pub expires : (t : ℕ) → child.valid_until ≡ at t → (p : ℕ) → parent.valid_until ≡ at p → t ≤ p
  pub actions : IsSubset child.actions parent.actions
  pub resources : IsSubset child.resources parent.resources
  pub limits : All (λ kv. Bounds kv.1 (JsMap.get child.limits kv.0)) parent.limits
