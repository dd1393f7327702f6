-- ===== src/Authority/Issuance.antt =====
-- The tokens that `issueToken` mints, against the grant that they are for.
use trustid.Base.{
  ℕ, suc, ◌+◌, ◌/◌, ◌≤◌, ◌<◌, ◌≡◌, refl, true, Option, none, some, String, arith, includes, inl,
  inr, Bool-cases, Option-cases, eq_iff, ◌==◌, IsSubset, every-IsSubset, every, get_or,
}
use trustid.Base.JsMap
use trustid.Base.Number.{Number, nat, negsuc, nan, infinite, num_min, num_le}
use trustid.Base.Effect.{ok, fail, ◌>>=◌}
use trustid.Authority.Types.{
  Grant, Claims, Date, at, past, invalid, actor_key, mode_text, authority_issuer,
}
use trustid.Authority.Store.{get_grant}
use trustid.Authority.Tokens.{Minted, MintInput, mint_authority_token, mint_claims}
use trustid.Authority.Service.Env.{
  Env, random_id, Service, audit, now_fn, new_id, ask, read_store, grant_is_live, remaining_seconds,
}
use trustid.Authority.Service.Issue.{
  Narrow, ScopeOf, scope_of, refuse_issue, stop_for, lift, owned, mint_input, token_ttl,
  issue_token_from_grant, issue_found, issue_token,
}

-- A token's time to live is at most 300 seconds and at most what remains of the grant.
token_ttl_bounds :
    (asked : Option Number) (default : Number) (until : Date) (now n : ℕ)
    → token_ttl asked default (remaining_seconds until now) ≡ nat n
    → (n ≤ 300) × ((t : ℕ) → until ≡ at t → n + now / 1000 ≤ t / 1000)
unfolding token_ttl remaining_seconds num_min num_le
token_ttl_bounds asked default (at t) now n h = go (get_or asked default) h
  where
    go :
        (x : Number)
        → num_min (num_min x (nat 300)) (remaining_seconds (at t) now) ≡ nat n
        → (n ≤ 300) × ((u : ℕ) → at t ≡ at u → n + now / 1000 ≤ u / 1000)
    go (nat a) e = (ground arith, λ u q. ground arith)
    go (negsuc a) e = absurd (ground arith)
    go nan e = absurd (ground arith)
    go infinite e = (ground arith, λ u q. ground arith)
token_ttl_bounds asked default (past t) now n h = go (get_or asked default) h
  where
    go :
        (x : Number)
        → num_min (num_min x (nat 300)) (remaining_seconds (past t) now) ≡ nat n
        → (n ≤ 300) × ((u : ℕ) → past t ≡ at u → n + now / 1000 ≤ u / 1000)
    go (nat a) e = absurd (ground arith)
    go (negsuc a) e = absurd (ground arith)
    go nan e = absurd (ground arith)
    go infinite e = absurd (ground arith)
token_ttl_bounds asked default invalid now n h = absurd (ground arith)

module _ (env : Env) where
  -- The mint that a token comes from, at one reading of the clock for its time to live and the next
  -- for its claims.
  abbrev MintedAt : Grant → ScopeOf → Minted → ℕ → Type 0
  MintedAt g scope m k =
      (jti : String) × (trust : Option String) × (mint_authority_token env.jose env.signing_key (
          mint_input g scope
            (token_ttl scope.ttl_seconds env.token_ttl_seconds
              (remaining_seconds g.valid_until (env.now_fn k)))
            jti trust (env.now_fn (suc k)))
        ≡ ok m)

  -- The reading of the clock for the time to live: after the id and after the question who the owner
  -- is, where there is a resolver.
  abbrev pub ttl_tick : ℕ → ℕ
  ttl_tick k = elim env.resolve_owner_trust_id [ none ↦ suc k | some f ↦ suc (suc k) ]

  issue_from_inv :
      (g : Grant) (scope : ScopeOf) (m : Minted) (s : Service)
      → (issue_token_from_grant env g scope s).0 ≡ ok m
      → MintedAt g scope m (ttl_tick s.ticks)
  unfolding issue_token_from_grant new_id now_fn ask lift audit ◌>>=◌
  issue_from_inv g scope m s h = elim (Option-cases env.resolve_owner_trust_id) [
    | inl absent ↦ (random_id env "jti" s.ticks, none, ground arith)
    | inr (f, present) ↦ (random_id env "jti" s.ticks, f (suc s.ticks) g.owner_id, ground arith)
  ]

-- What the minted claims say of the grant, at a clock reading `q` for the time to live and a reading
-- `a` for the claims.
pub record IsTokenFor (g : Grant) (c : Claims) (q a : ℕ) : Type 0 where
  pub issuer : c.iss ≡ authority_issuer
  pub subject : c.sub ≡ g.owner_id
  pub audience : c.aud ≡ g.audience
  pub actor : c.actor ≡ actor_key g.actor_type g.actor_id
  pub actions : IsSubset c.actions g.actions
  pub resources : IsSubset c.resources g.resources
  pub limits : c.limits ≡ g.limits
  pub approval : c.approval ≡ mode_text g.approval_mode
  pub grant_id : c.grant_id ≡ g.id
  pub grant_version : c.grant_version ≡ nat g.grant_version
  pub one_time : c.one_time ≡ g.one_time
  pub issued : c.iat ≡ nat (a / 1000)
  pub ttl : ℕ
  pub expires : c.exp ≡ nat (a / 1000 + ttl)
  pub lives : 0 < ttl
  pub short : ttl ≤ 300
  pub within : (t : ℕ) → g.valid_until ≡ at t → ttl + q / 1000 ≤ t / 1000

mint_inv :
    (env : Env) (i : MintInput) (token : String) (c : Claims)
    → mint_authority_token env.jose env.signing_key i ≡ ok (token, c)
    → (n : ℕ) × (i.ttl_seconds ≡ nat n) × (0 < n) × (c ≡ mint_claims i n)
unfolding mint_authority_token
mint_inv env i token c h = go i.ttl_seconds refl
  where
    go :
        (x : Number)
        → i.ttl_seconds ≡ x
        → (n : ℕ) × (i.ttl_seconds ≡ nat n) × (0 < n) × (c ≡ mint_claims i n)
    go (nat n) e = (n, e, ground arith, ground arith)
    go (negsuc n) e = absurd (ground arith)
    go nan e = absurd (ground arith)
    go infinite e = absurd (ground arith)

refuse_issue_subsets :
    (g : Grant) (scope : ScopeOf) (max : Number) (now : ℕ)
    → refuse_issue g scope max now ≡ none
    → (grant_is_live g now ≡ true)
      × (every (includes g.actions) scope.actions ≡ true)
      × (every (includes g.resources) scope.resources ≡ true)
unfolding refuse_issue
refuse_issue_subsets g scope max now h = ground arith

module _ (env : Env) where
  issue_found_inv :
      (n : Narrow) (g : Grant) (m : Minted) (s : Service)
      → (issue_found env n (some g) s).0 ≡ ok m
      → (refuse_issue g (scope_of g n) env.token_ttl_seconds (env.now_fn s.ticks) ≡ none)
        × ((issue_token_from_grant env g (scope_of g n) (record s { ticks = suc s.ticks })).0
            ≡ ok m)
  unfolding issue_found stop_for fail now_fn ask ◌>>=◌
  issue_found_inv n g m s h = ground arith

  issue_token_inv :
      (owner id : String) (n : Narrow) (m : Minted) (s : Service)
      → (issue_token env owner id n s).0 ≡ ok m
      → (g : Grant) × (JsMap.get s.store.grants id ≡ some g)
        × (g.owner_id ≡ owner)
        × ((issue_found env n (some g) s).0 ≡ ok m)
  unfolding issue_token read_store get_grant owned issue_found fail ◌>>=◌
  issue_token_inv owner id n m s h = elim (Option-cases (JsMap.get s.store.grants id)) [
    | inl missing ↦ absurd (ground arith)
    | inr (g, found) ↦ elim (Bool-cases (g.owner_id == owner)) [
      | inl mine ↦ (g, found, (eq_iff g.owner_id owner).0 mine, ground arith)
      | inr other ↦ absurd (ground arith)
    ]
  ]

  token_for :
      (g : Grant) (scope : ScopeOf) (token : String) (c : Claims) (k : ℕ)
      → MintedAt env g scope (token, c) k
      → every (includes g.actions) scope.actions ≡ true
      → every (includes g.resources) scope.resources ≡ true
      → IsTokenFor g c (env.now_fn k) (env.now_fn (suc k))
  unfolding mint_input mint_claims
  token_for g scope token c k (jti, trust, minted) acts ress =
      let (n, ttl, pos, same) = mint_inv env _ token c minted in
      let (short, within) =
        token_ttl_bounds scope.ttl_seconds env.token_ttl_seconds g.valid_until (env.now_fn k) n
          ttl in
      rw same (record {
        issuer = refl;
        subject = refl;
        audience = refl;
        actor = refl;
        actions = every-IsSubset g.actions scope.actions acts;
        resources = every-IsSubset g.resources scope.resources ress;
        limits = refl;
        approval = refl;
        grant_id = refl;
        grant_version = refl;
        one_time = refl;
        issued = refl;
        ttl = n;
        expires = refl;
        lives = pos;
        short = short;
        within = within;
      })

  -- A token that `issueToken` returns is for a grant of the caller that is live, with the grant's
  -- owner, actor, audience, limits and version, and no action or resource that the grant lacks. It
  -- lives for between 1 and 300 seconds from its issuance. The time to live is taken at one reading of
  -- the clock and the issuance at the next: counted from the first of them, the token ends no later
  -- than the grant, so it outlives the grant at most by the seconds between the two.
  pub issue_token-IsTokenFor :
      (owner id : String) (n : Narrow) (token : String) (c : Claims) (s : Service)
      → (issue_token env owner id n s).0 ≡ ok (token, c)
      → (g : Grant) × (JsMap.get s.store.grants id ≡ some g)
        × (g.owner_id ≡ owner)
        × (grant_is_live g (env.now_fn s.ticks) ≡ true)
        × IsTokenFor g c
            (env.now_fn (ttl_tick env (suc s.ticks)))
            (env.now_fn (suc (ttl_tick env (suc s.ticks))))
  issue_token-IsTokenFor owner id n token c s h =
      let (g, found, mine, later) = issue_token_inv owner id n (token, c) s h in
      let (passed, minted) = issue_found_inv n g (token, c) s later in
      let (live, acts, ress) =
        refuse_issue_subsets g (scope_of g n) env.token_ttl_seconds (env.now_fn s.ticks) passed in
      let minting = issue_from_inv env g (scope_of g n) (token, c) _ minted in
      (g, found, mine, live, token_for g (scope_of g n) token c _ minting acts ress)
