-- ===== src/Verifier/Accepted.antt =====
-- What holds of a token that `verifyAuthority` of packages/authority-verifier/src/index.ts accepts.
use trustid.Base.{
  ◌/◌, ◌≡◌, ◌⊎◌, inl, inr, refl, ap, ◌∙◌, Bool, true, false, not, ◌&&◌, ◌||◌, Option, none, some,
  List, [], ◌∷◌, String, includes, find, get_or, ◌==◌, eq_iff, if◌then◌else◌,
}
use trustid.Base.JsMap
use trustid.Base.Number.{nat, num_lt}
use trustid.Base.Text.{trim}
use trustid.Base.Effect.{Outcome, ok, failed}
use trustid.Authority.Types.{Claims}
use trustid.Authority.Claims.{Payload, is_authority_claims_shape}
use trustid.Authority.Tokens.{Jwk, Header, Attempt, value, raised, same_text, number_of}
use trustid.Verifier.{
  VerifyAuthorityInput, VerifierHost, verified_claims, match_claims, admit, jwt_options, explain,
  settle, verify_by_jwk, verify_by, verify_decoded, verify_authority,
}

-- A test that a value has passed.
pub passed :
    {E A : Type 0} (test : Bool) (e : E) (rest : Outcome E A) (a : A)
    → (if test then failed e else rest) ≡ ok a
    → (test ≡ false) × (rest ≡ ok a)
passed true e rest a h = absurd cc
passed false e rest a h = (refl, h)

pub not-false : (b : Bool) → not b ≡ false → b ≡ true
not-false true h = refl
not-false false h = absurd cc

-- The tests of the claims against the operation that an accepted token has passed.
pub record IsMatching (i : VerifyAuthorityInput) (c : Claims) : Type 0 where
  pub complete : (c.sub == "" || c.actor == "" || c.jti == "" || c.grant_id == "") ≡ false
  pub owner : (not (get_or i.owner_id "" == "") && not (c.sub == get_or i.owner_id "")) ≡ false
  pub actor : c.actor ≡ i.actor
  pub action : includes c.actions i.action ≡ true
  pub resource : includes c.resources i.resource ≡ true

pub match_inv :
    (i : VerifyAuthorityInput) (c d : Claims) → match_claims i c ≡ ok d → (d ≡ c) × IsMatching i c
unfolding match_claims
match_inv i c d h =
    let (complete, h1) = passed _ _ _ d h in
    let (owner, h2) = passed _ _ _ d h1 in
    let (actor, h3) = passed _ _ _ d h2 in
    let (action, h4) = passed _ _ _ d h3 in
    let (resource, h5) = passed _ _ _ d h4 in
    (
      cc,
      record {
        complete = complete;
        owner = owner;
        actor = (eq_iff c.actor i.actor).0 (not-false _ actor);
        action = not-false _ action;
        resource = not-false _ resource;
      },
    )

module _ (host : VerifierHost) where
  -- A payload that is admitted has the shape, was issued, and gives the claims that are returned.
  pub record IsAdmitted (i : VerifyAuthorityInput) (p : Payload) (c : Claims) : Type 0 where
    pub shape : is_authority_claims_shape p ≡ true
    pub issued : num_lt (nat (get_or i.now host.now / 1000)) (number_of (JsMap.get p "iat")) ≡ false
    pub claims : c ≡ verified_claims p
    pub matching : IsMatching i c

  pub admit_inv :
      (i : VerifyAuthorityInput) (p : Payload) (c : Claims)
      → admit host i p ≡ ok c
      → IsAdmitted i p c
  unfolding admit
  admit_inv i p c h =
      let (shape, h1) = passed _ _ _ c h in
      let (issued, h2) = passed _ _ _ c h1 in
      let (_, h3) = passed _ _ _ c h2 in
      let (same, matching) = match_inv i (verified_claims p) c h3 in
      record {
        shape = not-false _ shape;
        issued = issued;
        claims = same;
        matching = rw (same) matching;
      }

  -- How the payload was verified: by the key of that id among the given ones, or behind the URL.
  pub IsSigned : VerifyAuthorityInput → Header → Payload → Type 0
  IsSigned i header p =
      ((jwk : Jwk) × (key : String) × (find (λ j. same_text j.kid header.kid) i.public_jwks
          ≡ some jwk)
        × (host.jose.import_jwk jwk ≡ value key)
        × (host.jose.jwt_verify (trim i.token) key (jwt_options host i) ≡ value p))
      ⊎ ((i.public_jwks ≡ [])
          × (host.remote (get_or i.jwks_url "") (trim i.token) (jwt_options host i) ≡ value p))

  pub signed_inv :
      (i : VerifyAuthorityInput) (header : Header) (p : Payload)
      → IsSigned i header p
      → ((jwk : Jwk) × (key : String) × (find (λ j. same_text j.kid header.kid) i.public_jwks
            ≡ some jwk)
          × (host.jose.import_jwk jwk ≡ value key)
          × (host.jose.jwt_verify (trim i.token) key (jwt_options host i) ≡ value p))
        ⊎ ((i.public_jwks ≡ [])
            × (host.remote (get_or i.jwks_url "") (trim i.token) (jwt_options host i) ≡ value p))
  unfolding IsSigned
  signed_inv i header p signed = signed

  settle_inv :
      (i : VerifyAuthorityInput) (a : Attempt Payload) (c : Claims)
      → settle host i a ≡ ok c
      → (p : Payload) × (a ≡ value p) × IsAdmitted i p c
  unfolding settle
  settle_inv i (value p) c h = (p, refl, admit_inv i p c h)
  settle_inv i (raised e) c h = absurd cc

  by_jwk_inv :
      (i : VerifyAuthorityInput) (o : Option Jwk) (c : Claims)
      → verify_by_jwk host i (trim i.token) o ≡ ok c
      → (p : Payload) × (jwk : Jwk) × (key : String) × (o ≡ some jwk)
        × (host.jose.import_jwk jwk ≡ value key)
        × (host.jose.jwt_verify (trim i.token) key (jwt_options host i) ≡ value p)
        × IsAdmitted i p c
  unfolding verify_by_jwk
  by_jwk_inv i none c h = absurd cc
  by_jwk_inv i (some jwk) c h = go (host.jose.import_jwk jwk) refl h
    where
      go :
          (a : Attempt String)
          → host.jose.import_jwk jwk ≡ a
          → (elim a [
            | raised e ↦ failed (explain e)
            | value key ↦
                settle host i (host.jose.jwt_verify (trim i.token) key (jwt_options host i))
          ])
            ≡ ok c
          → (p : Payload) × (jwk2 : Jwk) × (key : String) × (some jwk ≡ some jwk2)
            × (host.jose.import_jwk jwk2 ≡ value key)
            × (host.jose.jwt_verify (trim i.token) key (jwt_options host i) ≡ value p)
            × IsAdmitted i p c
      go (raised e) imported g = absurd cc
      go (value key) imported g =
          let (p, signed, admitted) =
            settle_inv i (host.jose.jwt_verify (trim i.token) key (jwt_options host i)) c g in
          (p, jwk, key, refl, imported, signed, admitted)

  by_inv :
      (i : VerifyAuthorityInput) (header : Header) (keys : List Jwk) (c : Claims)
      → i.public_jwks ≡ keys
      → verify_by host i (trim i.token) header keys ≡ ok c
      → (p : Payload) × IsSigned i header p × IsAdmitted i p c
  unfolding verify_by IsSigned
  by_inv i header [] c given h =
      let (_, h1) = passed _ _ _ c h in
      let (p, signed, admitted) =
        settle_inv i (host.remote (get_or i.jwks_url "") (trim i.token) (jwt_options host i)) c
          h1 in
      (p, inr (given, signed), admitted)
  by_inv i header (k ∷ ks) c given h =
      let (p, jwk, key, found, imported, signed, admitted) =
        by_jwk_inv i (find (λ j. same_text j.kid header.kid) (k ∷ ks)) c h in
      (
        p,
        inl (jwk, key, ap (find (λ j. same_text j.kid header.kid)) given ∙ found, imported, signed),
        admitted,
      )

  -- A token that `verifyAuthority` accepts is not blank, is signed with EdDSA by a key that is given or
  -- published, for Digi's issuer and the audience, has the shape of an authority token, is issued by
  -- now, and carries the owner if one is expected, the actor, the action and the resource.
  pub verify_authority_lem :
      (i : VerifyAuthorityInput) (c : Claims)
      → verify_authority host i ≡ ok c
      → ((trim i.token == "") ≡ false)
        × ((header : Header) × (p : Payload) × (host.jose.decode_header (trim i.token)
              ≡ value header)
            × (same_text header.alg (some "EdDSA") ≡ true)
            × IsSigned i header p
            × IsAdmitted i p c)
  unfolding verify_authority verify_decoded
  verify_authority_lem i c h =
      let (given, h1) = passed _ _ _ c h in
      (given, go (host.jose.decode_header (trim i.token)) refl h1)
    where
      go :
          (a : Attempt Header)
          → host.jose.decode_header (trim i.token) ≡ a
          → verify_decoded host i (trim i.token) a ≡ ok c
          → (header : Header) × (p : Payload) × (host.jose.decode_header (trim i.token)
              ≡ value header)
            × (same_text header.alg (some "EdDSA") ≡ true)
            × IsSigned i header p
            × IsAdmitted i p c
      go (raised e) decoded g = absurd cc
      go (value header) decoded g =
          let (alg, g1) = passed _ _ _ c g in
          let (p, signed, admitted) = by_inv i header i.public_jwks c refl g1 in
          (header, p, decoded, not-false _ alg, signed, admitted)
