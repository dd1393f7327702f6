-- ===== src/Authority/Revocation.antt =====
-- Revocation of grants: `revoke` and its effect on `useToken` in packages/digi-authority.
use trustid.Base.{
  ◌≡◌, refl, true, some, List, String, arith, ◌==◌, eq_refl, Bool-cases, inl, inr, eq_iff,
}
use trustid.Base.JsMap
use trustid.Base.JsMap.{get-modify}
use trustid.Base.Effect.{ok, failed, ◌>>=◌}
use trustid.Authority.Types.{Grant, Claims, is_revoked, revoked, same_status}
use trustid.Authority.Store.{get_grant, update_grant_status}
use trustid.Authority.Tokens.{verify_authority_token}
use trustid.Authority.Service.Env.{Env, Service, audit, now_fn, read_store, run_store}
use trustid.Authority.Service.Issue.{owned}
use trustid.Authority.Service.Approve.{revoke, revoke_found, revoke_live}
use trustid.Authority.Service.Use.{
  UseInput, verify_input, deny_use, use_grant, use_found, use_claims, use_verified, use_token,
}
use trustid.Authority.History.Evolution.{IsValid}
use trustid.Authority.History.Collisions.{AreDistinct, Becomes-refl, Becomes-both}
use trustid.Authority.History.Operations.{revoke-Keeps}
use trustid.Authority.History.Runs.{Call, run, run-Becomes}

-- The claims of a token as `useToken` verifies it in this state.
abbrev pub VerifiesAs : Env → Service → UseInput → Claims → Type 0
VerifiesAs env s i c =
    verify_authority_token env.jose (verify_input env i (env.now_fn s.ticks)) ≡ ok c

module _ (env : Env) where
  use_revoked :
      (s : Service) (i : UseInput) (c : Claims) (g : Grant)
      → VerifiesAs env s i c
      → JsMap.get s.store.grants c.grant_id ≡ some g
      → g.status ≡ revoked
      → (use_token env i s).0 ≡ failed is_revoked
  unfolding use_token use_claims use_grant deny_use audit now_fn read_store get_grant use_found
      use_verified ◌>>=◌
  use_revoked s i c g verified found gone =
      rw (verified, use_token, use_verified) (rw (found, use_found) (rw (gone, use_grant) refl))

  revoke_owned :
      (s : Service) (owner id : String) (g : Grant)
      → JsMap.get s.store.grants id ≡ some g
      → g.owner_id ≡ owner
      → ((revoke env owner id s).0 ≡ ok tt)
        × ((g' : Grant) × (JsMap.get (revoke env owner id s).1.store.grants id ≡ some g')
            × (g'.status ≡ revoked))
  unfolding revoke revoke_found revoke_live owned update_grant_status get_grant audit now_fn
      read_store run_store ◌>>=◌
  revoke_owned s owner id g found mine =
      let own : (g.owner_id == owner) ≡ true = (eq_iff g.owner_id owner).1 mine in
      elim (Bool-cases (same_status g.status revoked)) [
        | inl gone ↦
            rw (found, revoke, owned)
              (rw (own, revoke_found) (rw gone (refl, (g, found, ground arith))))
        | inr live ↦
            rw (found, revoke, owned)
              (rw (own, revoke_found)
                (rw live (
                  rw (found, revoke_live, update_grant_status)
                    (
                      refl,
                      (
                        record g { status = revoked; revoked_at = some (env.now_fn s.ticks) },
                        rw get-modify (rw (eq_refl id) (rw found refl)),
                        refl,
                      ),
                    ))))
      ]

-- Once an owner has revoked a grant, no token for it is accepted by `useToken` again: after any
-- further operations of the service, a token that verifies and names this grant is refused as revoked.
-- The ids drawn until the end of the run are distinct.
pub revoke-use_token :
    (env : Env)
    → (s : Service) (owner id : String) (g : Grant) (cs : List Call) (i : UseInput) (c : Claims)
    → AreDistinct env (run env (revoke env owner id s).1 cs).ticks
    → IsValid env s
    → JsMap.get s.store.grants id ≡ some g
    → g.owner_id ≡ owner
    → let s' = run env (revoke env owner id s).1 cs in
      VerifiesAs env s' i c → c.grant_id ≡ id → (use_token env i s').0 ≡ failed is_revoked
revoke-use_token env s owner id g cs i c distinct v found mine verified named =
    let t = (revoke env owner id s).1 in
    let (p, q) =
      Becomes-both env s t (run env t cs) distinct
        ((revoke-Keeps env s owner id).at s (Becomes-refl env s (inr v))) (run-Becomes env t cs) in
    let (g', found', gone) = (revoke_owned env s owner id g found mine).1 in
    let (h, there, later) = q.grants id g' found' in
    use_revoked env (run env t cs) i c h verified (rw named there) (later.stays_revoked gone)
