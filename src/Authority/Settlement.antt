-- ===== src/Authority/Settlement.antt =====
-- Requests to the owner: `approveRequest` and `denyRequest` in packages/digi-authority/src/service.ts
-- on a request that was answered.
use trustid.Base.{◌≡◌, refl, ap, ◌∙◌, true, false, some, List, String, ◌==◌, eq_iff}
use trustid.Base.JsMap
use trustid.Base.Effect.{failed, ◌>>=◌}
use trustid.Authority.Types.{Request, pending, same_status, not_pending}
use trustid.Authority.Store.{get_request}
use trustid.Authority.Service.Env.{Env, Service, read_store}
use trustid.Authority.Service.Approve.{
  ApproveOptions, owned_request, approve_found, approve_pending, approve_request, deny_found,
  deny_pending, deny_request,
}
use trustid.Authority.History.Evolution.{IsValid}
use trustid.Authority.History.Collisions.{AreDistinct}
use trustid.Authority.History.Runs.{Call, run, run-Evolves}

module _ (env : Env) where
  refuse_settled :
      (s : Service) (owner id : String) (r : Request)
      → JsMap.get s.store.requests id ≡ some r
      → r.owner_id ≡ owner
      → same_status r.status pending ≡ false
      → ((opts : ApproveOptions) → approve_request env owner id opts s ≡ (failed not_pending, s))
        × (deny_request env owner id s ≡ (failed not_pending, s))
  unfolding approve_request approve_pending approve_found deny_request deny_pending deny_found
      owned_request get_request read_store ◌>>=◌
  refuse_settled s owner id r found mine answered =
      let own : (r.owner_id == owner) ≡ true = (eq_iff r.owner_id owner).1 mine in
      (λ opts. rw found (rw own (rw answered refl)), rw found (rw own (rw answered refl)))

  -- A request that was answered is not answered again: after any further operations, its owner's
  -- approval and denial both end in `not_pending` and change nothing. The ids drawn until the end of
  -- the run are distinct.
  pub settled-not_pending :
      (s : Service) (owner id : String) (r : Request) (cs : List Call)
      → AreDistinct env (run env s cs).ticks
      → IsValid env s
      → JsMap.get s.store.requests id ≡ some r
      → r.owner_id ≡ owner
      → same_status r.status pending ≡ false
      → let s' = run env s cs in
        ((opts : ApproveOptions) → approve_request env owner id opts s' ≡ (failed not_pending, s'))
        × (deny_request env owner id s' ≡ (failed not_pending, s'))
  settled-not_pending s owner id r cs distinct v found mine answered =
      let (r', found', later) = (run-Evolves env s cs distinct v).requests id r found in
      refuse_settled (run env s cs) owner id r (found' ∙ ap some (later.settled answered)) mine
        answered
