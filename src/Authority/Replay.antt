-- ===== src/Authority/Replay.antt =====
-- One-time tokens: no token id is accepted twice.
use trustid.Base.{◌≡◌, ◌≢◌, inr, Bool, true, false, ◌||◌, List, arith, includes}
use trustid.Base.Effect.{ok}
use trustid.Authority.Types.{Claims}
use trustid.Authority.Service.Env.{Env, Service}
use trustid.Authority.Service.Use.{UseInput, Used, use_token}
use trustid.Authority.History.Evolution.{IsValid}
use trustid.Authority.History.Collisions.{AreDistinct, Becomes-refl, Becomes-both}
use trustid.Authority.History.Answers.{use_token-Keeps}
use trustid.Authority.History.Runs.{Call, run, run-Becomes}
use trustid.Authority.Revocation.{VerifiesAs}
use trustid.Authority.Admission.{use_token-IsAccepted}

or-true_left : (a b : Bool) → a ≡ true → (a || b) ≡ true
or-true_left a b h = ground arith

module _ (env : Env) where
  -- What an accepted use does with the id of a one-time token.
  accepted_jti :
      (s : Service) (i : UseInput) (u : Used) (c : Claims)
      → IsValid env s
      → (use_token env i s).0 ≡ ok u
      → VerifiesAs env s i c
      → c.one_time ≡ true
      → (includes s.store.consumed c.jti ≡ false)
        × (includes (use_token env i s).1.store.consumed c.jti ≡ true)
  accepted_jti s i u c v h verified once =
      let a = use_token-IsAccepted env s i u v h in
      let same : a.claims ≡ c = cc (a.verified, verified) in
      rw (← same) (a.spent (or-true_left a.claims.one_time a.grant.one_time (rw same once)))

  -- Once a one-time token was accepted, no one-time token with its id is accepted after any further
  -- operations of the service. The ids drawn until the end of the run are distinct.
  pub use_token_once :
      (s : Service) (i : UseInput) (u : Used) (c : Claims) (cs : List Call) (j : UseInput)
      (d : Claims) (w : Used)
      → AreDistinct env (run env (use_token env i s).1 cs).ticks
      → IsValid env s
      → (use_token env i s).0 ≡ ok u
      → VerifiesAs env s i c
      → c.one_time ≡ true
      → let s' = run env (use_token env i s).1 cs in
        VerifiesAs env s' j d → d.one_time ≡ true → d.jti ≡ c.jti → (use_token env j s').0 ≢ ok w
  use_token_once s i u c cs j d w distinct v h verified once verified' once' same again =
      let t = (use_token env i s).1 in
      let (p, q) =
        Becomes-both env s t (run env t cs) distinct
          ((use_token-Keeps env s i).at s (Becomes-refl env s (inr v))) (run-Becomes env t cs) in
      let spent = q.consumed c.jti (accepted_jti s i u c v h verified once).1 in
      let new = (accepted_jti _ j w d q.valid again verified' once').0 in cc (spent, new, same)
