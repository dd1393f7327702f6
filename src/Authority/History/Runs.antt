-- ===== src/Authority/History/Runs.antt =====
-- Runs: the operations of the service in any order, from one state.
use trustid.Base.{◌≡◌, inr, some, List, [], ◌∷◌, String}
use trustid.Base.JsMap
use trustid.Base.Effect.{fail}
use trustid.Authority.Types.{CheckInput, Grant}
use trustid.Authority.Store
use trustid.Authority.Tokens.{VerifyInput}
use trustid.Authority.Service.Env.{Env, Service}
use trustid.Authority.Service.Check.{check}
use trustid.Authority.Service.Approve.{
  ApproveOptions, approve_request, deny_request, revoke, delegate,
}
use trustid.Authority.Service.Issue.{Narrow, issue_token}
use trustid.Authority.Service.Use.{UseInput, use_token, verify_token_locally}
use trustid.Authority.History.Evolution.{IsValid, Evolves, IsSound}
use trustid.Authority.History.Collisions.{
  AreDistinct, Stands, Becomes, Becomes-refl, Becomes-trans, Becomes-Evolves,
}
use trustid.Authority.History.Operations.{
  check-Keeps, issue_token-Keeps, revoke-Keeps, verify_token_locally-Keeps,
}
use trustid.Authority.History.Answers.{
  approve_request-Becomes, deny_request-Becomes, use_token-Keeps,
}

-- One call of a public method that can change the state.
pub data Call : Type 0 where
  checks : CheckInput → Call
  approves : String → String → ApproveOptions → Call
  denies : String → String → Call
  revokes : String → String → Call
  issues : String → String → Narrow → Call
  uses : UseInput → Call
  verifies : VerifyInput → Call
  delegates : String → String → Call

module _ (env : Env) where
  unfoldable pub perform : Call → Service → Service
  perform (checks i) s = (check env i s).1
  perform (approves owner id opts) s = (approve_request env owner id opts s).1
  perform (denies owner id) s = (deny_request env owner id s).1
  perform (revokes owner id) s = (revoke env owner id s).1
  perform (issues owner id n) s = (issue_token env owner id n s).1
  perform (uses i) s = (use_token env i s).1
  perform (verifies i) s = (verify_token_locally env i s).1
  perform (delegates owner id) s = (delegate env owner id s).1

  unfoldable pub run : Service → List Call → Service
  unfolding perform
  run s [] = s
  run s (c ∷ cs) = run (perform c s) cs

-- A service that has just been constructed.
abbrev pub fresh : Service
fresh = record { store = Store.empty; ticks = 0 }

pub fresh-IsValid : (env : Env) → IsValid env fresh
unfolding JsMap.get
fresh-IsValid env = record {
  keyed = λ id g h. cc;
  drawn = λ id g h. absurd (cc);
  sound = λ id g h. absurd (cc);
  asked = λ id g h. absurd (cc);
}

module _ (env : Env) where
  pub perform-Becomes : (s : Service) (c : Call) → Stands env s → Becomes env s (perform env c s)
  unfolding perform delegate fail
  perform-Becomes s (checks i) v = (check-Keeps env s i).at s (Becomes-refl env s v)
  perform-Becomes s (approves owner id opts) v = approve_request-Becomes env owner id opts s v
  perform-Becomes s (denies owner id) v = deny_request-Becomes env owner id s v
  perform-Becomes s (revokes owner id) v = (revoke-Keeps env s owner id).at s (Becomes-refl env s v)
  perform-Becomes s (issues owner id n) v =
      (issue_token-Keeps env s owner id n).at s (Becomes-refl env s v)
  perform-Becomes s (uses i) v = (use_token-Keeps env s i).at s (Becomes-refl env s v)
  perform-Becomes s (verifies i) v =
      (verify_token_locally-Keeps env s i).at s (Becomes-refl env s v)
  perform-Becomes s (delegates owner id) v = Becomes-refl env s v

  pub run-Becomes : (s : Service) (cs : List Call) → Stands env s → Becomes env s (run env s cs)
  unfolding run
  run-Becomes s [] v = Becomes-refl env s v
  run-Becomes s (c ∷ cs) v =
      Becomes-trans env s (perform env c s) _ (perform-Becomes s c v)
        (run-Becomes (perform env c s) cs)

  -- Whatever operations are run, and however each ends, the state stays valid: a grant keeps its
  -- terms and its uses stay within its limits, at most one for a one-time grant; a grant that is no
  -- longer active is not used, and a revoked one stays revoked; an answered request stays as it is;
  -- and a consumed token id stays consumed. The ids drawn until the end of the run are distinct.
  pub run-Evolves :
      (s : Service) (cs : List Call)
      → AreDistinct env (run env s cs).ticks
      → IsValid env s
      → Evolves env s (run env s cs)
  run-Evolves s cs distinct v =
      Becomes-Evolves env s (run env s cs) distinct (run-Becomes s cs (inr v))

  -- In a service that starts with an empty store, whatever operations are run, every grant has been
  -- used at most as often as each of its counting limits allows, and a one-time grant at most once.
  -- The ids drawn until the end of the run are distinct.
  pub run-IsSound :
      (cs : List Call) (id : String) (g : Grant)
      → AreDistinct env (run env fresh cs).ticks
      → JsMap.get (run env fresh cs).store.grants id ≡ some g
      → IsSound g
  run-IsSound cs id g distinct h =
      (run-Evolves fresh cs distinct (fresh-IsValid env)).valid.sound id g h
