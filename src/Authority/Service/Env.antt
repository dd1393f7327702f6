-- ===== src/Authority/Service/Env.antt =====
-- What `AuthorityService` stands on: its options, its store, and the calls that every operation
-- makes. Clocks and `randomUUID` answer by the number of such calls made before, so two calls of one
-- operation may differ.
use Prim.Native.String
use trustid.Base.{
  ℕ, suc, ◌+◌, ◌/◌, ◌-◌, Bool, true, false, not, Option, none, some, List, String, leb,
  if◌then◌else◌, ◌&&◌, ◌||◌, ◌==◌, find,
}
use trustid.Base.Number.{Number, nat, negsuc, nan}
use trustid.Base.Text.{take_text, without_dashes}
use trustid.Base.Effect.{Effect, ok, pure, ◌>>=◌}
use trustid.Authority.Types.{
  ActorType, app, ActorRef, actor_key, Date, at, past, invalid, before, not_before, is_valid,
  active, same_status, same_type, Grant, Request, Reason,
}
use trustid.Authority.Policy.{ActorPolicy}
use trustid.Authority.Store.{
  Store, AuditType, DetailValue, CreateGrantInput, CreateRequestInput, create_grant, create_request,
  append_audit,
}
use trustid.Authority.Tokens.{Jose, SigningKey}

-- `AuthorityServiceOptions`, with the sources of ids and of time. The resolver is an
-- asynchronous callback of the host.
pub record Env : Type 0 where
  pub now_fn : ℕ → ℕ
  pub system_date : ℕ → ℕ
  pub random_uuid : ℕ → String
  pub policies : List ActorPolicy
  pub token_ttl_seconds : Number
  pub signing_key : SigningKey
  pub resolve_owner_trust_id : Option (ℕ → String → Option String)
  pub jose : Jose

pub record Service : Type 0 where
  pub store : Store
  pub ticks : ℕ

abbrev pub M : Type 0 → Type 0
M A = Effect Service Reason A

-- `audit`'s fields, each null where it is not given.
pub record AuditFields : Type 0 where
  pub owner_id : Option String
  pub actor_type : Option ActorType
  pub actor_id : Option String
  pub grant_id : Option String
  pub request_id : Option String
  pub jti : Option String

abbrev pub no_fields : AuditFields
no_fields = record {
  owner_id = none;
  actor_type = none;
  actor_id = none;
  grant_id = none;
  request_id = none;
  jti = none;
}

-- A call of a clock or of the host: its answer, and one tick more.
unfoldable pub ask : {A : Type 0} → (ℕ → A) → M A
unfolding ◌>>=◌
ask f s = (ok (f s.ticks), record s { ticks = suc s.ticks })

-- A call of a method of the store that changes it.
unfoldable pub run_store : {A : Type 0} → (Store → A × Store) → M A
run_store f s = let (a, t) = f s.store in (ok a, record s { store = t })

unfoldable pub read_store : {A : Type 0} → (Store → A) → M A
read_store f s = (ok (f s.store), s)

-- A value that has to be there, or the given end of the method.
unfoldable pub or_else : {A : Type 0} → M A → Option A → M A
or_else m none = m
or_else m (some a) = pure a

-- The id that `newId` makes of the UUID of a tick: 16 of its hexadecimal digits.
unfoldable pub random_id : Env → String → ℕ → String
unfolding take_text without_dashes
random_id env prefix n =
    String.◌++◌ prefix (String.◌++◌ "_" (take_text 16 (without_dashes (env.random_uuid n))))

module _ (env : Env) where
  unfoldable pub now_fn : M ℕ
  unfolding ask
  now_fn = ask env.now_fn

  unfoldable pub new_id : String → M String
  unfolding ask random_id
  new_id prefix = ask (random_id env prefix)

  unfoldable pub audit : AuditType → AuditFields → List (String × DetailValue) → M (Unit {0})
  unfolding now_fn new_id run_store append_audit ◌>>=◌
  audit type fields detail = do
    id ← new_id "aud"
    now ← now_fn
    run_store λ s. (
      tt,
      append_audit
          (record {
            id = id;
            type = type;
            owner_id = fields.owner_id;
            actor_type = fields.actor_type;
            actor_id = fields.actor_id;
            grant_id = fields.grant_id;
            request_id = fields.request_id;
            jti = fields.jti;
            detail = detail;
            created_at = now;
          })
          s,
    )

  -- `store.createGrant({ id: newId("auth"), … })`
  unfoldable pub insert_grant : (String → CreateGrantInput) → M Grant
  unfolding new_id run_store ◌>>=◌
  insert_grant input = do
    id ← new_id "auth"
    date ← ask env.system_date
    run_store (create_grant date (input id))

  -- `store.createRequest({ id: newId("req"), … })`
  unfoldable pub insert_request : (String → CreateRequestInput) → M Request
  unfolding new_id run_store ◌>>=◌
  insert_request input = do
    id ← new_id "req"
    date ← ask env.system_date
    run_store (create_request date (input id))

  abbrev covers_audience : String → String → Bool
  covers_audience audience a = a == "*" || a == audience

  abbrev or_find : Option ActorPolicy → (ActorPolicy → Bool) → Option ActorPolicy
  or_find (some p) test = some p
  or_find none test = find test env.policies

  -- A policy for the actor itself, then one for every actor of its type.
  unfoldable pub find_policy : ActorRef → String → Option ActorPolicy
  find_policy actor audience =
      or_find
        (find
          (λ p.
            same_type p.actor_type actor.type
            && p.actor_id == actor.id
            && covers_audience audience p.audience)
          env.policies)
        λ p.
          same_type p.actor_type actor.type
          && p.actor_id == "*"
          && covers_audience audience p.audience

unfoldable pub grant_is_live : Grant → ℕ → Bool
grant_is_live g now =
    if not (same_status g.status active)
    then false
    else if before now g.valid_from
    then false
    else if not (is_valid g.valid_from) || not (is_valid g.valid_until)
    then false
    else if not_before now g.valid_until
    then false
    else true

-- `Math.floor(validUntil / 1000) - Math.floor(now / 1000)`
unfoldable pub remaining_seconds : Date → ℕ → Number
remaining_seconds (at t) now =
    if leb (now / 1000) (t / 1000)
    then nat (t / 1000 - now / 1000)
    else negsuc (now / 1000 - t / 1000 - 1)
remaining_seconds (past t) now = negsuc (t / 1000 + now / 1000)
remaining_seconds invalid now = nan

-- An app that stands for the owner itself.
abbrev pub is_own_app : ActorType → String → String → Bool
is_own_app app id owner_id = owner_id == id || owner_id == actor_key app id
is_own_app _ id owner_id = false
