-- ===== src/Bridge/Memory.antt =====
-- The in-memory stores of packages/digi-bridge/src/stores.ts. Calls run one after another, so the
-- locks change nothing. Node's randomBytes and createHash are parameters.
pub mod Key
pub mod Owners
pub mod Identity
pub mod Sessions
pub mod Replay
pub mod Completes
use Prim.Native.String
use trustid.Base.{
  ℕ, zero, suc, ◌+◌, ◌*◌, Bool, true, false, Option, none, some, List, [], ◌∷◌, ◌++◌, String, ltb,
  length, get_or, is_some, filter, ◌==◌, if◌then◌else◌,
}
use trustid.Base.JsMap
use trustid.Base.JsMap.{JsMap}
use trustid.Base.Number.{Number}
use trustid.Base.Effect.{Outcome, ok, thrown, Effect, pure, ◌>>=◌, ◌>>◌}
use trustid.Bridge.Types.{
  DigiOwner, ExternalIdentity, DigiSession, Reason, ConsumeInput, Resolved, NewSession, Stores,
}

pub record Consumption : Type 0 where
  pub issuer : String
  pub subject : String
  pub expires_at : Number

-- A session object is shared by the maps `byHash` and `byId`: it is a cell, and the maps hold its
-- index.
pub record Memory : Type 0 where
  pub by_key : JsMap ExternalIdentity
  pub owners : JsMap DigiOwner
  pub consumed : JsMap Consumption
  pub cells : List DigiSession
  pub by_hash : JsMap ℕ
  pub by_id : JsMap ℕ
  pub ticks : ℕ

abbrev pub empty : Memory
empty = record {
  by_key = [];
  owners = [];
  consumed = [];
  cells = [];
  by_hash = [];
  by_id = [];
  ticks = 0;
}

pub record MemoryEnv : Type 0 where
  pub clock : ℕ → ℕ
  pub random_hex : ℕ → String
  pub random_token : ℕ → String
  pub sha256_hex : String → String

abbrev pub M : Type 0 → Type 0
M A = Effect Memory Reason A

-- A call of the clock or of randomBytes.
unfoldable pub draw : {A : Type 0} → (ℕ → A) → M A
draw f s = (ok (f s.ticks), record s { ticks = suc s.ticks })

unfoldable pub update : (Memory → Memory) → M (Unit {0})
update f s = (ok tt, f s)

unfoldable pub look : {A : Type 0} → (Memory → A) → M A
look f s = (ok (f s), s)

-- The NUL byte between issuer and subject.
abbrev pub separator : String
separator = "\0"

unfoldable pub key : String → String → String
key issuer subject = String.◌++◌ issuer (String.◌++◌ separator subject)

unfoldable pub get_cell : List DigiSession → ℕ → Option DigiSession
get_cell [] i = none
get_cell (x ∷ xs) zero = some x
get_cell (x ∷ xs) (suc i) = get_cell xs i

unfoldable pub set_cell : List DigiSession → ℕ → (DigiSession → DigiSession) → List DigiSession
set_cell [] i f = []
set_cell (x ∷ xs) zero f = f x ∷ xs
set_cell (x ∷ xs) (suc i) f = x ∷ set_cell xs i f

-- The object under a key of one of the maps.
unfoldable pub deref : List DigiSession → Option ℕ → Option DigiSession
deref cells none = none
deref cells (some i) = get_cell cells i

abbrev pub new_owner : String → ℕ → DigiOwner
new_owner id now = record { id = id; status = "active"; created_at = now; updated_at = now }

abbrev pub new_identity : String → String → String → String → ℕ → ExternalIdentity
new_identity id owner_id issuer subject now = record {
  id = id;
  owner_id = owner_id;
  issuer = issuer;
  subject = subject;
  created_at = now;
  last_seen_at = now;
}

-- Eight hours, where no time to live is given.
abbrev pub new_session : String → String → String → ℕ → Option ℕ → DigiSession
new_session id owner_id token_hash now ttl_seconds = record {
  id = id;
  owner_id = owner_id;
  token_hash = token_hash;
  expires_at = now + get_or ttl_seconds 28800 * 1000;
  created_at = now;
  revoked_at = none;
}

-- The end of `resolveOrCreate` for a known identity; without its owner the assignment throws.
unfoldable pub touched : ExternalIdentity → Option DigiOwner → M Resolved
touched identity none s = (thrown "Cannot set properties of undefined", s)
touched identity (some owner) s =
    (ok (record { owner = owner; created = false; identity = identity }), s)

module _ (env : MemoryEnv) where
  unfoldable pub new_id : String → M String
  unfolding draw
  new_id prefix = draw (λ n. String.◌++◌ prefix (String.◌++◌ "_" (env.random_hex n)))

  -- `existing.lastSeenAt = new Date()`, and the owner's `updatedAt`.
  unfoldable pub touch : String → ExternalIdentity → M Resolved
  unfolding draw update look touched
  touch k existing = do
    seen ← draw env.clock
    update
        (λ s. record s { by_key = JsMap.modify s.by_key k (λ x. record x { last_seen_at = seen }) })
    updated ← draw env.clock
    update (λ s. record s {
      owners = JsMap.modify s.owners existing.owner_id (λ o. record o { updated_at = updated });
    })
    found ← look (λ s. JsMap.get s.owners existing.owner_id)
    touched (record existing { last_seen_at = seen }) found

  unfoldable pub add_owner : String → String → String → M Resolved
  unfolding draw update new_id
  add_owner k issuer subject = do
    now ← draw env.clock
    owner_id ← new_id "own"
    identity_id ← new_id "xid"
    let owner = new_owner owner_id now
    let identity = new_identity identity_id owner_id issuer subject now
    update (λ s. record s {
      owners = JsMap.set s.owners owner_id owner;
      by_key = JsMap.set s.by_key k identity;
    })
    pure (record { owner = owner; created = true; identity = identity })

  unfoldable pub resolve_found : String → String → Option ExternalIdentity → M Resolved
  resolve_found issuer subject (some existing) = touch (key issuer subject) existing
  resolve_found issuer subject none = add_owner (key issuer subject) issuer subject

  unfoldable pub resolve_or_create : String → String → M Resolved
  unfolding look touch add_owner resolve_found
  resolve_or_create issuer subject = do
    existing ← look (λ s. JsMap.get s.by_key (key issuer subject))
    resolve_found issuer subject existing

  unfoldable pub find_by_issuer_subject : String → String → M (Option ExternalIdentity)
  find_by_issuer_subject issuer subject = look (λ s. JsMap.get s.by_key (key issuer subject))

  unfoldable pub list_for_owner : String → M (List ExternalIdentity)
  list_for_owner owner_id = look (λ s. filter (λ x. x.owner_id == owner_id) (JsMap.values s.by_key))

  unfoldable pub try_consume : ConsumeInput → M Bool
  try_consume i s = if is_some (JsMap.get s.consumed i.jti) then (ok false, s) else (
    ok true,
    record s {
      consumed =
          JsMap.set s.consumed i.jti
            (record { issuer = i.issuer; subject = i.subject; expires_at = i.expires_at });
    },
  )

  unfoldable pub create : String → Option ℕ → M NewSession
  unfolding draw update new_id
  create owner_id ttl_seconds = do
    token ← draw env.random_token
    now ← draw env.clock
    id ← new_id "ses"
    let session = new_session id owner_id (env.sha256_hex token) now ttl_seconds
    update (λ s. record s {
      cells = s.cells ++ (session ∷ []);
      by_hash = JsMap.set s.by_hash (env.sha256_hex token) (length s.cells);
      by_id = JsMap.set s.by_id id (length s.cells);
    })
    pure (record { session = session; token = token })

  -- `expiresAt < Date.now()` at the reading that follows.
  unfoldable pub unless_expired : DigiSession → M (Option DigiSession)
  unfolding draw
  unless_expired session = do
    now ← draw env.clock
    pure (if ltb session.expires_at now then none else some session)

  unfoldable pub resolve_session : Option DigiSession → M (Option DigiSession)
  resolve_session none = pure none
  resolve_session (some session) =
      if is_some session.revoked_at then pure none else unless_expired session

  unfoldable pub resolve : String → M (Option DigiSession)
  unfolding look resolve_session unless_expired
  resolve token = do
    session ← look (λ s. deref s.cells (JsMap.get s.by_hash (env.sha256_hex token)))
    resolve_session session

  unfoldable pub revoke_cell : Option ℕ → M (Unit {0})
  unfolding draw update
  revoke_cell none = pure tt
  revoke_cell (some i) = do
    now ← draw env.clock
    update (λ s. record s { cells = set_cell s.cells i (λ x. record x { revoked_at = some now }) })

  unfoldable pub revoke : String → M (Unit {0})
  unfolding look revoke_cell
  revoke session_id = do cell ← look (λ s. JsMap.get s.by_id session_id); revoke_cell cell

  unfoldable pub memory_stores : Stores Memory
  memory_stores = record {
    resolve_or_create = resolve_or_create;
    try_consume = try_consume;
    create = create;
  }
