-- ===== src/Lib.antt =====
-- TrustID: the authority service of packages/digi-authority, the verifier that other services use for
-- its tokens, the bridge that turns an assertion of TrustID into a session of Digi, the claim
-- attestations of packages/zk, and of apps/api the device approval machine, the WebAuthn challenges and
-- the limit on issued assertions.
--
-- The authority service decides what an actor (an app, a digital twin, a service) may do for the
-- owner of a Digi. `check` answers a question by a policy: it denies, allows by a grant, or asks the
-- owner with a request that `approveRequest` or `denyRequest` answers. A grant is presented as a
-- signed token, which `issueToken` mints and `useToken` verifies, binds to the grant and counts.
-- A service that is not Digi checks the token by itself and then has Digi consume it.
--
-- The bridge verifies a signed assertion, consumes its id, finds or makes the owner of the issuer's
-- subject and makes a session. A claim attestation is a keyed hash over the public signals of a claim,
-- which the issuer makes and verifies.
--
-- Base: what the modules share. Base/JsMap is JavaScript's Map in insertion order, Base/Text has
--   string methods, Base/Number has JavaScript's numbers as integers, NaN and Infinity, Base/Json has
--   JSON values, and Base/Effect has methods on a state that end in a value, in a returned failure or
--   in a throw. Base/Utf has the lengths of texts and Base/Decimal numbers as texts. Base/Effect/Keeps has the rules for what such a method keeps.
-- Authority: packages/digi-authority/src and packages/shared/src/authority-claims.ts.
--   Authority/Types is types.ts; Authority/Policy is policy.ts, with `assertDelegationSubset` in
--   Authority/Policy/Delegation and what it accepts in Authority/Policy/Narrowing; Authority/Store is stores.ts, the class MemoryAuthorityStore with a
--   field for each of its collections; Authority/Claims is `isAuthorityClaimsShape`;
--   Authority/Tokens is tokens.ts; Authority/Service is service.ts: Env has the options, the clock,
--   the ids and `audit`, and Check, Issue, Approve and Use have the methods. A method has the name of
--   the source in snake case; the parts of a long method are functions named for what they do.
--   Authority/History has how the state evolves under any calls, until an id is drawn twice, and Authority/Admission, Decisions,
--   Issuance, Replay, Revocation and Settlement have the theorems on single operations and their
--   sequences, and Authority/Actors is about actor keys.
-- Verifier: packages/authority-verifier/src/index.ts. Verifier itself has `verifyAuthority` and
--   `authorizeAuthority`, Verifier/Resource the resources of ElfCom; Accepted and Gate are about what
--   they let through and Agreement compares them with Digi's own check of Authority/Tokens.
-- Bridge: packages/digi-bridge/src. Bridge/Types is types.ts with the results of the other files,
--   Bridge/Verify and Bridge/Keys are verify.ts (`verifyDigiAssertion` and `createJwksCache`),
--   Bridge/Memory is stores.ts, all three stores in one state, and Bridge/Exchange is exchange.ts over
--   any stores, with `try` as `catching` and `quietly`. Bridge/Accepted, Keys/Bounds, Frame,
--   Transaction and Once have the theorems on verification, keys and exchange, and the children of
--   Bridge/Memory those on the stores: Owners, Identity, Key, Sessions, Replay, and Completes, where
--   the exchange meets them.
-- Zk: packages/zk/src. Zk is trust-tier.ts, Zk/Claims the proving half and Zk/Verify the verifying half
--   of claims.ts; Attested, Proved and Bundles have the theorems.
-- Approval: apps/api/src/modules/device-approval/fsm.ts over the statuses of
--   packages/shared/src/index.ts. Approval/Machine is the transition table, Approval/Desk is
--   `transitionApprovalFsm` and `expireApprovalIfNeeded`, Approval/Table states what they rely on of
--   the database client, and Progress, Columns, Moves, Lifecycle and
--   Expiry have the theorems.
-- Challenge: apps/api/src/modules/authentication/challenges.ts over any table that writes by id.
-- Issuance: the rate limit of apps/api/src/modules/trust-bridge/digi-assertion.ts; Issuance/Mint is
--   the header and the claims that it signs, as the bridge reads them. The reading of the user, the
--   signing key, the record of the id and the audit are not modelled.
--
-- Time and chance: every reading of the clock and every id drawn takes one tick of a counter in the
-- state, and the host gives a reading or an id for each tick; readings need not increase. Where ids
-- matter, the theorems take those that are drawn until the end of a run to be distinct: `newId` of
-- digi-authority keeps 16 digits of a UUID, so that they are is likely, not certain.
-- Loops are recursion on lists; only the printing of a number runs on fuel, one more than the number,
-- which is enough since each step divides by ten. Numbers without a fraction are exact; fractions
-- and negative infinity are left out.
-- Parameters: jose, fetch, Node's hashes and random bytes, BigInt and the decoding of a token's header, the resolver of an owner's TrustID, and the
-- Prisma client with its laws: an update writes the row with the id or throws and writes nothing, and
-- an audit event leaves the requests as they are.
-- Not modelled: the SQL stores, the read-only listings, the queue of `approveRequest` and
-- `denyRequest` and the locks of the memory stores (calls run one after another here), the other
-- modules of apps/api, the applications and the client packages. A text of the claim attestations that
-- is a number with a fraction, an exponent or another base is read as NaN.
pub mod Approval
pub mod Authority
pub mod Base
pub mod Bridge
pub mod Challenge
pub mod Issuance
pub mod Verifier
pub mod Zk
