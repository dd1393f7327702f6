-- ===== src/Bridge/Types.antt =====
-- packages/digi-bridge/src/types.ts, and the reasons and results of verify.ts and exchange.ts.
use trustid.Base.{ℕ, Option, String, Bool}
use trustid.Base.Number.{Number}
use trustid.Base.Effect.{Effect}

-- Times are milliseconds.
pub record DigiOwner : Type 0 where
  pub id : String
  pub status : String
  pub created_at : ℕ
  pub updated_at : ℕ

pub record ExternalIdentity : Type 0 where
  pub id : String
  pub owner_id : String
  pub issuer : String
  pub subject : String
  pub created_at : ℕ
  pub last_seen_at : ℕ

pub record DigiSession : Type 0 where
  pub id : String
  pub owner_id : String
  pub token_hash : String
  pub expires_at : ℕ
  pub created_at : ℕ
  pub revoked_at : Option ℕ

-- `DigiVerifyFailureReason`.
pub data Reason : Type 0 where
  malformed_jwt bad_signature expired not_active future_iat issuer_mismatch audience_mismatch :
      Reason
  missing_audience unknown_kid unsupported_alg alg_none missing_sub malformed_sub : Reason
  missing_jti replay missing_claims : Reason

-- `DigiVerifySuccess`.
pub record Verified : Type 0 where
  pub issuer : String
  pub audience : String
  pub subject : String
  pub jti : String
  pub iat : Number
  pub nbf : Number
  pub exp : Number
  pub kid : String

-- `DigiAuditEvent`, less the two that only the durable stores record.
pub data DigiAuditEvent : Type 0 where
  trust_assertion_accepted trust_assertion_rejected trust_assertion_replay_rejected : DigiAuditEvent
  trust_assertion_wrong_issuer trust_assertion_wrong_audience : DigiAuditEvent
  trust_assertion_expired trust_assertion_bad_signature trust_assertion_unknown_kid : DigiAuditEvent
  digi_owner_created digi_owner_resolved digi_session_created : DigiAuditEvent
  digi_persistence_failed : DigiAuditEvent

pub record ConsumeInput : Type 0 where
  pub jti : String
  pub issuer : String
  pub subject : String
  pub expires_at : Number

-- What `resolveOrCreate` and `create` return.
pub record Resolved : Type 0 where
  pub owner : DigiOwner
  pub created : Bool
  pub identity : ExternalIdentity

pub record NewSession : Type 0 where
  pub session : DigiSession
  pub token : String

-- `OwnerStore`, `ReplayStore` and `SessionStore` over a state `S`, as the exchange uses them.
pub record Stores (S : Type 0) : Type 0 where
  pub resolve_or_create : String → String → Effect S Reason Resolved
  pub try_consume : ConsumeInput → Effect S Reason Bool
  pub create : String → Option ℕ → Effect S Reason NewSession
