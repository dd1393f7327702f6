-- ===== src/Approval/Table.antt =====
-- What apps/api/src/modules/device-approval/fsm.ts relies on of the database client: an update writes
-- the given columns of the row with the id, or throws and writes nothing.
use trustid.Base.{ℕ, ◌≡◌, ◌≢◌, Option, none, some, String}
use trustid.Base.JsMap
use trustid.Base.Effect.{ok}
use trustid.Approval.Desk.{ApprovalRow, Value, null, string, date, Columns, Prisma, AuditEntry}

-- The text, or the time, in a column after an update; a value of another kind is not accepted, and
-- stands for what the column had.
abbrev pub text_after : Option Value → String → String
text_after (some (string t)) old = t
text_after _ old = old

abbrev pub time_after : Option Value → Option ℕ → Option ℕ
time_after (some (date t)) old = some t
time_after (some null) old = none
time_after _ old = old

-- The columns of the state machine after an update.
pub record IsWritten (d : Columns) (row u : ApprovalRow) : Type 0 where
  pub id : u.id ≡ row.id
  pub status : u.status ≡ text_after (JsMap.get d "status") row.status
  pub resolved_at : u.resolved_at ≡ time_after (JsMap.get d "resolvedAt") row.resolved_at
  pub viewed_at : u.viewed_at ≡ time_after (JsMap.get d "viewedAt") row.viewed_at
  pub push_dispatched_at :
      u.push_dispatched_at ≡ time_after (JsMap.get d "pushDispatchedAt") row.push_dispatched_at
  pub push_failed_at : u.push_failed_at ≡ time_after (JsMap.get d "pushFailedAt") row.push_failed_at

pub record IsTable {S : Type 0} (p : Prisma S) : Type 0 where
  -- A row is found under its id.
  pub keyed :
      (s : S) (id : String) (row : ApprovalRow) → p.find_unique s id ≡ some row → row.id ≡ id
  pub updated :
      (s : S) (id : String) (d : Columns) (row u : ApprovalRow)
      → p.find_unique s id ≡ some row
      → (p.update id d s).0 ≡ ok u
      → IsWritten d row u × (p.find_unique (p.update id d s).1 id ≡ some u)
  pub missing :
      (s : S) (id : String) (d : Columns) (u : ApprovalRow)
      → p.find_unique s id ≡ none
      → (p.update id d s).0 ≢ ok u
  pub others :
      (s : S) (id j : String) (d : Columns)
      → id ≢ j
      → p.find_unique (p.update id d s).1 j ≡ p.find_unique s j
  pub atomic :
      (s : S) (id : String) (d : Columns)
      → ((u : ApprovalRow) → (p.update id d s).0 ≢ ok u)
      → (p.update id d s).1 ≡ s
  pub apart :
      (s : S) (a : AuditEntry) (j : String)
      → p.find_unique (p.create_audit_event a s).1 j ≡ p.find_unique s j
