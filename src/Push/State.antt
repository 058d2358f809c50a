-- ===== src/Push/State.antt =====
-- The types and the constants of the push service: sync/push/mutation.types.ts, sync.constants.ts
-- and the rows that its repositories keep, under apps/backend/src.
use ayphen_retail_pos.Common.{ℕ, ◌*◌, Bool, true, false, Option, List}
use ayphen_retail_pos.Ledger.{MutationAction}

pub record SyncMutation : Type 0 where
  pub mutation_id : ℕ
  pub entity_type : ℕ
  pub action : MutationAction
  pub payload : ℕ
  pub payload_guuid : Option ℕ
  pub payload_bytes : ℕ
  pub expected_row_version : Option ℕ
  pub client_modified_at : Option ℕ
  pub parent_guuid : Option ℕ

pub data SubscriptionStatus : Type 0 where
  paused running : SubscriptionStatus

pub record SubscriptionSyncState : Type 0 where
  pub status : SubscriptionStatus
  pub access_valid_until : Option ℕ
  pub reconciliation_pending : Bool
  pub reconciliation_effective_at : Option ℕ

pub record MutationEnv : Type 0 where
  pub now : ℕ
  pub store_id : ℕ
  pub user_id : ℕ
  pub device_id : ℕ
  pub session_created_at : ℕ
  pub device_last_sync_at : Option ℕ
  pub permissions : ℕ → MutationAction → Bool
  pub subscription : Option SubscriptionSyncState
  pub failed_guuids : List ℕ

-- The codes of the service, and a handler's own.
pub data PushCode : Type 0 where
  parent_cycle mutation_payload_too_large server_error parent_failed unknown_mutation : PushCode
  sync_missing_row_version permission_denied subscription_not_found : PushCode
  subscription_suspended subscription_reconciliation_required : PushCode
  subscription_lapsed_at_write duplicate_entry foreign_key_violation : PushCode
  handler_code : ℕ → PushCode

abbrev pub is_duplicate_entry : PushCode → Bool
is_duplicate_entry duplicate_entry = true
is_duplicate_entry _ = false

-- A handler's run: the outcomes of `HandlerOutcome` with the database that they leave, a constraint
-- violation with its Postgres code, or a crash.
pub data HandlerRun (D : Type 0) : Type 0 where
  applied : ℕ → D → HandlerRun D
  conflict : Option ℕ → Option ℕ → D → HandlerRun D
  rejected : PushCode → HandlerRun D
  violates : ℕ → HandlerRun D
  crashes : HandlerRun D

pub record Handler (D : Type 0) : Type 0 where
  pub permission_entity : ℕ
  pub apply : SyncMutation → MutationEnv → ℕ → D → HandlerRun D

-- `MutationResultWire`, less the mutation's id.
pub data Wire : Type 0 where
  wire_applied : ℕ → Wire
  wire_conflict : Option ℕ → Wire
  wire_rejected wire_retry_later : PushCode → Wire
  wire_duplicate : Wire → Wire

pub data IdempotencyStatus : Type 0 where
  was_applied was_rejected was_conflict : IdempotencyStatus

pub record IdempotencyRow : Type 0 where
  pub mutation_id : ℕ
  pub user_fk : ℕ
  pub store_fk : ℕ
  pub entity_type : ℕ
  pub action : MutationAction
  pub status : IdempotencyStatus
  pub result : Wire
  pub created_at : ℕ

pub record FailureRow : Type 0 where
  pub mutation_id : ℕ
  pub user_fk : ℕ
  pub store_fk : ℕ
  pub failure_count : ℕ

pub record ConflictRow : Type 0 where
  pub mutation_id : ℕ
  pub user_fk : ℕ
  pub store_fk : ℕ
  pub entity_guuid : Option ℕ
  pub server_row : Option ℕ
  pub client_payload : ℕ

pub record ServerState (D : Type 0) : Type 0 where
  pub business : D
  pub idempotency : List IdempotencyRow
  pub failures : List FailureRow
  pub conflicts : List ConflictRow

abbrev pub max_mutation_payload_bytes : ℕ
max_mutation_payload_bytes = 64 * 1024

abbrev pub poison_mutation_max_failures : ℕ
poison_mutation_max_failures = 7

abbrev pub server_idempotency_ttl_ms : ℕ
server_idempotency_ttl_ms = 45 * 24 * 60 * 60 * 1000

abbrev pub idempotency_conflict_ttl_ms : ℕ
idempotency_conflict_ttl_ms = 5 * 60 * 1000

abbrev pub future_skew_tolerance_ms : ℕ
future_skew_tolerance_ms = 5 * 60 * 1000

abbrev pub revocation_grace_window_ms : ℕ
revocation_grace_window_ms = 30 * 60 * 1000
