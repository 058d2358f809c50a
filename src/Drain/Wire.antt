-- ===== src/Drain/Wire.antt =====
-- The requests, answers and errors of a drain, apps/mobile/src/core/sync/engine/drain-queue.ts,
-- reconcile-mutation-result.ts and transport/push-error-classifier.ts.
use ayphen_retail_pos.Common.{
  ℕ, ◌+◌, ◌*◌, Bool, false, ◌&&◌, not, Option, List, map, ltb, leb, ◌==◌,
}
use ayphen_retail_pos.SyncDb.{WireRow, Action, QueueRow}
use ayphen_retail_pos.Pull.{Changes}

abbrev pub max_batch : ℕ
max_batch = 100

-- 45 days
abbrev pub idempotency_ttl_ms : ℕ
idempotency_ttl_ms = 45 * 24 * 60 * 60 * 1000

-- The five kinds of `MutationResultWire`.
pub data ResultStatus : Type 0 where
  applied : Option WireRow → ResultStatus
  duplicate : ResultStatus
  conflict : Option WireRow → ResultStatus
  rejected : ℕ → ℕ → ResultStatus
  retry_later : ResultStatus

pub record MutationResult : Type 0 where
  pub mutation_id : ℕ
  pub status : ResultStatus

pub data ReconcileAction : Type 0 where
  commit_applied : Option WireRow → ReconcileAction
  commit_duplicate : ReconcileAction
  mark_as_conflict : Option WireRow → ReconcileAction
  rollback : ℕ → ℕ → ReconcileAction
  keep_queued : ReconcileAction

-- `reconcileMutationResult`
unfoldable pub reconcile_mutation_result : MutationResult → ReconcileAction
reconcile_mutation_result r = elim r.status [
  | applied row ↦ commit_applied row
  | duplicate ↦ commit_duplicate
  | conflict row ↦ mark_as_conflict row
  | rejected code message ↦ rollback code message
  | retry_later ↦ keep_queued
]

-- `toWireMutation`
pub record SyncMutationInput : Type 0 where
  pub mutation_id : ℕ
  pub entity_type : ℕ
  pub action : Action
  pub payload : ℕ
  pub expected_row_version : Option ℕ
  pub client_modified_at : ℕ
  pub parent_guuid : Option ℕ

unfoldable pub to_wire_mutation : QueueRow → SyncMutationInput
to_wire_mutation r = record {
  mutation_id = r.mutation_id;
  entity_type = r.entity_type;
  action = r.action;
  payload = r.payload;
  expected_row_version = r.expected_row_version;
  client_modified_at = r.client_modified_at;
  parent_guuid = r.parent_guuid;
}

pub record PushRequest : Type 0 where
  pub sync_cursor : Option ℕ
  pub supported_entity_types : List ℕ
  pub mutations : List SyncMutationInput

pub record PushResponse : Type 0 where
  pub mutation_results : List MutationResult
  pub changes : Changes
  pub sync_cursor : Option ℕ
  pub has_more : Bool
  pub server_time : ℕ

-- What `pushDelta` throws: an HTTP error with its status, one without a response, or any other.
pub data PushError : Type 0 where
  http : ℕ → PushError
  no_response not_http : PushError

pub data PushReply : Type 0 where
  answered : PushResponse → PushReply
  failed : PushError → ℕ → PushReply

unfoldable pub is_poison_push_error : PushError → Bool
is_poison_push_error (http status) = leb 400 status && ltb status 500 && not (status == 429)
is_poison_push_error _ = false

pub data DrainOutcome : Type 0 where
  returned : ℕ → Bool → DrainOutcome
  threw : DrainOutcome

abbrev pub is_fresh : ℕ → QueueRow → Bool
is_fresh now r = leb now (r.created_at + idempotency_ttl_ms)

abbrev pub mutation_ids : List QueueRow → List ℕ
mutation_ids rows = map (λ (r : QueueRow). r.mutation_id) rows
