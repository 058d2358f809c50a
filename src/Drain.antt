-- ===== src/Drain.antt =====
-- One drain of the outbound queue: apps/mobile/src/core/sync/engine/drain-queue.ts,
-- reconcile-mutation-result.ts and transport/push-error-classifier.ts. The server is a function from
-- the pushed request to its answer. Messages are numbers; the snapshot that an answer may carry goes
-- to the auth store and is left out.
pub mod Wire
pub mod Settling
pub mod Settled
pub mod Fallback
pub mod Transient
pub mod Held
pub mod Picked
pub mod Capped
mod Tests
unfoldable pub use Wire.*
use ayphen_retail_pos.Common.{
  ℕ, ◌+◌, ◌*◌, Bool, true, false, ◌&&◌, not, Option, none, some, List, [], ◌∷◌, map, ltb, leb, ◌==◌,
  if◌then◌else◌, length, filter, find, member,
}
use ayphen_retail_pos.SyncDb.{
  WireRow, Action, create, update, delete, QueueRow, SyncDb, Result, ok, throws, ◌>>=◌, SyncApplier,
  ApplierLookup, get_cursor,
}
use ayphen_retail_pos.MutationQueue.{
  take_drainable, mark_inflight, mark_applied, mark_conflict, mark_rejected, record_retry_later,
  record_transport_failure_batch, record_poison_failure_batch, mark_expired_batch,
}
use ayphen_retail_pos.Pull.{Changes, apply_changes_page}

module _ {T : Type 0} where
  abbrev pub with_queue : (List QueueRow → List QueueRow) → SyncDb T → SyncDb T
  with_queue f db = record db { queue = f db.queue }

  -- The local write of an applied create replaces the temporary row.
  unfoldable pub swap_applied : ℕ → SyncApplier T → QueueRow → WireRow → T → Result T
  swap_applied store applier q row t = elim q.action [
    | create ↦
        applier.apply_deletes store (q.entity_guuid ∷ []) t >>= applier.upsert_all store (row ∷ [])
    | update ↦ applier.upsert_all store (row ∷ []) t
    | delete ↦ applier.upsert_all store (row ∷ []) t
  ]

  -- The local write of a rejected mutation is undone.
  unfoldable pub roll_back : ℕ → SyncApplier T → QueueRow → T → Result T
  roll_back store applier q t = elim q.action [
    | create ↦ applier.apply_deletes store (q.entity_guuid ∷ []) t
    | update ↦ elim q.pre_image [ none ↦ ok t | some row ↦ applier.upsert_all store (row ∷ []) t ]
    | delete ↦ elim q.pre_image [ none ↦ ok t | some row ↦ applier.upsert_all store (row ∷ []) t ]
  ]

  module _ (registry : ApplierLookup T) (store : ℕ) (batch : List QueueRow) (now : ℕ) where
    -- `byMutationId.get(id)`
    abbrev pub row_of : ℕ → Option QueueRow
    row_of id = find (λ (r : QueueRow). r.mutation_id == id) batch

    -- The tables after a result, before the queue is marked.
    unfoldable pub reconcile_tables : ReconcileAction → ℕ → T → Result T
    reconcile_tables action id t = elim action [
      | commit_applied data_row ↦ elim data_row [
        | none ↦ ok t
        | some row ↦ elim (row_of id) [
          | none ↦ ok t
          | some q ↦ elim (registry.get q.entity_type) [
            | none ↦ ok t
            | some applier ↦ swap_applied store applier q row t
          ]
        ]
      ]
      | commit_duplicate ↦ ok t
      | mark_as_conflict row ↦ ok t
      | rollback code message ↦ elim (row_of id) [
        | none ↦ ok t
        | some q ↦ elim (registry.get q.entity_type) [
          | none ↦ ok t
          | some applier ↦ roll_back store applier q t
        ]
      ]
      | keep_queued ↦ ok t
    ]

    unfoldable pub reconcile_queue : ReconcileAction → ℕ → List QueueRow → List QueueRow
    reconcile_queue action id q = elim action [
      | commit_applied data_row ↦ mark_applied id q
      | commit_duplicate ↦ mark_applied id q
      | mark_as_conflict row ↦ mark_conflict id row q
      | rollback code message ↦ mark_rejected id code message now q
      | keep_queued ↦ record_retry_later id now q
    ]

    -- `reconcileOneResult`: the tables first, then the queue row; a throw undoes both.
    unfoldable pub reconcile_one_result : MutationResult → SyncDb T → Result (SyncDb T)
    reconcile_one_result r db =
        let action = reconcile_mutation_result r in
        reconcile_tables action r.mutation_id db.tables >>= λ t.
        ok (record db { tables = t; queue = reconcile_queue action r.mutation_id db.queue })

    -- The whole batch in one transaction.
    unfoldable pub reconcile_all : List MutationResult → SyncDb T → Result (SyncDb T)
    reconcile_all [] db = ok db
    reconcile_all (r ∷ rs) db = reconcile_one_result r db >>= reconcile_all rs

    -- One transaction for each result; a throw ends the loop and leaves what was committed.
    unfoldable pub reconcile_each : List MutationResult → SyncDb T → Bool × SyncDb T
    reconcile_each [] db = (true, db)
    reconcile_each (r ∷ rs) db = elim (reconcile_one_result r db) [
      | ok db' ↦ reconcile_each rs db'
      | throws ↦ (false, db)
    ]

    -- The `try` and its `catch`: whether the drain goes on, and the database.
    unfoldable pub reconcile_results : List MutationResult → SyncDb T → Bool × SyncDb T
    reconcile_results rs db = elim (reconcile_all rs db) [
      | ok db' ↦ (true, db')
      | throws ↦ reconcile_each rs db
    ]

    -- The ids that the server gave no result for.
    unfoldable pub unanswered : List ℕ → List MutationResult → List ℕ
    unanswered ids rs =
        filter (λ id. not (member id (map (λ (r : MutationResult). r.mutation_id) rs))) ids

    -- From the answer to the end of the drain.
    unfoldable pub finish_drain : List ℕ → PushResponse → SyncDb T → DrainOutcome × SyncDb T
    finish_drain ids response db =
        let (goes_on, db₁) = reconcile_results response.mutation_results db in
        if goes_on
        then (let db₂ =
              with_queue
                (record_poison_failure_batch (unanswered ids response.mutation_results) 3 now)
                db₁ in
            let db₃ : SyncDb T = elim response.sync_cursor [
              | none ↦ db₂
              | some token ↦
                  apply_changes_page registry store response.server_time response.changes token db₂
            ] in
            (returned (length batch) response.has_more, db₃))
        else (threw, db₁)

  abbrev pub push_request : ApplierLookup T → ℕ → List QueueRow → SyncDb T → PushRequest
  push_request registry store batch db = record {
    sync_cursor = get_cursor store db.cursors;
    supported_entity_types = registry.entity_types;
    mutations = map to_wire_mutation batch;
  }

  -- The rows too old to replay are dead-lettered.
  unfoldable pub expire : ℕ → List QueueRow → SyncDb T → SyncDb T
  expire now drainable db =
      with_queue
        (mark_expired_batch (mutation_ids (filter (λ r. not (is_fresh now r)) drainable)) now) db

  unfoldable pub push_batch :
      ApplierLookup T
      → (PushRequest → PushReply)
      → ℕ
      → ℕ
      → List QueueRow
      → SyncDb T
      → DrainOutcome × SyncDb T
  push_batch registry server store now batch db =
      let ids = mutation_ids batch in
      let marked = with_queue (mark_inflight ids) db in
      elim (server (push_request registry store batch marked)) [
        | answered response ↦ finish_drain registry store batch now ids response marked
        | failed error message ↦ (
          threw,
          if is_poison_push_error error
              then with_queue (record_poison_failure_batch ids message now) marked
              else with_queue (record_transport_failure_batch ids message now) marked,
        )
      ]

  -- `drainMutationQueueOnce`
  unfoldable pub drain_mutation_queue_once :
      ApplierLookup T → (PushRequest → PushReply) → ℕ → ℕ → SyncDb T → DrainOutcome × SyncDb T
  drain_mutation_queue_once registry server store now db =
      let drainable = take_drainable store max_batch db.queue in
      let batch = filter (is_fresh now) drainable in
      let db₁ = expire now drainable db in
      if length batch == 0
      then (returned 0 false, db₁)
      else push_batch registry server store now batch db₁
