-- ===== src/SyncEngine/Tests.antt =====
-- Tests of the sync engine on the registry of Pull/Fixture.antt.
use ayphen_retail_pos.Common.{
  ◌==◌, false, ℕ, ◌⊎◌, ltb, if◌then◌else◌, arith, ◌≡◌, refl, true, false, Option, none, some, [],
  ◌∷◌, map,
}
use ayphen_retail_pos.SyncDb.{SyncDb, inflight}
use ayphen_retail_pos.MutationQueue.{
  sort_rows, insert_row, record_poison_failure_batch, mark_applied, mark_inflight,
  mark_expired_batch, live_guuids, take_drainable, reset_orphaned_inflight,
}
use ayphen_retail_pos.Pull.{
  retry_rows, list_retryable, apply_changes_page, apply_upserts, apply_tombstones,
  delete_with_isolation, retry_failed_applies, upsert_with_isolation,
}
use ayphen_retail_pos.Drain.{
  unanswered, drain_mutation_queue_once, expire, push_batch, finish_drain, reconcile_results,
  reconcile_all, reconcile_one_result, reconcile_mutation_result, reconcile_tables, reconcile_queue,
  swap_applied, PushRequest, PushReply, answered, applied,
}
use ayphen_retail_pos.Drain.Transient.{kept}
use ayphen_retail_pos.Pull.Fixture.{Table, registry, row_of, queued, device}
use ayphen_retail_pos.SyncEngine.{
  pull_delta_to_completion, drain_batches, EngineDb, InitialRequest, InitialResult, ChangesResult,
  Snapshot, Ending, finished, failed, run_push, run_sync_cycle, open_store, run_cold_start,
  cold_start_if_fresh, apply_initial_page, apply_initial_rows, save_next_cursor,
  rebase_on_permission_grant, forget_store, purge_revoked, purge, revoked_types, reset_progress,
  get_meta, stamp, resume_at, save_page, set_permissions_version,
}
use ayphen_retail_pos.SyncEngine.Delta.{IsPaging, IsPulled}
use ayphen_retail_pos.SyncEngine.Opened.{IsFilling, IsOpened, open_store-IsOpened}
use ayphen_retail_pos.SyncEngine.Cycle.{run_sync_cycle-ends}
use ayphen_retail_pos.SyncEngine.Requeue.{IsIdle, open_store-IsIdle}

-- A store that was killed in a push, whose user has lost the `view` grant 7 of entity 1 since.
abbrev killed : EngineDb Table
killed = record {
  sync = record device {
    queue = record (queued 1 10 0 50) { status = inflight } ∷ [];
    cursors = (1, 4) ∷ [];
  };
  progress = [];
  meta = record { store_id = 1; permissions_version = 2; permissions = some (7 ∷ []) } ∷ [];
}

abbrev snapshot : Option Snapshot
snapshot = some (record { permissions_version = 3; permissions = some [] })

abbrev first_page : InitialResult
first_page = record {
  entity_type = some 1;
  upserts = row_of 12 9 ∷ [];
  page_cursor = none;
  has_more = false;
  all_entities_complete = true;
  next_delta_cursor = some 8;
  server_time = 90;
}

abbrev initial_server : ℕ → InitialRequest → Option InitialResult
initial_server n request = some first_page

-- The purge empties the table before the cold start fills it again.
abbrev reopened : EngineDb Table
reopened = (open_store registry 1 ((1, 7) ∷ []) snapshot initial_server 5 killed).1

open_store-IsIdle_example :
    IsIdle 1 reopened.sync.queue × (map kept reopened.sync.queue ≡ map kept killed.sync.queue)
open_store-IsIdle_example =
    open_store-IsIdle registry 1 ((1, 7) ∷ []) snapshot initial_server 5 killed

-- The last of two pages completes.
abbrev paged_server : ℕ → InitialRequest → Option InitialResult
paged_server n request = some (record first_page { all_entities_complete = n == 0 })

paged_server-IsFilling : IsFilling paged_server
paged_server-IsFilling n request = (
  record first_page { all_entities_complete = n == 0 },
  refl,
  (λ complete. (8, refl)),
  (λ last. ground (arith, last)),
)

open_store-IsOpened_example :
    IsOpened registry 1 (open_store registry 1 ((1, 7) ∷ []) snapshot paged_server 2 killed)
    ⊎ (((open_store registry 1 ((1, 7) ∷ []) snapshot paged_server 2 killed).0 ≡ failed)
        × ((rebase_on_permission_grant registry 1 ((1, 7) ∷ []) snapshot (record killed {
          sync = record (killed.sync) { queue = reset_orphaned_inflight 1 killed.sync.queue };
        })).0
            ≡ false))
open_store-IsOpened_example =
    open_store-IsOpened registry 1 ((1, 7) ∷ []) snapshot paged_server 2 killed
      paged_server-IsFilling (omega arith)

-- Two pages to the end of the changes.
abbrev pages_left : ℕ → ℕ
pages_left cursor = if ltb cursor 9 then 1 else 0

abbrev changes_page : ℕ → ChangesResult
changes_page cursor = record {
  changes = (1, record { upserts = row_of 11 8 ∷ []; deletes = [] }) ∷ [];
  sync_cursor = 9;
  has_more = ltb cursor 9;
  server_time = 95;
}

abbrev changes_server : ℕ → ℕ → Option ChangesResult
changes_server n cursor = some (changes_page cursor)

changes_server-IsPaging : IsPaging registry 1 pages_left changes_server
changes_server-IsPaging n cursor = (changes_page cursor, refl, λ more. ground (arith, more))

-- The server has applied what is pushed.
abbrev push_server : ℕ → PushRequest → PushReply
push_server n request = answered (record {
  mutation_results = record { mutation_id = 1; status = applied (some (row_of 10 6)) } ∷ [];
  changes = [];
  sync_cursor = none;
  has_more = false;
  server_time = 94;
})

abbrev waiting : SyncDb Table
waiting = record device { queue = queued 1 10 0 50 ∷ []; cursors = (1, 4) ∷ [] }

abbrev pushed : Ending × SyncDb Table
pushed = run_push registry 1 push_server 60 waiting

abbrev cycled : Ending × SyncDb Table
cycled = run_sync_cycle registry 1 push_server changes_server 60 2 waiting

-- The row that the push committed, and that of the two pages.
pushed-finished :
    (pushed.0 ≡ finished) × (cycled.1.tables ≡ (11, 8) ∷ (11, 8) ∷ (10, 6) ∷ (11, 6) ∷ [])
unfolding drain_batches drain_mutation_queue_once take_drainable expire push_batch finish_drain
    reconcile_results reconcile_all reconcile_one_result reconcile_mutation_result reconcile_tables
    reconcile_queue swap_applied run_sync_cycle pull_delta_to_completion apply_changes_page
    apply_upserts apply_tombstones upsert_with_isolation delete_with_isolation retry_failed_applies
    sort_rows insert_row record_poison_failure_batch mark_applied mark_inflight mark_expired_batch
    unanswered live_guuids retry_rows list_retryable
pushed-finished = (refl, refl)

run_sync_cycle-ends_example :
    ((pushed.0 ≡ finished)
      × IsPulled registry 1 changes_server cycled
      × (cycled.1.queue ≡ pushed.1.queue))
    ⊎ (cycled ≡ (failed, pushed.1))
run_sync_cycle-ends_example =
    run_sync_cycle-ends registry 1 push_server pages_left changes_server 60 2 4 waiting
      changes_server-IsPaging (λ c. ground arith) refl

purged_and_filled : reopened.sync.tables ≡ (12, 9) ∷ []
unfolding open_store rebase_on_permission_grant get_meta purge_revoked revoked_types purge
    forget_store reset_progress cold_start_if_fresh run_cold_start resume_at apply_initial_page
    apply_initial_rows save_next_cursor save_page stamp set_permissions_version
    reset_orphaned_inflight upsert_with_isolation
purged_and_filled = refl
