-- ===== src/SyncEngine.antt =====
-- The mechanism of a sync: apps/mobile/src/core/sync/engine/sync-engine.ts, cold-start.ts,
-- delta-pull.ts and permission-rebase.ts, with repositories/sync-init-progress.repository.ts and
-- sync-store-meta.repository.ts. The server answers the n-th request of a loop by a function of n and
-- the request, `none` for a request that throws; a loop that waits for the server's last page runs
-- on fuel and ends in `unfinished` without it. Migrations are left out; the table of
-- appliers/permission-entity-map.ts is a parameter.
pub mod State
pub mod Delta
pub mod Cycle
pub mod Opened
pub mod Requeue
mod Tests
unfoldable pub use State.*
use ayphen_retail_pos.Common.{
  ℕ, zero, suc, ◌+◌, Bool, true, false, ◌&&◌, not, Option, none, some, List, [], ◌∷◌, map, leb,
  ◌==◌, if◌then◌else◌, or_default, filter, find, member,
}
use ayphen_retail_pos.SyncDb.{
  WireRow, SyncDb, ok, throws, SyncApplier, ApplierLookup, get_cursor, set_cursor, clear_cursor,
}
use ayphen_retail_pos.MutationQueue.{reset_orphaned_inflight}
use ayphen_retail_pos.Pull.{
  Changes, upsert_with_isolation, apply_changes_page, retry_failed_applies,
}
use ayphen_retail_pos.Drain.{PushRequest, PushReply, returned, threw, drain_mutation_queue_once}

module _ {T : Type 0} (registry : ApplierLookup T) (store : ℕ) where
  -- The rows of a page and its progress.
  unfoldable pub apply_initial_rows : Option ℕ → InitialResult → EngineDb T → EngineDb T
  apply_initial_rows none result db = db
  apply_initial_rows (some type) result db = record db {
    sync = elim (registry.get type) [
      | none ↦ db.sync
      | some applier ↦
          upsert_with_isolation store type applier result.upserts result.server_time db.sync
    ];
    progress = save_page store type result.page_cursor result.has_more db.progress;
  }

  unfoldable pub save_next_cursor : Bool → Option ℕ → EngineDb T → EngineDb T
  save_next_cursor true (some token) db = record db {
    sync = record (db.sync) { cursors = set_cursor store token db.sync.cursors };
  }
  save_next_cursor _ _ db = db

  -- The transaction of `runColdStartStep`.
  unfoldable pub apply_initial_page : InitialResult → EngineDb T → EngineDb T
  apply_initial_page result db =
      save_next_cursor result.all_entities_complete result.next_delta_cursor
        (apply_initial_rows result.entity_type result db)

  -- `runColdStart`
  unfoldable pub run_cold_start :
      (ℕ → InitialRequest → Option InitialResult) → ℕ → EngineDb T → Ending × EngineDb T
  run_cold_start server zero db = (unfinished, db)
  run_cold_start server (suc fuel) db = elim (server fuel (resume_at store db.progress)) [
    | none ↦ (failed, db)
    | some result ↦
        let db₁ = apply_initial_page result db in
        let rest = run_cold_start server fuel db₁ in
        if result.all_entities_complete then (finished, db₁) else rest
  ]

  -- `pullDeltaToCompletion`
  unfoldable pub pull_delta_to_completion :
      (ℕ → ℕ → Option ChangesResult) → ℕ → ℕ → SyncDb T → Ending × SyncDb T
  pull_delta_to_completion server now zero db = (unfinished, db)
  pull_delta_to_completion server now (suc fuel) db = elim (get_cursor store db.cursors) [
    | none ↦ (failed, db)
    | some cursor ↦ elim (server fuel cursor) [
      | none ↦ (failed, db)
      | some result ↦
          let db₁ =
            apply_changes_page registry store result.server_time result.changes result.sync_cursor
              db in
          let rest = pull_delta_to_completion server now fuel db₁ in
          if result.has_more then rest else (finished, retry_failed_applies registry store now db₁)
    ]
  ]

  -- `deleteAllForStore` of every revoked type; a throw ends the loop.
  unfoldable pub purge : List ℕ → SyncDb T → Bool × SyncDb T
  purge [] db = (true, db)
  purge (type ∷ types) db = elim (registry.get type) [
    | none ↦ purge types db
    | some applier ↦ elim (applier.delete_all_for_store store db.tables) [
      | ok t ↦ purge types (record db { tables = t })
      | throws ↦ (false, db)
    ]
  ]

  -- The purge of a rebase, where both permission sets are known.
  unfoldable pub purge_revoked :
      List (ℕ × ℕ) → Option (List ℕ) → Option (List ℕ) → SyncDb T → Bool × SyncDb T
  purge_revoked entity_permission (some before) (some current) db =
      purge (revoked_types entity_permission before current) db
  purge_revoked entity_permission _ _ db = (true, db)

  -- The cursor and the progress go, unless the purge threw.
  unfoldable pub forget_store : Bool → SyncDb T → EngineDb T → Bool × EngineDb T
  forget_store false sync db = (false, record db { sync = sync })
  forget_store true sync db = (
    true,
    record db {
      sync = record sync { cursors = clear_cursor store sync.cursors };
      progress = reset_progress store db.progress;
    },
  )

  -- `rebaseOnPermissionGrant`; false when a purge throws
  unfoldable pub rebase_on_permission_grant :
      List (ℕ × ℕ) → Option Snapshot → EngineDb T → Bool × EngineDb T
  rebase_on_permission_grant entity_permission snapshot db = elim snapshot [
    | none ↦ (true, db)
    | some s ↦ elim (get_cursor store db.sync.cursors) [
      | none ↦ (true, db)
      | some cursor ↦ elim (get_meta store db.meta) [
        | none ↦ (true, db)
        | some stored ↦
            let purged = purge_revoked entity_permission stored.permissions s.permissions db.sync in
            if leb s.permissions_version stored.permissions_version
            then (true, db)
            else forget_store purged.0 purged.1 db
      ]
    ]
  ]

  unfoldable pub cold_start_if_fresh :
      (ℕ → InitialRequest → Option InitialResult) → ℕ → EngineDb T → Ending × EngineDb T
  cold_start_if_fresh server fuel db = elim (get_cursor store db.sync.cursors) [
    | some cursor ↦ (finished, db)
    | none ↦ run_cold_start server fuel db
  ]

  -- The stamp at the end of `openStore`, which a throw before it skips.
  unfoldable pub stamp : Option Snapshot → Ending → EngineDb T → EngineDb T
  stamp snapshot ending db = elim ending [
    | failed ↦ db
    | unfinished ↦ db
    | finished ↦ elim snapshot [
      | none ↦ db
      | some s ↦ record db {
        meta =
            set_permissions_version store s.permissions_version (or_default s.permissions [])
              db.meta;
      }
    ]
  ]

  -- `openStore`
  unfoldable pub open_store :
      List (ℕ × ℕ)
      → Option Snapshot
      → (ℕ → InitialRequest → Option InitialResult)
      → ℕ
      → EngineDb T
      → Ending × EngineDb T
  open_store entity_permission snapshot server fuel db =
      let reset = record db {
        sync = record (db.sync) { queue = reset_orphaned_inflight store db.sync.queue };
      } in
      let rebased = rebase_on_permission_grant entity_permission snapshot reset in
      let started = cold_start_if_fresh server fuel rebased.1 in
      if rebased.0 then (started.0, stamp snapshot started.0 started.1) else (failed, rebased.1)

  -- `drainQueueFully`, with the batches that the cycle may still push
  unfoldable pub drain_batches :
      (ℕ → PushRequest → PushReply) → ℕ → ℕ → SyncDb T → Ending × SyncDb T
  drain_batches server now zero db = (finished, db)
  drain_batches server now (suc left) db =
      let (outcome, db₁) = drain_mutation_queue_once registry (server left) store now db in
      let rest = drain_batches server now left db₁ in
      elim outcome [
        | threw ↦ (failed, db₁)
        | returned drained more ↦ if drained == 0 then (finished, db₁) else rest
      ]

  -- `runPush`
  abbrev pub run_push : (ℕ → PushRequest → PushReply) → ℕ → SyncDb T → Ending × SyncDb T
  run_push server now db = drain_batches server now max_batches_per_cycle db

  -- `runSyncCycle`: push before pull
  unfoldable pub run_sync_cycle :
      (ℕ → PushRequest → PushReply)
      → (ℕ → ℕ → Option ChangesResult)
      → ℕ
      → ℕ
      → SyncDb T
      → Ending × SyncDb T
  run_sync_cycle push_server pull_server now fuel db =
      let (ending, db₁) = run_push push_server now db in
      elim ending [
        | finished ↦ pull_delta_to_completion pull_server now fuel db₁
        | failed ↦ (failed, db₁)
        | unfinished ↦ (unfinished, db₁)
      ]
