-- ===== src/SyncEngine/Requeue.antt =====
-- What opening a store does to the outbound queue
-- (apps/mobile/src/core/sync/engine/sync-engine.ts, cold-start.ts, permission-rebase.ts).
use ayphen_retail_pos.Common.{
  ℕ, zero, suc, ◌≡◌, refl, sym, ap, subst, ◌∙◌, Bool, true, false, ◌&&◌, inl, inr, Option, none,
  some, List, [], ◌∷◌, map, leb, ◌==◌, if◌then◌else◌, All, arith, Bool-cases, Option-cases,
}
use ayphen_retail_pos.SyncDb.{QueueRow, SyncDb, Result-cases, ApplierLookup, get_cursor}
use ayphen_retail_pos.MutationQueue.{is_inflight, reset_orphaned_inflight}
use ayphen_retail_pos.Pull.Untouched.{queue-upsert_with_isolation}
use ayphen_retail_pos.SyncEngine.{
  EngineDb, InitialRequest, InitialResult, Ending, finished, failed, unfinished, Snapshot,
  apply_initial_page, run_cold_start, purge, rebase_on_permission_grant, stamp, open_store,
  resume_at, apply_initial_rows, save_next_cursor, purge_revoked, forget_store, cold_start_if_fresh,
  get_meta,
}
use ayphen_retail_pos.Drain.Transient.{kept}

if-queue :
    {T : Type 0} (c : Bool) (a b : Ending × EngineDb T) (q : List QueueRow)
    → a.1.sync.queue ≡ q
    → b.1.sync.queue ≡ q
    → (if c then a else b).1.sync.queue ≡ q
if-queue true a b q ha hb = ha
if-queue false a b q ha hb = hb

module _ {T : Type 0} (registry : ApplierLookup T) (store : ℕ) where
  queue-purge :
      (types : List ℕ) (db : SyncDb T) → (purge registry store types db).1.queue ≡ db.queue
  unfolding purge
  queue-purge [] db = refl
  queue-purge (type ∷ types) db = elim (Option-cases (registry.get type)) [
    | inl unknown ↦ rw (unknown, purge) (queue-purge types db)
    | inr (applier, registered) ↦
        elim (Result-cases (applier.delete_all_for_store store db.tables)) [
          | inl bad ↦ rw (registered, purge) (rw (bad) refl)
          | inr (t, done) ↦ rw (registered, purge) (rw (done) (queue-purge types _))
        ]
  ]

  queue-purge_revoked :
      (table : List (ℕ × ℕ)) (before current : Option (List ℕ)) (db : SyncDb T)
      → (purge_revoked registry store table before current db).1.queue ≡ db.queue
  unfolding purge_revoked
  queue-purge_revoked table none none db = refl
  queue-purge_revoked table none (some current) db = refl
  queue-purge_revoked table (some before) none db = refl
  queue-purge_revoked table (some before) (some current) db = queue-purge _ db

  queue-forget_store :
      (purged : Bool) (sync : SyncDb T) (db : EngineDb T)
      → (forget_store registry store purged sync db).1.sync.queue ≡ sync.queue
  unfolding forget_store
  queue-forget_store true sync db = refl
  queue-forget_store false sync db = refl

  queue-rebase :
      (table : List (ℕ × ℕ)) (snapshot : Option Snapshot) (db : EngineDb T)
      → (rebase_on_permission_grant registry store table snapshot db).1.sync.queue ≡ db.sync.queue
  unfolding rebase_on_permission_grant
  queue-rebase table none db = refl
  queue-rebase table (some s) db = elim (Option-cases (get_cursor store db.sync.cursors)) [
    | inl absent ↦ rw (absent, rebase_on_permission_grant) refl
    | inr (cursor, present) ↦ elim (Option-cases (get_meta store db.meta)) [
      | inl unknown ↦ rw (present, rebase_on_permission_grant) (rw (unknown) refl)
      | inr (stored, known) ↦
          let purged =
            purge_revoked registry store table stored.permissions s.permissions db.sync in
          rw (present, rebase_on_permission_grant)
            (rw (known) (elim (Bool-cases (leb s.permissions_version stored.permissions_version)) [
              | inl same ↦ rw same refl
              | inr grown ↦ rw grown (
                  queue-forget_store purged.0 purged.1 db
                  ∙ queue-purge_revoked table stored.permissions s.permissions db.sync)
            ]))
    ]
  ]

  queue-apply_initial_rows :
      (type : Option ℕ) (result : InitialResult) (db : EngineDb T)
      → (apply_initial_rows registry store type result db).sync.queue ≡ db.sync.queue
  unfolding apply_initial_rows
  queue-apply_initial_rows none result db = refl
  queue-apply_initial_rows (some type) result db = elim (Option-cases (registry.get type)) [
    | inl unknown ↦ rw (unknown, apply_initial_rows) refl
    | inr (applier, registered) ↦
        rw (registered, apply_initial_rows)
          (queue-upsert_with_isolation store result.server_time type applier result.upserts db.sync)
  ]

  queue-save_next_cursor :
      (complete : Bool) (token : Option ℕ) (db : EngineDb T)
      → (save_next_cursor registry store complete token db).sync.queue ≡ db.sync.queue
  unfolding save_next_cursor
  queue-save_next_cursor true (some token) db = refl
  queue-save_next_cursor true none db = refl
  queue-save_next_cursor false token db = refl

  queue-apply_initial_page :
      (result : InitialResult) (db : EngineDb T)
      → (apply_initial_page registry store result db).sync.queue ≡ db.sync.queue
  unfolding apply_initial_page
  queue-apply_initial_page result db =
      queue-save_next_cursor _ _ (apply_initial_rows registry store result.entity_type result db)
      ∙ queue-apply_initial_rows result.entity_type result db

  queue-run_cold_start :
      (server : ℕ → InitialRequest → Option InitialResult) (fuel : ℕ) (db : EngineDb T)
      → (run_cold_start registry store server fuel db).1.sync.queue ≡ db.sync.queue
  unfolding run_cold_start
  queue-run_cold_start server zero db = refl
  queue-run_cold_start server (suc fuel) db =
      elim (Option-cases (server fuel (resume_at store db.progress))) [
        | inl refused ↦ rw (refused, run_cold_start) refl
        | inr (result, got) ↦
            rw (got, run_cold_start)
              (if-queue result.all_entities_complete
                (finished, apply_initial_page registry store result db)
                (run_cold_start registry store server fuel
                  (apply_initial_page registry store result db))
                db.sync.queue (queue-apply_initial_page result db)
                (queue-run_cold_start server fuel _ ∙ queue-apply_initial_page result db))
      ]

  queue-cold_start_if_fresh :
      (server : ℕ → InitialRequest → Option InitialResult) (fuel : ℕ) (db : EngineDb T)
      → (cold_start_if_fresh registry store server fuel db).1.sync.queue ≡ db.sync.queue
  unfolding cold_start_if_fresh
  queue-cold_start_if_fresh server fuel db =
      elim (Option-cases (get_cursor store db.sync.cursors)) [
        | inl absent ↦ rw (absent, cold_start_if_fresh) (queue-run_cold_start server fuel db)
        | inr (cursor, present) ↦ rw (present, cold_start_if_fresh) refl
      ]

  sync-stamp :
      (snapshot : Option Snapshot) (ending : Ending) (db : EngineDb T)
      → (stamp registry store snapshot ending db).sync.queue ≡ db.sync.queue
  unfolding stamp
  sync-stamp none finished db = refl
  sync-stamp (some s) finished db = refl
  sync-stamp snapshot failed db = refl
  sync-stamp snapshot unfinished db = refl

  queue-open_store :
      (table : List (ℕ × ℕ)) (snapshot : Option Snapshot)
      (server : ℕ → InitialRequest → Option InitialResult) (fuel : ℕ) (db : EngineDb T)
      → (open_store registry store table snapshot server fuel db).1.sync.queue
        ≡ reset_orphaned_inflight store db.sync.queue
  unfolding open_store
  queue-open_store table snapshot server fuel db =
      let reset = record db {
        sync = record (db.sync) { queue = reset_orphaned_inflight store db.sync.queue };
      } in
      let rebased = rebase_on_permission_grant registry store table snapshot reset in
      let started = cold_start_if_fresh registry store server fuel rebased.1 in
      let rebase_queue = queue-rebase table snapshot reset in
      if-queue rebased.0 (started.0, stamp registry store snapshot started.0 started.1)
        (failed, rebased.1) (reset_orphaned_inflight store db.sync.queue)
        (sync-stamp snapshot started.0 started.1
          ∙ queue-cold_start_if_fresh server fuel rebased.1
          ∙ rebase_queue)
        rebase_queue

-- No row of the store is inflight.
abbrev pub IsIdle : ℕ → List QueueRow → Type 0
IsIdle store q = All (λ (r : QueueRow). (r.store_id == store && is_inflight r.status) ≡ false) q

reset_orphaned_inflight-IsIdle :
    (store : ℕ) (q : List QueueRow) → IsIdle store (reset_orphaned_inflight store q)
unfolding reset_orphaned_inflight
reset_orphaned_inflight-IsIdle store [] = tt
reset_orphaned_inflight-IsIdle store (r ∷ q) =
    elim (Bool-cases (r.store_id == store && is_inflight r.status)) [
      | inl orphan ↦ rw orphan (ground arith, reset_orphaned_inflight-IsIdle store q)
      | inr other ↦ rw other (other, reset_orphaned_inflight-IsIdle store q)
    ]

map-reset_orphaned_inflight :
    (store : ℕ) (q : List QueueRow) → map kept (reset_orphaned_inflight store q) ≡ map kept q
unfolding reset_orphaned_inflight
map-reset_orphaned_inflight store [] = refl
map-reset_orphaned_inflight store (r ∷ q) =
    elim (Bool-cases (r.store_id == store && is_inflight r.status)) [
      | inl orphan ↦ rw orphan (ap (λ xs. kept r ∷ xs) (map-reset_orphaned_inflight store q))
      | inr other ↦ rw other (ap (λ xs. kept r ∷ xs) (map-reset_orphaned_inflight store q))
    ]

-- Opening a store, whether it rebases, starts cold or fails on the way, leaves no mutation of the store
-- inflight and keeps the payload and the attempts of every queued mutation.
pub open_store-IsIdle :
    {T : Type 0} (registry : ApplierLookup T) (store : ℕ) (table : List (ℕ × ℕ))
    (snapshot : Option Snapshot) (server : ℕ → InitialRequest → Option InitialResult) (fuel : ℕ)
    (db : EngineDb T)
    → let q = (open_store registry store table snapshot server fuel db).1.sync.queue in
      IsIdle store q × (map kept q ≡ map kept db.sync.queue)
open_store-IsIdle registry store table snapshot server fuel db =
    let e = queue-open_store registry store table snapshot server fuel db in
    (
      subst (IsIdle store) (sym e) (reset_orphaned_inflight-IsIdle store db.sync.queue),
      ap (map kept) e ∙ map-reset_orphaned_inflight store db.sync.queue,
    )
