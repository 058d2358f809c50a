-- ===== src/SyncEngine/Opened.antt =====
-- A store that has been opened has a cursor to pull from
-- (apps/mobile/src/core/sync/engine/sync-engine.ts, cold-start.ts).
use ayphen_retail_pos.Common.{
  ℕ, zero, suc, ◌<◌, ◌≡◌, ◌⊎◌, Bool, if◌then◌else◌, refl, ap, ◌∙◌, true, false, inl, inr, Option,
  none, some, List, arith, Bool-cases, Option-cases,
}
use ayphen_retail_pos.SyncDb.{ApplierLookup, get_cursor}
use ayphen_retail_pos.Pull.Shadow.{get_cursor-set}
use ayphen_retail_pos.MutationQueue.{reset_orphaned_inflight}
use ayphen_retail_pos.SyncEngine.{
  EngineDb, InitialRequest, InitialResult, Ending, finished, failed, unfinished, Snapshot,
  resume_at, save_next_cursor, apply_initial_page, run_cold_start, cold_start_if_fresh,
  rebase_on_permission_grant, stamp, open_store,
}

-- A server that answers every request, completes with a cursor, and has completed by its last answer.
abbrev pub IsFilling : (ℕ → InitialRequest → Option InitialResult) → Type 0
IsFilling server =
    (n : ℕ) (request : InitialRequest)
    → (result : InitialResult) × (server n request ≡ some result)
      × (result.all_entities_complete ≡ true
          → (token : ℕ) × (result.next_delta_cursor ≡ some token))
      × (n ≡ 0 → result.all_entities_complete ≡ true)

module _ {T : Type 0} (registry : ApplierLookup T) (store : ℕ) where
  -- Finished, and the store has a cursor.
  abbrev pub IsOpened : Ending × EngineDb T → Type 0
  IsOpened e = (e.0 ≡ finished) × ((cursor : ℕ) × (get_cursor store e.1.sync.cursors ≡ some cursor))

  cursor-apply_initial_page :
      (result : InitialResult) (token : ℕ) (db : EngineDb T)
      → result.all_entities_complete ≡ true
      → result.next_delta_cursor ≡ some token
      → get_cursor store (apply_initial_page registry store result db).sync.cursors ≡ some token
  unfolding apply_initial_page save_next_cursor
  cursor-apply_initial_page result token db complete given =
      rw (complete, given) (get_cursor-set store token _)

  either-IsOpened :
      (c : Bool) (a b : Ending × EngineDb T)
      → (c ≡ true → IsOpened a)
      → (c ≡ false → IsOpened b)
      → IsOpened (if c then a else b)
  either-IsOpened true a b h k = h refl
  either-IsOpened false a b h k = k refl

  run_cold_start-IsOpened :
      (server : ℕ → InitialRequest → Option InitialResult) (fuel : ℕ) (db : EngineDb T)
      → IsFilling server
      → 0 < fuel
      → IsOpened (run_cold_start registry store server fuel db)
  unfolding run_cold_start
  run_cold_start-IsOpened server zero db filling enough = absurd (omega (arith, enough))
  run_cold_start-IsOpened server (suc fuel) db filling enough =
      let (result, got, ended, by_last) = filling fuel (resume_at store db.progress) in
      let db₁ = apply_initial_page registry store result db in
      rw (got, run_cold_start)
        (either-IsOpened result.all_entities_complete (finished, db₁)
          (run_cold_start registry store server fuel db₁)
          (λ complete.
            let (token, given) = ended complete in
            (refl, (token, cursor-apply_initial_page result token db complete given)))
          (λ more. run_cold_start-IsOpened server fuel db₁ filling (ground (arith, by_last, more))))

  cold_start_if_fresh-IsOpened :
      (server : ℕ → InitialRequest → Option InitialResult) (fuel : ℕ) (db : EngineDb T)
      → IsFilling server
      → 0 < fuel
      → IsOpened (cold_start_if_fresh registry store server fuel db)
  unfolding cold_start_if_fresh
  cold_start_if_fresh-IsOpened server fuel db filling enough =
      elim (Option-cases (get_cursor store db.sync.cursors)) [
        | inl absent ↦
            rw (absent, cold_start_if_fresh) (run_cold_start-IsOpened server fuel db filling enough)
        | inr (cursor, present) ↦ rw (present, cold_start_if_fresh) (refl, (cursor, present))
      ]

  stamp-sync :
      (snapshot : Option Snapshot) (ending : Ending) (db : EngineDb T)
      → (stamp registry store snapshot ending db).sync ≡ db.sync
  unfolding stamp
  stamp-sync none finished db = refl
  stamp-sync (some s) finished db = refl
  stamp-sync snapshot failed db = refl
  stamp-sync snapshot unfinished db = refl

  -- Where the server of the cold start answers every request and completes with a cursor within the
  -- fuel, opening a store finishes with a cursor, from which it can pull, whether it rebases, starts
  -- cold or had one; only a purge that throws makes the opening fail.
  pub open_store-IsOpened :
      (table : List (ℕ × ℕ)) (snapshot : Option Snapshot)
      (server : ℕ → InitialRequest → Option InitialResult) (fuel : ℕ) (db : EngineDb T)
      → IsFilling server
      → 0 < fuel
      → let reset = record db {
        sync = record (db.sync) { queue = reset_orphaned_inflight store db.sync.queue };
      } in
        let opened = open_store registry store table snapshot server fuel db in
        IsOpened opened
        ⊎ ((opened.0 ≡ failed)
            × ((rebase_on_permission_grant registry store table snapshot reset).0 ≡ false))
  unfolding open_store
  open_store-IsOpened table snapshot server fuel db filling enough =
      let reset = record db {
        sync = record (db.sync) { queue = reset_orphaned_inflight store db.sync.queue };
      } in
      let rebased = rebase_on_permission_grant registry store table snapshot reset in
      let started = cold_start_if_fresh registry store server fuel rebased.1 in
      let (done, (cursor, present)) =
        cold_start_if_fresh-IsOpened server fuel rebased.1 filling enough in
      elim (Bool-cases rebased.0) [
        | inr threw ↦ inr (rw (threw, open_store) refl, threw)
        | inl kept ↦ inl (
          rw (kept, open_store) done,
          (
            cursor,
            rw (kept, open_store)
                (ap (λ d. get_cursor store d.cursors) (stamp-sync snapshot started.0 started.1)
                  ∙ present),
          ),
        )
      ]
