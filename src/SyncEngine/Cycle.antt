-- ===== src/SyncEngine/Cycle.antt =====
-- A sync cycle pushes and then pulls (apps/mobile/src/core/sync/engine/sync-engine.ts).
use ayphen_retail_pos.Common.{
  ℕ, zero, suc, ◌<◌, ◌≡◌, ◌⊎◌, Bool, refl, sym, ap, ◌∙◌, inl, inr, Option, some, List, [], ◌∷◌,
  ◌==◌, length, filter, Bool-cases, Option-cases,
}
use ayphen_retail_pos.SyncDb.{
  QueueRow, SyncDb, Result-cases, ok-injective, ApplierLookup, get_cursor, ok,
}
use ayphen_retail_pos.MutationQueue.{take_drainable, mark_inflight}
use ayphen_retail_pos.Drain.{
  MutationResult, PushRequest, PushResponse, PushReply, DrainOutcome, returned, threw,
  reconcile_mutation_result, reconcile_tables, reconcile_one_result, reconcile_all, reconcile_each,
  reconcile_results, finish_drain, is_fresh, is_poison_push_error, mutation_ids, with_queue,
  push_request, expire, push_batch, drain_mutation_queue_once, max_batch,
}
use ayphen_retail_pos.Drain.Settling.{PushReply-cases}
use ayphen_retail_pos.SyncEngine.{
  Ending, finished, failed, ChangesResult, drain_batches, max_batches_per_cycle, run_push,
  run_sync_cycle,
}
use ayphen_retail_pos.SyncEngine.Delta.{
  cursor-apply_changes_page, IsPaging, IsPulled, pull_delta_to_completion-IsPulled,
  queue-pull_delta_to_completion,
}

outcome-cases : (o : DrainOutcome) → (o ≡ threw) ⊎ ((n : ℕ) × (more : Bool) × (o ≡ returned n more))
outcome-cases threw = inl refl
outcome-cases (returned n more) = inr (n, more, refl)

module _ {T : Type 0} (registry : ApplierLookup T) (store : ℕ) where
  -- The store has a cursor.
  abbrev IsStarted : SyncDb T → Type 0
  IsStarted db = (cursor : ℕ) × (get_cursor store db.cursors ≡ some cursor)

  module _ (batch : List QueueRow) (now : ℕ) where
    reconcile_one_result-cursors :
        (r : MutationResult) (db db' : SyncDb T)
        → reconcile_one_result registry store batch now r db ≡ ok db'
        → db'.cursors ≡ db.cursors
    unfolding reconcile_one_result
    reconcile_one_result-cursors r db db' h =
        elim (Result-cases (
          reconcile_tables registry store batch now (reconcile_mutation_result r) r.mutation_id
            db.tables)) [
              | inl bad ↦ cc (rw (bad, reconcile_one_result) at h)
              | inr (t, done) ↦
                  sym (ap (λ d. d.cursors) (ok-injective (rw (done, reconcile_one_result) at h)))
            ]

    reconcile_all-cursors :
        (rs : List MutationResult) (db db' : SyncDb T)
        → reconcile_all registry store batch now rs db ≡ ok db'
        → db'.cursors ≡ db.cursors
    unfolding reconcile_all
    reconcile_all-cursors [] db db' h = sym (ap (λ d. d.cursors) (ok-injective h))
    reconcile_all-cursors (r ∷ rs) db db' h =
        elim (Result-cases (reconcile_one_result registry store batch now r db)) [
          | inl bad ↦ cc (rw (bad, reconcile_all) at h)
          | inr (d, done) ↦
              reconcile_all-cursors rs d db' (rw (done, reconcile_all) at h)
              ∙ reconcile_one_result-cursors r db d done
        ]

    reconcile_each-cursors :
        (rs : List MutationResult) (db : SyncDb T)
        → (reconcile_each registry store batch now rs db).1.cursors ≡ db.cursors
    unfolding reconcile_each
    reconcile_each-cursors [] db = refl
    reconcile_each-cursors (r ∷ rs) db =
        elim (Result-cases (reconcile_one_result registry store batch now r db)) [
          | inl bad ↦ rw (bad, reconcile_each) refl
          | inr (d, done) ↦
              rw (done, reconcile_each)
                (reconcile_each-cursors rs d ∙ reconcile_one_result-cursors r db d done)
        ]

    reconcile_results-cursors :
        (rs : List MutationResult) (db : SyncDb T)
        → (reconcile_results registry store batch now rs db).1.cursors ≡ db.cursors
    unfolding reconcile_results
    reconcile_results-cursors rs db =
        elim (Result-cases (reconcile_all registry store batch now rs db)) [
          | inl bad ↦ rw (bad, reconcile_results) (reconcile_each-cursors rs db)
          | inr (d, done) ↦ rw (done, reconcile_results) (reconcile_all-cursors rs db d done)
        ]

    finish_drain-IsStarted :
        (ids : List ℕ) (response : PushResponse) (db : SyncDb T)
        → IsStarted db
        → IsStarted (finish_drain registry store batch now ids response db).1
    unfolding finish_drain
    finish_drain-IsStarted ids response db (cursor, present) =
        let rs = response.mutation_results in
        let kept = ap (get_cursor store) (reconcile_results-cursors rs db) ∙ present in
        elim (Bool-cases (reconcile_results registry store batch now rs db).0) [
          | inr stopped ↦ rw (stopped, finish_drain) (cursor, kept)
          | inl goes_on ↦
              rw (goes_on, finish_drain)
                (elim (Option-cases response.sync_cursor) [
                  | inl absent ↦ rw absent (cursor, kept)
                  | inr (token, found) ↦
                      rw found
                        (token, cursor-apply_changes_page registry store _ response.changes token _)
                ])
        ]

  push_batch-IsStarted :
      (server : PushRequest → PushReply) (now : ℕ) (batch : List QueueRow) (db : SyncDb T)
      → IsStarted db
      → IsStarted (push_batch registry server store now batch db).1
  unfolding push_batch
  push_batch-IsStarted server now batch db started =
      let marked = with_queue (mark_inflight (mutation_ids batch)) db in
      elim (PushReply-cases (server (push_request registry store batch marked))) [
        | inl (response, got) ↦
            rw (got, push_batch)
              (finish_drain-IsStarted batch now (mutation_ids batch) response marked started)
        | inr (error, message, refused) ↦
            rw (refused, push_batch)
              (elim (Bool-cases (is_poison_push_error error)) [
                | inl poison ↦ rw poison started
                | inr transport ↦ rw transport started
              ])
      ]

  drain_mutation_queue_once-IsStarted :
      (server : PushRequest → PushReply) (now : ℕ) (db : SyncDb T)
      → IsStarted db
      → IsStarted (drain_mutation_queue_once registry server store now db).1
  unfolding drain_mutation_queue_once expire
  drain_mutation_queue_once-IsStarted server now db started =
      let drainable = take_drainable store max_batch db.queue in
      let batch = filter (is_fresh now) drainable in
      elim (Bool-cases (length batch == 0)) [
        | inl nothing ↦ rw (nothing, drain_mutation_queue_once) started
        | inr some_left ↦
            rw (some_left, drain_mutation_queue_once)
              (push_batch-IsStarted server now batch (expire now drainable db) started)
      ]

  -- The batches end, in a throw or with the cursor there.
  abbrev IsPushed : Ending × SyncDb T → Type 0
  IsPushed e = ((e.0 ≡ finished) × IsStarted e.1) ⊎ (e.0 ≡ failed)

  drain_batches-IsPushed :
      (server : ℕ → PushRequest → PushReply) (now left : ℕ) (db : SyncDb T)
      → IsStarted db
      → IsPushed (drain_batches registry store server now left db)
  unfolding drain_batches
  drain_batches-IsPushed server now zero db started = inl (refl, started)
  drain_batches-IsPushed server now (suc left) db started =
      let once = drain_mutation_queue_once registry (server left) store now db in
      let started₁ = drain_mutation_queue_once-IsStarted (server left) now db started in
      elim (outcome-cases once.0) [
        | inl thrown ↦ rw (thrown, drain_batches) (inr refl)
        | inr (n, more, drained) ↦
            rw (drained, drain_batches)
              (elim (Bool-cases (n == 0)) [
                | inl empty ↦ rw empty (inl (refl, started₁))
                | inr pushed ↦ rw pushed (drain_batches-IsPushed server now left once.1 started₁)
              ])
      ]

  -- Where the server of the pull answers every request and its pages come to an end within the fuel, a
  -- cycle of a store that has a cursor ends. Either the push finishes, and the pull then finishes on
  -- what the push left: it leaves that queue as it is and the cursor at that of a last page. Or the
  -- push throws, and the cycle throws with what the push left, without a pull.
  pub run_sync_cycle-ends :
      (push_server : ℕ → PushRequest → PushReply) (left : ℕ → ℕ)
      (pull_server : ℕ → ℕ → Option ChangesResult) (now fuel cursor : ℕ) (db : SyncDb T)
      → IsPaging registry store left pull_server
      → ((c : ℕ) → left c < fuel)
      → get_cursor store db.cursors ≡ some cursor
      → let pushed = run_push registry store push_server now db in
        let cycle = run_sync_cycle registry store push_server pull_server now fuel db in
        ((pushed.0 ≡ finished)
          × IsPulled registry store pull_server cycle
          × (cycle.1.queue ≡ pushed.1.queue))
        ⊎ (cycle ≡ (failed, pushed.1))
  unfolding run_sync_cycle
  run_sync_cycle-ends push_server left pull_server now fuel cursor db paging enough present =
      let pushed = run_push registry store push_server now db in
      elim (drain_batches-IsPushed push_server now max_batches_per_cycle db (cursor, present)) [
        | inl (done, (c, there)) ↦ inl (
          done,
          rw (done, run_sync_cycle)
              (pull_delta_to_completion-IsPulled registry store left pull_server now fuel c pushed.1
                paging there (enough c)),
          rw (done, run_sync_cycle)
              (queue-pull_delta_to_completion registry store pull_server now fuel pushed.1),
        )
        | inr thrown ↦ inr (rw (thrown, run_sync_cycle) refl)
      ]
