-- ===== src/Drain/Settled.antt =====
-- The end of a drain and its effect on the pushed rows' statuses: what follows the server's answer, and
-- a push that fails (apps/mobile/src/core/sync/engine/drain-queue.ts).
use ayphen_retail_pos.Common.{
  ℕ, ◌≡◌, ◌⊎◌, refl, sym, ap, subst, ◌∙◌, Bool, false, not, inl, inr, none, some, List,
  if◌then◌else◌, filter, member, arith, Bool-cases, Option-cases,
}
use ayphen_retail_pos.SyncDb.{QueueRow, SyncDb, ApplierLookup}
use ayphen_retail_pos.MutationQueue.{
  mark_inflight, record_transport_failure_batch, record_poison_failure_batch, set_poison_failure,
  set_transport_failure,
}
use ayphen_retail_pos.Pull.Untouched.{queue-apply_changes_page}
use ayphen_retail_pos.Pull.{apply_changes_page}
use ayphen_retail_pos.Drain.{
  MutationResult, PushRequest, PushResponse, PushError, PushReply, answered, failed, DrainOutcome,
  returned, threw, reconcile_results, unanswered, finish_drain, mutation_ids, push_batch,
  is_poison_push_error, push_request, with_queue,
}
use ayphen_retail_pos.Drain.Settling.{
  IsSettled, IsSettled-update, IsSettled-weaken, nothing-IsSettled, result_ids, poison_status,
  PushReply-cases, threw≢returned, member-filter, with_ids, reconcile_results-IsSettled,
}

module _ {T : Type 0} (registry : ApplierLookup T) (store : ℕ) (batch : List QueueRow)
    (now : ℕ) where
  apply_page_queue :
      (response : PushResponse) (db : SyncDb T)
      → (let stepped : SyncDb T = elim response.sync_cursor [
        | none ↦ db
        | some token ↦
            apply_changes_page registry store response.server_time response.changes token db
      ] in
          stepped.queue)
        ≡ db.queue
  apply_page_queue response db = elim (Option-cases response.sync_cursor) [
    | inl absent ↦ rw absent
    | inr (token, present) ↦
        rw present
          (queue-apply_changes_page store response.server_time registry response.changes token db)
  ]

  -- Poison failures settle what the server did not answer.
  poison-IsSettled :
      (ids : List ℕ) (rs : List MutationResult) (message : ℕ) (q : List QueueRow)
      → IsSettled (with_ids (result_ids rs) (λ _. false)) q
      → IsSettled
          (λ x. member x ids)
          (record_poison_failure_batch (unanswered registry store batch now ids rs) message now q)
  unfolding record_poison_failure_batch unanswered
  poison-IsSettled ids rs message q s =
      let left = filter (λ id. not (member id (result_ids rs))) ids in
      IsSettled-weaken (with_ids left (with_ids (result_ids rs) (λ _. false))) _ _
        (λ x m. elim (Bool-cases (member x (result_ids rs))) [
          | inl known ↦ ground (arith, known)
          | inr missing ↦
              let there =
                member-filter x (λ id. not (member id (result_ids rs))) ids
                  (ground (arith, missing)) m in
              ground (arith, there)
        ])
        (IsSettled-update left (set_poison_failure message now) _ q
          (λ r. (refl, poison_status r.attempts)) s)

  finish_drain-IsSettled :
      (ids : List ℕ) (response : PushResponse) (db : SyncDb T) {n : ℕ} {more : Bool}
      {db' : SyncDb T}
      → finish_drain registry store batch now ids response db ≡ (returned n more, db')
      → IsSettled (λ x. member x ids) db'.queue
  unfolding finish_drain
  finish_drain-IsSettled ids response db h =
      let rs = response.mutation_results in
      elim (Bool-cases (reconcile_results registry store batch now rs db).0) [
        | inr stopped ↦ cc (rw (stopped, finish_drain) at h)
        | inl goes_on ↦
            let e = rw (goes_on, finish_drain) at h in
            let db₁ = (reconcile_results registry store batch now rs db).1 in
            subst (IsSettled (λ x. member x ids))
              (sym (apply_page_queue response _) ∙ ap (λ p. p.1.queue) e)
              (poison-IsSettled ids rs 3 db₁.queue (
                reconcile_results-IsSettled registry store batch now rs (λ _. false) db goes_on
                  (nothing-IsSettled db.queue)))
      ]

  pub push_batch-failed :
      (server : PushRequest → PushReply) (db : SyncDb T) (error : PushError) (message : ℕ)
      → (let marked = with_queue (mark_inflight (mutation_ids batch)) db in
          server (push_request registry store batch marked) ≡ failed error message)
      → push_batch registry server store now batch db ≡ (
          let ids = mutation_ids batch in
          let marked = with_queue (mark_inflight ids) db in
          (
            threw,
            if is_poison_push_error error
                then with_queue (record_poison_failure_batch ids message now) marked
                else with_queue (record_transport_failure_batch ids message now) marked,
          ))
  unfolding push_batch
  push_batch-failed server db error message refused = rw (refused, push_batch)

  push_batch-answered :
      (server : PushRequest → PushReply) (db : SyncDb T) (response : PushResponse)
      → (let marked = with_queue (mark_inflight (mutation_ids batch)) db in
          server (push_request registry store batch marked) ≡ answered response)
      → push_batch registry server store now batch db ≡ (
          let ids = mutation_ids batch in
          finish_drain registry store batch now ids response (with_queue (mark_inflight ids) db))
  unfolding push_batch
  push_batch-answered server db response got = rw (got, push_batch)

  -- A failed push settles every row of the batch, whichever of the two ways it counts.
  failed_push-IsSettled :
      (ids : List ℕ) (error : PushError) (message : ℕ) (db : SyncDb T)
      → IsSettled
          (λ x. member x ids)
          (if is_poison_push_error error
            then with_queue (record_poison_failure_batch ids message now) db
            else with_queue (record_transport_failure_batch ids message now) db).queue
  unfolding record_poison_failure_batch record_transport_failure_batch
  failed_push-IsSettled ids error message db = elim (Bool-cases (is_poison_push_error error)) [
    | inl poison ↦ rw poison (
        IsSettled-weaken (with_ids ids (λ _. false)) _ _ (λ x m. ground (arith, m))
          (IsSettled-update ids (set_poison_failure message now) _ db.queue
            (λ r. (refl, poison_status r.attempts)) (nothing-IsSettled db.queue)))
    | inr transport ↦ rw transport (
        IsSettled-weaken (with_ids ids (λ _. false)) _ _ (λ x m. ground (arith, m))
          (IsSettled-update ids (set_transport_failure message now) _ db.queue (λ r. (refl, refl))
            (nothing-IsSettled db.queue)))
  ]

  -- Once the server has answered and the drain returns, or once the push itself has failed, no pushed
  -- mutation is left inflight.
  pub push_batch-IsSettled :
      (server : PushRequest → PushReply) (db : SyncDb T) {outcome : DrainOutcome} {db' : SyncDb T}
      → push_batch registry server store now batch db ≡ (outcome, db')
      → (((n : ℕ) × (more : Bool) × (outcome ≡ returned n more))
          ⊎ ((error : PushError) × (message : ℕ) × (server (
                  push_request registry store batch
                    (with_queue (mark_inflight (mutation_ids batch)) db))
                ≡ failed error message)))
      → IsSettled (λ x. member x (mutation_ids batch)) db'.queue
  push_batch-IsSettled server db h (inr (error, message, refused)) =
      subst (IsSettled (λ x. member x (mutation_ids batch)))
        (ap (λ p. p.1.queue) (sym (push_batch-failed server db error message refused) ∙ h))
        (failed_push-IsSettled (mutation_ids batch) error message
          (with_queue (mark_inflight (mutation_ids batch)) db))
  push_batch-IsSettled server db {db'} h (inl (n, more, e)) =
      elim (PushReply-cases (
        server (
          push_request registry store batch
            (with_queue (mark_inflight (mutation_ids batch)) db)))) [
              | inl (response, got) ↦
                  finish_drain-IsSettled (mutation_ids batch) response
                    (with_queue (mark_inflight (mutation_ids batch)) db) {db' = db'}
                    (sym (push_batch-answered server db response got)
                      ∙ h
                      ∙ ap (λ (o : DrainOutcome). (o, db')) e)
              | inr (error, message, refused) ↦ absurd (
                  threw≢returned (
                    ap (λ p. p.0) (sym (push_batch-failed server db error message refused) ∙ h)
                    ∙ e))
            ]
