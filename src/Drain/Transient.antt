-- ===== src/Drain/Transient.antt =====
-- A push that fails in transport (apps/mobile/src/core/sync/engine/drain-queue.ts and
-- transport/push-error-classifier.ts): offline, a timeout, 5xx or 429.
use ayphen_retail_pos.Common.{
  ℕ, ◌≡◌, ◌∙◌, refl, ap, true, false, inl, inr, List, [], ◌∷◌, map, All, member, Bool-cases,
}
use ayphen_retail_pos.SyncDb.{QueueRow, SyncDb, ApplierLookup}
use ayphen_retail_pos.MutationQueue.{
  is_pending, update_rows, mark_inflight, record_transport_failure_batch, set_inflight,
  set_transport_failure,
}
use ayphen_retail_pos.Drain.{
  PushRequest, PushError, PushReply, failed, threw, mutation_ids, push_batch, push_request,
  is_poison_push_error, with_queue,
}
use ayphen_retail_pos.Drain.Settled.{push_batch-failed}

-- A row with what the outcome of a push does not decide.
abbrev pub kept : QueueRow → ℕ × ℕ × ℕ
kept r = (r.mutation_id, r.payload, r.attempts)

map-update_rows :
    (ids : List ℕ) (f : QueueRow → QueueRow) (q : List QueueRow)
    → ((r : QueueRow) → kept (f r) ≡ kept r)
    → map kept (update_rows ids f q) ≡ map kept q
map-update_rows ids f [] same = refl
map-update_rows ids f (r ∷ q) same = elim (Bool-cases (member r.mutation_id ids)) [
  | inl hit ↦ rw hit (rw (same r) (ap (λ xs. kept r ∷ xs) (map-update_rows ids f q same)))
  | inr miss ↦ rw miss (ap (λ xs. kept r ∷ xs) (map-update_rows ids f q same))
]

abbrev pub IsRequeued : List ℕ → List QueueRow → Type 0
IsRequeued ids q =
    All (λ (r : QueueRow). member r.mutation_id ids ≡ true → is_pending r.status ≡ true) q

requeue-IsRequeued :
    (ids : List ℕ) (message now : ℕ) (q : List QueueRow)
    → IsRequeued ids (update_rows ids (set_transport_failure message now) q)
requeue-IsRequeued ids message now [] = tt
requeue-IsRequeued ids message now (r ∷ q) = elim (Bool-cases (member r.mutation_id ids)) [
  | inl hit ↦ rw hit ((λ _. refl), requeue-IsRequeued ids message now q)
  | inr miss ↦ rw miss ((λ e. cc (rw miss at e)), requeue-IsRequeued ids message now q)
]

-- A push that fails in transport leaves the local tables, the cursors and the recorded failures as they
-- were, keeps the payload and the attempts of every queued mutation, and makes the pushed ones
-- pending again.
pub push_batch-IsRequeued :
    {T : Type 0} (registry : ApplierLookup T) (store : ℕ) (batch : List QueueRow) (now : ℕ)
    (server : PushRequest → PushReply) (db : SyncDb T) (error : PushError) (message : ℕ)
    → server
        (push_request registry store batch (with_queue (mark_inflight (mutation_ids batch)) db))
      ≡ failed error message
    → is_poison_push_error error ≡ false
    → (q : List QueueRow) × (push_batch registry server store now batch db
        ≡ (threw, record db { queue = q }))
      × (map kept q ≡ map kept db.queue)
      × IsRequeued (mutation_ids batch) q
unfolding mark_inflight record_transport_failure_batch
push_batch-IsRequeued registry store batch now server db error message refused transport =
    let ids = mutation_ids batch in
    let marked = update_rows ids set_inflight db.queue in
    (
      update_rows ids (set_transport_failure message now) marked,
      push_batch-failed registry store batch now server db error message refused
          ∙ rw transport refl,
      map-update_rows ids (set_transport_failure message now) marked (λ r. refl)
          ∙ map-update_rows ids set_inflight db.queue (λ r. refl),
      requeue-IsRequeued ids message now marked,
    )
