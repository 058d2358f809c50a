-- ===== src/Drain/Picked.antt =====
-- What a drain picks has failed fewer times than the cap (apps/mobile/src/core/sync/engine/drain-queue.ts).
use ayphen_retail_pos.Common.{
  ℕ, ◌≡◌, refl, Bool, true, false, not, inl, inr, List, [], ◌∷◌, ◌==◌, length, member, filter, All,
  filter-All, arith, Bool-cases,
}
use ayphen_retail_pos.SyncDb.{
  QueueRow, QueueStatus, SyncDb, dead, pending, inflight, applied, rejected, conflict,
  ApplierLookup,
}
use ayphen_retail_pos.MutationQueue.{is_live, is_pending, is_drainable, take_drainable}
use ayphen_retail_pos.MutationQueue.Order.{All-take, All-sort_rows}
use ayphen_retail_pos.Drain.{
  PushRequest, PushReply, expire, mutation_ids, is_fresh, drain_mutation_queue_once, max_batch,
}
use ayphen_retail_pos.Drain.Held.{
  ids_of, IsCappedIn, IsHeld, weaken-IsHeld, expired-IsHeld, AnswersPushed, push_batch-IsHeld,
}

-- The mutation's id is the primary key of the table.
abbrev pub AreDistinct : List ℕ → Type 0
AreDistinct [] = Unit
AreDistinct (x ∷ xs) = (member x xs ≡ false) × AreDistinct xs

-- A row of this id is not among the rows.
abbrev AreNot : ℕ → List QueueRow → Type 0
AreNot id q = All (λ (y : QueueRow). (id == y.mutation_id) ≡ false) q

absent-AreNot : (id : ℕ) (q : List QueueRow) → member id (ids_of q) ≡ false → AreNot id q
absent-AreNot id [] h = tt
absent-AreNot id (y ∷ q) h = elim (Bool-cases (id == y.mutation_id)) [
  | inl same ↦ cc (rw same at h)
  | inr other ↦ (other, absent-AreNot id q (rw other at h))
]

AreNot-absent : (id : ℕ) (q : List QueueRow) → AreNot id q → member id (mutation_ids q) ≡ false
AreNot-absent id [] h = refl
AreNot-absent id (y ∷ q) h = rw (h.0) (AreNot-absent id q h.1)

-- What the drain leaves out has other ids than what it may pick.
drainable-AreNot :
    (store : ℕ) (q : List QueueRow)
    → AreDistinct (ids_of q)
    → All
        (λ (r : QueueRow).
          is_drainable store r ≡ false → AreNot r.mutation_id (filter (is_drainable store) q))
        q
drainable-AreNot store [] d = tt
drainable-AreNot store (x ∷ q) d =
    let apart = absent-AreNot x.mutation_id q d.0 in
    (
      (λ no. rw no (
          filter-All (λ (y : QueueRow). (x.mutation_id == y.mutation_id) ≡ false)
            (is_drainable store) q apart)),
      tail q apart (drainable-AreNot store q d.1),
    )
  where
    tail :
        (zs : List QueueRow)
        → AreNot x.mutation_id zs
        → All
            (λ (r : QueueRow).
              is_drainable store r ≡ false → AreNot r.mutation_id (filter (is_drainable store) q))
            zs
        → All
            (λ (r : QueueRow).
              is_drainable store r ≡ false
              → AreNot r.mutation_id (filter (is_drainable store) (x ∷ q)))
            zs
    tail [] a k = tt
    tail (z ∷ zs) a k = (
      (λ no. elim (Bool-cases (is_drainable store x)) [
        | inl picked ↦ rw picked (ground (arith, a.0), k.0 no)
        | inr left ↦ rw left (k.0 no)
      ]),
      tail zs a.1 k.1,
    )

abbrev batch_of : ℕ → ℕ → List QueueRow → List QueueRow
batch_of store now q = filter (is_fresh now) (take_drainable store max_batch q)

batch_of-AreNot :
    (store now id : ℕ) (q : List QueueRow)
    → AreNot id (filter (is_drainable store) q)
    → member id (mutation_ids (batch_of store now q)) ≡ false
unfolding take_drainable
batch_of-AreNot store now id q h = AreNot-absent id _ (
    filter-All (λ (y : QueueRow). (id == y.mutation_id) ≡ false) (is_fresh now) _
      (All-take (λ (y : QueueRow). (id == y.mutation_id) ≡ false) max_batch _
        (All-sort_rows (λ (y : QueueRow). (id == y.mutation_id) ≡ false) _ h)))

pending-live : (store : ℕ) (r : QueueRow) → is_drainable store r ≡ true → is_live r.status ≡ true
pending-live store r h = split r.status (ground (arith, h))
  where
    split : (s : QueueStatus) → is_pending s ≡ true → is_live s ≡ true
    split pending e = refl
    split inflight e = refl
    split applied e = cc e
    split rejected e = cc e
    split conflict e = refl
    split dead e = cc e

-- What is picked is live, so it has failed fewer times.
batch_of-IsHeld :
    (store now : ℕ) (q : List QueueRow)
    → All (IsCappedIn (λ _. false)) q
    → AreDistinct (ids_of q)
    → IsHeld (λ x. member x (mutation_ids (batch_of store now q))) (ids_of q) q
batch_of-IsHeld store now q capped d = record {
  capped = each q capped (drainable-AreNot store q d);
  same_ids = refl;
}
  where
    each :
        (zs : List QueueRow)
        → All (IsCappedIn (λ _. false)) zs
        → All
            (λ (r : QueueRow).
              is_drainable store r ≡ false → AreNot r.mutation_id (filter (is_drainable store) q))
            zs
        → All (IsCappedIn (λ x. member x (mutation_ids (batch_of store now q)))) zs
    each [] k a = tt
    each (r ∷ zs) k a = (
      elim (Bool-cases (is_drainable store r)) [
        | inl picked ↦ record {
          bounded = k.0.bounded;
          retryable = λ e. k.0.retryable (ground (arith, pending-live store r picked));
        }
        | inr left ↦
            let absent = batch_of-AreNot store now r.mutation_id q (a.0 left) in
            record {
              bounded = k.0.bounded;
              retryable = λ e. k.0.retryable (ground (arith, e, absent));
            }
      ],
      each zs k.1 a.1,
    )

-- One drain keeps the caps and the ids.
pub drain_mutation_queue_once-IsHeld :
    {T : Type 0} (registry : ApplierLookup T) (server : PushRequest → PushReply) (store now : ℕ)
    (db : SyncDb T)
    → AnswersPushed server
    → All (IsCappedIn (λ _. false)) db.queue
    → AreDistinct (ids_of db.queue)
    → IsHeld
        (λ _. false)
        (ids_of db.queue)
        (drain_mutation_queue_once registry server store now db).1.queue
unfolding drain_mutation_queue_once expire
drain_mutation_queue_once-IsHeld registry server store now db honest capped d =
    let drainable = take_drainable store max_batch db.queue in
    let batch = batch_of store now db.queue in
    let p : ℕ → Bool = λ x. member x (mutation_ids batch) in
    let held =
      expired-IsHeld p (mutation_ids (filter (λ (r : QueueRow). not (is_fresh now r)) drainable))
        now (ids_of db.queue) db.queue (batch_of-IsHeld store now db.queue capped d) in
    elim (Bool-cases (length batch == 0)) [
      | inl nothing ↦
          rw (nothing, drain_mutation_queue_once) (weaken-IsHeld p (ids_of db.queue) _ held)
      | inr some_left ↦
          rw (some_left, drain_mutation_queue_once)
            (push_batch-IsHeld registry server store now batch (ids_of db.queue)
              (expire now drainable db) honest held)
    ]
