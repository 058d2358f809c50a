-- ===== src/Drain/Capped.antt =====
-- The bound on poison failures over the life of a queue: apps/mobile/src/core/sync/engine/drain-queue.ts
-- with repositories/mutation-queue.repository.ts.
use ayphen_retail_pos.Common.{
  ℕ, ◌≤◌, ◌<◌, ◌≡◌, refl, sym, ap, subst, Bool, true, false, ◌&&◌, not, inl, inr, List, [], ◌∷◌,
  ◌++◌, ◌==◌, member, filter, All, filter-All, All-append, arith, Bool-cases,
}
use ayphen_retail_pos.SyncDb.{QueueRow, SyncDb, ApplierLookup}
use ayphen_retail_pos.MutationQueue.{
  EnqueueInput, enqueue, is_live, is_inflight, reset_orphaned_inflight, remove,
  max_attempts_before_dead,
}
use ayphen_retail_pos.Drain.{
  PushRequest, PushReply, with_queue, mutation_ids, drain_mutation_queue_once,
}
use ayphen_retail_pos.Drain.Held.{ids_of, IsCappedIn, AnswersPushed}
use ayphen_retail_pos.Drain.Picked.{AreDistinct, drain_mutation_queue_once-IsHeld}

-- What happens to the queue of a device: a mutation with a new id is enqueued, a store drains once, a
-- store is opened after a crash, a row is removed.
pub data Step {T : Type 0} (registry : ApplierLookup T) : SyncDb T → SyncDb T → Type 0 where
  enqueues :
      {db : SyncDb T} (e : EnqueueInput)
      → member e.mutation_id (mutation_ids db.queue) ≡ false
      → Step registry db (with_queue (enqueue e) db)
  drains :
      {db : SyncDb T} (server : PushRequest → PushReply) (store now : ℕ)
      → AnswersPushed server
      → Step registry db (drain_mutation_queue_once registry server store now db).1
  resets :
      {db : SyncDb T} (store : ℕ) → Step registry db (with_queue (reset_orphaned_inflight store) db)
  removes : {db : SyncDb T} (id : ℕ) → Step registry db (with_queue (remove id) db)

pub data Reachable {T : Type 0} (registry : ApplierLookup T) : SyncDb T → Type 0 where
  empty : {db : SyncDb T} → db.queue ≡ [] → Reachable registry db
  after :
      {db db' : SyncDb T} → Reachable registry db → Step registry db db' → Reachable registry db'

-- A mutation has failed at most seven times as poison, and fewer while it may still be pushed.
pub record IsCapped (r : QueueRow) : Type 0 where
  pub bounded : r.attempts ≤ max_attempts_before_dead
  pub retryable : is_live r.status ≡ true → r.attempts < max_attempts_before_dead

record IsKept (q : List QueueRow) : Type 0 where
  capped : All (IsCappedIn (λ _. false)) q
  distinct : AreDistinct (ids_of q)

enqueue-distinct :
    (id : ℕ) (xs : List ℕ) → member id xs ≡ false → AreDistinct xs → AreDistinct (xs ++ id ∷ [])
enqueue-distinct id [] h d = (refl, tt)
enqueue-distinct id (x ∷ xs) h d = elim (Bool-cases (id == x)) [
  | inl same ↦ cc (rw same at h)
  | inr other ↦ (still x xs other d.0, enqueue-distinct id xs (rw other at h) d.1)
]
  where
    still :
        (x : ℕ) (ys : List ℕ)
        → (id == x) ≡ false
        → member x ys ≡ false
        → member x (ys ++ id ∷ []) ≡ false
    still x [] other m = ground (arith, other)
    still x (y ∷ ys) other m = ground (arith, m, still x ys other)

ids_of-append :
    (q : List QueueRow) (r : QueueRow) → ids_of (q ++ r ∷ []) ≡ ids_of q ++ r.mutation_id ∷ []
ids_of-append [] r = refl
ids_of-append (x ∷ q) r = ap (λ xs. x.mutation_id ∷ xs) (ids_of-append q r)

enqueue-IsKept :
    (e : EnqueueInput) (q : List QueueRow)
    → member e.mutation_id (mutation_ids q) ≡ false
    → IsKept q
    → IsKept (enqueue e q)
unfolding enqueue
enqueue-IsKept e q new h = record {
  capped =
      All-append (IsCappedIn (λ _. false)) q _ h.capped
        (record { bounded = ground arith; retryable = λ _. ground arith }, tt);
  distinct =
      subst AreDistinct (sym (ids_of-append q _))
        (enqueue-distinct e.mutation_id (ids_of q) new h.distinct);
}

reset-IsKept : (store : ℕ) (q : List QueueRow) → IsKept q → IsKept (reset_orphaned_inflight store q)
unfolding reset_orphaned_inflight
reset-IsKept store q h = record {
  capped = caps q h.capped;
  distinct = subst AreDistinct (sym (names q)) h.distinct;
}
  where
    caps :
        (q : List QueueRow)
        → All (IsCappedIn (λ _. false)) q
        → All (IsCappedIn (λ _. false)) (reset_orphaned_inflight store q)
    caps [] k = tt
    caps (r ∷ q) k = elim (Bool-cases (r.store_id == store && is_inflight r.status)) [
      | inr other ↦ rw other (k.0, caps q k.1)
      | inl orphan ↦ rw orphan (
        record { bounded = k.0.bounded; retryable = λ _. k.0.retryable (ground (arith, orphan)) },
        caps q k.1,
      )
    ]

    names : (q : List QueueRow) → ids_of (reset_orphaned_inflight store q) ≡ ids_of q
    names [] = refl
    names (r ∷ q) = elim (Bool-cases (r.store_id == store && is_inflight r.status)) [
      | inl orphan ↦ rw orphan (ap (λ xs. r.mutation_id ∷ xs) (names q))
      | inr other ↦ rw other (ap (λ xs. r.mutation_id ∷ xs) (names q))
    ]

remove-IsKept : (id : ℕ) (q : List QueueRow) → IsKept q → IsKept (remove id q)
unfolding remove
remove-IsKept id q h = record {
  capped = filter-All (IsCappedIn (λ _. false)) _ q h.capped;
  distinct = apart q h.distinct;
}
  where
    keep : QueueRow → Bool
    keep r = not (r.mutation_id == id)

    absent :
        (x : ℕ) (q : List QueueRow)
        → member x (ids_of q) ≡ false
        → member x (ids_of (filter keep q)) ≡ false
    absent x [] m = m
    absent x (r ∷ q) m = elim (Bool-cases (keep r)) [
      | inl kept ↦ rw kept (ground (arith, m, absent x q))
      | inr dropped ↦ rw dropped (absent x q (ground (arith, m)))
    ]

    apart : (q : List QueueRow) → AreDistinct (ids_of q) → AreDistinct (ids_of (filter keep q))
    apart [] d = tt
    apart (r ∷ q) d = elim (Bool-cases (keep r)) [
      | inl kept ↦ rw kept (absent r.mutation_id q d.0, apart q d.1)
      | inr dropped ↦ rw dropped (apart q d.1)
    ]

Step-IsKept :
    {T : Type 0} {registry : ApplierLookup T} {db db' : SyncDb T}
    → Step registry db db'
    → IsKept db.queue
    → IsKept db'.queue
Step-IsKept {db} (enqueues e new) h = enqueue-IsKept e db.queue new h
Step-IsKept {registry} {db} (drains server store now honest) h =
    let held =
      drain_mutation_queue_once-IsHeld registry server store now db honest h.capped h.distinct in
    record { capped = held.capped; distinct = subst AreDistinct (sym held.same_ids) h.distinct }
Step-IsKept {db} (resets store) h = reset-IsKept store db.queue h
Step-IsKept {db} (removes id) h = remove-IsKept id db.queue h

Reachable-IsKept :
    {T : Type 0} {registry : ApplierLookup T} {db : SyncDb T}
    → Reachable registry db
    → IsKept db.queue
Reachable-IsKept (empty e) = subst IsKept (sym e) (record { capped = tt; distinct = tt })
Reachable-IsKept (after r step) = Step-IsKept step (Reachable-IsKept r)

-- Whatever is enqueued under new ids, drained against servers that answer for pushed mutations alone,
-- reset after a crash and removed, no mutation in the queue has failed more than seven times as
-- poison, and one that may still be pushed has failed fewer times.
pub Reachable-IsCapped :
    {T : Type 0} (registry : ApplierLookup T) (db : SyncDb T)
    → Reachable registry db
    → All IsCapped db.queue
Reachable-IsCapped registry db r = each db.queue (Reachable-IsKept r).capped
  where
    each : (q : List QueueRow) → All (IsCappedIn (λ _. false)) q → All IsCapped q
    each [] k = tt
    each (x ∷ q) k = (
      record { bounded = k.0.bounded; retryable = λ e. k.0.retryable (ground (arith, e)) },
      each q k.1,
    )
