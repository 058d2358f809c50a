-- ===== src/Drain/Settling.antt =====
-- The statuses of the pushed rows while the results are reconciled
-- (apps/mobile/src/core/sync/engine/drain-queue.ts).
use ayphen_retail_pos.Common.{
  ℕ, ◌+◌, leb, ◌≡◌, ◌⊎◌, ◌≢◌, refl, ap, subst, Bool, true, false, ◌||◌, inl, inr, List, [], ◌∷◌,
  map, ◌==◌, if◌then◌else◌, filter, member, All, arith, Bool-cases, ==→eq,
}
use mathlib.Core.Bool.{false≢true}
use ayphen_retail_pos.SyncDb.{
  QueueRow, pending, dead, SyncDb, Result-cases, ok-injective, ok, ApplierLookup,
}
use ayphen_retail_pos.MutationQueue.{
  is_inflight, update_rows, mark_applied, mark_conflict, mark_rejected, record_retry_later,
  max_attempts_before_dead,
}
use ayphen_retail_pos.Drain.{
  MutationResult, ReconcileAction, commit_applied, commit_duplicate, mark_as_conflict, rollback,
  keep_queued, PushResponse, PushError, PushReply, answered, failed, returned, threw,
  reconcile_mutation_result, reconcile_tables, reconcile_queue, reconcile_one_result, reconcile_all,
  reconcile_each, reconcile_results,
}

-- No row whose id passes the test is inflight.
abbrev pub IsSettled : (ℕ → Bool) → List QueueRow → Type 0
IsSettled p q = All (λ (r : QueueRow). p r.mutation_id ≡ true → is_inflight r.status ≡ false) q

-- An update that keeps the id and ends in another status settles the rows that it hits.
pub IsSettled-update :
    (ids : List ℕ) (f : QueueRow → QueueRow) (p : ℕ → Bool) (q : List QueueRow)
    → ((r : QueueRow) → ((f r).mutation_id ≡ r.mutation_id) × (is_inflight (f r).status ≡ false))
    → IsSettled p q
    → IsSettled (λ x. member x ids || p x) (update_rows ids f q)
IsSettled-update ids f p [] k h = tt
IsSettled-update ids f p (r ∷ q) k h = elim (Bool-cases (member r.mutation_id ids)) [
  | inl hit ↦ rw hit ((λ _. (k r).1), IsSettled-update ids f p q k h.1)
  | inr miss ↦ rw miss ((λ e. h.0 (rw miss at e)), IsSettled-update ids f p q k h.1)
]

pub IsSettled-weaken :
    (p p' : ℕ → Bool) (q : List QueueRow)
    → ((x : ℕ) → p' x ≡ true → p x ≡ true)
    → IsSettled p q
    → IsSettled p' q
IsSettled-weaken p p' [] w h = tt
IsSettled-weaken p p' (r ∷ q) w h = ((λ e. h.0 (w r.mutation_id e)), IsSettled-weaken p p' q w h.1)

pub nothing-IsSettled : (q : List QueueRow) → IsSettled (λ _. false) q
nothing-IsSettled [] = tt
nothing-IsSettled (r ∷ q) = ((λ e. cc), nothing-IsSettled q)

-- Every kind of result moves its row out of `inflight`.
reconcile_queue-IsSettled :
    {T : Type 0} (registry : ApplierLookup T) (store now : ℕ) (batch : List QueueRow)
    (action : ReconcileAction) (id : ℕ) (p : ℕ → Bool) (q : List QueueRow)
    → IsSettled p q
    → IsSettled
        (λ x. member x (id ∷ []) || p x)
        (reconcile_queue registry store batch now action id q)
unfolding reconcile_queue mark_applied mark_conflict mark_rejected record_retry_later
reconcile_queue-IsSettled registry store now batch (commit_applied row) id p q h =
    IsSettled-update (id ∷ []) _ p q (λ r. (refl, refl)) h
reconcile_queue-IsSettled registry store now batch commit_duplicate id p q h =
    IsSettled-update (id ∷ []) _ p q (λ r. (refl, refl)) h
reconcile_queue-IsSettled registry store now batch (mark_as_conflict row) id p q h =
    IsSettled-update (id ∷ []) _ p q (λ r. (refl, refl)) h
reconcile_queue-IsSettled registry store now batch (rollback code message) id p q h =
    IsSettled-update (id ∷ []) _ p q (λ r. (refl, refl)) h
reconcile_queue-IsSettled registry store now batch keep_queued id p q h =
    IsSettled-update (id ∷ []) _ p q (λ r. (refl, refl)) h

abbrev pub result_ids : List MutationResult → List ℕ
result_ids rs = map (λ (r : MutationResult). r.mutation_id) rs

pub poison_status :
    (attempts : ℕ)
    → is_inflight (if leb max_attempts_before_dead (attempts + 1) then dead else pending) ≡ false
poison_status attempts = ground arith

pub PushReply-cases :
    (reply : PushReply)
    → ((response : PushResponse) × (reply ≡ answered response))
      ⊎ ((error : PushError) × (message : ℕ) × (reply ≡ failed error message))
PushReply-cases (answered response) = inl (response, refl)
PushReply-cases (failed error message) = inr (error, message, refl)

pub threw≢returned : {n : ℕ} {more : Bool} → threw ≢ returned n more
threw≢returned h = cc h

pub member-filter :
    (x : ℕ) (keep : ℕ → Bool) (ids : List ℕ)
    → keep x ≡ true
    → member x ids ≡ true
    → member x (filter keep ids) ≡ true
member-filter x keep [] k m = m
member-filter x keep (i ∷ ids) k m = elim (Bool-cases (x == i)) [
  | inl same ↦
      let kept : keep i ≡ true = subst (λ y. keep y ≡ true) (==→eq x i same) k in rw kept (rw same)
  | inr other ↦
      let rest = member-filter x keep ids k (rw other at m) in
      elim (Bool-cases (keep i)) [
        | inl kept ↦ rw kept (rw other rest)
        | inr dropped ↦ rw dropped rest
      ]
]

-- The test grows by the ids of the results that have been reconciled.
abbrev pub with_ids : List ℕ → (ℕ → Bool) → ℕ → Bool
with_ids ids p x = member x ids || p x

module _ {T : Type 0} (registry : ApplierLookup T) (store : ℕ) (batch : List QueueRow)
    (now : ℕ) where
  reconcile_one_result-IsSettled :
      (r : MutationResult) (p : ℕ → Bool) (db : SyncDb T) {db' : SyncDb T}
      → reconcile_one_result registry store batch now r db ≡ ok db'
      → IsSettled p db.queue
      → IsSettled (with_ids (r.mutation_id ∷ []) p) db'.queue
  unfolding reconcile_one_result
  reconcile_one_result-IsSettled r p db {db'} h s =
      elim (Result-cases (
        reconcile_tables registry store batch now (reconcile_mutation_result r) r.mutation_id
          db.tables)) [
            | inl bad ↦ cc (rw (bad, reconcile_one_result) at h)
            | inr (t, done) ↦
                let e = ok-injective (rw (done, reconcile_one_result) at h) in
                subst (IsSettled (with_ids (r.mutation_id ∷ []) p)) (ap (λ d. d.queue) e) (
                  reconcile_queue-IsSettled registry store now batch (reconcile_mutation_result r)
                    r.mutation_id p db.queue s)
          ]

  IsSettled-cons :
      (id : ℕ) (ids : List ℕ) (p : ℕ → Bool) (q : List QueueRow)
      → IsSettled (with_ids ids (with_ids (id ∷ []) p)) q
      → IsSettled (with_ids (id ∷ ids) p) q
  IsSettled-cons id ids p q h = IsSettled-weaken _ _ q (λ x e. ground (arith, e)) h

  reconcile_all-IsSettled :
      (rs : List MutationResult) (p : ℕ → Bool) (db : SyncDb T) {db' : SyncDb T}
      → reconcile_all registry store batch now rs db ≡ ok db'
      → IsSettled p db.queue
      → IsSettled (with_ids (result_ids rs) p) db'.queue
  unfolding reconcile_all
  reconcile_all-IsSettled [] p db h s = subst (IsSettled p) (ap (λ d. d.queue) (ok-injective h)) s
  reconcile_all-IsSettled (r ∷ rs) p db h s =
      elim (Result-cases (reconcile_one_result registry store batch now r db)) [
        | inl bad ↦ cc (rw (bad, reconcile_all) at h)
        | inr (db₁, done) ↦ IsSettled-cons r.mutation_id (result_ids rs) p _ (
            reconcile_all-IsSettled rs (with_ids (r.mutation_id ∷ []) p) db₁
              (rw (done, reconcile_all) at h) (reconcile_one_result-IsSettled r p db done s))
      ]

  reconcile_each-IsSettled :
      (rs : List MutationResult) (p : ℕ → Bool) (db : SyncDb T)
      → (reconcile_each registry store batch now rs db).0 ≡ true
      → IsSettled p db.queue
      → IsSettled
          (with_ids (result_ids rs) p)
          (reconcile_each registry store batch now rs db).1.queue
  unfolding reconcile_each
  reconcile_each-IsSettled [] p db h s = s
  reconcile_each-IsSettled (r ∷ rs) p db h s =
      elim (Result-cases (reconcile_one_result registry store batch now r db)) [
        | inl bad ↦ absurd (false≢true (rw (bad, reconcile_each) at h))
        | inr (db₁, done) ↦
            rw (done, reconcile_each)
              (IsSettled-cons r.mutation_id (result_ids rs) p _ (
                reconcile_each-IsSettled rs (with_ids (r.mutation_id ∷ []) p) db₁
                  (rw (done, reconcile_each) at h) (reconcile_one_result-IsSettled r p db done s)))
      ]

  pub reconcile_results-IsSettled :
      (rs : List MutationResult) (p : ℕ → Bool) (db : SyncDb T)
      → (reconcile_results registry store batch now rs db).0 ≡ true
      → IsSettled p db.queue
      → IsSettled
          (with_ids (result_ids rs) p)
          (reconcile_results registry store batch now rs db).1.queue
  unfolding reconcile_results
  reconcile_results-IsSettled rs p db h s =
      elim (Result-cases (reconcile_all registry store batch now rs db)) [
        | inl bad ↦
            rw (bad, reconcile_results)
              (reconcile_each-IsSettled rs p db (rw (bad, reconcile_results) at h) s)
        | inr (db₁, done) ↦ rw (done, reconcile_results) (reconcile_all-IsSettled rs p db done s)
      ]
