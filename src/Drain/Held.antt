-- ===== src/Drain/Held.antt =====
-- The failures of the rows in a drain, while they are pushed and reconciled
-- (apps/mobile/src/core/sync/engine/drain-queue.ts).
use ayphen_retail_pos.Common.{
  ℕ, ◌≤◌, ◌<◌, ◌≡◌, refl, sym, ap, subst, ◌∙◌, Bool, true, false, ◌||◌, inl, inr, List, [], ◌∷◌,
  ◌==◌, map, member, filter, All, arith, Bool-cases, Option-cases, ==→eq,
}
use ayphen_retail_pos.SyncDb.{QueueRow, SyncDb, Result-cases, ok-injective, ok, ApplierLookup}
use ayphen_retail_pos.MutationQueue.{
  update_rows, is_live, set_inflight, set_transport_failure, set_poison_failure, set_expired,
  mark_inflight, mark_applied, mark_rejected, mark_conflict, record_retry_later,
  record_transport_failure_batch, record_poison_failure_batch, mark_expired_batch,
  max_attempts_before_dead,
}
use ayphen_retail_pos.Pull.Untouched.{queue-apply_changes_page}
use ayphen_retail_pos.Drain.{
  SyncMutationInput, MutationResult, ReconcileAction, commit_applied, commit_duplicate,
  mark_as_conflict, rollback, keep_queued, PushRequest, PushResponse, PushReply, answered,
  reconcile_mutation_result, reconcile_tables, reconcile_queue, reconcile_one_result, reconcile_all,
  reconcile_each, reconcile_results, unanswered, finish_drain, push_batch, push_request, with_queue,
  mutation_ids, to_wire_mutation, is_poison_push_error,
}
use ayphen_retail_pos.Drain.Settling.{PushReply-cases}

abbrev pub ids_of : List QueueRow → List ℕ
ids_of q = map (λ (r : QueueRow). r.mutation_id) q

-- A row has failed at most seven times as poison, and fewer while it is live or its id passes `p`.
pub record IsCappedIn (p : ℕ → Bool) (r : QueueRow) : Type 0 where
  pub bounded : r.attempts ≤ max_attempts_before_dead
  pub retryable :
      (is_live r.status || p r.mutation_id) ≡ true → r.attempts < max_attempts_before_dead

-- The rows are capped, and have the ids that they had.
pub record IsHeld (p : ℕ → Bool) (ids : List ℕ) (q : List QueueRow) : Type 0 where
  pub capped : All (IsCappedIn p) q
  pub same_ids : ids_of q ≡ ids

-- An update that keeps the ids, and the cap of the rows that it hits.
update_rows-IsHeld :
    (p p' : ℕ → Bool) (named : List ℕ) (f : QueueRow → QueueRow) (ids : List ℕ) (q : List QueueRow)
    → ((r : QueueRow)
        → member r.mutation_id named ≡ true
        → IsCappedIn p r
        → IsCappedIn p' (f r) × ((f r).mutation_id ≡ r.mutation_id))
    → ((r : QueueRow) → IsCappedIn p r → IsCappedIn p' r)
    → IsHeld p ids q
    → IsHeld p' ids (update_rows named f q)
update_rows-IsHeld p p' named f ids q hit_by missed h = record {
  capped = caps q h.capped;
  same_ids = names q h.capped ∙ h.same_ids;
}
  where
    caps : (q : List QueueRow) → All (IsCappedIn p) q → All (IsCappedIn p') (update_rows named f q)
    caps [] k = tt
    caps (r ∷ q) k = elim (Bool-cases (member r.mutation_id named)) [
      | inl hit ↦ rw hit ((hit_by r hit k.0).0, caps q k.1)
      | inr miss ↦ rw miss (missed r k.0, caps q k.1)
    ]

    names : (q : List QueueRow) → All (IsCappedIn p) q → ids_of (update_rows named f q) ≡ ids_of q
    names [] k = refl
    names (r ∷ q) k = elim (Bool-cases (member r.mutation_id named)) [
      | inl hit ↦ rw hit (cons (hit_by r hit k.0).1 (names q k.1))
      | inr miss ↦ rw miss (ap (λ xs. r.mutation_id ∷ xs) (names q k.1))
    ]
      where
        cons : {x y : ℕ} {xs ys : List ℕ} → x ≡ y → xs ≡ ys → x ∷ xs ≡ y ∷ ys
        cons e e' = cc (e, e')

abbrev Covers : (ℕ → Bool) → List ℕ → Type 0
Covers p named = (x : ℕ) → member x named ≡ true → p x ≡ true

live-or : (a b : Bool) → b ≡ true → (a || b) ≡ true
live-or a b h = ground (arith, h)

-- An update of rows in the drain that counts no failure.
drained-IsHeld :
    (p : ℕ → Bool) (named : List ℕ) (f : QueueRow → QueueRow) (ids : List ℕ) (q : List QueueRow)
    → Covers p named
    → ((r : QueueRow) → ((f r).attempts ≡ r.attempts) × ((f r).mutation_id ≡ r.mutation_id))
    → IsHeld p ids q
    → IsHeld p ids (update_rows named f q)
drained-IsHeld p named f ids q covers same h =
    update_rows-IsHeld p p named f ids q
      (λ r hit k. (
        record {
          bounded = omega (arith, (same r).0, k.bounded);
          retryable = λ e.
              let few =
                k.retryable
                  (live-or (is_live r.status) (p r.mutation_id) (covers r.mutation_id hit)) in
              omega (arith, (same r).0, few);
        },
        (same r).1,
      ))
      (λ r k. k) h

poison-IsHeld :
    (p : ℕ → Bool) (named : List ℕ) (message now : ℕ) (ids : List ℕ) (q : List QueueRow)
    → Covers p named
    → IsHeld p ids q
    → IsHeld (λ _. false) ids (record_poison_failure_batch named message now q)
unfolding record_poison_failure_batch
poison-IsHeld p named message now ids q covers h =
    update_rows-IsHeld p (λ _. false) named (set_poison_failure message now) ids q
      (λ r hit k.
        let few =
          k.retryable (live-or (is_live r.status) (p r.mutation_id) (covers r.mutation_id hit)) in
        (record { bounded = omega (arith, few); retryable = λ e. ground (arith, few, e) }, refl))
      (λ r k. record { bounded = k.bounded; retryable = λ e. k.retryable (ground (arith, e)) }) h

pub weaken-IsHeld :
    (p : ℕ → Bool) (ids : List ℕ) (q : List QueueRow) → IsHeld p ids q → IsHeld (λ _. false) ids q
weaken-IsHeld p ids q h = record { capped = all q h.capped; same_ids = h.same_ids }
  where
    all : (q : List QueueRow) → All (IsCappedIn p) q → All (IsCappedIn (λ _. false)) q
    all [] k = tt
    all (r ∷ q) k = (
      record { bounded = k.0.bounded; retryable = λ e. k.0.retryable (ground (arith, e)) },
      all q k.1,
    )

pub expired-IsHeld :
    (p : ℕ → Bool) (named : List ℕ) (now : ℕ) (ids : List ℕ) (q : List QueueRow)
    → IsHeld p ids q
    → IsHeld p ids (mark_expired_batch named now q)
unfolding mark_expired_batch
expired-IsHeld p named now ids q h =
    update_rows-IsHeld p p named (set_expired now) ids q
      (λ r hit k. (
        record {
          bounded = k.bounded;
          retryable =
              λ e. k.retryable (live-or (is_live r.status) (p r.mutation_id) (ground (arith, e)));
        },
        refl,
      ))
      (λ r k. k) h

own-Covers : (p : ℕ → Bool) (id : ℕ) → p id ≡ true → Covers p (id ∷ [])
own-Covers p id own x hit = elim (Bool-cases (x == id)) [
  | inl same ↦ subst (λ y. p y ≡ true) (sym (==→eq x id same)) own
  | inr other ↦ cc (rw other at hit)
]

transport-IsHeld :
    (p : ℕ → Bool) (named : List ℕ) (message now : ℕ) (ids : List ℕ) (q : List QueueRow)
    → Covers p named
    → IsHeld p ids q
    → IsHeld p ids (record_transport_failure_batch named message now q)
unfolding record_transport_failure_batch
transport-IsHeld p named message now ids q covers h =
    drained-IsHeld p named (set_transport_failure message now) ids q covers (λ r. (refl, refl)) h

member-of_filter :
    (x : ℕ) (keep : ℕ → Bool) (named : List ℕ)
    → member x (filter keep named) ≡ true
    → member x named ≡ true
member-of_filter x keep [] hit = hit
member-of_filter x keep (y ∷ ys) hit = elim (Bool-cases (x == y)) [
  | inl same ↦ rw same refl
  | inr other ↦ elim (Bool-cases (keep y)) [
    | inl kept ↦ rw other (member-of_filter x keep ys (rw other at (rw kept at hit)))
    | inr dropped ↦ rw other (member-of_filter x keep ys (rw dropped at hit))
  ]
]

module _ {T : Type 0} (registry : ApplierLookup T) (store : ℕ) (batch : List QueueRow) (now : ℕ)
    (p : ℕ → Bool) (ids : List ℕ) where
  reconcile_queue-IsHeld :
      (action : ReconcileAction) (id : ℕ) (q : List QueueRow)
      → p id ≡ true
      → IsHeld p ids q
      → IsHeld p ids (reconcile_queue registry store batch now action id q)
  unfolding reconcile_queue mark_applied mark_conflict mark_rejected record_retry_later
  reconcile_queue-IsHeld (commit_applied row) id q own h =
      drained-IsHeld p (id ∷ []) _ ids q (own-Covers p id own) (λ r. (refl, refl)) h
  reconcile_queue-IsHeld commit_duplicate id q own h =
      drained-IsHeld p (id ∷ []) _ ids q (own-Covers p id own) (λ r. (refl, refl)) h
  reconcile_queue-IsHeld (mark_as_conflict row) id q own h =
      drained-IsHeld p (id ∷ []) _ ids q (own-Covers p id own) (λ r. (refl, refl)) h
  reconcile_queue-IsHeld (rollback code message) id q own h =
      drained-IsHeld p (id ∷ []) _ ids q (own-Covers p id own) (λ r. (refl, refl)) h
  reconcile_queue-IsHeld keep_queued id q own h =
      drained-IsHeld p (id ∷ []) _ ids q (own-Covers p id own) (λ r. (refl, refl)) h

  -- The results are for mutations in the drain.
  abbrev AreOwn : List MutationResult → Type 0
  AreOwn rs = All (λ (r : MutationResult). p r.mutation_id ≡ true) rs

  reconcile_one_result-IsHeld :
      (r : MutationResult) (db db' : SyncDb T)
      → p r.mutation_id ≡ true
      → reconcile_one_result registry store batch now r db ≡ ok db'
      → IsHeld p ids db.queue
      → IsHeld p ids db'.queue
  unfolding reconcile_one_result
  reconcile_one_result-IsHeld r db db' own e h =
      elim (Result-cases (
        reconcile_tables registry store batch now (reconcile_mutation_result r) r.mutation_id
          db.tables)) [
            | inl bad ↦ cc (rw (bad, reconcile_one_result) at e)
            | inr (t, done) ↦
                subst (IsHeld p ids)
                  (ap (λ d. d.queue) (ok-injective (rw (done, reconcile_one_result) at e)))
                  (reconcile_queue-IsHeld (reconcile_mutation_result r) r.mutation_id db.queue own
                    h)
          ]

  reconcile_all-IsHeld :
      (rs : List MutationResult) (db db' : SyncDb T)
      → AreOwn rs
      → reconcile_all registry store batch now rs db ≡ ok db'
      → IsHeld p ids db.queue
      → IsHeld p ids db'.queue
  unfolding reconcile_all
  reconcile_all-IsHeld [] db db' own e h = subst (λ d. IsHeld p ids d.queue) (ok-injective e) h
  reconcile_all-IsHeld (r ∷ rs) db db' own e h =
      elim (Result-cases (reconcile_one_result registry store batch now r db)) [
        | inl bad ↦ cc (rw (bad, reconcile_all) at e)
        | inr (d, done) ↦
            reconcile_all-IsHeld rs d db' own.1 (rw (done, reconcile_all) at e)
              (reconcile_one_result-IsHeld r db d own.0 done h)
      ]

  reconcile_each-IsHeld :
      (rs : List MutationResult) (db : SyncDb T)
      → AreOwn rs
      → IsHeld p ids db.queue
      → IsHeld p ids (reconcile_each registry store batch now rs db).1.queue
  unfolding reconcile_each
  reconcile_each-IsHeld [] db own h = h
  reconcile_each-IsHeld (r ∷ rs) db own h =
      elim (Result-cases (reconcile_one_result registry store batch now r db)) [
        | inl bad ↦ rw (bad, reconcile_each) h
        | inr (d, done) ↦
            rw (done, reconcile_each)
              (reconcile_each-IsHeld rs d own.1 (reconcile_one_result-IsHeld r db d own.0 done h))
      ]

  reconcile_results-IsHeld :
      (rs : List MutationResult) (db : SyncDb T)
      → AreOwn rs
      → IsHeld p ids db.queue
      → IsHeld p ids (reconcile_results registry store batch now rs db).1.queue
  unfolding reconcile_results
  reconcile_results-IsHeld rs db own h =
      elim (Result-cases (reconcile_all registry store batch now rs db)) [
        | inl bad ↦ rw (bad, reconcile_results) (reconcile_each-IsHeld rs db own h)
        | inr (d, done) ↦ rw (done, reconcile_results) (reconcile_all-IsHeld rs db d own done h)
      ]

  unanswered-Covers :
      (named : List ℕ) (rs : List MutationResult)
      → Covers p named
      → Covers p (unanswered registry store batch now named rs)
  unfolding unanswered
  unanswered-Covers named rs covers x hit = covers x (member-of_filter x _ named hit)

  finish_drain-IsHeld :
      (named : List ℕ) (response : PushResponse) (db : SyncDb T)
      → Covers p named
      → AreOwn response.mutation_results
      → IsHeld p ids db.queue
      → IsHeld (λ _. false) ids (finish_drain registry store batch now named response db).1.queue
  unfolding finish_drain
  finish_drain-IsHeld named response db covers own h =
      let rs = response.mutation_results in
      let settled = reconcile_results-IsHeld rs db own h in
      let counted =
        poison-IsHeld p (unanswered registry store batch now named rs) 3 now ids _
          (unanswered-Covers named rs covers) settled in
      elim (Bool-cases (reconcile_results registry store batch now rs db).0) [
        | inr stopped ↦ rw (stopped, finish_drain) (weaken-IsHeld p ids _ settled)
        | inl goes_on ↦
            rw (goes_on, finish_drain)
              (elim (Option-cases response.sync_cursor) [
                | inl absent ↦ rw absent counted
                | inr (token, found) ↦ rw found (
                    subst (IsHeld (λ _. false) ids)
                      (sym (
                        queue-apply_changes_page store response.server_time registry
                          response.changes token _))
                      counted)
              ])
      ]

-- A server that answers for pushed mutations alone.
abbrev pub AnswersPushed : (PushRequest → PushReply) → Type 0
AnswersPushed server =
    (request : PushRequest) (response : PushResponse)
    → server request ≡ answered response
    → All
        (λ (r : MutationResult).
          member r.mutation_id (map (λ (m : SyncMutationInput). m.mutation_id) request.mutations)
          ≡ true)
        response.mutation_results

map-wire :
    (batch : List QueueRow)
    → map (λ (m : SyncMutationInput). m.mutation_id) (map to_wire_mutation batch)
      ≡ mutation_ids batch
unfolding to_wire_mutation
map-wire [] = refl
map-wire (r ∷ rs) = ap (λ xs. r.mutation_id ∷ xs) (map-wire rs)

pub push_batch-IsHeld :
    {T : Type 0} (registry : ApplierLookup T) (server : PushRequest → PushReply) (store now : ℕ)
    (batch : List QueueRow) (ids : List ℕ) (db : SyncDb T)
    → AnswersPushed server
    → IsHeld (λ x. member x (mutation_ids batch)) ids db.queue
    → IsHeld (λ _. false) ids (push_batch registry server store now batch db).1.queue
unfolding push_batch mark_inflight
push_batch-IsHeld registry server store now batch ids db honest h =
    let named = mutation_ids batch in
    let p : ℕ → Bool = λ x. member x named in
    let marked = with_queue (mark_inflight named) db in
    let held = drained-IsHeld p named set_inflight ids db.queue (λ x e. e) (λ r. (refl, refl)) h in
    elim (PushReply-cases (server (push_request registry store batch marked))) [
      | inl (response, got) ↦
          let own =
            subst
              (λ known.
                All (λ (r : MutationResult). member r.mutation_id known ≡ true)
                  response.mutation_results)
              (map-wire batch) (honest _ response got) in
          rw (got, push_batch)
            (finish_drain-IsHeld registry store batch now p ids named response marked (λ x e. e) own
              held)
      | inr (error, message, refused) ↦
          rw (refused, push_batch)
            (elim (Bool-cases (is_poison_push_error error)) [
              | inl poison ↦ rw poison (poison-IsHeld p named message now ids _ (λ x e. e) held)
              | inr transport ↦ rw transport (
                  weaken-IsHeld p ids _
                    (transport-IsHeld p named message now ids _ (λ x e. e) held))
            ])
    ]
