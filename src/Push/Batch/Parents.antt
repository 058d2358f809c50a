-- ===== src/Push/Batch/Parents.antt =====
-- A batch of `runMutationWaves` of apps/backend/src/sync/push/delta.service.ts in which a parent fails.
use ayphen_retail_pos.Common.{
  ℕ, zero, suc, ◌≡◌, refl, sym, subst, Bool, true, false, inl, inr, Option, some, List, [], ◌∷◌,
  ◌++◌, ◌∙◌, member, some_injective,
}
use ayphen_retail_pos.Ledger.{MutationAction}
use ayphen_retail_pos.Push.{
  SyncMutation, MutationEnv, Handler, Wire, wire_applied, wire_conflict, wire_rejected,
  wire_retry_later, wire_duplicate, ServerState,
}
use ayphen_retail_pos.Push.Sort.Measure.{In}
use ayphen_retail_pos.Push.Cycles.{find_parent_cycle_mutation_ids}
use ayphen_retail_pos.Push.Waves.{by_guuid, compute_waves}
use ayphen_retail_pos.Push.Waves.Order.{IsDistinct, wave_in-lt}
use ayphen_retail_pos.Push.Batch.{
  result_of, is_failed, Progress, reject_cyclic, Others, nothing_run, to_run, run_waves,
  run_mutation_waves,
}
use ayphen_retail_pos.Push.Batch.Replies.{is_applied}
use ayphen_retail_pos.Push.Batch.Runs.{Ended-some, run_waves-Ended}
use ayphen_retail_pos.Push.Batch.Levels.{compute_waves-Leveled, compute_waves-InWaves}
use ayphen_retail_pos.Push.Batch.Unique.{to_run-IsUnique}
use ayphen_retail_pos.Push.Batch.Cascade.{
  fresh, between, both, Cascading, keep-Cascading, waiting, run, Blocked, keep-Blocked,
}
use ayphen_retail_pos.Push.Batch.Answers.{reject_cyclic-rejects}

-- A result of a parent that its children must not build on.
abbrev pub IsFailed : Wire → Type 0
IsFailed (wire_applied v) = ⊥
IsFailed (wire_conflict v) = Unit
IsFailed (wire_rejected code) = Unit
IsFailed (wire_retry_later code) = ⊥
IsFailed (wire_duplicate (wire_rejected code)) = Unit
IsFailed (wire_duplicate w) = ⊥

is_failed-true : (w : Wire) → IsFailed w → is_failed w ≡ true
unfolding is_failed
is_failed-true (wire_applied v) h = absurd h
is_failed-true (wire_conflict v) h = refl
is_failed-true (wire_rejected code) h = refl
is_failed-true (wire_retry_later code) h = absurd h
is_failed-true (wire_duplicate (wire_rejected code)) h = refl
is_failed-true (wire_duplicate (wire_applied v)) h = absurd h
is_failed-true (wire_duplicate (wire_conflict v)) h = absurd h
is_failed-true (wire_duplicate (wire_retry_later code)) h = absurd h
is_failed-true (wire_duplicate (wire_duplicate w)) h = absurd h

In-middle :
    (xs : List SyncMutation) (m : SyncMutation) (ys : List SyncMutation) → In m (xs ++ m ∷ ys)
In-middle [] m ys = inl refl
In-middle (x ∷ xs) m ys = inr (In-middle xs m ys)

In-append :
    (xs : List SyncMutation) (m : SyncMutation) (ys : List SyncMutation) → In m ys → In m (xs ++ ys)
In-append [] m ys h = h
In-append (x ∷ xs) m ys h = inr (In-append xs m ys h)

Cascading-end :
    (unique : List SyncMutation) (distinct : IsDistinct unique) (env : MutationEnv)
    (m : SyncMutation) (m_in : In m unique) (g : ℕ) (child : m.parent_guuid ≡ some g)
    (q : SyncMutation) (q_in : In q unique) (parent : q.payload_guuid ≡ some g) (p : Progress)
    → Cascading unique distinct env m m_in g child q q_in parent [] p
    → (parent child : Wire) × (result_of q.mutation_id p.results ≡ some parent)
      × (result_of m.mutation_id p.results ≡ some child)
      × (IsFailed parent → is_applied child ≡ false)
Cascading-end unique distinct env m m_in g child q q_in parent p
      (k, level, fresh (zero, h) b less) =
    absurd h
Cascading-end unique distinct env m m_in g child q q_in parent p
      (k, level, fresh (suc i, h) b less) =
    absurd h
Cascading-end unique distinct env m m_in g child q q_in parent p
      (k, level, between w f b (zero, h)) =
    absurd h
Cascading-end unique distinct env m m_in g child q q_in parent p
      (k, level, between w f b (suc i, h)) =
    absurd h
Cascading-end unique distinct env m m_in g child q q_in parent p (k, level, both w f c b b') =
    (w, c.wire, f.recorded, c.recorded, λ failed. c.unapplied (is_failed-true w failed))

Blocked-end :
    (unique : List SyncMutation) (distinct : IsDistinct unique) (env : MutationEnv)
    (m : SyncMutation) (m_in : In m unique) (g : ℕ) (child : m.parent_guuid ≡ some g) (p : Progress)
    → Blocked unique distinct env m m_in g child [] p
    → (w : Wire) × (result_of m.mutation_id p.results ≡ some w) × (is_applied w ≡ false)
Blocked-end unique distinct env m m_in g child p (k, level, waiting f (zero, h)) = absurd h
Blocked-end unique distinct env m m_in g child p (k, level, waiting f (suc i, h)) = absurd h
Blocked-end unique distinct env m m_in g child p (k, level, run c b) =
    (c.wire, c.recorded, c.unapplied refl)

to_run-IsDistinct :
    (cyclic : List ℕ) (batch unique : List SyncMutation)
    → to_run cyclic batch ≡ some unique
    → IsDistinct unique
to_run-IsDistinct cyclic batch unique h =
    let (u, e, sorted) = to_run-IsUnique cyclic batch in
    subst IsDistinct (some_injective (sym e ∙ h)) (sorted.distinct)

module _ {D : Type 0} (handlers : ℕ → Option (Handler D))
    (was_crud_authorized_at : ℕ → ℕ → ℕ → MutationAction → ℕ → Bool) (others : Others D)
    (env : MutationEnv) (batch : List SyncMutation) (cyclic : List ℕ) (unique : List SyncMutation)
    (found : find_parent_cycle_mutation_ids batch ≡ some cyclic)
    (sorted : to_run cyclic batch ≡ some unique) (s : ServerState D) (p : Progress)
    (returns : (run_mutation_waves handlers was_crud_authorized_at others batch env s).0
      ≡ some p) where
  as_waves :
      (run_waves handlers was_crud_authorized_at others env
        (compute_waves unique)
        (reject_cyclic cyclic batch (nothing_run env))
        s).0
      ≡ some p
  unfolding run_mutation_waves
  as_waves = rw sorted at (rw (found, run_mutation_waves) at returns)

  -- A child that stands after its parent among the mutations to run has a result, as the parent has;
  -- it is not applied if the parent is rejected, in conflict, or a duplicate of a rejection.
  pub run_mutation_waves-cascades :
      (xs ys zs : List SyncMutation) (q m : SyncMutation) (g : ℕ)
      → unique ≡ xs ++ q ∷ (ys ++ m ∷ zs)
      → m.parent_guuid ≡ some g
      → q.payload_guuid ≡ some g
      → by_guuid unique g ≡ some q
      → (parent child : Wire) × (result_of q.mutation_id p.results ≡ some parent)
        × (result_of m.mutation_id p.results ≡ some child)
        × (IsFailed parent → is_applied child ≡ false)
  run_mutation_waves-cascades xs ys zs q m g split child parent first =
      let distinct = to_run-IsDistinct cyclic batch unique sorted in
      let q_in : In q unique = subst (In q) (sym split) (In-middle xs q (ys ++ m ∷ zs)) in
      let m_in : In m unique =
        subst (In m) (sym split) (In-append xs m (q ∷ (ys ++ m ∷ zs)) (inr (In-middle ys m zs))) in
      let less = wave_in-lt unique xs ys zs q m split distinct (inr (g, child, first)) in
      Cascading-end unique distinct env m m_in g child q q_in parent p (
        Ended-some (Cascading unique distinct env m m_in g child q q_in parent []) _ p
          (run_waves-Ended handlers was_crud_authorized_at others env
            (Cascading unique distinct env m m_in g child q q_in parent)
            (keep-Cascading unique distinct env m m_in g child q q_in parent) (compute_waves unique)
            (reject_cyclic cyclic batch (nothing_run env)) s
            (
              0,
              compute_waves-Leveled unique distinct,
              fresh (compute_waves-InWaves unique distinct q q_in)
                  (compute_waves-InWaves unique distinct m m_in) less,
            ))
          as_waves)

  -- A mutation to run whose parent's guuid is that of a mutation on a cycle has a result, and is not
  -- applied.
  pub run_mutation_waves-blocks :
      (q m : SyncMutation) (g : ℕ)
      → In q batch
      → member q.mutation_id cyclic ≡ true
      → q.payload_guuid ≡ some g
      → In m unique
      → m.parent_guuid ≡ some g
      → (w : Wire) × (result_of m.mutation_id p.results ≡ some w) × (is_applied w ≡ false)
  run_mutation_waves-blocks q m g q_in on parent m_in child =
      let distinct = to_run-IsDistinct cyclic batch unique sorted in
      let failed = (reject_cyclic-rejects cyclic batch (nothing_run env) q q_in on).1 g parent in
      Blocked-end unique distinct env m m_in g child p (
        Ended-some (Blocked unique distinct env m m_in g child []) _ p
          (run_waves-Ended handlers was_crud_authorized_at others env
            (Blocked unique distinct env m m_in g child)
            (keep-Blocked unique distinct env m m_in g child) (compute_waves unique)
            (reject_cyclic cyclic batch (nothing_run env)) s
            (
              0,
              compute_waves-Leveled unique distinct,
              waiting failed (compute_waves-InWaves unique distinct m m_in),
            ))
          as_waves)
