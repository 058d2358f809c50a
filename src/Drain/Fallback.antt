-- ===== src/Drain/Fallback.antt =====
-- The two ways of reconciling a batch in apps/mobile/src/core/sync/engine/drain-queue.ts: all results
-- in one transaction, and after a throw each result in its own.
use ayphen_retail_pos.Common.{ℕ, ◌≡◌, sym, refl, ap, subst, false, inl, inr, List, [], ◌∷◌, ◌++◌}
use ayphen_retail_pos.SyncDb.{
  QueueRow, SyncDb, Result, Result-cases, ok, ok-injective, throws, ApplierLookup,
}
use ayphen_retail_pos.Drain.{
  MutationResult, PushResponse, threw, reconcile_one_result, reconcile_all, reconcile_each,
  reconcile_results, finish_drain,
}

module _ {T : Type 0} (registry : ApplierLookup T) (store : ℕ) (batch : List QueueRow)
    (now : ℕ) where
  abbrev one : MutationResult → SyncDb T → Result (SyncDb T)
  one = reconcile_one_result registry store batch now

  reconcile_all-throws :
      (rs₁ : List MutationResult) (r : MutationResult) (rs₂ : List MutationResult)
      (db db₁ : SyncDb T)
      → reconcile_all registry store batch now rs₁ db ≡ ok db₁
      → one r db₁ ≡ throws
      → (reconcile_all registry store batch now (rs₁ ++ r ∷ rs₂) db ≡ throws)
        × (reconcile_each registry store batch now (rs₁ ++ r ∷ rs₂) db ≡ (false, db₁))
  unfolding reconcile_all reconcile_each
  reconcile_all-throws [] r rs₂ db db₁ done bad =
      let same : db ≡ db₁ = ok-injective done in
      let stop : one r db ≡ throws = subst (λ d. one r d ≡ throws) (sym same) bad in
      (rw (stop, reconcile_all) refl, rw (stop, reconcile_each) (ap (λ d. (false, d)) same))
  reconcile_all-throws (r₁ ∷ rs₁) r rs₂ db db₁ done bad = elim (Result-cases (one r₁ db)) [
    | inl stop ↦ cc (rw (stop, reconcile_all) at done)
    | inr (db₂, step) ↦
        let rest = reconcile_all-throws rs₁ r rs₂ db₂ db₁ (rw (step, reconcile_all) at done) bad in
        (rw (step, reconcile_all) rest.0, rw (step, reconcile_each) rest.1)
  ]

  reconcile_results-stops :
      (rs : List MutationResult) (db db₁ : SyncDb T)
      → reconcile_all registry store batch now rs db ≡ throws
      → reconcile_each registry store batch now rs db ≡ (false, db₁)
      → reconcile_results registry store batch now rs db ≡ (false, db₁)
  unfolding reconcile_results
  reconcile_results-stops rs db db₁ bad stop = rw (bad, reconcile_results) stop

  -- When a result throws, the results before it are reconciled and the drain throws: the results after
  -- it are not reconciled, in the fallback as little as in the whole-batch transaction.
  pub finish_drain-stops :
      (rs₁ : List MutationResult) (r : MutationResult) (rs₂ : List MutationResult) (ids : List ℕ)
      (response : PushResponse) (db db₁ : SyncDb T)
      → response.mutation_results ≡ rs₁ ++ r ∷ rs₂
      → reconcile_all registry store batch now rs₁ db ≡ ok db₁
      → one r db₁ ≡ throws
      → finish_drain registry store batch now ids response db ≡ (threw, db₁)
  unfolding finish_drain
  finish_drain-stops rs₁ r rs₂ ids response db db₁ split done bad =
      let parts = reconcile_all-throws rs₁ r rs₂ db db₁ done bad in
      rw
        (
          reconcile_results-stops response.mutation_results db db₁
              (subst (λ rs. reconcile_all registry store batch now rs db ≡ throws) (sym split)
                parts.0)
              (subst (λ rs. reconcile_each registry store batch now rs db ≡ (false, db₁))
                (sym split) parts.1),
          finish_drain,
        )
        refl
