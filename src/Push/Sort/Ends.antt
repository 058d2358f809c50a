-- ===== src/Push/Sort/Ends.antt =====
-- `topoSort` of apps/backend/src/sync/push/delta.service.ts ends, and what it puts out.
use ayphen_retail_pos.Common.{
  suc, ◌≡◌, refl, sym, ◌∙◌, true, Option, none, some, List, [], length, member,
}
use ayphen_retail_pos.Push.{SyncMutation}
use ayphen_retail_pos.Push.Sort.{ids, SortState, nothing_sorted, sorted_of, visit_all, topo_sort}
use ayphen_retail_pos.Push.Sort.Measure.{In}
use ayphen_retail_pos.Push.Sort.Visit.{IsOrdered, VisitedAll, visit_all-Visited}

-- The sort of any batch ends. It puts out mutations of the batch, and each id of the batch, and a
-- mutation stands after its parent unless the parents of the parent come back to it.
pub topo_sort-ends :
    (batch : List SyncMutation)
    → (out : List SyncMutation) × (topo_sort batch ≡ some out)
      × ((m : SyncMutation) → In m out → In m batch)
      × ((m : SyncMutation) → In m batch → member m.mutation_id (ids out) ≡ true)
      × IsOrdered batch [] out
unfolding topo_sort
topo_sort-ends batch = finish (visit_all (suc (length batch)) batch batch nothing_sorted) (
    visit_all-Visited batch batch nothing_sorted (λ m h. h)
      (record { ids_of_out = λ a. refl; of_batch = λ m h. absurd h; ordered = tt }))
  where
    finish :
        (r : Option SortState)
        → VisitedAll batch batch nothing_sorted r
        → (out : List SyncMutation) × (sorted_of r ≡ some out)
          × ((m : SyncMutation) → In m out → In m batch)
          × ((m : SyncMutation) → In m batch → member m.mutation_id (ids out) ≡ true)
          × IsOrdered batch [] out
    finish none v = absurd v
    finish (some st) v = (
      st.out,
      refl,
      v.0.of_batch,
      (λ m h. sym (v.0.ids_of_out m.mutation_id) ∙ v.2 m h),
      v.0.ordered,
    )
