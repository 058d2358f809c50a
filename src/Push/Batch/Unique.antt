-- ===== src/Push/Batch/Unique.antt =====
-- The mutations that `runMutationWaves` of apps/backend/src/sync/push/delta.service.ts runs: each id
-- once, and every id of the batch that is on no cycle.
use ayphen_retail_pos.Common.{
  ℕ, ◌≡◌, refl, sym, subst, true, false, not, inl, inr, ◌⊎◌, some, List, [], ◌∷◌, ◌==◌, ==→eq,
  filter, member, All, arith, Bool-cases,
}
use ayphen_retail_pos.Push.{SyncMutation}
use ayphen_retail_pos.Push.Sort.{ids}
use ayphen_retail_pos.Push.Sort.Measure.{In}
use ayphen_retail_pos.Push.Sort.Ends.{topo_sort-ends}
use ayphen_retail_pos.Push.Waves.Order.{IsDistinct}
use ayphen_retail_pos.Push.Batch.{dedupe, to_run}
use ayphen_retail_pos.Push.Batch.Levels.{In-filter}

All-map :
    {P Q : SyncMutation → Type 0} (ms : List SyncMutation)
    → ((m : SyncMutation) → P m → Q m)
    → All P ms
    → All Q ms
All-map [] f h = tt
All-map (m ∷ ms) f h = (f m h.0, All-map ms f h.1)

unseen_tail : (a b : ℕ) (seen : List ℕ) → member a (b ∷ seen) ≡ false → member a seen ≡ false
unseen_tail a b seen h = ground (arith, h)

unseen_head : (a b : ℕ) (seen : List ℕ) → member a (b ∷ seen) ≡ false → (a == b) ≡ false
unseen_head a b seen h = ground (arith, h)

dedupe-unseen :
    (seen : List ℕ) (ms : List SyncMutation)
    → All (λ m. member m.mutation_id seen ≡ false) (dedupe seen ms)
unfolding dedupe
dedupe-unseen seen [] = tt
dedupe-unseen seen (m ∷ ms) = elim (Bool-cases (member m.mutation_id seen)) [
  | inl old ↦ rw old (dedupe-unseen seen ms)
  | inr new ↦ rw new (
    new,
    All-map (dedupe (m.mutation_id ∷ seen) ms)
        (λ x h. unseen_tail x.mutation_id m.mutation_id seen h)
        (dedupe-unseen (m.mutation_id ∷ seen) ms),
  )
]

dedupe-IsDistinct : (seen : List ℕ) (ms : List SyncMutation) → IsDistinct (dedupe seen ms)
unfolding dedupe
dedupe-IsDistinct seen [] = tt
dedupe-IsDistinct seen (m ∷ ms) = elim (Bool-cases (member m.mutation_id seen)) [
  | inl old ↦ rw old (dedupe-IsDistinct seen ms)
  | inr new ↦ rw new (
    All-map (dedupe (m.mutation_id ∷ seen) ms)
        (λ x h. unseen_head x.mutation_id m.mutation_id seen h)
        (dedupe-unseen (m.mutation_id ∷ seen) ms),
    dedupe-IsDistinct (m.mutation_id ∷ seen) ms,
  )
]

abbrev pub Has : ℕ → List SyncMutation → Type 0
Has a ms = (x : SyncMutation) × In x ms × (x.mutation_id ≡ a)

dedupe-Has :
    (a : ℕ) (seen : List ℕ) (ms : List SyncMutation)
    → member a (ids ms) ≡ true
    → (member a seen ≡ true) ⊎ Has a (dedupe seen ms)
unfolding dedupe
dedupe-Has a seen [] h = cc h
dedupe-Has a seen (m ∷ ms) h = elim (Bool-cases (a == m.mutation_id)) [
  | inl hit ↦ elim (Bool-cases (member m.mutation_id seen)) [
    | inl old ↦ inl (subst (λ b. member b seen ≡ true) (sym (==→eq a m.mutation_id hit)) old)
    | inr new ↦ rw new (inr (m, inl refl, sym (==→eq a m.mutation_id hit)))
  ]
  | inr miss ↦ elim (Bool-cases (member m.mutation_id seen)) [
    | inl old ↦ rw old (dedupe-Has a seen ms (rw miss at h))
    | inr new ↦ rw new (elim (dedupe-Has a (m.mutation_id ∷ seen) ms (rw miss at h)) [
      | inl seen_later ↦ inl (rw miss at seen_later)
      | inr (x, k, e) ↦ inr (x, inr k, e)
    ])
  ]
]

-- What is run: no id twice, and each id of the batch that is not on a cycle.
pub record IsUnique (cyclic : List ℕ) (batch unique : List SyncMutation) : Type 0 where
  pub distinct : IsDistinct unique
  pub all :
      (m : SyncMutation)
      → In m batch
      → member m.mutation_id cyclic ≡ false
      → Has m.mutation_id unique

pub to_run-IsUnique :
    (cyclic : List ℕ) (batch : List SyncMutation)
    → (unique : List SyncMutation) × (to_run cyclic batch ≡ some unique)
      × IsUnique cyclic batch unique
unfolding to_run
to_run-IsUnique cyclic batch =
    let acyclic = filter (λ (m : SyncMutation). not (member m.mutation_id cyclic)) batch in
    let (out, ends, within, covers, ordered) = topo_sort-ends acyclic in
    (
      dedupe [] out,
      rw (ends, to_run) refl,
      record {
        distinct = dedupe-IsDistinct [] out;
        all = λ m h free.
            elim (dedupe-Has m.mutation_id [] out
              (covers m (In-filter _ batch m h (rw free refl)))) [
                | inl old ↦ cc old
                | inr found ↦ found
              ];
      },
    )
