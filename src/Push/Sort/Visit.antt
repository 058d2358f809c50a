-- ===== src/Push/Sort/Visit.antt =====
-- What a visit of `topoSort` of apps/backend/src/sync/push/delta.service.ts keeps.
pub mod Output
unfoldable pub use Output.*
use ayphen_retail_pos.Common.{
  ℕ, zero, suc, ◌<◌, ◌≡◌, refl, sym, subst, ◌∙◌, true, false, inl, inr, ◌⊎◌, Option, none, some,
  List, [], ◌∷◌, ◌++◌, ◌||◌, ◌==◌, ==_refl, ==→eq, length, member, arith, Bool-cases,
  some_injective,
}
use ayphen_retail_pos.Push.{SyncMutation}
use ayphen_retail_pos.Push.Sort.{
  ids, parent_of, SortState, emit, is_visited, emit_after, visit, visit_all,
}
use ayphen_retail_pos.Push.Sort.Measure.{
  In, remaining, remaining-lt, remaining-le-length, parent_of-In,
}

-- What a visit keeps: the ids that it emits are those of its output, which are of the batch and in
-- order.
pub record IsSorted (batch : List SyncMutation) (st : SortState) : Type 0 where
  pub ids_of_out : (a : ℕ) → member a st.emitted ≡ member a (ids st.out)
  pub of_batch : (m : SyncMutation) → In m st.out → In m batch
  pub ordered : IsOrdered batch [] st.out

none-ne-some : {A : Type 0} {a : A} → none ≡ some a → ⊥
none-ne-some h = cc h

-- A visit that starts with enough fuel ends, keeps what was emitted, and emits its mutation unless
-- that is on the stack.
abbrev Visited :
    List SyncMutation → SyncMutation → List SyncMutation → SortState → Option SortState → Type 0
Visited batch m stack st none = ⊥
Visited batch m stack st (some st') =
    IsSorted batch st'
    × ((a : ℕ) → member a st.emitted ≡ true → member a st'.emitted ≡ true)
    × (member m.mutation_id (ids stack) ≡ false → member m.mutation_id st'.emitted ≡ true)

member-append_one :
    (a : ℕ) (ms : List SyncMutation) (m : SyncMutation)
    → member a (ids (ms ++ m ∷ [])) ≡ (a == m.mutation_id || member a (ids ms))
member-append_one a [] m = refl
member-append_one a (x ∷ xs) m = ground (arith, member-append_one a xs m)

In-append_one :
    (x : SyncMutation) (ms : List SyncMutation) (m : SyncMutation)
    → In x (ms ++ m ∷ [])
    → In x ms ⊎ (x ≡ m)
In-append_one x [] m (inl e) = inr e
In-append_one x [] m (inr h) = absurd h
In-append_one x (y ∷ ys) m (inl e) = inl (inl e)
In-append_one x (y ∷ ys) m (inr h) = elim (In-append_one x ys m h) [
  | inl k ↦ inl (inr k)
  | inr e ↦ inr e
]

emit-IsSorted :
    (batch : List SyncMutation) (m : SyncMutation) (st : SortState)
    → In m batch
    → Follows batch m [] st.out
    → IsSorted batch st
    → IsSorted batch (emit m st)
unfolding emit
emit-IsSorted batch m st in_batch follows s = record {
  ids_of_out = λ a. ground (arith, s.ids_of_out a, member-append_one a st.out m);
  of_batch = λ x h. elim (In-append_one x st.out m h) [
    | inl k ↦ s.of_batch x k
    | inr e ↦ subst (λ y. In y batch) (sym e) in_batch
  ];
  ordered = IsOrdered-append_one batch st.out [] m s.ordered follows;
}

emit_after-Visited :
    (batch : List SyncMutation) (m : SyncMutation) (stack : List SyncMutation) (st : SortState)
    (o : Option SortState)
    → In m batch
    → (st' : SortState) × (o ≡ some st')
      × IsSorted batch st'
      × ((a : ℕ) → member a st.emitted ≡ true → member a st'.emitted ≡ true)
      × Follows batch m [] st'.out
    → Visited batch m stack st (emit_after m o)
unfolding emit
emit_after-Visited batch m stack st o in_batch (st', run, sorted, kept, follows) =
    subst (λ r. Visited batch m stack st (emit_after m r)) (sym run)
      (
        emit-IsSorted batch m st' in_batch follows sorted,
        (λ a h. ground (arith, kept a h)),
        (λ _. ground (arith, ==_refl m.mutation_id)),
      )

-- What the visit of the parent leaves, by a visit `call` that is known to end.
below-ends :
    (batch : List SyncMutation) (m : SyncMutation) (stack : List SyncMutation) (st : SortState)
    (call : SyncMutation → Option SortState) (o : Option SyncMutation)
    → parent_of batch m ≡ o
    → Stacked batch m (m ∷ stack)
    → IsSorted batch st
    → ((p : SyncMutation) → o ≡ some p → Visited batch p (m ∷ stack) st (call p))
    → (st' : SortState) × (elim o as (λ _. Option SortState) [ none ↦ some st | some p ↦ call p ]
        ≡ some st')
      × IsSorted batch st'
      × ((a : ℕ) → member a st.emitted ≡ true → member a st'.emitted ≡ true)
      × Follows batch m [] st'.out
below-ends batch m stack st call none root chain sorted rec =
    (st, refl, sorted, (λ a h. h), (λ q e. absurd (none-ne-some (sym root ∙ e))))
below-ends batch m stack st call (some p) parent chain sorted rec = open_visit (call p) (rec p refl)
  where
    open_visit :
        (r : Option SortState)
        → Visited batch p (m ∷ stack) st r
        → (st' : SortState) × (r ≡ some st')
          × IsSorted batch st'
          × ((a : ℕ) → member a st.emitted ≡ true → member a st'.emitted ≡ true)
          × Follows batch m [] st'.out
    open_visit none v = absurd v
    open_visit (some st') v = (
      st',
      refl,
      v.0,
      v.1,
      (λ q e.
          subst
            (λ x. ((false ≡ true) ⊎ (member x.mutation_id (ids st'.out) ≡ true)) ⊎ Loops batch x m)
            (some_injective (sym parent ∙ e))
            (elim (Bool-cases (member p.mutation_id (ids (m ∷ stack)))) [
              | inl on ↦ inr (Stacked-Loops batch m p (m ∷ stack) chain on)
              | inr off ↦ inl (inr (sym (v.0.ids_of_out p.mutation_id) ∙ v.2 off))
            ])),
    )

visit-Visited :
    (fuel : ℕ) (batch : List SyncMutation) (m : SyncMutation) (stack : List SyncMutation)
    (st : SortState)
    → remaining (ids stack) batch < fuel
    → In m batch
    → Stacked batch m stack
    → IsSorted batch st
    → Visited batch m stack st (visit fuel batch m stack st)
unfolding visit
visit-Visited zero batch m stack st enough in_batch chain sorted = elim enough [ ]
visit-Visited (suc fuel) batch m stack st enough in_batch chain sorted =
    elim (Bool-cases (is_visited m stack st)) [
      | inl old ↦ rw old (sorted, (λ a h. h), (λ off. ground (arith, old, off)))
      | inr new ↦ rw new (
          emit_after-Visited batch m stack st _ in_batch (
            below-ends batch m stack st (λ p. visit fuel batch p (m ∷ stack) st) (parent_of batch m)
              refl (Ancestor.itself, chain) sorted
              (λ p e.
                visit-Visited fuel batch p (m ∷ stack) st
                  (ground (arith, new, remaining-lt m (ids stack) batch in_batch))
                  (parent_of-In batch m p e)
                  (Stacked-up batch m p (m ∷ stack) e (Ancestor.itself, chain)) sorted)))
    ]

-- All mutations of a list are visited in turn.
abbrev pub VisitedAll :
    List SyncMutation → List SyncMutation → SortState → Option SortState → Type 0
VisitedAll batch ms st none = ⊥
VisitedAll batch ms st (some st') =
    IsSorted batch st'
    × ((a : ℕ) → member a st.emitted ≡ true → member a st'.emitted ≡ true)
    × ((m : SyncMutation) → In m ms → member m.mutation_id st'.emitted ≡ true)

pub visit_all-Visited :
    (batch ms : List SyncMutation) (st : SortState)
    → ((m : SyncMutation) → In m ms → In m batch)
    → IsSorted batch st
    → VisitedAll batch ms st (visit_all (suc (length batch)) batch ms st)
unfolding visit_all
visit_all-Visited batch [] st within sorted = (sorted, (λ a h. h), (λ m h. absurd h))
visit_all-Visited batch (m ∷ ms) st within sorted =
    step (visit (suc (length batch)) batch m [] st)
      (visit-Visited (suc (length batch)) batch m [] st
        (ground (arith, remaining-le-length [] batch)) (within m (inl refl)) tt sorted)
      (λ st' s. visit_all-Visited batch ms st' (λ x h. within x (inr h)) s)
  where
    step :
        (r : Option SortState)
        → Visited batch m [] st r
        → ((st' : SortState)
            → IsSorted batch st'
            → VisitedAll batch ms st' (visit_all (suc (length batch)) batch ms st'))
        → VisitedAll batch
            (m ∷ ms)
            st
            (elim r [ none ↦ none | some st' ↦ visit_all (suc (length batch)) batch ms st' ])
    step none v rec = absurd v
    step (some st') v rec = join (visit_all (suc (length batch)) batch ms st') (rec st' v.0)
      where
        join : (r : Option SortState) → VisitedAll batch ms st' r → VisitedAll batch (m ∷ ms) st r
        join none w = absurd w
        join (some last) w = (
          w.0,
          (λ a h. w.1 a (v.1 a h)),
          (λ x h. elim h [
            | inl e ↦
                subst (λ y. member y.mutation_id last.emitted ≡ true) (sym e)
                  (w.1 m.mutation_id (v.2 refl))
            | inr k ↦ w.2 x k
          ]),
        )
