-- ===== src/Push/Cycles/Exact.antt =====
-- What `findParentCycleMutationIds` of apps/backend/src/sync/push/delta.service.ts finds.
use ayphen_retail_pos.Common.{
  ℕ, suc, ◌≡◌, ◌↔◌, refl, sym, subst, true, ◌||◌, inl, inr, ◌⊎◌, Option, none, some, List, [], ◌∷◌,
  ◌++◌, length, member, arith, Bool-cases, some_injective,
}
use ayphen_retail_pos.Push.{SyncMutation}
use ayphen_retail_pos.Push.Sort.{ids}
use ayphen_retail_pos.Push.Sort.Measure.{In, remaining-le-length}
use ayphen_retail_pos.Push.Cycles.{
  Walk, walk, CycleState, settle, find_cycles, nothing_settled, cycle_ids,
  find_parent_cycle_mutation_ids,
}
use ayphen_retail_pos.Push.Cycles.Chains.{IsCyclic, member-ids, In-member, distinct-eq}
use ayphen_retail_pos.Push.Cycles.Walks.{IsWalked, Ends, IsClosed, IsPath, walk-Ends}
use ayphen_retail_pos.Push.Waves.Order.{IsDistinct}

member-append : (a : ℕ) (xs ys : List ℕ) → member a (xs ++ ys) ≡ (member a xs || member a ys)
member-append a [] ys = refl
member-append a (x ∷ xs) ys = ground (arith, member-append a xs ys)

-- One of two lists has it.
member-either :
    (a : ℕ) (xs ys : List ℕ)
    → (member a ys ≡ true) ⊎ (member a xs ≡ true)
    → member a (xs ++ ys) ≡ true
member-either a xs ys (inl h) = ground (arith, h, member-append a xs ys)
member-either a xs ys (inr h) = ground (arith, h, member-append a xs ys)

member-split :
    (a : ℕ) (xs ys : List ℕ)
    → member a (xs ++ ys) ≡ true
    → (member a xs ≡ true) ⊎ (member a ys ≡ true)
member-split a xs ys h = elim (Bool-cases (member a xs)) [
  | inl left ↦ inl left
  | inr right ↦ inr (ground (arith, h, right, member-append a xs ys))
]

module _ (batch : List SyncMutation) (distinct : IsDistinct batch) where
  -- The recorded ids are of mutations on a cycle, and the settled ones on a cycle are recorded.
  record IsFound (st : CycleState) : Type 0 where
    closed : IsClosed batch st.settled
    sound :
        (a : ℕ)
        → member a st.in_cycle ≡ true
        → (m : SyncMutation) × In m batch × (m.mutation_id ≡ a) × IsCyclic batch m
    complete :
        (m : SyncMutation)
        → In m batch
        → member m.mutation_id st.settled ≡ true
        → IsCyclic batch m
        → member m.mutation_id st.in_cycle ≡ true

  settle-IsFound :
      (st : CycleState) (start : SyncMutation) (w : Walk)
      → IsFound st
      → IsWalked batch st.settled [] (some start) w
      → IsFound (settle st w)
  settle-IsFound st start w f v = record {
    closed = λ m p h s e.
        member-either p.mutation_id (ids w.path) st.settled
          (elim (member-split m.mutation_id (ids w.path) st.settled s) [
            | inl walked ↦ v.closed m p (on_path m h walked) e
            | inr old ↦ inl (f.closed m p h old e)
          ]);
    sound = λ a s. elim (member-split a (ids w.cycle) st.in_cycle s) [
      | inl found ↦
          (let (m, k, e) = In-member a w.cycle found in (m, (v.sound m k).1, e, (v.sound m k).0))
      | inr old ↦ f.sound a old
    ];
    complete = λ m h s cyclic.
        member-either m.mutation_id (ids w.cycle) st.in_cycle
          (elim (member-split m.mutation_id (ids w.path) st.settled s) [
            | inl walked ↦ inr (member-ids m w.cycle (v.complete m (on_path m h walked) cyclic))
            | inr old ↦ inl (f.complete m h old cyclic)
          ]);
  }
    where
      on_path :
          (m : SyncMutation) → In m batch → member m.mutation_id (ids w.path) ≡ true → In m w.path
      on_path m h walked =
          let (n, k, e) = In-member m.mutation_id w.path walked in
          subst (λ y. In y w.path) (distinct-eq batch n m distinct (v.of_batch n k) h e) k

  -- The loop over the mutations `rest` ends with all of them settled.
  abbrev FoundAll : CycleState → List SyncMutation → Option CycleState → Type 0
  FoundAll st rest none = ⊥
  FoundAll st rest (some st') =
      IsFound st'
      × ((a : ℕ) → member a st.settled ≡ true → member a st'.settled ≡ true)
      × ((m : SyncMutation) → In m rest → member m.mutation_id st'.settled ≡ true)

  FoundAll-cons :
      (st mid : CycleState) (m : SyncMutation) (rest : List SyncMutation) (r : Option CycleState)
      → ((a : ℕ) → member a st.settled ≡ true → member a mid.settled ≡ true)
      → member m.mutation_id mid.settled ≡ true
      → FoundAll mid rest r
      → FoundAll st (m ∷ rest) r
  FoundAll-cons st mid m rest none grows settled f = f
  FoundAll-cons st mid m rest (some st') grows settled f = (
    f.0,
    (λ a h. f.1 a (grows a h)),
    (λ x h. elim h [
      | inl e ↦
          subst (λ y. member y.mutation_id st'.settled ≡ true) (sym e) (f.1 m.mutation_id settled)
      | inr k ↦ f.2 x k
    ]),
  )

  start-IsPath :
      (settled : List ℕ) (start : SyncMutation)
      → In start batch
      → IsPath batch settled [] (some start)
  start-IsPath settled start h = record {
    linked = tt;
    inside = λ m k. absurd k;
    fresh = λ m k. absurd k;
    next = λ m e. subst (λ y. In y batch) (some_injective e) h;
  }

  find_cycles-FoundAll :
      (rest : List SyncMutation) (st : CycleState)
      → ((m : SyncMutation) → In m rest → In m batch)
      → IsFound st
      → FoundAll st rest (find_cycles (suc (suc (length batch))) batch rest st)
  unfolding find_cycles
  find_cycles-FoundAll [] st within f = (f, (λ a h. h), (λ m h. absurd h))
  find_cycles-FoundAll (m ∷ rest) st within f =
      elim (Bool-cases (member m.mutation_id st.settled)) [
        | inl old ↦
            rw old
              (FoundAll-cons st st m rest _ (λ a h. h) old (find_cycles-FoundAll rest st later f))
        | inr new ↦ rw new (
            walked (walk (suc (suc (length batch))) batch st.settled [] (some m))
              (walk-Ends batch distinct (suc (suc (length batch))) st.settled [] (some m)
                (ground (arith, remaining-le-length [] batch)) f.closed
                (start-IsPath st.settled m (within m (inl refl))))
              (λ w v. find_cycles-FoundAll rest (settle st w) later (settle-IsFound st m w f v)))
      ]
    where
      later : (x : SyncMutation) → In x rest → In x batch
      later x h = within x (inr h)

      walked :
          (r : Option Walk)
          → Ends batch st.settled [] (some m) r
          → ((w : Walk)
              → IsWalked batch st.settled [] (some m) w
              → FoundAll
                  (settle st w)
                  rest
                  (find_cycles (suc (suc (length batch))) batch rest (settle st w)))
          → FoundAll st (m ∷ rest) (elim r as (λ _. Option CycleState) [
            | none ↦ none
            | some w ↦ find_cycles (suc (suc (length batch))) batch rest (settle st w)
          ])
      walked none v rec = absurd v
      walked (some w) v rec =
          FoundAll-cons st (settle st w) m rest _
            (λ a h. member-either a (ids w.path) st.settled (inl h))
            (member-either m.mutation_id (ids w.path) st.settled (v.at_cur m refl)) (rec w v)

-- The search ends. In a batch without repeated ids it finds exactly the mutations whose chain of
-- parents comes back to them.
pub find_parent_cycle_mutation_ids-exact :
    (batch : List SyncMutation)
    → IsDistinct batch
    → (found : List ℕ) × (find_parent_cycle_mutation_ids batch ≡ some found)
      × ((m : SyncMutation) → In m batch → (member m.mutation_id found ≡ true) ↔ IsCyclic batch m)
unfolding find_parent_cycle_mutation_ids
find_parent_cycle_mutation_ids-exact batch distinct =
    finish (find_cycles (suc (suc (length batch))) batch batch nothing_settled)
      (find_cycles-FoundAll batch distinct batch nothing_settled (λ m h. h) none_found)
  where
    none_found : IsFound batch distinct nothing_settled
    none_found = record {
      closed = λ m p h s e. cc s;
      sound = λ a s. cc s;
      complete = λ m h s c. cc s;
    }

    finish :
        (r : Option CycleState)
        → FoundAll batch distinct nothing_settled batch r
        → (found : List ℕ) × (cycle_ids r ≡ some found)
          × ((m : SyncMutation)
              → In m batch
              → (member m.mutation_id found ≡ true) ↔ IsCyclic batch m)
    finish none f = absurd f
    finish (some st) f = (
      st.in_cycle,
      refl,
      (λ m h. (
        (λ s.
            (let (n, k, e, cyclic) = f.0.sound m.mutation_id s in
              subst (IsCyclic batch) (distinct-eq batch n m distinct k h e) cyclic)),
        (λ cyclic. f.0.complete m h (f.2 m h) cyclic),
      )),
    )
