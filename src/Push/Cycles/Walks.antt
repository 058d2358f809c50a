-- ===== src/Push/Cycles/Walks.antt =====
-- One walk of `findParentCycleMutationIds` of apps/backend/src/sync/push/delta.service.ts: it ends, and
-- captures the mutations of its path that are on a cycle.
use ayphen_retail_pos.Common.{
  ℕ, zero, suc, ◌<◌, ◌≡◌, refl, sym, subst, true, false, inl, inr, ◌⊎◌, Option, none, some, List,
  [], ◌∷◌, ◌++◌, member, arith, Bool-cases, some_injective,
}
use ayphen_retail_pos.Push.{SyncMutation}
use ayphen_retail_pos.Push.Sort.{ids, parent_of}
use ayphen_retail_pos.Push.Sort.Measure.{In, remaining, parent_of-In}
use ayphen_retail_pos.Push.Sort.Visit.{Ancestor, itself, up}
use ayphen_retail_pos.Push.Cycles.{capture, Walk, walk}
use ayphen_retail_pos.Push.Cycles.Chains.{
  IsCyclic, Linked, member-ids, distinct-eq, Ancestor-trans, cycle-back, In-parent,
  Linked-append_one, Linked-end, Linked-first, Linked-root,
}
use ayphen_retail_pos.Push.Cycles.Loops.{
  In-append_one, In-append_left, In-last, remaining-append_one, capture-In, capture-first,
  capture-Linked, loop-parent, loop-closed,
}
use ayphen_retail_pos.Push.Waves.Order.{IsDistinct}

module _ (batch : List SyncMutation) where
  -- What a walk from `cur`, with the path so far, leaves.
  pub record IsWalked (settled : List ℕ) (path : List SyncMutation) (cur : Option SyncMutation)
      (w : Walk) : Type 0 where
    pub grown : (m : SyncMutation) → In m path → In m w.path
    pub at_cur :
        (m : SyncMutation)
        → cur ≡ some m
        → (member m.mutation_id settled ≡ true) ⊎ (member m.mutation_id (ids w.path) ≡ true)
    pub of_batch : (m : SyncMutation) → In m w.path → In m batch
    pub closed :
        (m p : SyncMutation)
        → In m w.path
        → parent_of batch m ≡ some p
        → (member p.mutation_id settled ≡ true) ⊎ (member p.mutation_id (ids w.path) ≡ true)
    pub sound : (m : SyncMutation) → In m w.cycle → IsCyclic batch m × In m batch
    pub complete : (m : SyncMutation) → In m w.path → IsCyclic batch m → In m w.cycle

  abbrev pub Ends : List ℕ → List SyncMutation → Option SyncMutation → Option Walk → Type 0
  Ends settled path cur none = ⊥
  Ends settled path cur (some w) = IsWalked settled path cur w

  -- The settled mutations have their parents settled.
  abbrev pub IsClosed : List ℕ → Type 0
  IsClosed settled =
      (m p : SyncMutation)
      → In m batch
      → member m.mutation_id settled ≡ true
      → parent_of batch m ≡ some p
      → member p.mutation_id settled ≡ true

  settled-up :
      (settled : List ℕ) {m p : SyncMutation}
      → IsClosed settled
      → In m batch
      → member m.mutation_id settled ≡ true
      → Ancestor batch m p
      → member p.mutation_id settled ≡ true
  settled-up settled c h s itself = s
  settled-up settled c h s (up {a} {p} k e) =
      c a p (In-parent batch h k) (settled-up settled c h s k) e

  -- A path of unsettled mutations of the batch.
  pub record IsPath (settled : List ℕ) (path : List SyncMutation) (cur : Option SyncMutation)
      : Type 0 where
    pub linked : Linked batch path cur
    pub inside : (m : SyncMutation) → In m path → In m batch
    pub fresh : (m : SyncMutation) → In m path → member m.mutation_id settled ≡ false
    pub next : (m : SyncMutation) → cur ≡ some m → In m batch

  path_parent :
      (settled : List ℕ) (path : List SyncMutation) (c m p : SyncMutation)
      → Linked batch path (some c)
      → (member c.mutation_id settled ≡ true) ⊎ (member c.mutation_id (ids path) ≡ true)
      → In m path
      → parent_of batch m ≡ some p
      → (member p.mutation_id settled ≡ true) ⊎ (member p.mutation_id (ids path) ≡ true)
  path_parent settled path c m p l end h e = elim (loop-parent batch path (some c) m p l h e) [
    | inl k ↦ inr (member-ids p path k)
    | inr s ↦
        subst
          (λ y. (member y.mutation_id settled ≡ true) ⊎ (member y.mutation_id (ids path) ≡ true))
          (some_injective s) end
  ]

  root-IsWalked :
      (settled : List ℕ) (path : List SyncMutation)
      → IsPath settled path none
      → IsWalked settled path none (record { path = path; cycle = [] })
  root-IsWalked settled path h = record {
    grown = λ m k. k;
    at_cur = λ m e. cc e;
    of_batch = h.inside;
    closed = λ m p k e. elim (loop-parent batch path none m p h.linked k e) [
      | inl i ↦ inr (member-ids p path i)
      | inr s ↦ cc s
    ];
    sound = λ m k. absurd k;
    complete = λ m k cyclic. absurd (Linked-root batch path m h.linked k cyclic);
  }

  settled-IsWalked :
      (settled : List ℕ) (path : List SyncMutation) (c : SyncMutation)
      → IsClosed settled
      → IsPath settled path (some c)
      → member c.mutation_id settled ≡ true
      → IsWalked settled path (some c) (record { path = path; cycle = [] })
  settled-IsWalked settled path c closed h old = record {
    grown = λ m k. k;
    at_cur = λ m e. inl (subst (λ y. member y.mutation_id settled ≡ true) (some_injective e) old);
    of_batch = h.inside;
    closed = λ m p k e. path_parent settled path c m p h.linked (inl old) k e;
    sound = λ m k. absurd k;
    complete = λ m k cyclic.
        let (p, e, chain) = Linked-end batch path c m h.linked k in
        let back = cycle-back batch cyclic (Ancestor-trans batch (up itself e) chain) in
        cc (h.fresh m k, settled-up settled closed (h.next c refl) old back);
  }

  module _ (distinct : IsDistinct batch) where
    revisit-IsWalked :
        (settled : List ℕ) (path : List SyncMutation) (c : SyncMutation)
        → IsPath settled path (some c)
        → member c.mutation_id (ids path) ≡ true
        → IsWalked settled path
            (some c)
            (record { path = path; cycle = capture c.mutation_id path })
    revisit-IsWalked settled path c h again =
        let (r, rs, shape, same) = capture-first c.mutation_id path again in
        close r rs shape (
          distinct-eq batch r c distinct
            (h.inside r (capture-In c.mutation_id path r (subst (In r) (sym shape) (inl refl))))
            (h.next c refl) same)
      where
        close :
            (r : SyncMutation) (rs : List SyncMutation)
            → capture c.mutation_id path ≡ r ∷ rs
            → r ≡ c
            → IsWalked settled path
                (some c)
                (record { path = path; cycle = capture c.mutation_id path })
        close r rs shape same =
            let loop : Linked batch (r ∷ rs) (some r) =
              subst (λ xs. Linked batch xs (some r)) shape
                (capture-Linked batch c.mutation_id path (some r)
                  (subst (λ y. Linked batch path (some y)) (sym same) h.linked)) in
            record {
              grown = λ m k. k;
              at_cur = λ m e.
                  inr
                    (subst (λ y. member y.mutation_id (ids path) ≡ true) (some_injective e) again);
              of_batch = h.inside;
              closed = λ m p k e. path_parent settled path c m p h.linked (inr again) k e;
              sound = λ m k. (
                on_loop r rs m loop (subst (In m) shape k),
                h.inside m (capture-In c.mutation_id path m k),
              );
              complete = λ m k cyclic.
                  let (p, e, chain) = Linked-end batch path c m h.linked k in
                  let back = cycle-back batch cyclic (Ancestor-trans batch (up itself e) chain) in
                  subst (In m) (sym shape) (
                    loop-closed batch r rs r m loop (inl refl)
                      (subst (λ y. Ancestor batch y m) (sym same) back));
            }
          where
            on_loop :
                (r : SyncMutation) (rs : List SyncMutation) (m : SyncMutation)
                → Linked batch (r ∷ rs) (some r)
                → In m (r ∷ rs)
                → IsCyclic batch m
            on_loop r rs m loop k =
                let (p, e, chain) = Linked-end batch (r ∷ rs) r m loop k in
                (p, e, Ancestor-trans batch chain (Linked-first batch r rs (some r) m loop k))

    pub walk-Ends :
        (fuel : ℕ) (settled : List ℕ) (path : List SyncMutation) (cur : Option SyncMutation)
        → suc (remaining (ids path) batch) < fuel
        → IsClosed settled
        → IsPath settled path cur
        → Ends settled path cur (walk fuel batch settled path cur)
    unfolding walk
    walk-Ends zero settled path cur enough closed h = elim enough [ ]
    walk-Ends (suc fuel) settled path none enough closed h = root-IsWalked settled path h
    walk-Ends (suc fuel) settled path (some c) enough closed h =
        elim (Bool-cases (member c.mutation_id settled)) [
          | inl old ↦ rw old (settled-IsWalked settled path c closed h old)
          | inr new ↦ rw new (elim (Bool-cases (member c.mutation_id (ids path))) [
            | inl again ↦ rw again (revisit-IsWalked settled path c h again)
            | inr first ↦ rw first (
                one_more (walk fuel batch settled (path ++ c ∷ []) (parent_of batch c)) (
                  walk-Ends fuel settled (path ++ c ∷ []) (parent_of batch c)
                    (ground
                      (arith, enough, remaining-append_one c path batch (h.next c refl) first))
                    closed (longer new)))
          ])
        ]
      where
        longer :
            member c.mutation_id settled ≡ false
            → IsPath settled (path ++ c ∷ []) (parent_of batch c)
        longer new = record {
          linked = Linked-append_one batch path c h.linked;
          inside = λ m k. elim (In-append_one m path c k) [
            | inl i ↦ h.inside m i
            | inr e ↦ subst (λ y. In y batch) (sym e) (h.next c refl)
          ];
          fresh = λ m k. elim (In-append_one m path c k) [
            | inl i ↦ h.fresh m i
            | inr e ↦ subst (λ y. member y.mutation_id settled ≡ false) (sym e) new
          ];
          next = λ m e. parent_of-In batch c m e;
        }

        one_more :
            (r : Option Walk)
            → Ends settled (path ++ c ∷ []) (parent_of batch c) r
            → Ends settled path (some c) r
        one_more none v = v
        one_more (some w) v = record {
          grown = λ m k. v.grown m (In-append_left m path (c ∷ []) k);
          at_cur = λ m e. inr (
              subst (λ y. member y.mutation_id (ids w.path) ≡ true) (some_injective e)
                (member-ids c w.path (v.grown c (In-last c path))));
          of_batch = v.of_batch;
          closed = v.closed;
          sound = v.sound;
          complete = v.complete;
        }
