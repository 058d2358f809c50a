-- ===== src/Push/Cycles/Chains.antt =====
-- Chains of parents in a batch of apps/backend/src/sync/push/delta.service.ts. A mutation has at most
-- one parent, so its chain is determined.
use ayphen_retail_pos.Common.{
  ℕ, ◌≡◌, refl, sym, subst, ◌∙◌, true, false, inl, inr, ◌⊎◌, Option, none, some, List, [], ◌∷◌,
  ◌++◌, ◌==◌, ==_refl, ==→eq, member, arith, Bool-cases, some_injective, All,
}
use ayphen_retail_pos.Push.{SyncMutation}
use ayphen_retail_pos.Push.Sort.{ids, parent_of}
use ayphen_retail_pos.Push.Sort.Measure.{In, parent_of-In}
use ayphen_retail_pos.Push.Sort.Visit.{Ancestor, itself, up}
use ayphen_retail_pos.Push.Waves.Order.{IsDistinct}

-- The chain of parents of the mutation comes back to it.
abbrev pub IsCyclic : List SyncMutation → SyncMutation → Type 0
IsCyclic batch m = (p : SyncMutation) × (parent_of batch m ≡ some p) × Ancestor batch p m

-- Each mutation of a path is followed by its parent; the last one's parent is `o`.
abbrev pub first_or : List SyncMutation → Option SyncMutation → Option SyncMutation
first_or [] o = o
first_or (x ∷ xs) o = some x

abbrev pub Linked : List SyncMutation → List SyncMutation → Option SyncMutation → Type 0
Linked batch [] o = Unit
Linked batch (x ∷ xs) o = (parent_of batch x ≡ first_or xs o) × Linked batch xs o

pub member-ids :
    (m : SyncMutation) (ms : List SyncMutation) → In m ms → member m.mutation_id (ids ms) ≡ true
member-ids m [] h = absurd h
member-ids m (x ∷ xs) (inl e) =
    subst (λ y. member m.mutation_id (y.mutation_id ∷ ids xs) ≡ true) e
      (rw (==_refl m.mutation_id) refl)
member-ids m (x ∷ xs) (inr h) = ground (arith, member-ids m xs h)

pub In-member :
    (a : ℕ) (ms : List SyncMutation)
    → member a (ids ms) ≡ true
    → (m : SyncMutation) × In m ms × (m.mutation_id ≡ a)
In-member a [] h = cc h
In-member a (x ∷ xs) h = elim (Bool-cases (a == x.mutation_id)) [
  | inl hit ↦ (x, inl refl, sym (==→eq a x.mutation_id hit))
  | inr miss ↦ (let (m, k, e) = In-member a xs (rw miss at h) in (m, inr k, e))
]

clash :
    (x : SyncMutation) (ys : List SyncMutation) (c : SyncMutation)
    → All (λ y. (y.mutation_id == x.mutation_id) ≡ false) ys
    → In c ys
    → c.mutation_id ≡ x.mutation_id
    → ⊥
clash x [] c others h same = absurd h
clash x (y ∷ ys) c others (inl ec) same =
    ground (arith, others.0, subst (λ z. z.mutation_id ≡ x.mutation_id) ec same)
clash x (y ∷ ys) c others (inr h) same = clash x ys c others.1 h same

-- Two mutations of a batch without repeated ids are the same if their ids are.
pub distinct-eq :
    (ms : List SyncMutation) (a b : SyncMutation)
    → IsDistinct ms
    → In a ms
    → In b ms
    → a.mutation_id ≡ b.mutation_id
    → a ≡ b
distinct-eq [] a b d ha hb e = absurd ha
distinct-eq (x ∷ xs) a b d (inl ea) (inl eb) e = ea ∙ sym eb
distinct-eq (x ∷ xs) a b d (inl ea) (inr hb) e =
    absurd (clash x xs b d.0 hb (sym (subst (λ y. y.mutation_id ≡ b.mutation_id) ea e)))
distinct-eq (x ∷ xs) a b d (inr ha) (inl eb) e =
    absurd (clash x xs a d.0 ha (subst (λ y. a.mutation_id ≡ y.mutation_id) eb e))
distinct-eq (x ∷ xs) a b d (inr ha) (inr hb) e = distinct-eq xs a b d.1 ha hb e

module _ (batch : List SyncMutation) where
  pub Ancestor-trans :
      {a b c : SyncMutation} → Ancestor batch a b → Ancestor batch b c → Ancestor batch a c
  Ancestor-trans h itself = h
  Ancestor-trans h (up k e) = up (Ancestor-trans h k) e

  -- A chain by its first step.
  chain-head :
      {b m : SyncMutation}
      → Ancestor batch b m
      → (b ≡ m) ⊎ ((q : SyncMutation) × (parent_of batch b ≡ some q) × Ancestor batch q m)
  chain-head itself = inl refl
  chain-head {b} (up {a} {p} h e) = elim (chain-head h) [
    | inl same ↦ inr (p, subst (λ y. parent_of batch y ≡ some p) (sym same) e, itself)
    | inr (q, f, k) ↦ inr (q, f, up k e)
  ]

  -- On a cycle the chain comes back from wherever it has come.
  pub cycle-back : {m c : SyncMutation} → IsCyclic batch m → Ancestor batch m c → Ancestor batch c m
  cycle-back cyclic itself = itself
  cycle-back {m} cyclic (up {a} {p} h e) = elim (chain-head (cycle-back cyclic h)) [
    | inl same ↦
        subst (λ y. Ancestor batch y m)
          (some_injective (sym (cyclic.1) ∙ subst (λ y. parent_of batch y ≡ some p) same e))
          (cyclic.2)
    | inr (q, f, k) ↦ subst (λ y. Ancestor batch y m) (some_injective (sym f ∙ e)) k
  ]

  pub In-parent : {m p : SyncMutation} → In m batch → Ancestor batch m p → In p batch
  In-parent h itself = h
  In-parent h (up {a} {p} k e) = parent_of-In batch a p e

  -- A linked path, with one more mutation, and its chains.
  pub Linked-append_one :
      (xs : List SyncMutation) (m : SyncMutation)
      → Linked batch xs (some m)
      → Linked batch (xs ++ m ∷ []) (parent_of batch m)
  Linked-append_one [] m l = (refl, tt)
  Linked-append_one (x ∷ []) m l = (l.0, (refl, tt))
  Linked-append_one (x ∷ y ∷ ys) m l = (l.0, Linked-append_one (y ∷ ys) m l.1)

  -- From each mutation of a linked path, the parent's chain comes to the mutation at its end.
  pub Linked-end :
      (xs : List SyncMutation) (c m : SyncMutation)
      → Linked batch xs (some c)
      → In m xs
      → (p : SyncMutation) × (parent_of batch m ≡ some p) × Ancestor batch p c
  Linked-end [] c m l h = absurd h
  Linked-end (x ∷ []) c m l (inl e) =
      (c, subst (λ y. parent_of batch y ≡ some c) (sym e) l.0, itself)
  Linked-end (x ∷ []) c m l (inr h) = absurd h
  Linked-end (x ∷ y ∷ ys) c m l (inl e) =
      let (p, f, k) = Linked-end (y ∷ ys) c y l.1 (inl refl) in
      (y, subst (λ z. parent_of batch z ≡ some y) (sym e) l.0, from_first f k)
    where
      from_first :
          {p : SyncMutation} → parent_of batch y ≡ some p → Ancestor batch p c → Ancestor batch y c
      from_first f k = Ancestor-trans (up itself f) k
  Linked-end (x ∷ y ∷ ys) c m l (inr h) = Linked-end (y ∷ ys) c m l.1 h

  -- The first mutation of a linked path comes to each of the path.
  pub Linked-first :
      (x : SyncMutation) (xs : List SyncMutation) (o : Option SyncMutation) (m : SyncMutation)
      → Linked batch (x ∷ xs) o
      → In m (x ∷ xs)
      → Ancestor batch x m
  Linked-first x xs o m l (inl e) = subst (λ y. Ancestor batch x y) (sym e) itself
  Linked-first x [] o m l (inr h) = absurd h
  Linked-first x (y ∷ ys) o m l (inr h) =
      Ancestor-trans (up itself l.0) (Linked-first y ys o m l.1 h)

  -- A path that ends at a mutation without a parent is on no cycle.
  pub Linked-root :
      (xs : List SyncMutation) (m : SyncMutation)
      → Linked batch xs none
      → In m xs
      → IsCyclic batch m
      → ⊥
  Linked-root [] m l h cyclic = absurd h
  Linked-root (x ∷ []) m l (inl e) cyclic =
      cc (l.0, subst (λ y. parent_of batch y ≡ some cyclic.0) e cyclic.1)
  Linked-root (x ∷ []) m l (inr h) cyclic = absurd h
  Linked-root (x ∷ y ∷ ys) m l (inl e) cyclic =
      let on_x : IsCyclic batch x = subst (IsCyclic batch) e cyclic in
      Linked-root (y ∷ ys) y l.1 (inl refl)
        (step_cycle on_x (chain-head (cycle-back on_x (up itself l.0))))
    where
      step_cycle :
          IsCyclic batch x
          → (y ≡ x) ⊎ ((q : SyncMutation) × (parent_of batch y ≡ some q) × Ancestor batch q x)
          → IsCyclic batch y
      step_cycle on_x (inl same) = subst (IsCyclic batch) (sym same) on_x
      step_cycle on_x (inr (q, f, k)) = (q, f, up k l.0)
  Linked-root (x ∷ y ∷ ys) m l (inr h) cyclic = Linked-root (y ∷ ys) m l.1 h cyclic
