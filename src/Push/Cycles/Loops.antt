-- ===== src/Push/Cycles/Loops.antt =====
-- The paths of `findParentCycleMutationIds` of apps/backend/src/sync/push/delta.service.ts, and what is
-- captured of them.
use ayphen_retail_pos.Common.{
  ℕ, ◌<◌, ◌≡◌, refl, sym, subst, ◌∙◌, true, false, inl, inr, ◌⊎◌, Option, some, List, [], ◌∷◌, ◌++◌,
  ◌==◌, ==→eq, member, arith, Bool-cases, some_injective,
}
use ayphen_retail_pos.Push.{SyncMutation}
use ayphen_retail_pos.Push.Sort.{ids, parent_of}
use ayphen_retail_pos.Push.Sort.Measure.{In, remaining, remaining-lt}
use ayphen_retail_pos.Push.Sort.Visit.{Ancestor, itself, up}
use ayphen_retail_pos.Push.Cycles.{capture}
use ayphen_retail_pos.Push.Cycles.Chains.{Linked}

pub In-append_one :
    (m : SyncMutation) (xs : List SyncMutation) (x : SyncMutation)
    → In m (xs ++ x ∷ [])
    → In m xs ⊎ (m ≡ x)
In-append_one m [] x (inl e) = inr e
In-append_one m [] x (inr h) = absurd h
In-append_one m (y ∷ ys) x (inl e) = inl (inl e)
In-append_one m (y ∷ ys) x (inr h) = elim (In-append_one m ys x h) [
  | inl k ↦ inl (inr k)
  | inr e ↦ inr e
]

pub In-append_left : (m : SyncMutation) (xs ys : List SyncMutation) → In m xs → In m (xs ++ ys)
In-append_left m [] ys h = absurd h
In-append_left m (x ∷ xs) ys (inl e) = inl e
In-append_left m (x ∷ xs) ys (inr h) = inr (In-append_left m xs ys h)

pub In-last : (m : SyncMutation) (xs : List SyncMutation) → In m (xs ++ m ∷ [])
In-last m [] = inl refl
In-last m (x ∷ xs) = inr (In-last m xs)

pub ids-append_one :
    (xs : List SyncMutation) (m : SyncMutation) (a : ℕ)
    → member a (ids (xs ++ m ∷ [])) ≡ member a (m.mutation_id ∷ ids xs)
ids-append_one [] m a = refl
ids-append_one (x ∷ xs) m a = ground (arith, ids-append_one xs m a)

-- Only membership in the seen ids counts.
remaining-member :
    (seen seen' : List ℕ) (ms : List SyncMutation)
    → ((a : ℕ) → member a seen ≡ member a seen')
    → remaining seen ms ≡ remaining seen' ms
unfolding remaining
remaining-member seen seen' [] h = refl
remaining-member seen seen' (m ∷ ms) h =
    rw (h m.mutation_id) (ground (arith, remaining-member seen seen' ms h))

pub remaining-append_one :
    (m : SyncMutation) (path batch : List SyncMutation)
    → In m batch
    → member m.mutation_id (ids path) ≡ false
    → remaining (ids (path ++ m ∷ [])) batch < remaining (ids path) batch
remaining-append_one m path batch h new =
    rw
      (remaining-member (ids (path ++ m ∷ [])) (m.mutation_id ∷ ids path) batch
        (ids-append_one path m))
      (remaining-lt m (ids path) batch h new)

pub capture-In : (a : ℕ) (xs : List SyncMutation) (m : SyncMutation) → In m (capture a xs) → In m xs
unfolding capture
capture-In a [] m h = h
capture-In a (x ∷ xs) m h = elim (Bool-cases (x.mutation_id == a)) [
  | inl hit ↦ rw hit at h
  | inr miss ↦ inr (capture-In a xs m (rw miss at h))
]

-- What is captured starts at a mutation of the id.
pub capture-first :
    (a : ℕ) (xs : List SyncMutation)
    → member a (ids xs) ≡ true
    → (r : SyncMutation) × (rs : List SyncMutation) × (capture a xs ≡ r ∷ rs) × (r.mutation_id ≡ a)
unfolding capture
capture-first a [] h = cc h
capture-first a (x ∷ xs) h = elim (Bool-cases (x.mutation_id == a)) [
  | inl hit ↦ (x, xs, rw hit refl, ==→eq x.mutation_id a hit)
  | inr miss ↦ rw miss (capture-first a xs (ground (arith, h, miss)))
]

module _ (batch : List SyncMutation) where
  pub capture-Linked :
      (a : ℕ) (xs : List SyncMutation) (o : Option SyncMutation)
      → Linked batch xs o
      → Linked batch (capture a xs) o
  unfolding capture
  capture-Linked a [] o l = tt
  capture-Linked a (x ∷ xs) o l = elim (Bool-cases (x.mutation_id == a)) [
    | inl hit ↦ rw hit l
    | inr miss ↦ rw miss (capture-Linked a xs o l.1)
  ]

  -- In a linked path a parent is in the path or at its end.
  pub loop-parent :
      (xs : List SyncMutation) (o : Option SyncMutation) (m p : SyncMutation)
      → Linked batch xs o
      → In m xs
      → parent_of batch m ≡ some p
      → In p xs ⊎ (o ≡ some p)
  loop-parent [] o m p l h e = absurd h
  loop-parent (x ∷ []) o m p l (inl s) e =
      inr (sym (subst (λ y. parent_of batch y ≡ o) (sym s) l.0) ∙ e)
  loop-parent (x ∷ []) o m p l (inr h) e = absurd h
  loop-parent (x ∷ y ∷ ys) o m p l (inl s) e =
      inl (inr (inl (some_injective (sym e ∙ subst (λ z. parent_of batch z ≡ some y) (sym s) l.0))))
  loop-parent (x ∷ y ∷ ys) o m p l (inr h) e = elim (loop-parent (y ∷ ys) o m p l.1 h e) [
    | inl k ↦ inl (inr k)
    | inr s ↦ inr s
  ]

  -- A path that comes back to its first mutation holds the chains of its mutations.
  pub loop-closed :
      (r : SyncMutation) (rs : List SyncMutation) (m p : SyncMutation)
      → Linked batch (r ∷ rs) (some r)
      → In m (r ∷ rs)
      → Ancestor batch m p
      → In p (r ∷ rs)
  loop-closed r rs m p l h itself = h
  loop-closed r rs m p l h (up {a} k e) =
      elim (loop-parent (r ∷ rs) (some r) a p l (loop-closed r rs m a l h k) e) [
        | inl i ↦ i
        | inr s ↦ inl (some_injective (sym s))
      ]
