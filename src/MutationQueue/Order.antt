-- ===== src/MutationQueue/Order.antt =====
-- The drain order of apps/mobile/src/core/sync/repositories/mutation-queue.repository.ts:
-- `takeDrainable` takes the first pending rows of the store by priority, then by age.
use ayphen_retail_pos.Common.{
  ℕ, zero, suc, ◌≤◌, ◌<◌, ◌≡◌, refl, sym, subst, Bool, true, false, ◌⊎◌, inl, inr, List, [], ◌∷◌,
  ◌++◌, filter, take, length, length-take-le, All, arith, Bool-cases, ==→eq, &&-true,
}
use mathlib.Core.List.{Perm}
use mathlib.Core.List.Perm
use ayphen_retail_pos.SyncDb.{QueueRow, pending}
use ayphen_retail_pos.MutationQueue.{
  precedes, insert_row, sort_rows, is_drainable, is_pending, take_drainable,
}

-- A row before which nothing of the list has to go.
abbrev pub Before : QueueRow → QueueRow → Type 0
Before a b = (b.priority < a.priority) ⊎ ((a.priority ≡ b.priority) × (a.created_at ≤ b.created_at))

abbrev pub IsOrdered : List QueueRow → Type 0
IsOrdered [] = Unit
IsOrdered (r ∷ rs) = All (Before r) rs × IsOrdered rs

All-map :
    (P Q : QueueRow → Type 0) (rs : List QueueRow)
    → ((r : QueueRow) → P r → Q r)
    → All P rs
    → All Q rs
All-map P Q [] f h = h
All-map P Q (r ∷ rs) f h = (f r h.0, All-map P Q rs f h.1)

Before-trans : (a b c : QueueRow) → Before a b → Before b c → Before a c
Before-trans a b c p q = omega arith

Before-total : (a b : QueueRow) → precedes a b ≡ false → Before b a
Before-total a b h = ground arith

Before-of : (a b : QueueRow) → precedes a b ≡ true → Before a b
Before-of a b h = ground arith

pub All-insert_row :
    (P : QueueRow → Type 0) (r : QueueRow) (rs : List QueueRow)
    → P r
    → All P rs
    → All P (insert_row r rs)
unfolding insert_row
All-insert_row P r [] p h = (p, tt)
All-insert_row P r (s ∷ ss) p h = elim (Bool-cases (precedes r s)) [
  | inl first ↦ rw first (p, h)
  | inr later ↦ rw later (h.0, All-insert_row P r ss p h.1)
]

insert_row-IsOrdered :
    (r : QueueRow) (rs : List QueueRow) → IsOrdered rs → IsOrdered (insert_row r rs)
unfolding insert_row
insert_row-IsOrdered r [] h = (tt, tt)
insert_row-IsOrdered r (s ∷ ss) h = elim (Bool-cases (precedes r s)) [
  | inl first ↦ rw first (
    (
      Before-of r s first,
      All-map (Before s) (Before r) ss (λ t. Before-trans r s t (Before-of r s first)) h.0,
    ),
    h,
  )
  | inr later ↦
      rw later
        (All-insert_row (Before s) r ss (Before-total r s later) h.0, insert_row-IsOrdered r ss h.1)
]

sort_rows-IsOrdered : (rs : List QueueRow) → IsOrdered (sort_rows rs)
unfolding sort_rows
sort_rows-IsOrdered [] = tt
sort_rows-IsOrdered (r ∷ rs) = insert_row-IsOrdered r (sort_rows rs) (sort_rows-IsOrdered rs)

pub All-sort_rows : (P : QueueRow → Type 0) (rs : List QueueRow) → All P rs → All P (sort_rows rs)
unfolding sort_rows
All-sort_rows P [] h = h
All-sort_rows P (r ∷ rs) h = All-insert_row P r (sort_rows rs) h.0 (All-sort_rows P rs h.1)

pub All-filter :
    (P : QueueRow → Type 0) (p : QueueRow → Bool) (rs : List QueueRow)
    → ((r : QueueRow) → p r ≡ true → P r)
    → All P (filter p rs)
All-filter P p [] f = tt
All-filter P p (r ∷ rs) f = elim (Bool-cases (p r)) [
  | inl kept ↦ rw kept (f r kept, All-filter P p rs f)
  | inr dropped ↦ rw dropped (All-filter P p rs f)
]

pub All-take : (P : QueueRow → Type 0) (n : ℕ) (rs : List QueueRow) → All P rs → All P (take n rs)
All-take P zero rs h = tt
All-take P (suc n) [] h = tt
All-take P (suc n) (r ∷ rs) h = (h.0, All-take P n rs h.1)

-- What is left out goes behind everything that is taken.
drop : ℕ → List QueueRow → List QueueRow
drop zero rs = rs
drop (suc n) [] = []
drop (suc n) (r ∷ rs) = drop n rs

All-drop : (P : QueueRow → Type 0) (n : ℕ) (rs : List QueueRow) → All P rs → All P (drop n rs)
unfolding drop
All-drop P zero rs h = h
All-drop P (suc n) [] h = h
All-drop P (suc n) (r ∷ rs) h = All-drop P n rs h.1

take-Before-drop :
    (n : ℕ) (rs : List QueueRow) → IsOrdered rs → All (λ r. All (Before r) (drop n rs)) (take n rs)
unfolding drop
take-Before-drop zero rs h = tt
take-Before-drop (suc n) [] h = tt
take-Before-drop (suc n) (r ∷ rs) h = (All-drop (Before r) n rs h.0, take-Before-drop n rs h.1)

-- A row that `takeDrainable` may return.
abbrev pub IsDrainable : ℕ → QueueRow → Type 0
IsDrainable store r = (r.store_id ≡ store) × (r.status ≡ pending)

is_drainable-IsDrainable :
    (store : ℕ) (r : QueueRow) → is_drainable store r ≡ true → IsDrainable store r
is_drainable-IsDrainable store r h =
    (==→eq _ _ (&&-true _ _ h).0, is_pending_eq r (&&-true _ _ h).1)
  where
    is_pending_eq : (r : QueueRow) → is_pending r.status ≡ true → r.status ≡ pending
    is_pending_eq r e = ground arith

insert_row-perm : (r : QueueRow) (rs : List QueueRow) → Perm (insert_row r rs) (r ∷ rs)
unfolding insert_row
insert_row-perm r [] = Perm.refl _
insert_row-perm r (s ∷ ss) = elim (Bool-cases (precedes r s)) [
  | inl first ↦ rw first (Perm.refl _)
  | inr later ↦ rw later (Perm.trans (Perm.cons s (insert_row-perm r ss)) (Perm.swap r s ss))
]

sort_rows-perm : (rs : List QueueRow) → Perm (sort_rows rs) rs
unfolding sort_rows
sort_rows-perm [] = Perm.refl _
sort_rows-perm (r ∷ rs) =
    Perm.trans (insert_row-perm r (sort_rows rs)) (Perm.cons r (sort_rows-perm rs))

take-append-drop : (n : ℕ) (rs : List QueueRow) → take n rs ++ drop n rs ≡ rs
unfolding drop
take-append-drop zero rs = refl
take-append-drop (suc n) [] = refl
take-append-drop (suc n) (r ∷ rs) = rw (take-append-drop n rs)

IsOrdered-take : (n : ℕ) (rs : List QueueRow) → IsOrdered rs → IsOrdered (take n rs)
IsOrdered-take zero rs h = tt
IsOrdered-take (suc n) [] h = tt
IsOrdered-take (suc n) (r ∷ rs) h = (All-take (Before r) n rs h.0, IsOrdered-take n rs h.1)

-- What a drain picks from the queue: at most `limit` rows, all pending rows of the store, in the
-- drain order; with the rows left for later they are the pending rows of the store, and none of
-- those had to go before a picked one.
pub record IsPicked (store limit : ℕ) (q picked : List QueueRow) : Type 0 where
  pub left : List QueueRow
  pub bounded : length picked ≤ limit
  pub drainable : All (IsDrainable store) picked
  pub ordered : IsOrdered picked
  pub complete : Perm (picked ++ left) (filter (is_drainable store) q)
  pub first : All (λ r. All (Before r) left) picked

-- `takeDrainable` picks the first pending rows of the store, by priority and then by age.
pub take_drainable-IsPicked :
    (store limit : ℕ) (q : List QueueRow) → IsPicked store limit q (take_drainable store limit q)
unfolding take_drainable
take_drainable-IsPicked store limit q =
    let sorted = sort_rows (filter (is_drainable store) q) in
    record {
      left = drop limit sorted;
      bounded = length-take-le limit sorted;
      drainable = All-take (IsDrainable store) limit sorted (
          All-sort_rows (IsDrainable store) (filter (is_drainable store) q) (
            All-filter (IsDrainable store) (is_drainable store) q
              (is_drainable-IsDrainable store)));
      ordered = IsOrdered-take limit sorted (sort_rows-IsOrdered _);
      complete =
          subst (λ l. Perm l (filter (is_drainable store) q)) (sym (take-append-drop limit sorted))
            (sort_rows-perm _);
      first = take-Before-drop limit sorted (sort_rows-IsOrdered _);
    }
