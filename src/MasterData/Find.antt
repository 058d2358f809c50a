-- ===== src/MasterData/Find.antt =====
-- `find` on the rows of apps/backend/src/sync/push/master-data.handler.ts.
use ayphen_retail_pos.Common.{
  ◌≡◌, refl, subst, Bool, true, false, inl, inr, none, some, List, [], ◌∷◌, find, All, Bool-cases,
  some_injective,
}

module _ {A : Type 0} (p : A → Bool) where
  pub find-none : (xs : List A) → All (λ x. p x ≡ false) xs → find p xs ≡ none
  find-none [] h = refl
  find-none (x ∷ xs) h = rw h.0 (find-none xs h.1)

  pub none-All : (xs : List A) → find p xs ≡ none → All (λ x. p x ≡ false) xs
  none-All [] h = tt
  none-All (x ∷ xs) h = elim (Bool-cases (p x)) [
    | inl hit ↦ cc (rw hit at h)
    | inr miss ↦ (miss, none-All xs (rw miss at h))
  ]

  pub find-true : (xs : List A) (a : A) → find p xs ≡ some a → p a ≡ true
  find-true [] a h = cc h
  find-true (x ∷ xs) a h = elim (Bool-cases (p x)) [
    | inl hit ↦ subst (λ y. p y ≡ true) (some_injective (rw hit at h)) hit
    | inr miss ↦ find-true xs a (rw miss at h)
  ]

  pub find-All {κ} : (P : A → Type κ) (xs : List A) (a : A) → All P xs → find p xs ≡ some a → P a
  find-All P [] a h e = cc e
  find-All P (x ∷ xs) a h e = elim (Bool-cases (p x)) [
    | inl hit ↦ subst P (some_injective (rw hit at e)) h.0
    | inr miss ↦ find-All P xs a h.1 (rw miss at e)
  ]
