-- ===== src/History/Rows.antt =====
-- Rows of a table and the ids that they carry and refer to (apps/backend/src/db/schema.ts).
use ayphen_retail_pos.Common.{ℕ, ◌≤◌, ◌<◌, ◌≡◌, List, [], ◌∷◌, ◌++◌, All, All-append, arith}

-- The rows whose key is below a bound.
abbrev pub Below : {A : Type 0} → (A → ℕ) → ℕ → List A → Type 0
Below key n xs = All (λ x. key x < n) xs

pub All-map {ℓ κ κ'} :
    {A : Type ℓ} (P : A → Type κ) (Q : A → Type κ') (xs : List A)
    → ((x : A) → P x → Q x)
    → All P xs
    → All Q xs
All-map P Q [] f h = tt
All-map P Q (x ∷ xs) f h = (f x h.0, All-map P Q xs f h.1)

-- A key below a bound that grows.
pub All-Below :
    {A : Type 0} (key : A → ℕ) (n m : ℕ) (xs : List A) → n ≤ m → Below key n xs → Below key m xs
All-Below key n m xs le h = All-map (λ x. key x < n) (λ x. key x < m) xs (λ x k. omega arith) h

pub All-both :
    {A : Type 0} (P Q : A → Type 0) (xs : List A) → All P xs → All Q xs → All (λ x. P x × Q x) xs
All-both P Q [] h k = tt
All-both P Q (x ∷ xs) h k = ((h.0, k.0), All-both P Q xs h.1 k.1)

pub append-Below :
    {A : Type 0} (key : A → ℕ) (n m : ℕ) (xs ys : List A)
    → n ≤ m
    → Below key n xs
    → Below key m ys
    → Below key m (xs ++ ys)
append-Below key n m xs ys le h k = All-append (λ x. key x < m) xs ys (All-Below key n m xs le h) k

-- Rows are known by their ids: a row with a new id joins those that are.
module _ {A : Type 0} (id : A → ℕ) where
  abbrev pub Knows : List A → A → Type 0
  Knows xs x = All (λ y. id y ≡ id x → y ≡ x) xs

  apart : (n : ℕ) (xs : List A) (x : A) → n ≤ id x → All (λ y. id y < n) xs → Knows xs x
  apart n [] x le h = tt
  apart n (y ∷ ys) x le h = (λ e. absurd (omega (arith, h.0, le, e)), apart n ys x le h.1)

  apart_after : (n : ℕ) (xs : List A) (x : A) → id x < n → All (λ y. n ≤ id y) xs → Knows xs x
  apart_after n [] x lt h = tt
  apart_after n (y ∷ ys) x lt h =
      (λ e. absurd (omega (arith, h.0, lt, e)), apart_after n ys x lt h.1)

  pub append-Knows :
      (n : ℕ) (xs ys : List A)
      → Below id n xs
      → All (λ y. n ≤ id y) ys
      → All (Knows xs) xs
      → All (Knows ys) ys
      → All (Knows (xs ++ ys)) (xs ++ ys)
  append-Knows n xs ys below above known known' =
      All-append (Knows (xs ++ ys)) xs ys (old xs below known) (new ys above known')
    where
      old : (zs : List A) → All (λ y. id y < n) zs → All (Knows xs) zs → All (Knows (xs ++ ys)) zs
      old [] h k = tt
      old (z ∷ zs) h k = (
        All-append (λ y. id y ≡ id z → y ≡ z) xs ys k.0 (apart_after n ys z h.0 above),
        old zs h.1 k.1,
      )

      new : (zs : List A) → All (λ y. n ≤ id y) zs → All (Knows ys) zs → All (Knows (xs ++ ys)) zs
      new [] h k = tt
      new (z ∷ zs) h k =
          (All-append (λ y. id y ≡ id z → y ≡ z) xs ys (apart n xs z h.0 below) k.0, new zs h.1 k.1)
