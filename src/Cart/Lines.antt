-- ===== src/Cart/Lines.antt =====
-- The lines of the cart of apps/mobile/src/features/pos/store/cart-store.ts.
use ayphen_retail_pos.Common.{
  ℕ, ◌≤◌, ◌≡◌, refl, ap, subst, ◌∙◌, Bool, false, inl, inr, none, some, List, [], ◌∷◌, ◌++◌, ◌==◌,
  ==→eq, if◌then◌else◌, find, All, All-append, arith, Bool-cases, some_injective, max_safe_integer,
}
use ayphen_retail_pos.Cart.{CartLine, NewLine, set_qty, without, first_unit}

abbrev pub put : ℕ → ℕ → (ℕ → ℕ) → ℕ → ℕ
put product n amount p = if product == p then n else amount p

-- The quantity of a product, 0 where the cart has none.
abbrev pub qty_of : List CartLine → ℕ → ℕ
qty_of [] p = 0
qty_of (l ∷ ls) p = if l.product_id == p then l.qty else qty_of ls p

abbrev pub IsCounted : CartLine → Type 0
IsCounted l = (1 ≤ l.qty) × (l.qty ≤ max_safe_integer)

abbrev pub IsDistinct : List CartLine → Type 0
IsDistinct [] = Unit
IsDistinct (l ∷ ls) =
    All (λ (x : CartLine). (x.product_id == l.product_id) ≡ false) ls × IsDistinct ls

All-set_qty :
    (product qty : ℕ) (P : ℕ → Type 0) (ls : List CartLine)
    → All (λ (x : CartLine). P x.product_id) ls
    → All (λ (x : CartLine). P x.product_id) (set_qty product qty ls)
unfolding set_qty
All-set_qty product qty P [] h = tt
All-set_qty product qty P (l ∷ ls) h = elim (Bool-cases (l.product_id == product)) [
  | inl same ↦ rw same (h.0, All-set_qty product qty P ls h.1)
  | inr other ↦ rw other (h.0, All-set_qty product qty P ls h.1)
]

pub set_qty-IsDistinct :
    (product qty : ℕ) (ls : List CartLine) → IsDistinct ls → IsDistinct (set_qty product qty ls)
unfolding set_qty
set_qty-IsDistinct product qty [] h = tt
set_qty-IsDistinct product qty (l ∷ ls) h =
    let rest = All-set_qty product qty (λ k. (k == l.product_id) ≡ false) ls h.0 in
    elim (Bool-cases (l.product_id == product)) [
      | inl same ↦ rw same (rest, set_qty-IsDistinct product qty ls h.1)
      | inr other ↦ rw other (rest, set_qty-IsDistinct product qty ls h.1)
    ]

pub set_qty-IsCounted :
    (product qty : ℕ) (ls : List CartLine)
    → (1 ≤ qty) × (qty ≤ max_safe_integer)
    → All IsCounted ls
    → All IsCounted (set_qty product qty ls)
unfolding set_qty
set_qty-IsCounted product qty [] q h = tt
set_qty-IsCounted product qty (l ∷ ls) q h = elim (Bool-cases (l.product_id == product)) [
  | inl same ↦ rw same (q, set_qty-IsCounted product qty ls q h.1)
  | inr other ↦ rw other (h.0, set_qty-IsCounted product qty ls q h.1)
]

pub qty_of-set_qty :
    (product qty : ℕ) (ls : List CartLine) (p : ℕ)
    → All IsCounted ls
    → qty_of (set_qty product qty ls) p
      ≡ put product (if qty_of ls product == 0 then 0 else qty) (qty_of ls) p
unfolding set_qty
qty_of-set_qty product qty [] p h = elim (Bool-cases (product == p)) [
  | inl same ↦ rw same refl
  | inr other ↦ rw other refl
]
qty_of-set_qty product qty (l ∷ ls) p h =
    let rest = qty_of-set_qty product qty ls p h.1 in
    elim (Bool-cases (l.product_id == product)) [
      | inl same ↦
          let present : (l.qty == 0) ≡ false = ground (arith, h.0) in
          let here = ==→eq l.product_id product same in
          rw same (elim (Bool-cases (product == p)) [
            | inl asked ↦ rw (here, asked, present) refl
            | inr elsewhere ↦ rw (here, elsewhere) (rest ∙ rw elsewhere refl)
          ])
      | inr other ↦ rw other (elim (Bool-cases (l.product_id == p)) [
        | inr elsewhere ↦ rw elsewhere rest
        | inl asked ↦
            let apart : (product == p) ≡ false = ground (arith, other, asked) in
            rw (asked, apart) refl
      ])
    ]

pub without-All :
    (product : ℕ) (P : CartLine → Type 0) (ls : List CartLine)
    → All P ls
    → All P (without product ls)
unfolding without
without-All product P [] h = tt
without-All product P (l ∷ ls) h = elim (Bool-cases (l.product_id == product)) [
  | inl same ↦ rw same (without-All product P ls h.1)
  | inr other ↦ rw other (h.0, without-All product P ls h.1)
]

pub without-IsDistinct :
    (product : ℕ) (ls : List CartLine) → IsDistinct ls → IsDistinct (without product ls)
unfolding without
without-IsDistinct product [] h = tt
without-IsDistinct product (l ∷ ls) h = elim (Bool-cases (l.product_id == product)) [
  | inl same ↦ rw same (without-IsDistinct product ls h.1)
  | inr other ↦ rw other (
    without-All product (λ (x : CartLine). (x.product_id == l.product_id) ≡ false) ls h.0,
    without-IsDistinct product ls h.1,
  )
]

pub qty_of-without :
    (product : ℕ) (ls : List CartLine) (p : ℕ)
    → qty_of (without product ls) p ≡ put product 0 (qty_of ls) p
unfolding without
qty_of-without product [] p = elim (Bool-cases (product == p)) [
  | inl same ↦ rw same refl
  | inr other ↦ rw other refl
]
qty_of-without product (l ∷ ls) p =
    let rest = qty_of-without product ls p in
    elim (Bool-cases (l.product_id == product)) [
      | inl same ↦
          let here = ==→eq l.product_id product same in
          rw same (elim (Bool-cases (product == p)) [
            | inl asked ↦ rest ∙ rw asked refl
            | inr elsewhere ↦ rw here (rest ∙ rw elsewhere refl)
          ])
      | inr other ↦ rw other (elim (Bool-cases (l.product_id == p)) [
        | inr elsewhere ↦ rw elsewhere rest
        | inl asked ↦
            let apart : (product == p) ≡ false = ground (arith, other, asked) in
            rw (asked, apart) refl
      ])
    ]

abbrev pub is_line : ℕ → CartLine → Bool
is_line product l = l.product_id == product

pub qty_of-found :
    (product : ℕ) (ls : List CartLine) (l : CartLine)
    → find (is_line product) ls ≡ some l
    → All IsCounted ls
    → (qty_of ls product ≡ l.qty) × (1 ≤ l.qty)
qty_of-found product [] l found h = cc
qty_of-found product (x ∷ xs) l found h = elim (Bool-cases (x.product_id == product)) [
  | inl same ↦
      let this = some_injective (rw same at found) in
      rw same (ap (λ (y : CartLine). y.qty) this, subst (λ (y : CartLine). 1 ≤ y.qty) this (h.0).0)
  | inr other ↦ rw other (qty_of-found product xs l (rw other at found) h.1)
]

pub qty_of-missing :
    (product : ℕ) (ls : List CartLine)
    → find (is_line product) ls ≡ none
    → (qty_of ls product ≡ 0) × All (λ (x : CartLine). (x.product_id == product) ≡ false) ls
qty_of-missing product [] missing = (refl, tt)
qty_of-missing product (x ∷ xs) missing = elim (Bool-cases (x.product_id == product)) [
  | inl same ↦ cc (rw same at missing)
  | inr other ↦
      let rest = qty_of-missing product xs (rw other at missing) in
      rw other (rest.0, (refl, rest.1))
]

module _ (n : NewLine) where
  pub qty_of-append :
      (ls : List CartLine) (p : ℕ)
      → All (λ (x : CartLine). (x.product_id == n.product_id) ≡ false) ls
      → qty_of (ls ++ first_unit n ∷ []) p ≡ put n.product_id 1 (qty_of ls) p
  qty_of-append [] p h = refl
  qty_of-append (x ∷ xs) p h = elim (Bool-cases (x.product_id == p)) [
    | inl asked ↦
        let apart : (n.product_id == p) ≡ false = ground (arith, h.0, asked) in
        rw (asked, apart) refl
    | inr elsewhere ↦ rw elsewhere (qty_of-append xs p h.1)
  ]

  pub append-IsDistinct :
      (ls : List CartLine)
      → All (λ (x : CartLine). (x.product_id == n.product_id) ≡ false) ls
      → IsDistinct ls
      → IsDistinct (ls ++ first_unit n ∷ [])
  append-IsDistinct [] h d = (tt, tt)
  append-IsDistinct (x ∷ xs) h d =
      let turned : (n.product_id == x.product_id) ≡ false = ground (arith, h.0) in
      (
        All-append (λ (y : CartLine). (y.product_id == x.product_id) ≡ false) xs (first_unit n ∷ [])
            d.0 (turned, tt),
        append-IsDistinct xs h.1 d.1,
      )
