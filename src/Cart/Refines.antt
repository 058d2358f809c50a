-- ===== src/Cart/Refines.antt =====
-- The cart of apps/mobile/src/features/pos/store/cart-store.ts as a map from products to quantities.
use ayphen_retail_pos.Common.{
  ℕ, ◌+◌, ◌≤◌, ◌≡◌, refl, subst, true, false, inl, inr, Option, none, some, List, [], ◌∷◌, ◌==◌,
  if◌then◌else◌, find, All, All-append, arith, Bool-cases, Option-cases, max_safe_integer,
  is_safe_integer,
}
use mathlib.Core.Path.{fun_ext}
use ayphen_retail_pos.Cart.{
  CartLine, NewLine, Quantity, count, uncountable, PosCartState, CartAction, bind_store,
  add_product, change_qty, remove_line, set_selected_customer, clear, initial, is_bound, set_qty,
  without, first_unit, add_line, change_line, reduce, reduce_all,
}
use ayphen_retail_pos.Cart.Lines.{
  put, qty_of, IsCounted, IsDistinct, set_qty-IsDistinct, set_qty-IsCounted, qty_of-set_qty,
  without-All, without-IsDistinct, qty_of-without, is_line, qty_of-found, qty_of-missing,
  qty_of-append, append-IsDistinct,
}

-- The abstract cart: its store, and how much of each product.
pub record Basket : Type 0 where
  pub store : Option ℕ
  pub amount : ℕ → ℕ

abbrev pub changed : Quantity → ℕ → ℕ
changed uncountable old = 0
changed (count n) old = if is_safe_integer n then (if old == 0 then 0 else n) else 0

abbrev pub added : ℕ → (ℕ → ℕ) → ℕ → ℕ
added product old =
    if is_safe_integer (old product + 1) then put product (old product + 1) old else old

-- What an action means for the basket.
abbrev pub act : CartAction → Basket → Basket
act (bind_store store) b =
    if is_bound store b.store then b else record { store = some store; amount = λ _. 0 }
act (add_product n) b = record b { amount = added n.product_id b.amount }
act (change_qty product n) b = record b {
  amount = put product (changed n (b.amount product)) b.amount;
}
act (remove_line product) b = record b { amount = put product 0 b.amount }
act (set_selected_customer customer) b = b
act clear b = record b { amount = λ _. 0 }

abbrev pub act_all : List CartAction → Basket → Basket
act_all [] b = b
act_all (a ∷ rest) b = act_all rest (act a b)

-- A cart and the basket that it stands for.
pub record Shows (b : Basket) (s : PosCartState) : Type 0 where
  pub distinct : IsDistinct s.lines
  pub counted : All IsCounted s.lines
  pub same_store : s.store_id ≡ b.store
  pub same_amounts : (p : ℕ) → qty_of s.lines p ≡ b.amount p

-- What an operation on the lines has to make of them.
record Makes (amount : ℕ → ℕ) (ls : List CartLine) : Type 0 where
  distinct : IsDistinct ls
  counted : All IsCounted ls
  amounts : (p : ℕ) → qty_of ls p ≡ amount p

module _ (ls : List CartLine) (d : IsDistinct ls) (h : All IsCounted ls) where
  without-Makes : (product : ℕ) → Makes (put product 0 (qty_of ls)) (without product ls)
  without-Makes product = record {
    distinct = without-IsDistinct product ls d;
    counted = without-All product IsCounted ls h;
    amounts = qty_of-without product ls;
  }

  set_qty-Makes :
      (product n : ℕ)
      → (1 ≤ n) × (n ≤ max_safe_integer)
      → Makes
          (put product (if qty_of ls product == 0 then 0 else n) (qty_of ls))
          (set_qty product n ls)
  set_qty-Makes product n q = record {
    distinct = set_qty-IsDistinct product n ls d;
    counted = set_qty-IsCounted product n ls q h;
    amounts = λ p. qty_of-set_qty product n ls p h;
  }

  change_line-Makes :
      (product : ℕ) (n : Quantity)
      → Makes (put product (changed n (qty_of ls product)) (qty_of ls)) (change_line product n ls)
  unfolding change_line
  change_line-Makes product uncountable = without-Makes product
  change_line-Makes product (count n) = elim (Bool-cases (is_safe_integer n)) [
    | inr unsafe ↦ rw unsafe (without-Makes product)
    | inl safe ↦ rw safe (elim (Bool-cases (n == 0)) [
      | inl zero_qty ↦
          let gone : (if qty_of ls product == 0 then 0 else n) ≡ 0 = ground (arith, zero_qty) in
          rw (zero_qty, gone) (without-Makes product)
      | inr some_qty ↦
          rw some_qty (set_qty-Makes product n (ground (arith, some_qty), ground (arith, safe)))
    ])
  ]

  add_line-Makes : (n : NewLine) → Makes (added n.product_id (qty_of ls)) (add_line n ls)
  unfolding add_line
  add_line-Makes n = elim (Option-cases (find (is_line n.product_id) ls)) [
    | inl missing ↦
        let m = qty_of-missing n.product_id ls missing in
        rw (missing, add_line)
          (rw (m.0) (record {
            distinct = append-IsDistinct n ls m.1 d;
            counted =
                All-append IsCounted ls (first_unit n ∷ []) h ((ground arith, ground arith), tt);
            amounts = λ p. qty_of-append n ls p m.1;
          }))
    | inr (l, found) ↦
        let f = qty_of-found n.product_id ls l found h in
        rw (found, add_line)
          (rw (f.0) (elim (Bool-cases (is_safe_integer (l.qty + 1))) [
            | inr full ↦ rw full (record { distinct = d; counted = h; amounts = λ p. refl })
            | inl room ↦
                let present : (l.qty == 0) ≡ false = ground (arith, f.1) in
                rw room (
                  rw present at (
                    rw (f.0) at (
                      set_qty-Makes n.product_id (l.qty + 1)
                        (ground (arith), ground (arith, room)))))
          ]))
  ]

Makes-Shows :
    (f : (ℕ → ℕ) → ℕ → ℕ) (b : Basket) (s : PosCartState) (ls : List CartLine)
    → Shows b s
    → Makes (f (qty_of s.lines)) ls
    → Shows (record b { amount = f b.amount }) (record s { lines = ls })
Makes-Shows f b s ls h m = record {
  distinct = m.distinct;
  counted = m.counted;
  same_store = h.same_store;
  same_amounts =
      subst (λ old. (p : ℕ) → qty_of ls p ≡ f old p) (fun_ext (h.same_amounts)) (m.amounts);
}

reduce-Shows :
    (a : CartAction) (b : Basket) (s : PosCartState) → Shows b s → Shows (act a b) (reduce a s)
unfolding reduce
reduce-Shows (bind_store store) b s h = elim (Bool-cases (is_bound store s.store_id)) [
  | inl bound ↦
      let bound' : is_bound store b.store ≡ true =
        subst (λ o. is_bound store o ≡ true) (h.same_store) bound in
      rw (bound, bound') h
  | inr unbound ↦
      let unbound' : is_bound store b.store ≡ false =
        subst (λ o. is_bound store o ≡ false) (h.same_store) unbound in
      rw (unbound, unbound')
        (record { distinct = tt; counted = tt; same_store = refl; same_amounts = λ p. refl })
]
reduce-Shows (add_product n) b s h =
    Makes-Shows (added n.product_id) b s (add_line n s.lines) h
      (add_line-Makes s.lines (h.distinct) (h.counted) n)
reduce-Shows (change_qty product n) b s h =
    Makes-Shows (λ old. put product (changed n (old product)) old) b s
      (change_line product n s.lines) h
      (change_line-Makes s.lines (h.distinct) (h.counted) product n)
reduce-Shows (remove_line product) b s h =
    Makes-Shows (put product 0) b s (without product s.lines) h
      (without-Makes s.lines (h.distinct) (h.counted) product)
reduce-Shows (set_selected_customer customer) b s h = record {
  distinct = h.distinct;
  counted = h.counted;
  same_store = h.same_store;
  same_amounts = h.same_amounts;
}
reduce-Shows clear b s h = record {
  distinct = tt;
  counted = tt;
  same_store = h.same_store;
  same_amounts = λ p. refl;
}

reduce_all-Shows :
    (actions : List CartAction) (b : Basket) (s : PosCartState)
    → Shows b s
    → Shows (act_all actions b) (reduce_all actions s)
unfolding reduce_all
reduce_all-Shows [] b s h = h
reduce_all-Shows (a ∷ rest) b s h =
    reduce_all-Shows rest (act a b) (reduce a s) (reduce-Shows a b s h)

-- Whatever actions a new cart has seen, its lines have distinct products, each with a quantity from 1 to
-- the greatest safe integer, and the cart is that of the basket: the store of the last binding, and of
-- each product what the actions since the store changed come to.
pub reduce_all-initial :
    (actions : List CartAction)
    → Shows
        (act_all actions (record { store = none; amount = λ _. 0 }))
        (reduce_all actions initial)
reduce_all-initial actions =
    reduce_all-Shows actions (record { store = none; amount = λ _. 0 }) initial
      (record { distinct = tt; counted = tt; same_store = refl; same_amounts = λ p. refl })
