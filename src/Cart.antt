-- ===== src/Cart.antt =====
-- The cart of a sale in progress, apps/mobile/src/features/pos/store/cart-store.ts. An action is a constructor, and `reduce` is its body. The persistence is left out.
pub mod Lines
pub mod Refines
mod Tests
use ayphen_retail_pos.Common.{
  ℕ, ◌+◌, ◌*◌, Bool, true, false, ◌||◌, not, Option, none, some, List, [], ◌∷◌, ◌++◌, ◌==◌,
  if◌then◌else◌, filter, find, sum_by, is_safe_integer,
}

pub record CartLine : Type 0 where
  pub product_id : ℕ
  pub product_guuid : ℕ
  pub name : ℕ
  pub unit_price_paise : ℕ
  pub qty : ℕ

-- What `addProduct` takes, `Omit<CartLine, 'qty'>`.
pub record NewLine : Type 0 where
  pub product_id : ℕ
  pub product_guuid : ℕ
  pub name : ℕ
  pub unit_price_paise : ℕ

-- A JavaScript number as a quantity: a natural number, or a negative, fractional or infinite one.
pub data Quantity : Type 0 where
  count : ℕ → Quantity
  uncountable : Quantity

pub record PosCartState : Type 0 where
  pub store_id : Option ℕ
  pub lines : List CartLine
  pub selected_customer : Option ℕ

pub data CartAction : Type 0 where
  bind_store : ℕ → CartAction
  add_product : NewLine → CartAction
  change_qty : ℕ → Quantity → CartAction
  remove_line : ℕ → CartAction
  set_selected_customer : Option ℕ → CartAction
  clear : CartAction

abbrev pub initial : PosCartState
initial = record { store_id = none; lines = []; selected_customer = none }

abbrev pub is_bound : ℕ → Option ℕ → Bool
is_bound store none = false
is_bound store (some s) = s == store

-- `lines.map((l) => (l.productId === productId ? { ...l, qty } : l))`
unfoldable pub set_qty : ℕ → ℕ → List CartLine → List CartLine
set_qty product qty [] = []
set_qty product qty (l ∷ ls) =
    (if l.product_id == product then record l { qty = qty } else l) ∷ set_qty product qty ls

-- `lines.filter((l) => l.productId !== productId)`
unfoldable pub without : ℕ → List CartLine → List CartLine
without product ls = filter (λ (l : CartLine). not (l.product_id == product)) ls

abbrev pub first_unit : NewLine → CartLine
first_unit n = record {
  product_id = n.product_id;
  product_guuid = n.product_guuid;
  name = n.name;
  unit_price_paise = n.unit_price_paise;
  qty = 1;
}

-- `addProduct`
unfoldable pub add_line : NewLine → List CartLine → List CartLine
add_line n ls = elim (find (λ (l : CartLine). l.product_id == n.product_id) ls) [
  | some existing ↦
      if not (is_safe_integer (existing.qty + 1))
      then ls
      else set_qty n.product_id (existing.qty + 1) ls
  | none ↦ ls ++ first_unit n ∷ []
]

-- `changeQty`
unfoldable pub change_line : ℕ → Quantity → List CartLine → List CartLine
change_line product uncountable ls = without product ls
change_line product (count qty) ls =
    if not (is_safe_integer qty) || qty == 0 then without product ls else set_qty product qty ls

unfoldable pub reduce : CartAction → PosCartState → PosCartState
reduce (bind_store store) s =
    if is_bound store s.store_id
    then s
    else record { store_id = some store; lines = []; selected_customer = none }
reduce (add_product n) s = record s { lines = add_line n s.lines }
reduce (change_qty product qty) s = record s { lines = change_line product qty s.lines }
reduce (remove_line product) s = record s { lines = without product s.lines }
reduce (set_selected_customer customer) s = record s { selected_customer = customer }
reduce clear s = record s { lines = []; selected_customer = none }

unfoldable pub reduce_all : List CartAction → PosCartState → PosCartState
reduce_all [] s = s
reduce_all (a ∷ rest) s = reduce_all rest (reduce a s)
