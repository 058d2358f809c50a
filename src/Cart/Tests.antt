-- ===== src/Cart/Tests.antt =====
-- Tests of the cart.
use ayphen_retail_pos.Common.{◌≡◌, refl, none, some, List, [], ◌∷◌}
use ayphen_retail_pos.Cart.{
  NewLine, count, uncountable, PosCartState, CartAction, bind_store, add_product, change_qty,
  set_selected_customer, initial, set_qty, without, first_unit, add_line, change_line, reduce,
  reduce_all,
}
use ayphen_retail_pos.Cart.Refines.{act_all, Shows, reduce_all-initial}

abbrev tea : NewLine
tea = record { product_id = 1; product_guuid = 101; name = 7; unit_price_paise = 2500 }

abbrev rice : NewLine
rice = record { product_id = 2; product_guuid = 102; name = 8; unit_price_paise = 9000 }

abbrev rung : List CartAction
rung =
    bind_store 5
    ∷ add_product tea
    ∷ add_product rice
    ∷ add_product tea
    ∷ change_qty 2 (count 4)
    ∷ set_selected_customer (some 3)
    ∷ []

abbrev rung_up : PosCartState
rung_up = record {
  store_id = some 5;
  lines = record (first_unit tea) { qty = 2 } ∷ record (first_unit rice) { qty = 4 } ∷ [];
  selected_customer = some 3;
}

rung_lem : reduce_all rung initial ≡ rung_up
unfolding reduce_all reduce add_line change_line set_qty
rung_lem = refl

-- An impossible quantity removes the line, and another store empties the cart.
removed : change_line 1 uncountable rung_up.lines ≡ record (first_unit rice) { qty = 4 } ∷ []
unfolding change_line without
removed = refl

rebound :
    reduce (bind_store 6) rung_up
    ≡ record { store_id = some 6; lines = []; selected_customer = none }
unfolding reduce
rebound = refl

reduce_all-initial_example :
    Shows (act_all rung (record { store = none; amount = λ _. 0 })) (reduce_all rung initial)
reduce_all-initial_example = reduce_all-initial rung
