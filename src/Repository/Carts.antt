-- ===== src/Repository/Carts.antt =====
-- backend/src/database/cart.repository.ts, `CartRepository`.
use multi_marketplace.Base.{
  ℕ, String, Bool, List, [], ◌∷◌, ◌++◌, Option, find_first, select, update_where, count_where, any,
  not, ◌&&◌,
}
use multi_marketplace.Store.{
  World, Cart, CartItem, Action, modify, gets, pure, raise_if, or_raise, require_row, fresh_id,
  unique_violation, record_missing, ◌===◌, ◌>>=◌, ◌>>◌, string_eq,
}

unfoldable pub find_by_user_id : String → World → Option Cart
find_by_user_id user w = find_first (λ c. c.user_id === user) w.carts

unfoldable pub find_by_id : String → World → Option Cart
find_by_id id w = find_first (λ c. c.id === id) w.carts

unfoldable pub find_items : String → World → List CartItem
find_items cart w = select (λ i. i.cart_id === cart) w.cart_items

unfoldable pub clear : String → Action (Unit {0})
clear cart =
    modify λ w. record w { cart_items = select (λ i. not (i.cart_id === cart)) w.cart_items }

-- The user is unique.
unfoldable pub create_for_user : String → Action Cart
create_for_user user = do
  id ← fresh_id
  raise_if (← gets λ w. any (λ c. c.user_id === user) w.carts) unique_violation
  modify λ w. record w { carts = w.carts ++ record { id = id; user_id = user } ∷ [] }
  pure (record { id = id; user_id = user })

abbrev pub is_row_of : String → String → CartItem → Bool
is_row_of cart product i = i.cart_id === cart && i.product_id === product

unfoldable pub find_item_by_cart_and_product : String → String → World → Option CartItem
find_item_by_cart_and_product cart product w = find_first (is_row_of cart product) w.cart_items

unfoldable pub find_item : String → World → Option CartItem
find_item id w = find_first (λ i. i.id === id) w.cart_items

abbrev pub item_row : String → String → String → ℕ → CartItem
item_row id cart product quantity = record {
  id = id;
  cart_id = cart;
  product_id = product;
  quantity = quantity;
}

-- The cart and the product together are unique.
unfoldable pub create_item : String → String → ℕ → Action CartItem
create_item cart product quantity = do
  id ← fresh_id
  raise_if (← gets λ w. any (is_row_of cart product) w.cart_items) unique_violation
  modify λ w. record w { cart_items = w.cart_items ++ item_row id cart product quantity ∷ [] }
  pure (item_row id cart product quantity)

abbrev pub with_quantity : ℕ → CartItem → CartItem
with_quantity quantity i = record i { quantity = quantity }

unfoldable pub update_item_quantity : String → ℕ → Action CartItem
unfolding find_item
update_item_quantity id quantity = do
  row ← or_raise (← gets (find_item id)) record_missing
  modify λ w. record w {
    cart_items = update_where (λ i. i.id === id) (with_quantity quantity) w.cart_items;
  }
  pure (with_quantity quantity row)

unfoldable pub delete_item : String → Action (Unit {0})
delete_item id = do
  require_row (← gets λ w. count_where (λ i. i.id === id) w.cart_items)
  modify λ w. record w { cart_items = select (λ i. not (i.id === id)) w.cart_items }

unfoldable pub remove_product : String → Action (Unit {0})
remove_product product =
    modify λ w. record w { cart_items = select (λ i. not (i.product_id === product)) w.cart_items }
