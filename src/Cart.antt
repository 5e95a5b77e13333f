-- ===== src/Cart.antt =====
-- The cart of a user (backend/src/cart/cart.service.ts). Money is in cents; quantities are the positive
-- integers that the data transfer objects let through.
pub mod Contents
pub mod Rows
use multi_marketplace.Base.{
  ℕ, ◌+◌, ◌*◌, String, Bool, not, ◌||◌, List, Option, none, some, map, sum_by, ltb,
}
use multi_marketplace.Store.{
  World, Product, Cart, CartItem, ProductStatus, ProductType, Action, Reason, gets, raise_if,
  or_raise, pure, bad_request, not_found, ◌===◌, ◌>>=◌, ◌>>◌, string_eq, product_status_eq,
  product_type_eq,
}
use multi_marketplace.Repository.Products
use multi_marketplace.Repository.Carts.{
  find_by_user_id, find_by_id, find_items, create_for_user, find_item_by_cart_and_product,
  find_item, create_item, update_item_quantity, delete_item, clear,
}

abbrev cart_or_new : String → Option Cart → Action Cart
cart_or_new user none = create_for_user user
cart_or_new user (some cart) = pure cart

unfoldable pub get_or_create_cart : String → Action Cart
get_or_create_cart user = do cart ← gets (find_by_user_id user); cart_or_new user cart

-- A row of the cart with its product; the foreign key lets no product be missing.
abbrev pub Line : Type 0
Line = CartItem × Option Product

abbrev pub line_total : Line → ℕ
line_total (item, none) = 0
line_total (item, some p) = p.price * item.quantity

unfoldable pub lines : String → World → List Line
lines cart w = map (λ i. (i, Products.find_by_id i.product_id w)) (find_items cart w)

pub record CartView : Type 0 where
  pub cart_id : String
  pub items : List Line
  pub total : ℕ

unfoldable pub get_cart : String → Action CartView
get_cart user = do
  cart ← get_or_create_cart user
  items ← gets (lines cart.id)
  pure (record { cart_id = cart.id; items = items; total = sum_by line_total items })

abbrev pub is_purchasable : Product → Bool
is_purchasable p = not (
    not (p.status === ProductStatus.active)
    || not (p.type === ProductType.fixed_price)
    || p.is_archived)

abbrev pub quantity_in : Option CartItem → ℕ
quantity_in none = 0
quantity_in (some i) = i.quantity

abbrev set_or_create : Cart → String → ℕ → Option CartItem → Action CartItem
set_or_create cart product quantity none = create_item cart.id product quantity
set_or_create cart product quantity (some i) = update_item_quantity i.id (i.quantity + quantity)

unfoldable pub put : Product → Cart → String → ℕ → Action CartItem
put product cart product_id quantity = do
  existing ← gets (find_item_by_cart_and_product cart.id product_id)
  raise_if (ltb product.stock (quantity_in existing + quantity))
      (bad_request (Reason.stock_left_with product.stock (quantity_in existing)))
  set_or_create cart product_id quantity existing

unfoldable pub put_in_cart : String → String → ℕ → Product → Action CartItem
put_in_cart user product_id quantity product = do
  cart ← get_or_create_cart user
  put product cart product_id quantity

unfoldable pub add_item : String → String → ℕ → Action CartItem
add_item user product_id quantity = do
  product ← or_raise (← gets (Products.find_by_id product_id)) (not_found Reason.product_missing)
  raise_if (not (is_purchasable product)) (bad_request Reason.product_unavailable)
  put_in_cart user product_id quantity product

-- The row with its product and its cart, which the foreign keys keep there.
abbrev pub Owned : Type 0
Owned = CartItem × Product × Cart

abbrev join_cart : CartItem → Product → Option Cart → Option Owned
join_cart i p none = none
join_cart i p (some c) = some (i, p, c)

abbrev join_product : CartItem → Option Product → World → Option Owned
join_product i none w = none
join_product i (some p) w = join_cart i p (find_by_id i.cart_id w)

abbrev join_item : Option CartItem → World → Option Owned
join_item none w = none
join_item (some i) w = join_product i (Products.find_by_id i.product_id w) w

unfoldable pub find_item_with_product_and_cart : String → World → Option Owned
find_item_with_product_and_cart id w = join_item (find_item id w) w

unfoldable pub find_owned_item : String → String → Action Owned
find_owned_item user id = do
  found ←
      or_raise (← gets (find_item_with_product_and_cart id)) (not_found Reason.cart_item_missing)
  raise_if (not (found.2.user_id === user)) (not_found Reason.cart_item_missing)
  pure found

abbrev pub update_owned : String → ℕ → Owned → Action CartItem
update_owned id quantity (item, product, cart) = do
  raise_if (not (is_purchasable product)) (bad_request Reason.product_unavailable)
  raise_if (ltb product.stock quantity) (bad_request (Reason.stock_left product.stock))
  update_item_quantity id quantity

unfoldable pub update_item : String → String → ℕ → Action CartItem
update_item user id quantity = do found ← find_owned_item user id; update_owned id quantity found

unfoldable pub remove_item : String → String → Action (Unit {0})
remove_item user id = do find_owned_item user id; delete_item id

unfoldable pub clear_cart : String → Action (Unit {0})
clear_cart user = do cart ← get_or_create_cart user; clear cart.id
