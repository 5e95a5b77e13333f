-- ===== src/Cart/Contents.antt =====
-- The contents of a cart after a call of Cart.
use multi_marketplace.Base.{
  ℕ, ◌+◌, ◌≤◌, ◌≡◌, refl, sym, ap, ◌∙◌, String, true, List, [], ◌∷◌, ◌++◌, Option, none, some,
  arith, find_first, update_where, find_first-update_where, find_first-append_new, str_eq_refl,
}
use multi_marketplace.Store.{World, Product, Cart, CartItem, ok, ◌===◌, string_eq}
use multi_marketplace.Store.Frame.{>>=-eq-ok}
use multi_marketplace.Repository.Products
use multi_marketplace.Repository.Carts.{
  find_by_user_id, create_for_user, is_row_of, item_row, with_quantity,
  find_item_by_cart_and_product, find_item, create_item, update_item_quantity,
}
use multi_marketplace.Cart.{
  get_or_create_cart, is_purchasable, quantity_in, put, put_in_cart, add_item,
}

-- How many of a product are in a cart.
unfoldable pub amount : String → String → World → ℕ
amount cart product w = quantity_in (find_item_by_cart_and_product cart product w)

amount-set :
    (cart product : String) (i : CartItem) (q : ℕ) (rows : List CartItem)
    → find_first (is_row_of cart product) rows ≡ some i
    → quantity_in (
        find_first
          (is_row_of cart product)
          (update_where (λ j. j.id === i.id) (with_quantity q) rows))
      ≡ q
amount-set cart product i q rows there =
    rw
      (
        find_first-update_where (is_row_of cart product) (λ j. j.id === i.id) (with_quantity q) rows
            (λ j. refl),
        there,
        str_eq_refl i.id,
      )
      refl

put_amount :
    (product : Product) (cart : Cart) (id : String) (q : ℕ) (w : World) {i : CartItem} {w' : World}
    → put product cart id q w ≡ (ok i, w')
    → (amount cart.id id w' ≡ amount cart.id id w + q) × (amount cart.id id w' ≤ product.stock)
unfolding put amount find_item_by_cart_and_product create_item update_item_quantity find_item
put_amount product cart id q w {i} {w'} h =
    given (find_first (is_row_of cart.id id) w.cart_items) refl
  where
    given :
        (found : Option CartItem)
        → find_first (is_row_of cart.id id) w.cart_items ≡ found
        → (amount cart.id id w' ≡ amount cart.id id w + q) × (amount cart.id id w' ≤ product.stock)
    given none absent =
        let rows : w'.cart_items ≡ w.cart_items ++ item_row (w.uuid w.drawn) cart.id id q ∷ [] =
          ground (arith, h, absent) in
        let new : find_first (is_row_of cart.id id)
              (w.cart_items ++ item_row (w.uuid w.drawn) cart.id id q ∷ [])
            ≡ some (item_row (w.uuid w.drawn) cart.id id q) =
          find_first-append_new (is_row_of cart.id id) w.cart_items
            (item_row (w.uuid w.drawn) cart.id id q) absent
            (ground (arith, str_eq_refl cart.id, str_eq_refl id)) in
        let fits : q ≤ product.stock = ground (arith, h, absent) in
        (rw (rows, new, absent) (omega arith), rw (rows, new) fits)
    given (some j) there =
        let rows : w'.cart_items
            ≡ update_where (λ k. k.id === j.id) (with_quantity (j.quantity + q)) w.cart_items =
          ground (arith, h, there) in
        let fits : j.quantity + q ≤ product.stock = ground (arith, h, there) in
        let now = amount-set cart.id id j (j.quantity + q) w.cart_items there in
        (rw (rows, now, there) refl, rw (rows, now) fits)

get_or_create_cart-found :
    (user : String) (w : World) {cart : Cart} {v : World}
    → get_or_create_cart user w ≡ (ok cart, v)
    → (find_by_user_id user v ≡ some cart) × (v.cart_items ≡ w.cart_items)
unfolding get_or_create_cart find_by_user_id create_for_user
get_or_create_cart-found user w {cart} {v} h =
    given (find_first (λ c. c.user_id === user) w.carts) refl
  where
    given :
        (found : Option Cart)
        → find_first (λ c. c.user_id === user) w.carts ≡ found
        → (find_first (λ c. c.user_id === user) v.carts ≡ some cart) × (v.cart_items ≡ w.cart_items)
    given (some c) there = (ground (arith, h, there), ground (arith, h, there))
    given none absent =
        let row : cart ≡ record { id = w.uuid w.drawn; user_id = user } =
          ground (arith, h, absent) in
        let rows : v.carts ≡ w.carts ++ record { id = w.uuid w.drawn; user_id = user } ∷ [] =
          ground (arith, h, absent) in
        (
          rw (rows, row)
              (find_first-append_new (λ c. c.user_id === user) w.carts
                (record { id = w.uuid w.drawn; user_id = user }) absent (str_eq_refl user)),
          ground (arith, h, absent),
        )

put_carts :
    (product : Product) (cart : Cart) (id : String) (q : ℕ) (w : World)
    → (put product cart id q w).1.carts ≡ w.carts
unfolding put find_item_by_cart_and_product create_item update_item_quantity find_item
put_carts product cart id q w = ground arith

add_item-product :
    (user id : String) (q : ℕ) (w : World) {i : CartItem} {w' : World}
    → add_item user id q w ≡ (ok i, w')
    → (product : Product) × (Products.find_by_id id w ≡ some product)
      × (is_purchasable product ≡ true)
      × (put_in_cart user id q product w ≡ (ok i, w'))
unfolding add_item
add_item-product user id q w {i} {w'} h = given (Products.find_by_id id w) refl
  where
    given :
        (found : Option Product)
        → Products.find_by_id id w ≡ found
        → (product : Product) × (found ≡ some product)
          × (is_purchasable product ≡ true)
          × (put_in_cart user id q product w ≡ (ok i, w'))
    given none absent = absurd (ground (arith, h, absent))
    given (some p) there = (p, refl, ground (arith, h, there), ground (arith, h, there))

-- A call of `addItem` that returns has found a product that is for sale, ACTIVE, at a fixed price and not archived,
-- and a cart of the user, old or new; the cart then holds that many more of the product, and no more than
-- are in stock.
pub add_item_amount :
    (user id : String) (q : ℕ) (w : World) {i : CartItem} {w' : World}
    → add_item user id q w ≡ (ok i, w')
    → (product : Product) × (cart : Cart) × (Products.find_by_id id w ≡ some product)
      × (is_purchasable product ≡ true)
      × (find_by_user_id user w' ≡ some cart)
      × (amount cart.id id w' ≡ amount cart.id id w + q)
      × (amount cart.id id w' ≤ product.stock)
unfolding put_in_cart amount find_by_user_id find_item_by_cart_and_product
add_item_amount user id q w {i} {w'} h =
    let (product, found, for_sale, went) = add_item-product user id q w h in
    let (cart, v, opened, filled) =
      >>=-eq-ok (get_or_create_cart user) (λ cart. put product cart id q) w went in
    let (owned, same) = get_or_create_cart-found user w opened in
    let (more, fits) = put_amount product cart id q v filled in
    let carts : w'.carts ≡ v.carts =
      sym (ap (λ r. r.1.carts) filled) ∙ put_carts product cart id q v in
    (product, cart, found, for_sale, rw carts owned, rw same at more, fits)
