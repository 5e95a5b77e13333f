-- ===== src/Cart/Rows.antt =====
-- The rows of carts after a call of Cart on one item, and after a call that raises.
use multi_marketplace.Base.{
  ℕ, ◌≤◌, ◌≡◌, ◌⊎◌, refl, sym, ap, ◌∙◌, inl, inr, String, true, Option, none, some, arith,
  update_where,
}
use multi_marketplace.Store.{
  World, Product, Cart, CartItem, Action, Error, Result, ok, err, ◌===◌, string_eq,
}
use multi_marketplace.Store.Frame.{>>=-eq-next}
use multi_marketplace.Repository.Products
use multi_marketplace.Repository.Carts.{
  find_by_id, with_quantity, find_item, create_for_user, create_item, update_item_quantity,
  delete_item,
}
use multi_marketplace.Cart.{
  Owned, get_or_create_cart, is_purchasable, find_item_with_product_and_cart, find_owned_item,
  update_item, remove_item, put, put_in_cart, add_item,
}

-- The item, its product and its cart, which is the user's.
abbrev pub IsOwnedBy : String → String → Owned → World → Type 0
IsOwnedBy user id (i, p, c) w =
    (find_item id w ≡ some i)
    × (Products.find_by_id i.product_id w ≡ some p)
    × (find_by_id i.cart_id w ≡ some c)
    × ((c.user_id === user) ≡ true)

joined :
    (id : String) (w : World) {found : Owned}
    → find_item_with_product_and_cart id w ≡ some found
    → (find_item id w ≡ some found.0)
      × (Products.find_by_id found.0.product_id w ≡ some found.1)
      × (find_by_id found.0.cart_id w ≡ some found.2)
unfolding find_item_with_product_and_cart
joined id w {found} h = (ground (arith, h), ground (arith, h), ground (arith, h))

-- A call of `updateItem` that returns was for an item of a cart of the user, whose product is for sale and in
-- stock at the new quantity; it sets the quantity of the rows with that identifier and changes no other row.
pub update_item_sets :
    (user id : String) (q : ℕ) (w : World) {i : CartItem} {w' : World}
    → update_item user id q w ≡ (ok i, w')
    → (found : Owned) × IsOwnedBy user id found w
      × (is_purchasable found.1 ≡ true)
      × (q ≤ found.1.stock)
      × (w'.cart_items ≡ update_where (λ j. j.id === id) (with_quantity q) w.cart_items)
unfolding update_item find_owned_item update_item_quantity
update_item_sets user id q w {i} {w'} h = given (find_item_with_product_and_cart id w) refl
  where
    given :
        (o : Option Owned)
        → find_item_with_product_and_cart id w ≡ o
        → (found : Owned) × IsOwnedBy user id found w
          × (is_purchasable found.1 ≡ true)
          × (q ≤ found.1.stock)
          × (w'.cart_items ≡ update_where (λ j. j.id === id) (with_quantity q) w.cart_items)
    given none e = absurd (ground (arith, h, e))
    given (some (i, p, c)) e =
        let (item, product, cart) = joined id w e in
        (
          (i, p, c),
          (item, product, cart, ground (arith, h, e)),
          ground (arith, h, e),
          ground (arith, h, e),
          ground (arith, h, e),
        )

-- The call returns, or the rows of carts are as they were.
abbrev pub ReturnsOrLeavesRows : {A : Type 0} → Action A → World → Type 0
ReturnsOrLeavesRows {A} m w = ((a : A) × ((m w).0 ≡ ok a)) ⊎ ((m w).1.cart_items ≡ w.cart_items)

by_outcome :
    {A : Type 0} (m : Action A) (w : World)
    → ((e : Error) → (m w).0 ≡ err e → (m w).1.cart_items ≡ w.cart_items)
    → ReturnsOrLeavesRows m w
by_outcome {A} m w h = given (m w).0 refl
  where
    given : (r : Result A) → (m w).0 ≡ r → ReturnsOrLeavesRows m w
    given (ok a) e = inl (a, e)
    given (err x) e = inr (h x e)

module _ (w : World) {e : Error} where
  update_item_failed :
      (user id : String) (q : ℕ)
      → (update_item user id q w).0 ≡ err e
      → (update_item user id q w).1.cart_items ≡ w.cart_items
  unfolding update_item find_owned_item update_item_quantity
  update_item_failed user id q h = ground (arith, h)

  remove_item_failed :
      (user id : String)
      → (remove_item user id w).0 ≡ err e
      → (remove_item user id w).1.cart_items ≡ w.cart_items
  unfolding remove_item find_owned_item delete_item
  remove_item_failed user id h = ground (arith, h)

  put_failed :
      (p : Product) (c : Cart) (product : String) (q : ℕ)
      → (put p c product q w).0 ≡ err e
      → (put p c product q w).1.cart_items ≡ w.cart_items
  unfolding put create_item update_item_quantity
  put_failed p c product q h = ground (arith, h)

get_or_create_cart-rows :
    (w : World) (user : String) → (get_or_create_cart user w).1.cart_items ≡ w.cart_items
unfolding get_or_create_cart create_for_user
get_or_create_cart-rows w user = ground arith

put_in_cart_failed :
    (user product : String) (q : ℕ) (p : Product) (w : World) {e : Error}
    → (put_in_cart user product q p w).0 ≡ err e
    → (put_in_cart user product q p w).1.cart_items ≡ w.cart_items
unfolding put_in_cart
put_in_cart_failed user product q p w {e} h = given (get_or_create_cart user w) refl
  where
    given :
        (r : Result Cart × World)
        → get_or_create_cart user w ≡ r
        → (put_in_cart user product q p w).1.cart_items ≡ w.cart_items
    given (ok c, v) went =
        let next = >>=-eq-next (get_or_create_cart user) (λ cart. put p cart product q) w went in
        let same : v.cart_items ≡ w.cart_items =
          sym (ap (λ r. r.1.cart_items) went) ∙ get_or_create_cart-rows w user in
        ap (λ r. r.1.cart_items) next
        ∙ put_failed v p c product q (sym (ap (λ r. r.0) next) ∙ h)
        ∙ same
    given (err x, v) went =
        let same : v.cart_items ≡ w.cart_items =
          sym (ap (λ r. r.1.cart_items) went) ∙ get_or_create_cart-rows w user in
        ground (arith, went, same)

add_item-guards :
    (user product : String) (q : ℕ) (w : World) (p : Product)
    → Products.find_by_id product w ≡ some p
    → ((add_item user product q w).1 ≡ w)
      ⊎ (add_item user product q w ≡ put_in_cart user product q p w)
unfolding add_item
add_item-guards user product q w p e = ground (arith, e)

add_item_failed :
    (user product : String) (q : ℕ) (w : World) {x : Error}
    → (add_item user product q w).0 ≡ err x
    → (add_item user product q w).1.cart_items ≡ w.cart_items
unfolding add_item
add_item_failed user product q w {x} h = given (Products.find_by_id product w) refl
  where
    given :
        (o : Option Product)
        → Products.find_by_id product w ≡ o
        → (add_item user product q w).1.cart_items ≡ w.cart_items
    given none e = ground (arith, e)
    given (some p) e = elim (add_item-guards user product q w p e) [
      | inl kept ↦ ap (λ v. v.cart_items) kept
      | inr went ↦
          ap (λ r. r.1.cart_items) went
          ∙ put_in_cart_failed user product q p w (sym (ap (λ r. r.0) went) ∙ h)
    ]

-- Each of `addItem`, `updateItem` and `removeItem` either returns or changes no row of any cart.
pub cart_calls_atomic :
    (user id product : String) (q : ℕ) (w : World)
    → ReturnsOrLeavesRows (add_item user product q) w
      × ReturnsOrLeavesRows (update_item user id q) w
      × ReturnsOrLeavesRows (remove_item user id) w
cart_calls_atomic user id product q w = (
  by_outcome (add_item user product q) w (λ e. add_item_failed user product q w),
  by_outcome (update_item user id q) w (λ e. update_item_failed w user id q),
  by_outcome (remove_item user id) w (λ e. remove_item_failed w user id),
)
