-- ===== src/Tests/Catalogue.antt =====
-- The theorems about products and carts, at concrete inputs.
use multi_marketplace.Base.{
  ◌+◌, ◌≤◌, ◌≡◌, ◌≢◌, refl, true, false, [], ◌∷◌, some, none, any, update_where, str_eq, decimal,
}
use multi_marketplace.Store.{World, Product, ProductStatus, Cart, CartItem, ok, ◌===◌, string_eq}
use multi_marketplace.Repository.Products
use multi_marketplace.Repository.Outbox
use multi_marketplace.Repository.Products.{claim_status, find_or_throw}
use multi_marketplace.Repository.Carts.{
  find_by_user_id, find_by_id, find_item, find_item_by_cart_and_product, update_item_quantity,
  with_quantity,
}
use multi_marketplace.Products.{
  find_owned_product, submit_body, submit_for_approval, Verdict, moderate_body, moderate,
  start_if_auction,
}
use multi_marketplace.Products.Lifecycle.{Call, after, state, Moves, after-Moves}
use multi_marketplace.Products.Approval.{
  Course, is_approval, active_approved, IsConsistent, Course-IsConsistent,
}
use multi_marketplace.Cart.{
  is_purchasable, add_item, put_in_cart, put, get_or_create_cart, update_item, find_owned_item,
  find_item_with_product_and_cart, remove_item, Owned,
}
use multi_marketplace.Cart.Contents.{amount, add_item_amount}
use multi_marketplace.Cart.Rows.{
  IsOwnedBy, update_item_sets, ReturnsOrLeavesRows, cart_calls_atomic,
}
use multi_marketplace.Tests.Worlds.{shop, mug, no_rows}

-- A mug that nobody has approved yet.
abbrev drafts : World
drafts = record no_rows { products = record mug { status = ProductStatus.draft } ∷ [] }

abbrev submitted : Call
submitted = Call.submission "mug" "sam"

abbrev approved : Call
approved = Call.moderation "mug" "root" Verdict.approve none 5

after-Moves_example :
    Moves "mug" submitted (state "mug" drafts) (state "mug" (after submitted drafts))
after-Moves_example = after-Moves submitted "mug" drafts

draft_first : state "mug" drafts ≢ some (ProductStatus.active, false)
unfolding state Products.find_by_id str_eq
draft_first e = cc

on_sale : state "mug" (after approved (after submitted drafts)) ≡ some (ProductStatus.active, false)
unfolding state after submit_for_approval submit_body moderate moderate_body start_if_auction
    find_owned_product claim_status find_or_throw Products.find_by_id Outbox.create str_eq decimal
on_sale = refl

active_approved_example : any (is_approval "mug") (approved ∷ submitted ∷ []) ≡ true
active_approved_example =
    active_approved "mug" (Course.next approved (Course.next submitted Course.start)) draft_first
      on_sale

draft-IsConsistent : IsConsistent (state "mug" drafts)
unfolding state Products.find_by_id str_eq
draft-IsConsistent = refl

abbrev archived : Call
archived = Call.removal "mug" "sam"

Course-IsConsistent_example : IsConsistent (state "mug" (after archived (after submitted drafts)))
Course-IsConsistent_example =
    Course-IsConsistent "mug" (Course.next archived (Course.next submitted Course.start))
      draft-IsConsistent

abbrev three_mugs : CartItem
three_mugs = record { id = "item-1"; cart_id = "cart-bob"; product_id = "mug"; quantity = 3 }

abbrev fuller : World
fuller = (add_item "bob" "mug" 1 shop).1

one_more : add_item "bob" "mug" 1 shop ≡ (ok three_mugs, fuller)
unfolding add_item put_in_cart put get_or_create_cart find_by_user_id Products.find_by_id
    find_item_by_cart_and_product update_item_quantity find_item str_eq
one_more = refl

add_item_amount_example :
    (product : Product) × (cart : Cart) × (Products.find_by_id "mug" shop ≡ some product)
    × (is_purchasable product ≡ true)
    × (find_by_user_id "bob" fuller ≡ some cart)
    × (amount cart.id "mug" fuller ≡ amount cart.id "mug" shop + 1)
    × (amount cart.id "mug" fuller ≤ product.stock)
add_item_amount_example = add_item_amount "bob" "mug" 1 shop one_more

abbrev reset : World
reset = (update_item "bob" "item-1" 3 shop).1

three_now : update_item "bob" "item-1" 3 shop ≡ (ok three_mugs, reset)
unfolding update_item find_owned_item find_item_with_product_and_cart find_item Products.find_by_id
    find_by_id update_item_quantity str_eq
three_now = refl

update_item_sets_example :
    (found : Owned) × IsOwnedBy "bob" "item-1" found shop
    × (is_purchasable found.1 ≡ true)
    × (3 ≤ found.1.stock)
    × (reset.cart_items ≡ update_where (λ j. j.id === "item-1") (with_quantity 3) shop.cart_items)
update_item_sets_example = update_item_sets "bob" "item-1" 3 shop three_now

cart_calls_atomic_example :
    ReturnsOrLeavesRows (add_item "bob" "mug" 9) shop
    × ReturnsOrLeavesRows (update_item "bob" "item-1" 9) shop
    × ReturnsOrLeavesRows (remove_item "bob" "item-1") shop
cart_calls_atomic_example = cart_calls_atomic "bob" "item-1" "mug" 9 shop
