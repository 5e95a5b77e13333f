-- ===== src/Tests/Orders.antt =====
-- The theorems about orders and money, at concrete inputs.
use multi_marketplace.Base.{
  ℕ, zero, suc, ◌+◌, ◌*◌, ◌≡◌, ◌≢◌, ◌≤◌, refl, arith, List, [], ◌∷◌, pos, ◌+ℤ◌, sum_by, map, Bool,
  true, select, any, if◌then◌else◌, ◌==◌, neg,
}
use multi_marketplace.Base
use multi_marketplace.Store.{
  World, Order, OrderStatus, SellerOrderStatus, err, bad_request, Reason, ◌===◌,
  seller_order_status_eq, string_eq,
}
use multi_marketplace.Repository.Carts
use multi_marketplace.Repository.Products
use multi_marketplace.Repository.Outbox
use multi_marketplace.Repository.Orders.{find_order_by_payment_key, find_payment_by_key}
use multi_marketplace.Money.{commission_rate, commission, earnings}
use multi_marketplace.Money.Rounding.{IsColumn, stored_split}
use multi_marketplace.Orders.Checkout.{
  lines_of, checkout, checkout_body, find_checkout, recover_checkout, order_cart, place_order,
  take_lines, take_line,
}
use multi_marketplace.Orders.Checkout.Calls.{checkout_failed}
use multi_marketplace.Orders.Checkout.Groups.{
  tally_lines, tally_lines-partition, groups_of, subtotal_for, items_for, lines_for,
}
use multi_marketplace.Orders.Checkout.{Line, line_total, line_item}
use multi_marketplace.Orders.Status.{derive_order_status}
use multi_marketplace.Orders.Status.Derived.{
  top, of_priority, derive_order_status-top, derive_order_status_members,
  derive_order_status_one_completed,
}
use multi_marketplace.Tests.Worlds.{cents_of, shop, mug, two_mugs}

cents_of-neg : (n : ℕ) → cents_of (neg (pos n)) ≡ neg (cents_of (pos n))
unfolding neg
cents_of-neg zero = refl
cents_of-neg (suc n) = ground arith

cents_of-IsColumn : IsColumn cents_of
cents_of-IsColumn = record { nearest = λ n. refl; signed = cents_of-neg }

abbrev bobs_order : Order
bobs_order = record {
  id = "id-1";
  user_id = "bob";
  status = OrderStatus.new;
  subtotal = 500;
  total_amount = 500;
}

abbrev shop_after : World
shop_after = (checkout cents_of "bob" "k" shop).1

bob_has_items : two_mugs ∷ [] ≢ []
bob_has_items e = ground arith

-- Too few mugs.
abbrev sold_out : World
sold_out = record shop { products = record mug { stock = 1 } ∷ [] }

refused :
    checkout cents_of "bob" "k" sold_out ≡ (err (bad_request (Reason.stock_short "Mug")), sold_out)
unfolding checkout checkout_body find_checkout find_order_by_payment_key find_payment_by_key
    order_cart place_order take_lines take_line lines_of recover_checkout Carts.find_by_user_id
    Carts.find_items Products.find_by_id Products.decrement_stock_for_checkout Base.is_blank
    Base.str_eq
refused = refl

checkout_failed_example : sold_out ≡ sold_out
checkout_failed_example = checkout_failed cents_of "bob" "k" sold_out refused

stored_split_example :
    cents_of (commission 1005 commission_rate) +ℤ cents_of (earnings 1005 commission_rate)
    ≡ pos 1006
stored_split_example = stored_split cents_of 1005 cents_of-IsColumn

abbrev mixed_lines : List Line
mixed_lines =
    record { quantity = 2; product = mug }
    ∷ record { quantity = 1; product = record mug { id = "pot"; seller_id = "pia"; price = 900 } }
    ∷ record { quantity = 3; product = record mug { id = "cup"; price = 100 } }
    ∷ []

tally_lines-partition_example :
    let (total, groups) = tally_lines mixed_lines (0, []) in
    (total ≡ sum_by line_total mixed_lines)
    × (sum_by (λ g. g.subtotal) groups ≡ total)
    × (groups_of "sam" groups ≤ 1)
    × (subtotal_for "sam" groups ≡ sum_by line_total (lines_for "sam" mixed_lines))
    × (items_for "sam" groups ≡ map line_item (lines_for "sam" mixed_lines))
tally_lines-partition_example = tally_lines-partition mixed_lines "sam"

abbrev three : List SellerOrderStatus
three = SellerOrderStatus.new ∷ SellerOrderStatus.completed ∷ SellerOrderStatus.cancelled ∷ []

derive_order_status-top_example : derive_order_status three ≡ of_priority (top three)
derive_order_status-top_example =
    derive_order_status-top SellerOrderStatus.new
      (SellerOrderStatus.completed ∷ SellerOrderStatus.cancelled ∷ [])

derive_order_status_one_completed_example : derive_order_status three ≡ OrderStatus.completed
derive_order_status_one_completed_example = derive_order_status_one_completed three refl

same_members :
    (s : SellerOrderStatus)
    → any (λ t. t === s) three
      ≡ any
          (λ t. t === s)
          (SellerOrderStatus.cancelled ∷ SellerOrderStatus.completed ∷ SellerOrderStatus.new
            ∷ SellerOrderStatus.new ∷ [])
same_members s = ground arith

derive_order_status_members_example :
    derive_order_status three
    ≡ derive_order_status (
        SellerOrderStatus.cancelled ∷ SellerOrderStatus.completed ∷ SellerOrderStatus.new
        ∷ SellerOrderStatus.new ∷ [])
derive_order_status_members_example =
    derive_order_status_members three
      (SellerOrderStatus.cancelled ∷ SellerOrderStatus.completed ∷ SellerOrderStatus.new
        ∷ SellerOrderStatus.new ∷ [])
      same_members
