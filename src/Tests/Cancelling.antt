-- ===== src/Tests/Cancelling.antt =====
-- The theorems about all calls on orders and about cancellations, at concrete inputs.
use multi_marketplace.Base.{arith}
use multi_marketplace.Repository.Orders.{find_item, sum_refunded_quantity}
use multi_marketplace.Orders.Refund.Quantity.{Within}
use multi_marketplace.Orders.Bounds.{Call, Reachable, after, Reachable-Within}
use multi_marketplace.Orders.Cancellation.Refunds.{IsItemKey}
use multi_marketplace.Orders.Cancellation.Whole.{cancel_order}
use multi_marketplace.Orders.Cancellation.Part.{Canceller, cancel_seller_order}
use multi_marketplace.Orders.Cancellation.Unpaid.{cancel_payment}
use multi_marketplace.Orders.Cancellation.Failures.{ReturnsOrKeeps, cancellations_atomic}
use multi_marketplace.Tests.Worlds.{cents_of, paid}

one_item : IsItemKey paid.order_items
one_item y = ground arith

none_back : Within "item-of-1" paid
unfolding sum_refunded_quantity find_item
none_back i there = ground arith

-- One of the two mugs is given back, then the whole order is cancelled.
abbrev one_mug_back : Call
one_mug_back = Call.refunding "bob" "item-of-1" 1 "" "r-1" 9

abbrev all_cancelled : Call
all_cancelled = Call.cancelling "bob" "order-1" 10

Reachable-Within_example :
    Within "item-of-1" (after cents_of all_cancelled (after cents_of one_mug_back paid))
Reachable-Within_example =
    Reachable-Within cents_of paid "item-of-1" one_item none_back
      (Reachable.step all_cancelled (Reachable.step one_mug_back Reachable.start))

cancellations_atomic_example :
    ReturnsOrKeeps (cancel_order cents_of "bob" "part-1" 9) paid
    × ReturnsOrKeeps
        (cancel_seller_order cents_of (Canceller.seller "sam") "part-1" "k-1" "" 9)
        paid
    × ReturnsOrKeeps (cancel_payment cents_of "bob" "part-1" "k-1" 9) paid
cancellations_atomic_example =
    cancellations_atomic cents_of "bob" "part-1" "k-1" "" (Canceller.seller "sam") 9 paid
