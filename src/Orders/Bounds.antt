-- ===== src/Orders/Bounds.antt =====
-- Courses of calls on the orders that are there, and how much of an item they refund.
pub mod Paying
pub mod Refunding
use multi_marketplace.Base.{ℕ, ℤ, ◌≡◌, ◌≤◌, refl, String, Option}
use multi_marketplace.Store.{World, SellerOrderStatus}
use multi_marketplace.Store.Rules.{Preserved, Preserved-apply}
use multi_marketplace.Orders.Refund.{refund_order_item}
use multi_marketplace.Orders.Refund.Quantity.{Within}
use multi_marketplace.Orders.Payment.{pay_order}
use multi_marketplace.Orders.Shipping.{update_seller_order_status}
use multi_marketplace.Orders.Cancellation.Whole.{cancel_order}
use multi_marketplace.Orders.Cancellation.Unpaid.{cancel_payment}
use multi_marketplace.Orders.Cancellation.Part.{Canceller, cancel_seller_order}
use multi_marketplace.Orders.Cancellation.Refunds.{IsItemKey, Safe, Safe-ReadsBooks}
use multi_marketplace.Orders.Cancellation.Bounds.{cancel_order-Safe}
use multi_marketplace.Orders.Cancellation.Bounds.Partial.{cancel_seller_order-Safe}
use multi_marketplace.Orders.Cancellation.Bounds.Voided.{cancel_payment-Safe}
use multi_marketplace.Orders.Bounds.Paying.{pay_order_kept, ship_kept}
use multi_marketplace.Orders.Bounds.Refunding.{refund_order_item-Safe}

-- The calls on orders that are there, with their arguments.
pub data Call : Type 0 where
  paying : String → String → String → ℕ → Call
  shipping : String → String → SellerOrderStatus → Option String → ℕ → Call
  refunding : String → String → ℕ → String → String → ℕ → Call
  cancelling : String → String → ℕ → Call
  cancelling_part : Canceller → String → String → String → ℕ → Call
  voiding : String → String → String → ℕ → Call

-- The tables that a call leaves, whether it returns or raises.
unfoldable pub after : (ℤ → ℤ) → Call → World → World
after column (Call.paying user order key now) w = (pay_order column user order key now w).1
after column (Call.shipping seller id status number now) w =
    (update_seller_order_status seller id status number now w).1
after column (Call.refunding user item q reason key now) w =
    (refund_order_item column user item q reason key now w).1
after column (Call.cancelling user order now) w = (cancel_order column user order now w).1
after column (Call.cancelling_part by id key reason now) w =
    (cancel_seller_order column by id key reason now w).1
after column (Call.voiding user order key now) w = (cancel_payment column user order key now w).1

-- The tables that calls, one after another, can lead to.
pub data Reachable (column : ℤ → ℤ) (w : World) : World → Type 0 where
  start : Reachable column w w
  step : (c : Call) {v : World} → Reachable column w v → Reachable column w (after column c v)

module _ (column : ℤ → ℤ) (w : World) (x : String) where
  after-Safe :
      IsItemKey w.order_items
      → (c : Call) (v : World) → Safe w.order_items x v
      → Safe w.order_items x (after column c v)
  unfolding after
  after-Safe unique (Call.paying user order key now) =
      Preserved-apply (Safe w.order_items x) (pay_order column user order key now) (
        pay_order_kept column (Safe w.order_items x) (Safe-ReadsBooks w.order_items x) user order
          key now)
  after-Safe unique (Call.shipping seller id status number now) =
      Preserved-apply (Safe w.order_items x)
        (update_seller_order_status seller id status number now)
        (ship_kept (Safe w.order_items x) (Safe-ReadsBooks w.order_items x) seller id status number
          now)
  after-Safe unique (Call.refunding user item q reason key now) =
      Preserved-apply (Safe w.order_items x) (refund_order_item column user item q reason key now)
        (refund_order_item-Safe w.order_items column x user item q reason key now)
  after-Safe unique (Call.cancelling user order now) =
      Preserved-apply (Safe w.order_items x) (cancel_order column user order now)
        (cancel_order-Safe column w.order_items x unique user order now)
  after-Safe unique (Call.cancelling_part by id key reason now) =
      Preserved-apply (Safe w.order_items x) (cancel_seller_order column by id key reason now)
        (cancel_seller_order-Safe column w.order_items x unique by id key reason now)
  after-Safe unique (Call.voiding user order key now) =
      Preserved-apply (Safe w.order_items x) (cancel_payment column user order key now)
        (cancel_payment-Safe column w.order_items x user order key now)

  Reachable-Safe :
      IsItemKey w.order_items
      → Within x w
      → {v : World} → Reachable column w v
      → Safe w.order_items x v
  Reachable-Safe unique within start = (refl, within)
  Reachable-Safe unique within (step c {v} before) =
      after-Safe unique c v (Reachable-Safe unique within before)

  -- Item identifiers being unique, and no more of an item refunded than was bought, the same holds of that
  -- item after any calls of `payOrder`, `updateSellerOrderStatus`, `refundOrderItem`, `cancelOrder`,
  -- `cancelSellerOrder`, `cancelCustomerSuborder` and `cancelPayment`, in any order and with any arguments.
  pub Reachable-Within :
      IsItemKey w.order_items → Within x w → {v : World} → Reachable column w v → Within x v
  Reachable-Within unique within calls = (Reachable-Safe unique within calls).1
