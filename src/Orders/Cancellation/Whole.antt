-- ===== src/Orders/Cancellation/Whole.antt =====
-- `OrdersService.cancelOrder` (backend/src/orders/orders.service.ts). The clock is read once in each
-- claim, and once for the refunds; one argument stands for these reads.
use multi_marketplace.Base.{
  ℕ, ℤ, ◌-ℤ◌, pos, String, Bool, true, false, ◌||◌, not, List, [], ◌∷◌, ◌++◌, map, select, Option,
  none, some, find_first, ◌==◌,
}
use multi_marketplace.Store.{
  Order, SellerOrder, OrderItem, Payment, OrderStatus, SellerOrderStatus, Value, Action, Reason,
  gets, raise_if, or_raise, pure, skip, for_each, transaction, bad_request, forbidden, not_found,
  ◌===◌, ◌>>=◌, ◌>>◌, string_eq, order_status_eq, seller_order_status_eq,
}
use multi_marketplace.Money.{exact}
use multi_marketplace.Repository.Outbox
use multi_marketplace.Repository.Outbox.{EventData}
use multi_marketplace.Repository.Orders.{
  find_by_id, payments_of, seller_order_statuses, claim_order_cancellation,
  claim_seller_order_cancellation, update_payment, update_order_status, update_seller_order,
}
use multi_marketplace.Repository.Orders.Creation.{create_ledger_entries}
use multi_marketplace.Orders.Status.{derive_order_status, is_cancelled}
use multi_marketplace.Orders.Checkout.{drop_product_caches}
use multi_marketplace.Orders.Shipping.{order_status_text}
use multi_marketplace.Orders.Payment.{is_pending}
use multi_marketplace.Orders.Refund.{is_settled, deduct}
use multi_marketplace.Orders.Cancellation.{
  Part, Plan, Totals, parts_of, return_items, reductions, mark_refunded, void_payment, join3,
}
use Prim.Native.String.{◌++◌ as text_append}

abbrev order_key : String → String → String → String
order_key order kind id = text_append (join3 "customer-cancel:" order kind) id

-- The `product.stock-changed` event announces the whole quantity of the item.
abbrev pub whole_event : String → OrderItem → ℕ → EventData
whole_event order item quantity = record {
  order_id = none;
  seller_order_id = none;
  aggregate_type = "Product";
  aggregate_id = item.product_id;
  type = "product.stock-changed";
  payload =
      ("productId", Value.text item.product_id) ∷ ("quantity", Value.count item.quantity) ∷ [];
  available_at = none;
  idempotency_key = order_key order ":stock:" item.product_id;
}

abbrev pub whole_plan : Order → Option Payment → ℕ → SellerOrder → Plan
whole_plan o payment now s = record {
  seller_order = s;
  payment = payment;
  reason = "Cancelled by customer";
  now = now;
  refund_key = λ i. order_key o.id ":" i.id;
  ledger_key = λ i. order_key o.id ":refund-ledger:" i.id;
  event = whole_event o.id;
}

abbrev pub open_statuses : List SellerOrderStatus
open_statuses =
    SellerOrderStatus.new ∷ SellerOrderStatus.payment_pending ∷ SellerOrderStatus.processing
    ∷ SellerOrderStatus.shipped ∷ []

-- `payment ? refundTotal : 0`.
abbrev pub if_paid : Option Payment → ℕ → ℕ
if_paid none n = 0
if_paid (some p) n = n

abbrev part_cancelled_event : Order → SellerOrder → EventData
part_cancelled_event o s = record {
  order_id = some o.id;
  seller_order_id = some s.id;
  aggregate_type = "SellerOrder";
  aggregate_id = s.id;
  type = "seller-order.cancelled";
  payload =
      ("sellerId", Value.text s.seller_id) ∷ ("reason", Value.text "Cancelled by customer") ∷ [];
  available_at = none;
  idempotency_key = order_key o.id ":seller-order:" s.id;
}

abbrev order_cancelled_event : String → Order → OrderStatus → EventData
order_cancelled_event user o status = record {
  order_id = some o.id;
  seller_order_id = none;
  aggregate_type = "Order";
  aggregate_id = o.id;
  type = "order.cancelled";
  payload = ("userId", Value.text user) ∷ ("status", Value.text (order_status_text status)) ∷ [];
  available_at = none;
  idempotency_key = text_append "customer-cancel:" o.id;
}

abbrev pub cancelled_events : String → Order → List Part → OrderStatus → List EventData
cancelled_events user o parts status =
    map (λ p. part_cancelled_event o p.0) (select (λ p. not (is_cancelled p.0.status)) parts)
    ++ order_cancelled_event user o status ∷ []

-- `if (pendingPayment) ...`.
unfoldable pub void_pending : Option Payment → Action (Unit {0})
void_pending none = skip
void_pending (some p) = update_payment p.id void_payment

-- From the status of the seller orders to the end of the transaction.
unfoldable pub close_order : String → Order → List Part → Action Order
close_order user o parts = do
  status ← gets λ w. derive_order_status (seller_order_statuses o.id w)
  update_order_status o.id status
  Outbox.create_many (cancelled_events user o parts status)
  pure (record o { status = status })

module _ (column : ℤ → ℤ) where
  unfoldable pub settle_part : Order → Option Payment → SellerOrder → Totals → Action (Unit {0})
  settle_part o payment s (total, reduction) = do
    update_seller_order s.id
        (deduct column (if_paid payment total) (pos reduction) (exact total -ℤ pos reduction))
    create_ledger_entries column (
        reductions s.id (total, reduction) (order_key o.id ":commission:" s.id)
          (order_key o.id ":earnings:" s.id))

  unfoldable pub return_part : Order → Option Payment → ℕ → Part → Action (Unit {0})
  return_part o payment now (s, items) = do
    totals ← return_items column (whole_plan o payment now s) items (0, 0)
    settle_part o payment s totals

  abbrev pub return_claimed : Order → Option Payment → ℕ → Part → Bool → Action (Unit {0})
  return_claimed o payment now part true = skip
  return_claimed o payment now part false = return_part o payment now part

  -- One round of the loop over the seller orders.
  unfoldable pub cancel_part : Order → Option Payment → ℕ → Part → Action (Unit {0})
  cancel_part o payment now part = do
    claimed ← claim_seller_order_cancellation part.0.id open_statuses "Cancelled by customer" now
    return_claimed o payment now part (claimed == 0)

  unfoldable pub cancel_parts :
      String → Order → Option Payment → Option Payment → ℕ → List Part → Action Order
  cancel_parts user o payment pending now parts = do
    for_each parts (cancel_part o payment now)
    mark_refunded payment
    void_pending pending
    close_order user o parts

  abbrev is_closed : Order → Bool
  is_closed o = o.status === OrderStatus.completed || o.status === OrderStatus.cancelled

  unfoldable pub cancel_claimed : String → Order → ℕ → List Payment → List Part → Action Order
  cancel_claimed user o now payments parts = do
    claimed ← claim_order_cancellation o.id
    raise_if (claimed == 0) (bad_request Reason.cancellation_processed)
    cancel_parts user o (find_first is_settled payments) (find_first is_pending payments) now parts

  unfoldable pub cancel_body : String → String → ℕ → Action Order
  cancel_body user order_id now = do
    o ← or_raise (← gets (find_by_id order_id)) (not_found Reason.order_missing)
    raise_if (not (o.user_id === user)) (forbidden Reason.order_not_owned)
    raise_if (is_closed o) (bad_request (Reason.order_not_cancellable o.status))
    payments ← gets (payments_of o.id)
    parts ← gets (parts_of o.id)
    cancel_claimed user o now payments parts

  unfoldable pub cancel_order : String → String → ℕ → Action Order
  cancel_order user order_id now = do
    o ← or_raise (← gets (find_by_id order_id)) (not_found Reason.order_missing)
    raise_if (not (o.user_id === user)) (forbidden Reason.order_not_owned)
    updated ← transaction (cancel_body user order_id now)
    drop_product_caches
    pure updated
