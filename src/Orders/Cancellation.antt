-- ===== src/Orders/Cancellation.antt =====
-- What the cancellations of backend/src/orders/orders.service.ts share, and
-- `MockPaymentService.cancel` (backend/src/payments/mock-payment.service.ts).
pub mod Failures
pub mod Refunds
pub mod Bounds
pub mod Whole
pub mod Part
pub mod Unpaid
use multi_marketplace.Base.{
  ℕ, ℤ, ◌+◌, ◌-◌, ◌*◌, ◌-ℤ◌, pos, neg, String, Bool, ◌||◌, not, List, [], ◌∷◌, map, Option, none,
  some, find_first, ◌==◌, if◌then◌else◌, scale,
}
use multi_marketplace.Store.{
  World, Order, SellerOrder, OrderItem, Payment, Refund, SellerOrderStatus, PaymentStatus,
  RefundStatus, LedgerEntryType, Value, Action, gets, pure, skip, ◌===◌, ◌>>=◌, ◌>>◌,
  payment_status_eq,
}
use multi_marketplace.Money.{exact}
use multi_marketplace.Repository.Products
use multi_marketplace.Repository.Outbox
use multi_marketplace.Repository.Outbox.{EventData}
use multi_marketplace.Repository.Orders.{
  items_of, seller_orders_of, sum_refunded_quantity, sum_processed_refunds, update_payment,
}
use multi_marketplace.Repository.Orders.Creation.{
  RefundData, LedgerData, create_refund, create_ledger_entries,
}
use multi_marketplace.Orders.Refund.{adjustment, refund_status}
use Prim.Native.String.{◌++◌ as text_append}

abbrev pub join3 : String → String → String → String
join3 a b c = text_append (text_append a b) c

-- A seller order with the items that the query includes.
abbrev pub Part : Type 0
Part = SellerOrder × List OrderItem

unfoldable pub parts_of : String → World → List Part
parts_of order w = map (λ s. (s, items_of s.id w)) (seller_orders_of order w)

-- What differs between the two services that refund what they cancel: the texts and the events.
pub record Plan : Type 0 where
  pub seller_order : SellerOrder
  pub payment : Option Payment
  pub reason : String
  pub now : ℕ
  pub refund_key : OrderItem → String
  pub ledger_key : OrderItem → String
  pub event : OrderItem → ℕ → EventData

-- `refundTotal`, in cents, and `commissionReduction`, in ten-thousandths of a cent.
abbrev pub Totals : Type 0
Totals = ℕ × ℕ

abbrev cancel_refund_data : Plan → Payment → OrderItem → ℕ → RefundData
cancel_refund_data plan payment item quantity = record {
  seller_order_id = plan.seller_order.id;
  order_item_id = item.id;
  payment_id = some payment.id;
  amount = item.unit_price * quantity;
  quantity = quantity;
  reason = plan.reason;
  status = RefundStatus.processed;
  idempotency_key = plan.refund_key item;
  processed_at = some plan.now;
}

-- `totalRefunded.gte(payment.amount) ? REFUNDED : PARTIALLY_REFUNDED`, if there is a payment.
unfoldable pub mark_refunded : Option Payment → Action (Unit {0})
mark_refunded none = skip
mark_refunded (some payment) = do
  total ← gets (sum_processed_refunds payment.id)
  update_payment payment.id (λ p. record p { status = refund_status total payment.amount })

-- `MockPaymentService.cancel`, and the update that follows it.
abbrev pub cancel_ref : String → String
cancel_ref payment = text_append "mock-cancel:" payment

abbrev pub void_payment : Payment → Payment
void_payment p = record p {
  status = PaymentStatus.cancelled;
  provider_ref = some (cancel_ref p.id);
}

abbrev pub reductions : String → Totals → String → String → List LedgerData
reductions seller_order (total, reduction) commission_key earnings_key =
    adjustment seller_order (neg (pos reduction)) commission_key
    ∷ adjustment seller_order (neg (exact total -ℤ pos reduction)) earnings_key
    ∷ []

-- `Math.max(item.quantity - alreadyRefunded, 0)`.
abbrev pub refundable : OrderItem → World → ℕ
refundable item w = item.quantity - sum_refunded_quantity item.id w

abbrev pub add_totals : Plan → OrderItem → ℕ → Totals → Totals
add_totals plan item quantity (total, reduction) = (
  total + item.unit_price * quantity,
  reduction + item.unit_price * quantity * plan.seller_order.commission_rate,
)

unfoldable pub returned : Plan → OrderItem → ℕ → Totals → Action Totals
returned plan item quantity totals = do
  Outbox.create (plan.event item quantity)
  pure (add_totals plan item quantity totals)

module _ (column : ℤ → ℤ) where
  -- `if (payment) await createRefund(...)`.
  unfoldable pub refund_if_paid : Plan → OrderItem → ℕ → Option Payment → Action (Unit {0})
  refund_if_paid plan item quantity none = skip
  refund_if_paid plan item quantity (some payment) = do
    create_refund column (cancel_refund_data plan payment item quantity) (plan.ledger_key item)
    skip

  unfoldable pub return_quantity : Plan → OrderItem → ℕ → Totals → Action Totals
  return_quantity plan item quantity totals = do
    refund_if_paid plan item quantity plan.payment
    Products.increment_stock item.product_id quantity
    returned plan item quantity totals

  abbrev return_refundable : Plan → OrderItem → Totals → ℕ → Action Totals
  return_refundable plan item totals quantity =
      if quantity == 0 then pure totals else return_quantity plan item quantity totals

  -- One round of the loop over the items.
  unfoldable pub return_item : Plan → OrderItem → Totals → Action Totals
  return_item plan item totals = do
    quantity ← gets (refundable item)
    return_refundable plan item totals quantity

  unfoldable pub return_items : Plan → List OrderItem → Totals → Action Totals
  return_items plan [] totals w = pure totals w
  return_items plan (i ∷ is) totals w = (return_item plan i totals >>= return_items plan is) w
