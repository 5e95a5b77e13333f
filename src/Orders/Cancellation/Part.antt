-- ===== src/Orders/Cancellation/Part.antt =====
-- `OrdersService.cancelSellerOrder` and `cancelCustomerSuborder`
-- (backend/src/orders/orders.service.ts). The two reads of the clock are one argument.
use multi_marketplace.Base.{
  ℕ, ℤ, ◌-ℤ◌, pos, String, Bool, not, List, [], ◌∷◌, Option, none, some, find_first, ◌==◌, is_blank,
  trim_or,
}
use multi_marketplace.Store.{
  World, Order, SellerOrder, OrderItem, Payment, OutboxEvent, OrderStatus, SellerOrderStatus, Value,
  Action, Error, Reason, gets, raise, raise_if, or_raise, pure, transaction, catch_error,
  bad_request, forbidden, conflict, not_found, unique_violation, record_missing, ◌===◌, ◌>>=◌, ◌>>◌,
  string_eq,
}
use multi_marketplace.Money.{exact}
use multi_marketplace.Repository.Outbox
use multi_marketplace.Repository.Outbox.{EventData, find_by_idempotency_key}
use multi_marketplace.Repository.Orders.{
  find_seller_order, payments_of, items_of, seller_order_statuses, includes,
  claim_seller_order_cancellation, update_order_status, update_seller_order,
}
use multi_marketplace.Repository.Orders.Creation.{create_ledger_entries}
use multi_marketplace.Orders.Status.{derive_order_status}
use multi_marketplace.Orders.Checkout.{drop_product_caches}
use multi_marketplace.Orders.Shipping.{WithOrder, find_with_order, order_status_text}
use multi_marketplace.Orders.Refund.{is_settled, deduct}
use multi_marketplace.Orders.Cancellation.{
  Plan, Totals, return_items, reductions, mark_refunded, join3,
}
use multi_marketplace.Orders.Cancellation.Whole.{if_paid, open_statuses}
use Prim.Native.String.{◌++◌ as text_append}

abbrev pub cancel_key : String → String
cancel_key key = text_append "seller-order-cancel:" key

abbrev part_stock_event : String → SellerOrder → OrderItem → ℕ → EventData
part_stock_event key s item quantity = record {
  order_id = some s.order_id;
  seller_order_id = some s.id;
  aggregate_type = "Product";
  aggregate_id = item.product_id;
  type = "product.stock-changed";
  payload = ("productId", Value.text item.product_id) ∷ ("quantity", Value.count quantity) ∷ [];
  available_at = none;
  idempotency_key = join3 (cancel_key key) ":stock:" item.product_id;
}

abbrev pub part_plan : String → String → Option Payment → ℕ → SellerOrder → Plan
part_plan key reason payment now s = record {
  seller_order = s;
  payment = payment;
  reason = trim_or reason "Cancelled by seller";
  now = now;
  refund_key = λ i. join3 key ":refund:" i.id;
  ledger_key = λ i. join3 key ":refund-ledger:" i.id;
  event = part_stock_event key s;
}

-- Who cancels: the seller, or the customer where `customerId` is given.
pub data Canceller : Type 0 where
  seller : String → Canceller
  customer : String → Canceller

abbrev pub may_cancel : Canceller → WithOrder → Bool
may_cancel (Canceller.seller id) (s, o) = s.seller_id === id
may_cancel (Canceller.customer id) (s, o) = o.user_id === id

abbrev pub cancellable : Canceller → List SellerOrderStatus
cancellable (Canceller.seller id) = open_statuses
cancellable (Canceller.customer id) =
    SellerOrderStatus.new ∷ SellerOrderStatus.payment_pending ∷ SellerOrderStatus.processing ∷ []

abbrev default_reason : Canceller → String
default_reason (Canceller.seller id) = "Cancelled by seller"
default_reason (Canceller.customer id) = "Cancelled by customer"

abbrev seller_order_cancelled : String → SellerOrder → Order → String → ℕ → EventData
seller_order_cancelled key s o reason total = record {
  order_id = some o.id;
  seller_order_id = some s.id;
  aggregate_type = "SellerOrder";
  aggregate_id = s.id;
  type = "seller-order.cancelled";
  payload =
      ("sellerId", Value.text s.seller_id)
      ∷ ("reason", Value.text reason)
      ∷ ("refundAmount", Value.money (pos total))
      ∷ [];
  available_at = none;
  idempotency_key = cancel_key key;
}

abbrev order_changed : String → Order → OrderStatus → EventData
order_changed key o status = record {
  order_id = some o.id;
  seller_order_id = none;
  aggregate_type = "Order";
  aggregate_id = o.id;
  type = "order.status-changed";
  payload = ("status", Value.text (order_status_text status)) ∷ [];
  available_at = none;
  idempotency_key = text_append (cancel_key key) ":order-status";
}

-- `findSellerOrderByIdempotencyKey`: the seller order of the event.
abbrev seller_order_of_event : Option OutboxEvent → World → Option SellerOrder
seller_order_of_event none w = none
seller_order_of_event (some e) w = elim e.seller_order_id [
  | none ↦ none
  | some id ↦ find_seller_order id w
]

unfoldable pub find_cancelled : String → World → Option SellerOrder
find_cancelled key w = seller_order_of_event (find_by_idempotency_key (cancel_key key) w) w

unfoldable pub recover_cancellation : String → Error → Action SellerOrder
recover_cancellation key unique_violation = do
  retry ← gets (find_cancelled key)
  or_raise retry unique_violation
recover_cancellation key (bad_request r) = raise (bad_request r)
recover_cancellation key (conflict r) = raise (conflict r)
recover_cancellation key (forbidden r) = raise (forbidden r)
recover_cancellation key (not_found r) = raise (not_found r)
recover_cancellation key record_missing = raise record_missing

module _ (column : ℤ → ℤ) where
  -- The `data` of the update that follows the loop.
  abbrev pub cancel_data : String → Option Payment → ℕ → Totals → SellerOrder → SellerOrder
  cancel_data reason payment now (total, reduction) s =
      record (deduct column (if_paid payment total) (pos reduction) (exact total -ℤ pos reduction)
        s) {
          status = SellerOrderStatus.cancelled;
          cancelled_at = some now;
          cancellation_reason = some (trim_or reason "Cancelled by seller");
        }

  -- From the update of the seller order to the end of the transaction.
  unfoldable pub settle_cancelled :
      String → String → Option Payment → ℕ → SellerOrder → Order → Totals → Action SellerOrder
  settle_cancelled key reason payment now s o totals = do
    update_seller_order s.id (cancel_data reason payment now totals)
    updated ← gets (find_seller_order s.id)
    status ← gets λ w. derive_order_status (seller_order_statuses s.order_id w)
    update_order_status s.order_id status
    mark_refunded payment
    create_ledger_entries column (
        reductions s.id totals (text_append key ":commission-adjustment")
          (text_append key ":earnings-adjustment"))
    Outbox.create_many
        (seller_order_cancelled key s o reason totals.0 ∷ order_changed key o status ∷ [])
    or_raise updated record_missing

  unfoldable pub return_cancelled :
      String
      → String
      → Option Payment
      → ℕ
      → SellerOrder
      → Order
      → List OrderItem
      → Action SellerOrder
  return_cancelled key reason payment now s o items = do
    totals ← return_items column (part_plan key reason payment now s) items (0, 0)
    settle_cancelled key reason payment now s o totals

  unfoldable pub cancel_owned :
      Canceller
      → String
      → String
      → ℕ
      → WithOrder
      → List Payment
      → List OrderItem
      → Action SellerOrder
  cancel_owned by key reason now (s, o) payments items = do
    raise_if (not (includes (cancellable by) s.status))
        (bad_request (Reason.seller_order_not_cancellable s.status))
    claimed ←
        claim_seller_order_cancellation s.id (cancellable by) (trim_or reason (default_reason by))
          now
    raise_if (claimed == 0) (bad_request Reason.cancellation_processed)
    return_cancelled key reason (find_first is_settled payments) now s o items

  abbrev pub cancel_found : Canceller → String → String → ℕ → WithOrder → Action SellerOrder
  cancel_found by key reason now (s, o) = do
    raise_if (not (may_cancel by (s, o))) (forbidden Reason.seller_order_not_owned)
    payments ← gets (payments_of o.id)
    items ← gets (items_of s.id)
    cancel_owned by key reason now (s, o) payments items

  -- The body of the transaction.
  unfoldable pub cancel_part_body : Canceller → String → String → String → ℕ → Action SellerOrder
  cancel_part_body by id key reason now = do
    found ← or_raise (← gets (find_with_order id)) (not_found Reason.seller_order_missing)
    cancel_found by key reason now found

  unfoldable pub attempt_cancellation :
      Canceller → String → String → String → ℕ → Action SellerOrder
  attempt_cancellation by id key reason now = do
    result ← transaction (cancel_part_body by id key reason now)
    drop_product_caches
    pure result

  abbrev pub cancel_or_again :
      Canceller → String → String → String → ℕ → Option SellerOrder → Action SellerOrder
  cancel_or_again by id key reason now (some existing) = pure existing
  cancel_or_again by id key reason now none =
      catch_error (attempt_cancellation by id key reason now) (recover_cancellation key)

  -- The reason is the argument or its default, "Cancelled by seller".
  unfoldable pub cancel_seller_order : Canceller → String → String → String → ℕ → Action SellerOrder
  cancel_seller_order by id key reason now = do
    raise_if (is_blank key) (bad_request Reason.key_required)
    existing ← gets (find_cancelled key)
    cancel_or_again by id key reason now existing

  unfoldable pub cancel_customer_suborder :
      String → String → String → String → ℕ → Action SellerOrder
  cancel_customer_suborder user id key reason now =
      cancel_seller_order (Canceller.customer user) id key reason now
