-- ===== src/Repository/Orders.antt =====
-- backend/src/database/order.repository.ts: reads and updates.
pub mod Creation
pub mod Frame
pub mod Stored
use multi_marketplace.Base.{
  ℕ, ℤ, ◌+◌, ◌+ℤ◌, ◌-ℤ◌, pos, scale, String, Bool, ◌&&◌, ◌||◌, not, true, false, List, [], ◌∷◌,
  Option, none, some, find_first, select, update_where, count_where, sum_by, any, map,
  if◌then◌else◌,
}
use multi_marketplace.Store.{
  World, Order, SellerOrder, OrderItem, Payment, Refund, OrderStatus, SellerOrderStatus,
  PaymentStatus, RefundStatus, Action, ok, modify, require_row, gets, ◌===◌, ◌>>=◌, ◌>>◌, string_eq,
  option_eq, order_status_eq, seller_order_status_eq, refund_status_eq,
}

unfoldable pub find_by_id : String → World → Option Order
find_by_id id w = find_first (λ o. o.id === id) w.orders

unfoldable pub find_payment_by_key : String → World → Option Payment
find_payment_by_key key w = find_first (λ p. p.idempotency_key === key) w.payments

-- `findByPaymentIdempotencyKey` and `findPaymentWithSellerOrderItems`: the order of the payment.
abbrev pub order_of : Option Payment → World → Option Order
order_of none w = none
order_of (some p) w = find_by_id p.order_id w

unfoldable pub find_order_by_payment_key : String → World → Option Order
find_order_by_payment_key key w = order_of (find_payment_by_key key w) w

-- The relations that the queries include.
unfoldable pub payments_of : String → World → List Payment
payments_of order w = select (λ p. p.order_id === order) w.payments

unfoldable pub seller_orders_of : String → World → List SellerOrder
seller_orders_of order w = select (λ s. s.order_id === order) w.seller_orders

unfoldable pub items_of : String → World → List OrderItem
items_of seller_order w = select (λ i. i.seller_order_id === seller_order) w.order_items

unfoldable pub find_seller_order : String → World → Option SellerOrder
find_seller_order id w = find_first (λ s. s.id === id) w.seller_orders

unfoldable pub find_item : String → World → Option OrderItem
find_item id w = find_first (λ i. i.id === id) w.order_items

unfoldable pub find_refund_by_key : String → World → Option Refund
find_refund_by_key key w = find_first (λ r. r.idempotency_key === key) w.refunds

unfoldable pub seller_order_statuses : String → World → List SellerOrderStatus
unfolding seller_orders_of
seller_order_statuses order w = map (λ s. s.status) (seller_orders_of order w)

abbrev update_orders : (Order → Bool) → (Order → Order) → Action ℕ
update_orders p f w = (ok (count_where p w.orders), record w { orders = update_where p f w.orders })

abbrev update_seller_orders : (SellerOrder → Bool) → (SellerOrder → SellerOrder) → Action ℕ
update_seller_orders p f w = (
  ok (count_where p w.seller_orders),
  record w { seller_orders = update_where p f w.seller_orders },
)

abbrev update_payments : (Payment → Bool) → (Payment → Payment) → Action ℕ
update_payments p f w =
    (ok (count_where p w.payments), record w { payments = update_where p f w.payments })

unfoldable pub update_order_payment_pending : String → Action ℕ
update_order_payment_pending order =
    update_orders (λ o. o.id === order && o.status === OrderStatus.new)
      λ o. record o { status = OrderStatus.payment_pending }

unfoldable pub update_seller_orders_payment_pending : String → Action ℕ
update_seller_orders_payment_pending order =
    update_seller_orders (λ s. s.order_id === order && s.status === SellerOrderStatus.new)
      λ s. record s { status = SellerOrderStatus.payment_pending }

abbrev pub is_awaiting : String → SellerOrder → Bool
is_awaiting order s =
    s.order_id === order
    && (s.status === SellerOrderStatus.payment_pending || s.status === SellerOrderStatus.new)

unfoldable pub update_seller_orders_processing : String → Action ℕ
update_seller_orders_processing order =
    update_seller_orders (is_awaiting order) λ s. record s { status = SellerOrderStatus.processing }

-- The `where` of `claimOrderCancellation`.
abbrev pub is_open_order : String → Order → Bool
is_open_order order o =
    o.id === order && not (o.status === OrderStatus.completed || o.status === OrderStatus.cancelled)

unfoldable pub claim_order_cancellation : String → Action ℕ
claim_order_cancellation order =
    update_orders (is_open_order order) λ o. record o { status = OrderStatus.cancelled }

abbrev pub includes : List SellerOrderStatus → SellerOrderStatus → Bool
includes ss s = any (λ t. t === s) ss

abbrev pub is_claimable : String → List SellerOrderStatus → SellerOrder → Bool
is_claimable id statuses s = s.id === id && includes statuses s.status

unfoldable pub claim_seller_order_cancellation :
    String → List SellerOrderStatus → String → ℕ → Action ℕ
claim_seller_order_cancellation id statuses reason now =
    update_seller_orders (is_claimable id statuses) λ s. record s {
      status = SellerOrderStatus.cancelled;
      cancelled_at = some now;
      cancellation_reason = some reason;
    }

unfoldable pub update_order_status : String → OrderStatus → Action (Unit {0})
update_order_status order status = do
  n ← update_orders (λ o. o.id === order) λ o. record o { status = status }
  require_row n

unfoldable pub update_payment : String → (Payment → Payment) → Action (Unit {0})
update_payment id f = do n ← update_payments (λ p. p.id === id) f; require_row n

unfoldable pub update_seller_order : String → (SellerOrder → SellerOrder) → Action (Unit {0})
update_seller_order id f = do n ← update_seller_orders (λ s. s.id === id) f; require_row n

-- The refunds of an item that `sumRefundedQuantity` counts.
abbrev pub is_live_refund : String → Refund → Bool
is_live_refund item r =
    r.order_item_id === item
    && (r.status === RefundStatus.pending
        || r.status === RefundStatus.approved
        || r.status === RefundStatus.processed)

unfoldable pub sum_refunded_quantity : String → World → ℕ
sum_refunded_quantity item w = sum_by (λ r. r.quantity) (select (is_live_refund item) w.refunds)

abbrev pub is_processed_refund : String → Refund → Bool
is_processed_refund payment r = r.payment_id === some payment && r.status === RefundStatus.processed

unfoldable pub sum_processed_refunds : String → World → ℕ
sum_processed_refunds payment w =
    sum_by (λ r. r.amount) (select (is_processed_refund payment) w.refunds)

abbrev pub is_processed_for : String → Refund → Bool
is_processed_for item r = r.order_item_id === item && r.status === RefundStatus.processed

unfoldable pub sum_processed_refund_quantity : String → World → ℕ
sum_processed_refund_quantity item w =
    sum_by (λ r. r.quantity) (select (is_processed_for item) w.refunds)
