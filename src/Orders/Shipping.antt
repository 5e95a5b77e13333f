-- ===== src/Orders/Shipping.antt =====
-- `OrdersService.updateSellerOrderStatus` (backend/src/orders/orders.service.ts).
pub mod Parent
pub mod Repeats
use multi_marketplace.Base.{
  ℕ, String, Bool, true, false, not, List, [], ◌∷◌, ◌++◌, Option, none, some, is_blank, trim,
  if◌then◌else◌,
}
use multi_marketplace.Store.{
  World, Order, SellerOrder, OrderStatus, SellerOrderStatus, Value, Action, Reason, gets, raise_if,
  or_raise, pure, when, transaction, forbidden, not_found, ◌===◌, ◌>>=◌, ◌>>◌, string_eq,
  order_status_eq, seller_order_status_eq,
}
use multi_marketplace.Repository.Outbox
use multi_marketplace.Repository.Outbox.{EventData}
use multi_marketplace.Repository.Orders.{
  find_seller_order, find_by_id, update_seller_order, update_order_status, seller_order_statuses,
}
use multi_marketplace.Orders.Status.{derive_order_status, assert_transition}
use Prim.Native.String.{◌++◌ as text_append}

abbrev pub seller_status_text : SellerOrderStatus → String
seller_status_text SellerOrderStatus.new = "NEW"
seller_status_text SellerOrderStatus.payment_pending = "PAYMENT_PENDING"
seller_status_text SellerOrderStatus.processing = "PROCESSING"
seller_status_text SellerOrderStatus.shipped = "SHIPPED"
seller_status_text SellerOrderStatus.completed = "COMPLETED"
seller_status_text SellerOrderStatus.cancelled = "CANCELLED"

abbrev pub order_status_text : OrderStatus → String
order_status_text OrderStatus.new = "NEW"
order_status_text OrderStatus.payment_pending = "PAYMENT_PENDING"
order_status_text OrderStatus.processing = "PROCESSING"
order_status_text OrderStatus.partially_shipped = "PARTIALLY_SHIPPED"
order_status_text OrderStatus.shipped = "SHIPPED"
order_status_text OrderStatus.partially_completed = "PARTIALLY_COMPLETED"
order_status_text OrderStatus.completed = "COMPLETED"
order_status_text OrderStatus.partially_cancelled = "PARTIALLY_CANCELLED"
order_status_text OrderStatus.cancelled = "CANCELLED"

-- A seller order with the order that the query includes; the foreign key says that it is there.
abbrev pub WithOrder : Type 0
WithOrder = SellerOrder × Order

abbrev pub join_order : SellerOrder → Option Order → Option WithOrder
join_order s none = none
join_order s (some o) = some (s, o)

abbrev pub join_found : Option SellerOrder → World → Option WithOrder
join_found none w = none
join_found (some s) w = join_order s (find_by_id s.order_id w)

unfoldable pub find_with_order : String → World → Option WithOrder
find_with_order id w = join_found (find_seller_order id w) w

-- `...(dto.trackingNumber?.trim() && { trackingNumber: dto.trackingNumber.trim() })`.
abbrev pub tracking : Option String → Option String → Option String
tracking none old = old
tracking (some t) old = if is_blank t then old else some (trim t)

-- The `data` of the update.
abbrev pub move : SellerOrderStatus → Option String → ℕ → SellerOrder → SellerOrder
move status number now s = record s {
  status = status;
  tracking_number =
      if status === SellerOrderStatus.shipped
      then tracking number s.tracking_number
      else s.tracking_number;
  shipped_at = if status === SellerOrderStatus.shipped then some now else s.shipped_at;
  completed_at = if status === SellerOrderStatus.completed then some now else s.completed_at;
}

abbrev key5 : String → String → String → String → String
key5 id kind a b = text_append (text_append (text_append (text_append id kind) a) ":") b

abbrev moved_event : SellerOrder → Order → SellerOrderStatus → EventData
moved_event s o status = record {
  order_id = some o.id;
  seller_order_id = some s.id;
  aggregate_type = "SellerOrder";
  aggregate_id = s.id;
  type = "seller-order.status-changed";
  payload =
      ("sellerId", Value.text s.seller_id)
      ∷ ("previousStatus", Value.text (seller_status_text s.status))
      ∷ ("status", Value.text (seller_status_text status))
      ∷ [];
  available_at = none;
  idempotency_key = key5 s.id ":status:" (seller_status_text s.status) (seller_status_text status);
}

-- The key of the event about the order names the order and the two statuses.
abbrev pub parent_key : Order → OrderStatus → String
parent_key o next = key5 o.id ":status:" (order_status_text o.status) (order_status_text next)

abbrev parent_event : Order → OrderStatus → EventData
parent_event o next = record {
  order_id = some o.id;
  seller_order_id = none;
  aggregate_type = "Order";
  aggregate_id = o.id;
  type = "order.status-changed";
  payload =
      ("previousStatus", Value.text (order_status_text o.status))
      ∷ ("status", Value.text (order_status_text next))
      ∷ [];
  available_at = none;
  idempotency_key = parent_key o next;
}

abbrev pub is_changed : Order → OrderStatus → Bool
is_changed o next = not (o.status === next)

abbrev pub move_events : SellerOrder → Order → SellerOrderStatus → OrderStatus → List EventData
move_events s o status next =
    moved_event s o status ∷ (if is_changed o next then parent_event o next ∷ [] else [])

abbrev pub with_status : OrderStatus → Order → Order
with_status next o = if is_changed o next then record o { status = next } else o

unfoldable pub set_parent : SellerOrder → Order → OrderStatus → Action (Unit {0})
set_parent s o next = when (is_changed o next) (update_order_status s.order_id next)

unfoldable pub announce_move :
    SellerOrder → Order → SellerOrderStatus → Option String → ℕ → OrderStatus → Action WithOrder
announce_move s o status number now next = do
  Outbox.create_many (move_events s o status next)
  pure (move status number now s, with_status next o)

-- From the status of the siblings to the end of the transaction.
unfoldable pub follow_up :
    SellerOrder → Order → SellerOrderStatus → Option String → ℕ → Action WithOrder
follow_up s o status number now = do
  next ← gets λ w. derive_order_status (seller_order_statuses s.order_id w)
  set_parent s o next
  announce_move s o status number now next

unfoldable pub update_and_follow :
    SellerOrder → Order → SellerOrderStatus → Option String → ℕ → Action WithOrder
update_and_follow s o status number now = do
  update_seller_order s.id (move status number now)
  follow_up s o status number now

unfoldable pub move_seller_order :
    SellerOrder → Order → SellerOrderStatus → Option String → ℕ → Action WithOrder
move_seller_order s o status number now = do
  assert_transition s.status status
  update_and_follow s o status number now

abbrev pub move_owned :
    String → SellerOrderStatus → Option String → ℕ → WithOrder → Action WithOrder
move_owned seller status number now (s, o) = do
  raise_if (not (s.seller_id === seller)) (forbidden Reason.seller_order_not_owned)
  move_seller_order s o status number now

unfoldable pub update_seller_order_status :
    String → String → SellerOrderStatus → Option String → ℕ → Action WithOrder
update_seller_order_status seller id status number now = transaction do
  found ← or_raise (← gets (find_with_order id)) (not_found Reason.seller_order_missing)
  move_owned seller status number now found
