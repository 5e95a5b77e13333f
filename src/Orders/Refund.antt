-- ===== src/Orders/Refund.antt =====
-- `OrdersService.refundOrderItem` (backend/src/orders/orders.service.ts). A requested quantity that is
-- no natural number is refused like 0, and is not represented. The row lock has no effect here.
pub mod Effect
pub mod Quantity
use multi_marketplace.Base.{
  ℕ, ℤ, ◌+◌, ◌*◌, ◌-ℤ◌, neg, pos, String, Bool, ◌||◌, not, List, [], ◌∷◌, Option, none, some,
  find_first, ltb, leb, ◌==◌, scale, is_blank, trim_or, if◌then◌else◌,
}
use multi_marketplace.Store.{
  World, Order, SellerOrder, OrderItem, Payment, Refund, SellerOrderStatus, PaymentStatus,
  RefundStatus, LedgerEntryType, Value, Action, Error, Reason, Signal, gets, raise, raise_if,
  or_raise, pure, send, skip, when, transaction, catch_error, bad_request, forbidden, conflict,
  not_found, unique_violation, record_missing, ◌===◌, ◌>>=◌, ◌>>◌, string_eq,
  seller_order_status_eq, payment_status_eq,
}
use multi_marketplace.Money.{exact, commission, earnings}
use multi_marketplace.Repository.Products
use multi_marketplace.Repository.Outbox
use multi_marketplace.Repository.Outbox.{EventData}
use multi_marketplace.Repository.Orders.{
  find_item, find_seller_order, find_by_id, payments_of, find_refund_by_key, sum_refunded_quantity,
  sum_processed_refunds, update_seller_order, update_payment,
}
use multi_marketplace.Repository.Orders.Creation.{
  RefundData, LedgerData, create_refund, create_ledger_entry,
}
use multi_marketplace.Orders.Checkout.{drop_product_caches}
use Prim.Native.String.{◌++◌ as text_append}

-- An item with what `findOrderItemForRefund` includes.
pub record ItemDetails : Type 0 where
  pub item : OrderItem
  pub seller_order : SellerOrder
  pub order : Order
  pub payments : List Payment

abbrev pub with_order : OrderItem → SellerOrder → Option Order → World → Option ItemDetails
with_order item s none w = none
with_order item s (some o) w =
    some (record { item = item; seller_order = s; order = o; payments = payments_of o.id w })

abbrev pub with_seller_order : OrderItem → Option SellerOrder → World → Option ItemDetails
with_seller_order item none w = none
with_seller_order item (some s) w = with_order item s (find_by_id s.order_id w) w

abbrev pub with_details : Option OrderItem → World → Option ItemDetails
with_details none w = none
with_details (some item) w = with_seller_order item (find_seller_order item.seller_order_id w) w

-- The foreign keys say that an item has its seller order and its order.
unfoldable pub find_item_for_refund : String → World → Option ItemDetails
find_item_for_refund id w = with_details (find_item id w) w

abbrev pub is_settled : Payment → Bool
is_settled p = p.status === PaymentStatus.paid || p.status === PaymentStatus.partially_refunded

-- What a call returns: the refund, and the seller order unless the refund is an earlier one.
pub record Refunded : Type 0 where
  pub refund : Refund
  pub seller_order : Option SellerOrder

abbrev refund_data : ItemDetails → Payment → ℕ → String → String → ℕ → RefundData
refund_data d payment quantity reason key now = record {
  seller_order_id = d.item.seller_order_id;
  order_item_id = d.item.id;
  payment_id = some payment.id;
  amount = d.item.unit_price * quantity;
  quantity = quantity;
  reason = trim_or reason "Refund requested";
  status = RefundStatus.processed;
  idempotency_key = key;
  processed_at = some now;
}

abbrev pub adjustment : String → ℤ → String → LedgerData
adjustment seller_order amount key = record {
  seller_order_id = some seller_order;
  payment_id = none;
  refund_id = none;
  type = LedgerEntryType.adjustment;
  amount = amount;
  idempotency_key = key;
}

abbrev refunded_event : ItemDetails → ℕ → String → EventData
refunded_event d quantity key = record {
  order_id = some d.seller_order.order_id;
  seller_order_id = some d.item.seller_order_id;
  aggregate_type = "SellerOrder";
  aggregate_id = d.item.seller_order_id;
  type = "seller-order.refunded";
  payload =
      ("orderItemId", Value.text d.item.id)
      ∷ ("quantity", Value.count quantity)
      ∷ ("amount", Value.money (pos (d.item.unit_price * quantity)))
      ∷ [];
  available_at = none;
  idempotency_key = text_append key ":refund-event";
}

-- `totalRefunded.gte(payment.amount) ? REFUNDED : PARTIALLY_REFUNDED`.
abbrev pub refund_status : ℕ → ℕ → PaymentStatus
refund_status refunded amount =
    if leb amount refunded then PaymentStatus.refunded else PaymentStatus.partially_refunded

abbrev earlier : Refund → Refunded
earlier r = record { refund = r; seller_order = none }

unfoldable pub recover_refund : String → Error → Action Refunded
recover_refund key unique_violation = do
  retry ← gets (find_refund_by_key key)
  refund ← or_raise retry unique_violation
  pure (earlier refund)
recover_refund key (bad_request r) = raise (bad_request r)
recover_refund key (conflict r) = raise (conflict r)
recover_refund key (forbidden r) = raise (forbidden r)
recover_refund key (not_found r) = raise (not_found r)
recover_refund key record_missing = raise record_missing

module _ (column : ℤ → ℤ) where
  -- The `data` of `updateSellerOrderRefunds`; the decrements are exact before the column stores them.
  abbrev pub deduct : ℕ → ℤ → ℤ → SellerOrder → SellerOrder
  deduct refunded commission earned s = record s {
    refunded_amount = s.refunded_amount + refunded;
    commission_amount = column (scale 10000 s.commission_amount -ℤ commission);
    seller_earnings = column (scale 10000 s.seller_earnings -ℤ earned);
  }

  -- From the update of the seller order to the end of the transaction.
  unfoldable pub settle_refund : ItemDetails → Payment → ℕ → String → Refund → Action Refunded
  settle_refund d payment quantity key refund = do
    let amount = d.item.unit_price * quantity
    let share = commission amount d.seller_order.commission_rate
    let rest = earnings amount d.seller_order.commission_rate
    update_seller_order d.item.seller_order_id (deduct amount share rest)
    updated ← gets (find_seller_order d.item.seller_order_id)
    when (d.seller_order.status === SellerOrderStatus.processing)
        (Products.increment_stock d.item.product_id quantity)
    total ← gets (sum_processed_refunds payment.id)
    update_payment payment.id (λ p. record p { status = refund_status total payment.amount })
    create_ledger_entry column
        (adjustment d.item.seller_order_id (neg share) (text_append key ":commission-adjustment"))
    create_ledger_entry column
        (adjustment d.item.seller_order_id (neg rest) (text_append key ":earnings-adjustment"))
    Outbox.create (refunded_event d quantity key)
    pure (record { refund = refund; seller_order = updated })

  unfoldable pub record_refund : ItemDetails → Payment → ℕ → String → String → ℕ → Action Refunded
  record_refund d payment quantity reason key now = do
    refund ←
        create_refund column (refund_data d payment quantity reason key now)
          (text_append key ":refund-ledger")
    settle_refund d payment quantity key refund

  -- Once the seller order is locked and touched.
  unfoldable pub refund_locked : ItemDetails → ℕ → String → String → ℕ → Action Refunded
  refund_locked d quantity reason key now = do
    refunded ← gets (sum_refunded_quantity d.item.id)
    raise_if (ltb d.item.quantity (refunded + quantity)) (bad_request Reason.quantity_exceeds)
    payment ← or_raise (find_first is_settled d.payments) (bad_request Reason.no_successful_payment)
    record_refund d payment quantity reason key now

  unfoldable pub refund_item : ItemDetails → ℕ → String → String → ℕ → Action Refunded
  refund_item d quantity reason key now = do
    update_seller_order d.item.seller_order_id (λ s. s)
    refund_locked d quantity reason key now

  unfoldable pub refund_body : String → String → ℕ → String → String → ℕ → Action Refunded
  refund_body user item_id quantity reason key now = do
    d ← or_raise (← gets (find_item_for_refund item_id)) (not_found Reason.item_missing)
    raise_if (not (d.order.user_id === user)) (forbidden Reason.item_not_owned)
    raise_if
        (d.seller_order.status === SellerOrderStatus.new
          || d.seller_order.status === SellerOrderStatus.cancelled)
        (bad_request Reason.item_not_refundable)
    refund_item d quantity reason key now

  abbrev pub attempt_refund : String → String → ℕ → String → String → ℕ → Action Refunded
  attempt_refund user item_id quantity reason key now = do
    result ← transaction (refund_body user item_id quantity reason key now)
    drop_product_caches
    send (Signal.metric "refund")
    pure result

  abbrev pub refund_or_again : String → ℕ → Option Refund → Action Refunded → Action Refunded
  refund_or_again item_id quantity (some existing) attempt = do
    raise_if (not (existing.order_item_id === item_id)) (forbidden Reason.key_of_other_refund)
    pure (earlier existing)
  refund_or_again item_id quantity none attempt = do
    raise_if (quantity == 0) (bad_request Reason.quantity_invalid)
    attempt

  unfoldable pub refund_order_item : String → String → ℕ → String → String → ℕ → Action Refunded
  refund_order_item user item_id quantity reason key now = do
    raise_if (is_blank key) (bad_request Reason.key_required)
    existing ← gets (find_refund_by_key key)
    refund_or_again item_id quantity existing
        (catch_error (attempt_refund user item_id quantity reason key now) (recover_refund key))
