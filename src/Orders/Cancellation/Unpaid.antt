-- ===== src/Orders/Cancellation/Unpaid.antt =====
-- `OrdersService.cancelPayment` (backend/src/orders/orders.service.ts). The clock is read in each claim;
-- one argument stands for these reads.
use multi_marketplace.Base.{
  ℕ, ℤ, neg, String, Bool, true, false, ◌&&◌, not, any, List, [], ◌∷◌, Option, none, some,
  find_first, ◌==◌, is_blank, scale,
}
use multi_marketplace.Store.{
  World, Order, SellerOrder, OrderItem, Payment, OutboxEvent, OrderStatus, SellerOrderStatus, Value,
  Action, Error, Reason, gets, raise, raise_if, or_raise, pure, skip, for_each, transaction,
  catch_error, bad_request, forbidden, conflict, not_found, unique_violation, record_missing, ◌===◌,
  ◌>>=◌, ◌>>◌, string_eq, order_status_eq, seller_order_status_eq,
}
use multi_marketplace.Repository.Products
use multi_marketplace.Repository.Outbox
use multi_marketplace.Repository.Outbox.{EventData, find_by_idempotency_key}
use multi_marketplace.Repository.Orders.{
  find_by_id, payments_of, seller_order_statuses, claim_seller_order_cancellation,
  update_order_status, update_payment,
}
use multi_marketplace.Repository.Orders.Creation.{create_ledger_entries}
use multi_marketplace.Orders.Status.{derive_order_status, is_cancelled}
use multi_marketplace.Orders.Payment.{is_pending}
use multi_marketplace.Orders.Refund.{adjustment}
use multi_marketplace.Orders.Cancellation.{Part, parts_of, void_payment, cancel_ref, join3}
use Prim.Native.String.{◌++◌ as text_append}

abbrev pub void_key : String → String
void_key key = text_append "payment-cancelled:" key

abbrev pub waiting_statuses : List SellerOrderStatus
waiting_statuses = SellerOrderStatus.payment_pending ∷ SellerOrderStatus.new ∷ []

-- The seller order that has left the statuses in which a payment can be cancelled.
abbrev pub is_started : Part → Bool
is_started (s, items) =
    not (s.status === SellerOrderStatus.payment_pending)
    && not (s.status === SellerOrderStatus.new)
    && not (is_cancelled s.status)

abbrev void_part_event : String → String → SellerOrder → EventData
void_part_event key order_id s = record {
  order_id = some order_id;
  seller_order_id = some s.id;
  aggregate_type = "SellerOrder";
  aggregate_id = s.id;
  type = "seller-order.cancelled";
  payload = ("sellerId", Value.text s.seller_id) ∷ ("reason", Value.text "Payment cancelled") ∷ [];
  available_at = none;
  idempotency_key = join3 (void_key key) ":seller-order:" s.id;
}

abbrev void_stock_event : String → String → OrderItem → EventData
void_stock_event key order_id item = record {
  order_id = some order_id;
  seller_order_id = none;
  aggregate_type = "Product";
  aggregate_id = item.product_id;
  type = "product.stock-changed";
  payload =
      ("productId", Value.text item.product_id) ∷ ("quantity", Value.count item.quantity) ∷ [];
  available_at = none;
  idempotency_key = join3 (void_key key) ":stock:" item.product_id;
}

abbrev void_event : String → Order → Payment → EventData
void_event key o p = record {
  order_id = some o.id;
  seller_order_id = none;
  aggregate_type = "Payment";
  aggregate_id = p.id;
  type = "payment.cancelled";
  payload = ("orderId", Value.text o.id) ∷ ("providerRef", Value.text (cancel_ref p.id)) ∷ [];
  available_at = none;
  idempotency_key = void_key key;
}

abbrev order_of_event : Option OutboxEvent → World → Option Order
order_of_event none w = none
order_of_event (some e) w = elim e.order_id [ none ↦ none | some id ↦ find_by_id id w ]

unfoldable pub find_voided : String → World → Option Order
find_voided key w = order_of_event (find_by_idempotency_key (void_key key) w) w

unfoldable pub recover_void : String → Error → Action Order
recover_void key unique_violation = do
  retry ← gets (find_voided key)
  or_raise retry unique_violation
recover_void key (bad_request r) = raise (bad_request r)
recover_void key (conflict r) = raise (conflict r)
recover_void key (forbidden r) = raise (forbidden r)
recover_void key (not_found r) = raise (not_found r)
recover_void key record_missing = raise record_missing

unfoldable pub void_item : String → String → OrderItem → Action (Unit {0})
void_item key order_id item = do
  Products.increment_stock item.product_id item.quantity
  Outbox.create (void_stock_event key order_id item)

unfoldable pub close_void : String → Order → Payment → Action Order
close_void key o p = do
  status ← gets λ w. derive_order_status (seller_order_statuses o.id w)
  update_order_status o.id status
  Outbox.create (void_event key o p)
  pure (record o { status = status })

module _ (column : ℤ → ℤ) where
  -- What follows the claim of a seller order.
  unfoldable pub void_claimed : String → String → Part → Action (Unit {0})
  void_claimed key order_id (s, items) = do
    create_ledger_entries column (
        adjustment s.id (neg (scale 10000 s.commission_amount))
          (join3 (void_key key) ":commission:" s.id)
        ∷ adjustment s.id (neg (scale 10000 s.seller_earnings))
            (join3 (void_key key) ":earnings:" s.id)
        ∷ [])
    Outbox.create (void_part_event key order_id s)
    for_each items (void_item key order_id)

  abbrev pub void_if_claimed : String → String → Part → Bool → Action (Unit {0})
  void_if_claimed key order_id part true = skip
  void_if_claimed key order_id part false = void_claimed key order_id part

  unfoldable pub void_open : String → String → ℕ → Part → Action (Unit {0})
  void_open key order_id now part = do
    claimed ← claim_seller_order_cancellation part.0.id waiting_statuses "Payment cancelled" now
    void_if_claimed key order_id part (claimed == 0)

  abbrev pub void_unless_cancelled : String → String → ℕ → Part → Bool → Action (Unit {0})
  void_unless_cancelled key order_id now part true = skip
  void_unless_cancelled key order_id now part false = void_open key order_id now part

  -- One round of the loop over the seller orders.
  unfoldable pub void_part : String → String → ℕ → Part → Action (Unit {0})
  void_part key order_id now part =
      void_unless_cancelled key order_id now part (is_cancelled part.0.status)

  unfoldable pub void_parts : String → Order → Payment → ℕ → List Part → Action Order
  void_parts key o p now parts = do
    raise_if (any is_started parts) (bad_request Reason.processing_started)
    update_payment p.id void_payment
    for_each parts (void_part key o.id now)
    close_void key o p

  unfoldable pub void_body : String → String → String → ℕ → Action Order
  void_body user order_id key now = do
    o ← or_raise (← gets (find_by_id order_id)) (not_found Reason.order_missing)
    raise_if (not (o.user_id === user)) (forbidden Reason.order_not_owned)
    raise_if (o.status === OrderStatus.cancelled) (bad_request Reason.cancellation_processed)
    payments ← gets (payments_of o.id)
    p ← or_raise (find_first is_pending payments) (bad_request Reason.only_pending_payments)
    parts ← gets (parts_of o.id)
    void_parts key o p now parts

  abbrev pub void_or_again : String → String → String → ℕ → Option Order → Action Order
  void_or_again user order_id key now (some existing) = pure existing
  void_or_again user order_id key now none =
      catch_error (transaction (void_body user order_id key now)) (recover_void key)

  unfoldable pub cancel_payment : String → String → String → ℕ → Action Order
  cancel_payment user order_id key now = do
    raise_if (is_blank key) (bad_request Reason.key_required)
    existing ← gets (find_voided key)
    void_or_again user order_id key now existing
