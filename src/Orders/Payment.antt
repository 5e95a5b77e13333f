-- ===== src/Orders/Payment.antt =====
-- `OrdersService.payOrder` (backend/src/orders/orders.service.ts) and the provider's `charge`
-- (backend/src/payments/mock-payment.service.ts). The pause between the two transactions is left out.
pub mod Charge
pub mod Waiting
pub mod Parts
pub mod Calls
use multi_marketplace.Base.{
  ℕ, ℤ, pos, String, Bool, ◌||◌, ◌&&◌, not, List, [], ◌∷◌, Option, none, some, find_first, any,
  every, select, sum_by, ◌==◌, is_blank, if◌then◌else◌,
}
use multi_marketplace.Store.{
  World, Order, SellerOrder, Payment, OrderStatus, SellerOrderStatus, PaymentStatus,
  LedgerEntryType, Value, OutboxEvent, Action, Error, Reason, Signal, gets, raise, raise_if,
  or_raise, pure, send, when, for_each, transaction, catch_error, bad_request, forbidden, conflict,
  not_found, unique_violation, record_missing, ◌===◌, ◌>>=◌, ◌>>◌, string_eq, order_status_eq,
  seller_order_status_eq, payment_status_eq,
}
use multi_marketplace.Money.{exact}
use multi_marketplace.Repository.Outbox
use multi_marketplace.Repository.Outbox.{EventData, find_by_idempotency_key}
use multi_marketplace.Repository.Orders.{
  find_by_id, payments_of, seller_orders_of, seller_order_statuses, update_order_payment_pending,
  update_seller_orders_payment_pending, update_seller_orders_processing, update_order_status,
  update_payment,
}
use multi_marketplace.Repository.Orders.Creation.{LedgerData, create_ledger_entry}
use multi_marketplace.Orders.Status.{derive_order_status, is_cancelled}
use Prim.Native.String.{◌++◌ as text_append}

abbrev pub is_pending : Payment → Bool
is_pending p = p.status === PaymentStatus.pending

abbrev pub is_completed_payment : Payment → Bool
is_completed_payment p =
    p.status === PaymentStatus.paid || p.status === PaymentStatus.partially_refunded

-- The statuses in which the second transaction accepts an order.
abbrev pub is_payable : OrderStatus → Bool
is_payable s =
    s === OrderStatus.payment_pending
    || s === OrderStatus.new
    || s === OrderStatus.partially_cancelled

-- `MockPaymentService.charge`.
abbrev pub charge_ref : String → String
charge_ref payment = text_append "mock-charge:" payment

-- What the seller orders that are not cancelled come to.
abbrev pub payable_amount : List SellerOrder → ℕ
payable_amount ss = sum_by (λ s. s.subtotal) (select (λ s. not (is_cancelled s.status)) ss)

abbrev pub pay : ℕ → ℕ → Payment → Payment
pay amount now p = record p {
  amount = amount;
  status = PaymentStatus.paid;
  provider_ref = some (charge_ref p.id);
  paid_at = some now;
}

abbrev pub charge_entry : Payment → ℕ → String → LedgerData
charge_entry p amount key = record {
  seller_order_id = none;
  payment_id = some p.id;
  refund_id = none;
  type = LedgerEntryType.customer_charge;
  amount = exact amount;
  idempotency_key = text_append key ":charge-ledger";
}

abbrev pub paid_key : String → String
paid_key key = text_append "payment-paid:" key

abbrev paid_event : String → Payment → ℕ → String → EventData
paid_event order_id p amount key = record {
  order_id = some order_id;
  seller_order_id = none;
  aggregate_type = "Payment";
  aggregate_id = p.id;
  type = "payment.paid";
  payload = ("orderId", Value.text order_id) ∷ ("amount", Value.money (pos amount)) ∷ [];
  available_at = none;
  idempotency_key = paid_key key;
}

abbrev pub not_waiting : OrderStatus → OrderStatus
not_waiting s =
    if s === OrderStatus.payment_pending || s === OrderStatus.new then OrderStatus.processing else s

-- An order that is paid for already is moved on.
unfoldable pub move_on : Order → Action Order
move_on o = do
  status ← gets λ w. not_waiting (derive_order_status (seller_order_statuses o.id w))
  update_order_status o.id status
  pure (record o { status = status })

abbrev order_of_event : Option OutboxEvent → World → Option Order
order_of_event none w = none
order_of_event (some e) w = elim e.order_id [ none ↦ none | some id ↦ find_by_id id w ]

-- `existing?.order` and `retry?.order`.
unfoldable pub find_paid_order : String → World → Option Order
find_paid_order key w = order_of_event (find_by_idempotency_key (paid_key key) w) w

unfoldable pub recover_payment : String → Error → Action Order
recover_payment key unique_violation = do
  retry ← gets (find_paid_order key)
  or_raise retry unique_violation
recover_payment key (bad_request r) = raise (bad_request r)
recover_payment key (conflict r) = raise (conflict r)
recover_payment key (forbidden r) = raise (forbidden r)
recover_payment key (not_found r) = raise (not_found r)
recover_payment key record_missing = raise record_missing

abbrev tell_sellers : List SellerOrder → String → OrderStatus → Action (Unit {0})
tell_sellers ss order_id status =
    for_each ss λ s. send (Signal.order_status_update s.seller_id order_id status)

-- The first transaction, and what it announces.
abbrev pub is_waiting : Order → World → Bool
is_waiting o w =
    (o.status === OrderStatus.new || o.status === OrderStatus.payment_pending)
    && any is_pending (payments_of o.id w)

unfoldable pub mark_waiting : String → String → Action (Unit {0})
mark_waiting user order_id = do
  sellers ← gets (seller_orders_of order_id)
  transaction
      (do update_order_payment_pending order_id; update_seller_orders_payment_pending order_id)
  send (Signal.order_status_update user order_id OrderStatus.payment_pending)
  tell_sellers sellers order_id OrderStatus.payment_pending

module _ (column : ℤ → ℤ) where
  -- From the sum of the seller orders to the end of the transaction.
  unfoldable pub charge_amount : Order → Payment → ℕ → String → ℕ → Action Order
  charge_amount o p amount key now = do
    raise_if (amount == 0) (bad_request Reason.nothing_payable)
    update_payment p.id (pay amount now)
    create_ledger_entry column (charge_entry p amount key)
    update_seller_orders_processing o.id
    statuses ← gets (seller_order_statuses o.id)
    raise_if (every is_cancelled statuses) (bad_request Reason.nothing_payable)
    update_order_status o.id (derive_order_status statuses)
    Outbox.create (paid_event o.id p amount key)
    pure (record o { status = derive_order_status statuses })

  unfoldable pub charge_payment : Order → Payment → String → ℕ → Action Order
  charge_payment o p key now = do
    amount ← gets λ w. payable_amount (seller_orders_of o.id w)
    charge_amount o p amount key now

  abbrev pub charge_pending : Order → List Payment → Option Payment → String → ℕ → Action Order
  charge_pending o payments (some p) key now = charge_payment o p key now
  charge_pending o payments none key now =
      if any is_completed_payment payments
      then move_on o
      else raise (bad_request Reason.payment_not_pending)

  unfoldable pub charge_found : Order → String → ℕ → Action Order
  charge_found o key now = do
    payments ← gets (payments_of o.id)
    charge_pending o payments (find_first is_pending payments) key now

  -- The body of the second transaction.
  unfoldable pub pay_body : String → String → String → ℕ → Action Order
  pay_body user order_id key now = do
    o ← or_raise (← gets (find_by_id order_id)) (not_found Reason.order_missing)
    raise_if (not (o.user_id === user)) (forbidden Reason.order_not_owned)
    raise_if (not (is_payable o.status)) (bad_request (Reason.order_not_payable o.status))
    charge_found o key now

  unfoldable pub attempt_payment : String → String → String → ℕ → Action Order
  attempt_payment user order_id key now = do
    updated ← transaction (pay_body user order_id key now)
    sellers ← gets (seller_orders_of updated.id)
    tell_sellers sellers updated.id updated.status
    pure updated

  unfoldable pub pay_marked : String → String → String → ℕ → Bool → Action Order
  pay_marked user order_id key now waiting = do
    when waiting (mark_waiting user order_id)
    catch_error (attempt_payment user order_id key now) (recover_payment key)

  abbrev pay_order_found : String → String → String → ℕ → Order → Action Order
  pay_order_found user order_id key now o = do
    raise_if (not (o.user_id === user)) (forbidden Reason.order_not_owned)
    waiting ← gets (is_waiting o)
    pay_marked user order_id key now waiting

  abbrev pub pay_or_again : String → String → String → ℕ → Option Order → Action Order
  pay_or_again user order_id key now (some existing) = do
    raise_if (not (existing.user_id === user)) (forbidden Reason.key_of_other_user)
    pure existing
  pay_or_again user order_id key now none = do
    o ← or_raise (← gets (find_by_id order_id)) (not_found Reason.order_missing)
    pay_order_found user order_id key now o

  unfoldable pub pay_order : String → String → String → ℕ → Action Order
  pay_order user order_id key now = do
    raise_if (is_blank key) (bad_request Reason.key_required)
    existing ← gets (find_paid_order key)
    pay_or_again user order_id key now existing
