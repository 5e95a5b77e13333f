-- ===== src/Disputes.antt =====
-- Disputes over completed seller orders (backend/src/disputes/disputes.service.ts). The audit log is left out; the
-- clock is read for each refund and for the resolution, and one argument stands for these reads.
pub mod Resolution
pub mod Courses
use multi_marketplace.Base.{
  ℕ, ℤ, ◌+◌, ◌-◌, ◌*◌, pos, neg, String, Bool, true, false, ◌||◌, ◌&&◌, not, List, [], ◌∷◌, Option,
  none, some, find_first, ◌==◌, if◌then◌else◌, is_some, trim,
}
use multi_marketplace.Store.{
  World, Order, SellerOrder, OrderItem, Payment, Dispute, DisputeStatus, SellerOrderStatus,
  RefundStatus, LedgerEntryType, Value, Action, Reason, gets, raise_if, or_raise, pure, skip,
  transaction, conflict, forbidden, not_found, ◌===◌, ◌>>=◌, ◌>>◌, string_eq,
  seller_order_status_eq,
}
use multi_marketplace.Repository.Disputes.{
  is_unresolved, find_active_for_seller_order, find_dispute, create_dispute, create_history,
  update_dispute,
}
use multi_marketplace.Repository.Outbox
use multi_marketplace.Repository.Outbox.{EventData}
use multi_marketplace.Repository.Orders.{
  items_of, payments_of, find_seller_order, find_by_id, sum_processed_refund_quantity,
  sum_processed_refunds, update_seller_order, update_payment,
}
use multi_marketplace.Repository.Orders.Creation.{
  RefundData, LedgerData, create_plain_refund, create_ledger_entry,
}
use multi_marketplace.Orders.Shipping.{WithOrder, find_with_order}
use multi_marketplace.Orders.Refund.{is_settled, refund_status}
use multi_marketplace.Orders.Cancellation.{join3}
use Prim.Native.String.{◌++◌ as text_append}

abbrev dispute_event : String → String → String → List (String × Value) → String → EventData
dispute_event dispute seller_order type payload key = record {
  order_id = none;
  seller_order_id = some seller_order;
  aggregate_type = "Dispute";
  aggregate_id = dispute;
  type = type;
  payload = ("disputeId", Value.text dispute) ∷ payload;
  available_at = none;
  idempotency_key = key;
}

-- From the insert of the dispute to the end of the transaction.
unfoldable pub record_dispute : String → String → String → String → Action Dispute
record_dispute customer seller_order subject description = do
  dispute ← create_dispute seller_order customer (trim subject) (trim description)
  create_history dispute.id customer DisputeStatus.opened (some "Dispute opened")
  Outbox.create (
      dispute_event dispute.id seller_order "dispute.opened"
        (("sellerOrderId", Value.text seller_order) ∷ ("customerId", Value.text customer) ∷ [])
        (text_append "dispute-opened:" dispute.id))
  pure dispute

unfoldable pub open_body : String → String → String → String → Action Dispute
open_body customer seller_order subject description = do
  found ← or_raise (← gets (find_with_order seller_order)) (not_found Reason.seller_order_missing)
  raise_if (not (found.1.user_id === customer)) (forbidden Reason.seller_order_not_owned)
  raise_if (not (found.0.status === SellerOrderStatus.completed)) (conflict Reason.not_completed)
  existing ← gets (find_active_for_seller_order seller_order)
  raise_if (is_some existing) (conflict Reason.dispute_active)
  record_dispute customer seller_order subject description

unfoldable pub open_dispute : String → String → String → String → Action Dispute
open_dispute customer seller_order subject description =
    transaction (open_body customer seller_order subject description)

-- What `findByIdForResolve` includes.
pub record DisputeDetails : Type 0 where
  pub dispute : Dispute
  pub seller_order : SellerOrder
  pub items : List OrderItem
  pub payments : List Payment

abbrev with_parts : Dispute → Option SellerOrder → World → Option DisputeDetails
with_parts d none w = none
with_parts d (some s) w = some (record {
  dispute = d;
  seller_order = s;
  items = items_of s.id w;
  payments = payments_of s.order_id w;
})

abbrev with_seller_order : Option Dispute → World → Option DisputeDetails
with_seller_order none w = none
with_seller_order (some d) w = with_parts d (find_seller_order d.seller_order_id w) w

unfoldable pub find_by_id_for_resolve : String → World → Option DisputeDetails
find_by_id_for_resolve id w = with_seller_order (find_dispute id w) w

abbrev dispute_refund_data : String → String → OrderItem → Payment → ℕ → ℕ → RefundData
dispute_refund_data id seller_order item payment quantity now = record {
  seller_order_id = seller_order;
  order_item_id = item.id;
  payment_id = some payment.id;
  amount = item.unit_price * quantity;
  quantity = quantity;
  reason = join3 "Dispute " id " resolved for customer";
  status = RefundStatus.processed;
  idempotency_key = join3 (text_append "dispute-refund:" id) ":" item.id;
  processed_at = some now;
}

abbrev dispute_ledger_data : String → String → OrderItem → Payment → ℕ → LedgerData
dispute_ledger_data id seller_order item payment quantity = record {
  seller_order_id = some seller_order;
  payment_id = some payment.id;
  refund_id = none;
  type = LedgerEntryType.refund;
  amount = neg (pos (10000 * (item.unit_price * quantity)));
  idempotency_key = join3 (text_append "dispute-refund-ledger:" id) ":" item.id;
}

-- `item.quantity - refunded`, where a difference that is not positive is passed over.
abbrev pub unrefunded : OrderItem → World → ℕ
unrefunded item w = item.quantity - sum_processed_refund_quantity item.id w

abbrev status_text : DisputeStatus → String
status_text DisputeStatus.opened = "OPEN"
status_text DisputeStatus.under_review = "UNDER_REVIEW"
status_text DisputeStatus.resolved_for_customer = "RESOLVED_FOR_CUSTOMER"
status_text DisputeStatus.resolved_for_seller = "RESOLVED_FOR_SELLER"
status_text DisputeStatus.closed = "CLOSED"

abbrev trim_option : Option String → Option String
trim_option none = none
trim_option (some s) = some (trim s)

abbrev pub is_resolution : DisputeStatus → Bool
is_resolution DisputeStatus.opened = false
is_resolution DisputeStatus.under_review = false
is_resolution DisputeStatus.resolved_for_customer = true
is_resolution DisputeStatus.resolved_for_seller = true
is_resolution DisputeStatus.closed = false

abbrev pub for_customer : DisputeStatus → Bool
for_customer DisputeStatus.opened = false
for_customer DisputeStatus.under_review = false
for_customer DisputeStatus.resolved_for_customer = true
for_customer DisputeStatus.resolved_for_seller = false
for_customer DisputeStatus.closed = false

abbrev pub resolve_row : String → DisputeStatus → Option String → ℕ → Dispute → Dispute
resolve_row admin status resolution now d = record d {
  status = status;
  resolution = elim (trim_option resolution) [ none ↦ d.resolution | some r ↦ some r ];
  resolved_by_id = some admin;
  resolved_at = some now;
}

-- From the update of the dispute to the end of the transaction.
unfoldable pub close_dispute :
    String → Dispute → DisputeStatus → Option String → ℕ → ℕ → Action Dispute
close_dispute admin d status resolution now total = do
  resolved ← update_dispute d.id (resolve_row admin status resolution now)
  create_history d.id admin status (trim_option resolution)
  Outbox.create (
      dispute_event d.id d.seller_order_id "dispute.resolved"
        (("status", Value.text (status_text status))
          ∷ ("adminId", Value.text admin)
          ∷ ("refundAmount", Value.money (pos total))
          ∷ [])
        (join3 (text_append "dispute-resolved:" d.id) ":" (status_text status)))
  pure resolved

module _ (column : ℤ → ℤ) where
  unfoldable pub refund_quantity : Dispute → Payment → ℕ → OrderItem → ℕ → ℕ → Action ℕ
  refund_quantity d payment now item total quantity = do
    create_plain_refund (dispute_refund_data d.id d.seller_order_id item payment quantity now)
    create_ledger_entry column (dispute_ledger_data d.id d.seller_order_id item payment quantity)
    pure (total + item.unit_price * quantity)

  -- One round of the loop over the items.
  unfoldable pub refund_rest : Dispute → Payment → ℕ → OrderItem → ℕ → Action ℕ
  refund_rest d payment now item total = do
    quantity ← gets (unrefunded item)
    if quantity == 0 then pure total else refund_quantity d payment now item total quantity

  unfoldable pub refund_items : Dispute → Payment → ℕ → List OrderItem → ℕ → Action ℕ
  refund_items d payment now [] total w = pure total w
  refund_items d payment now (i ∷ is) total w =
      (refund_rest d payment now i total >>= refund_items d payment now is) w

  unfoldable pub refund_all : DisputeDetails → Payment → ℕ → Action ℕ
  refund_all d payment now = do
    total ← refund_items d.dispute payment now d.items 0
    update_seller_order d.dispute.seller_order_id
        (λ s. record s { refunded_amount = s.refunded_amount + total })
    refunded ← gets (sum_processed_refunds payment.id)
    update_payment payment.id (λ p. record p { status = refund_status refunded payment.amount })
    pure total

  abbrev pub refund_due : DisputeDetails → ℕ → Bool → Action ℕ
  refund_due d now false = pure 0
  refund_due d now true = do
    payment ← or_raise (find_first is_settled d.payments) (conflict Reason.refund_without_payment)
    refund_all d payment now

  -- The refund, if one is due, and the resolution.
  unfoldable pub settle_dispute :
      String → DisputeStatus → Option String → ℕ → DisputeDetails → Action Dispute
  settle_dispute admin status resolution now d = do
    total ←
        refund_due d now
          (for_customer status && d.seller_order.status === SellerOrderStatus.completed)
    close_dispute admin d.dispute status resolution now total

  unfoldable pub resolve_found :
      String → DisputeStatus → Option String → ℕ → DisputeDetails → Action Dispute
  resolve_found admin status resolution now d = do
    raise_if (not (is_unresolved d.dispute)) (conflict Reason.dispute_resolved)
    raise_if (not (is_resolution status)) (conflict Reason.resolution_invalid)
    settle_dispute admin status resolution now d

  unfoldable pub resolve_body : String → String → DisputeStatus → Option String → ℕ → Action Dispute
  resolve_body admin id status resolution now = do
    d ← or_raise (← gets (find_by_id_for_resolve id)) (not_found Reason.dispute_missing)
    resolve_found admin status resolution now d

  unfoldable pub resolve_dispute :
      String → String → DisputeStatus → Option String → ℕ → Action Dispute
  resolve_dispute admin id status resolution now =
      transaction (resolve_body admin id status resolution now)
