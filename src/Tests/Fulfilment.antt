-- ===== src/Tests/Fulfilment.antt =====
-- The theorems about payment, shipping and refunds, at concrete inputs.
use multi_marketplace.Base.{
  ℕ, ◌+◌, ◌*◌, ◌≡◌, ◌≢◌, ◌≤◌, ◌⊎◌, refl, arith, List, [], ◌∷◌, ◌++◌, Option, some, none, true,
  false, any, ◌+ℤ◌, ◌-ℤ◌, neg, scale, str_eq, String,
}
use multi_marketplace.Base
use multi_marketplace.Store.{
  World, Order, SellerOrder, OrderItem, RefundStatus, OrderStatus, SellerOrderStatus, OutboxStatus,
  Signal, ok, err, bad_request, forbidden, Reason, unique_violation, for_each, ◌===◌, string_eq,
  order_status_eq,
}
use multi_marketplace.Money.{earnings}
use multi_marketplace.Repository.Products
use multi_marketplace.Repository.Outbox
use multi_marketplace.Repository.Outbox.{find_by_idempotency_key}
use multi_marketplace.Repository.Orders.{
  find_by_id, payments_of, seller_orders_of, seller_order_statuses, find_seller_order, find_item,
  find_refund_by_key, sum_refunded_quantity, sum_processed_refunds, is_live_refund,
  update_seller_order, update_payment, update_order_status, update_order_payment_pending,
  update_seller_orders_payment_pending, update_seller_orders_processing,
}
use multi_marketplace.Repository.Orders.Creation.{create_refund, create_ledger_entry}
use multi_marketplace.Orders.Status.{
  derive_order_status, legal_next, sort_statuses, insert_status, assert_transition,
}
use multi_marketplace.Orders.Refund.{
  Refunded, refund_order_item, refund_body, refund_item, refund_locked, record_refund,
  settle_refund, recover_refund, find_item_for_refund,
}
use multi_marketplace.Orders.Refund.Quantity.{
  Within, refund_order_item-Within, refund_order_item_records, refund_order_item_failed,
}
use multi_marketplace.Orders.Shipping.{
  WithOrder, find_with_order, set_parent, announce_move, follow_up, update_and_follow,
  move_seller_order, update_seller_order_status, parent_key, move,
}
use multi_marketplace.Orders.Shipping.Parent.{update_seller_order_status_moves}
use multi_marketplace.Orders.Shipping.Repeats.{moved_on, update_seller_order_status_stuck}
use multi_marketplace.Orders.Payment.{
  paid_key, is_pending, find_paid_order, pay_order, pay_marked, pay_body, charge_found,
  charge_payment, charge_amount, attempt_payment, recover_payment, mark_waiting,
}
use multi_marketplace.Orders.Payment.Parts.{PaidWith}
use multi_marketplace.Orders.Payment.Calls.{pay_order_charges, pay_order_failed}
use multi_marketplace.Orders.Payment.Waiting.{marked}
use multi_marketplace.Tests.Worlds.{cents_of, unpaid, paid, bobs_order, sams_part, bobs_payment}

item-Within : Within "item-of-1" paid
unfolding sum_refunded_quantity find_item
item-Within i there = ground arith

refund_order_item-Within_example :
    Within "item-of-1" (refund_order_item cents_of "bob" "item-of-1" 1 "" "r-1" 9 paid).1
refund_order_item-Within_example =
    refund_order_item-Within cents_of "item-of-1" "bob" "item-of-1" 1 "" "r-1" 9 paid item-Within

abbrev refunded : World
refunded = (refund_order_item cents_of "bob" "item-of-1" 1 "" "r-1" 9 paid).1

abbrev one_back : Refunded
one_back = record {
  refund = record {
    id = "id-0";
    seller_order_id = "part-1";
    order_item_id = "item-of-1";
    payment_id = some "pay-1";
    amount = 250;
    quantity = 1;
    reason = "Refund requested";
    status = RefundStatus.processed;
    idempotency_key = "r-1";
    processed_at = some 9;
  };
  seller_order = some (record sams_part {
    status = SellerOrderStatus.processing;
    refunded_amount = 250;
    commission_amount = Base.pos 25;
    seller_earnings = Base.pos 225;
  });
}

no_refund : find_refund_by_key "r-1" paid ≡ none
unfolding find_refund_by_key
no_refund = refl

refund_done :
    refund_order_item cents_of "bob" "item-of-1" 1 "" "r-1" 9 paid ≡ (ok one_back, refunded)
unfolding refund_order_item refund_body refund_item refund_locked record_refund settle_refund
    recover_refund find_item_for_refund find_refund_by_key find_item find_seller_order find_by_id
    payments_of sum_refunded_quantity sum_processed_refunds update_seller_order update_payment
    create_refund create_ledger_entry Products.increment_stock Outbox.create Base.is_blank
    Base.trim_or str_eq neg scale ◌-ℤ◌ earnings
refund_done = refl

refund_order_item_records_example :
    (item : OrderItem) × (find_item "item-of-1" paid ≡ some item)
    × (◌≢◌ {A = ℕ} 1 0)
    × (sum_refunded_quantity "item-of-1" paid + 1 ≤ item.quantity)
    × (refunded.refunds ≡ paid.refunds ++ one_back.refund ∷ [])
    × (one_back.refund.quantity ≡ 1)
    × (one_back.refund.amount ≡ item.unit_price * 1)
    × (is_live_refund "item-of-1" one_back.refund ≡ true)
refund_order_item_records_example =
    refund_order_item_records cents_of "bob" "item-of-1" 1 "" "r-1" 9 paid no_refund refund_done

too_many :
    refund_order_item cents_of "bob" "item-of-1" 3 "" "r-1" 9 paid
    ≡ (err (bad_request Reason.quantity_exceeds), paid)
unfolding refund_order_item refund_body refund_item refund_locked recover_refund
    find_item_for_refund find_refund_by_key find_item find_seller_order find_by_id payments_of
    sum_refunded_quantity update_seller_order Base.is_blank str_eq
too_many = refl

refund_order_item_failed_example : paid ≡ paid
refund_order_item_failed_example =
    refund_order_item_failed cents_of "bob" "item-of-1" 3 "" "r-1" 9 paid too_many

abbrev shipped : World
shipped =
    (update_seller_order_status "sam" "part-1" SellerOrderStatus.shipped (some " T1 ") 8 paid).1

abbrev on_its_way : WithOrder
on_its_way = (
  record sams_part {
    status = SellerOrderStatus.shipped;
    tracking_number = some "T1";
    shipped_at = some 8;
  },
  record bobs_order { status = OrderStatus.shipped },
)

sent_off :
    update_seller_order_status "sam" "part-1" SellerOrderStatus.shipped (some " T1 ") 8 paid
    ≡ (ok on_its_way, shipped)
unfolding update_seller_order_status find_with_order find_seller_order find_by_id move_seller_order
    assert_transition update_and_follow update_seller_order follow_up set_parent update_order_status
    seller_order_statuses seller_orders_of derive_order_status sort_statuses insert_status
    announce_move Outbox.create_many Outbox.create for_each str_eq Base.is_blank Base.trim
sent_off = refl

update_seller_order_status_moves_example :
    (s : SellerOrder) × (find_seller_order "part-1" paid ≡ some s)
    × (s.seller_id ≡ "sam")
    × (legal_next s.status ≡ some SellerOrderStatus.shipped)
    × (on_its_way.0 ≡ move SellerOrderStatus.shipped (some " T1 ") 8 s)
    × (find_seller_order "part-1" shipped ≡ some on_its_way.0)
    × (find_by_id s.order_id shipped ≡ some on_its_way.1)
    × (on_its_way.1.status ≡ derive_order_status (seller_order_statuses s.order_id shipped))
update_seller_order_status_moves_example =
    update_seller_order_status_moves "sam" "part-1" SellerOrderStatus.shipped (some " T1 ") 8 paid
      sent_off

-- A second part of the order, after an earlier part was shipped and cancelled.
abbrev second_part : SellerOrder
second_part = record sams_part {
  id = "part-2";
  seller_id = "pia";
  status = SellerOrderStatus.processing;
}

abbrev shipped_before : World
shipped_before = record paid {
  seller_orders = record sams_part { status = SellerOrderStatus.cancelled } ∷ second_part ∷ [];
  outbox =
      record {
        id = "event-1";
        order_id = some "order-1";
        seller_order_id = none;
        aggregate_type = "Order";
        aggregate_id = "order-1";
        type = "order.status-changed";
        payload = [];
        status = OutboxStatus.processed;
        idempotency_key = "order-1:status:PROCESSING:SHIPPED";
        attempts = 1;
        available_at = none;
      }
      ∷ [];
}

abbrev bobs_open_order : Order
bobs_open_order = record bobs_order { status = OrderStatus.processing }

second_there : find_with_order "part-2" shipped_before ≡ some (second_part, bobs_open_order)
unfolding find_with_order find_seller_order find_by_id str_eq
second_there = refl

-- The status of the order once the second part is shipped.
abbrev status_after : OrderStatus
status_after = derive_order_status (
    seller_order_statuses "order-1"
      (moved_on "part-2" SellerOrderStatus.shipped none 9 shipped_before))

order_changes : (bobs_open_order.status === status_after) ≡ false
unfolding derive_order_status sort_statuses insert_status seller_order_statuses seller_orders_of
    str_eq
order_changes = refl

key_used :
    any (λ e. e.idempotency_key === parent_key bobs_open_order status_after) shipped_before.outbox
    ≡ true
unfolding derive_order_status sort_statuses insert_status seller_order_statuses seller_orders_of
    str_eq
key_used = refl

update_seller_order_status_stuck_example :
    update_seller_order_status "pia" "part-2" SellerOrderStatus.shipped none 9 shipped_before
    ≡ (err unique_violation, shipped_before)
update_seller_order_status_stuck_example =
    update_seller_order_status_stuck "part-2" SellerOrderStatus.shipped none 9 shipped_before
      second_there refl order_changes key_used

no_event : find_by_idempotency_key (paid_key "p-1") unpaid ≡ none
unfolding find_by_idempotency_key
no_event = refl

unpaid_order : find_by_id "order-1" unpaid ≡ some bobs_order
unfolding find_by_id str_eq
unpaid_order = refl

unpaid_payment : Base.find_first is_pending (payments_of "order-1" unpaid) ≡ some bobs_payment
unfolding payments_of str_eq
unpaid_payment = refl

abbrev charged : World
charged = (pay_order cents_of "bob" "order-1" "p-1" 7 unpaid).1

charge_done :
    pay_order cents_of "bob" "order-1" "p-1" 7 unpaid
    ≡ (ok (record bobs_order { status = OrderStatus.processing }), charged)
unfolding pay_order pay_marked pay_body charge_found charge_payment charge_amount attempt_payment
    recover_payment mark_waiting find_paid_order find_by_idempotency_key find_by_id payments_of
    seller_orders_of seller_order_statuses update_order_payment_pending
    update_seller_orders_payment_pending update_seller_orders_processing update_payment
    update_order_status create_ledger_entry derive_order_status sort_statuses insert_status
    Outbox.create for_each Base.is_blank str_eq
charge_done = refl

pay_order_charges_example :
    (amount : ℕ) × PaidWith cents_of "bob" "order-1" "p-1" 7 amount bobs_order bobs_payment unpaid
      (record bobs_order { status = OrderStatus.processing })
      charged
pay_order_charges_example =
    pay_order_charges cents_of "bob" "order-1" "p-1" 7 unpaid no_event unpaid_order unpaid_payment
      charge_done

not_hers :
    pay_order cents_of "eve" "order-1" "p-1" 7 unpaid
    ≡ (err (forbidden Reason.order_not_owned), unpaid)
unfolding pay_order find_paid_order find_by_idempotency_key find_by_id Base.is_blank str_eq
not_hers = refl

pay_order_failed_example :
    (unpaid ≡ unpaid) ⊎ ((sent : List Signal) × (unpaid ≡ marked "order-1" unpaid sent))
pay_order_failed_example = pay_order_failed cents_of "eve" "order-1" "p-1" 7 unpaid not_hers
