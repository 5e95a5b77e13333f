-- ===== src/Orders/Payment/Charge.antt =====
-- The second transaction of `payOrder`.
use multi_marketplace.Base.{
  ℕ, ℤ, ◌≡◌, ◌≢◌, String, true, false, [], ◌∷◌, ◌++◌, some, arith, update_where, find_first,
  eq_of_str_eq, every,
}
use multi_marketplace.Store.{
  World, Order, SellerOrder, Payment, SellerOrderStatus, ok, ◌===◌, string_eq, order_status_eq,
  seller_order_status_eq,
}
use multi_marketplace.Repository.Outbox
use multi_marketplace.Repository.Outbox.{find_by_idempotency_key}
use multi_marketplace.Repository.Orders.{
  find_by_id, payments_of, seller_orders_of, seller_order_statuses, is_awaiting,
  update_seller_orders_processing, update_order_status, update_payment,
}
use multi_marketplace.Repository.Orders.Creation.{create_ledger_entry, ledger_row}
use multi_marketplace.Orders.Status.{derive_order_status, is_cancelled}
use multi_marketplace.Orders.Payment.{
  payable_amount, pay, charge_entry, charge_amount, charge_payment, charge_found, pay_body,
  is_pending, is_payable,
}

-- The seller orders that wait for the payment are taken up.
abbrev pub take_up : SellerOrder → SellerOrder
take_up s = record s { status = SellerOrderStatus.processing }

module _ (column : ℤ → ℤ) where
  -- What the charge of an order `o` by the payment `p` leaves in the tables.
  abbrev pub Charged : Order → Payment → ℕ → String → ℕ → World → Order → World → Type 0
  Charged o p amount key now w r w' =
      (amount ≢ 0)
      × (w'.payments ≡ update_where (λ q. q.id === p.id) (pay amount now) w.payments)
      × ((id : String) × (w'.ledger
            ≡ w.ledger ++ ledger_row column id (charge_entry p amount key) ∷ []))
      × (w'.seller_orders ≡ update_where (is_awaiting o.id) take_up w.seller_orders)
      × (every is_cancelled (seller_order_statuses o.id w') ≡ false)
      × (r ≡ record o { status = derive_order_status (seller_order_statuses o.id w') })
      × (w'.orders
          ≡ update_where (λ q. q.id === o.id) (λ q. record q { status = r.status }) w.orders)

  charge_amount-Charged :
      (o : Order) (p : Payment) (amount : ℕ) (key : String) (now : ℕ) (w : World) {r : Order}
      {w' : World}
      → charge_amount column o p amount key now w ≡ (ok r, w')
      → Charged o p amount key now w r w'
  unfolding charge_amount update_payment create_ledger_entry update_seller_orders_processing
      update_order_status Outbox.create seller_order_statuses seller_orders_of
  charge_amount-Charged o p amount key now w e = (
    ground arith,
    ground arith,
    (w.uuid w.drawn, ground arith),
    ground arith,
    ground arith,
    ground arith,
    ground arith,
  )

  charge_found-Charged :
      (o : Order) (p : Payment) (key : String) (now : ℕ) (w : World) {r : Order} {w' : World}
      → find_first is_pending (payments_of o.id w) ≡ some p
      → charge_found column o key now w ≡ (ok r, w')
      → Charged o p (payable_amount (seller_orders_of o.id w)) key now w r w'
  unfolding charge_found charge_payment
  charge_found-Charged o p key now w {r} {w'} there e =
      charge_amount-Charged o p (payable_amount (seller_orders_of o.id w)) key now w {r = r}
        {w' = w'} (ground (arith, there))

  -- The second transaction, for an order with a payment that is pending.
  pub pay_body-Charged :
      (user x key : String) (now : ℕ) (w : World) {o : Order} {p : Payment} {r : Order} {w' : World}
      → find_by_id x w ≡ some o
      → find_first is_pending (payments_of o.id w) ≡ some p
      → pay_body column user x key now w ≡ (ok r, w')
      → (o.user_id ≡ user)
        × (is_payable o.status ≡ true)
        × Charged o p (payable_amount (seller_orders_of o.id w)) key now w r w'
  unfolding pay_body
  pay_body-Charged user x key now w {o} {p} {r} {w'} there pending e = (
    ground (arith, there, eq_of_str_eq o.user_id user),
    ground (arith, there),
    charge_found-Charged o p key now w {r = r} {w' = w'} pending (ground (arith, there)),
  )
