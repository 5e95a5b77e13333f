-- ===== src/Orders/Payment/Parts.antt =====
-- What the two transactions of `payOrder` leave together (Orders/Payment).
use multi_marketplace.Base.{
  ℕ, ℤ, ◌≡◌, ◌≢◌, ◌⊎◌, refl, sym, ◌∙◌, ap, String, Bool, true, false, List, [], ◌∷◌, ◌++◌, none,
  some, arith, update_where, find_first, find_first-test, find_first-update_where, str_eq,
  eq_of_str_eq, inl, inr, if◌then◌else◌, sum_by, select, ◌&&◌, ◌||◌, not, ◌*◌, pos,
}
use multi_marketplace.Store.{
  catch_error, Signal, World, Order, Payment, SellerOrder, LedgerEntryType, PaymentStatus,
  SellerOrderStatus, OrderStatus, Result, ok, err, ◌===◌, string_eq, order_status_eq,
  seller_order_status_eq,
}
use multi_marketplace.Store.Frame.{>>=-eq-next}
use multi_marketplace.Repository.Outbox.{find_by_idempotency_key}
use multi_marketplace.Repository.Orders.{
  find_by_id, payments_of, seller_orders_of, seller_order_statuses, is_awaiting,
}
use multi_marketplace.Repository.Orders.Creation.{ledger_row}
use multi_marketplace.Orders.Status.{derive_order_status}
use multi_marketplace.Orders.Payment.{
  payable_amount, pay, charge_entry, pay_body, attempt_payment, recover_payment, find_paid_order,
  paid_key, pay_order, pay_marked, mark_waiting, is_waiting, is_pending, charge_ref,
}
use Prim.Native.String.{◌++◌ as text_append}
use multi_marketplace.Orders.Payment.Charge.{Charged, pay_body-Charged, take_up}
use multi_marketplace.Orders.Payment.Waiting.{
  tell_sellers-eq, is_new_order, pend_order, marked, mark_waiting-eq, payable-pend, take_up-pend,
}

module _ (column : ℤ → ℤ) (user x key : String) (now : ℕ) where
  -- An attempt under a new key that succeeds is one of the second transaction.
  attempt-body :
      (u : World) {r : Order} {w' : World}
      → find_by_idempotency_key (paid_key key) u ≡ none
      → catch_error (attempt_payment column user x key now) (recover_payment key) u ≡ (ok r, w')
      → (v : World) × (pay_body column user x key now u ≡ (ok r, v))
        × (w' ≡ record v { signals = w'.signals })
  unfolding attempt_payment recover_payment find_paid_order
  attempt-body u {r} {w'} absent h = given (pay_body column user x key now u) refl
    where
      given :
          (b : Result Order × World)
          → pay_body column user x key now u ≡ b
          → (v : World) × (b ≡ (ok r, v)) × (w' ≡ record v { signals = w'.signals })
      given (ok o, v) e =
          let told = tell_sellers-eq (seller_orders_of o.id v) o.id o.status v in
          (v, ground (arith, e, told), ground (arith, e, told))
      given (err y, v) e = absurd (ground arith)

  -- What the first transaction leaves for the second.
  abbrev pub Marked : World → World → Type 0
  Marked w u = (u ≡ w) ⊎ ((sent : List Signal) × (u ≡ marked x w sent))

  abbrev pub Parts : World → Order → World → Type 0
  Parts w r w' =
      (u : World) × Marked w u
      × (v : World) × (pay_body column user x key now u ≡ (ok r, v))
      × (w' ≡ record v { signals = w'.signals })

  pay_marked-Parts :
      (waiting : Bool) (w : World) {r : Order} {w' : World}
      → find_by_idempotency_key (paid_key key) w ≡ none
      → pay_marked column user x key now waiting w ≡ (ok r, w')
      → Parts w r w'
  unfolding pay_marked find_by_idempotency_key
  pay_marked-Parts false w {r} {w'} absent h =
      let (v, body, same) = attempt-body w {r = r} {w' = w'} absent h in
      (w, inl refl, v, body, same)
  pay_marked-Parts true w {r} {w'} absent h =
      let (sent, went) = mark_waiting-eq user x w in
      let h' =
        sym (
          >>=-eq-next (mark_waiting user x)
            (λ _. catch_error (attempt_payment column user x key now) (recover_payment key)) w went)
        ∙ h in
      let (v, body, same) = attempt-body (marked x w sent) {r = r} {w' = w'} absent h' in
      (marked x w sent, inr (sent, refl), v, body, same)

  pub pay_order-Parts :
      (w : World) {o : Order} {r : Order} {w' : World}
      → find_by_idempotency_key (paid_key key) w ≡ none
      → find_by_id x w ≡ some o
      → pay_order column user x key now w ≡ (ok r, w')
      → Parts w r w'
  unfolding pay_order find_paid_order
  pay_order-Parts w {o} {r} {w'} absent there h =
      pay_marked-Parts (is_waiting o w) w absent (ground (arith, absent, there))

module _ (column : ℤ → ℤ) (user x key : String) (now : ℕ) where
  -- The order `o` is paid for by its payment `p`, and `r` is what it has become.
  abbrev pub Paid : Order → Payment → World → Order → World → Type 0
  Paid o p w r w' =
      let amount = payable_amount (seller_orders_of x w) in
      (o.user_id ≡ user)
      × (amount ≢ 0)
      × (w'.payments ≡ update_where (λ q. q.id === p.id) (pay amount now) w.payments)
      × ((id : String) × (w'.ledger
            ≡ w.ledger ++ ledger_row column id (charge_entry p amount key) ∷ []))
      × (w'.seller_orders ≡ update_where (is_awaiting x) take_up w.seller_orders)
      × (r ≡ record o { status = derive_order_status (seller_order_statuses x w') })

  abbrev at_status : OrderStatus → Order → Order
  at_status status o = record o { status = status }

  -- What the two transactions together leave, from what the second one found.
  Charged-Paid :
      (o : Order) (p : Payment) (w u v w' : World) (status : OrderStatus) {r : Order}
      → o.id ≡ x
      → u.payments ≡ w.payments
      → u.ledger ≡ w.ledger
      → payable_amount (seller_orders_of x u) ≡ payable_amount (seller_orders_of x w)
      → update_where (is_awaiting x) take_up u.seller_orders
        ≡ update_where (is_awaiting x) take_up w.seller_orders
      → o.user_id ≡ user
      → Charged column
          (at_status status o)
          p
          (payable_amount (seller_orders_of o.id u))
          key
          now
          u
          r
          v
      → w' ≡ record v { signals = w'.signals }
      → Paid o p w r w'
  unfolding seller_order_statuses seller_orders_of
  Charged-Paid o p w u v w' status same_id pays led amt sellers owner
        (some_due, payments, (id, ledger), taken, _, result, _) same =
      let level : payable_amount (seller_orders_of o.id u) ≡ payable_amount (seller_orders_of x w) =
        rw same_id amt in
      (
        owner,
        (λ none_due. some_due (level ∙ none_due)),
        ap (λ t. t.payments) same
            ∙ payments
            ∙ ap (λ n. update_where (λ q. q.id === p.id) (pay n now) u.payments) level
            ∙ ap
                (λ ps.
                  update_where (λ q. q.id === p.id)
                    (pay (payable_amount (seller_orders_of x w)) now) ps)
                pays,
        (
          id,
          ap (λ t. t.ledger) same
              ∙ ledger
              ∙ ap (λ n. u.ledger ++ ledger_row column id (charge_entry p n key) ∷ []) level
              ∙ ap
                  (λ l.
                    l
                    ++ ledger_row column id
                        (charge_entry p (payable_amount (seller_orders_of x w)) key)
                      ∷ [])
                  led,
        ),
        ap (λ t. t.seller_orders) same
            ∙ taken
            ∙ ap (λ y. update_where (is_awaiting y) take_up u.seller_orders) same_id
            ∙ sellers,
        result
            ∙ ap (λ y. record o { status = derive_order_status (seller_order_statuses y v) })
                same_id
            ∙ ap (λ t. record o { status = derive_order_status (seller_order_statuses x t) })
                (sym same),
      )

  marked_row :
      (w : World) (o : Order)
      → find_by_id x w ≡ some o
      → elim (find_by_id x w) [
        | none ↦ none
        | some q ↦ some (if is_new_order x q then pend_order q else q)
      ]
        ≡ some (at_status (if is_new_order x o then OrderStatus.payment_pending else o.status) o)
  marked_row w o there = ground (arith, there)

  pub Marked-Paid :
      (w u v w' : World) {o : Order} {p : Payment} {r : Order}
      → find_by_id x w ≡ some o
      → find_first is_pending (payments_of x w) ≡ some p
      → Marked column user x key now w u
      → pay_body column user x key now u ≡ (ok r, v)
      → w' ≡ record v { signals = w'.signals }
      → Paid o p w r w'
  unfolding find_by_id payments_of seller_orders_of
  Marked-Paid w u v w' {o} {p} {r} there pending (inl at_w) body same =
      let here : find_by_id x u ≡ some o = rw at_w there in
      let id = eq_of_str_eq o.id x (find_first-test (λ q. str_eq q.id x) w.orders there) in
      let (owner, _, charged) =
        pay_body-Charged column user x key now u {o = o} {p = p} {r = r} {w' = v} here
          (rw (id, at_w) pending) body in
      Charged-Paid o p w u v w' o.status {r = r} id (rw at_w refl) (rw at_w refl) (rw at_w refl)
        (rw at_w refl) owner charged same
  Marked-Paid w u v w' {o} {p} {r} there pending (inr (sent, at_u)) body same =
      let status = if is_new_order x o then OrderStatus.payment_pending else o.status in
      let found =
        find_first-update_where (λ q. str_eq q.id x) (is_new_order x) pend_order w.orders
          (λ q. refl) in
      let here : find_by_id x u ≡ some (at_status status o) =
        rw at_u (found ∙ marked_row w o there) in
      let id = eq_of_str_eq o.id x (find_first-test (λ q. str_eq q.id x) w.orders there) in
      let (owner, _, charged) =
        pay_body-Charged column user x key now u {o = at_status status o} {p = p} {r = r} {w' = v}
          here (rw (id, at_u) pending) body in
      Charged-Paid o p w u v w' status {r = r} id (rw at_u refl) (rw at_u refl)
        (rw at_u (payable-pend x x w.seller_orders)) (rw at_u (take_up-pend x w.seller_orders))
        owner charged same

  -- The order `o` is paid for by its payment `p` with `amount`, and `r` is what it has become.
  abbrev pub PaidWith : ℕ → Order → Payment → World → Order → World → Type 0
  PaidWith amount o p w r w' =
      (o.user_id ≡ user)
      × (amount
          ≡ sum_by (λ s. s.subtotal)
              (select (λ s. s.order_id === x && not (s.status === SellerOrderStatus.cancelled))
                w.seller_orders))
      × (amount ≢ 0)
      × (w'.payments
          ≡ update_where (λ q. q.id === p.id)
              (λ q. record q {
                amount = amount;
                status = PaymentStatus.paid;
                provider_ref = some (charge_ref q.id);
                paid_at = some now;
              })
              w.payments)
      × ((id : String) × (w'.ledger
            ≡ w.ledger
              ++ record {
                id = id;
                seller_order_id = none;
                payment_id = some p.id;
                refund_id = none;
                type = LedgerEntryType.customer_charge;
                amount = column (pos (10000 * amount));
                idempotency_key = text_append key ":charge-ledger";
              }
                ∷ []))
      × (w'.seller_orders
          ≡ update_where
              (λ s.
                s.order_id === x
                && (s.status === SellerOrderStatus.payment_pending
                    || s.status === SellerOrderStatus.new))
              (λ s. record s { status = SellerOrderStatus.processing }) w.seller_orders)
      × (r ≡ record o { status = derive_order_status (seller_order_statuses x w') })

  payable-explicit :
      (ss : List SellerOrder)
      → payable_amount (select (λ s. s.order_id === x) ss)
        ≡ sum_by
            (λ s. s.subtotal)
            (select (λ s. s.order_id === x && not (s.status === SellerOrderStatus.cancelled)) ss)
  payable-explicit [] = refl
  payable-explicit (s ∷ ss) = ground (arith, payable-explicit ss)

  pub Paid-PaidWith :
      (o : Order) (p : Payment) (w : World) (r : Order) (w' : World)
      → Paid o p w r w'
      → PaidWith (payable_amount (seller_orders_of x w)) o p w r w'
  unfolding seller_orders_of
  Paid-PaidWith o p w r w' (owner, due, payments, ledger, sellers, result) =
      (owner, payable-explicit w.seller_orders, due, payments, ledger, sellers, result)
