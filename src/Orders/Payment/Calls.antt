-- ===== src/Orders/Payment/Calls.antt =====
-- Whole calls of `payOrder`.
use multi_marketplace.Base.{
  ℕ, ℤ, ◌≡◌, ◌⊎◌, refl, sym, ◌∙◌, String, Bool, true, false, List, none, some, arith, find_first,
  Option-cases, inl, inr,
}
use multi_marketplace.Store.{
  catch_error, Signal, World, Order, Payment, Result, Error, ok, err, string_eq, order_status_eq,
  seller_order_status_eq,
}
use multi_marketplace.Store.Frame.{>>=-eq-next}
use multi_marketplace.Repository.Outbox.{find_by_idempotency_key}
use multi_marketplace.Repository.Orders.{find_by_id, payments_of, seller_orders_of}
use multi_marketplace.Orders.Payment.{
  payable_amount, pay_body, attempt_payment, recover_payment, paid_key, pay_order, pay_marked,
  mark_waiting, is_waiting, is_pending,
}
use multi_marketplace.Orders.Payment.Waiting.{tell_sellers-eq, marked, mark_waiting-eq}
use multi_marketplace.Orders.Payment.Parts.{
  Marked, PaidWith, Paid-PaidWith, Marked-Paid, pay_order-Parts,
}

module _ (column : ℤ → ℤ) (user x key : String) (now : ℕ) where
  -- If `payOrder` succeeds under a new key for an order `o` whose first pending payment is `p`, the order
  -- is the user's and is charged once: the payment `p` is marked as paid with an amount that is the sum
  -- of the order's seller orders that are not cancelled, and is not 0; one ledger entry is added, for
  -- that charge; every seller order that was new or waiting for the payment is being processed; and
  -- the order that is returned has the status that its seller orders now derive.
  pub pay_order_charges :
      (w : World) {o : Order} {p : Payment} {r : Order} {w' : World}
      → find_by_idempotency_key (paid_key key) w ≡ none
      → find_by_id x w ≡ some o
      → find_first is_pending (payments_of x w) ≡ some p
      → pay_order column user x key now w ≡ (ok r, w')
      → (amount : ℕ) × PaidWith column user x key now amount o p w r w'
  pay_order_charges w {o} {p} {r} {w'} absent there pending h =
      let (u, marks, v, body, same) =
        pay_order-Parts column user x key now w {r = r} {w' = w'} absent there h in
      let paid = Marked-Paid column user x key now w u v w' {r = r} there pending marks body same in
      (payable_amount (seller_orders_of x w), Paid-PaidWith column user x key now o p w r w' paid)

module _ (column : ℤ → ℤ) (user x key : String) (now : ℕ) where
  attempt_failed :
      (u : World) {e : Error} {w' : World}
      → catch_error (attempt_payment column user x key now) (recover_payment key) u ≡ (err e, w')
      → w' ≡ u
  unfolding attempt_payment recover_payment
  attempt_failed u {e} {w'} h = given (pay_body column user x key now u) refl
    where
      given : (b : Result Order × World) → pay_body column user x key now u ≡ b → w' ≡ u
      given (ok o, v) eq =
          absurd (ground (arith, eq, tell_sellers-eq (seller_orders_of o.id v) o.id o.status v))
      given (err y, v) eq = ground (arith, eq)

  pay_marked_failed :
      (waiting : Bool) (w : World) {e : Error} {w' : World}
      → pay_marked column user x key now waiting w ≡ (err e, w')
      → Marked column user x key now w w'
  unfolding pay_marked
  pay_marked_failed false w h = inl (attempt_failed w h)
  pay_marked_failed true w h =
      let (sent, went) = mark_waiting-eq user x w in
      inr (
        sent,
        attempt_failed (marked x w sent) (
            sym (
              >>=-eq-next (mark_waiting user x)
                (λ _. catch_error (attempt_payment column user x key now) (recover_payment key)) w
                went)
            ∙ h),
      )

  -- A call of `payOrder` that raises charges nothing: it leaves everything as it was, or has changed
  -- no more than the status of what was new in the order, which now waits for the payment, and the
  -- messages about that.
  pub pay_order_failed :
      (w : World) {e : Error} {w' : World}
      → pay_order column user x key now w ≡ (err e, w')
      → (w' ≡ w) ⊎ ((sent : List Signal) × (w' ≡ marked x w sent))
  unfolding pay_order
  pay_order_failed w {e} {w'} h = elim (Option-cases (find_by_id x w)) [
    | inl gone ↦ inl (ground (arith, gone))
    | inr (o, there) ↦ failed_found o there (pay_marked_failed (is_waiting o w) w {e = e} {w' = w'})
  ]
    where
      failed_found :
          (o : Order)
          → find_by_id x w ≡ some o
          → (pay_marked column user x key now (is_waiting o w) w ≡ (err e, w')
              → Marked column user x key now w w')
          → (w' ≡ w) ⊎ ((sent : List Signal) × (w' ≡ marked x w sent))
      failed_found o there f = ground (arith, there, f)
