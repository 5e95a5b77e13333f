-- ===== src/Orders/Bounds/Paying.antt =====
-- The refunds and the items under payment and shipping (Orders/Payment, Orders/Shipping).
use multi_marketplace.Base.{
  ℕ, ℤ, String, Bool, true, false, List, Option, none, some, any, if◌then◌else◌,
}
use multi_marketplace.Store.{
  World, Order, SellerOrder, Payment, SellerOrderStatus, Reason, raise, Error, bad_request,
  conflict, forbidden, not_found, unique_violation, record_missing,
}
use multi_marketplace.Store.Rules.{Preserved}
use multi_marketplace.Orders.Books.{ReadsBooks, keeps_books}
use multi_marketplace.Orders.Status.{assert_transition}
use multi_marketplace.Orders.Payment.{
  is_completed_payment, move_on, recover_payment, mark_waiting, charge_amount, charge_payment,
  charge_pending, charge_found, pay_body, attempt_payment, pay_marked, pay_or_again, pay_order,
}
use multi_marketplace.Orders.Shipping.{
  WithOrder, set_parent, announce_move, follow_up, update_and_follow, move_seller_order, move_owned,
  update_seller_order_status,
}

module _ (column : ℤ → ℤ) (P : World → Type 0) (carry : ReadsBooks P) where
  recover_payment_kept : (key : String) (e : Error) → Preserved P (recover_payment key e)
  unfolding recover_payment
  recover_payment_kept key unique_violation = search keeps_books
  recover_payment_kept key (bad_request r) = search keeps_books
  recover_payment_kept key (conflict r) = search keeps_books
  recover_payment_kept key (forbidden r) = search keeps_books
  recover_payment_kept key (not_found r) = search keeps_books
  recover_payment_kept key record_missing = search keeps_books

  charge_amount_kept :
      (o : Order) (p : Payment) (amount : ℕ) (key : String) (now : ℕ)
      → Preserved P (charge_amount column o p amount key now)
  unfolding charge_amount
  charge_amount_kept o p amount key now = search keeps_books depth 12

  move_on_kept : (o : Order) → Preserved P (move_on o)
  unfolding move_on
  move_on_kept o = search keeps_books

  charge_payment_kept :
      (o : Order) (p : Payment) (key : String) (now : ℕ)
      → Preserved P (charge_payment column o p key now)
  unfolding charge_payment
  charge_payment_kept o p key now = search (keeps_books, charge_amount_kept)

  charge_pending_kept :
      (o : Order) (ps : List Payment) (p : Option Payment) (key : String) (now : ℕ)
      → Preserved P (charge_pending column o ps p key now)
  charge_pending_kept o ps (some p) key now = charge_payment_kept o p key now
  charge_pending_kept o ps none key now =
      elim (any is_completed_payment ps)
        as (λ b.
          Preserved P (if b then move_on o else raise (bad_request Reason.payment_not_pending))) [
            | true ↦ move_on_kept o
            | false ↦ search keeps_books
          ]

  charge_found_kept :
      (o : Order) (key : String) (now : ℕ) → Preserved P (charge_found column o key now)
  unfolding charge_found
  charge_found_kept o key now = search (keeps_books, charge_pending_kept)

  pay_body_kept :
      (user order key : String) (now : ℕ) → Preserved P (pay_body column user order key now)
  unfolding pay_body
  pay_body_kept user order key now = search (keeps_books, charge_found_kept) depth 12

  attempt_payment_kept :
      (user order key : String) (now : ℕ) → Preserved P (attempt_payment column user order key now)
  unfolding attempt_payment
  attempt_payment_kept user order key now = search (keeps_books, pay_body_kept) depth 12

  mark_waiting_kept : (user order : String) → Preserved P (mark_waiting user order)
  unfolding mark_waiting
  mark_waiting_kept user order = search keeps_books depth 12

  pay_marked_kept :
      (user order key : String) (now : ℕ) (b : Bool)
      → Preserved P (pay_marked column user order key now b)
  unfolding pay_marked
  pay_marked_kept user order key now b =
      search (keeps_books, mark_waiting_kept, attempt_payment_kept, recover_payment_kept)

  pay_or_again_kept :
      (user order key : String) (now : ℕ) (existing : Option Order)
      → Preserved P (pay_or_again column user order key now existing)
  pay_or_again_kept user order key now (some o) = search keeps_books
  pay_or_again_kept user order key now none = search (keeps_books, pay_marked_kept) depth 12

  pub pay_order_kept :
      (user order key : String) (now : ℕ) → Preserved P (pay_order column user order key now)
  unfolding pay_order
  pay_order_kept user order key now = search (keeps_books, pay_or_again_kept)

module _ (P : World → Type 0) (carry : ReadsBooks P) where
  assert_transition_kept : (a b : SellerOrderStatus) → Preserved P (assert_transition a b)
  unfolding assert_transition
  assert_transition_kept a b = search keeps_books

  follow_up_kept :
      (s : SellerOrder) (o : Order) (status : SellerOrderStatus) (number : Option String) (now : ℕ)
      → Preserved P (follow_up s o status number now)
  unfolding follow_up set_parent announce_move
  follow_up_kept s o status number now = search keeps_books depth 12

  move_seller_order_kept :
      (s : SellerOrder) (o : Order) (status : SellerOrderStatus) (number : Option String) (now : ℕ)
      → Preserved P (move_seller_order s o status number now)
  unfolding move_seller_order update_and_follow
  move_seller_order_kept s o status number now =
      search (keeps_books, assert_transition_kept, follow_up_kept) depth 12

  move_owned_kept :
      (seller : String) (status : SellerOrderStatus) (number : Option String) (now : ℕ)
      (found : WithOrder)
      → Preserved P (move_owned seller status number now found)
  move_owned_kept seller status number now (s, o) = search (keeps_books, move_seller_order_kept)

  pub ship_kept :
      (seller id : String) (status : SellerOrderStatus) (number : Option String) (now : ℕ)
      → Preserved P (update_seller_order_status seller id status number now)
  unfolding update_seller_order_status
  ship_kept seller id status number now = search (keeps_books, move_owned_kept) depth 12
