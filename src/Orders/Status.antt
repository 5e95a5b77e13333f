-- ===== src/Orders/Status.antt =====
-- `deriveOrderStatus` and `assertSellerOrderTransition` (backend/src/orders/orders.service.ts).
pub mod Derived
use multi_marketplace.Base.{
  ℕ, Bool, not, true, false, List, [], ◌∷◌, Option, none, some, every, select, ltb, if◌then◌else◌,
}
use multi_marketplace.Store.{
  OrderStatus, SellerOrderStatus, Action, Reason, raise_if, bad_request, ◌===◌, option_eq,
  seller_order_status_eq,
}

abbrev pub status_priority : SellerOrderStatus → ℕ
status_priority SellerOrderStatus.new = 1
status_priority SellerOrderStatus.payment_pending = 2
status_priority SellerOrderStatus.processing = 3
status_priority SellerOrderStatus.shipped = 4
status_priority SellerOrderStatus.completed = 5
status_priority SellerOrderStatus.cancelled = 0

-- `sort((left, right) => priority[right] - priority[left])`: stable, the highest priority first.
unfoldable pub insert_status : SellerOrderStatus → List SellerOrderStatus → List SellerOrderStatus
insert_status s [] = s ∷ []
insert_status s (t ∷ ts) =
    let rest = t ∷ insert_status s ts in
    if ltb (status_priority s) (status_priority t) then rest else s ∷ t ∷ ts

unfoldable pub sort_statuses : List SellerOrderStatus → List SellerOrderStatus
unfolding insert_status
sort_statuses [] = []
sort_statuses (s ∷ ss) = insert_status s (sort_statuses ss)

-- The name of a seller order's status, as the status of an order.
abbrev pub same_status : SellerOrderStatus → OrderStatus
same_status SellerOrderStatus.new = OrderStatus.new
same_status SellerOrderStatus.payment_pending = OrderStatus.payment_pending
same_status SellerOrderStatus.processing = OrderStatus.processing
same_status SellerOrderStatus.shipped = OrderStatus.shipped
same_status SellerOrderStatus.completed = OrderStatus.completed
same_status SellerOrderStatus.cancelled = OrderStatus.cancelled

abbrev first_status : List SellerOrderStatus → OrderStatus
first_status [] = OrderStatus.cancelled
first_status (s ∷ ss) = same_status s

abbrev pub is_cancelled : SellerOrderStatus → Bool
is_cancelled s = s === SellerOrderStatus.cancelled

unfoldable pub derive_order_status : List SellerOrderStatus → OrderStatus
unfolding sort_statuses
derive_order_status [] = OrderStatus.new
derive_order_status (s ∷ ss) =
    if every is_cancelled (s ∷ ss)
    then OrderStatus.cancelled
    else first_status (sort_statuses (select (λ t. not (is_cancelled t)) (s ∷ ss)))

abbrev pub legal_next : SellerOrderStatus → Option SellerOrderStatus
legal_next SellerOrderStatus.new = some SellerOrderStatus.processing
legal_next SellerOrderStatus.processing = some SellerOrderStatus.shipped
legal_next SellerOrderStatus.shipped = some SellerOrderStatus.completed
legal_next _ = none

unfoldable pub assert_transition : SellerOrderStatus → SellerOrderStatus → Action (Unit {0})
assert_transition current next =
    raise_if (not (legal_next current === some next))
      (bad_request (Reason.illegal_transition current next))
