-- ===== src/Orders/Payment/Waiting.antt =====
-- The first transaction of `payOrder` and the messages about an order's status.
use multi_marketplace.Base.{
  ◌&&◌, ◌≡◌, refl, String, Bool, List, [], ◌∷◌, ◌++◌, arith, update_where, select,
}
use multi_marketplace.Store.{
  for_each, Signal, World, Order, SellerOrder, OrderStatus, SellerOrderStatus, ok, ◌===◌, string_eq,
  order_status_eq, seller_order_status_eq,
}
use multi_marketplace.Repository.Orders.{
  seller_orders_of, is_awaiting, update_order_payment_pending, update_seller_orders_payment_pending,
}
use multi_marketplace.Orders.Payment.{payable_amount, tell_sellers, mark_waiting}
use multi_marketplace.Orders.Payment.Charge.{take_up}

-- The messages to the sellers.
pub tell_sellers-eq :
    (ss : List SellerOrder) (x : String) (status : OrderStatus) (w : World)
    → tell_sellers ss x status w
      ≡ (ok tt, record w { signals = (tell_sellers ss x status w).1.signals })
unfolding for_each
tell_sellers-eq [] x status w = refl
tell_sellers-eq (s ∷ ss) x status w =
    tell_sellers-eq ss x status
      (record w { signals = w.signals ++ Signal.order_status_update s.seller_id x status ∷ [] })

abbrev pub is_new_order : String → Order → Bool
is_new_order x o = o.id === x && o.status === OrderStatus.new

abbrev pub is_new_seller_order : String → SellerOrder → Bool
is_new_seller_order x s = s.order_id === x && s.status === SellerOrderStatus.new

abbrev pub pend_order : Order → Order
pend_order o = record o { status = OrderStatus.payment_pending }

abbrev pub pend_seller_order : SellerOrder → SellerOrder
pend_seller_order s = record s { status = SellerOrderStatus.payment_pending }

-- The tables once the first transaction has marked what is new as waiting.
abbrev pub marked : String → World → List Signal → World
marked x w sent = record w {
  orders = update_where (is_new_order x) pend_order w.orders;
  seller_orders = update_where (is_new_seller_order x) pend_seller_order w.seller_orders;
  signals = sent;
}

pub mark_waiting-eq :
    (user x : String) (w : World)
    → (sent : List Signal) × (mark_waiting user x w ≡ (ok tt, marked x w sent))
unfolding mark_waiting update_order_payment_pending update_seller_orders_payment_pending
mark_waiting-eq user x w = (
  (tell_sellers (seller_orders_of x w) x OrderStatus.payment_pending (
      marked x w (
        w.signals
        ++ Signal.order_status_update user x OrderStatus.payment_pending ∷ []))).1.signals,
  tell_sellers-eq (seller_orders_of x w) x OrderStatus.payment_pending (
      marked x w (w.signals ++ Signal.order_status_update user x OrderStatus.payment_pending ∷ [])),
)

pub payable-pend :
    (x y : String) (ss : List SellerOrder)
    → payable_amount
        (select (λ s. s.order_id === y) (update_where (is_new_seller_order x) pend_seller_order ss))
      ≡ payable_amount (select (λ s. s.order_id === y) ss)
payable-pend x y [] = refl
payable-pend x y (s ∷ ss) = ground (arith, payable-pend x y ss)

pub take_up-pend :
    (x : String) (ss : List SellerOrder)
    → update_where
        (is_awaiting x)
        take_up
        (update_where (is_new_seller_order x) pend_seller_order ss)
      ≡ update_where (is_awaiting x) take_up ss
take_up-pend x [] = refl
take_up-pend x (s ∷ ss) = ground (arith, take_up-pend x ss)
