-- ===== src/Bidding/WinnerCheckout.antt =====
-- `BiddingService.checkoutWinner` (backend/src/bidding/bidding.service.ts). The clock is read twice, for
-- the check of the window and in `claimWinnerCheckout`.
pub mod Parts
pub mod Sale
use multi_marketplace.Base.{
  ℕ, ℤ, String, Bool, true, false, ◌||◌, ◌&&◌, not, List, [], ◌∷◌, Option, none, some, ltb, ◌==◌,
  is_blank, if◌then◌else◌,
}
use multi_marketplace.Store.{
  World, Auction, Product, Order, SellerOrder, AuctionStatus, ProductStatus, ProductType,
  OrderStatus, SellerOrderStatus, PaymentStatus, Value, Action, Error, Reason, Signal, gets, raise,
  raise_if, or_raise, pure, send, transaction, catch_error, bad_request, forbidden, conflict,
  not_found, unique_violation, record_missing, ◌===◌, ◌>>=◌, ◌>>◌, string_eq, option_eq,
  auction_status_eq, product_status_eq, product_type_eq,
}
use multi_marketplace.Money.{commission_rate, commission, earnings}
use multi_marketplace.Repository.Auctions
use multi_marketplace.Repository.Auctions.{claim_winner_checkout}
use multi_marketplace.Repository.Products
use multi_marketplace.Repository.Outbox
use multi_marketplace.Repository.Outbox.{EventData}
use multi_marketplace.Repository.Orders
use multi_marketplace.Repository.Orders.{find_order_by_payment_key, seller_orders_of}
use multi_marketplace.Repository.Orders.Creation.{
  ItemData, SellerOrderData, OrderData, create_order,
}
use Prim.Native.String.{◌++◌ as text_append}

-- The guards of the transaction on the auction and on its product.
abbrev pub is_winner : String → Auction → Bool
is_winner winner a = a.status === AuctionStatus.sold && a.winner_id === some winner

abbrev pub is_window_open : ℕ → Auction → Bool
is_window_open now a = elim a.checkout_expires_at [ none ↦ false | some t ↦ ltb now t ]

abbrev pub is_available : Product → Bool
is_available p =
    p.type === ProductType.auction && not p.is_archived && p.status === ProductStatus.active

abbrev pub winner_item : Auction → Product → ItemData
winner_item a p = record {
  product_id = a.product_id;
  product_name = p.name;
  quantity = 1;
  unit_price = a.current_price;
  total_amount = a.current_price;
}

abbrev pub winner_part : Auction → Product → String → SellerOrderData
winner_part a p key = record {
  seller_id = p.seller_id;
  status = SellerOrderStatus.processing;
  subtotal = a.current_price;
  commission_rate = commission_rate;
  commission_amount = commission a.current_price commission_rate;
  seller_earnings = earnings a.current_price commission_rate;
  items = winner_item a p ∷ [];
  commission_key = text_append key ":commission";
  earning_key = text_append key ":earning";
}

abbrev pub winner_order : String → Auction → Product → String → OrderData
winner_order winner a p key = record {
  user_id = winner;
  status = OrderStatus.processing;
  total_amount = a.current_price;
  payment_status = PaymentStatus.paid;
  payment_key = key;
  seller_orders = winner_part a p key ∷ [];
}

-- `order.sellerOrders[0].id`.
abbrev first_id : List SellerOrder → Option String
first_id [] = none
first_id (s ∷ ss) = some s.id

abbrev sale_events : String → String → String → Order → World → List EventData
sale_events winner auction_id key o w =
    record {
      order_id = some o.id;
      seller_order_id = none;
      aggregate_type = "Order";
      aggregate_id = o.id;
      type = "order.created";
      payload = ("userId", Value.text winner) ∷ ("auctionId", Value.text auction_id) ∷ [];
      available_at = none;
      idempotency_key = text_append key ":order-created";
    }
    ∷ record {
      order_id = some o.id;
      seller_order_id = first_id (seller_orders_of o.id w);
      aggregate_type = "Auction";
      aggregate_id = auction_id;
      type = "auction.checkout-created";
      payload =
          ("auctionId", Value.text auction_id)
          ∷ ("orderId", Value.text o.id)
          ∷ ("winnerId", Value.text winner)
          ∷ [];
      available_at = none;
      idempotency_key = text_append key ":auction-checkout";
    }
    ∷ []

-- From the claim of the checkout to the end of the transaction.
unfoldable pub claim_sale : String → String → String → ℕ → Order → Action Order
claim_sale winner auction_id key now order = do
  claimed ← claim_winner_checkout auction_id winner order.id now
  raise_if (claimed == 0) (bad_request Reason.checkout_window_over)
  Outbox.create_many (← gets (sale_events winner auction_id key order))
  pure order

-- An order that the auction has already is returned to its owner.
abbrev own_sale : String → Option Order → Action Order
own_sale winner none = raise (forbidden Reason.checkout_of_other_user)
own_sale winner (some o) = do
  raise_if (not (o.user_id === winner)) (forbidden Reason.checkout_of_other_user)
  pure o

unfoldable pub recover_sale : String → Error → Action Order
recover_sale key unique_violation = do
  retry ← gets (find_order_by_payment_key key)
  or_raise retry unique_violation
recover_sale key (bad_request r) = raise (bad_request r)
recover_sale key (conflict r) = raise (conflict r)
recover_sale key (forbidden r) = raise (forbidden r)
recover_sale key (not_found r) = raise (not_found r)
recover_sale key record_missing = raise record_missing

module _ (column : ℤ → ℤ) where
  -- From the update of the product on.
  unfoldable pub order_sale : String → Auction → Product → String → ℕ → Action Order
  order_sale winner a p key now = do
    order ← create_order column (winner_order winner a p key)
    claim_sale winner a.id key now order

  unfoldable pub sell : String → Auction → Product → String → ℕ → Action Order
  sell winner a p key now = do Products.mark_sold a.product_id; order_sale winner a p key now

  unfoldable pub sell_won : String → Auction → Product → String → ℕ → ℕ → Action Order
  sell_won winner a p key now now' = do
    raise_if (not (is_winner winner a)) (forbidden Reason.not_the_winner)
    raise_if (not (is_window_open now a)) (bad_request Reason.checkout_window_over)
    raise_if (not (is_available p)) (bad_request Reason.auction_product_gone)
    sell winner a p key now'

  abbrev sell_or_again : String → Auction → Product → String → ℕ → ℕ → Option String → Action Order
  sell_or_again winner a p key now now' none = sell_won winner a p key now now'
  sell_or_again winner a p key now now' (some id) = do
    paid ← gets (Orders.find_by_id id)
    own_sale winner paid

  -- The body of the transaction; the foreign key says that the auction's product is there.
  unfoldable pub winner_body : String → String → String → ℕ → ℕ → Action Order
  winner_body winner auction_id key now now' = do
    a ← or_raise (← gets (Auctions.find_by_id auction_id)) (not_found Reason.auction_missing)
    p ← or_raise (← gets (Products.find_by_id a.product_id)) (not_found Reason.auction_missing)
    sell_or_again winner a p key now now' a.checkout_order_id

  abbrev attempt_sale : String → String → String → ℕ → ℕ → Action Order
  attempt_sale winner auction_id key now now' = do
    order ← transaction (winner_body winner auction_id key now now')
    send (Signal.metric "order_created")
    pure order

  abbrev sale_or_again : String → String → String → ℕ → ℕ → Option Order → Action Order
  sale_or_again winner auction_id key now now' (some existing) = do
    raise_if (not (existing.user_id === winner)) (forbidden Reason.key_of_other_user)
    pure existing
  sale_or_again winner auction_id key now now' none =
      catch_error (attempt_sale winner auction_id key now now') (recover_sale key)

  unfoldable pub checkout_winner : String → String → String → ℕ → ℕ → Action Order
  checkout_winner winner auction_id key now now' = do
    raise_if (is_blank key) (bad_request Reason.key_required)
    existing ← gets (find_order_by_payment_key key)
    sale_or_again winner auction_id key now now' existing
