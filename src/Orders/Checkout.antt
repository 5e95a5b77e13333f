-- ===== src/Orders/Checkout.antt =====
-- `OrdersService.checkout` (backend/src/orders/orders.service.ts).
pub mod Groups
pub mod Stock
pub mod Recorded
pub mod Calls
use multi_marketplace.Base.{
  ℕ, ℤ, ◌+◌, ◌*◌, pos, neg, String, Bool, not, List, [], ◌∷◌, ◌++◌, map, Option, none, some, length,
  ◌==◌, is_blank, if◌then◌else◌,
}
use multi_marketplace.Store.{
  World, Product, Cart, CartItem, Order, SellerOrder, OrderStatus, SellerOrderStatus, PaymentStatus,
  Value, Action, Error, Reason, Signal, gets, raise, raise_if, or_raise, pure, send, transaction,
  catch_error, bad_request, forbidden, conflict, not_found, unique_violation, record_missing, ◌===◌,
  ◌>>=◌, ◌>>◌, string_eq,
}
use multi_marketplace.Money.{commission_rate, commission, earnings}
use multi_marketplace.Repository.Products
use multi_marketplace.Repository.Carts
use multi_marketplace.Repository.Outbox
use multi_marketplace.Repository.Outbox.{EventData}
use multi_marketplace.Repository.Orders.{find_order_by_payment_key, seller_orders_of, items_of}
use multi_marketplace.Repository.Orders.Creation.{
  ItemData, SellerOrderData, OrderData, create_order,
}
use Prim.Native.String.{◌++◌ as text_append}

-- The entry of the map `bySeller`.
pub record Group : Type 0 where
  pub seller_id : String
  pub subtotal : ℕ
  pub items : List ItemData

-- A cart item with the product that the query included.
pub record Line : Type 0 where
  pub quantity : ℕ
  pub product : Product

abbrev pub line_total : Line → ℕ
line_total l = l.product.price * l.quantity

abbrev pub line_item : Line → ItemData
line_item l = record {
  product_id = l.product.id;
  product_name = l.product.name;
  quantity = l.quantity;
  unit_price = l.product.price;
  total_amount = line_total l;
}

-- `bySeller.get(...) ?? { subtotal: 0, items: [] }`, changed, and `bySeller.set(...)`.
unfoldable pub add_line : Line → List Group → List Group
add_line l [] =
    record { seller_id = l.product.seller_id; subtotal = line_total l; items = line_item l ∷ [] }
    ∷ []
add_line l (g ∷ gs) =
    let rest = g ∷ add_line l gs in
    if g.seller_id === l.product.seller_id
    then record g { subtotal = g.subtotal + line_total l; items = g.items ++ line_item l ∷ [] } ∷ gs
    else rest

-- `include: { product: true }`; the foreign key says that the product is there.
unfoldable pub lines_of : List CartItem → World → List Line
lines_of [] w = []
lines_of (i ∷ is) w = elim (Products.find_by_id i.product_id w) [
  | none ↦ lines_of is w
  | some p ↦ record { quantity = i.quantity; product = p } ∷ lines_of is w
]

abbrev key3 : String → String → String → String
key3 a b c = text_append (text_append a b) c

abbrev stock_event : String → Line → EventData
stock_event key l = record {
  order_id = none;
  seller_order_id = none;
  aggregate_type = "Product";
  aggregate_id = l.product.id;
  type = "product.stock-changed";
  payload =
      ("productId", Value.text l.product.id)
      ∷ ("quantity", Value.money (neg (pos l.quantity)))
      ∷ [];
  available_at = none;
  idempotency_key = key3 key ":stock:" l.product.id;
}

-- What the loop carries: `totalAmount` and `bySeller`.
abbrev pub Tally : Type 0
Tally = ℕ × List Group

abbrev pub tally_line : Line → Tally → Tally
tally_line l (total, groups) = (total + line_total l, add_line l groups)

-- One round of the loop over the cart.
unfoldable pub take_line : String → Line → Action (Unit {0})
take_line key l = do
  count ← Products.decrement_stock_for_checkout l.product.id l.quantity
  raise_if (count == 0) (bad_request (Reason.stock_short l.product.name))
  Outbox.create (stock_event key l)

unfoldable pub take_lines : String → List Line → Tally → Action Tally
take_lines key [] tally w = pure tally w
take_lines key (l ∷ ls) tally w =
    (take_line key l >>= λ _. take_lines key ls (tally_line l tally)) w

abbrev pub seller_order_data : String → Group → SellerOrderData
seller_order_data key g = record {
  seller_id = g.seller_id;
  status = SellerOrderStatus.new;
  subtotal = g.subtotal;
  commission_rate = commission_rate;
  commission_amount = commission g.subtotal commission_rate;
  seller_earnings = earnings g.subtotal commission_rate;
  items = g.items;
  commission_key = key3 key ":commission:" g.seller_id;
  earning_key = key3 key ":earning:" g.seller_id;
}

abbrev pub order_data : String → String → Tally → OrderData
order_data user key (total, groups) = record {
  user_id = user;
  status = OrderStatus.new;
  total_amount = total;
  payment_status = PaymentStatus.pending;
  payment_key = key;
  seller_orders = map (seller_order_data key) groups;
}

abbrev order_event : String → String → Order → ℕ → EventData
order_event user key order sellers = record {
  order_id = some order.id;
  seller_order_id = none;
  aggregate_type = "Order";
  aggregate_id = order.id;
  type = "order.created";
  payload = ("userId", Value.text user) ∷ ("sellerCount", Value.count sellers) ∷ [];
  available_at = none;
  idempotency_key = text_append key ":order-created";
}

abbrev seller_order_event : String → Order → World → SellerOrder → EventData
seller_order_event key order w s = record {
  order_id = some order.id;
  seller_order_id = some s.id;
  aggregate_type = "SellerOrder";
  aggregate_id = s.id;
  type = "seller-order.created";
  payload =
      ("sellerId", Value.text s.seller_id)
      ∷ ("itemCount", Value.count (length (items_of s.id w)))
      ∷ [];
  available_at = none;
  idempotency_key = key3 key ":seller-order:" s.id;
}

abbrev pub created_events : String → String → Order → World → List EventData
created_events user key order w =
    order_event user key order (length (seller_orders_of order.id w))
    ∷ map (seller_order_event key order w) (seller_orders_of order.id w)

-- `findCheckoutByIdempotencyKey`, and the same look at the start of the transaction.
abbrev own_order : String → Option Order → Action (Option Order)
own_order user none = pure none
own_order user (some order) = do
  raise_if (not (order.user_id === user)) (forbidden Reason.key_of_other_user)
  pure (some order)

unfoldable pub find_checkout : String → String → Action (Option Order)
find_checkout user key = do order ← gets (find_order_by_payment_key key); own_order user order

abbrev pub is_empty_list : {A : Type 0} → List A → Bool
is_empty_list xs = length xs == 0

abbrev pub drop_product_caches : Action (Unit {0})
drop_product_caches = do
  send (Signal.drop_cache "products:list:*")
  send (Signal.drop_cache "search:products:*")
  send (Signal.drop_cache "products:detail:*")

unfoldable pub recover_checkout : String → String → Error → Action Order
recover_checkout user key unique_violation = do
  existing ← find_checkout user key
  or_raise existing unique_violation
recover_checkout user key (bad_request r) = raise (bad_request r)
recover_checkout user key (conflict r) = raise (conflict r)
recover_checkout user key (forbidden r) = raise (forbidden r)
recover_checkout user key (not_found r) = raise (not_found r)
recover_checkout user key record_missing = raise record_missing

unfoldable pub finish_order : String → String → Cart → Order → Action Order
finish_order user key cart order = do
  Outbox.create_many (← gets (created_events user key order))
  Carts.clear cart.id
  pure order

module _ (column : ℤ → ℤ) where
  -- From the insert of the order to the end of the transaction.
  unfoldable pub bill_order : String → String → Cart → Tally → Action Order
  bill_order user key cart tally = do
    order ← create_order column (order_data user key tally)
    finish_order user key cart order

  unfoldable pub place_order : String → String → Cart → List Line → Action Order
  place_order user key cart lines = do
    tally ← take_lines key lines (0, [])
    bill_order user key cart tally

  unfoldable pub order_cart : String → String → Action Order
  order_cart user key = do
    cart ← or_raise (← gets (Carts.find_by_user_id user)) (bad_request Reason.cart_empty)
    items ← gets (Carts.find_items cart.id)
    raise_if (is_empty_list items) (bad_request Reason.cart_empty)
    lines ← gets (lines_of items)
    place_order user key cart lines

  abbrev order_once : String → String → Option Order → Action Order
  order_once user key none = order_cart user key
  order_once user key (some prior) = pure prior

  unfoldable pub checkout_body : String → String → Action Order
  checkout_body user key = do prior ← find_checkout user key; order_once user key prior

  abbrev attempt_checkout : String → String → Action Order
  attempt_checkout user key = do
    order ← transaction (checkout_body user key)
    drop_product_caches
    send (Signal.metric "checkout")
    pure order

  abbrev checkout_or_again : String → String → Option Order → Action Order
  checkout_or_again user key (some existing) = pure existing
  checkout_or_again user key none =
      catch_error (attempt_checkout user key) (recover_checkout user key)

  unfoldable pub checkout : String → String → Action Order
  checkout user key = do
    raise_if (is_blank key) (bad_request Reason.key_required)
    existing ← find_checkout user key
    checkout_or_again user key existing
