-- ===== src/Tests/Worlds.antt =====
-- An auction house and a shop with a few rows each, and a column that rounds as PostgreSQL's does.
use multi_marketplace.Base.{
  ℕ, ℤ, ◌+◌, ◌/◌, pos, neg, negsuc, suc, String, [], ◌∷◌, none, some, false, if◌then◌else◌, ◌==◌,
}
use multi_marketplace.Store.{
  World, Product, ProductType, ProductStatus, Order, OrderStatus, SellerOrder, SellerOrderStatus,
  OrderItem, Payment, PaymentStatus, Auction, AuctionStatus, Bid, BidStatus, Cart, CartItem,
}

abbrev pub cents_of : ℤ → ℤ
cents_of (pos n) = pos ((n + 5000) / 10000)
cents_of (negsuc n) = neg (pos ((suc n + 5000) / 10000))

abbrev pub names : ℕ → String
names n =
    if n == 0
    then "id-0"
    else if n == 1
    then "id-1"
    else if n == 2
    then "id-2"
    else if n == 3
    then "id-3"
    else if n == 4
    then "id-4"
    else if n == 5
    then "id-5"
    else if n == 6
    then "id-6"
    else if n == 7
    then "id-7"
    else if n == 8
    then "id-8"
    else "id-9"

abbrev pub no_rows : World
no_rows = record {
  categories = [];
  products = [];
  auctions = [];
  bids = [];
  carts = [];
  cart_items = [];
  orders = [];
  seller_orders = [];
  order_items = [];
  payments = [];
  refunds = [];
  ledger = [];
  outbox = [];
  disputes = [];
  dispute_history = [];
  reviews = [];
  profiles = [];
  users = [];
  receipts = [];
  delivered = [];
  uuid = names;
  drawn = 0;
  signals = [];
}

-- An auction that is open from 100 to 200 and stands at 50 cents, with one bid.
abbrev pub lamp : Auction
lamp = record {
  id = "lamp";
  product_id = "lamp-product";
  starting_price = 30;
  current_price = 50;
  min_bid_increment = 5;
  starts_at = 100;
  ends_at = 200;
  status = AuctionStatus.active;
  version = 1;
  winner_id = none;
  checkout_expires_at = none;
  checkout_order_id = none;
}

abbrev pub bid_of_ann : Bid
bid_of_ann = record {
  id = "bid-ann";
  auction_id = "lamp";
  bidder_id = "ann";
  amount = 50;
  status = BidStatus.active;
  idempotency_key = some "ann-1";
}

abbrev pub auction_house : World
auction_house = record no_rows { auctions = lamp ∷ []; bids = bid_of_ann ∷ [] }

abbrev pub mug : Product
mug = record {
  id = "mug";
  seller_id = "sam";
  name = "Mug";
  type = ProductType.fixed_price;
  status = ProductStatus.active;
  price = 250;
  stock = 7;
  version = 0;
  is_archived = false;
  category_id = "home";
  slug = "mug";
  image_url = none;
}

abbrev pub bobs_cart : Cart
bobs_cart = record { id = "cart-bob"; user_id = "bob" }

abbrev pub two_mugs : CartItem
two_mugs = record { id = "item-1"; cart_id = "cart-bob"; product_id = "mug"; quantity = 2 }

abbrev pub shop : World
shop = record no_rows { products = mug ∷ []; carts = bobs_cart ∷ []; cart_items = two_mugs ∷ [] }

-- An order of two mugs by bob, not paid for yet, with its first refund still to come.
abbrev pub bobs_order : Order
bobs_order = record {
  id = "order-1";
  user_id = "bob";
  status = OrderStatus.new;
  subtotal = 500;
  total_amount = 500;
}

abbrev pub sams_part : SellerOrder
sams_part = record {
  id = "part-1";
  order_id = "order-1";
  seller_id = "sam";
  status = SellerOrderStatus.new;
  subtotal = 500;
  commission_rate = 1000;
  commission_amount = pos 50;
  seller_earnings = pos 450;
  refunded_amount = 0;
  tracking_number = none;
  shipped_at = none;
  completed_at = none;
  cancelled_at = none;
  cancellation_reason = none;
}

abbrev pub mugs_item : OrderItem
mugs_item = record {
  id = "item-of-1";
  seller_order_id = "part-1";
  product_id = "mug";
  product_name = "Mug";
  quantity = 2;
  unit_price = 250;
  total_amount = 500;
}

abbrev pub bobs_payment : Payment
bobs_payment = record {
  id = "pay-1";
  order_id = "order-1";
  provider = "mock";
  provider_ref = none;
  status = PaymentStatus.pending;
  amount = 500;
  idempotency_key = "k";
  paid_at = none;
}

abbrev pub unpaid : World
unpaid = record no_rows {
  products = mug ∷ [];
  orders = bobs_order ∷ [];
  seller_orders = sams_part ∷ [];
  order_items = mugs_item ∷ [];
  payments = bobs_payment ∷ [];
}

-- The same order once it is paid for.
abbrev pub paid : World
paid = record unpaid {
  orders = record bobs_order { status = OrderStatus.processing } ∷ [];
  seller_orders = record sams_part { status = SellerOrderStatus.processing } ∷ [];
  payments = record bobs_payment { status = PaymentStatus.paid } ∷ [];
}

-- The lamp once it is sold to ann, with a window until 900.
abbrev pub won_lamp : Auction
won_lamp = record lamp {
  status = AuctionStatus.sold;
  winner_id = some "ann";
  checkout_expires_at = some 900;
}

abbrev pub lamp_product : Product
lamp_product = record mug {
  id = "lamp-product";
  name = "Lamp";
  type = ProductType.auction;
  stock = 1;
}

abbrev pub hammer : World
hammer = record no_rows { products = lamp_product ∷ []; auctions = won_lamp ∷ [] }
