-- ===== src/Repository/Auctions.antt =====
-- backend/src/database/auction.repository.ts: `AuctionRepository` and `BidRepository`.
pub mod Reading
use multi_marketplace.Base.{
  ℕ, ◌+◌, String, Bool, ◌&&◌, ◌||◌, false, List, [], ◌∷◌, ◌++◌, Option, none, some, find_first,
  select, update_where, count_where, any, leb, ltb, ◌==◌, if◌then◌else◌,
}
use multi_marketplace.Store.{
  World, Auction, Bid, AuctionStatus, BidStatus, Action, gets, modify, raise_if, require_row,
  fresh_id, ok, unique_violation, ◌===◌, ◌>>=◌, ◌>>◌, pure, string_eq, option_eq, nat_eq_instance,
  auction_status_eq, bid_status_eq,
}

unfoldable pub find_by_id : String → World → Option Auction
find_by_id id w = find_first (λ a. a.id === id) w.auctions

unfoldable pub find_by_product_id : String → World → Option Auction
find_by_product_id id w = find_first (λ a. a.product_id === id) w.auctions

-- `updateMany`: the number of rows that passed.
abbrev update_auctions : (Auction → Bool) → (Auction → Auction) → Action ℕ
update_auctions p f w =
    (ok (count_where p w.auctions), record w { auctions = update_where p f w.auctions })

abbrev update_bids : (Bid → Bool) → (Bid → Bid) → Action (Unit {0})
update_bids p f = modify λ w. record w { bids = update_where p f w.bids }

-- `updateCheckoutOrder`, which no service calls.
unfoldable update_checkout_order : String → String → Action (Unit {0})
update_checkout_order id order = do
  require_row (← gets λ w. count_where (λ a. a.id === id) w.auctions)
  modify λ w. record w {
    auctions =
        update_where (λ a. a.id === id) (λ a. record a { checkout_order_id = some order })
          w.auctions;
  }

-- The `where` and the `data` of `claimWinnerCheckout`.
abbrev pub is_still_open : String → ℕ → Auction → Bool
is_still_open winner now a =
    a.status === AuctionStatus.sold
    && a.winner_id === some winner
    && a.checkout_order_id === none
    && elim a.checkout_expires_at [ none ↦ false | some t ↦ ltb now t ]

abbrev pub is_checkout_open : String → String → ℕ → Auction → Bool
is_checkout_open id winner now a = a.id === id && is_still_open winner now a

unfoldable pub claim_winner_checkout : String → String → String → ℕ → Action ℕ
claim_winner_checkout id winner order now =
    update_auctions (is_checkout_open id winner now)
      λ a. record a { checkout_order_id = some order }

pub record AuctionData : Type 0 where
  pub product_id : String
  pub starting_price : ℕ
  pub min_bid_increment : ℕ
  pub starts_at : ℕ
  pub ends_at : ℕ

abbrev pub auction_row : String → AuctionData → Auction
auction_row id d = record {
  id = id;
  product_id = d.product_id;
  starting_price = d.starting_price;
  current_price = d.starting_price;
  min_bid_increment = d.min_bid_increment;
  starts_at = d.starts_at;
  ends_at = d.ends_at;
  status = AuctionStatus.draft;
  version = 0;
  winner_id = none;
  checkout_expires_at = none;
  checkout_order_id = none;
}

unfoldable pub create : AuctionData → Action Auction
create d = do
  id ← fresh_id
  raise_if (← gets λ w. any (λ a. a.product_id === d.product_id) w.auctions) unique_violation
  modify λ w. record w { auctions = w.auctions ++ auction_row id d ∷ [] }
  pure (auction_row id d)

unfoldable pub activate : String → Action (Unit {0})
activate id = do
  n ← update_auctions (λ a. a.id === id) λ a. record a { status = AuctionStatus.active }
  require_row n

abbrev pub is_cancellable : String → Auction → Bool
is_cancellable product a =
    a.product_id === product
    && (a.status === AuctionStatus.draft || a.status === AuctionStatus.active)

unfoldable pub cancel_for_product : String → Action ℕ
cancel_for_product product =
    update_auctions (is_cancellable product) λ a. record a { status = AuctionStatus.cancelled }

abbrev pub is_draft_started : String → ℕ → Auction → Bool
is_draft_started id now a = a.id === id && a.status === AuctionStatus.draft && leb a.starts_at now

unfoldable pub activate_draft_if_started : String → ℕ → Action ℕ
activate_draft_if_started id now =
    update_auctions (is_draft_started id now) λ a. record a { status = AuctionStatus.active }

abbrev pub is_overdue : String → ℕ → Auction → Bool
is_overdue id now a = a.id === id && a.status === AuctionStatus.active && leb a.ends_at now

abbrev pub expire : Auction → Auction
expire a = record a { status = AuctionStatus.expired; winner_id = none; checkout_expires_at = none }

unfoldable pub claim_expired : String → ℕ → Action ℕ
claim_expired id now = update_auctions (is_overdue id now) expire

-- Fifteen minutes, in milliseconds.
abbrev pub checkout_window : ℕ
checkout_window = 900000

abbrev pub finish : Option String → AuctionStatus → ℕ → Auction → Auction
finish winner status now a = record a {
  status = status;
  winner_id = winner;
  checkout_expires_at = elim winner [ none ↦ none | some _ ↦ some (now + checkout_window) ];
  version = a.version + 1;
}

unfoldable pub mark_ended : String → Option String → AuctionStatus → ℕ → Action (Unit {0})
mark_ended id winner status now = do
  n ← update_auctions (λ a. a.id === id) (finish winner status now)
  require_row n

abbrev pub is_unpaid : String → Option String → ℕ → Auction → Bool
is_unpaid id winner expires a =
    a.id === id
    && a.status === AuctionStatus.sold
    && a.winner_id === winner
    && a.checkout_expires_at === some expires
    && a.checkout_order_id === none

abbrev pub lapse : Auction → Auction
lapse a = record a {
  status = AuctionStatus.expired;
  winner_id = none;
  checkout_expires_at = none;
  version = a.version + 1;
}

unfoldable pub claim_checkout_expiry : String → Option String → ℕ → Action ℕ
claim_checkout_expiry id winner expires = update_auctions (is_unpaid id winner expires) lapse

unfoldable pub find_bid_by_idempotency_key : String → World → Option Bid
find_bid_by_idempotency_key key w = find_first (λ b. b.idempotency_key === some key) w.bids

abbrev pub is_active_bid : String → Bid → Bool
is_active_bid id b = b.auction_id === id && b.status === BidStatus.active

-- `orderBy: { amount: 'desc' }`, the first row.
unfoldable pub highest : List Bid → Option Bid
highest [] = none
highest (b ∷ bs) = elim (highest bs) [
  | none ↦ some b
  | some c ↦ some (if leb c.amount b.amount then b else c)
]

unfoldable pub find_highest_active : String → World → Option Bid
unfolding highest
find_highest_active id w = highest (select (is_active_bid id) w.bids)

-- The `where` of the optimistic lock: the row is as it was read.
abbrev pub is_locked : ℕ → ℕ → Auction → Bool
is_locked version price a =
    a.status === AuctionStatus.active && a.version == version && a.current_price == price

abbrev pub is_version : String → ℕ → ℕ → Auction → Bool
is_version id version price a = a.id === id && is_locked version price a

abbrev pub raise_price : ℕ → Auction → Auction
raise_price amount a = record a { current_price = amount; version = a.version + 1 }

unfoldable pub claim_auction_version : String → ℕ → ℕ → ℕ → Action ℕ
claim_auction_version id version price amount =
    update_auctions (is_version id version price) (raise_price amount)

abbrev pub set_outbid : Bid → Bid
set_outbid b = record b { status = BidStatus.outbid }

unfoldable pub mark_active_outbid : String → Action (Unit {0})
mark_active_outbid id = update_bids (is_active_bid id) set_outbid

abbrev pub bid_row : String → String → String → ℕ → String → Bid
bid_row id auction bidder amount key = record {
  id = id;
  auction_id = auction;
  bidder_id = bidder;
  amount = amount;
  status = BidStatus.active;
  idempotency_key = some key;
}

unfoldable pub create_bid : String → String → ℕ → String → Action Bid
create_bid auction bidder amount key = do
  id ← fresh_id
  raise_if (← gets λ w. any (λ b. b.idempotency_key === some key) w.bids) unique_violation
  modify λ w. record w { bids = w.bids ++ bid_row id auction bidder amount key ∷ [] }
  pure (bid_row id auction bidder amount key)

unfoldable pub mark_won : String → Action (Unit {0})
mark_won id = do
  require_row (← gets λ w. count_where (λ b. b.id === id) w.bids)
  update_bids (λ b. b.id === id) λ b. record b { status = BidStatus.won }
