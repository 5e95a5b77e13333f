-- ===== src/Bidding/Lots.antt =====
-- The life of an auction (backend/src/bidding/bidding.service.ts): `createAuction`, `startAuction`,
-- `endAuction`, `expireWinnerCheckout` and `findAuction`. Each read of the clock is an argument, in
-- the order of the reads.
pub mod Ending
use multi_marketplace.Base.{
  ℕ, String, Bool, ◌||◌, ◌&&◌, not, List, [], ◌∷◌, Option, none, some, ltb, leb, ◌==◌,
  if◌then◌else◌, true, false, is_some,
}
use multi_marketplace.Store.{
  World, Auction, Bid, Product, AuctionStatus, ProductStatus, ProductType, Value, Action, Error,
  Reason, gets, raise_if, or_raise, pure, skip, transaction, bad_request, conflict, forbidden,
  not_found, ◌===◌, ◌>>=◌, ◌>>◌, string_eq, auction_status_eq, product_status_eq, product_type_eq,
  option_eq,
}
use multi_marketplace.Repository.Auctions.{
  AuctionData, find_by_id, find_by_product_id, activate, claim_expired, find_highest_active,
  mark_ended, mark_won, claim_checkout_expiry, checkout_window,
}
use multi_marketplace.Repository.Auctions
use multi_marketplace.Repository.Products
use multi_marketplace.Repository.Outbox
use multi_marketplace.Repository.Outbox.{EventData}
use Prim.Native.String.{◌++◌ as text_append}

-- An event about an auction; its key is a prefix and the identifier.
abbrev auction_event : String → String → List (String × Value) → Option ℕ → String → EventData
auction_event auction_id type payload available_at prefix = record {
  order_id = none;
  seller_order_id = none;
  aggregate_type = "Auction";
  aggregate_id = auction_id;
  type = type;
  payload = ("auctionId", Value.text auction_id) ∷ payload;
  available_at = available_at;
  idempotency_key = text_append prefix auction_id;
}

-- The guard of `createAuction` on the product.
abbrev pub is_listable : Product → Bool
is_listable p =
    p.type === ProductType.auction
    && (p.status === ProductStatus.draft
        || p.status === ProductStatus.pending_approval
        || p.status === ProductStatus.active)
    && not p.is_archived

unfoldable pub create_auction : String → AuctionData → ℕ → Action Auction
create_auction seller dto now = do
  raise_if (leb dto.ends_at dto.starts_at || leb dto.ends_at now) (bad_request Reason.auction_dates)
  transaction do
    product ←
        or_raise (← gets (Products.find_by_id dto.product_id)) (not_found Reason.product_missing)
    raise_if (not (product.seller_id === seller)) (forbidden Reason.product_not_owned)
    raise_if (not (is_listable product)) (bad_request Reason.product_not_listable)
    raise_if (is_some (← gets (find_by_product_id dto.product_id))) (conflict Reason.auction_exists)
    created ← Auctions.create dto
    Outbox.create (
        auction_event created.id "auction.schedule-end" [] (some dto.ends_at)
          "auction-schedule-end:")
    Outbox.create (
        auction_event created.id "auction.schedule-start" [] (some dto.starts_at)
          "auction-schedule-start:")
    pure created

abbrev product_status_event : Auction → EventData
product_status_event auction = record {
  order_id = none;
  seller_order_id = none;
  aggregate_type = "Product";
  aggregate_id = auction.product_id;
  type = "product.auction-status-changed";
  payload = ("productId", Value.text auction.product_id) ∷ [];
  available_at = none;
  idempotency_key = text_append (text_append "product-auction-status:" auction.id) ":ACTIVE";
}

-- `product?.status === ACTIVE`.
abbrev pub is_active_product : Option Product → Bool
is_active_product none = false
is_active_product (some p) = p.status === ProductStatus.active

abbrev start_listed : String → Auction → Bool → Action (Option Auction)
start_listed id auction false = pure (some auction)
start_listed id auction true = do
  activate id
  result ← gets (find_by_id id)
  Outbox.create (auction_event id "auction.started" [] none "auction-started:")
  Outbox.create (product_status_event auction)
  pure result

abbrev pub is_due_to_start : ℕ → Auction → Bool
is_due_to_start now a = a.status === AuctionStatus.draft && leb a.starts_at now

abbrev start_found : String → Option Auction → ℕ → Action (Option Auction)
start_found id none now = pure none
start_found id (some auction) now =
    if not (is_due_to_start now auction) then pure (some auction) else (do
      product ← gets (Products.find_by_id auction.product_id)
      start_listed id auction (is_active_product product))

unfoldable pub start_auction : String → ℕ → Action (Option Auction)
start_auction id now = transaction do auction ← gets (find_by_id id); start_found id auction now

abbrev pub winner_of : Option Bid → Option String
winner_of none = none
winner_of (some b) = some b.bidder_id

abbrev pub status_of : Option Bid → AuctionStatus
status_of none = AuctionStatus.expired
status_of (some b) = AuctionStatus.sold

abbrev mark_winner : Option Bid → Action (Unit {0})
mark_winner none = skip
mark_winner (some b) = mark_won b.id

abbrev nullable_text : Option String → Value
nullable_text none = Value.null
nullable_text (some s) = Value.text s

abbrev status_text : Option Bid → String
status_text none = "EXPIRED"
status_text (some b) = "SOLD"

-- `if (winner && result.checkoutExpiresAt)`.
abbrev schedule_expiry : String → Option Bid → Option Auction → Action (Unit {0})
schedule_expiry id none result = skip
schedule_expiry id (some b) none = skip
schedule_expiry id (some b) (some a) = elim a.checkout_expires_at [
  | none ↦ skip
  | some t ↦ Outbox.create (
      auction_event id "auction.schedule-checkout-expiry" [] (some t)
        "auction-schedule-checkout-expiry:")
]

-- From the search of the winning bid to the end of the transaction.
unfoldable pub settle_auction : String → ℕ → Action (Option Auction)
settle_auction id now = do
  winner ← gets (find_highest_active id)
  mark_ended id (winner_of winner) (status_of winner) now
  result ← gets (find_by_id id)
  mark_winner winner
  Outbox.create (
      auction_event id "auction.ended"
        (("status", Value.text (status_text winner))
          ∷ ("winnerId", nullable_text (winner_of winner))
          ∷ [])
        none "auction-ended:")
  schedule_expiry id winner result
  pure result

abbrev pub is_open_at : ℕ → Auction → Bool
is_open_at now a = not (a.status === AuctionStatus.active) || ltb now a.ends_at

abbrev end_claimed : String → ℕ → ℕ → Action (Option Auction)
end_claimed id claimed now = if claimed == 0 then gets (find_by_id id) else settle_auction id now

abbrev end_found : String → Option Auction → ℕ → ℕ → ℕ → Action (Option Auction)
end_found id none now now' now'' = pure none
end_found id (some auction) now now' now'' =
    if is_open_at now auction
    then pure (some auction)
    else (do claimed ← claim_expired id now'; end_claimed id claimed now'')

unfoldable pub end_auction : String → ℕ → ℕ → ℕ → Action (Option Auction)
end_auction id now now' now'' =
    transaction do auction ← gets (find_by_id id); end_found id auction now now' now''

-- `auction.status !== SOLD || !auction.checkoutExpiresAt || auction.checkoutExpiresAt > new Date()`.
abbrev pub lapse_time : ℕ → Auction → Option ℕ
lapse_time now a =
    if a.status === AuctionStatus.sold
    then elim a.checkout_expires_at [ none ↦ none | some t ↦ if ltb now t then none else some t ]
    else none

abbrev lapse_claimed : String → Auction → ℕ → Action (Option Auction)
lapse_claimed id auction claimed = if claimed == 0 then pure (some auction) else (do
  result ← gets (find_by_id id)
  Outbox.create (auction_event id "auction.checkout-expired" [] none "auction-checkout-expired:")
  pure result)

abbrev lapse_at : String → Auction → Option ℕ → Action (Option Auction)
lapse_at id auction none = pure (some auction)
lapse_at id auction (some expires) = do
  claimed ← claim_checkout_expiry id auction.winner_id expires
  lapse_claimed id auction claimed

abbrev lapse_found : String → Option Auction → ℕ → Action (Option Auction)
lapse_found id none now = pure none
lapse_found id (some auction) now = lapse_at id auction (lapse_time now auction)

unfoldable pub expire_winner_checkout : String → ℕ → Action (Option Auction)
expire_winner_checkout id now =
    transaction do auction ← gets (find_by_id id); lapse_found id auction now

abbrev end_if_over : String → Option Auction → ℕ → ℕ → ℕ → ℕ → Action (Option Auction)
end_if_over id none t now now' now'' = pure none
end_if_over id (some current) t now now' now'' =
    if current.status === AuctionStatus.active && leb current.ends_at t
    then end_auction id now now' now''
    else pure (some current)

unfoldable pub find_auction : String → ℕ → ℕ → ℕ → ℕ → Action (Option Auction)
find_auction id t now now' now'' = do
  current ← gets (find_by_id id)
  end_if_over id current t now now' now''
