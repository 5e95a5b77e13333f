-- ===== src/Bidding/Bids.antt =====
-- `BiddingService.placeBid` (backend/src/bidding/bidding.service.ts). The clock is read once, in the
-- transaction; `auction` is the row that the transaction read.
pub mod Effect
pub mod Book
pub mod Race
pub mod Calls
use multi_marketplace.Base.{
  ℕ, ◌+◌, String, Bool, ◌||◌, not, List, [], ◌∷◌, ◌++◌, Option, none, some, ℤ, pos, ltb, leb, ◌==◌,
  is_blank, if◌then◌else◌, ◌&&◌,
}
use multi_marketplace.Store.{
  World, Auction, Bid, AuctionStatus, Value, Action, Error, Reason, gets, raise, raise_if, or_raise,
  pure, send, Signal, transaction, catch_error, bad_request, conflict, forbidden, not_found,
  unique_violation, record_missing, ◌===◌, ◌>>=◌, ◌>>◌, string_eq, auction_status_eq,
}
use multi_marketplace.Repository.Auctions.{
  find_by_id, find_bid_by_idempotency_key, claim_auction_version, mark_active_outbid, create_bid,
}
use multi_marketplace.Repository.Outbox
use multi_marketplace.Repository.Outbox.{EventData}
use Prim.Native.String.{◌++◌ as text_append}

abbrev pub is_accepting : ℕ → Auction → Bool
is_accepting now a =
    not (not (a.status === AuctionStatus.active) || ltb now a.starts_at || leb a.ends_at now)

abbrev pub minimum_bid : Auction → ℕ
minimum_bid a = a.current_price + a.min_bid_increment

abbrev pub bid_placed_event : String → String → ℕ → String → EventData
bid_placed_event auction_id bidder amount key = record {
  order_id = none;
  seller_order_id = none;
  aggregate_type = "Auction";
  aggregate_id = auction_id;
  type = "auction.bid-placed";
  payload =
      ("auctionId", Value.text auction_id)
      ∷ ("bidderId", Value.text bidder)
      ∷ ("amount", Value.money (pos amount))
      ∷ [];
  available_at = none;
  idempotency_key = text_append key ":event";
}

-- From the check of the amount to the end of the transaction.
unfoldable pub submit_bid : String → String → ℕ → String → Auction → Action Bid
submit_bid bidder auction_id amount key auction = do
  raise_if (ltb amount (minimum_bid auction)) (bad_request (Reason.bid_below (minimum_bid auction)))
  updated ← claim_auction_version auction_id auction.version auction.current_price amount
  raise_if (updated == 0) (conflict Reason.auction_changed)
  mark_active_outbid auction_id
  bid ← create_bid auction_id bidder amount key
  Outbox.create (bid_placed_event auction_id bidder amount key)
  pure bid

-- The whole body of the transaction.
unfoldable pub bid_body : String → String → ℕ → String → ℕ → Action Bid
bid_body bidder auction_id amount key now = do
  auction ← or_raise (← gets (find_by_id auction_id)) (not_found Reason.auction_missing)
  raise_if (not (is_accepting now auction)) (bad_request Reason.auction_closed)
  submit_bid bidder auction_id amount key auction

reject_bid : Error → Action Bid
reject_bid e = send (Signal.metric "bid_rejected") >> raise e

-- The `catch` block.
unfoldable pub recover_bid : String → Error → Action Bid
unfolding reject_bid
recover_bid key (bad_request r) = reject_bid (bad_request r)
recover_bid key (conflict r) = reject_bid (conflict r)
recover_bid key (forbidden r) = reject_bid (forbidden r)
recover_bid key (not_found r) = reject_bid (not_found r)
recover_bid key record_missing = raise record_missing
recover_bid key unique_violation = do
  retry ← gets (find_bid_by_idempotency_key key)
  or_raise retry unique_violation

abbrev attempt_bid : String → String → ℕ → String → ℕ → Action Bid
attempt_bid bidder auction_id amount key now = do
  bid ← transaction (bid_body bidder auction_id amount key now)
  send (Signal.metric "bid_accepted")
  pure bid

abbrev reuse_bid : String → String → Bid → Action Bid
reuse_bid bidder auction_id bid = do
  raise_if (not (bid.bidder_id === bidder) || not (bid.auction_id === auction_id))
      (forbidden Reason.key_of_other_bid)
  pure bid

abbrev first_or_again : Option Bid → (Bid → Action Bid) → Action Bid → Action Bid
first_or_again none reuse attempt = attempt
first_or_again (some bid) reuse attempt = reuse bid

unfoldable pub place_bid : String → String → ℕ → String → ℕ → Action Bid
place_bid bidder auction_id amount key now = do
  raise_if (is_blank key) (bad_request Reason.key_required)
  existing ← gets (find_bid_by_idempotency_key key)
  first_or_again existing (reuse_bid bidder auction_id)
      (catch_error (attempt_bid bidder auction_id amount key now) (recover_bid key))
