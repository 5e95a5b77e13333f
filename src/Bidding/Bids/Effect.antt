-- ===== src/Bidding/Bids/Effect.antt =====
-- What an accepted bid does to the tables.
use multi_marketplace.Base.{
  ℕ, suc, ◌≤◌, ◌<◌, ◌≡◌, String, [], ◌∷◌, ◌++◌, arith, update_where, count_where,
}
use multi_marketplace.Store.{World, Auction, Bid, Result, ok, err}
use multi_marketplace.Repository.Auctions.{
  is_version, raise_price, is_active_bid, set_outbid, bid_row, claim_auction_version,
  mark_active_outbid, create_bid,
}
use multi_marketplace.Repository.Outbox.{event_row}
use multi_marketplace.Repository.Outbox
use multi_marketplace.Bidding.Bids.{submit_bid, minimum_bid, bid_placed_event}

module _ (bidder auction_id : String) (amount : ℕ) (key : String) (a : Auction) (w : World) where
  abbrev pub placed_bid : Bid
  placed_bid = bid_row (w.uuid w.drawn) auction_id bidder amount key

  abbrev pub placed : World
  placed = record w {
    auctions =
        update_where (is_version auction_id a.version a.current_price) (raise_price amount)
          w.auctions;
    bids = update_where (is_active_bid auction_id) set_outbid w.bids ++ placed_bid ∷ [];
    outbox =
        w.outbox
        ++ event_row (w.uuid (suc w.drawn)) (bid_placed_event auction_id bidder amount key) ∷ [];
    drawn = suc (suc w.drawn);
  }

  abbrev pub Submitted : Result Bid × World → Type 0
  Submitted (ok bid, w') =
      (minimum_bid a ≤ amount)
      × (0 < count_where (is_version auction_id a.version a.current_price) w.auctions)
      × (bid ≡ placed_bid)
      × (w' ≡ placed)
  Submitted (err e, w') = Unit

  pub submit_bid-Submitted : Submitted (submit_bid bidder auction_id amount key a w)
  unfolding submit_bid claim_auction_version mark_active_outbid create_bid Outbox.create
  submit_bid-Submitted = ground arith
