-- ===== src/Tests/Bidding.antt =====
-- The theorems about auctions, at concrete inputs.
use multi_marketplace.Base.{
  ℕ, ◌+◌, ◌≤◌, ◌≡◌, ◌⊎◌, refl, arith, List, [], ◌∷◌, ◌++◌, some, none, Option, true, inl, inr,
}
use multi_marketplace.Base
use multi_marketplace.Store.{
  World, Auction, Bid, AuctionStatus, Signal, ok, err, bad_request, conflict, Reason,
}
use multi_marketplace.Repository.Auctions.{
  find_by_id, find_bid_by_idempotency_key, claim_auction_version, mark_active_outbid, create_bid,
  claim_expired, mark_ended, mark_won, find_highest_active, highest,
}
use multi_marketplace.Repository.Outbox
use multi_marketplace.Bidding.Bids.{submit_bid, bid_body, place_bid, recover_bid}
use multi_marketplace.Bidding.Bids.Book.{IsBook}
use multi_marketplace.Bidding.Bids.Race.{submit_bid_raises, submit_bid_stale}
use multi_marketplace.Bidding.Bids.Calls.{place_bid-IsBook, place_bid_failed, place_bid_again}
use multi_marketplace.Bidding.Lots.{end_auction, settle_auction}
use multi_marketplace.Bidding.Lots.Ending.{EndsWell, end_auction_twice, end_auction_winner}
use multi_marketplace.Tests.Worlds.{auction_house, lamp, bid_of_ann}

lamp-IsBook : IsBook "lamp" auction_house
unfolding Base.str_eq find_by_id
lamp-IsBook = record {
  single = omega arith;
  priced = λ a found. ground arith;
  one_active = omega arith;
}

place_bid-IsBook_example : IsBook "lamp" (place_bid "ben" "lamp" 60 "ben-1" 150 auction_house).1
place_bid-IsBook_example =
    place_bid-IsBook "lamp" "ben" "lamp" 60 "ben-1" 150 auction_house lamp-IsBook

abbrev bid_of_ben : Bid
bid_of_ben = record bid_of_ann {
  id = "id-0";
  bidder_id = "ben";
  amount = 60;
  idempotency_key = some "ben-1";
}

abbrev raised : World
raised = (place_bid "ben" "lamp" 60 "ben-1" 150 auction_house).1

accepted : place_bid "ben" "lamp" 60 "ben-1" 150 auction_house ≡ (ok bid_of_ben, raised)
unfolding place_bid bid_body submit_bid recover_bid find_by_id find_bid_by_idempotency_key
    claim_auction_version mark_active_outbid create_bid Outbox.create Base.is_blank Base.str_eq
accepted = refl

place_bid_again_example : place_bid "ben" "lamp" 90 "ben-1" 500 raised ≡ (ok bid_of_ben, raised)
place_bid_again_example = place_bid_again "ben" "lamp" 60 90 "ben-1" 150 500 auction_house accepted

abbrev turned_away : World
turned_away = record auction_house { signals = Signal.metric "bid_rejected" ∷ [] }

too_low :
    place_bid "ben" "lamp" 54 "ben-1" 150 auction_house
    ≡ (err (bad_request (Reason.bid_below 55)), turned_away)
unfolding place_bid bid_body submit_bid recover_bid find_by_id find_bid_by_idempotency_key
    Base.is_blank Base.str_eq
too_low = refl

place_bid_failed_example :
    (turned_away ≡ auction_house)
    ⊎ (turned_away ≡ record auction_house {
      signals = auction_house.signals ++ Signal.metric "bid_rejected" ∷ [];
    })
place_bid_failed_example = place_bid_failed "ben" "lamp" 54 "ben-1" 150 auction_house too_low

one_lamp : Base.count_where (λ a. Base.str_eq a.id "lamp") auction_house.auctions ≤ 1
unfolding Base.str_eq
one_lamp = omega arith

lamp_there : find_by_id "lamp" auction_house ≡ some lamp
unfolding find_by_id Base.str_eq
lamp_there = refl

abbrev submitted : World
submitted = (submit_bid "ben" "lamp" 60 "ben-1" lamp auction_house).1

submitted_ok : submit_bid "ben" "lamp" 60 "ben-1" lamp auction_house ≡ (ok bid_of_ben, submitted)
unfolding submit_bid claim_auction_version mark_active_outbid create_bid Outbox.create Base.str_eq
submitted_ok = refl

submit_bid_raises_example :
    (lamp.status ≡ AuctionStatus.active)
    × (lamp.version ≡ lamp.version)
    × (lamp.current_price + lamp.min_bid_increment ≤ 60)
    × (find_by_id "lamp" submitted
        ≡ some (record lamp { current_price = 60; version = lamp.version + 1 }))
submit_bid_raises_example =
    submit_bid_raises "ben" "lamp" 60 "ben-1" lamp auction_house one_lamp lamp_there submitted_ok

submit_bid_stale_example :
    (submit_bid "cat" "lamp" 70 "cat-1" lamp submitted).0 ≡ err (conflict Reason.auction_changed)
submit_bid_stale_example =
    submit_bid_stale "ben" "cat" "lamp" 60 70 "ben-1" "cat-1" lamp lamp lamp auction_house one_lamp
      lamp_there refl (omega arith) submitted_ok

abbrev closed : World
closed = (end_auction "lamp" 200 201 202 auction_house).1

abbrev sold_lamp : Auction
sold_lamp = record lamp {
  status = AuctionStatus.sold;
  version = 2;
  winner_id = some "ann";
  checkout_expires_at = some 900202;
}

ended : end_auction "lamp" 200 201 202 auction_house ≡ (ok (some sold_lamp), closed)
unfolding end_auction settle_auction find_by_id claim_expired mark_ended mark_won
    find_highest_active highest Outbox.create Base.str_eq
ended = refl

end_auction_winner_example : EndsWell "lamp" lamp 202 auction_house closed
end_auction_winner_example =
    end_auction_winner "lamp" 200 201 202 auction_house lamp-IsBook lamp_there refl (omega arith)
      ended

end_auction_twice_example :
    (b : Auction) × (find_by_id "lamp" closed ≡ some b)
    × ((b.status ≡ AuctionStatus.sold) ⊎ (b.status ≡ AuctionStatus.expired))
    × (end_auction "lamp" 300 301 302 closed ≡ (ok (some b), closed))
end_auction_twice_example =
    end_auction_twice "lamp" 200 201 202 300 301 302 auction_house lamp-IsBook lamp_there refl
      (omega arith) (omega arith) ended
