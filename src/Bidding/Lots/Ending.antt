-- ===== src/Bidding/Lots/Ending.antt =====
-- How an auction ends: `endAuction` before and after the deadline, and who wins.
use multi_marketplace.Base.{
  ℕ, List, ◌≢◌, false, ◌≤◌, ◌≡◌, refl, String, Option, none, some, true, arith, str_eq, All,
  All-map, count_where, count_where-pos, find_first-test, ◌⊎◌, sym, ◌∙◌, update_where, inl, inr,
}
use multi_marketplace.Store.{
  World, Auction, Bid, AuctionStatus, Result, BidStatus, ◌===◌, string_eq, auction_status_eq, ok,
  err, settle,
}
use multi_marketplace.Repository.Auctions.{
  find_by_id, find_highest_active, is_active_bid, claim_expired, mark_ended, mark_won, finish,
  expire, is_overdue,
}
use multi_marketplace.Repository.Auctions.Reading.{
  find_by_id-test, find_by_id-update, find_highest_active_lem, find_highest_active-none,
}
use multi_marketplace.Repository.Outbox
use multi_marketplace.Bidding.Bids.Book.{IsBook, FitsPrice}
use multi_marketplace.Bidding.Lots.{
  end_auction, settle_auction, end_found, is_open_at, winner_of, status_of,
}

abbrev pub win : Bid → Bid
win b = record b { status = BidStatus.won }

-- The bids once the winning one is marked.
abbrev pub won_bids : Option Bid → World → List Bid
won_bids none w = w.bids
won_bids (some b) w = update_where (λ c. c.id === b.id) win w.bids

-- The tables after the settlement, by what `findHighestActive` found.
abbrev Settled : String → ℕ → World → Result (Option Auction) × World → Type 0
Settled x now w (err e, w') = Unit
Settled x now w (ok result, w') =
    let winner = find_highest_active x w in
    (w'.auctions
      ≡ update_where (λ a. a.id === x) (finish (winner_of winner) (status_of winner) now)
          w.auctions)
    × (w'.bids ≡ won_bids winner w)
    × (result ≡ find_by_id x w')

settle_auction-Settled :
    (x : String) (now : ℕ) (w : World) → Settled x now w (settle_auction x now w)
unfolding settle_auction mark_ended mark_won Outbox.create find_by_id
settle_auction-Settled x now w = ground arith

-- A call after the deadline expires the row, and settles the auction from there.
abbrev claimed : String → ℕ → World → World
claimed x now w = record w { auctions = update_where (is_overdue x now) expire w.auctions }

end_auction-settles :
    (x : String) (now now' now'' : ℕ) (w : World) {a : Auction}
    → count_where (is_overdue x now') w.auctions ≢ 0
    → find_by_id x w ≡ some a
    → is_open_at now a ≡ false
    → end_auction x now now' now'' w ≡ settle w (settle_auction x now'' (claimed x now' w))
unfolding end_auction claim_expired
end_auction-settles x now now' now'' w some_claimed there over =
    rw (there, end_found) (ground arith)

overdue_counted :
    (x : String) (now : ℕ) (w : World) {a : Auction}
    → find_by_id x w ≡ some a
    → a.status ≡ AuctionStatus.active
    → a.ends_at ≤ now
    → count_where (is_overdue x now) w.auctions ≢ 0
unfolding find_by_id
overdue_counted x now w {a} there active over none_counted = omega (
  arith,
  count_where-pos (λ b. str_eq b.id x) (is_overdue x now) w.auctions {a = a} there
      (ground (arith, find_first-test (λ b. str_eq b.id x) w.auctions {a = a})),
  none_counted,
)

-- A bid of auction `x` that no other bid of that auction exceeds.
abbrev pub IsTop : String → World → Bid → Type 0
IsTop x w b =
    (is_active_bid x b ≡ true)
    × All (λ c. str_eq c.auction_id x ≡ true → c.amount ≤ b.amount) w.bids

-- How auction `x`, whose row was `a`, has ended: with no bid that stands, or sold to a bidder.
abbrev pub EndsWell : String → Auction → ℕ → World → World → Type 0
EndsWell x a now w w' =
    ((count_where (is_active_bid x) w.bids ≡ 0)
      × (find_by_id x w' ≡ some (finish none AuctionStatus.expired now a))
      × (w'.bids ≡ w.bids))
    ⊎ ((b : Bid) × IsTop x w b
        × (b.amount ≡ a.current_price)
        × (find_by_id x w' ≡ some (finish (some b.bidder_id) AuctionStatus.sold now a))
        × (w'.bids ≡ update_where (λ c. c.id === b.id) win w.bids))

row_after :
    (x : String) (now' now : ℕ) (w w' : World) (winner : Option Bid) {a : Auction}
    → find_by_id x w ≡ some a
    → w'.auctions
      ≡ update_where
          (λ b. b.id === x)
          (finish (winner_of winner) (status_of winner) now)
          (claimed x now' w).auctions
    → find_by_id x w' ≡ some (finish (winner_of winner) (status_of winner) now a)
row_after x now' now w w' winner {a} there e = ground (
  arith,
  find_by_id-test x w there,
  find_by_id-update x (is_overdue x now') expire w (claimed x now' w) (λ b. refl) refl,
  find_by_id-update x (λ b. b.id === x) (finish (winner_of winner) (status_of winner) now)
      (claimed x now' w) w' (λ b. refl) e,
)

FitsPrice-top :
    (x : String) (price : ℕ) (b : Bid) (bs : List Bid)
    → b.amount ≡ price
    → All (FitsPrice x price) bs
    → All (λ c. str_eq c.auction_id x ≡ true → c.amount ≤ b.amount) bs
FitsPrice-top x price b bs e h =
    All-map (λ c. str_eq c.auction_id x ≡ true → c.amount ≤ b.amount) bs (λ c f t. rw e (f t).0) h

module _ (x : String) (now' now : ℕ) {a : Auction} (w w' : World) (book : IsBook x w)
    (there : find_by_id x w ≡ some a) where
  settled-EndsWell :
      (winner : Option Bid)
      → find_highest_active x w ≡ winner
      → w'.auctions
        ≡ update_where
            (λ b. b.id === x)
            (finish (winner_of winner) (status_of winner) now)
            (claimed x now' w).auctions
      → w'.bids ≡ won_bids winner w
      → EndsWell x a now w w'
  settled-EndsWell none picked ea eb =
      inl (find_highest_active-none x w picked, row_after x now' now w w' none there ea, eb)
  settled-EndsWell (some b) picked ea eb =
      let prices = book.priced a there in
      let (fits, active) =
        find_highest_active_lem (FitsPrice x a.current_price) x w prices picked in
      let price : b.amount ≡ a.current_price = ground (arith, fits) in
      inr (
        b,
        (active, FitsPrice-top x a.current_price b w.bids price prices),
        price,
        row_after x now' now w w' (some b) there ea,
        eb,
      )

-- Where the book of an auction is consistent, its row is active and past its deadline by the first
-- read of the clock, the second read is not earlier, and `endAuction` returns a result: either it is
-- sold to the bidder of a standing bid that no bid of the auction exceeds, whose amount is the price
-- at which the auction stood, with a checkout window of fifteen minutes from the third read of the
-- clock, and that bid is marked as won; or no bid stands, and the auction has expired with no winner
-- and its bids as they were.
pub end_auction_winner :
    (x : String) (now now' now'' : ℕ) (w : World) {a : Auction} {result : Option Auction}
    {w' : World}
    → IsBook x w
    → find_by_id x w ≡ some a
    → is_open_at now a ≡ false
    → now ≤ now'
    → end_auction x now now' now'' w ≡ (ok result, w')
    → EndsWell x a now'' w w'
unfolding find_highest_active
end_auction_winner x now now' now'' w {a} {result} {w'} book there over later e =
    finish_with (settle_auction x now'' (claimed x now' w))
      (settle_auction-Settled x now'' (claimed x now' w))
      (sym (
          end_auction-settles x now now' now'' w
            (overdue_counted x now' w there (ground arith) (ground arith)) there over)
        ∙ e)
  where
    finish_with :
        (r : Result (Option Auction) × World)
        → Settled x now'' (claimed x now' w) r
        → settle w r ≡ (ok result, w')
        → EndsWell x a now'' w w'
    finish_with (err e', v) _ e'' = cc
    finish_with (ok r, v) (ea, eb, _) e'' =
        settled-EndsWell x now' now'' w w' book there (find_highest_active x w) refl (ground arith)
          (ground arith)

-- A row that is not active is returned as it is.
end_auction-over :
    (x : String) (now now' now'' : ℕ) (w : World) {a : Auction}
    → find_by_id x w ≡ some a
    → (a.status === AuctionStatus.active) ≡ false
    → end_auction x now now' now'' w ≡ (ok (some a), w)
unfolding end_auction
end_auction-over x now now' now'' w there over = ground (arith, there, over)

-- Where the book of an active auction is consistent, its deadline has passed by the first read of the
-- clock, the second read is not earlier, and `endAuction` returns: a second call, at whatever times,
-- returns the auction as the first call left it, sold or expired, and changes nothing.
pub end_auction_twice :
    (x : String) (now now' now'' t t' t'' : ℕ) (w : World) {a : Auction} {result : Option Auction}
    {w' : World}
    → IsBook x w
    → find_by_id x w ≡ some a
    → a.status ≡ AuctionStatus.active
    → a.ends_at ≤ now
    → now ≤ now'
    → end_auction x now now' now'' w ≡ (ok result, w')
    → (b : Auction) × (find_by_id x w' ≡ some b)
      × ((b.status ≡ AuctionStatus.sold) ⊎ (b.status ≡ AuctionStatus.expired))
      × (end_auction x t t' t'' w' ≡ (ok (some b), w'))
end_auction_twice x now now' now'' t t' t'' w {a} {result} {w'} book there active over later e =
    elim (end_auction_winner x now now' now'' w {a = a} {result = result} {w' = w'} book there
      (ground arith) later e) [
        | inl (_, row, _) ↦ (
          finish none AuctionStatus.expired now'' a,
          row,
          inr refl,
          end_auction-over x t t' t'' w' row refl,
        )
        | inr (b, _, _, row, _) ↦ (
          finish (some b.bidder_id) AuctionStatus.sold now'' a,
          row,
          inl refl,
          end_auction-over x t t' t'' w' row refl,
        )
      ]
