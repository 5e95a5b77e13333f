-- ===== src/Bidding/Bids/Race.antt =====
-- Bids that race: each was checked against a row that its transaction read, and by the time it is
-- submitted other bids may have been committed.
use multi_marketplace.Base.{
  ℕ, ◌+◌, ◌≤◌, ◌≡◌, ◌≢◌, refl, String, arith, count_where, count_where_zero, find_first, some,
  str_eq, subst, List, [], ◌∷◌,
}
use multi_marketplace.Store.{World, Auction, Bid, AuctionStatus, ok, err, conflict, Reason}
use multi_marketplace.Repository.Auctions.{find_by_id, is_version, is_locked, claim_auction_version}
use multi_marketplace.Repository.Auctions.Reading.{find_by_id-test}
use multi_marketplace.Bidding.Bids.{submit_bid, minimum_bid}
use multi_marketplace.Bidding.Bids.Effect.{Submitted, submit_bid-Submitted}
use multi_marketplace.Bidding.Bids.Book.{claimed_row, find_by_id-claim, after, keep_ids}

-- Where at most one row has the auction's identifier, and it is `row`: a bid that was checked against
-- the row `s` and accepted found `row` active, in the version of `s`, with a price at least the
-- increment of `s` below the amount. It set the price to the amount, raised the version by one, and
-- left the rest of the row alone.
pub submit_bid_raises :
    (bidder y : String) (amount : ℕ) (key : String) (s : Auction) {row : Auction} {bid : Bid}
    (w : World) {w' : World}
    → count_where (λ a. str_eq a.id y) w.auctions ≤ 1
    → find_by_id y w ≡ some row
    → submit_bid bidder y amount key s w ≡ (ok bid, w')
    → (row.status ≡ AuctionStatus.active)
      × (row.version ≡ s.version)
      × (row.current_price + s.min_bid_increment ≤ amount)
      × (find_by_id y w' ≡ some (record row { current_price = amount; version = row.version + 1 }))
submit_bid_raises bidder y amount key s {row} {bid} w {w'} one there e =
    finish
      (subst (Submitted bidder y amount key s w) e (submit_bid-Submitted bidder y amount key s w))
  where
    finish :
        Submitted bidder y amount key s w (ok bid, w')
        → (row.status ≡ AuctionStatus.active)
          × (row.version ≡ s.version)
          × (row.current_price + s.min_bid_increment ≤ amount)
          × (find_by_id y w'
              ≡ some (record row { current_price = amount; version = row.version + 1 }))
    finish (least, claim, _, e') =
        let (active, version, price) = claimed_row y s.version s.current_price w one claim there in
        (
          active,
          version,
          ground arith,
          rw e' (
              ground (
                arith,
                find_by_id-claim y y s.version s.current_price amount w
                    (after bidder y amount key s w) refl,
                find_by_id-test y w there,
              )),
        )

-- A lock on another version than the row's claims nothing.
unlocked_rows :
    (y : String) (version price : ℕ) (xs : List Auction) {row : Auction}
    → count_where (λ a. str_eq a.id y) xs ≤ 1
    → find_first (λ a. str_eq a.id y) xs ≡ some row
    → row.version ≢ version
    → count_where (is_version y version price) xs ≡ 0
unlocked_rows y version price [] one there ne = refl
unlocked_rows y version price (x ∷ xs) {row} one there ne = ground (
  arith,
  count_where_zero (λ a. str_eq a.id y) (is_locked version price) xs,
  unlocked_rows y version price xs {row = row},
)

unlocked :
    (y : String) (version price : ℕ) (w : World) {row : Auction}
    → count_where (λ a. str_eq a.id y) w.auctions ≤ 1
    → find_by_id y w ≡ some row
    → row.version ≢ version
    → count_where (is_version y version price) w.auctions ≡ 0
unfolding find_by_id
unlocked y version price w one there ne = unlocked_rows y version price w.auctions one there ne

-- A submission that claims no row is told to retry.
claim_none :
    (bidder y : String) (amount : ℕ) (key : String) (s : Auction) (w : World)
    → minimum_bid s ≤ amount
    → count_where (is_version y s.version s.current_price) w.auctions ≡ 0
    → (submit_bid bidder y amount key s w).0 ≡ err (conflict Reason.auction_changed)
unfolding submit_bid claim_auction_version
claim_none bidder y amount key s w least none_locked = ground arith

submit_bid_single :
    (bidder y : String) (amount : ℕ) (key : String) (s : Auction) (w : World) {bid : Bid}
    {w' : World}
    → count_where (λ a. str_eq a.id y) w.auctions ≤ 1
    → submit_bid bidder y amount key s w ≡ (ok bid, w')
    → count_where (λ a. str_eq a.id y) w'.auctions ≤ 1
submit_bid_single bidder y amount key s w {bid} {w'} one e =
    kept
      (subst (Submitted bidder y amount key s w) e (submit_bid-Submitted bidder y amount key s w))
  where
    kept :
        Submitted bidder y amount key s w (ok bid, w')
        → count_where (λ a. str_eq a.id y) w'.auctions ≤ 1
    kept (_, _, _, e') = rw (e', keep_ids bidder y amount key s w y) one

-- Where one row has the auction's identifier: of two bids that read the same version of it, each with
-- an amount high enough for what it read, the later one is told to retry once the first is accepted.
pub submit_bid_stale :
    (bidder bidder' y : String) (amount amount' : ℕ) (key key' : String) (s s' row : Auction)
    {bid : Bid} (w : World) {w' : World}
    → count_where (λ a. str_eq a.id y) w.auctions ≤ 1
    → find_by_id y w ≡ some row
    → s'.version ≡ s.version
    → minimum_bid s' ≤ amount'
    → submit_bid bidder y amount key s w ≡ (ok bid, w')
    → (submit_bid bidder' y amount' key' s' w').0 ≡ err (conflict Reason.auction_changed)
submit_bid_stale bidder bidder' y amount amount' key key' s s' row w {w'} one there same least e =
    let (_, version, _, later) = submit_bid_raises bidder y amount key s w one there e in
    claim_none bidder' y amount' key' s' w' least (
      unlocked y s'.version s'.current_price w' (submit_bid_single bidder y amount key s w one e)
        later (omega arith))
