-- ===== src/Bidding/Bids/Calls.antt =====
-- Whole calls of `placeBid`: replays, failures, and the book.
use multi_marketplace.Base.{
  ℕ, ◌≡◌, refl, String, none, some, arith, subst, is_blank, str_eq, str_eq_refl,
  find_first-append_new, find_first-update_where, update_where, Option-cases, Bool-cases, ◌⊎◌, inl,
  inr, ◌++◌, ◌∷◌, [], true, false,
}
use multi_marketplace.Store.{
  World, Auction, Bid, Result, Error, Signal, ok, err, settle, or_raise, ◌===◌, string_eq,
  option_eq,
}
use multi_marketplace.Repository.Auctions.{
  is_active_bid, set_outbid, find_by_id, find_bid_by_idempotency_key,
}
use multi_marketplace.Bidding.Bids.{submit_bid, bid_body, place_bid, recover_bid, is_accepting}
use multi_marketplace.Bidding.Bids.Effect.{placed, placed_bid, submit_bid-Submitted}
use multi_marketplace.Bidding.Bids.Book.{IsBook, submit_bid-IsBook}

-- The book is a statement about two tables.
pub IsBook-tables :
    (x : String) (w w' : World)
    → w'.auctions ≡ w.auctions
    → w'.bids ≡ w.bids
    → IsBook x w
    → IsBook x w'
unfolding find_by_id
IsBook-tables x w w' ea eb h = record {
  single = rw ea h.single;
  priced = λ a found. rw eb (h.priced a (rw ea at found));
  one_active = rw eb h.one_active;
}

bid_body-IsBook :
    (x bidder y : String) (amount : ℕ) (key : String) (now : ℕ) (w : World)
    → IsBook x w
    → IsBook x (settle w (bid_body bidder y amount key now w)).1
unfolding bid_body
bid_body-IsBook x bidder y amount key now w h = elim (Option-cases (find_by_id y w)) [
  | inl gone ↦ rw (gone, or_raise) h
  | inr (a, there) ↦
      rw (there, or_raise)
        (elim (Bool-cases (is_accepting now a)) [
          | inl open' ↦ rw open' (submit_bid-IsBook x bidder y amount key a w h)
          | inr closed ↦ rw closed h
        ])
]

place_bid_tables :
    (bidder y : String) (amount : ℕ) (key : String) (now : ℕ) (w : World)
    → let w' = (place_bid bidder y amount key now w).1 in
      let v = (settle w (bid_body bidder y amount key now w)).1 in
      ((w'.auctions ≡ w.auctions) × (w'.bids ≡ w.bids))
      ⊎ ((w'.auctions ≡ v.auctions) × (w'.bids ≡ v.bids))
unfolding place_bid recover_bid
place_bid_tables bidder y amount key now w = ground arith

-- If the book of auction `x` is consistent (`IsBook`: one row, no bid above its price, the bid that
-- stands at its price, at most one bid that stands), it is consistent after a call of `placeBid` for
-- any auction, whether the call accepts the bid, finds an earlier one under the same key, or raises.
pub place_bid-IsBook :
    (x bidder y : String) (amount : ℕ) (key : String) (now : ℕ) (w : World)
    → IsBook x w
    → IsBook x (place_bid bidder y amount key now w).1
place_bid-IsBook x bidder y amount key now w h = elim (place_bid_tables bidder y amount key now w) [
  | inl (ea, eb) ↦ IsBook-tables x w (place_bid bidder y amount key now w).1 ea eb h
  | inr (ea, eb) ↦
      IsBook-tables x (settle w (bid_body bidder y amount key now w)).1
        (place_bid bidder y amount key now w).1 ea eb
        (bid_body-IsBook x bidder y amount key now w h)
]

-- A call of `placeBid` that raises changes no table: at most the counter of rejected bids moves.
pub place_bid_failed :
    (bidder y : String) (amount : ℕ) (key : String) (now : ℕ) (w : World) {e : Error} {w' : World}
    → place_bid bidder y amount key now w ≡ (err e, w')
    → (w' ≡ w) ⊎ (w' ≡ record w { signals = w.signals ++ Signal.metric "bid_rejected" ∷ [] })
unfolding place_bid recover_bid
place_bid_failed bidder y amount key now w e = ground arith

-- A new bid is found by its key, among bids none of which had it.
find_placed :
    (bidder y : String) (amount : ℕ) (key : String) (s : Auction) (w : World)
    → find_bid_by_idempotency_key key w ≡ none
    → find_bid_by_idempotency_key key (placed bidder y amount key s w)
      ≡ some (placed_bid bidder y amount key s w)
unfolding find_bid_by_idempotency_key
find_placed bidder y amount key s w absent =
    find_first-append_new (λ b. b.idempotency_key === some key)
      (update_where (is_active_bid y) set_outbid w.bids) (placed_bid bidder y amount key s w)
      (rw (
        find_first-update_where (λ b. b.idempotency_key === some key) (is_active_bid y) set_outbid
            w.bids (λ b. refl),
        absent,
      ))
      (str_eq_refl key)

abbrev FoundBid : String → String → String → Result Bid × World → Type 0
FoundBid bidder y key (ok bid, w) =
    (find_bid_by_idempotency_key key w ≡ some bid)
    × (str_eq bid.bidder_id bidder ≡ true)
    × (str_eq bid.auction_id y ≡ true)
FoundBid bidder y key (err e, w) = Unit

submit_bid-FoundBid :
    (bidder y : String) (amount : ℕ) (key : String) (s : Auction) (w : World)
    → find_bid_by_idempotency_key key w ≡ none
    → FoundBid bidder y key (submit_bid bidder y amount key s w)
submit_bid-FoundBid bidder y amount key s w absent = ground (
  arith,
  submit_bid-Submitted bidder y amount key s w,
  find_placed bidder y amount key s w,
  str_eq_refl bidder,
  str_eq_refl y,
)

bid_body-FoundBid :
    (bidder y : String) (amount : ℕ) (key : String) (now : ℕ) (w : World)
    → find_bid_by_idempotency_key key w ≡ none
    → FoundBid bidder y key (bid_body bidder y amount key now w)
unfolding bid_body
bid_body-FoundBid bidder y amount key now w absent = elim (Option-cases (find_by_id y w)) [
  | inl gone ↦ rw (gone, or_raise) tt
  | inr (a, there) ↦
      rw (there, or_raise) (ground (arith, submit_bid-FoundBid bidder y amount key a w absent))
]

place_bid-FoundBid :
    (bidder y : String) (amount : ℕ) (key : String) (now : ℕ) (w : World)
    → FoundBid bidder y key (place_bid bidder y amount key now w)
unfolding place_bid recover_bid find_bid_by_idempotency_key
place_bid-FoundBid bidder y amount key now w =
    ground (arith, bid_body-FoundBid bidder y amount key now w)

place_bid_blank :
    (bidder y : String) (amount : ℕ) (key : String) (now : ℕ) (w : World) {bid : Bid} {w' : World}
    → place_bid bidder y amount key now w ≡ (ok bid, w')
    → is_blank key ≡ false
unfolding place_bid
place_bid_blank bidder y amount key now w e = ground arith

place_bid_repeat :
    (bidder y : String) (amount : ℕ) (key : String) (now : ℕ) (w : World) {bid : Bid}
    → is_blank key ≡ false
    → FoundBid bidder y key (ok bid, w)
    → place_bid bidder y amount key now w ≡ (ok bid, w)
unfolding place_bid
place_bid_repeat bidder y amount key now w b f = ground arith

-- If `placeBid` returned a bid, a repetition with the same bidder, auction and key returns that same
-- bid, whatever the amount and the time of the repeated call, and changes nothing.
pub place_bid_again :
    (bidder y : String) (amount amount' : ℕ) (key : String) (now now' : ℕ) (w : World) {bid : Bid}
    {w' : World}
    → place_bid bidder y amount key now w ≡ (ok bid, w')
    → place_bid bidder y amount' key now' w' ≡ (ok bid, w')
place_bid_again bidder y amount amount' key now now' w {w'} e =
    place_bid_repeat bidder y amount' key now' w' (place_bid_blank bidder y amount key now w e)
      (subst (FoundBid bidder y key) e (place_bid-FoundBid bidder y amount key now w))
