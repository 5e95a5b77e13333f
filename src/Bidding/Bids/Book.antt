-- ===== src/Bidding/Bids/Book.antt =====
-- The bids of one auction and its price, under `placeBid`.
use multi_marketplace.Base.{
  ℕ, ◌≤◌, ◌<◌, ◌≡◌, refl, sym, ◌∙◌, subst, String, [], ◌∷◌, arith, update_where, count_where, none,
  some, true, false, Bool-cases, Option-cases, inl, inr, str_eq, eq_of_str_eq, str_eq_refl, All,
  All-append, All-update_where, find_first_single, count_where-update_where,
  count_where-update_where_zero, count_where-update_where_le, count_where-append, if◌then◌else◌,
}
use multi_marketplace.Store.{
  World, Auction, Bid, BidStatus, AuctionStatus, Result, ok, err, settle, string_eq,
  auction_status_eq,
}
use multi_marketplace.Repository.Auctions.{
  is_locked, is_version, raise_price, is_active_bid, set_outbid, find_by_id,
}
use multi_marketplace.Repository.Auctions.Reading.{find_by_id-test, find_by_id-update}
use multi_marketplace.Bidding.Bids.{submit_bid, minimum_bid}
use multi_marketplace.Bidding.Bids.Effect.{placed, placed_bid, Submitted, submit_bid-Submitted}

-- A bid of auction `x` does not exceed the price, and the bid that stands is the price.
abbrev pub FitsPrice : String → ℕ → Bid → Type 0
FitsPrice x price b =
    str_eq b.auction_id x ≡ true
    → (b.amount ≤ price) × (b.status ≡ BidStatus.active → b.amount ≡ price)

pub record IsBook (x : String) (w : World) : Type 0 where
  pub single : count_where (λ a. str_eq a.id x) w.auctions ≤ 1
  pub priced : (a : Auction) → find_by_id x w ≡ some a → All (FitsPrice x a.current_price) w.bids
  pub one_active : count_where (is_active_bid x) w.bids ≤ 1

-- The row that a claim changed is the row of that identifier, as the claim describes it.
pub claimed_row :
    (x : String) (version price : ℕ) (w : World) {a : Auction}
    → count_where (λ b. str_eq b.id x) w.auctions ≤ 1
    → 0 < count_where (is_version x version price) w.auctions
    → find_by_id x w ≡ some a
    → (a.status ≡ AuctionStatus.active) × (a.version ≡ version) × (a.current_price ≡ price)
unfolding find_by_id
claimed_row x version price w {a} one claim found =
    let locked =
      find_first_single (λ b. str_eq b.id x) (is_locked version price) w.auctions {a = a} one claim
        found in
    ground (arith, locked)

FitsPrice-raise :
    (x : String) (old new : ℕ) (b : Bid)
    → old ≤ new
    → FitsPrice x old b
    → FitsPrice x new (if is_active_bid x b then set_outbid b else b)
FitsPrice-raise x old new b h f s = ground (arith, f)

FitsPrice-other :
    (x y : String) (price : ℕ) (b : Bid)
    → FitsPrice x price b
    → FitsPrice x price (if is_active_bid y b then set_outbid b else b)
FitsPrice-other x y price b f s = ground (arith, f)

outbid_inactive :
    (y : String) (b : Bid) → is_active_bid y (if is_active_bid y b then set_outbid b else b) ≡ false
outbid_inactive y b = ground arith

outbid_no_more :
    (x : String) (b : Bid) → is_active_bid x (set_outbid b) ≡ true → is_active_bid x b ≡ true
outbid_no_more x b h = ground arith

-- The claim leaves every identifier as it is, so a search by identifier finds the claimed row.
pub find_by_id-claim :
    (x y : String) (version price amount : ℕ) (w w' : World)
    → w'.auctions ≡ update_where (is_version y version price) (raise_price amount) w.auctions
    → find_by_id x w' ≡ elim (find_by_id x w) [
      | none ↦ none
      | some a ↦ some (if is_version y version price a then raise_price amount a else a)
    ]
find_by_id-claim x y version price amount w w' e =
    find_by_id-update x (is_version y version price) (raise_price amount) w w' (λ a. refl) e

module _ (bidder y : String) (amount : ℕ) (key : String) (s : Auction) (w : World) where
  abbrev pub after : World
  after = placed bidder y amount key s w

  pub keep_ids :
      (x : String)
      → count_where (λ a. str_eq a.id x) after.auctions
        ≡ count_where (λ a. str_eq a.id x) w.auctions
  keep_ids x =
      count_where-update_where (λ a. str_eq a.id x) (is_version y s.version s.current_price)
        (raise_price amount) w.auctions (λ a. refl)

  -- The auction row after an accepted bid, read by its identifier.
  pub raised_row :
      count_where (λ a. str_eq a.id y) w.auctions ≤ 1
      → 0 < count_where (is_version y s.version s.current_price) w.auctions
      → (a : Auction) → find_by_id y after ≡ some a
      → (b : Auction) × (find_by_id y w ≡ some b)
        × (a ≡ raise_price amount b)
        × (b.status ≡ AuctionStatus.active)
        × (b.version ≡ s.version)
        × (b.current_price ≡ s.current_price)
  raised_row one claim a found = elim (Option-cases (find_by_id y w)) [
    | inl gone ↦
        absurd (ground (arith, find_by_id-claim y y s.version s.current_price amount w after refl))
    | inr (b, there) ↦
        let (active, same_version, same_price) =
          claimed_row y s.version s.current_price w one claim there in
        (
          b,
          there,
          ground (
            arith,
            find_by_id-claim y y s.version s.current_price amount w after refl,
            find_by_id-test y w there,
          ),
          active,
          same_version,
          same_price,
        )
  ]

  -- The row of another auction is untouched.
  pub other_row : (x : String) → str_eq x y ≡ false → find_by_id x after ≡ find_by_id x w
  other_row x ne = elim (Option-cases (find_by_id x w)) [
    | inl gone ↦ ground (arith, find_by_id-claim x y s.version s.current_price amount w after refl)
    | inr (b, there) ↦ ground (
      arith,
      find_by_id-claim x y s.version s.current_price amount w after refl,
      eq_of_str_eq b.id x (find_by_id-test x w there),
    )
  ]

  -- What the lock gives: the row still has the price that the bid was checked against.
  module _ (least : minimum_bid s ≤ amount)
      (claim : 0 < count_where (is_version y s.version s.current_price) w.auctions) where
    placed-IsBook_self : IsBook y w → IsBook y after
    placed-IsBook_self h = record {
      single = rw (keep_ids y) h.single;
      priced = λ a found.
          let (b, there, raised, _, _, same_price) = raised_row h.single claim a found in
          All-append (FitsPrice y a.current_price) _ _
            (All-update_where (FitsPrice y a.current_price) (is_active_bid y) set_outbid w.bids
              (λ c. FitsPrice-raise y b.current_price a.current_price c (ground arith))
              (h.priced b there))
            ((λ _. (ground arith, λ _. ground arith)), tt);
      one_active = ground (
        arith,
        count_where-append (is_active_bid y) (update_where (is_active_bid y) set_outbid w.bids)
            (placed_bid bidder y amount key s w ∷ []),
        count_where-update_where_zero (is_active_bid y) (is_active_bid y) set_outbid w.bids
            (outbid_inactive y),
      );
    }

    placed-IsBook_other : (x : String) → str_eq x y ≡ false → IsBook x w → IsBook x after
    placed-IsBook_other x ne h = record {
      single = rw (keep_ids x) h.single;
      priced = λ a found.
          All-append (FitsPrice x a.current_price) _ _
            (All-update_where (FitsPrice x a.current_price) (is_active_bid y) set_outbid w.bids
              (λ c. FitsPrice-other x y a.current_price c)
              (h.priced a (sym (other_row x ne) ∙ found)))
            ((λ e. absurd (ground (arith, eq_of_str_eq y x e, str_eq_refl x))), tt);
      one_active = ground (
        arith,
        eq_of_str_eq y x,
        str_eq_refl x,
        count_where-append (is_active_bid x) (update_where (is_active_bid y) set_outbid w.bids)
            (placed_bid bidder y amount key s w ∷ []),
        count_where-update_where_le (is_active_bid x) (is_active_bid y) set_outbid w.bids
            (outbid_no_more x),
      );
    }

-- A bid, against whatever row its transaction read, keeps the book of every auction; a bid that
-- fails is rolled back.
pub submit_bid-IsBook :
    (x bidder y : String) (amount : ℕ) (key : String) (s : Auction) (w : World)
    → IsBook x w
    → IsBook x (settle w (submit_bid bidder y amount key s w)).1
submit_bid-IsBook x bidder y amount key s w h =
    keep (submit_bid bidder y amount key s w) (submit_bid-Submitted bidder y amount key s w)
  where
    keep : (r : Result Bid × World) → Submitted bidder y amount key s w r → IsBook x (settle w r).1
    keep (err e, w') _ = h
    keep (ok bid, w') (least, claim, _, e) = rw e (elim (Bool-cases (str_eq x y)) [
      | inl same ↦
          subst (λ v. IsBook v w → IsBook v (placed bidder y amount key s w))
            (sym (eq_of_str_eq x y same)) (placed-IsBook_self bidder y amount key s w least claim) h
      | inr ne ↦ placed-IsBook_other bidder y amount key s w least claim x ne h
    ])
