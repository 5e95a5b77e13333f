-- ===== src/Repository/Auctions/Reading.antt =====
-- Reading an auction by its identifier after an update, and the highest of some bids.
use multi_marketplace.Base.{
  ◌≡◌, ◌≢◌, refl, subst, String, Bool, true, false, List, [], ◌∷◌, Option, none, some, arith, leb,
  select, update_where, count_where, if◌then◌else◌, All, Bool-cases, inl, inr, str_eq,
  find_first-test, find_first-update_where,
}
use multi_marketplace.Store.{World, Auction, Bid}
use multi_marketplace.Repository.Auctions.{find_by_id, highest, find_highest_active, is_active_bid}

pub find_by_id-test :
    (x : String) (w : World) {a : Auction} → find_by_id x w ≡ some a → str_eq a.id x ≡ true
unfolding find_by_id
find_by_id-test x w e = find_first-test (λ a. str_eq a.id x) w.auctions e

-- An update keeps identifiers, so a search by identifier finds the same row, updated.
pub find_by_id-update :
    (x : String) (q : Auction → Bool) (f : Auction → Auction) (w w' : World)
    → ((a : Auction) → (f a).id ≡ a.id)
    → w'.auctions ≡ update_where q f w.auctions
    → find_by_id x w'
      ≡ elim (find_by_id x w) [ none ↦ none | some a ↦ some (if q a then f a else a) ]
unfolding find_by_id
find_by_id-update x q f w w' keep e =
    rw e (find_first-update_where (λ a. str_eq a.id x) q f w.auctions (λ a. rw (keep a)))

-- The row that `highest` picks from a selection is one of the rows, and it passes the test.
module _ {κ} (P : Bid → Type κ) (p : Bid → Bool) where
  abbrev Picked : Option Bid → Type κ
  Picked none = Unit
  Picked (some b) = P b × (p b ≡ true)

  pick-Picked :
      (c : Bid) (o : Option Bid)
      → P c
      → p c ≡ true
      → Picked o
      → Picked (elim o [ none ↦ some c | some d ↦ some (if leb d.amount c.amount then c else d) ])
  pick-Picked c none hc t h = (hc, t)
  pick-Picked c (some d) hc t h =
      elim (leb d.amount c.amount) as (λ z. Picked (some (if z then c else d))) [
        | true ↦ (hc, t)
        | false ↦ h
      ]

  pub highest-Picked : (bs : List Bid) → All P bs → Picked (highest (select p bs))
  unfolding highest
  highest-Picked [] h = tt
  highest-Picked (c ∷ bs) h = elim (Bool-cases (p c)) [
    | inl t ↦ rw t (pick-Picked c (highest (select p bs)) h.0 t (highest-Picked bs h.1))
    | inr f ↦ rw f (highest-Picked bs h.1)
  ]

pub find_highest_active_lem {κ} :
    (P : Bid → Type κ) (x : String) (w : World) {b : Bid}
    → All P w.bids
    → find_highest_active x w ≡ some b
    → P b × (is_active_bid x b ≡ true)
unfolding find_highest_active
find_highest_active_lem P x w h e =
    subst (Picked P (is_active_bid x)) e (highest-Picked P (is_active_bid x) w.bids h)

highest_some : (c : Bid) (bs : List Bid) → highest (c ∷ bs) ≢ none
unfolding highest
highest_some c bs e = ground arith

-- No bid is picked only where none stands.
pub find_highest_active-none :
    (x : String) (w : World)
    → find_highest_active x w ≡ none
    → count_where (is_active_bid x) w.bids ≡ 0
unfolding find_highest_active
find_highest_active-none x w e = none_selected w.bids e
  where
    none_selected :
        (bs : List Bid)
        → highest (select (is_active_bid x) bs) ≡ none
        → count_where (is_active_bid x) bs ≡ 0
    none_selected [] e' = refl
    none_selected (c ∷ bs) e' =
        ground (arith, highest_some c (select (is_active_bid x) bs), none_selected bs)
