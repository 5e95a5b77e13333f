-- ===== src/Orders/Cancellation/Refunds.antt =====
-- The refunds that cancellations record, against the quantity bought.
use multi_marketplace.Base.{
  ℕ, ℤ, ◌+◌, ◌≤◌, ◌≡◌, ◌⊎◌, refl, ap, ◌∙◌, String, Bool, List, [], ◌∷◌, ◌++◌, Option, none, some,
  arith, find_first, count_where, select, All, inl, inr, eq_of_str_eq, str_eq_refl, if◌then◌else◌,
  ◌==◌, sum_by, Bool-cases, count_where-pos, All-map, find_first-test,
}
use multi_marketplace.Store.{World, OrderItem, Payment, skip, ◌===◌, string_eq, ◌>>◌}
use multi_marketplace.Store.Frame.{Preserves, Preserves->>=, then_preserve}
use multi_marketplace.Store.Rules.{Preserved, Preserved-apply, preserved}
use multi_marketplace.Repository.Products
use multi_marketplace.Repository.Orders.{find_item, sum_refunded_quantity, is_live_refund}
use multi_marketplace.Repository.Orders.Creation.{
  RefundData, create_refund, create_ledger_entry, refund_row,
}
use multi_marketplace.Orders.Books.{books, ReadsBooks, reads_books, keeps_books}
use multi_marketplace.Orders.Refund.Quantity.{Within, sum-append_refund}
use multi_marketplace.Orders.Cancellation.{
  Plan, Totals, cancel_refund_data, returned, refund_if_paid, return_quantity, return_item,
  return_items, refundable,
}

-- Item identifiers are unique.
abbrev pub IsItemKey : List OrderItem → Type 0
IsItemKey items = (y : String) → count_where (λ i. i.id === y) items ≤ 1

-- The items are `items`, and of `x` no more has been refunded than was bought.
abbrev pub Safe : List OrderItem → String → World → Type 0
Safe items x w = (w.order_items ≡ items) × Within x w

pub Safe-books :
    (items : List OrderItem) (x : String) (w w' : World)
    → books w' ≡ books w
    → Safe items x w
    → Safe items x w'
unfolding find_item sum_refunded_quantity
Safe-books items x w w' e (same, within) =
    let rows = ap (λ b. b.0) e in
    let refunds = ap (λ b. b.1) e in
    (rw rows same, λ i there. rw refunds (within i (rw rows at there)))

pub Safe-ReadsBooks : (items : List OrderItem) (x : String) → ReadsBooks (Safe items x)
Safe-ReadsBooks items x = reads_books (Safe items x) (Safe-books items x)

pub create_refund-books :
    (column : ℤ → ℤ) (d : RefundData) (key : String) (w : World)
    → let w' = (create_refund column d key w).1 in
      (w'.order_items ≡ w.order_items)
      × ((w'.refunds ≡ w.refunds) ⊎ (w'.refunds ≡ w.refunds ++ refund_row (w.uuid w.drawn) d ∷ []))
unfolding create_refund create_ledger_entry
create_refund-books column d key w = ground arith

-- An item is the one that its identifier finds.
abbrev pub IsListed : List OrderItem → OrderItem → Type 0
IsListed items i = find_first (λ j. j.id === i.id) items ≡ some i

module _ (column : ℤ → ℤ) (items : List OrderItem) (x : String) where
  -- A refund of at most what is left of an item.
  create_refund-Safe :
      (d : RefundData) (key : String) (item : OrderItem) (w : World)
      → IsListed items item
      → d.order_item_id ≡ item.id
      → sum_refunded_quantity item.id w + d.quantity ≤ item.quantity
      → Safe items x w
      → Safe items x (create_refund column d key w).1
  unfolding find_item sum_refunded_quantity
  create_refund-Safe d key item w listed of_item fits (same, within) =
      let (rows, refunds) = create_refund-books column d key w in
      let w' = (create_refund column d key w).1 in
      (
        rows ∙ same,
        elim refunds [
          | inl kept ↦ λ i there. rw kept (within i (rw rows at there))
          | inr grown ↦ λ i there.
              rw (grown, sum-append_refund x w.refunds (refund_row (w.uuid w.drawn) d))
                (grown_fits i (rw rows at there))
        ],
      )
    where
      grown_fits :
          (i : OrderItem)
          → find_first (λ j. j.id === x) w.order_items ≡ some i
          → sum_by (λ r. r.quantity) (select (is_live_refund x) w.refunds)
              + (if is_live_refund x (refund_row (w.uuid w.drawn) d) then d.quantity else 0)
            ≤ i.quantity
      grown_fits i there =
          ground (arith, within i there, same, listed, of_item, fits, eq_of_str_eq item.id x)

  refund_if_paid-Safe :
      (plan : Plan) (item : OrderItem) (q : ℕ) (payment : Option Payment) (w : World)
      → IsListed items item
      → sum_refunded_quantity item.id w + q ≤ item.quantity
      → Safe items x w
      → Safe items x (refund_if_paid column plan item q payment w).1
  unfolding refund_if_paid
  refund_if_paid-Safe plan item q none w listed fits h = h
  refund_if_paid-Safe plan item q (some p) w listed fits h =
      then_preserve (Safe items x)
        (create_refund column (cancel_refund_data plan p item q) (plan.ledger_key item) w)
        (λ _. skip)
        (create_refund-Safe (cancel_refund_data plan p item q) (plan.ledger_key item) item w listed
          refl fits h)
        (λ _ v k. k)

  return_kept :
      (plan : Plan) (item : OrderItem) (q : ℕ) (totals : Totals)
      → Preserved
          (Safe items x)
          (Products.increment_stock item.product_id q >> returned plan item q totals)
  unfolding returned
  return_kept plan item q totals = search (keeps_books, Safe-ReadsBooks items x)

  return_quantity-Safe :
      (plan : Plan) (item : OrderItem) (q : ℕ) (totals : Totals) (w : World)
      → IsListed items item
      → sum_refunded_quantity item.id w + q ≤ item.quantity
      → Safe items x w
      → Safe items x (return_quantity column plan item q totals w).1
  unfolding return_quantity
  return_quantity-Safe plan item q totals w listed fits h =
      then_preserve (Safe items x) (refund_if_paid column plan item q plan.payment w)
        (λ _. Products.increment_stock item.product_id q >> returned plan item q totals)
        (refund_if_paid-Safe plan item q plan.payment w listed fits h)
        (λ _.
          Preserved-apply (Safe items x)
            (Products.increment_stock item.product_id q >> returned plan item q totals)
            (return_kept plan item q totals))

  return_item-Safe :
      (plan : Plan) (item : OrderItem) (totals : Totals)
      → IsListed items item
      → Preserves (Safe items x) (return_item column plan item totals)
  unfolding return_item
  return_item-Safe plan item totals listed w h = elim (Bool-cases (refundable item w == 0)) [
    | inl none_left ↦ rw none_left h
    | inr some_left ↦
        rw some_left
          (return_quantity-Safe plan item (refundable item w) totals w listed (ground arith) h)
  ]

  return_items-Safe :
      (plan : Plan) (is : List OrderItem) (totals : Totals)
      → All (IsListed items) is
      → Preserves (Safe items x) (return_items column plan is totals)
  unfolding return_items
  return_items-Safe plan [] totals listed w h = h
  return_items-Safe plan (i ∷ is) totals (here, rest) w h =
      Preserves->>= (Safe items x) (return_item column plan i totals) (return_items column plan is)
        (return_item-Safe plan i totals here) (λ totals'. return_items-Safe plan is totals' rest) w
        h

pub return_items-Safe' :
    (items : List OrderItem) (x : String) (column : ℤ → ℤ) (plan : Plan) (is : List OrderItem)
    (totals : Totals)
    → All (IsListed items) is
    → Preserved (Safe items x) (return_items column plan is totals)
return_items-Safe' items x column plan is totals listed =
    preserved (Safe items x) (return_items column plan is totals)
      (return_items-Safe column items x plan is totals listed)

IsListed-cons :
    (items : List OrderItem) (i j : OrderItem)
    → IsItemKey (i ∷ items)
    → IsListed items j
    → IsListed (i ∷ items) j
IsListed-cons items i j key listed = ground (
  arith,
  key j.id,
  count_where-pos (λ k. k.id === j.id) (λ k. k.id === j.id) items listed
      (find_first-test (λ k. k.id === j.id) items listed),
)

pub select-IsListed :
    (p : OrderItem → Bool) (items : List OrderItem)
    → IsItemKey items
    → All (IsListed items) (select p items)
select-IsListed p [] key = tt
select-IsListed p (i ∷ is) key =
    let rest =
      All-map (IsListed (i ∷ is)) (select p is) (λ j listed. IsListed-cons is i j key listed)
        (select-IsListed p is (λ y. ground (arith, key y))) in
    elim (Bool-cases (p i)) [
      | inl kept ↦ rw kept (rw (str_eq_refl i.id) refl, rest)
      | inr dropped ↦ rw dropped rest
    ]
