-- ===== src/Orders/Refund/Quantity.antt =====
-- How much of an item is refunded, and whole calls of `refundOrderItem`.
use multi_marketplace.Base.{
  ℕ, ℤ, ◌+◌, ◌*◌, ◌≤◌, ◌≡◌, ◌≢◌, ◌⊎◌, refl, String, true, List, [], ◌∷◌, ◌++◌, none, some, arith,
  sum_by, select, inl, inr, eq_of_str_eq, if◌then◌else◌,
}
use multi_marketplace.Store.{World, Refund, OrderItem, Result, Error, ok, err, settle}
use multi_marketplace.Repository.Orders.{
  find_item, find_refund_by_key, sum_refunded_quantity, is_live_refund,
}
use multi_marketplace.Orders.Refund.{Refunded, refund_body, recover_refund, refund_order_item}
use multi_marketplace.Orders.Refund.Effect.{refund_body-Recorded, find_item_for_refund-item}

-- Of the item `x`, no more has been refunded than was bought.
abbrev pub Within : String → World → Type 0
Within x w = (i : OrderItem) → find_item x w ≡ some i → sum_refunded_quantity x w ≤ i.quantity

pub sum-append_refund :
    (x : String) (rs : List Refund) (r : Refund)
    → sum_by (λ r. r.quantity) (select (is_live_refund x) (rs ++ r ∷ []))
      ≡ sum_by (λ r. r.quantity) (select (is_live_refund x) rs)
        + (if is_live_refund x r then r.quantity else 0)
sum-append_refund x [] r = ground arith
sum-append_refund x (s ∷ ss) r = ground (arith, sum-append_refund x ss r)

module _ (column : ℤ → ℤ) where
  refund_body-Within :
      (x user y : String) (q : ℕ) (reason key : String) (now : ℕ) (w : World)
      → Within x w
      → Within x (settle w (refund_body column user y q reason key now w)).1
  unfolding sum_refunded_quantity find_item
  refund_body-Within x user y q reason key now w h =
      given (refund_body column user y q reason key now w) refl
    where
      given :
          (r : Result Refunded × World)
          → refund_body column user y q reason key now w ≡ r
          → Within x (settle w r).1
      given (err e, w') _ = h
      given (ok done, w') e =
          let (d, there, (items, rows, of_item, quantity, amount, live), fits) =
            refund_body-Recorded column user y q reason key now w e in
          let (found, id) = find_item_for_refund-item y w there in
          λ i here. ground (
            arith,
            h i (rw items at here),
            rows,
            sum-append_refund x w.refunds done.refund,
            eq_of_str_eq done.refund.order_item_id x,
          )

  Within-tables :
      (x : String) (w w' : World)
      → w'.order_items ≡ w.order_items
      → w'.refunds ≡ w.refunds
      → Within x w
      → Within x w'
  unfolding find_item sum_refunded_quantity
  Within-tables x w w' items rows h i here = rw rows (h i (rw items at here))

  refund_tables :
      (user y : String) (q : ℕ) (reason key : String) (now : ℕ) (w : World)
      → let w' = (refund_order_item column user y q reason key now w).1 in
        let v = (settle w (refund_body column user y q reason key now w)).1 in
        ((w'.order_items ≡ w.order_items) × (w'.refunds ≡ w.refunds))
        ⊎ ((w'.order_items ≡ v.order_items) × (w'.refunds ≡ v.refunds))
  unfolding refund_order_item recover_refund
  refund_tables user y q reason key now w = ground arith

  -- If no more of item `x` has been refunded than was bought, counting the refunds that are pending,
  -- approved or processed, the same holds after a call of `refundOrderItem` for any item, whatever its
  -- outcome.
  pub refund_order_item-Within :
      (x user y : String) (q : ℕ) (reason key : String) (now : ℕ) (w : World)
      → Within x w
      → Within x (refund_order_item column user y q reason key now w).1
  refund_order_item-Within x user y q reason key now w h =
      elim (refund_tables user y q reason key now w) [
        | inl (items, rows) ↦
            Within-tables x w (refund_order_item column user y q reason key now w).1 items rows h
        | inr (items, rows) ↦
            Within-tables x (settle w (refund_body column user y q reason key now w)).1
              (refund_order_item column user y q reason key now w).1 items rows
              (refund_body-Within x user y q reason key now w h)
      ]

  refund_order_item-body :
      (user y : String) (q : ℕ) (reason key : String) (now : ℕ) (w : World) {done : Refunded}
      {w' : World}
      → find_refund_by_key key w ≡ none
      → refund_order_item column user y q reason key now w ≡ (ok done, w')
      → (v : World) × (refund_body column user y q reason key now w ≡ (ok done, v))
        × (w' ≡ record v { signals = w'.signals })
        × (q ≢ 0)
  unfolding refund_order_item recover_refund
  refund_order_item-body user y q reason key now w {done} {w'} absent h =
      given (refund_body column user y q reason key now w) refl
    where
      given :
          (r : Result Refunded × World)
          → refund_body column user y q reason key now w ≡ r
          → (v : World) × (r ≡ (ok done, v)) × (w' ≡ record v { signals = w'.signals }) × (q ≢ 0)
      given (ok o, v) e = (v, ground (arith, e), ground (arith, e), ground (arith, e))
      given (err x, v) e = absurd (ground arith)

  -- A call of `refundOrderItem` under a new key that goes through was for an item that is there, of
  -- which at least the requested quantity, which is not 0, had not been refunded. It adds one refund,
  -- which it returns: for that item and quantity, at the item's price, live from now on.
  pub refund_order_item_records :
      (user y : String) (q : ℕ) (reason key : String) (now : ℕ) (w : World) {done : Refunded}
      {w' : World}
      → find_refund_by_key key w ≡ none
      → refund_order_item column user y q reason key now w ≡ (ok done, w')
      → (item : OrderItem) × (find_item y w ≡ some item)
        × (q ≢ 0)
        × (sum_refunded_quantity y w + q ≤ item.quantity)
        × (w'.refunds ≡ w.refunds ++ done.refund ∷ [])
        × (done.refund.quantity ≡ q)
        × (done.refund.amount ≡ item.unit_price * q)
        × (is_live_refund y done.refund ≡ true)
  refund_order_item_records user y q reason key now w {done} {w'} absent h =
      let (v, went, same, some_asked) = refund_order_item-body user y q reason key now w absent h in
      let (d, there, (_, rows, of_item, quantity, amount, live), fits) =
        refund_body-Recorded column user y q reason key now w went in
      let (found, id) = find_item_for_refund-item y w there in
      (d.item, found, some_asked, rw id at fits, ground arith, quantity, amount, rw id at live)

  -- A call of `refundOrderItem` that raises leaves everything as it was.
  pub refund_order_item_failed :
      (user y : String) (q : ℕ) (reason key : String) (now : ℕ) (w : World) {e : Error} {w' : World}
      → refund_order_item column user y q reason key now w ≡ (err e, w')
      → w' ≡ w
  unfolding refund_order_item recover_refund
  refund_order_item_failed user y q reason key now w h = ground arith
