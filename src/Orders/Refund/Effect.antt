-- ===== src/Orders/Refund/Effect.antt =====
-- What a refund that goes through leaves in the tables.
use multi_marketplace.Base.{
  ℕ, ℤ, ◌+◌, ◌*◌, ◌≤◌, ◌≡◌, ◌∙◌, ap, String, true, [], ◌∷◌, ◌++◌, some, arith, inl, inr, str_eq,
  str_eq_refl, eq_of_str_eq, find_first, Option-cases, find_first-test,
}
use multi_marketplace.Store.{World, Refund, Payment, Result, ok, err}
use multi_marketplace.Store.Frame.{Keeps, >>=-eq-ok}
use multi_marketplace.Repository.Orders.{
  find_item, sum_refunded_quantity, is_live_refund, update_seller_order, update_payment,
}
use multi_marketplace.Repository.Orders.Creation.{
  create_refund, create_ledger_entry, refund_row, RefundData,
}
use Prim.Native.String.{◌++◌ as text_append}
use multi_marketplace.Repository.Products
use multi_marketplace.Repository.Outbox
use multi_marketplace.Orders.Refund.{
  ItemDetails, Refunded, refund_data, settle_refund, record_refund, refund_locked, refund_item,
  refund_body, is_settled, find_item_for_refund,
}

pub find_item_for_refund-item :
    (x : String) (w : World) {d : ItemDetails}
    → find_item_for_refund x w ≡ some d
    → (find_item x w ≡ some d.item) × (d.item.id ≡ x)
unfolding find_item_for_refund find_item
find_item_for_refund-item x w {d} e =
    let there : find_item x w ≡ some d.item = ground arith in
    (there, eq_of_str_eq d.item.id x (find_first-test (λ i. str_eq i.id x) w.order_items there))

module _ (column : ℤ → ℤ) where
  settle_refund-refunds :
      (d : ItemDetails) (p : Payment) (q : ℕ) (key : String) (r : Refund)
      → Keeps (λ w. w.refunds) (settle_refund column d p q key r)
  unfolding settle_refund update_seller_order update_payment Products.increment_stock
      create_ledger_entry Outbox.create
  settle_refund-refunds d p q key r w = ground arith

  settle_refund-items :
      (d : ItemDetails) (p : Payment) (q : ℕ) (key : String) (r : Refund)
      → Keeps (λ w. w.order_items) (settle_refund column d p q key r)
  unfolding settle_refund update_seller_order update_payment Products.increment_stock
      create_ledger_entry Outbox.create
  settle_refund-items d p q key r w = ground arith

  -- What a refund that goes through leaves in the tables.
  abbrev pub Recorded : ItemDetails → ℕ → World → Result Refunded × World → Type 0
  Recorded d q w (err e, w') = Unit
  Recorded d q w (ok done, w') =
      (w'.order_items ≡ w.order_items)
      × (w'.refunds ≡ w.refunds ++ done.refund ∷ [])
      × (done.refund.order_item_id ≡ d.item.id)
      × (done.refund.quantity ≡ q)
      × (done.refund.amount ≡ d.item.unit_price * q)
      × (is_live_refund d.item.id done.refund ≡ true)

  settle_refund-returns :
      (d : ItemDetails) (p : Payment) (q : ℕ) (key : String) (r : Refund) (w : World)
      {done : Refunded} {w' : World}
      → settle_refund column d p q key r w ≡ (ok done, w')
      → done.refund ≡ r
  unfolding settle_refund
  settle_refund-returns d p q key r w e = ground arith

  create_refund-eq :
      (data' : RefundData) (key : String) (w : World) {r : Refund} {v : World}
      → create_refund column data' key w ≡ (ok r, v)
      → (v.order_items ≡ w.order_items)
        × (v.refunds ≡ w.refunds ++ r ∷ [])
        × (r ≡ refund_row r.id data')
  unfolding create_refund create_ledger_entry
  create_refund-eq data' key w e = (ground arith, ground arith, ground arith)

  record_refund-Recorded :
      (d : ItemDetails) (p : Payment) (q : ℕ) (reason key : String) (now : ℕ) (w : World)
      {done : Refunded} {w' : World}
      → record_refund column d p q reason key now w ≡ (ok done, w')
      → Recorded d q w (ok done, w')
  unfolding record_refund
  record_refund-Recorded d p q reason key now w {done} {w'} e =
      let (r, v, made, settled) =
        >>=-eq-ok
          (create_refund column (refund_data d p q reason key now)
            (text_append key ":refund-ledger"))
          (settle_refund column d p q key) w e in
      let (items, rows, row) =
        create_refund-eq (refund_data d p q reason key now) (text_append key ":refund-ledger") w
          made in
      let same = settle_refund-returns d p q key r v settled in
      (
        ground (arith, settle_refund-items d p q key r v),
        ground (arith, settle_refund-refunds d p q key r v),
        ground arith,
        ground arith,
        ground arith,
        ground (arith, str_eq_refl d.item.id),
      )

  refund_locked-Recorded :
      (d : ItemDetails) (q : ℕ) (reason key : String) (now : ℕ) (w : World) {done : Refunded}
      {w' : World}
      → refund_locked column d q reason key now w ≡ (ok done, w')
      → Recorded d q w (ok done, w') × (sum_refunded_quantity d.item.id w + q ≤ d.item.quantity)
  unfolding refund_locked
  refund_locked-Recorded d q reason key now w {done} {w'} e =
      elim (Option-cases (find_first is_settled d.payments)) [
        | inl unpaid ↦ absurd (ground (arith, unpaid))
        | inr (p, paid) ↦ (
          record_refund-Recorded d p q reason key now w {done = done} {w' = w'}
              (ground (arith, paid)),
          ground arith,
        )
      ]

  refund_item-Recorded :
      (d : ItemDetails) (q : ℕ) (reason key : String) (now : ℕ) (w : World) {done : Refunded}
      {w' : World}
      → refund_item column d q reason key now w ≡ (ok done, w')
      → Recorded d q w (ok done, w') × (sum_refunded_quantity d.item.id w + q ≤ d.item.quantity)
  unfolding refund_item update_seller_order sum_refunded_quantity
  refund_item-Recorded d q reason key now w {done} {w'} e =
      let (_, v, touched, e1) =
        >>=-eq-ok (update_seller_order d.item.seller_order_id (λ s. s))
          (λ _. refund_locked column d q reason key now) w e in
      let ((items, rows, of_item, quantity, amount, live), fits) =
        refund_locked-Recorded d q reason key now v e1 in
      let same_items : v.order_items ≡ w.order_items = ground arith in
      let same_refunds : v.refunds ≡ w.refunds = ground arith in
      (
        (
          items ∙ same_items,
          rows ∙ ap (λ rs. rs ++ done.refund ∷ []) same_refunds,
          of_item,
          quantity,
          amount,
          live,
        ),
        ground arith,
      )

  -- What the transaction of a refund did, if it went through.
  pub refund_body-Recorded :
      (user x : String) (q : ℕ) (reason key : String) (now : ℕ) (w : World) {done : Refunded}
      {w' : World}
      → refund_body column user x q reason key now w ≡ (ok done, w')
      → (d : ItemDetails) × (find_item_for_refund x w ≡ some d)
        × Recorded d q w (ok done, w')
        × (sum_refunded_quantity d.item.id w + q ≤ d.item.quantity)
  unfolding refund_body
  refund_body-Recorded user x q reason key now w {done} {w'} e =
      elim (Option-cases (find_item_for_refund x w)) [
        | inl gone ↦ absurd (ground (arith, gone))
        | inr (d, there) ↦
            let (recorded, fits) =
              refund_item-Recorded d q reason key now w {done = done} {w' = w'}
                (ground (arith, there)) in
            (d, there, recorded, fits)
      ]
