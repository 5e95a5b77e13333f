-- ===== src/Bidding/WinnerCheckout/Parts.antt =====
-- What the parts of a sale leave in the tables (Bidding/WinnerCheckout).
use multi_marketplace.Base.{
  ℕ, ℤ, ◌≡◌, ◌<◌, refl, ◌∙◌, ap, sym, subst, String, true, none, some, arith, update_where,
  count_where, [], ◌∷◌, ◌++◌,
}
use multi_marketplace.Store.{
  World, Auction, Product, Order, OrderItem, Payment, SellerOrder, PaymentStatus, SellerOrderStatus,
  OrderStatus, ok, ◌===◌, string_eq, option_eq, auction_status_eq,
}
use multi_marketplace.Store.Frame.{>>=-eq-ok}
use multi_marketplace.Repository.Auctions
use multi_marketplace.Repository.Auctions.{is_checkout_open, is_still_open, claim_winner_checkout}
use multi_marketplace.Repository.Products
use multi_marketplace.Repository.Products.{sold_row}
use multi_marketplace.Repository.Orders.Creation.{create_order}
use multi_marketplace.Repository.Orders.Frame.{
  create_order-Keeps, create_order-row, create_many-Keeps,
}
use multi_marketplace.Repository.Orders.Stored.{
  OrderStored, create_order-OrderStored, OrderStored-tables, create_many-order_tables, order_tables,
  map-single, part, part_of, filed, to_file, all_to_file,
}
use multi_marketplace.Bidding.WinnerCheckout.{
  is_winner, is_window_open, is_available, winner_item, winner_part, winner_order, sale_events,
  claim_sale, order_sale, sell, sell_won, winner_body,
}

-- The auction has the order of its checkout.
abbrev pub bind : String → Auction → Auction
bind order a = record a { checkout_order_id = some order }

claim_sale-eq :
    (winner x key : String) (now : ℕ) (o : Order) (w : World) {r : Order} {w' : World}
    → claim_sale winner x key now o w ≡ (ok r, w')
    → (r ≡ o)
      × (0 < count_where (is_checkout_open x winner now) w.auctions)
      × (w'.auctions ≡ update_where (is_checkout_open x winner now) (bind o.id) w.auctions)
      × (w'.products ≡ w.products)
      × (order_tables w' ≡ order_tables w)
unfolding claim_sale claim_winner_checkout
claim_sale-eq winner x key now o w e =
    let v = (claim_winner_checkout x winner o.id now w).1 in
    let kept = create_many-Keeps (sale_events winner x key o v) v in
    let kept' = create_many-order_tables (sale_events winner x key o v) v in
    (ground arith, ground arith, ground (arith, kept), ground (arith, kept), ground (arith, kept'))

module _ (column : ℤ → ℤ) where
  order_sale-eq :
      (winner : String) (a : Auction) (p : Product) (key : String) (now : ℕ) (w : World) {r : Order}
      {w' : World}
      → order_sale column winner a p key now w ≡ (ok r, w')
      → (r.user_id ≡ winner)
        × (r.status ≡ OrderStatus.processing)
        × (r.total_amount ≡ a.current_price)
        × (0 < count_where (is_checkout_open a.id winner now) w.auctions)
        × (w'.auctions ≡ update_where (is_checkout_open a.id winner now) (bind r.id) w.auctions)
        × (w'.products ≡ w.products)
        × OrderStored column (winner_order winner a p key) w r w'
  unfolding order_sale
  order_sale-eq winner a p key now w {r} {w'} e =
      let (o, v, made, e1) =
        >>=-eq-ok (create_order column (winner_order winner a p key))
          (claim_sale winner a.id key now) w e in
      let (same, counted, auctions, products, tables) = claim_sale-eq winner a.id key now o v e1 in
      let (owner, status, total) = create_order-row column (winner_order winner a p key) w made in
      let kept = create_order-Keeps column (winner_order winner a p key) w in
      (
        ground arith,
        ground arith,
        ground arith,
        ground (arith, kept),
        ground (arith, kept),
        ground (arith, kept),
        OrderStored-tables column (winner_order winner a p key) r w w v w' refl tables (
            subst (λ y. OrderStored column (winner_order winner a p key) w y v) (sym same)
              (create_order-OrderStored column (winner_order winner a p key) w {o = o} {w' = v}
                made)),
      )

  -- What a sale of auction `a` under the order `r` leaves in the tables.
  abbrev pub Sold : String → Auction → Product → String → ℕ → ℕ → World → Order → World → Type 0
  Sold winner a p key now now' w r w' =
      (is_winner winner a ≡ true)
      × (is_window_open now a ≡ true)
      × (is_available p ≡ true)
      × (r.user_id ≡ winner)
      × (r.status ≡ OrderStatus.processing)
      × (r.total_amount ≡ a.current_price)
      × (0 < count_where (is_checkout_open a.id winner now') w.auctions)
      × (w'.auctions ≡ update_where (is_checkout_open a.id winner now') (bind r.id) w.auctions)
      × (w'.products ≡ update_where (λ q. q.id === a.product_id) sold_row w.products)
      × OrderStored column (winner_order winner a p key) w r w'

  sell-eq :
      (winner : String) (a : Auction) (p : Product) (key : String) (now : ℕ) (w : World) {r : Order}
      {w' : World}
      → sell column winner a p key now w ≡ (ok r, w')
      → (v : World) × (order_sale column winner a p key now v ≡ (ok r, w'))
        × (v.auctions ≡ w.auctions)
        × (v.products ≡ update_where (λ q. q.id === a.product_id) sold_row w.products)
        × (order_tables v ≡ order_tables w)
  unfolding sell Products.mark_sold
  sell-eq winner a p key now w e =
      let (_, v, marked, e1) =
        >>=-eq-ok (Products.mark_sold a.product_id) (λ _. order_sale column winner a p key now) w
          e in
      (v, e1, ground arith, ground arith, ground arith)

  sell_won-Sold :
      (winner : String) (a : Auction) (p : Product) (key : String) (now now' : ℕ) (w : World)
      {r : Order} {w' : World}
      → sell_won column winner a p key now now' w ≡ (ok r, w')
      → Sold winner a p key now now' w r w'
  unfolding sell_won
  sell_won-Sold winner a p key now now' w {r} {w'} e =
      let (v, e1, auctions, products, tables) =
        sell-eq winner a p key now' w {r = r} {w' = w'} (ground arith) in
      let (owner, status, total, counted, bound, kept, stored) =
        order_sale-eq winner a p key now' v {r = r} {w' = w'} e1 in
      (
        ground arith,
        ground arith,
        ground arith,
        owner,
        status,
        total,
        rw auctions at counted,
        rw auctions at bound,
        kept ∙ products,
        OrderStored-tables column (winner_order winner a p key) r w v w' w' tables refl stored,
      )

  pub winner_body-Sold :
      (winner x key : String) (now now' : ℕ) (w : World) {a : Auction} {p : Product} {r : Order}
      {w' : World}
      → Auctions.find_by_id x w ≡ some a
      → Products.find_by_id a.product_id w ≡ some p
      → a.checkout_order_id ≡ none
      → winner_body column winner x key now now' w ≡ (ok r, w')
      → Sold winner a p key now now' w r w'
  unfolding winner_body
  winner_body-Sold winner x key now now' w {a} {p} {r} {w'} there product open' e =
      sell_won-Sold winner a p key now now' w {r = r} {w' = w'}
        (ground (arith, there, product, open'))

  -- The order `r` of the sale, its payment, its seller order and its item are added to the tables.
  abbrev pub Recorded : Auction → Product → String → World → Order → World → Type 0
  Recorded a p key w r w' =
      (w'.orders ≡ w.orders ++ r ∷ [])
      × (m : Payment) × (w'.payments ≡ w.payments ++ m ∷ [])
      × (m.order_id ≡ r.id)
      × (m.status ≡ PaymentStatus.paid)
      × (m.amount ≡ a.current_price)
      × (m.idempotency_key ≡ key)
      × (s : SellerOrder) × (w'.seller_orders ≡ w.seller_orders ++ s ∷ [])
      × (s.order_id ≡ r.id)
      × (s.seller_id ≡ p.seller_id)
      × (s.status ≡ SellerOrderStatus.processing)
      × (s.subtotal ≡ a.current_price)
      × (i : OrderItem) × (w'.order_items ≡ w.order_items ++ i ∷ [])
      × (i.seller_order_id ≡ s.id)
      × (i.product_id ≡ a.product_id)
      × (i.quantity ≡ 1)
      × (i.unit_price ≡ a.current_price)

  pub OrderStored-Recorded :
      (winner : String) (a : Auction) (p : Product) (key : String) (w : World) (r : Order)
      (w' : World)
      → OrderStored column (winner_order winner a p key) w r w'
      → Recorded a p key w r w'
  OrderStored-Recorded winner a p key w r w'
        (orders, m, payments, of, status, amount, named, ss, sellers, rows, is, items, same) =
      let (s, one, row) = map-single part ss (part_of r.id (winner_part a p key)) rows in
      let (i, alone, line) =
        map-single filed is (to_file s.id (winner_item a p))
          (same ∙ ap (λ xs. all_to_file xs ((winner_item a p ∷ []) ∷ [])) one) in
      (
        orders,
        m,
        payments,
        of,
        status,
        amount,
        named,
        s,
        sellers ∙ ap (λ xs. w.seller_orders ++ xs) one,
        ap (λ t. t.0) row,
        ap (λ t. t.1) row,
        ap (λ t. t.2) row,
        ap (λ t. t.3) row,
        i,
        items ∙ ap (λ xs. w.order_items ++ xs) alone,
        ap (λ t. t.0) line,
        ap (λ t. t.1) line,
        ap (λ t. t.2) line,
        ap (λ t. t.3) line,
      )
