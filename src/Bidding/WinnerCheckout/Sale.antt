-- ===== src/Bidding/WinnerCheckout/Sale.antt =====
-- What a sale leaves in the tables.
use multi_marketplace.Base.{
  ℕ, ℤ, ◌≡◌, ◌≤◌, ◌<◌, refl, ◌∙◌, ap, ◌+◌, String, true, none, some, arith, update_where,
  count_where, find_first-test, find_first_single, str_eq, eq_of_str_eq, Option-cases, [], ◌∷◌,
  ◌++◌, inl, inr,
}
use multi_marketplace.Store.{
  World, Auction, Product, Order, ProductStatus, OrderStatus, Result, Error, Signal, ok, err, ◌===◌,
  string_eq, option_eq, auction_status_eq,
}
use multi_marketplace.Repository.Auctions
use multi_marketplace.Repository.Auctions.{is_checkout_open, is_still_open, claim_winner_checkout}
use multi_marketplace.Repository.Auctions.Reading.{find_by_id-test, find_by_id-update}
use multi_marketplace.Repository.Products
use multi_marketplace.Repository.Products.{sold_row}
use multi_marketplace.Repository.Orders
use multi_marketplace.Repository.Orders.{find_order_by_payment_key}
use multi_marketplace.Repository.Orders.Stored.{OrderStored-tables, order_tables}
use multi_marketplace.Bidding.WinnerCheckout.{
  is_winner, is_window_open, is_available, winner_order, own_sale, winner_body, recover_sale,
  checkout_winner,
}
use multi_marketplace.Bidding.WinnerCheckout.Parts.{
  bind, winner_body-Sold, Recorded, OrderStored-Recorded,
}

-- What a call about a taken auction comes to.
abbrev pub Taken : String → String → World → Result Order × World → Type 0
Taken winner id w (err e, w') = w' ≡ w
Taken winner id w (ok o, w') =
    (Orders.find_by_id id w ≡ some o)
    × (o.user_id ≡ winner)
    × (w' ≡ record w { signals = w.signals ++ Signal.metric "order_created" ∷ [] })

bound_row :
    (winner x : String) (now : ℕ) (w w' : World) (order : String) {a : Auction}
    → count_where (λ b. str_eq b.id x) w.auctions ≤ 1
    → Auctions.find_by_id x w ≡ some a
    → 0 < count_where (is_checkout_open x winner now) w.auctions
    → w'.auctions ≡ update_where (is_checkout_open x winner now) (bind order) w.auctions
    → Auctions.find_by_id x w' ≡ some (bind order a)
unfolding Auctions.find_by_id
bound_row winner x now w w' order {a} one there counted e =
    let test = find_first-test (λ b. str_eq b.id x) w.auctions there in
    let passes =
      find_first_single (λ b. str_eq b.id x) (is_still_open winner now) w.auctions {a = a} one
        counted there in
    ground (
      arith,
      there,
      passes,
      test,
      find_by_id-update x (is_checkout_open x winner now) (bind order) w w' (λ b. refl) e,
    )

module _ (column : ℤ → ℤ) where
  checkout_winner-body :
      (winner x key : String) (now now' : ℕ) (w : World) {r : Order} {w' : World}
      → find_order_by_payment_key key w ≡ none
      → checkout_winner column winner x key now now' w ≡ (ok r, w')
      → (v : World) × (winner_body column winner x key now now' w ≡ (ok r, v))
        × (w' ≡ record v { signals = w'.signals })
  unfolding checkout_winner recover_sale
  checkout_winner-body winner x key now now' w {r} {w'} absent h =
      given (winner_body column winner x key now now' w) refl
    where
      given :
          (b : Result Order × World)
          → winner_body column winner x key now now' w ≡ b
          → (v : World) × (b ≡ (ok r, v)) × (w' ≡ record v { signals = w'.signals })
      given (ok o, v) e = (v, ground (arith, e), ground (arith, e))
      given (err y, v) e = absurd (ground arith)

  -- Where one row has the auction's identifier and it has no checkout order yet: if `checkoutWinner`
  -- succeeds under a new key, the caller is the winner of the sold auction, the window was open, and
  -- the product was an active auction product. The order that it returns is the caller's, is being
  -- processed, and its total is the price of the auction. The auction is bound to that order, and the
  -- product is SOLD. The order is stored, with one payment of that price under the key, PAID, and with
  -- one seller order of the product's seller, being processed, which has one item: one piece of the
  -- product at that price.
  pub checkout_winner_sells :
      (winner x key : String) (now now' : ℕ) (w : World) {a : Auction} {p : Product} {r : Order}
      {w' : World}
      → count_where (λ b. str_eq b.id x) w.auctions ≤ 1
      → find_order_by_payment_key key w ≡ none
      → Auctions.find_by_id x w ≡ some a
      → Products.find_by_id a.product_id w ≡ some p
      → a.checkout_order_id ≡ none
      → checkout_winner column winner x key now now' w ≡ (ok r, w')
      → (is_winner winner a ≡ true)
        × (is_window_open now a ≡ true)
        × (is_available p ≡ true)
        × (r.user_id ≡ winner)
        × (r.status ≡ OrderStatus.processing)
        × (r.total_amount ≡ a.current_price)
        × (Auctions.find_by_id x w' ≡ some (record a { checkout_order_id = some r.id }))
        × (w'.products
            ≡ update_where
                (λ q. q.id === a.product_id)
                (λ q. record q { status = ProductStatus.sold; version = q.version + 1 })
                w.products)
        × Recorded column a p key w r w'
  checkout_winner_sells winner x key now now' w {a} {p} {r} {w'} one absent there product open' h =
      let (v, body, same) =
        checkout_winner-body winner x key now now' w {r = r} {w' = w'} absent h in
      let (won, window, available, owner, status, total, counted, bound, products, stored) =
        winner_body-Sold column winner x key now now' w {a = a} {p = p} {r = r} {w' = v} there
          product open' body in
      let id = eq_of_str_eq a.id x (find_by_id-test x w there) in
      (
        won,
        window,
        available,
        owner,
        status,
        total,
        bound_row winner x now' w w' r.id one there (rw id at counted)
            (ap (λ t. t.auctions) same ∙ (rw id at bound)),
        ap (λ t. t.products) same ∙ products,
        OrderStored-Recorded column winner a p key w r w' (
            OrderStored-tables column (winner_order winner a p key) r w w v w' refl
              (ap order_tables same) stored),
      )

  bound_body :
      (winner x key id : String) (now now' : ℕ) (w : World) {a : Auction} {p : Product}
      → Auctions.find_by_id x w ≡ some a
      → Products.find_by_id a.product_id w ≡ some p
      → a.checkout_order_id ≡ some id
      → winner_body column winner x key now now' w ≡ own_sale winner (Orders.find_by_id id w) w
  unfolding winner_body
  bound_body winner x key id now now' w {a} {p} there product bound =
      ground (arith, there, product, bound)

  -- An auction that is bound to an order already is sold to nobody again: under a new key
  -- `checkoutWinner` raises and leaves everything as it was, or it returns that order to its owner, and
  -- of everything else only the counter of orders moves.
  pub checkout_winner-Taken :
      (winner x key id : String) (now now' : ℕ) (w : World) {a : Auction} {p : Product}
      → find_order_by_payment_key key w ≡ none
      → Auctions.find_by_id x w ≡ some a
      → Products.find_by_id a.product_id w ≡ some p
      → a.checkout_order_id ≡ some id
      → Taken winner id w (checkout_winner column winner x key now now' w)
  unfolding checkout_winner recover_sale
  checkout_winner-Taken winner x key id now now' w {a} {p} absent there product bound =
      let body = bound_body winner x key id now now' w {a = a} {p = p} there product bound in
      elim (Option-cases (Orders.find_by_id id w)) [
        | inl gone ↦ ground (arith, body, gone)
        | inr (o, found) ↦ ground (arith, body, found, eq_of_str_eq o.user_id winner)
      ]

  -- A call of `checkoutWinner` that raises leaves everything as it was.
  pub checkout_winner_failed :
      (winner x key : String) (now now' : ℕ) (w : World) {e : Error} {w' : World}
      → checkout_winner column winner x key now now' w ≡ (err e, w')
      → w' ≡ w
  unfolding checkout_winner recover_sale
  checkout_winner_failed winner x key now now' w h = ground arith
