-- ===== src/Orders/Checkout/Calls.antt =====
-- Whole calls of `checkout`.
use multi_marketplace.Base.{ℤ, ◌+◌, ◌≡◌, ◌≢◌, String, List, [], some, arith}
use multi_marketplace.Store.{
  World, Cart, Product, Order, OrderStatus, Result, Error, ok, err, string_eq,
}
use multi_marketplace.Repository.Products
use multi_marketplace.Repository.Carts
use multi_marketplace.Repository.Outbox
use multi_marketplace.Orders.Checkout.{Line, checkout, find_checkout, recover_checkout, lines_of}
use multi_marketplace.Orders.Checkout.Groups.{tally_lines}
use multi_marketplace.Orders.Checkout.Stock.{ordered}
use multi_marketplace.Orders.Checkout.Recorded.{IsRecorded}

module _ (column : ℤ → ℤ) (user key : String) where
  -- A call of `checkout` that raises leaves the tables and the signals as they were: no stock is
  -- taken, no order stands, the cart is kept.
  pub checkout_failed :
      (w : World) {e : Error} {w' : World} → checkout column user key w ≡ (err e, w') → w' ≡ w
  unfolding checkout recover_checkout find_checkout
  checkout_failed w h = ground arith

  -- What a new order did to the tables.
  pub record IsPlaced (cart : Cart) (lines : List Line) (order : Order) (w w' : World)
      : Type 0 where
    pub owner : order.user_id ≡ user
    pub status : order.status ≡ OrderStatus.new
    pub total : order.total_amount ≡ (tally_lines lines (0, [])).0
    pub recorded : IsRecorded column user key (tally_lines lines (0, [])).1 order w w'
    pub emptied : Carts.find_items cart.id w' ≡ []
    pub stock :
        (x : String) (p : Product)
        → Products.find_by_id x w ≡ some p
        → (p' : Product) × (Products.find_by_id x w' ≡ some p')
          × (p'.stock + ordered x lines ≡ p.stock)

  -- What a successful call did that found no earlier order under its key.
  abbrev pub CheckedOut : World → Result Order × World → Type 0
  CheckedOut w (err e, w') = Unit
  CheckedOut w (ok order, w') =
      (cart : Cart) × (Carts.find_by_user_id user w ≡ some cart)
      × (Carts.find_items cart.id w ≢ [])
      × IsPlaced cart (lines_of (Carts.find_items cart.id w) w) order w w'
