-- ===== src/Orders/Cancellation/Bounds.antt =====
-- The quantity refunded of an item under the cancellations.
pub mod Partial
pub mod Voided
use multi_marketplace.Base.{
  ℕ, ℤ, ◌≡◌, refl, String, Bool, true, false, List, [], ◌∷◌, Option, none, some, All, map,
}
use multi_marketplace.Store.{
  World, Order, SellerOrder, OrderItem, Payment, OrderStatus, SellerOrderStatus, Signal, Action,
  gets, send, ◌>>=◌,
}
use multi_marketplace.Store.Frame.{Keeps}
use multi_marketplace.Store.Rules.{
  Preserved, preserved, Preserved-apply, gets_then-Preserved, for-All-Preserved, Keeps-Preserved,
  chains,
}
use multi_marketplace.Repository.Products
use multi_marketplace.Repository.Outbox
use multi_marketplace.Repository.Outbox.{EventData}
use multi_marketplace.Repository.Orders.{
  items_of, seller_orders_of, claim_order_cancellation, claim_seller_order_cancellation,
  update_payment, update_seller_order, update_order_status,
}
use multi_marketplace.Repository.Orders.Creation.{LedgerData, create_ledger_entries}
use multi_marketplace.Orders.Checkout.{drop_product_caches}
use multi_marketplace.Orders.Cancellation.{
  Part, Plan, Totals, parts_of, return_items, mark_refunded,
}
use multi_marketplace.Orders.Books.{ReadsBooks, reads_books, keeps_books}
use multi_marketplace.Orders.Cancellation.Refunds.{
  IsItemKey, Safe, Safe-ReadsBooks, IsListed, return_items-Safe', select-IsListed,
}
use multi_marketplace.Orders.Cancellation.Whole.{
  settle_part, return_part, return_claimed, cancel_part, cancel_parts, cancel_claimed, cancel_body,
  cancel_order, close_order, void_pending,
}

-- Every item of the part is the one that its identifier finds.
abbrev pub Listed : List OrderItem → Part → Type 0
Listed items part = All (IsListed items) part.1

parts-Listed :
    (items : List OrderItem) (w : World)
    → IsItemKey items
    → w.order_items ≡ items
    → (ss : List SellerOrder) → All (Listed items) (map (λ s. (s, items_of s.id w)) ss)
unfolding items_of
parts-Listed items w key same [] = tt
parts-Listed items w key same (s ∷ ss) =
    (rw same (select-IsListed _ items key), parts-Listed items w key same ss)

parts_of-Listed :
    (items : List OrderItem) (order : String) (w : World)
    → IsItemKey items
    → w.order_items ≡ items
    → All (Listed items) (parts_of order w)
unfolding parts_of
parts_of-Listed items order w key same = parts-Listed items w key same (seller_orders_of order w)

pub ruleset leaves = (keeps_books, Safe-ReadsBooks, return_items-Safe')

module _ (column : ℤ → ℤ) (items : List OrderItem) (x : String) where
  settle_part-Safe :
      (o : Order) (p : Option Payment) (s : SellerOrder) (totals : Totals)
      → Preserved (Safe items x) (settle_part column o p s totals)
  unfolding settle_part
  settle_part-Safe o p s totals = search leaves

  return_part-Safe :
      (o : Order) (p : Option Payment) (now : ℕ) (part : Part)
      → Listed items part
      → Preserved (Safe items x) (return_part column o p now part)
  unfolding return_part
  return_part-Safe o p now (s, is) listed = search (leaves, settle_part-Safe o p s)

  return_claimed-Safe :
      (o : Order) (p : Option Payment) (now : ℕ) (part : Part) (b : Bool)
      → Listed items part
      → Preserved (Safe items x) (return_claimed column o p now part b)
  return_claimed-Safe o p now part true listed = search leaves
  return_claimed-Safe o p now part false listed = return_part-Safe o p now part listed

  cancel_part-Safe :
      (o : Order) (p : Option Payment) (now : ℕ) (part : Part)
      → Listed items part
      → Preserved (Safe items x) (cancel_part column o p now part)
  unfolding cancel_part
  cancel_part-Safe o p now part listed = search (leaves, return_claimed-Safe o p now part)

  void_pending-Safe : (p : Option Payment) → Preserved (Safe items x) (void_pending p)
  unfolding void_pending
  void_pending-Safe none = search leaves
  void_pending-Safe (some p) = search leaves

  close_order-Safe :
      (user : String) (o : Order) (parts : List Part)
      → Preserved (Safe items x) (close_order user o parts)
  unfolding close_order
  close_order-Safe user o parts = search leaves

  cancel_parts-Safe :
      (user : String) (o : Order) (p pending : Option Payment) (now : ℕ) (parts : List Part)
      → All (Listed items) parts
      → Preserved (Safe items x) (cancel_parts column user o p pending now parts)
  unfolding cancel_parts
  cancel_parts-Safe user o p pending now parts listed = search (
    leaves,
    void_pending-Safe,
    close_order-Safe,
    for-All-Preserved (Safe items x) (Listed items) parts (cancel_part column o p now) listed
        (cancel_part-Safe o p now),
  )

  cancel_claimed-Safe :
      (user : String) (o : Order) (now : ℕ) (payments : List Payment) (parts : List Part)
      → All (Listed items) parts
      → Preserved (Safe items x) (cancel_claimed column user o now payments parts)
  unfolding cancel_claimed
  cancel_claimed-Safe user o now payments parts listed = search (leaves, cancel_parts-Safe user o)

  with_parts-Safe :
      IsItemKey items
      → (order : String) (k : List Part → Action Order)
      → ((parts : List Part) → All (Listed items) parts → Preserved (Safe items x) (k parts))
      → Preserved (Safe items x) (gets (parts_of order) >>= k)
  with_parts-Safe key order k safe = gets_then-Preserved (Safe items x) (parts_of order) k (λ w h.
      Preserved-apply (Safe items x) (k (parts_of order w))
        (safe (parts_of order w) (parts_of-Listed items order w key h.0)) w h)

  cancel_body-Safe :
      IsItemKey items
      → (user order : String) (now : ℕ)
      → Preserved (Safe items x) (cancel_body column user order now)
  unfolding cancel_body
  cancel_body-Safe key user order now =
      search (leaves, with_parts-Safe key, cancel_claimed-Safe user) depth 9

  pub cancel_order-Safe :
      IsItemKey items
      → (user order : String) (now : ℕ)
      → Preserved (Safe items x) (cancel_order column user order now)
  unfolding cancel_order
  cancel_order-Safe key user order now = search (leaves, cancel_body-Safe key) depth 9
