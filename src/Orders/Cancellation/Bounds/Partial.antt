-- ===== src/Orders/Cancellation/Bounds/Partial.antt =====
-- The quantity refunded of an item when a seller order is cancelled (Orders/Cancellation/Part).
use multi_marketplace.Base.{ℕ, ℤ, String, List, Option, none, some, All}
use multi_marketplace.Store.{
  Order, SellerOrder, OrderItem, Payment, Action, Error, bad_request, conflict, forbidden,
  not_found, unique_violation, record_missing, gets, ◌>>=◌, ◌===◌, string_eq,
}
use multi_marketplace.Store.Rules.{Preserved, Preserved-apply, gets_then-Preserved}
use multi_marketplace.Repository.Orders.{items_of}
use multi_marketplace.Orders.Shipping.{WithOrder}
use multi_marketplace.Orders.Cancellation.{Totals}
use multi_marketplace.Orders.Cancellation.Refunds.{IsItemKey, Safe, IsListed, select-IsListed}
use multi_marketplace.Orders.Cancellation.Bounds.{leaves}
use multi_marketplace.Orders.Cancellation.Part.{
  Canceller, settle_cancelled, return_cancelled, cancel_owned, cancel_part_body,
  attempt_cancellation, recover_cancellation, cancel_or_again, cancel_seller_order,
}

module _ (column : ℤ → ℤ) (items : List OrderItem) (x : String) where
  settle_cancelled-Safe :
      (key reason : String) (p : Option Payment) (now : ℕ) (s : SellerOrder) (o : Order)
      (t : Totals)
      → Preserved (Safe items x) (settle_cancelled column key reason p now s o t)
  unfolding settle_cancelled
  settle_cancelled-Safe key reason p now s o t = search leaves depth 12

  return_cancelled-Safe :
      (key reason : String) (p : Option Payment) (now : ℕ) (s : SellerOrder) (o : Order)
      (is : List OrderItem)
      → All (IsListed items) is
      → Preserved (Safe items x) (return_cancelled column key reason p now s o is)
  unfolding return_cancelled
  return_cancelled-Safe key reason p now s o is listed = search (leaves, settle_cancelled-Safe)

  cancel_owned-Safe :
      (by : Canceller) (key reason : String) (now : ℕ) (so : WithOrder) (ps : List Payment)
      (is : List OrderItem)
      → All (IsListed items) is
      → Preserved (Safe items x) (cancel_owned column by key reason now so ps is)
  unfolding cancel_owned
  cancel_owned-Safe by key reason now (s, o) ps is listed =
      search (leaves, return_cancelled-Safe) depth 7

  with_items-Safe :
      {A : Type 0}
      → IsItemKey items
      → (id : String) (k : List OrderItem → Action A)
      → ((is : List OrderItem) → All (IsListed items) is → Preserved (Safe items x) (k is))
      → Preserved (Safe items x) (gets (items_of id) >>= k)
  unfolding items_of
  with_items-Safe key id k safe = gets_then-Preserved (Safe items x) (items_of id) k (λ w h.
      Preserved-apply (Safe items x) (k (items_of id w))
        (safe (items_of id w) (rw h.0 (select-IsListed (λ i. i.seller_order_id === id) items key)))
        w h)

  cancel_part_body-Safe :
      IsItemKey items
      → (by : Canceller) (id key reason : String) (now : ℕ)
      → Preserved (Safe items x) (cancel_part_body column by id key reason now)
  unfolding cancel_part_body
  cancel_part_body-Safe unique by id key reason now =
      search (leaves, with_items-Safe unique, cancel_owned-Safe) depth 9

  recover_cancellation-Safe :
      (key : String) (e : Error) → Preserved (Safe items x) (recover_cancellation key e)
  unfolding recover_cancellation
  recover_cancellation-Safe key unique_violation = search leaves
  recover_cancellation-Safe key (bad_request r) = search leaves
  recover_cancellation-Safe key (conflict r) = search leaves
  recover_cancellation-Safe key (forbidden r) = search leaves
  recover_cancellation-Safe key (not_found r) = search leaves
  recover_cancellation-Safe key record_missing = search leaves

  attempt_cancellation-Safe :
      IsItemKey items
      → (by : Canceller) (id key reason : String) (now : ℕ)
      → Preserved (Safe items x) (attempt_cancellation column by id key reason now)
  unfolding attempt_cancellation
  attempt_cancellation-Safe unique by id key reason now =
      search (leaves, cancel_part_body-Safe unique) depth 12

  cancel_or_again-Safe :
      IsItemKey items
      → (by : Canceller) (id key reason : String) (now : ℕ) (existing : Option SellerOrder)
      → Preserved (Safe items x) (cancel_or_again column by id key reason now existing)
  cancel_or_again-Safe unique by id key reason now (some s) = search leaves
  cancel_or_again-Safe unique by id key reason now none =
      search (leaves, attempt_cancellation-Safe unique, recover_cancellation-Safe)

  pub cancel_seller_order-Safe :
      IsItemKey items
      → (by : Canceller) (id key reason : String) (now : ℕ)
      → Preserved (Safe items x) (cancel_seller_order column by id key reason now)
  unfolding cancel_seller_order
  cancel_seller_order-Safe unique by id key reason now =
      search (leaves, cancel_or_again-Safe unique)
