-- ===== src/Orders/Cancellation/Bounds/Voided.antt =====
-- The quantity refunded of an item when a payment is cancelled (Orders/Cancellation/Unpaid).
use multi_marketplace.Base.{ℕ, ℤ, String, Bool, true, false, List, Option, none, some}
use multi_marketplace.Store.{
  Order, OrderItem, Payment, Error, bad_request, conflict, forbidden, not_found, unique_violation,
  record_missing,
}
use multi_marketplace.Store.Rules.{Preserved}
use multi_marketplace.Orders.Cancellation.{Part}
use multi_marketplace.Orders.Cancellation.Refunds.{Safe}
use multi_marketplace.Orders.Cancellation.Bounds.{leaves}
use multi_marketplace.Orders.Cancellation.Unpaid.{
  close_void, recover_void, void_item, void_claimed, void_if_claimed, void_open,
  void_unless_cancelled, void_part, void_parts, void_body, void_or_again, cancel_payment,
}

module _ (column : ℤ → ℤ) (items : List OrderItem) (x : String) where
  void_item-Safe :
      (key order : String) (i : OrderItem) → Preserved (Safe items x) (void_item key order i)
  unfolding void_item
  void_item-Safe key order i = search leaves

  void_claimed-Safe :
      (key order : String) (part : Part)
      → Preserved (Safe items x) (void_claimed column key order part)
  unfolding void_claimed
  void_claimed-Safe key order (s, is) = search (leaves, void_item-Safe)

  void_if_claimed-Safe :
      (key order : String) (part : Part) (b : Bool)
      → Preserved (Safe items x) (void_if_claimed column key order part b)
  void_if_claimed-Safe key order part true = search leaves
  void_if_claimed-Safe key order part false = void_claimed-Safe key order part

  void_open-Safe :
      (key order : String) (now : ℕ) (part : Part)
      → Preserved (Safe items x) (void_open column key order now part)
  unfolding void_open
  void_open-Safe key order now part = search (leaves, void_if_claimed-Safe)

  void_unless_cancelled-Safe :
      (key order : String) (now : ℕ) (part : Part) (b : Bool)
      → Preserved (Safe items x) (void_unless_cancelled column key order now part b)
  void_unless_cancelled-Safe key order now part true = search leaves
  void_unless_cancelled-Safe key order now part false = void_open-Safe key order now part

  void_part-Safe :
      (key order : String) (now : ℕ) (part : Part)
      → Preserved (Safe items x) (void_part column key order now part)
  unfolding void_part
  void_part-Safe key order now part = search void_unless_cancelled-Safe

  close_void-Safe :
      (key : String) (o : Order) (p : Payment) → Preserved (Safe items x) (close_void key o p)
  unfolding close_void
  close_void-Safe key o p = search leaves

  void_parts-Safe :
      (key : String) (o : Order) (p : Payment) (now : ℕ) (parts : List Part)
      → Preserved (Safe items x) (void_parts column key o p now parts)
  unfolding void_parts
  void_parts-Safe key o p now parts = search (leaves, void_part-Safe, close_void-Safe)

  void_body-Safe :
      (user order key : String) (now : ℕ)
      → Preserved (Safe items x) (void_body column user order key now)
  unfolding void_body
  void_body-Safe user order key now = search (leaves, void_parts-Safe) depth 12

  recover_void-Safe : (key : String) (e : Error) → Preserved (Safe items x) (recover_void key e)
  unfolding recover_void
  recover_void-Safe key unique_violation = search leaves
  recover_void-Safe key (bad_request r) = search leaves
  recover_void-Safe key (conflict r) = search leaves
  recover_void-Safe key (forbidden r) = search leaves
  recover_void-Safe key (not_found r) = search leaves
  recover_void-Safe key record_missing = search leaves

  void_or_again-Safe :
      (user order key : String) (now : ℕ) (existing : Option Order)
      → Preserved (Safe items x) (void_or_again column user order key now existing)
  void_or_again-Safe user order key now (some o) = search leaves
  void_or_again-Safe user order key now none = search (leaves, void_body-Safe, recover_void-Safe)

  pub cancel_payment-Safe :
      (user order key : String) (now : ℕ)
      → Preserved (Safe items x) (cancel_payment column user order key now)
  unfolding cancel_payment
  cancel_payment-Safe user order key now = search (leaves, void_or_again-Safe)
