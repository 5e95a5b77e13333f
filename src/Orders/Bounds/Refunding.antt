-- ===== src/Orders/Bounds/Refunding.antt =====
-- The items of orders under `refundOrderItem` (Orders/Refund).
use multi_marketplace.Base.{ℕ, ℤ, ◌≡◌, ap, ◌∙◌, String, List, Option, none, some}
use multi_marketplace.Store.{
  World, OrderItem, Payment, Refund, Action, Error, bad_request, conflict, forbidden, not_found,
  unique_violation, record_missing,
}
use multi_marketplace.Store.Rules.{Preserved, Preserved-apply, preserved}
use multi_marketplace.Repository.Orders.Creation.{RefundData, create_refund}
use multi_marketplace.Orders.Books.{ReadsBooks, reads_books, keeps_books}
use multi_marketplace.Orders.Refund.{
  ItemDetails, Refunded, settle_refund, record_refund, refund_locked, refund_item, refund_body,
  recover_refund, refund_or_again, attempt_refund, refund_order_item,
}
use multi_marketplace.Orders.Refund.Quantity.{refund_order_item-Within}
use multi_marketplace.Orders.Cancellation.Refunds.{Safe, create_refund-books}

module _ (items : List OrderItem) where
  abbrev Same : World → Type 0
  Same w = w.order_items ≡ items

  Same-reads : ReadsBooks Same
  Same-reads = reads_books Same (λ w w' e h. ap (λ b. b.0) e ∙ h)

  module _ (column : ℤ → ℤ) where
    create_refund-Same :
        (d : RefundData) (key : String) → Preserved Same (create_refund column d key)
    create_refund-Same d key =
        preserved Same (create_refund column d key)
          (λ w h. (create_refund-books column d key w).0 ∙ h)

    settle_refund-Same :
        (d : ItemDetails) (p : Payment) (q : ℕ) (key : String) (r : Refund)
        → Preserved Same (settle_refund column d p q key r)
    unfolding settle_refund
    settle_refund-Same d p q key r = search (keeps_books, Same-reads) depth 16

    record_refund-Same :
        (d : ItemDetails) (p : Payment) (q : ℕ) (reason key : String) (now : ℕ)
        → Preserved Same (record_refund column d p q reason key now)
    unfolding record_refund
    record_refund-Same d p q reason key now =
        search (keeps_books, create_refund-Same, settle_refund-Same)

    refund_item-Same :
        (d : ItemDetails) (q : ℕ) (reason key : String) (now : ℕ)
        → Preserved Same (refund_item column d q reason key now)
    unfolding refund_item refund_locked
    refund_item-Same d q reason key now =
        search (keeps_books, Same-reads, record_refund-Same) depth 12

    recover_refund-Same : (key : String) (e : Error) → Preserved Same (recover_refund key e)
    unfolding recover_refund
    recover_refund-Same key unique_violation = search keeps_books
    recover_refund-Same key (bad_request r) = search keeps_books
    recover_refund-Same key (conflict r) = search keeps_books
    recover_refund-Same key (forbidden r) = search keeps_books
    recover_refund-Same key (not_found r) = search keeps_books
    recover_refund-Same key record_missing = search keeps_books

    refund_body-Same :
        (user y : String) (q : ℕ) (reason key : String) (now : ℕ)
        → Preserved Same (refund_body column user y q reason key now)
    unfolding refund_body
    refund_body-Same user y q reason key now = search (keeps_books, refund_item-Same) depth 12

    attempt_refund-Same :
        (user y : String) (q : ℕ) (reason key : String) (now : ℕ)
        → Preserved Same (attempt_refund column user y q reason key now)
    attempt_refund-Same user y q reason key now =
        search (keeps_books, Same-reads, refund_body-Same) depth 12

    refund_or_again-Same :
        (y : String) (q : ℕ) (existing : Option Refund) (attempt : Action Refunded)
        → Preserved Same attempt
        → Preserved Same (refund_or_again column y q existing attempt)
    refund_or_again-Same y q (some r) attempt h = search (keeps_books)
    refund_or_again-Same y q none attempt h = search keeps_books

    refund_order_item-Same :
        (user y : String) (q : ℕ) (reason key : String) (now : ℕ)
        → Preserved Same (refund_order_item column user y q reason key now)
    unfolding refund_order_item
    refund_order_item-Same user y q reason key now =
        search (keeps_books, refund_or_again-Same, attempt_refund-Same, recover_refund-Same) depth 9

    pub refund_order_item-Safe :
        (x user y : String) (q : ℕ) (reason key : String) (now : ℕ)
        → Preserved (Safe items x) (refund_order_item column user y q reason key now)
    refund_order_item-Safe x user y q reason key now =
        preserved (Safe items x) (refund_order_item column user y q reason key now) (λ w h. (
          Preserved-apply Same (refund_order_item column user y q reason key now)
              (refund_order_item-Same user y q reason key now) w h.0,
          refund_order_item-Within column x user y q reason key now w h.1,
        ))
