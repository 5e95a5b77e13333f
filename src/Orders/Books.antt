-- ===== src/Orders/Books.antt =====
-- The tables of order items and refunds under the calls that the operations on orders make.
use multi_marketplace.Base.{ℕ, ℤ, ◌≡◌, refl, String, List, Option, none, some, arith}
use multi_marketplace.Store.{
  World, SellerOrder, OrderItem, Payment, OrderStatus, SellerOrderStatus, Refund, Signal, Action,
  send,
}
use multi_marketplace.Store.Frame.{Keeps, Keeps-for_each}
use multi_marketplace.Store.Rules.{Preserved, Keeps-Preserved, chains}
use multi_marketplace.Repository.Products
use multi_marketplace.Repository.Outbox
use multi_marketplace.Repository.Outbox.{EventData}
use multi_marketplace.Repository.Orders.{
  update_payment, update_seller_order, update_order_status, claim_seller_order_cancellation,
  claim_order_cancellation, update_order_payment_pending, update_seller_orders_payment_pending,
  update_seller_orders_processing,
}
use multi_marketplace.Repository.Orders.Creation.{
  LedgerData, create_ledger_entry, create_ledger_entries,
}
use multi_marketplace.Orders.Cancellation.{mark_refunded}

-- What bears on how much of an item may be refunded.
abbrev pub books : World → List OrderItem × List Refund
books w = (w.order_items, w.refunds)

update_payment-Keeps : (id : String) (f : Payment → Payment) → Keeps books (update_payment id f)
unfolding update_payment
update_payment-Keeps id f w = refl

update_seller_order-Keeps :
    (id : String) (f : SellerOrder → SellerOrder) → Keeps books (update_seller_order id f)
unfolding update_seller_order
update_seller_order-Keeps id f w = refl

update_order_status-Keeps :
    (id : String) (status : OrderStatus) → Keeps books (update_order_status id status)
unfolding update_order_status
update_order_status-Keeps id status w = refl

claim_seller_order-Keeps :
    (id : String) (ss : List SellerOrderStatus) (reason : String) (now : ℕ)
    → Keeps books (claim_seller_order_cancellation id ss reason now)
unfolding claim_seller_order_cancellation
claim_seller_order-Keeps id ss reason now w = refl

claim_order-Keeps : (id : String) → Keeps books (claim_order_cancellation id)
unfolding claim_order_cancellation
claim_order-Keeps id w = refl

outbox_create-Keeps : (d : EventData) → Keeps books (Outbox.create d)
unfolding Outbox.create
outbox_create-Keeps d w = ground arith

create_many-Keeps : (ds : List EventData) → Keeps books (Outbox.create_many ds)
unfolding Outbox.create_many
create_many-Keeps ds = Keeps-for_each books ds Outbox.create outbox_create-Keeps

increment_stock-Keeps : (id : String) (n : ℕ) → Keeps books (Products.increment_stock id n)
unfolding Products.increment_stock
increment_stock-Keeps id n w = ground arith

mark_refunded-Keeps : (p : Option Payment) → Keeps books (mark_refunded p)
unfolding mark_refunded update_payment
mark_refunded-Keeps none w = refl
mark_refunded-Keeps (some p) w = refl

ledger_entry-Keeps : (column : ℤ → ℤ) (d : LedgerData) → Keeps books (create_ledger_entry column d)
unfolding create_ledger_entry
ledger_entry-Keeps column d w = ground arith

ledger_entries-Keeps :
    (column : ℤ → ℤ) (ds : List LedgerData) → Keeps books (create_ledger_entries column ds)
unfolding create_ledger_entries
ledger_entries-Keeps column ds =
    Keeps-for_each books ds (create_ledger_entry column) (ledger_entry-Keeps column)

order_pending-Keeps : (id : String) → Keeps books (update_order_payment_pending id)
unfolding update_order_payment_pending
order_pending-Keeps id w = refl

seller_orders_pending-Keeps : (id : String) → Keeps books (update_seller_orders_payment_pending id)
unfolding update_seller_orders_payment_pending
seller_orders_pending-Keeps id w = refl

seller_orders_processing-Keeps : (id : String) → Keeps books (update_seller_orders_processing id)
unfolding update_seller_orders_processing
seller_orders_processing-Keeps id w = refl

-- `P` depends on the tables through the items and the refunds only.
unfoldable pub ReadsBooks : (World → Type 0) → Type 0
ReadsBooks P = (w w' : World) → books w' ≡ books w → P w → P w'

pub reads_books :
    (P : World → Type 0) → ((w w' : World) → books w' ≡ books w → P w → P w') → ReadsBooks P
unfolding ReadsBooks
reads_books P carry = carry

-- The calls that leave the refunds and the items alone.
module _ (P : World → Type 0) (carry : ReadsBooks P) where
  pub by_books : {A : Type 0} (m : Action A) → Keeps books m → Preserved P m
  unfolding ReadsBooks
  by_books m = Keeps-Preserved P books carry m

  pub outbox_create_kept : (d : EventData) → Preserved P (Outbox.create d)
  outbox_create_kept d = by_books (Outbox.create d) (outbox_create-Keeps d)

  pub create_many_kept : (ds : List EventData) → Preserved P (Outbox.create_many ds)
  create_many_kept ds = by_books (Outbox.create_many ds) (create_many-Keeps ds)

  pub update_payment_kept :
      (id : String) (f : Payment → Payment) → Preserved P (update_payment id f)
  update_payment_kept id f = by_books (update_payment id f) (update_payment-Keeps id f)

  pub update_seller_order_kept :
      (id : String) (f : SellerOrder → SellerOrder) → Preserved P (update_seller_order id f)
  update_seller_order_kept id f =
      by_books (update_seller_order id f) (update_seller_order-Keeps id f)

  pub update_order_status_kept :
      (id : String) (status : OrderStatus) → Preserved P (update_order_status id status)
  update_order_status_kept id status =
      by_books (update_order_status id status) (update_order_status-Keeps id status)

  pub claim_seller_order_kept :
      (id : String) (ss : List SellerOrderStatus) (reason : String) (now : ℕ)
      → Preserved P (claim_seller_order_cancellation id ss reason now)
  claim_seller_order_kept id ss reason now =
      by_books (claim_seller_order_cancellation id ss reason now)
        (claim_seller_order-Keeps id ss reason now)

  pub claim_order_kept : (id : String) → Preserved P (claim_order_cancellation id)
  claim_order_kept id = by_books (claim_order_cancellation id) (claim_order-Keeps id)

  pub increment_stock_kept : (id : String) (n : ℕ) → Preserved P (Products.increment_stock id n)
  increment_stock_kept id n = by_books (Products.increment_stock id n) (increment_stock-Keeps id n)

  pub mark_refunded_kept : (p : Option Payment) → Preserved P (mark_refunded p)
  mark_refunded_kept p = by_books (mark_refunded p) (mark_refunded-Keeps p)

  pub ledger_entries_kept :
      (column : ℤ → ℤ) (ds : List LedgerData) → Preserved P (create_ledger_entries column ds)
  ledger_entries_kept column ds =
      by_books (create_ledger_entries column ds) (ledger_entries-Keeps column ds)

  pub send_kept : (s : Signal) → Preserved P (send s)
  send_kept s = by_books (send s) (λ w. refl)

  pub ledger_entry_kept :
      (column : ℤ → ℤ) (d : LedgerData) → Preserved P (create_ledger_entry column d)
  ledger_entry_kept column d = by_books (create_ledger_entry column d) (ledger_entry-Keeps column d)

  pub order_pending_kept : (id : String) → Preserved P (update_order_payment_pending id)
  order_pending_kept id = by_books (update_order_payment_pending id) (order_pending-Keeps id)

  pub seller_orders_pending_kept :
      (id : String) → Preserved P (update_seller_orders_payment_pending id)
  seller_orders_pending_kept id =
      by_books (update_seller_orders_payment_pending id) (seller_orders_pending-Keeps id)

  pub seller_orders_processing_kept :
      (id : String) → Preserved P (update_seller_orders_processing id)
  seller_orders_processing_kept id =
      by_books (update_seller_orders_processing id) (seller_orders_processing-Keeps id)

pub ruleset keeps_books = (
  chains, outbox_create_kept, create_many_kept, update_payment_kept, update_seller_order_kept,
  update_order_status_kept, claim_seller_order_kept, claim_order_kept, increment_stock_kept,
  mark_refunded_kept, ledger_entries_kept, ledger_entry_kept, send_kept, order_pending_kept,
  seller_orders_pending_kept, seller_orders_processing_kept,
)
