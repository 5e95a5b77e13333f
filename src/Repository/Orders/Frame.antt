-- ===== src/Repository/Orders/Frame.antt =====
-- The inserts of orders: what they return, and the products and the auctions under them.
use multi_marketplace.Base.{ℤ, ◌≡◌, refl, arith, String, List}
use multi_marketplace.Store.{World, Product, Auction, Order, ok, for_each}
use multi_marketplace.Store.Frame.{Keeps, Keeps-for_each}
use multi_marketplace.Repository.Outbox
use multi_marketplace.Repository.Outbox.{EventData}
use multi_marketplace.Repository.Orders.Creation.{
  OrderData, SellerOrderData, ItemData, LedgerData, create_item, create_ledger_entry,
  create_seller_order, create_order,
}

-- What they leave alone.
abbrev pub shelf : World → List Product × List Auction
shelf w = (w.products, w.auctions)

module _ (column : ℤ → ℤ) where
  create_ledger_entry-Keeps : (d : LedgerData) → Keeps shelf (create_ledger_entry column d)
  unfolding create_ledger_entry
  create_ledger_entry-Keeps d w = ground arith

  create_item-Keeps : (s : String) (d : ItemData) → Keeps shelf (create_item s d)
  unfolding create_item
  create_item-Keeps s d w = refl

  create_items-Keeps : (s : String) (ds : List ItemData) → Keeps shelf (for_each ds (create_item s))
  create_items-Keeps s ds = Keeps-for_each shelf ds _ (create_item-Keeps s)

  create_seller_order-Keeps :
      (o : String) (d : SellerOrderData) → Keeps shelf (create_seller_order column o d)
  unfolding create_seller_order
  create_seller_order-Keeps o d w = grind (arith, create_ledger_entry-Keeps, create_items-Keeps)

  create_seller_orders-Keeps :
      (o : String) (ds : List SellerOrderData)
      → Keeps shelf (for_each ds (create_seller_order column o))
  create_seller_orders-Keeps o ds = Keeps-for_each shelf ds _ (create_seller_order-Keeps o)

  pub create_order-Keeps : (d : OrderData) → Keeps shelf (create_order column d)
  unfolding create_order
  create_order-Keeps d w = grind (arith, create_seller_orders-Keeps)

  -- The order that an insert returns.
  pub create_order-row :
      (d : OrderData) (w : World) {o : Order} {w' : World}
      → create_order column d w ≡ (ok o, w')
      → (o.user_id ≡ d.user_id) × (o.status ≡ d.status) × (o.total_amount ≡ d.total_amount)
  unfolding create_order
  create_order-row d w e = ground arith

pub outbox_create-Keeps : (d : EventData) → Keeps shelf (Outbox.create d)
unfolding Outbox.create
outbox_create-Keeps d w = ground arith

pub create_many-Keeps : (ds : List EventData) → Keeps shelf (Outbox.create_many ds)
unfolding Outbox.create_many
create_many-Keeps ds = Keeps-for_each shelf ds Outbox.create outbox_create-Keeps
