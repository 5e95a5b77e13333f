-- ===== src/Repository/Orders/Stored.antt =====
-- The rows that the insert of an order leaves (Repository/Orders/Creation).
use multi_marketplace.Base.{
  ℕ, ℤ, ◌≡◌, refl, sym, ap, ◌∙◌, arith, String, List, [], ◌∷◌, ◌++◌, map, suc,
}
use mathlib.Core.List.{append_assoc, append-nil, map-append}
use multi_marketplace.Store.{
  World, Order, SellerOrder, OrderItem, Payment, SellerOrderStatus, ok, for_each,
}
use multi_marketplace.Store.Frame.{Keeps, Keeps-for_each, >>=-eq-ok}
use multi_marketplace.Repository.Outbox
use multi_marketplace.Repository.Outbox.{EventData}
use multi_marketplace.Repository.Orders.Creation.{
  OrderData, SellerOrderData, ItemData, LedgerData, create_item, create_ledger_entry,
  create_seller_order, create_order, item_row, seller_order_row, order_row, payment_row,
}

-- What is stored of an item: its seller order, its product, the quantity, the price and their product.
abbrev pub FiledItem : Type 0
FiledItem = String × String × ℕ × ℕ × ℕ

abbrev pub filed : OrderItem → FiledItem
filed i = (i.seller_order_id, i.product_id, i.quantity, i.unit_price, i.total_amount)

abbrev pub to_file : String → ItemData → FiledItem
to_file s d = (s, d.product_id, d.quantity, d.unit_price, d.total_amount)

-- The items of each seller order, under its identifier.
abbrev pub all_to_file : List SellerOrder → List (List ItemData) → List FiledItem
all_to_file [] dss = []
all_to_file (s ∷ ss) [] = []
all_to_file (s ∷ ss) (ds ∷ dss) = map (to_file s.id) ds ++ all_to_file ss dss

-- What is stored of a seller order: its order, its seller, its status, and what it comes to.
abbrev pub Part : Type 0
Part = String × String × SellerOrderStatus × ℕ

abbrev pub part : SellerOrder → Part
part s = (s.order_id, s.seller_id, s.status, s.subtotal)

abbrev pub part_of : String → SellerOrderData → Part
part_of order d = (order, d.seller_id, d.status, d.subtotal)

-- The orders, payments, seller orders and items.
abbrev pub order_tables : World → List Order × List Payment × List SellerOrder × List OrderItem
order_tables w = (w.orders, w.payments, w.seller_orders, w.order_items)

abbrev ItemsFiled : String → List ItemData → World → World → Type 0
ItemsFiled s ds w w' =
    (w'.orders ≡ w.orders)
    × (w'.payments ≡ w.payments)
    × (w'.seller_orders ≡ w.seller_orders)
    × (is : List OrderItem) × (w'.order_items ≡ w.order_items ++ is)
    × (map filed is ≡ map (to_file s) ds)

create_items-filed :
    (s : String) (ds : List ItemData) (w : World)
    → ItemsFiled s ds w (for_each ds (create_item s) w).1
unfolding for_each create_item
create_items-filed s [] w = (refl, refl, refl, [], sym (append-nil w.order_items), refl)
create_items-filed s (d ∷ ds) w =
    let (os, ps, ss, is, items, same) = create_items-filed s ds (create_item s d w).1 in
    (
      os,
      ps,
      ss,
      item_row (w.uuid w.drawn) s d ∷ is,
      items ∙ append_assoc w.order_items (item_row (w.uuid w.drawn) s d ∷ []) is,
      ap (λ xs. to_file s d ∷ xs) same,
    )

module _ (column : ℤ → ℤ) where
  create_ledger_entry-Keeps : (d : LedgerData) → Keeps order_tables (create_ledger_entry column d)
  unfolding create_ledger_entry
  create_ledger_entry-Keeps d w = ground arith

  abbrev PartStored : String → SellerOrderData → World → World → Type 0
  PartStored order d w w' =
      (w'.orders ≡ w.orders)
      × (w'.payments ≡ w.payments)
      × (s : SellerOrder) × (w'.seller_orders ≡ w.seller_orders ++ s ∷ [])
      × (part s ≡ part_of order d)
      × (is : List OrderItem) × (w'.order_items ≡ w.order_items ++ is)
      × (map filed is ≡ map (to_file s.id) d.items)

  create_seller_order-PartStored :
      (order : String) (d : SellerOrderData) (w : World) {r : Unit {0}} {w' : World}
      → create_seller_order column order d w ≡ (ok r, w')
      → PartStored order d w w'
  unfolding create_seller_order
  create_seller_order-PartStored order d w {r} {w'} e =
      let id = w.uuid w.drawn in
      let row = seller_order_row column id order d in
      let v : World = record w {
        drawn = suc w.drawn;
        seller_orders = w.seller_orders ++ row ∷ [];
      } in
      let (os, ps, ss, is, items, same) = create_items-filed id d.items v in
      let kept : order_tables w' ≡ order_tables (for_each d.items (create_item id) v).1 =
        grind (arith, e, create_ledger_entry-Keeps) in
      (
        ap (λ t. t.0) kept ∙ os,
        ap (λ t. t.1) kept ∙ ps,
        row,
        ap (λ t. t.2) kept ∙ ss,
        refl,
        is,
        ap (λ t. t.3) kept ∙ items,
        same,
      )

  -- What the insert of the seller orders of an order leaves.
  abbrev PartsStored : String → List SellerOrderData → World → World → Type 0
  PartsStored order ds w w' =
      (w'.orders ≡ w.orders)
      × (w'.payments ≡ w.payments)
      × (ss : List SellerOrder) × (w'.seller_orders ≡ w.seller_orders ++ ss)
      × (map part ss ≡ map (part_of order) ds)
      × (is : List OrderItem) × (w'.order_items ≡ w.order_items ++ is)
      × (map filed is ≡ all_to_file ss (map (λ d. d.items) ds))

  create_seller_orders-PartsStored :
      (order : String) (ds : List SellerOrderData) (w : World) {r : Unit {0}} {w' : World}
      → for_each ds (create_seller_order column order) w ≡ (ok r, w')
      → PartsStored order ds w w'
  unfolding for_each
  create_seller_orders-PartsStored order [] w {w' = w'} e =
      let same : w' ≡ w = ground arith in
      (
        ap (λ t. t.orders) same,
        ap (λ t. t.payments) same,
        [],
        ap (λ t. t.seller_orders) same ∙ sym (append-nil w.seller_orders),
        refl,
        [],
        ap (λ t. t.order_items) same ∙ sym (append-nil w.order_items),
        refl,
      )
  create_seller_orders-PartsStored order (d ∷ ds) w {w' = w'} e =
      let (_, v, made, e1) =
        >>=-eq-ok (create_seller_order column order d)
          (λ _. for_each ds (create_seller_order column order)) w e in
      let (os, ps, s, sellers, row, is, items, same) =
        create_seller_order-PartStored order d w {w' = v} made in
      let (os', ps', ss, sellers', rows, is', items', same') =
        create_seller_orders-PartsStored order ds v {w' = w'} e1 in
      (
        os' ∙ os,
        ps' ∙ ps,
        s ∷ ss,
        sellers' ∙ ap (λ xs. xs ++ ss) sellers ∙ append_assoc w.seller_orders (s ∷ []) ss,
        rw (row, rows) refl,
        is ++ is',
        items' ∙ ap (λ xs. xs ++ is') items ∙ append_assoc w.order_items is is',
        map-append filed is is' ∙ rw (same, same') refl,
      )

  -- The rows of an order that is inserted: itself, one payment, its seller orders with their items.
  abbrev pub OrderStored : OrderData → World → Order → World → Type 0
  OrderStored d w o w' =
      (w'.orders ≡ w.orders ++ o ∷ [])
      × (p : Payment) × (w'.payments ≡ w.payments ++ p ∷ [])
      × (p.order_id ≡ o.id)
      × (p.status ≡ d.payment_status)
      × (p.amount ≡ d.total_amount)
      × (p.idempotency_key ≡ d.payment_key)
      × (ss : List SellerOrder) × (w'.seller_orders ≡ w.seller_orders ++ ss)
      × (map part ss ≡ map (part_of o.id) d.seller_orders)
      × (is : List OrderItem) × (w'.order_items ≡ w.order_items ++ is)
      × (map filed is ≡ all_to_file ss (map (λ e. e.items) d.seller_orders))

  pub create_order-OrderStored :
      (d : OrderData) (w : World) {o : Order} {w' : World}
      → create_order column d w ≡ (ok o, w')
      → OrderStored d w o w'
  unfolding create_order
  create_order-OrderStored d w {o} {w'} e =
      let id = w.uuid w.drawn in
      let row = order_row column id d in
      let paid = payment_row column (w.uuid (suc w.drawn)) id d in
      let v : World = record w {
        drawn = suc (suc w.drawn);
        orders = w.orders ++ row ∷ [];
        payments = w.payments ++ paid ∷ [];
      } in
      let went : for_each d.seller_orders (create_seller_order column id) v ≡ (ok tt, w') =
        ground (arith, e) in
      let result : o ≡ row = ground (arith, e) in
      let (os, ps, ss, sellers, rows, is, items, same) =
        create_seller_orders-PartsStored id d.seller_orders v {w' = w'} went in
      (
        os ∙ ap (λ x. w.orders ++ x ∷ []) (sym result),
        paid,
        ps,
        ap (λ x. x.id) (sym result),
        refl,
        refl,
        refl,
        ss,
        sellers,
        rows ∙ ap (λ x. map (part_of x.id) d.seller_orders) (sym result),
        is,
        items,
        same,
      )

  -- The insert's rows, where the tables are those before it and those after it.
  pub OrderStored-tables :
      (d : OrderData) (o : Order) (w v v' w' : World)
      → order_tables v ≡ order_tables w
      → order_tables w' ≡ order_tables v'
      → OrderStored d v o v'
      → OrderStored d w o w'
  OrderStored-tables d o w v v' w' before after
        (orders, p, payments, of, status, amount, key, ss, sellers, rows, is, items, same) =
      (
        ap (λ t. t.0) after ∙ orders ∙ ap (λ t. t.0 ++ o ∷ []) before,
        p,
        ap (λ t. t.1) after ∙ payments ∙ ap (λ t. t.1 ++ p ∷ []) before,
        of,
        status,
        amount,
        key,
        ss,
        ap (λ t. t.2) after ∙ sellers ∙ ap (λ t. t.2 ++ ss) before,
        rows,
        is,
        ap (λ t. t.3) after ∙ items ∙ ap (λ t. t.3 ++ is) before,
        same,
      )

outbox_create-Keeps : (d : EventData) → Keeps order_tables (Outbox.create d)
unfolding Outbox.create
outbox_create-Keeps d w = ground arith

pub create_many-order_tables : (ds : List EventData) → Keeps order_tables (Outbox.create_many ds)
unfolding Outbox.create_many
create_many-order_tables ds = Keeps-for_each order_tables ds Outbox.create outbox_create-Keeps

-- A list that a function takes to a list of one.
pub map-single :
    {A B : Type 0} (f : A → B) (xs : List A) (y : B)
    → map f xs ≡ y ∷ []
    → (x : A) × (xs ≡ x ∷ []) × (f x ≡ y)
map-single f [] y e = absurd (ground (arith, e))
map-single f (x ∷ []) y e = (x, refl, ground (arith, e))
map-single f (x ∷ z ∷ zs) y e = absurd (ground (arith, e))
