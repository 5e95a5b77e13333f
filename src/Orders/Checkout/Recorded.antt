-- ===== src/Orders/Checkout/Recorded.antt =====
-- The rows that a checkout adds to the tables (Orders/Checkout).
use multi_marketplace.Base.{ℤ, ◌≡◌, refl, sym, ap, ◌∙◌, String, List, [], ◌∷◌, arith, map, ◌++◌}
use multi_marketplace.Store.{
  World, Order, OrderItem, SellerOrder, Payment, PaymentStatus, SellerOrderStatus, string_eq,
}
use multi_marketplace.Store.Frame.{Keeps, Keeps->>=}
use multi_marketplace.Repository.Products
use multi_marketplace.Repository.Outbox
use multi_marketplace.Repository.Orders.Stored.{
  OrderStored, order_tables, Part, part, part_of, filed, all_to_file,
}
use multi_marketplace.Orders.Checkout.{
  Line, Tally, Group, seller_order_data, tally_line, take_line, order_data, take_lines,
}

-- What a group of the cart's lines becomes: a new seller order, for that seller and subtotal.
abbrev pub group_part : String → Group → Part
group_part order g = (order, g.seller_id, SellerOrderStatus.new, g.subtotal)

take_line-tables : (key : String) (l : Line) → Keeps order_tables (take_line key l)
unfolding take_line Products.decrement_stock_for_checkout Outbox.create
take_line-tables key l w = ground arith

pub take_lines-tables :
    (key : String) (ls : List Line) (t : Tally) → Keeps order_tables (take_lines key ls t)
unfolding take_lines
take_lines-tables key [] t w = refl
take_lines-tables key (l ∷ ls) t w =
    Keeps->>= order_tables (take_line key l) (λ _. take_lines key ls (tally_line l t))
      (take_line-tables key l) (λ _. take_lines-tables key ls (tally_line l t)) w

group-parts :
    (key order : String) (gs : List Group)
    → (map (part_of order) (map (seller_order_data key) gs) ≡ map (group_part order) gs)
      × (map (λ d. d.items) (map (seller_order_data key) gs) ≡ map (λ g. g.items) gs)
group-parts key order [] = (refl, refl)
group-parts key order (g ∷ gs) =
    let (parts, items) = group-parts key order gs in
    (ap (λ xs. group_part order g ∷ xs) parts, ap (λ xs. g.items ∷ xs) items)

module _ (column : ℤ → ℤ) (user key : String) where
  -- The order is stored, with a payment that is pending, and a seller order for each group, with the
  -- items of the group.
  abbrev pub IsRecorded : List Group → Order → World → World → Type 0
  IsRecorded groups order w w' =
      (w'.orders ≡ w.orders ++ order ∷ [])
      × (m : Payment) × (w'.payments ≡ w.payments ++ m ∷ [])
      × (m.order_id ≡ order.id)
      × (m.status ≡ PaymentStatus.pending)
      × (m.amount ≡ order.total_amount)
      × (m.idempotency_key ≡ key)
      × (ss : List SellerOrder) × (w'.seller_orders ≡ w.seller_orders ++ ss)
      × (map part ss ≡ map (group_part order.id) groups)
      × (is : List OrderItem) × (w'.order_items ≡ w.order_items ++ is)
      × (map filed is ≡ all_to_file ss (map (λ g. g.items) groups))

  pub OrderStored-IsRecorded :
      (t : Tally) (o : Order) (w w' : World)
      → o.total_amount ≡ t.0
      → OrderStored column (order_data user key t) w o w'
      → IsRecorded t.1 o w w'
  OrderStored-IsRecorded t o w w' total
        (orders, m, payments, of, status, amount, named, ss, sellers, rows, is, items, same) =
      let (parts, goods) = group-parts key o.id t.1 in
      (
        orders,
        m,
        payments,
        of,
        status,
        amount ∙ sym total,
        named,
        ss,
        sellers,
        rows ∙ parts,
        is,
        items,
        same ∙ ap (all_to_file ss) goods,
      )

  -- The same from earlier tables.
  pub IsRecorded-before :
      (groups : List Group) (o : Order) (w v w' : World)
      → order_tables v ≡ order_tables w
      → IsRecorded groups o v w'
      → IsRecorded groups o w w'
  IsRecorded-before groups o w v w' before
        (orders, m, payments, of, status, amount, named, ss, sellers, rows, is, items, same) =
      (
        orders ∙ ap (λ t. t.0 ++ o ∷ []) before,
        m,
        payments ∙ ap (λ t. t.1 ++ m ∷ []) before,
        of,
        status,
        amount,
        named,
        ss,
        sellers ∙ ap (λ t. t.2 ++ ss) before,
        rows,
        is,
        items ∙ ap (λ t. t.3 ++ is) before,
        same,
      )
