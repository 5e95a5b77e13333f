-- ===== src/Orders/Shipping/Parent.antt =====
-- A seller order and its order after `updateSellerOrderStatus`.
use multi_marketplace.Base.{
  ℕ, ◌≡◌, refl, sym, ◌∙◌, ap, String, List, Option, some, arith, str_eq, str_eq_refl, eq_of_str_eq,
  find_first-test, find_first-update_where, Option-cases, inl, inr,
}
use multi_marketplace.Store.{
  World, Order, SellerOrder, OrderStatus, SellerOrderStatus, ok, string_eq, order_status_eq,
  seller_order_status_eq,
}
use multi_marketplace.Store.Frame.{Keeps, Keeps-for_each, >>=-eq-ok}
use multi_marketplace.Repository.Outbox
use multi_marketplace.Repository.Outbox.{EventData, event_row}
use multi_marketplace.Repository.Orders.{
  find_by_id, find_seller_order, seller_order_statuses, seller_orders_of, update_seller_order,
  update_order_status,
}
use multi_marketplace.Orders.Status.{derive_order_status, assert_transition, legal_next}
use multi_marketplace.Orders.Shipping.{
  WithOrder, find_with_order, follow_up, set_parent, announce_move, with_status, move_seller_order,
  update_and_follow, update_seller_order_status, move, move_events,
}

-- What the events leave alone.
abbrev order_tables : World → List Order × List SellerOrder
order_tables w = (w.orders, w.seller_orders)

outbox_create-Keeps : (d : EventData) → Keeps order_tables (Outbox.create d)
unfolding Outbox.create
outbox_create-Keeps d w = ground arith

announce_move-eq :
    (s : SellerOrder) (o : Order) (status : SellerOrderStatus) (number : Option String) (now : ℕ)
    (next : OrderStatus) (w : World) {r : WithOrder} {w' : World}
    → announce_move s o status number now next w ≡ (ok r, w')
    → (r ≡ (move status number now s, with_status next o))
      × (w'.orders ≡ w.orders)
      × (w'.seller_orders ≡ w.seller_orders)
unfolding announce_move Outbox.create_many
announce_move-eq s o status number now next w e =
    let kept =
      Keeps-for_each order_tables (move_events s o status next) Outbox.create outbox_create-Keeps
        w in
    (ground arith, ground (arith, kept), ground (arith, kept))

set_parent-eq :
    (s : SellerOrder) (o : Order) (next : OrderStatus) (w : World) {w' : World}
    → find_by_id s.order_id w ≡ some o
    → set_parent s o next w ≡ (ok tt, w')
    → (find_by_id s.order_id w' ≡ some (with_status next o)) × (w'.seller_orders ≡ w.seller_orders)
unfolding set_parent update_order_status find_by_id
set_parent-eq s o next w there e = (
  ground (
    arith,
    there,
    find_first-test (λ p. str_eq p.id s.order_id) w.orders there,
    find_first-update_where (λ p. str_eq p.id s.order_id) (λ p. str_eq p.id s.order_id)
        (λ p. record p { status = next }) w.orders (λ p. refl),
  ),
  ground arith,
)

with_status-status : (next : OrderStatus) (o : Order) → (with_status next o).status ≡ next
with_status-status next o = ground arith

follow_up-IsDerived :
    (s : SellerOrder) (o : Order) (status : SellerOrderStatus) (number : Option String) (now : ℕ)
    (w : World) {r : WithOrder} {w' : World}
    → find_by_id s.order_id w ≡ some o
    → follow_up s o status number now w ≡ (ok r, w')
    → (r.1.status ≡ derive_order_status (seller_order_statuses s.order_id w'))
      × (find_by_id s.order_id w' ≡ some r.1)
      × (r.0 ≡ move status number now s)
      × (w'.seller_orders ≡ w.seller_orders)
unfolding follow_up find_by_id seller_order_statuses seller_orders_of
follow_up-IsDerived s o status number now w {w' = w'} there e =
    let next = derive_order_status (seller_order_statuses s.order_id w) in
    let (_, v, set, e1) =
      >>=-eq-ok (set_parent s o next) (λ _. announce_move s o status number now next) w e in
    let (row, same) = set_parent-eq s o next w there set in
    let (result, orders, sellers) = announce_move-eq s o status number now next v e1 in
    let level : w'.seller_orders ≡ w.seller_orders = sellers ∙ same in
    (
      rw (result, level) (with_status-status next o),
      rw (orders, result) row,
      ap (λ t. t.0) result,
      level,
    )

pub find_with_order-eq :
    (id : String) (w : World) {s : SellerOrder} {o : Order}
    → find_with_order id w ≡ some (s, o)
    → (find_seller_order id w ≡ some s) × (find_by_id s.order_id w ≡ some o)
unfolding find_with_order
find_with_order-eq id w e = (ground arith, ground arith)

-- A seller order that is there is found again, as the update leaves it.
update_seller_order-eq :
    (id : String) (f : SellerOrder → SellerOrder) (w : World) {s : SellerOrder} {w' : World}
    → ((t : SellerOrder) → (f t).id ≡ t.id)
    → find_seller_order id w ≡ some s
    → update_seller_order s.id f w ≡ (ok tt, w')
    → (find_seller_order id w' ≡ some (f s)) × (w'.orders ≡ w.orders)
unfolding update_seller_order find_seller_order
update_seller_order-eq id f w {s} keep there e =
    let id_of = find_first-test (λ t. str_eq t.id id) w.seller_orders there in
    let same = eq_of_str_eq s.id id id_of in
    let after =
      find_first-update_where (λ t. str_eq t.id id) (λ t. str_eq t.id s.id) f w.seller_orders
        (λ t. rw (keep t)) in
    (ground (arith, there, str_eq_refl s.id), ground arith)

find_by_id-tables :
    (x : String) (w w' : World) {o : Order}
    → w'.orders ≡ w.orders
    → find_by_id x w ≡ some o
    → find_by_id x w' ≡ some o
unfolding find_by_id
find_by_id-tables x w w' e there = rw e there

find_seller_order-tables :
    (x : String) (w w' : World) {s : SellerOrder}
    → w'.seller_orders ≡ w.seller_orders
    → find_seller_order x w ≡ some s
    → find_seller_order x w' ≡ some s
unfolding find_seller_order
find_seller_order-tables x w w' e there = rw e there

abbrev Moved :
    String → SellerOrder → SellerOrderStatus → Option String → ℕ → WithOrder → World → Type 0
Moved id s status number now r w' =
    (find_seller_order id w' ≡ some (move status number now s))
    × (r.1.status ≡ derive_order_status (seller_order_statuses s.order_id w'))
    × (find_by_id s.order_id w' ≡ some r.1)
    × (r.0 ≡ move status number now s)

updated-Moved :
    (id : String) (s : SellerOrder) (o : Order) (status : SellerOrderStatus)
    (number : Option String) (now : ℕ) (w v : World) {r : WithOrder} {w' : World}
    → find_with_order id w ≡ some (s, o)
    → update_seller_order s.id (move status number now) w ≡ (ok tt, v)
    → follow_up s o status number now v ≡ (ok r, w')
    → Moved id s status number now r w'
updated-Moved id s o status number now w v {w' = w'} found moved e =
    let (there, parent) = find_with_order-eq id w found in
    let (updated, kept) =
      update_seller_order-eq id (move status number now) w {w' = v} (λ t. refl) there moved in
    let (derived, row, result, level) =
      follow_up-IsDerived s o status number now v (find_by_id-tables s.order_id w v kept parent)
        e in
    (find_seller_order-tables id v w' level updated, derived, row, result)

move_seller_order-legal :
    (s : SellerOrder) (o : Order) (status : SellerOrderStatus) (number : Option String) (now : ℕ)
    (w : World) {r : WithOrder} {w' : World}
    → move_seller_order s o status number now w ≡ (ok r, w')
    → (legal_next s.status ≡ some status) × (update_and_follow s o status number now w ≡ (ok r, w'))
unfolding move_seller_order assert_transition
move_seller_order-legal s o status number now w e = (ground arith, ground arith)

update_and_follow-Moved :
    (id : String) (s : SellerOrder) (o : Order) (status : SellerOrderStatus)
    (number : Option String) (now : ℕ) (w : World) {r : WithOrder} {w' : World}
    → find_with_order id w ≡ some (s, o)
    → update_and_follow s o status number now w ≡ (ok r, w')
    → Moved id s status number now r w'
unfolding update_and_follow
update_and_follow-Moved id s o status number now w {r} {w'} found e = given (
    >>=-eq-ok (update_seller_order s.id (move status number now))
      (λ _. follow_up s o status number now) w e)
  where
    given :
        (a : Unit {0}) × (v : World) × (update_seller_order s.id (move status number now) w
            ≡ (ok a, v))
          × (follow_up s o status number now v ≡ (ok r, w'))
        → Moved id s status number now r w'
    given (tt, v, moved, e1) = updated-Moved id s o status number now w v found moved e1

-- A call of `updateSellerOrderStatus` that goes through was made by the seller of a seller order that
-- is there, and takes it the one legal step NEW, PROCESSING, SHIPPED, COMPLETED to the requested
-- status. The seller order that it returns is the stored one. The order that it returns is the stored
-- one too, and has the status that all its seller orders, this one included, now derive.
pub update_seller_order_status_moves :
    (seller id : String) (status : SellerOrderStatus) (number : Option String) (now : ℕ) (w : World)
    {r : WithOrder} {w' : World}
    → update_seller_order_status seller id status number now w ≡ (ok r, w')
    → (s : SellerOrder) × (find_seller_order id w ≡ some s)
      × (s.seller_id ≡ seller)
      × (legal_next s.status ≡ some status)
      × (r.0 ≡ move status number now s)
      × (find_seller_order id w' ≡ some r.0)
      × (find_by_id s.order_id w' ≡ some r.1)
      × (r.1.status ≡ derive_order_status (seller_order_statuses s.order_id w'))
unfolding update_seller_order_status
update_seller_order_status_moves seller id status number now w {r} {w'} e =
    elim (Option-cases (find_with_order id w)) [
      | inl gone ↦ absurd (ground (arith, gone))
      | inr ((s, o), found) ↦
          let (legal, rest) =
            move_seller_order-legal s o status number now w {r = r} {w' = w'}
              (ground (arith, found)) in
          let (stored, derived, row, result) =
            update_and_follow-Moved id s o status number now w found rest in
          (
            s,
            (find_with_order-eq id w found).0,
            ground (arith, found, eq_of_str_eq s.seller_id seller),
            legal,
            result,
            stored ∙ ap (λ t. some t) (sym result),
            row,
            derived,
          )
    ]
