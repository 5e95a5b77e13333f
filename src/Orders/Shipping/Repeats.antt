-- ===== src/Orders/Shipping/Repeats.antt =====
-- The key of the event about an order's status, which names two statuses, in `updateSellerOrderStatus`.
use multi_marketplace.Base.{
  ℕ, ◌≡◌, refl, sym, ◌∙◌, ap, String, true, List, ◌++◌, Option, some, arith, str_eq,
  find_first-test, subst, count_where-pos, any, ◌∷◌, [], false, update_where, eq_of_str_eq,
  str_eq_refl,
}
use multi_marketplace.Store.{
  OutboxEvent, World, Order, SellerOrder, OrderStatus, SellerOrderStatus, Result, Error, ok, err,
  pure, unique_violation, for_each, ◌===◌, string_eq, order_status_eq, seller_order_status_eq,
}
use multi_marketplace.Store.Frame.{>>=-eq-err, >>=-eq-next}
use multi_marketplace.Repository.Outbox
use multi_marketplace.Repository.Outbox.{EventData, event_row}
use multi_marketplace.Repository.Orders.{
  find_by_id, find_seller_order, seller_order_statuses, update_order_status, update_seller_order,
}
use multi_marketplace.Orders.Status.{derive_order_status, legal_next, assert_transition}
use multi_marketplace.Orders.Shipping.Parent.{find_with_order-eq}
use multi_marketplace.Orders.Shipping.{
  follow_up, set_parent, announce_move, with_status, moved_event, parent_event, is_changed,
  parent_key, move, move_events, find_with_order, update_and_follow, move_seller_order,
  update_seller_order_status,
}

any-append :
    (key : String) (es : List OutboxEvent) (e : OutboxEvent)
    → any (λ f. f.idempotency_key === key) es ≡ true
    → any (λ f. f.idempotency_key === key) (es ++ e ∷ []) ≡ true
any-append key [] e h = absurd (ground arith)
any-append key (f ∷ fs) e h = ground (arith, any-append key fs e)

create-stuck :
    (d : EventData) (w : World)
    → any (λ f. f.idempotency_key === d.idempotency_key) w.outbox ≡ true
    → (Outbox.create d w).0 ≡ err unique_violation
unfolding Outbox.create
create-stuck d w h = ground arith

create-keeps_key :
    (key : String) (d : EventData) (w : World)
    → any (λ f. f.idempotency_key === key) w.outbox ≡ true
    → any (λ f. f.idempotency_key === key) (Outbox.create d w).1.outbox ≡ true
unfolding Outbox.create
create-keeps_key key d w h = ground (arith, any-append key w.outbox (event_row (w.uuid w.drawn) d))

create-error :
    (d : EventData) (w : World) {e : Error} {w' : World}
    → Outbox.create d w ≡ (err e, w')
    → e ≡ unique_violation
unfolding Outbox.create
create-error d w h = ground arith

create_one-stuck :
    (d : EventData) (w : World)
    → any (λ f. f.idempotency_key === d.idempotency_key) w.outbox ≡ true
    → (for_each (d ∷ []) Outbox.create w).0 ≡ err unique_violation
unfolding for_each
create_one-stuck d w h = ground (arith, create-stuck d w h)

create_two-stuck :
    (d d' : EventData) (w : World)
    → any (λ f. f.idempotency_key === d'.idempotency_key) w.outbox ≡ true
    → (Outbox.create_many (d ∷ d' ∷ []) w).0 ≡ err unique_violation
unfolding Outbox.create_many for_each
create_two-stuck d d' w h = given (Outbox.create d w) refl
  where
    given :
        (r : Result (Unit {0}) × World)
        → Outbox.create d w ≡ r
        → (elim r.0 as (λ _. Result (Unit {0}) × World) [
          | ok _ ↦ for_each (d' ∷ []) Outbox.create r.1
          | err e ↦ (err e, r.1)
        ]).0
          ≡ err unique_violation
    given (err x, v) e = ap (λ y. err y) (create-error d w e)
    given (ok _, v) e = create_one-stuck d' v (
        subst (λ r. any (λ f. f.idempotency_key === d'.idempotency_key) r.1.outbox ≡ true) e
          (create-keeps_key d'.idempotency_key d w h))

set_parent-outbox :
    (s : SellerOrder) (o : Order) (next : OrderStatus) (w : World)
    → find_by_id s.order_id w ≡ some o
    → (v : World) × (set_parent s o next w ≡ (ok tt, v)) × (v.outbox ≡ w.outbox)
unfolding set_parent update_order_status find_by_id
set_parent-outbox s o next w there =
    let row =
      count_where-pos (λ p. str_eq p.id s.order_id) (λ p. str_eq p.id s.order_id) w.orders there
        (find_first-test (λ p. str_eq p.id s.order_id) w.orders there) in
    ((set_parent s o next w).1, ground (arith, row), ground (arith, row))

announce_move-stuck :
    (s : SellerOrder) (o : Order) (status : SellerOrderStatus) (number : Option String) (now : ℕ)
    (next : OrderStatus) (w : World)
    → is_changed o next ≡ true
    → any (λ e. e.idempotency_key === parent_key o next) w.outbox ≡ true
    → (announce_move s o status number now next w).0 ≡ err unique_violation
unfolding announce_move
announce_move-stuck s o status number now next w changed used =
    >>=-eq-err (Outbox.create_many (move_events s o status next))
      (λ _. pure (move status number now s, with_status next o)) w
      (rw changed (create_two-stuck (moved_event s o status) (parent_event o next) w used))

follow_up_stuck :
    (s : SellerOrder) (o : Order) (status : SellerOrderStatus) (number : Option String) (now : ℕ)
    (w : World)
    → find_by_id s.order_id w ≡ some o
    → let next = derive_order_status (seller_order_statuses s.order_id w) in
      is_changed o next ≡ true
      → any (λ e. e.idempotency_key === parent_key o next) w.outbox ≡ true
      → (follow_up s o status number now w).0 ≡ err unique_violation
unfolding follow_up
follow_up_stuck s o status number now w there changed used =
    let next = derive_order_status (seller_order_statuses s.order_id w) in
    let (v, set, same) = set_parent-outbox s o next w there in
    ap (λ r. r.0)
      (>>=-eq-next (set_parent s o next) (λ _. announce_move s o status number now next) w set)
    ∙ (announce_move-stuck s o status number now next v changed (
        subst (λ es. any (λ e. e.idempotency_key === parent_key o next) es ≡ true) (sym same) used))

-- The tables once the seller order has moved.
abbrev pub moved_on : String → SellerOrderStatus → Option String → ℕ → World → World
moved_on id status number now w = record w {
  seller_orders = update_where (λ t. t.id === id) (move status number now) w.seller_orders;
}

update_seller_order-moved :
    (id : String) (status : SellerOrderStatus) (number : Option String) (now : ℕ) (w : World)
    {s : SellerOrder}
    → find_seller_order id w ≡ some s
    → update_seller_order id (move status number now) w ≡ (ok tt, moved_on id status number now w)
unfolding update_seller_order find_seller_order
update_seller_order-moved id status number now w there =
    let row =
      count_where-pos (λ t. str_eq t.id id) (λ t. str_eq t.id id) w.seller_orders there
        (find_first-test (λ t. str_eq t.id id) w.seller_orders there) in
    ground (arith, row)

update_and_follow_stuck :
    (s : SellerOrder) (o : Order) (status : SellerOrderStatus) (number : Option String) (now : ℕ)
    (w : World)
    → find_seller_order s.id w ≡ some s
    → find_by_id s.order_id w ≡ some o
    → let v = moved_on s.id status number now w in
      let next = derive_order_status (seller_order_statuses s.order_id v) in
      is_changed o next ≡ true
      → any (λ e. e.idempotency_key === parent_key o next) w.outbox ≡ true
      → (update_and_follow s o status number now w).0 ≡ err unique_violation
unfolding update_and_follow find_by_id
update_and_follow_stuck s o status number now w there parent changed used =
    ap (λ r. r.0)
      (>>=-eq-next (update_seller_order s.id (move status number now))
        (λ _. follow_up s o status number now) w
        (update_seller_order-moved s.id status number now w there))
    ∙ follow_up_stuck s o status number now (moved_on s.id status number now w) parent changed used

-- Where a seller asks for a legal step of a seller order of the seller's own, which would change the
-- status of the order above it, and the outbox has the event of this change already, from an earlier
-- time at which the order went between the same two statuses: `updateSellerOrderStatus` raises a
-- unique violation and changes nothing.
pub update_seller_order_status_stuck :
    (id : String) (status : SellerOrderStatus) (number : Option String) (now : ℕ) (w : World)
    {s : SellerOrder} {o : Order}
    → find_with_order id w ≡ some (s, o)
    → legal_next s.status ≡ some status
    → let next =
        derive_order_status (seller_order_statuses s.order_id (moved_on id status number now w)) in
      (o.status === next) ≡ false
      → any (λ e. e.idempotency_key === parent_key o next) w.outbox ≡ true
      → update_seller_order_status s.seller_id id status number now w ≡ (err unique_violation, w)
unfolding update_seller_order_status move_seller_order assert_transition find_seller_order
update_seller_order_status_stuck id status number now w {s} {o} found legal changed used =
    let (there, parent) = find_with_order-eq id w found in
    let same : s.id ≡ id =
      eq_of_str_eq s.id id (find_first-test (λ t. str_eq t.id id) w.seller_orders there) in
    let after : String → OrderStatus = λ y.
      derive_order_status (seller_order_statuses s.order_id (moved_on y status number now w)) in
    let stuck =
      update_and_follow_stuck s o status number now w
        (subst (λ y. find_seller_order y w ≡ some s) (sym same) there) parent
        (subst (λ y. is_changed o (after y) ≡ true) (sym same) (rw changed refl))
        (subst (λ y. any (λ e. e.idempotency_key === parent_key o (after y)) w.outbox ≡ true)
          (sym same) used) in
    ground (arith, found, legal, stuck, str_eq_refl s.seller_id)
