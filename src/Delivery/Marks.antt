-- ===== src/Delivery/Marks.antt =====
-- The announcements of an event and the keys in Redis that mark them (Delivery).
use multi_marketplace.Base.{
  ℕ, ◌≤◌, ◌<◌, ◌+◌, ◌*◌, leb, ◌&&◌, ◌≡◌, ◌⊎◌, refl, ap, String, Bool, false, List, [], ◌∷◌, ◌++◌,
  Option, none, some, arith, any, count_where, count_where-append, if◌then◌else◌, ◌||◌, Bool-cases,
  inl, inr, eq_of_str_eq, str_eq_refl,
}
use multi_marketplace.Store.{
  World, Order, SellerOrder, OutboxEvent, Signal, Value, ◌===◌, string_eq,
}
use multi_marketplace.Delivery.{
  is_live, mark_seconds, set_if_absent, stock_key, order_key, announce_stock, announce_order,
}

-- The announcements of an event.
abbrev pub is_stock_event : String → Signal → Bool
is_stock_event e (Signal.stock_event p q id) = id === e
is_stock_event e (Signal.order_status_update u o s) = false
is_stock_event e (Signal.drop_cache k) = false
is_stock_event e (Signal.metric m) = false
is_stock_event e (Signal.order_event u o s id) = false
is_stock_event e (Signal.bid_event a b c d) = false
is_stock_event e (Signal.auction_event a b c) = false
is_stock_event e (Signal.job q n k) = false
is_stock_event e (Signal.delete_file p) = false

abbrev pub is_order_event : String → Signal → Bool
is_order_event e (Signal.order_event u o s id) = id === e
is_order_event e (Signal.stock_event p q id) = false
is_order_event e (Signal.order_status_update u o s) = false
is_order_event e (Signal.drop_cache k) = false
is_order_event e (Signal.metric m) = false
is_order_event e (Signal.bid_event a b c d) = false
is_order_event e (Signal.auction_event a b c) = false
is_order_event e (Signal.job q n k) = false
is_order_event e (Signal.delete_file p) = false

-- A key that has been set and does not expire before `until`.
abbrev pub lasts : ℕ → String → String × ℕ → Bool
lasts until key (k, expires) = k === key && leb until expires

abbrev marked : ℕ → String → World → Bool
marked until key w = any (lasts until key) w.delivered

-- What is announced is marked until then: once for the stock, and for an order to two users at most.
abbrev pub Announced : ℕ → String → World → Type 0
Announced until e w =
    (count_where (is_stock_event e) w.signals ≤ (if marked until (stock_key e) w then 1 else 0))
    × (count_where (is_order_event e) w.signals ≤ (if marked until (order_key e) w then 2 else 0))

-- The time at which Redis sets a key is before `until`, and the key then lasts until then.
abbrev pub Sets : ℕ → ℕ → Type 0
Sets until now = (now < until) × (until ≤ now + 1000 * mark_seconds)

-- A key that is not live before `until` does not last until then.
pub unmarked :
    (until now : ℕ) (key : String) (keys : List (String × ℕ))
    → now < until
    → any (is_live key now) keys ≡ false
    → any (lasts until key) keys ≡ false
unmarked until now key [] early h = refl
unmarked until now key ((k, x) ∷ ks) early h =
    ground (arith, h, early, unmarked until now key ks early)

any-append :
    (p : String × ℕ → Bool) (xs ys : List (String × ℕ)) → any p (xs ++ ys) ≡ any p xs || any p ys
any-append p [] ys = refl
any-append p (x ∷ xs) ys = ground (arith, any-append p xs ys)

-- Marking a key once more than `n` signals are allowed for marks it.
pub stock_step :
    (until x : ℕ) (e e' product : String) (quantity : Value) (keys : List (String × ℕ))
    (signals : List Signal)
    → until ≤ x
    → any (lasts until (stock_key e')) keys ≡ false
    → count_where (is_stock_event e) signals
      ≤ (if any (lasts until (stock_key e)) keys then 1 else 0)
    → count_where (is_stock_event e) (signals ++ Signal.stock_event product quantity e' ∷ [])
      ≤ (if any (lasts until (stock_key e)) (keys ++ (stock_key e', x) ∷ []) then 1 else 0)
stock_step until x e e' product quantity keys signals long absent h =
    rw
      (
        count_where-append (is_stock_event e) signals (Signal.stock_event product quantity e' ∷ []),
        any-append (lasts until (stock_key e)) keys ((stock_key e', x) ∷ []),
      )
      (elim (Bool-cases (e' === e)) [
        | inl same ↦
            let one : e' ≡ e = eq_of_str_eq e' e same in
            let free : any (lasts until (stock_key e)) keys ≡ false = rw one at absent in
            ground (arith, h, free, same, one, long, str_eq_refl (stock_key e))
        | inr other ↦ ground (arith, h, other)
      ])

pub order_step :
    (until x : ℕ) (e e' : String) (keys : List (String × ℕ)) (signals new : List Signal)
    → until ≤ x
    → any (lasts until (order_key e')) keys ≡ false
    → count_where (is_order_event e) new ≤ (if e' === e then 2 else 0)
    → count_where (is_order_event e) signals
      ≤ (if any (lasts until (order_key e)) keys then 2 else 0)
    → count_where (is_order_event e) (signals ++ new)
      ≤ (if any (lasts until (order_key e)) (keys ++ (order_key e', x) ∷ []) then 2 else 0)
order_step until x e e' keys signals new long absent few h =
    rw
      (
        count_where-append (is_order_event e) signals new,
        any-append (lasts until (order_key e)) keys ((order_key e', x) ∷ []),
      )
      (elim (Bool-cases (e' === e)) [
        | inl same ↦
            let one : e' ≡ e = eq_of_str_eq e' e same in
            let free : any (lasts until (order_key e)) keys ≡ false = rw one at absent in
            ground (arith, h, free, few, same, one, long, str_eq_refl (order_key e))
        | inr other ↦ ground (arith, h, other, few)
      ])

-- Signals of another kind, and one more mark, keep a bound.
pub bound_kept :
    (until x : ℕ) (p : Signal → Bool) (key key' : String) (n : ℕ) (keys : List (String × ℕ))
    (signals new : List Signal)
    → count_where p new ≡ 0
    → count_where p signals ≤ (if any (lasts until key) keys then n else 0)
    → count_where p (signals ++ new)
      ≤ (if any (lasts until key) (keys ++ (key', x) ∷ []) then n else 0)
bound_kept until x p key key' n keys signals new none_new h =
    rw (count_where-append p signals new, any-append (lasts until key) keys ((key', x) ∷ []))
      (ground (arith, h, none_new))

append_two : (xs : List Signal) (a b : Signal) → (xs ++ a ∷ []) ++ b ∷ [] ≡ xs ++ a ∷ b ∷ []
append_two [] a b = refl
append_two (x ∷ xs) a b = ap (λ ys. x ∷ ys) (append_two xs a b)

-- The key that is set, with the signals that follow.
abbrev marking : String → ℕ → List Signal → World → World
marking key x new w = record w {
  delivered = w.delivered ++ (key, x) ∷ [];
  signals = w.signals ++ new;
}

abbrev pub order_signals : OutboxEvent → Order → Option SellerOrder → List Signal
order_signals v o none = Signal.order_event o.user_id o.id o.status v.id ∷ []
order_signals v o (some s) =
    Signal.order_event o.user_id o.id o.status v.id
    ∷ Signal.order_event s.seller_id o.id o.status v.id
    ∷ []

pub announce_stock-effect :
    (e product : String) (quantity : Value) (now : ℕ) (w : World)
    → ((announce_stock e product quantity now w).1 ≡ w)
      ⊎ ((any (is_live (stock_key e) now) w.delivered ≡ false)
          × ((announce_stock e product quantity now w).1
              ≡ marking
                  (stock_key e)
                  (now + 1000 * mark_seconds)
                  (Signal.stock_event product quantity e ∷ [])
                  w))
unfolding announce_stock set_if_absent
announce_stock-effect e product quantity now w =
    elim (Bool-cases (any (is_live (stock_key e) now) w.delivered)) [
      | inl again ↦ inl (ground (arith, again))
      | inr first ↦ inr (first, ground (arith, first))
    ]

pub announce_order-effect :
    (v : OutboxEvent) (o : Order) (s : Option SellerOrder) (now : ℕ) (w : World)
    → ((announce_order v o s now w).1 ≡ w)
      ⊎ ((any (is_live (order_key v.id) now) w.delivered ≡ false)
          × ((announce_order v o s now w).1
              ≡ marking (order_key v.id) (now + 1000 * mark_seconds) (order_signals v o s) w))
unfolding announce_order set_if_absent
announce_order-effect v o none now w =
    elim (Bool-cases (any (is_live (order_key v.id) now) w.delivered)) [
      | inl again ↦ inl (ground (arith, again))
      | inr first ↦ inr (first, ground (arith, first))
    ]
announce_order-effect v o (some s) now w =
    elim (Bool-cases (any (is_live (order_key v.id) now) w.delivered)) [
      | inl again ↦ inl (ground (arith, again))
      | inr first ↦ inr (
        first,
        ground (
          arith,
          first,
          append_two w.signals (Signal.order_event o.user_id o.id o.status v.id)
              (Signal.order_event s.seller_id o.id o.status v.id),
        ),
      )
    ]

pub order_signals-few :
    (e : String) (v : OutboxEvent) (o : Order) (s : Option SellerOrder)
    → count_where (is_order_event e) (order_signals v o s) ≤ (if v.id === e then 2 else 0)
order_signals-few e v o none = ground arith
order_signals-few e v o (some s) = ground arith

pub order_signals-no_stock :
    (e : String) (v : OutboxEvent) (o : Order) (s : Option SellerOrder)
    → count_where (is_stock_event e) (order_signals v o s) ≡ 0
order_signals-no_stock e v o none = refl
order_signals-no_stock e v o (some s) = refl
