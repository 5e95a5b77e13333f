-- ===== src/Orders/Status/Derived.antt =====
-- The status that `deriveOrderStatus` gives an order, by the priorities of its seller orders.
use multi_marketplace.Base.{
  ℕ, ◌≤◌, ◌≡◌, refl, sym, ◌∙◌, true, not, List, [], ◌∷◌, arith, any, every, select, if◌then◌else◌,
  ◌==◌, Bool-cases, inl, inr,
}
use Prim.Native.Nat.{max}
use multi_marketplace.Store.{OrderStatus, SellerOrderStatus, ◌===◌, seller_order_status_eq}
use multi_marketplace.Orders.Status.{
  status_priority, insert_status, sort_statuses, first_status, is_cancelled, derive_order_status,
}

-- The highest priority in a list, 0 where every seller order is cancelled.
abbrev pub top : List SellerOrderStatus → ℕ
top [] = 0
top (s ∷ ss) = max (status_priority s) (top ss)

-- The status of a priority.
abbrev pub of_priority : ℕ → OrderStatus
of_priority n =
    if n == 0
    then OrderStatus.cancelled
    else if n == 1
    then OrderStatus.new
    else if n == 2
    then OrderStatus.payment_pending
    else if n == 3
    then OrderStatus.processing
    else if n == 4
    then OrderStatus.shipped
    else OrderStatus.completed

-- The head of the sorted list has the highest priority.
abbrev head_priority : List SellerOrderStatus → ℕ
head_priority [] = 0
head_priority (s ∷ ss) = status_priority s

head_priority-insert :
    (s : SellerOrderStatus) (ss : List SellerOrderStatus)
    → head_priority (insert_status s ss) ≡ max (status_priority s) (head_priority ss)
unfolding insert_status
head_priority-insert s [] = omega arith
head_priority-insert s (t ∷ ts) = ground arith

head_priority-sort : (ss : List SellerOrderStatus) → head_priority (sort_statuses ss) ≡ top ss
unfolding sort_statuses
head_priority-sort [] = refl
head_priority-sort (s ∷ ss) =
    omega (arith, head_priority-insert s (sort_statuses ss), head_priority-sort ss)

top-select : (ss : List SellerOrderStatus) → top (select (λ t. not (is_cancelled t)) ss) ≡ top ss
top-select [] = refl
top-select (s ∷ ss) = ground (arith, top-select ss)

first_status-head : (ss : List SellerOrderStatus) → first_status ss ≡ of_priority (head_priority ss)
first_status-head [] = refl
first_status-head (s ∷ ss) = ground arith

every-cancelled : (ss : List SellerOrderStatus) → every is_cancelled ss ≡ true → top ss ≡ 0
every-cancelled [] h = refl
every-cancelled (s ∷ ss) h = ground (arith, every-cancelled ss)

-- The status of an order with at least one seller order is that of the highest priority among its
-- seller orders, and CANCELLED where all are cancelled.
pub derive_order_status-top :
    (s : SellerOrderStatus) (ss : List SellerOrderStatus)
    → derive_order_status (s ∷ ss) ≡ of_priority (top (s ∷ ss))
unfolding derive_order_status
derive_order_status-top s ss = elim (Bool-cases (every is_cancelled (s ∷ ss))) [
  | inl e ↦ rw e (rw (every-cancelled (s ∷ ss) e))
  | inr e ↦ rw e (
      first_status-head (sort_statuses (select (λ t. not (is_cancelled t)) (s ∷ ss)))
      ∙ rw (head_priority-sort (select (λ t. not (is_cancelled t)) (s ∷ ss)), top-select (s ∷ ss)))
]

-- A status is in the list with its priority up to the top.
priority-le-top :
    (s : SellerOrderStatus) (ss : List SellerOrderStatus)
    → any (λ t. t === s) ss ≡ true
    → status_priority s ≤ top ss
priority-le-top s [] h = cc
priority-le-top s (t ∷ ts) h = ground (arith, priority-le-top s ts)

top-le :
    (xs ys : List SellerOrderStatus)
    → ((s : SellerOrderStatus) → any (λ t. t === s) xs ≡ true → any (λ t. t === s) ys ≡ true)
    → top xs ≤ top ys
top-le [] ys h = omega arith
top-le (x ∷ xs) ys h =
    let here : any (λ t. t === x) (x ∷ xs) ≡ true = ground arith in
    let rest = top-le xs ys (λ s e. h s (ground arith)) in
    omega (arith, priority-le-top x ys (h x here), rest)

-- Two lists in which the same statuses occur derive the same status of the order: the order of the
-- seller orders and their number do not matter.
pub derive_order_status_members :
    (xs ys : List SellerOrderStatus)
    → ((s : SellerOrderStatus) → any (λ t. t === s) xs ≡ any (λ t. t === s) ys)
    → derive_order_status xs ≡ derive_order_status ys
derive_order_status_members [] [] h = refl
derive_order_status_members [] (y ∷ ys) h = absurd (ground (arith, h y))
derive_order_status_members (x ∷ xs) [] h = absurd (ground (arith, h x))
derive_order_status_members (x ∷ xs) (y ∷ ys) h =
    let up = top-le (x ∷ xs) (y ∷ ys) (λ s e. sym (h s) ∙ e) in
    let down = top-le (y ∷ ys) (x ∷ xs) (λ s e. h s ∙ e) in
    let level : top (x ∷ xs) ≡ top (y ∷ ys) = omega arith in
    rw (derive_order_status-top x xs, derive_order_status-top y ys, level)

-- Where one seller order is completed the whole order is, whatever state the others are in.
pub derive_order_status_one_completed :
    (ss : List SellerOrderStatus)
    → any (λ t. t === SellerOrderStatus.completed) ss ≡ true
    → derive_order_status ss ≡ OrderStatus.completed
derive_order_status_one_completed [] h = cc
derive_order_status_one_completed (s ∷ ss) h =
    rw (derive_order_status-top s ss)
      (ground (arith, priority-le-top SellerOrderStatus.completed (s ∷ ss) h))
