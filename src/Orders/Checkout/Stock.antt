-- ===== src/Orders/Checkout/Stock.antt =====
-- The stock that a checkout takes.
use multi_marketplace.Base.{
  ℕ, ◌+◌, ◌≤◌, ◌<◌, ◌≡◌, refl, String, List, [], ◌∷◌, some, arith, sum_by, select, update_where,
  count_where, str_eq, eq_of_str_eq, str_eq_refl, if◌then◌else◌, find_first_single,
  count_where-update_where, Bool-cases, inl, inr,
}
use multi_marketplace.Store.{World, Product, Result, ok, err, ◌===◌, string_eq}
use multi_marketplace.Repository.Products.{
  find_by_id, is_sellable, has_stock, take_stock, decrement_stock_for_checkout,
}
use multi_marketplace.Repository.Products.Reading.{find_by_id-test, find_by_id-update}
use multi_marketplace.Repository.Outbox
use multi_marketplace.Orders.Checkout.{Line, Tally, take_line, take_lines, tally_line}
use multi_marketplace.Orders.Checkout.Groups.{tally_lines}

-- How many pieces of product `x` the lines order.
abbrev pub ordered : String → List Line → ℕ
ordered x ls = sum_by (λ l. l.quantity) (select (λ l. l.product.id === x) ls)

-- Product identifiers are a primary key.
abbrev pub IsKey : World → Type 0
IsKey w = (x : String) → count_where (λ p. str_eq p.id x) w.products ≤ 1

abbrev Taken : Line → World → Result (Unit {0}) × World → Type 0
Taken l w (ok _, w') =
    (0 < count_where (is_sellable l.product.id l.quantity) w.products)
    × (w'.products
        ≡ update_where (is_sellable l.product.id l.quantity) (take_stock l.quantity) w.products)
Taken l w (err e, w') = Unit

take_line-Taken : (key : String) (l : Line) (w : World) → Taken l w (take_line key l w)
unfolding take_line decrement_stock_for_checkout Outbox.create
take_line-Taken key l w = ground arith

-- One row less the quantity, and the others as they were.
module _ (l : Line) (w w' : World) where
  abbrev Took : Type 0
  Took =
      w'.products
      ≡ update_where (is_sellable l.product.id l.quantity) (take_stock l.quantity) w.products

  taken_row :
      (x : String)
      → IsKey w
      → 0 < count_where (is_sellable l.product.id l.quantity) w.products
      → Took
      → {p : Product} → find_by_id x w ≡ some p
      → (p' : Product) × (find_by_id x w' ≡ some p')
        × (p'.stock + (if str_eq l.product.id x then l.quantity else 0) ≡ p.stock)
  unfolding find_by_id
  taken_row x key some_taken e {p} there = elim (Bool-cases (str_eq l.product.id x)) [
    | inl same ↦
        let stocked =
          find_first_single (λ q. str_eq q.id l.product.id) (has_stock l.quantity) w.products
            {a = p} (key l.product.id) some_taken (rw (eq_of_str_eq l.product.id x same) there) in
        (
          take_stock l.quantity p,
          ground (
            arith,
            find_by_id-update x (is_sellable l.product.id l.quantity) (take_stock l.quantity) w w'
                (λ q. refl) e,
            find_by_id-test x w there,
            eq_of_str_eq l.product.id x same,
          ),
          ground arith,
        )
    | inr other ↦ (
      p,
      ground (
        arith,
        find_by_id-update x (is_sellable l.product.id l.quantity) (take_stock l.quantity) w w'
            (λ q. refl) e,
        find_by_id-test x w there,
        eq_of_str_eq p.id x,
        eq_of_str_eq p.id l.product.id,
        str_eq_refl x,
      ),
      ground arith,
    )
  ]

  taken-IsKey : Took → IsKey w → IsKey w'
  taken-IsKey e key x =
      rw
        (
          e,
          count_where-update_where (λ q. str_eq q.id x) (is_sellable l.product.id l.quantity)
              (take_stock l.quantity) w.products (λ q. refl),
        )
        (key x)

-- After the loop every product has exactly what was ordered less, and the loop has carried the
-- totals of the lines.
abbrev pub TookAll : List Line → Tally → World → Result Tally × World → Type 0
TookAll ls t w (err e, w') = Unit
TookAll ls t w (ok tally, w') =
    (tally ≡ tally_lines ls t)
    × ((x : String) (p : Product)
        → find_by_id x w ≡ some p
        → (p' : Product) × (find_by_id x w' ≡ some p') × (p'.stock + ordered x ls ≡ p.stock))

ordered-cons :
    (x : String) (l : Line) (ls : List Line)
    → ordered x (l ∷ ls) ≡ (if str_eq l.product.id x then l.quantity else 0) + ordered x ls
ordered-cons x l ls = ground arith

module _ (key : String) where
  pub take_lines-TookAll :
      (ls : List Line) (t : Tally) (w : World) → IsKey w → TookAll ls t w (take_lines key ls t w)
  unfolding take_lines
  take_lines-TookAll [] t w k = (refl, λ x p there. (p, there, omega arith))
  take_lines-TookAll (l ∷ ls) t w k =
      go (take_line key l w) (take_line-Taken key l w)
        (λ v. take_lines-TookAll ls (tally_line l t) v)
    where
      go :
          (r : Result (Unit {0}) × World)
          → Taken l w r
          → ((v : World)
              → IsKey v
              → TookAll ls (tally_line l t) v (take_lines key ls (tally_line l t) v))
          → TookAll (l ∷ ls) t w (elim r.0 as (λ _. Result Tally × World) [
            | ok _ ↦ take_lines key ls (tally_line l t) r.1
            | err e ↦ (err e, r.1)
          ])
      go (err e, v) h rest = tt
      go (ok _, v) (some_taken, e) rest =
          both (take_lines key ls (tally_line l t) v) (rest v (taken-IsKey l w v e k))
        where
          both :
              (r : Result Tally × World) → TookAll ls (tally_line l t) v r → TookAll (l ∷ ls) t w r
          both (err e', w') h = tt
          both (ok tally, w') (same, left) = (
            same,
            λ x p there.
                let (q, there', less) = taken_row l w v x k some_taken e there in
                let (q', there'', less') = left x q there' in
                (q', there'', omega (arith, less, less', ordered-cons x l ls)),
          )
