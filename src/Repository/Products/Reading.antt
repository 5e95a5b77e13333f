-- ===== src/Repository/Products/Reading.antt =====
-- Reading a product by its identifier after an update.
use multi_marketplace.Base.{
  ◌≡◌, String, Bool, true, none, some, update_where, if◌then◌else◌, str_eq, find_first-test,
  find_first-update_where,
}
use multi_marketplace.Store.{World, Product}
use multi_marketplace.Repository.Products.{find_by_id}

pub find_by_id-test :
    (x : String) (w : World) {p : Product} → find_by_id x w ≡ some p → str_eq p.id x ≡ true
unfolding find_by_id
find_by_id-test x w e = find_first-test (λ p. str_eq p.id x) w.products e

pub find_by_id-update :
    (x : String) (q : Product → Bool) (f : Product → Product) (w w' : World)
    → ((p : Product) → (f p).id ≡ p.id)
    → w'.products ≡ update_where q f w.products
    → find_by_id x w'
      ≡ elim (find_by_id x w) [ none ↦ none | some p ↦ some (if q p then f p else p) ]
unfolding find_by_id
find_by_id-update x q f w w' keep e =
    rw e (find_first-update_where (λ p. str_eq p.id x) q f w.products (λ p. rw (keep p)))
