-- ===== src/Repository/Products.antt =====
-- backend/src/database/product.repository.ts, the calls that the services make.
pub mod Reading
use multi_marketplace.Base.{
  ℕ, ◌+◌, ◌-◌, String, Bool, ◌&&◌, not, false, List, [], ◌∷◌, ◌++◌, Option, none, find_first,
  update_where, count_where, any, leb,
}
use multi_marketplace.Store.{
  World, Category, Product, ProductStatus, ProductType, Action, modify, require_row, raise_if,
  or_raise, pure, gets, ok, fresh_id, unique_violation, record_missing, ◌===◌, ◌>>=◌, ◌>>◌,
  string_eq, product_status_eq, product_type_eq,
}

unfoldable pub find_by_id : String → World → Option Product
find_by_id id w = find_first (λ p. p.id === id) w.products

abbrev pub has_stock : ℕ → Product → Bool
has_stock quantity p =
    leb quantity p.stock
    && p.status === ProductStatus.active
    && p.type === ProductType.fixed_price
    && not p.is_archived

-- The `where` of `decrementStockForCheckout`.
abbrev pub is_sellable : String → ℕ → Product → Bool
is_sellable id quantity p = p.id === id && has_stock quantity p

abbrev pub take_stock : ℕ → Product → Product
take_stock quantity p = record p { stock = p.stock - quantity; version = p.version + 1 }

unfoldable pub decrement_stock_for_checkout : String → ℕ → Action ℕ
decrement_stock_for_checkout id quantity w = (
  ok (count_where (is_sellable id quantity) w.products),
  record w { products = update_where (is_sellable id quantity) (take_stock quantity) w.products },
)

abbrev pub return_stock : ℕ → Product → Product
return_stock quantity p = record p { stock = p.stock + quantity; version = p.version + 1 }

unfoldable pub increment_stock : String → ℕ → Action (Unit {0})
increment_stock id quantity = do
  require_row (← gets λ w. count_where (λ p. p.id === id) w.products)
  modify λ w. record w {
    products = update_where (λ p. p.id === id) (return_stock quantity) w.products;
  }

-- `update(id, { status: SOLD, version: { increment: 1 } })`.
abbrev pub sold_row : Product → Product
sold_row p = record p { status = ProductStatus.sold; version = p.version + 1 }

unfoldable pub mark_sold : String → Action (Unit {0})
mark_sold id = do
  require_row (← gets λ w. count_where (λ p. p.id === id) w.products)
  modify λ w. record w { products = update_where (λ p. p.id === id) sold_row w.products }

-- `updateMany` on one identifier: the number of rows that passed.
abbrev pub is_claimed : String → (Product → Bool) → Product → Bool
is_claimed id test p = p.id === id && test p

unfoldable pub claim_status : String → (Product → Bool) → (Product → Product) → Action ℕ
claim_status id test change w = (
  ok (count_where (is_claimed id test) w.products),
  record w { products = update_where (is_claimed id test) change w.products },
)

unfoldable pub find_or_throw : String → Action Product
unfolding find_by_id
find_or_throw id = do or_raise (← gets (find_by_id id)) record_missing

unfoldable pub category_exists : String → World → Option Category
category_exists id w = find_first (λ c. c.id === id) w.categories

-- The columns of `create` whose defaults are not the schema's.
pub record ProductData : Type 0 where
  pub seller_id : String
  pub name : String
  pub type : ProductType
  pub price : ℕ
  pub stock : ℕ
  pub category_id : String
  pub slug : String
  pub image_url : Option String

abbrev pub product_row : String → ProductData → Product
product_row id d = record {
  id = id;
  seller_id = d.seller_id;
  name = d.name;
  type = d.type;
  status = ProductStatus.draft;
  price = d.price;
  stock = d.stock;
  version = 0;
  is_archived = false;
  category_id = d.category_id;
  slug = d.slug;
  image_url = d.image_url;
}

unfoldable pub create : ProductData → Action Product
create d = do
  id ← fresh_id
  raise_if (← gets λ w. any (λ p. p.slug === d.slug) w.products) unique_violation
  modify λ w. record w { products = w.products ++ product_row id d ∷ [] }
  pure (product_row id d)

-- `update(id, data)`, which returns the row as it is then.
unfoldable pub update : String → (Product → Product) → Action Product
unfolding find_by_id
update id change = do
  modify λ w. record w { products = update_where (λ p. p.id === id) change w.products }
  or_raise (← gets (find_by_id id)) record_missing
