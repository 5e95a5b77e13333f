-- ===== src/Products/Editing.antt =====
-- `create` and `update` of backend/src/products/products.service.ts. The slug that `createSlug` makes is an
-- argument; the description, which nothing reads, is left out.
use multi_marketplace.Base.{
  ℕ, ◌+◌, String, Bool, true, false, ◌&&◌, not, [], Option, none, some, decimal, is_some,
  if◌then◌else◌,
}
use multi_marketplace.Store.{
  Product, ProductStatus, ProductType, Signal, Action, Error, Reason, gets, raise, raise_if, pure,
  skip, send, when, transaction, catch_error, bad_request, ◌===◌, ◌>>=◌, ◌>>◌, string_eq, option_eq,
  product_status_eq, product_type_eq,
}
use multi_marketplace.Repository.Products
use multi_marketplace.Repository.Products.{ProductData, category_exists}
use multi_marketplace.Repository.Outbox
use multi_marketplace.Products.{product_event, find_owned_product, invalidate_product_caches}

-- `deleteFile`: nothing is deleted without a path.
abbrev delete_file : Option String → Action (Unit {0})
delete_file none = skip
delete_file (some path) = when (not (path === "")) (send (Signal.delete_file path))

unfoldable pub ensure_category_exists : String → Action (Unit {0})
ensure_category_exists id = do
  found ← gets (category_exists id)
  raise_if (not (is_some found)) (bad_request Reason.category_missing)

-- `CreateProductDto`, checked by the controller's pipe; `imageUrl` is missing, null or a text.
pub record CreateProductDto : Type 0 where
  pub type : Option ProductType
  pub name : String
  pub price : ℕ
  pub stock : ℕ
  pub category_id : String
  pub image_url : Option String

abbrev type_or_default : Option ProductType → ProductType
type_or_default none = ProductType.fixed_price
type_or_default (some t) = t

-- `uploadedFilePath ?? dto.imageUrl ?? null`.
abbrev first_path : Option String → Option String → Option String
first_path none b = b
first_path (some a) b = some a

abbrev pub created_data : CreateProductDto → String → String → Option String → ProductData
created_data dto seller slug uploaded = record {
  seller_id = seller;
  name = dto.name;
  type = type_or_default dto.type;
  price = dto.price;
  stock = dto.stock;
  category_id = dto.category_id;
  slug = slug;
  image_url = first_path uploaded dto.image_url;
}

unfoldable pub create_body : ProductData → Action Product
create_body d = do
  created ← Products.create d
  Outbox.create
      (product_event created.id "product.created" [] "product-created:" (decimal created.version))
  pure created

-- `catch (error) { if (uploadedFilePath) await deleteFile(uploadedFilePath); throw error; }`.
abbrev drop_upload : Option String → Error → Action Product
drop_upload uploaded e = do delete_file uploaded; raise e

unfoldable pub create_attempt : CreateProductDto → String → String → Option String → Action Product
create_attempt dto seller slug uploaded = do
  ensure_category_exists dto.category_id
  product ← transaction (create_body (created_data dto seller slug uploaded))
  invalidate_product_caches product.id
  pure product

unfoldable pub create : CreateProductDto → String → String → Option String → Action Product
create dto seller slug uploaded =
    catch_error (create_attempt dto seller slug uploaded) (drop_upload uploaded)

-- `UpdateProductDto`: every field may be missing. `image_url` is missing, null or a text.
pub record UpdateProductDto : Type 0 where
  pub type : Option ProductType
  pub name : Option String
  pub price : Option ℕ
  pub stock : Option ℕ
  pub category_id : Option String
  pub image_url : Option (Option String)

abbrev given : {A : Type 0} → Option A → A → A
given none old = old
given (some new) old = new

-- `dto.imageUrl === '' ? null : (dto.imageUrl ?? null)`.
abbrev image_of : Option String → Option String
image_of none = none
image_of (some path) = if path === "" then none else some path

-- `newImageUrl`.
abbrev pub new_image : Option String → Option (Option String) → Product → Option String
new_image (some path) url p = some path
new_image none none p = p.image_url
new_image none (some url) p = image_of url

-- `isImageChanged`.
abbrev is_image_changed : Option String → Option (Option String) → Product → Bool
is_image_changed (some path) url p = true
is_image_changed none none p = false
is_image_changed none (some url) p = not (url === p.image_url)

abbrev pub edit : UpdateProductDto → Option String → Product → Product
edit dto image p = record p {
  type = given dto.type p.type;
  name = given dto.name p.name;
  price = given dto.price p.price;
  stock = given dto.stock p.stock;
  category_id = given dto.category_id p.category_id;
  image_url = image;
  version = p.version + 1;
}

unfoldable pub update_body : String → UpdateProductDto → Option String → Action Product
update_body id dto image = do
  updated ← Products.update id (edit dto image)
  Outbox.create
      (product_event updated.id "product.updated" [] "product-updated:" (decimal updated.version))
  pure updated

abbrev drop_old_image : Bool → Option String → Option String → Action (Unit {0})
drop_old_image changed old new = when (changed && not (old === new)) (delete_file old)

unfoldable pub update_attempt : String → UpdateProductDto → Option String → Product → Action Product
update_attempt id dto uploaded existing = do
  updated ← transaction (update_body id dto (new_image uploaded dto.image_url existing))
  drop_old_image (is_image_changed uploaded dto.image_url existing) existing.image_url
      (new_image uploaded dto.image_url existing)
  invalidate_product_caches id
  pure updated

-- The `try` of `update`.
unfoldable pub save : String → UpdateProductDto → Option String → Product → Action Product
save id dto uploaded existing =
    catch_error (update_attempt id dto uploaded existing) (drop_upload uploaded)

abbrev ensure_new_category : Option String → Action (Unit {0})
ensure_new_category none = skip
ensure_new_category (some id) = when (not (id === "")) (ensure_category_exists id)

-- The guards before the `try` do not delete the uploaded file.
unfoldable pub update : String → UpdateProductDto → String → Option String → Action Product
update id dto seller uploaded = do
  existing ← find_owned_product id seller
  raise_if (existing.type === ProductType.auction && not (existing.status === ProductStatus.draft))
      (bad_request Reason.auction_not_editable)
  ensure_new_category dto.category_id
  save id dto uploaded existing
