-- ===== src/Products.antt =====
-- The life of a product (backend/src/products/products.service.ts): `submitForApproval`, `approve` and `reject`,
-- `remove` and `restore`. The `correlationId` of the payloads is left out.
pub mod Editing
pub mod Claims
pub mod Approval
pub mod Lifecycle
use multi_marketplace.Base.{
  ℕ, ◌+◌, String, Bool, true, false, ◌&&◌, ◌||◌, not, List, [], ◌∷◌, Option, none, some, ◌==◌,
  if◌then◌else◌, decimal,
}
use multi_marketplace.Store.{
  World, Product, Auction, ProductStatus, ProductType, Signal, Value, Action, Reason, gets,
  raise_if, or_raise, pure, skip, send, transaction, bad_request, forbidden, not_found, ◌===◌,
  ◌>>=◌, ◌>>◌, string_eq, product_status_eq, product_type_eq,
}
use multi_marketplace.Repository.Products.{find_by_id, claim_status, find_or_throw}
use multi_marketplace.Repository.Carts
use multi_marketplace.Repository.Auctions
use multi_marketplace.Repository.Outbox
use multi_marketplace.Repository.Outbox.{EventData}
use Prim.Native.String.{◌++◌ as text_append}

-- An event about a product; its key is a prefix, the identifier and a suffix.
abbrev pub product_event : String → String → List (String × Value) → String → String → EventData
product_event id type payload prefix suffix = record {
  order_id = none;
  seller_order_id = none;
  aggregate_type = "Product";
  aggregate_id = id;
  type = type;
  payload = ("productId", Value.text id) ∷ payload;
  available_at = none;
  idempotency_key = text_append (text_append (text_append prefix id) ":") suffix;
}

abbrev pub status_name : ProductStatus → String
status_name ProductStatus.draft = "DRAFT"
status_name ProductStatus.pending_approval = "PENDING_APPROVAL"
status_name ProductStatus.active = "ACTIVE"
status_name ProductStatus.rejected = "REJECTED"
status_name ProductStatus.archived = "ARCHIVED"
status_name ProductStatus.sold = "SOLD"

-- `findOwnedProduct`.
unfoldable pub find_owned_product : String → String → Action Product
find_owned_product id seller = do
  product ← or_raise (← gets (find_by_id id)) (not_found Reason.product_missing)
  raise_if (not (product.seller_id === seller)) (forbidden Reason.product_not_owned)
  pure product

-- `invalidateProductCaches`.
abbrev pub invalidate_product_caches : String → Action (Unit {0})
invalidate_product_caches id = do
  send (Signal.drop_cache "products:list:*")
  send (Signal.drop_cache "search:products:*")
  send (Signal.drop_cache (text_append "products:detail:" id))

abbrev pub is_draft_of : String → Product → Bool
is_draft_of seller p =
    p.seller_id === seller && p.status === ProductStatus.draft && not p.is_archived

abbrev pub set_pending : Product → Product
set_pending p = record p { status = ProductStatus.pending_approval }

unfoldable pub submit_body : String → String → Action Product
submit_body id seller = do
  claimed ← claim_status id (is_draft_of seller) set_pending
  raise_if (claimed == 0) (bad_request Reason.not_draft)
  submitted ← find_or_throw id
  Outbox.create (
      product_event id "product.submitted_for_approval" (("sellerId", Value.text seller) ∷ [])
        "product-submitted-for-approval:" (decimal submitted.version))
  pure submitted

unfoldable pub submit_for_approval : String → String → Action Product
submit_for_approval id seller = do
  find_owned_product id seller
  product ← transaction (submit_body id seller)
  invalidate_product_caches id
  pure product

abbrev pub is_pending_approval : Product → Bool
is_pending_approval p = p.status === ProductStatus.pending_approval && not p.is_archived

-- `status, version: { increment: 1 }`.
abbrev pub moderated : ProductStatus → Product → Product
moderated status p = record p { status = status; version = p.version + 1 }

-- What the administrator decides: `approve` and `reject` give the status.
pub data Verdict : Type 0 where
  approve reject : Verdict

abbrev pub verdict_status : Verdict → ProductStatus
verdict_status Verdict.approve = ProductStatus.active
verdict_status Verdict.reject = ProductStatus.rejected

abbrev verdict_event : Verdict → String
verdict_event Verdict.approve = "product.approved"
verdict_event Verdict.reject = "product.rejected"

abbrev optional_text : Option String → Value
optional_text none = Value.null
optional_text (some s) = Value.text s

abbrev open_auction : Option Auction → ℕ → Action (Unit {0})
open_auction none now = skip
open_auction (some a) now = do Auctions.activate_draft_if_started a.id now; skip

-- The auction of an approved product starts, if it is time.
unfoldable pub start_if_auction : Verdict → Product → ℕ → Action (Unit {0})
start_if_auction Verdict.reject p now = skip
start_if_auction Verdict.approve p now =
    if p.type === ProductType.auction
    then (do auction ← gets (Auctions.find_by_product_id p.id); open_auction auction now)
    else skip

unfoldable pub moderate_body : String → String → Verdict → Option String → ℕ → Action Product
moderate_body id admin verdict comment now = do
  claimed ← claim_status id is_pending_approval (moderated (verdict_status verdict))
  raise_if (claimed == 0) (bad_request Reason.already_moderated)
  updated ← find_or_throw id
  start_if_auction verdict updated now
  Outbox.create (
      product_event id (verdict_event verdict)
        (("adminId", Value.text admin)
          ∷ ("comment", optional_text comment)
          ∷ ("status", Value.text (status_name (verdict_status verdict)))
          ∷ [])
        "product-moderated:"
        (text_append (text_append (decimal updated.version) ":")
          (status_name (verdict_status verdict))))
  pure updated

-- `moderate`, which `approve` and `reject` call.
unfoldable pub moderate : String → String → Verdict → Option String → ℕ → Action Product
moderate id admin verdict comment now = do
  existing ← or_raise (← gets (find_by_id id)) (not_found Reason.product_missing)
  raise_if (not (is_pending_approval existing)) (bad_request Reason.not_pending_approval)
  product ← transaction (moderate_body id admin verdict comment now)
  invalidate_product_caches id
  pure product

abbrev pub is_on_sale_of : String → Product → Bool
is_on_sale_of seller p = p.seller_id === seller && not p.is_archived

abbrev pub archive : Product → Product
archive p = record p {
  is_archived = true;
  status = ProductStatus.archived;
  version = p.version + 1;
}

abbrev cancel_if_auction : String → Product → Action (Unit {0})
cancel_if_auction id p =
    if p.type === ProductType.auction then (do Auctions.cancel_for_product id; skip) else skip

-- `existing` was read before the transaction.
unfoldable pub remove_body : String → String → Product → Action (Unit {0})
remove_body id seller existing = do
  claimed ← claim_status id (is_on_sale_of seller) archive
  raise_if (claimed == 0) (bad_request Reason.already_archived)
  cancel_if_auction id existing
  archived ← find_or_throw id
  Carts.remove_product id
  Outbox.create
      (product_event id "product.archived" [] "product-archived:" (decimal archived.version))

unfoldable pub remove : String → String → Action (Unit {0})
remove id seller = do
  existing ← find_owned_product id seller
  transaction (remove_body id seller existing)
  invalidate_product_caches id
  send (Signal.drop_cache "cart:*")

abbrev pub is_archived_of : String → Product → Bool
is_archived_of seller p = p.seller_id === seller && p.is_archived

abbrev pub restore_row : Product → Product
restore_row p = record p {
  is_archived = false;
  status = ProductStatus.draft;
  version = p.version + 1;
}

unfoldable pub restore_body : String → String → Action Product
restore_body id seller = do
  claimed ← claim_status id (is_archived_of seller) restore_row
  raise_if (claimed == 0) (bad_request Reason.not_archived)
  restored ← find_or_throw id
  Outbox.create (
      product_event id "product.restored" (("status", Value.text "DRAFT") ∷ []) "product-restored:"
        (decimal restored.version))
  pure restored

unfoldable pub restore : String → String → Action Product
restore id seller = do
  find_owned_product id seller
  product ← transaction (restore_body id seller)
  invalidate_product_caches id
  pure product
