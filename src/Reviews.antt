-- ===== src/Reviews.antt =====
-- `create` of backend/src/reviews/reviews.service.ts. A rating that is no natural number is refused like 0,
-- and is not represented; the `correlationId` is left out.
pub mod Purchases
use multi_marketplace.Base.{
  ℕ, String, Bool, ◌||◌, not, List, [], ◌∷◌, Option, none, some, is_some, ltb, trim_or,
  if◌then◌else◌, is_blank, trim,
}
use multi_marketplace.Store.{
  World, OrderItem, SellerOrder, Order, Review, SellerOrderStatus, Signal, Value, Action, Error,
  Reason, gets, raise, raise_if, or_raise, pure, send, transaction, catch_error, bad_request,
  conflict, forbidden, not_found, unique_violation, record_missing, ◌===◌, ◌>>=◌, ◌>>◌, string_eq,
  seller_order_status_eq,
}
use multi_marketplace.Repository.Orders.{find_item}
use multi_marketplace.Repository.Disputes.{find_by_order_item_id, create_review}
use multi_marketplace.Repository.Outbox
use multi_marketplace.Repository.Outbox.{EventData}
use multi_marketplace.Orders.Shipping.{WithOrder, find_with_order}
use multi_marketplace.Products.{invalidate_product_caches}
use Prim.Native.String.{◌++◌ as text_append}

-- The item with its seller order and its order.
abbrev pub Purchase : Type 0
Purchase = OrderItem × WithOrder

abbrev join_purchase : OrderItem → Option WithOrder → Option Purchase
join_purchase i none = none
join_purchase i (some found) = some (i, found)

abbrev join_item : Option OrderItem → World → Option Purchase
join_item none w = none
join_item (some i) w = join_purchase i (find_with_order i.seller_order_id w)

unfoldable pub find_order_item_for_review : String → World → Option Purchase
find_order_item_for_review id w = join_item (find_item id w) w

-- `CreateReviewDto`.
pub record ReviewDto : Type 0 where
  pub order_item_id : String
  pub rating : ℕ
  pub comment : Option String

-- `dto.comment?.trim() || null`.
abbrev comment_of : Option String → Option String
comment_of none = none
comment_of (some s) = if is_blank s then none else some (trim s)

-- The `catch` around the insert.
abbrev taken_as_reviewed : Error → Action Review
taken_as_reviewed unique_violation = raise (conflict Reason.review_exists)
taken_as_reviewed (bad_request r) = raise (bad_request r)
taken_as_reviewed (conflict r) = raise (conflict r)
taken_as_reviewed (forbidden r) = raise (forbidden r)
taken_as_reviewed (not_found r) = raise (not_found r)
taken_as_reviewed record_missing = raise record_missing

abbrev review_event : Review → EventData
review_event r = record {
  order_id = none;
  seller_order_id = none;
  aggregate_type = "Review";
  aggregate_id = r.id;
  type = "review.created";
  payload =
      ("reviewId", Value.text r.id)
      ∷ ("productId", Value.text r.product_id)
      ∷ ("orderItemId", Value.text r.order_item_id)
      ∷ ("authorId", Value.text r.author_id)
      ∷ ("rating", Value.count r.rating)
      ∷ [];
  available_at = none;
  idempotency_key = text_append "review-created:" r.id;
}

-- From the insert to the end of the transaction.
unfoldable pub record_review : String → ReviewDto → OrderItem → Action Review
record_review author dto item = do
  created ←
      catch_error
        (create_review dto.order_item_id item.product_id author dto.rating (comment_of dto.comment))
        taken_as_reviewed
  Outbox.create (review_event created)
  pure created

abbrev pub review_purchase : String → ReviewDto → Purchase → Action Review
review_purchase author dto (item, (seller_order, order)) = do
  raise_if (not (order.user_id === author)) (forbidden Reason.review_not_own)
  raise_if (not (seller_order.status === SellerOrderStatus.completed))
      (conflict Reason.review_not_completed)
  existing ← gets (find_by_order_item_id dto.order_item_id)
  raise_if (is_some existing) (conflict Reason.review_exists)
  record_review author dto item

unfoldable pub review_body : String → ReviewDto → Action Review
review_body author dto = do
  found ←
      or_raise (← gets (find_order_item_for_review dto.order_item_id))
        (not_found Reason.item_missing)
  review_purchase author dto found

unfoldable pub create : String → ReviewDto → Action Review
create author dto = do
  raise_if (ltb dto.rating 1 || ltb 5 dto.rating) (bad_request Reason.rating_invalid)
  review ← transaction (review_body author dto)
  invalidate_product_caches review.product_id
  pure review
