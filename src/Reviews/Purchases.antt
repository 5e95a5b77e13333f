-- ===== src/Reviews/Purchases.antt =====
-- Who can review what (Reviews).
use multi_marketplace.Base.{
  ◌≤◌, ◌≡◌, refl, String, true, false, [], ◌∷◌, ◌++◌, Option, none, some, arith, any,
}
use multi_marketplace.Store.{
  World, Review, SellerOrderStatus, ok, ◌===◌, string_eq, seller_order_status_eq,
}
use multi_marketplace.Repository.Disputes.{find_by_order_item_id, create_review, is_taken}
use multi_marketplace.Repository.Outbox
use multi_marketplace.Reviews.{
  Purchase, ReviewDto, find_order_item_for_review, record_review, review_body, create,
}

-- A call of `create` that returns was for an item of a completed seller order of the author, which nobody had reviewed, for a
-- product that the author had not reviewed, with a rating from 1 to 5; it adds the review that it returns, and no other.
pub create_reviews :
    (author : String) (dto : ReviewDto) (w : World) {r : Review} {w' : World}
    → create author dto w ≡ (ok r, w')
    → (p : Purchase) × (find_order_item_for_review dto.order_item_id w ≡ some p)
      × ((p.1.1.user_id === author) ≡ true)
      × ((p.1.0.status === SellerOrderStatus.completed) ≡ true)
      × (find_by_order_item_id dto.order_item_id w ≡ none)
      × (any (is_taken r) w.reviews ≡ false)
      × (w'.reviews ≡ w.reviews ++ r ∷ [])
      × (r.author_id ≡ author)
      × (r.product_id ≡ p.0.product_id)
      × (r.order_item_id ≡ dto.order_item_id)
      × (1 ≤ r.rating)
      × (r.rating ≤ 5)
unfolding create review_body record_review create_review Outbox.create
create_reviews author dto w {r} {w'} h = given (find_order_item_for_review dto.order_item_id w) refl
  where
    given :
        (o : Option Purchase)
        → find_order_item_for_review dto.order_item_id w ≡ o
        → (p : Purchase) × (o ≡ some p)
          × ((p.1.1.user_id === author) ≡ true)
          × ((p.1.0.status === SellerOrderStatus.completed) ≡ true)
          × (find_by_order_item_id dto.order_item_id w ≡ none)
          × (any (is_taken r) w.reviews ≡ false)
          × (w'.reviews ≡ w.reviews ++ r ∷ [])
          × (r.author_id ≡ author)
          × (r.product_id ≡ p.0.product_id)
          × (r.order_item_id ≡ dto.order_item_id)
          × (1 ≤ r.rating)
          × (r.rating ≤ 5)
    given none e = absurd (ground (arith, h, e))
    given (some p) e = (
      p,
      refl,
      ground (arith, h, e),
      ground (arith, h, e),
      ground (arith, h, e),
      ground (arith, h, e),
      ground (arith, h, e),
      ground (arith, h, e),
      ground (arith, h, e),
      ground (arith, h, e),
      ground (arith, h, e),
      ground (arith, h, e),
    )
