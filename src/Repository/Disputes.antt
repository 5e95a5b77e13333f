-- ===== src/Repository/Disputes.antt =====
-- backend/src/database/dispute.repository.ts and backend/src/database/review.repository.ts.
use multi_marketplace.Base.{
  ℕ, String, Bool, ◌&&◌, ◌||◌, [], ◌∷◌, ◌++◌, Option, none, find_first, update_where, any,
}
use multi_marketplace.Store.{
  World, Dispute, DisputeStatus, Review, Action, gets, modify, pure, raise_if, or_raise, fresh_id,
  unique_violation, record_missing, ◌===◌, ◌>>=◌, ◌>>◌, string_eq, dispute_status_eq,
}

abbrev pub is_unresolved : Dispute → Bool
is_unresolved d = d.status === DisputeStatus.opened || d.status === DisputeStatus.under_review

abbrev pub is_active_for : String → Dispute → Bool
is_active_for seller_order d = d.seller_order_id === seller_order && is_unresolved d

unfoldable pub find_active_for_seller_order : String → World → Option Dispute
find_active_for_seller_order seller_order w = find_first (is_active_for seller_order) w.disputes

unfoldable pub find_dispute : String → World → Option Dispute
find_dispute id w = find_first (λ d. d.id === id) w.disputes

abbrev pub dispute_row : String → String → String → String → String → Dispute
dispute_row id seller_order opened_by subject description = record {
  id = id;
  seller_order_id = seller_order;
  opened_by_id = opened_by;
  resolved_by_id = none;
  status = DisputeStatus.opened;
  subject = subject;
  description = description;
  resolution = none;
  resolved_at = none;
}

unfoldable pub create_dispute : String → String → String → String → Action Dispute
create_dispute seller_order opened_by subject description = do
  id ← fresh_id
  modify λ w. record w {
    disputes = w.disputes ++ dispute_row id seller_order opened_by subject description ∷ [];
  }
  pure (dispute_row id seller_order opened_by subject description)

unfoldable pub create_history : String → String → DisputeStatus → Option String → Action (Unit {0})
create_history dispute actor status note = do
  id ← fresh_id
  modify λ w. record w {
    dispute_history =
        w.dispute_history
        ++ record { id = id; dispute_id = dispute; actor_id = actor; status = status; note = note }
          ∷ [];
  }

unfoldable pub update_dispute : String → (Dispute → Dispute) → Action Dispute
update_dispute id change = do
  modify λ w. record w { disputes = update_where (λ d. d.id === id) change w.disputes }
  or_raise (← gets (find_dispute id)) record_missing

unfoldable pub find_by_order_item_id : String → World → Option Review
find_by_order_item_id item w = find_first (λ r. r.order_item_id === item) w.reviews

-- The order item is unique, and so are the product and the author together.
abbrev pub is_taken : Review → Review → Bool
is_taken new r =
    r.order_item_id === new.order_item_id
    || (r.product_id === new.product_id && r.author_id === new.author_id)

unfoldable pub create_review : String → String → String → ℕ → Option String → Action Review
create_review item product author rating comment = do
  id ← fresh_id
  row ← pure (record {
    id = id;
    product_id = product;
    author_id = author;
    order_item_id = item;
    rating = rating;
    comment = comment;
  })
  raise_if (← gets λ w. any (is_taken row) w.reviews) unique_violation
  modify λ w. record w { reviews = w.reviews ++ row ∷ [] }
  pure row
