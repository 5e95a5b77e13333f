-- ===== src/Tests/Aftermath.antt =====
-- The theorems about disputes, deliveries of events, reviews and sellers, at concrete inputs.
use multi_marketplace.Base.{
  ℕ, ◌≤◌, ◌≡◌, refl, String, true, false, List, [], ◌∷◌, ◌++◌, Option, some, none, any,
  update_where, str_eq, ◌*◌,
}
use multi_marketplace.Base
use multi_marketplace.Store.{
  World, Dispute, DisputeStatus, OrderStatus, SellerOrderStatus, OutboxEvent, OutboxStatus, Review,
  SellerProfile, SellerStatus, Role, ok, ◌===◌, string_eq, seller_order_status_eq, seller_status_eq,
}
use multi_marketplace.Repository.Outbox
use multi_marketplace.Repository.Orders.{find_item, find_seller_order}
use multi_marketplace.Repository.Orders
use multi_marketplace.Orders.Shipping.{find_with_order}
use multi_marketplace.Repository.Disputes.{
  find_dispute, find_by_order_item_id, is_taken, create_review,
}
use multi_marketplace.Disputes.Courses
use multi_marketplace.Disputes.Courses.{AtMostOne, Course-AtMostOne, Course-resolved}
use multi_marketplace.Delivery.{find_event, process_outbox_event, mark_seconds}
use multi_marketplace.Delivery.Once
use multi_marketplace.Delivery.Marks.{Announced}
use multi_marketplace.Delivery.Once.{course-Announced}
use multi_marketplace.Delivery.Progress.{Delivers, process_outbox_event-Delivers}
use multi_marketplace.Reviews.{
  Purchase, ReviewDto, find_order_item_for_review, record_review, review_body,
}
use multi_marketplace.Reviews
use multi_marketplace.Reviews.Purchases.{create_reviews}
use multi_marketplace.Sellers.{
  find_profile, claim_pending, update_role, update_status, reviewed, approve_body, approve,
}
use multi_marketplace.Sellers.Approval.{approve_grants}
use multi_marketplace.Tests.Worlds.{cents_of, paid, no_rows, bobs_order, sams_part}

-- bob's order once it is completed.
abbrev completed : World
completed = record paid {
  orders = record bobs_order { status = OrderStatus.completed } ∷ [];
  seller_orders = record sams_part { status = SellerOrderStatus.completed } ∷ [];
}

abbrev opened : Courses.Call
opened = Courses.Call.opening "bob" "part-1" "Chipped" "Both mugs"

abbrev refunded : Courses.Call
refunded = Courses.Call.resolution "root" "id-0" DisputeStatus.resolved_for_customer none 9

no_dispute : AtMostOne "part-1" completed
no_dispute = ground Base.arith

Course-AtMostOne_example :
    AtMostOne "part-1" (Courses.after cents_of opened (Courses.after cents_of opened completed))
Course-AtMostOne_example =
    Course-AtMostOne cents_of "part-1"
      (Courses.Course.next opened (Courses.Course.next opened Courses.Course.start)) no_dispute

abbrev settled_dispute : Dispute
settled_dispute = record {
  id = "d-1";
  seller_order_id = "part-1";
  opened_by_id = "bob";
  resolved_by_id = some "root";
  status = DisputeStatus.resolved_for_seller;
  subject = "Chipped";
  description = "Both mugs";
  resolution = none;
  resolved_at = some 8;
}

abbrev settled : World
settled = record completed { disputes = settled_dispute ∷ [] }

settled_there : find_dispute "d-1" settled ≡ some settled_dispute
unfolding find_dispute str_eq
settled_there = refl

abbrev resolved_again : Courses.Call
resolved_again = Courses.Call.resolution "root" "d-1" DisputeStatus.resolved_for_customer none 9

Course-resolved_example :
    find_dispute "d-1"
      (Courses.after cents_of resolved_again (Courses.after cents_of opened settled))
    ≡ some settled_dispute
Course-resolved_example =
    Course-resolved cents_of "d-1" settled_dispute
      (Courses.Course.next resolved_again (Courses.Course.next opened Courses.Course.start)) refl
      settled_there

abbrev paid_event : OutboxEvent
paid_event = record {
  id = "ev";
  order_id = some "order-1";
  seller_order_id = some "part-1";
  aggregate_type = "Payment";
  aggregate_id = "pay-1";
  type = "payment.paid";
  payload = [];
  status = OutboxStatus.pending;
  idempotency_key = "payment-paid:k";
  attempts = 0;
  available_at = none;
}

abbrev posted : World
posted = record paid { outbox = paid_event ∷ [] }

abbrev first_job : Once.Work
first_job = Once.Work.process "ev" 0 5 6 7 7 7

abbrev second_job : Once.Work
second_job = Once.Work.process "ev" 1 8 9 10 10 10

nothing_said : Announced (1000 * mark_seconds) "ev" posted
nothing_said = (ground Base.arith, ground Base.arith)

course-Announced_example :
    Announced (1000 * mark_seconds) "ev" (Once.course (first_job ∷ second_job ∷ []) posted)
course-Announced_example =
    course-Announced 0 "ev" (first_job ∷ second_job ∷ []) posted
      (
        ((omega Base.arith, omega Base.arith), (omega Base.arith, omega Base.arith)),
        (((omega Base.arith, omega Base.arith), (omega Base.arith, omega Base.arith)), tt),
      )
      nothing_said

event_there : find_event "ev" posted ≡ some paid_event
unfolding str_eq
event_there = refl

not_stock : (paid_event.type === "product.stock-changed") ≡ false
unfolding str_eq
not_stock = refl

process_outbox_event-Delivers_example : Delivers "ev" (process_outbox_event "ev" 0 5 6 7 7 7 posted)
process_outbox_event-Delivers_example =
    process_outbox_event-Delivers "ev" 0 5 6 7 7 7 paid_event posted event_there refl refl not_stock

abbrev five_stars : ReviewDto
five_stars = record { order_item_id = "item-of-1"; rating = 5; comment = some " Fine " }

abbrev bobs_review : Review
bobs_review = record {
  id = "id-0";
  product_id = "mug";
  author_id = "bob";
  order_item_id = "item-of-1";
  rating = 5;
  comment = some "Fine";
}

abbrev reviewed_shop : World
reviewed_shop = (Reviews.create "bob" five_stars completed).1

review_done : Reviews.create "bob" five_stars completed ≡ (ok bobs_review, reviewed_shop)
unfolding Reviews.create review_body record_review create_review find_order_item_for_review
    find_with_order find_item find_seller_order Orders.find_by_id find_by_order_item_id
    Outbox.create str_eq Base.is_blank Base.trim
review_done = refl

create_reviews_example :
    (p : Purchase) × (find_order_item_for_review "item-of-1" completed ≡ some p)
    × ((p.1.1.user_id === "bob") ≡ true)
    × ((p.1.0.status === SellerOrderStatus.completed) ≡ true)
    × (find_by_order_item_id "item-of-1" completed ≡ none)
    × (any (is_taken bobs_review) completed.reviews ≡ false)
    × (reviewed_shop.reviews ≡ completed.reviews ++ bobs_review ∷ [])
    × (bobs_review.author_id ≡ "bob")
    × (bobs_review.product_id ≡ p.0.product_id)
    × (bobs_review.order_item_id ≡ "item-of-1")
    × (1 ≤ bobs_review.rating)
    × (bobs_review.rating ≤ 5)
create_reviews_example = create_reviews "bob" five_stars completed review_done

abbrev anns_application : SellerProfile
anns_application = record {
  id = "app-1";
  user_id = "ann";
  display_name = "Ann's";
  description = none;
  status = SellerStatus.pending;
  rejection_reason = none;
  reviewed_at = none;
  reviewed_by_id = none;
}

abbrev ann_waiting : World
ann_waiting = record no_rows {
  profiles = anns_application ∷ [];
  users =
      record { id = "ann"; role = Role.customer }
      ∷ record { id = "bob"; role = Role.customer }
      ∷ [];
}

abbrev ann_selling : World
ann_selling = (approve "app-1" "root" 4 ann_waiting).1

abbrev anns_profile : SellerProfile
anns_profile = reviewed SellerStatus.approved "root" 4 none anns_application

approved : approve "app-1" "root" 4 ann_waiting ≡ (ok anns_profile, ann_selling)
unfolding approve approve_body find_profile claim_pending update_role update_status str_eq
approved = refl

approve_grants_example :
    (p : SellerProfile) × (find_profile "app-1" ann_waiting ≡ some p)
    × ((p.status === SellerStatus.pending) ≡ true)
    × (anns_profile ≡ record p {
      status = SellerStatus.approved;
      reviewed_by_id = some "root";
      reviewed_at = some 4;
      rejection_reason = none;
    })
    × (find_profile "app-1" ann_selling ≡ some anns_profile)
    × (ann_selling.users
        ≡ update_where
            (λ u. u.id === p.user_id)
            (λ u. record u { role = Role.seller })
            ann_waiting.users)
approve_grants_example = approve_grants "app-1" "root" 4 ann_waiting approved
