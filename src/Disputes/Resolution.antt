-- ===== src/Disputes/Resolution.antt =====
-- The table of disputes under `open` and `resolve` (Disputes).
use multi_marketplace.Base.{
  ℕ, ℤ, ◌≡◌, ◌⊎◌, refl, sym, ap, ◌∙◌, inl, inr, String, Bool, true, false, ◌&&◌, List, [], ◌∷◌,
  ◌++◌, Option, none, some, arith, find_first, update_where, find_first-test, eq_of_str_eq,
  if◌then◌else◌, trim,
}
use multi_marketplace.Store.{
  World, Dispute, pure, DisputeStatus, OrderItem, SellerOrder, SellerOrderStatus, Payment, Result,
  ok, err, ◌===◌, string_eq, seller_order_status_eq,
}
use multi_marketplace.Store.Frame.{Preserves, Preserves->>=, >>=-eq-ok}
use multi_marketplace.Store.Rules.{Preserved, Preserved-apply, chains, preserved}
use multi_marketplace.Repository.Disputes.{
  is_unresolved, find_active_for_seller_order, find_dispute, create_dispute, create_history,
  update_dispute, dispute_row,
}
use multi_marketplace.Repository.Outbox
use multi_marketplace.Repository.Outbox.{EventData}
use multi_marketplace.Repository.Orders.{update_seller_order, update_payment}
use multi_marketplace.Repository.Orders.Creation.{
  RefundData, LedgerData, create_plain_refund, create_ledger_entry,
}
use multi_marketplace.Disputes.{
  DisputeDetails, record_dispute, open_body, open_dispute, is_resolution, for_customer, resolve_row,
  close_dispute, refund_quantity, refund_rest, refund_items, refund_all, refund_due, settle_dispute,
  resolve_found, resolve_body, resolve_dispute, find_by_id_for_resolve,
}

module _ (ds : List Dispute) where
  abbrev Same : World → Type 0
  Same w = w.disputes ≡ ds

  plain_refund-Same : (d : RefundData) → Preserved Same (create_plain_refund d)
  unfolding create_plain_refund
  plain_refund-Same d = preserved Same (create_plain_refund d) (λ w h. ground (arith, h))

  ledger_entry-Same :
      (column : ℤ → ℤ) (d : LedgerData) → Preserved Same (create_ledger_entry column d)
  unfolding create_ledger_entry
  ledger_entry-Same column d =
      preserved Same (create_ledger_entry column d) (λ w h. ground (arith, h))

  refund_quantity-Same :
      (column : ℤ → ℤ) (d : Dispute) (p : Payment) (now : ℕ) (i : OrderItem) (total q : ℕ)
      → Preserved Same (refund_quantity column d p now i total q)
  unfolding refund_quantity
  refund_quantity-Same column d p now i total q =
      search (chains, plain_refund-Same, ledger_entry-Same)

  refund_some-Same :
      (column : ℤ → ℤ) (d : Dispute) (p : Payment) (now : ℕ) (i : OrderItem) (total q : ℕ)
      (b : Bool)
      → Preserved Same (if b then pure total else refund_quantity column d p now i total q)
  refund_some-Same column d p now i total q true = search chains
  refund_some-Same column d p now i total q false = refund_quantity-Same column d p now i total q

  refund_rest-Same :
      (column : ℤ → ℤ) (d : Dispute) (p : Payment) (now : ℕ) (i : OrderItem) (total : ℕ)
      → Preserved Same (refund_rest column d p now i total)
  unfolding refund_rest
  refund_rest-Same column d p now i total = search (chains, refund_some-Same)

  refund_items-Same :
      (column : ℤ → ℤ) (d : Dispute) (p : Payment) (now : ℕ) (is : List OrderItem) (total : ℕ)
      → Preserves Same (refund_items column d p now is total)
  unfolding refund_items
  refund_items-Same column d p now [] total w h = h
  refund_items-Same column d p now (i ∷ is) total w h =
      Preserves->>= Same (refund_rest column d p now i total) (refund_items column d p now is)
        (Preserved-apply Same (refund_rest column d p now i total)
          (refund_rest-Same column d p now i total))
        (λ t. refund_items-Same column d p now is t) w h

  seller_order-Same :
      (id : String) (f : SellerOrder → SellerOrder) → Preserved Same (update_seller_order id f)
  unfolding update_seller_order
  seller_order-Same id f = preserved Same (update_seller_order id f) (λ w h. h)

  payment-Same : (id : String) (f : Payment → Payment) → Preserved Same (update_payment id f)
  unfolding update_payment
  payment-Same id f = preserved Same (update_payment id f) (λ w h. h)

  items-Same :
      (column : ℤ → ℤ) (d : Dispute) (p : Payment) (now : ℕ) (is : List OrderItem) (total : ℕ)
      → Preserved Same (refund_items column d p now is total)
  items-Same column d p now is total =
      preserved Same (refund_items column d p now is total)
        (refund_items-Same column d p now is total)

  refund_all-Same :
      (column : ℤ → ℤ) (d : DisputeDetails) (p : Payment) (now : ℕ)
      → Preserved Same (refund_all column d p now)
  unfolding refund_all
  refund_all-Same column d p now =
      search (chains, items-Same, seller_order-Same, payment-Same) depth 9

  refund_due-Same :
      (column : ℤ → ℤ) (d : DisputeDetails) (now : ℕ) (b : Bool)
      → Preserved Same (refund_due column d now b)
  refund_due-Same column d now true = search (chains, refund_all-Same)
  refund_due-Same column d now false = search chains

-- The two calls, as what they make of the table of disputes.
pub open_disputes :
    (customer so subject description : String) (w : World)
    → ((open_dispute customer so subject description w).1.disputes ≡ w.disputes)
      ⊎ ((row : Dispute) × ((open_dispute customer so subject description w).1.disputes
            ≡ w.disputes ++ row ∷ [])
          × (row.seller_order_id ≡ so)
          × (find_active_for_seller_order so w ≡ none))
unfolding open_dispute open_body record_dispute create_dispute create_history Outbox.create
open_disputes customer so subject description w =
    given (open_body customer so subject description w) refl
  where
    given :
        (r : Result Dispute × World)
        → open_body customer so subject description w ≡ r
        → ((open_dispute customer so subject description w).1.disputes ≡ w.disputes)
          ⊎ ((row : Dispute) × ((open_dispute customer so subject description w).1.disputes
                ≡ w.disputes ++ row ∷ [])
              × (row.seller_order_id ≡ so)
              × (find_active_for_seller_order so w ≡ none))
    given (err e, v) h = inl (ground (arith, h))
    given (ok d, v) h = inr (opened d v h)
      where
        opened :
            (d : Dispute) (v : World)
            → open_body customer so subject description w ≡ (ok d, v)
            → (row : Dispute) × ((open_dispute customer so subject description w).1.disputes
                ≡ w.disputes ++ row ∷ [])
              × (row.seller_order_id ≡ so)
              × (find_active_for_seller_order so w ≡ none)
        opened d v h =
            let row = dispute_row (w.uuid w.drawn) so customer (trim subject) (trim description) in
            (row, ground (arith, h), refl, ground (arith, h))

close_dispute-disputes :
    (admin : String) (d : Dispute) (status : DisputeStatus) (resolution : Option String)
    (now total : ℕ) (w : World)
    → (close_dispute admin d status resolution now total w).1.disputes
      ≡ update_where (λ c. c.id === d.id) (resolve_row admin status resolution now) w.disputes
unfolding close_dispute update_dispute create_history Outbox.create
close_dispute-disputes admin d status resolution now total w = ground arith

settle_dispute-disputes :
    (column : ℤ → ℤ) (admin : String) (status : DisputeStatus) (resolution : Option String)
    (now : ℕ) (d : DisputeDetails) (w : World) {r : Dispute} {w' : World}
    → settle_dispute column admin status resolution now d w ≡ (ok r, w')
    → w'.disputes
      ≡ update_where
          (λ c. c.id === d.dispute.id)
          (resolve_row admin status resolution now)
          w.disputes
unfolding settle_dispute
settle_dispute-disputes column admin status resolution now d w h =
    let due = for_customer status && d.seller_order.status === SellerOrderStatus.completed in
    let (total, v, refunded, closed) =
      >>=-eq-ok (refund_due column d now due) (close_dispute admin d.dispute status resolution now)
        w h in
    let same : v.disputes ≡ w.disputes =
      sym (ap (λ r. r.1.disputes) refunded)
      ∙ Preserved-apply (Same w.disputes) (refund_due column d now due)
          (refund_due-Same w.disputes column d now due) w refl in
    sym (ap (λ r. r.1.disputes) closed)
    ∙ close_dispute-disputes admin d.dispute status resolution now total v
    ∙ ap (update_where (λ c. c.id === d.dispute.id) (resolve_row admin status resolution now)) same

find_by_id_for_resolve-dispute :
    (id : String) (w : World) {d : DisputeDetails}
    → find_by_id_for_resolve id w ≡ some d
    → (find_dispute id w ≡ some d.dispute) × (d.dispute.id ≡ id)
unfolding find_by_id_for_resolve find_dispute
find_by_id_for_resolve-dispute id w {d} h =
    let there : find_first (λ c. c.id === id) w.disputes ≡ some d.dispute = ground (arith, h) in
    (there, eq_of_str_eq d.dispute.id id (find_first-test (λ c. c.id === id) w.disputes there))

resolve_body-settled :
    (column : ℤ → ℤ) (admin id : String) (status : DisputeStatus) (resolution : Option String)
    (now : ℕ) (w : World) {r : Dispute} {v : World}
    → resolve_body column admin id status resolution now w ≡ (ok r, v)
    → (d : DisputeDetails) × (find_by_id_for_resolve id w ≡ some d)
      × (is_unresolved d.dispute ≡ true)
      × (is_resolution status ≡ true)
      × (settle_dispute column admin status resolution now d w ≡ (ok r, v))
unfolding resolve_body resolve_found
resolve_body-settled column admin id status resolution now w {r} {v} h =
    given (find_by_id_for_resolve id w) refl
  where
    given :
        (o : Option DisputeDetails)
        → find_by_id_for_resolve id w ≡ o
        → (d : DisputeDetails) × (o ≡ some d)
          × (is_unresolved d.dispute ≡ true)
          × (is_resolution status ≡ true)
          × (settle_dispute column admin status resolution now d w ≡ (ok r, v))
    given none e = absurd (ground (arith, h, e))
    given (some d) e = (d, refl, ground (arith, h, e), ground (arith, h, e), ground (arith, h, e))

pub resolve_disputes :
    (column : ℤ → ℤ) (admin id : String) (status : DisputeStatus) (resolution : Option String)
    (now : ℕ) (w : World)
    → ((resolve_dispute column admin id status resolution now w).1.disputes ≡ w.disputes)
      ⊎ ((d : Dispute) × (find_dispute id w ≡ some d)
          × (is_unresolved d ≡ true)
          × (is_resolution status ≡ true)
          × ((resolve_dispute column admin id status resolution now w).1.disputes
              ≡ update_where
                  (λ c. c.id === id)
                  (resolve_row admin status resolution now)
                  w.disputes))
unfolding resolve_dispute
resolve_disputes column admin id status resolution now w =
    given (resolve_body column admin id status resolution now w) refl
  where
    given :
        (r : Result Dispute × World)
        → resolve_body column admin id status resolution now w ≡ r
        → ((resolve_dispute column admin id status resolution now w).1.disputes ≡ w.disputes)
          ⊎ ((d : Dispute) × (find_dispute id w ≡ some d)
              × (is_unresolved d ≡ true)
              × (is_resolution status ≡ true)
              × ((resolve_dispute column admin id status resolution now w).1.disputes
                  ≡ update_where
                      (λ c. c.id === id)
                      (resolve_row admin status resolution now)
                      w.disputes))
    given (err e, v) h = inl (ground (arith, h))
    given (ok r, v) h =
        let (d, found, unresolved, valid, settled) =
          resolve_body-settled column admin id status resolution now w h in
        let (there, named) = find_by_id_for_resolve-dispute id w found in
        let left : (resolve_dispute column admin id status resolution now w).1 ≡ v =
          ground (arith, h) in
        inr (
          d.dispute,
          there,
          unresolved,
          valid,
          ap (λ u. u.disputes) left
              ∙ rw named at
                  (settle_dispute-disputes column admin status resolution now d w settled),
        )
