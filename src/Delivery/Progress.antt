-- ===== src/Delivery/Progress.antt =====
-- The job that delivers an event that is due (Delivery).
use multi_marketplace.Base.{
  ℕ, ◌<◌, ◌≡◌, refl, sym, String, true, false, Option, none, some, arith, find_first, update_where,
  count_where, count_where-pos, any-none, find_first-update_where, find_first-test, str_eq, subst,
  ◌==◌,
}
use multi_marketplace.Store.{
  World, OutboxEvent, OutboxStatus, Receipt, Result, ok, ◌===◌, string_eq, outbox_status_eq,
}
use multi_marketplace.Delivery.{
  is_available, find_event, is_claimable, lease, claim_event, update_event, is_receipt,
  create_receipt, set_if_absent, announce_order, deliver_order, deliver_new, deliver_unless,
  deliver, deliver_claimed, process_outbox_event, set_status,
}

-- The event is there and processed.
abbrev pub IsProcessed : String → World → Type 0
IsProcessed id w =
    (e : OutboxEvent) × (find_event id w ≡ some e) × (e.status ≡ OutboxStatus.processed)

-- The call returns, and the event is processed.
abbrev pub Delivers : String → Result (Unit {0}) × World → Type 0
Delivers id r = (r.0 ≡ ok tt) × IsProcessed id r.1

update_event-Delivers :
    (id : String) (e : OutboxEvent) (w : World)
    → find_event id w ≡ some e
    → Delivers id (update_event id (set_status OutboxStatus.processed) w)
unfolding update_event
update_event-Delivers id e w there =
    let some_row : 0 < count_where (λ c. c.id === id) w.outbox =
      count_where-pos (λ c. c.id === id) (λ c. c.id === id) w.outbox there
        (find_first-test (λ c. c.id === id) w.outbox there) in
    let found : find_first (λ c. c.id === id)
          (update_where (λ c. c.id === id) (set_status OutboxStatus.processed) w.outbox)
        ≡ some (set_status OutboxStatus.processed e) =
      rw
        (
          find_first-update_where (λ c. c.id === id) (λ c. c.id === id)
              (set_status OutboxStatus.processed) w.outbox (λ c. refl),
          there,
          find_first-test (λ c. c.id === id) w.outbox there,
        )
        refl in
    (
      ground (arith, some_row),
      (set_status OutboxStatus.processed e, ground (arith, some_row, found), refl),
    )

deliver_order-returns :
    (e : OutboxEvent) (at : ℕ) (w : World)
    → ((deliver_order e at w).0 ≡ ok tt)
      × ((deliver_order e at w).1.outbox ≡ w.outbox)
      × ((deliver_order e at w).1.receipts ≡ w.receipts)
unfolding deliver_order announce_order set_if_absent
deliver_order-returns e at w = (ground arith, ground arith, ground arith)

create_receipt-returns :
    (id : String) (w : World)
    → find_first (is_receipt id) w.receipts ≡ none
    → ((create_receipt id w).0 ≡ ok tt) × ((create_receipt id w).1.outbox ≡ w.outbox)
unfolding create_receipt
create_receipt-returns id w free =
    let none_there = any-none (is_receipt id) w.receipts free in
    (ground (arith, none_there), ground (arith, none_there))

-- Without a change of stock to announce, the delivery is the chain of the three other calls.
deliver_new-chain :
    (id : String) (e : OutboxEvent) (stock_at at : ℕ) (w : World)
    → (e.type === "product.stock-changed") ≡ false
    → (deliver_order e at w).0 ≡ ok tt
    → (create_receipt e.id (deliver_order e at w).1).0 ≡ ok tt
    → deliver_new id e stock_at at w
      ≡ update_event id
          (set_status OutboxStatus.processed)
          (create_receipt e.id (deliver_order e at w).1).1
unfolding deliver_new
deliver_new-chain id e stock_at at w other returned written =
    ground (arith, other, returned, written)

deliver_new-Delivers :
    (id : String) (e : OutboxEvent) (stock_at at : ℕ) (w : World)
    → find_event id w ≡ some e
    → (e.type === "product.stock-changed") ≡ false
    → find_first (is_receipt e.id) w.receipts ≡ none
    → Delivers id (deliver_new id e stock_at at w)
deliver_new-Delivers id e stock_at at w there other free =
    let (returned, outbox, receipts) = deliver_order-returns e at w in
    let (written, outbox') =
      create_receipt-returns e.id (deliver_order e at w).1 (rw receipts free) in
    let done =
      update_event-Delivers id e (create_receipt e.id (deliver_order e at w).1).1
        (rw (outbox', outbox) there) in
    subst (Delivers id) (sym (deliver_new-chain id e stock_at at w other returned written)) done

deliver-Delivers :
    (id : String) (e : OutboxEvent) (stock_at at : ℕ) (w : World)
    → find_event id w ≡ some e
    → (e.type === "product.stock-changed") ≡ false
    → Delivers id (deliver id stock_at at w)
unfolding deliver
deliver-Delivers id e stock_at at w there other =
    rw there (received (find_first (is_receipt e.id) w.receipts) refl)
  where
    received :
        (r : Option Receipt)
        → find_first (is_receipt e.id) w.receipts ≡ r
        → Delivers id (deliver_unless id e r stock_at at w)
    received none free = deliver_new-Delivers id e stock_at at w there other free
    received (some r) before = update_event-Delivers id e w there

-- Nothing is given back where nothing was raised.
uncaught :
    (id : String) (attempts stock_at at now : ℕ) (w : World)
    → (deliver id stock_at at w).0 ≡ ok tt
    → deliver_claimed id attempts stock_at at now false w ≡ deliver id stock_at at w
uncaught id attempts stock_at at now w returned = ground (arith, returned)

-- An event that is pending and due, and announces no change of stock, is processed by the job that delivers
-- it: the call returns, whether or not a receipt is there already, and leaves the event PROCESSED.
pub process_outbox_event-Delivers :
    (id : String) (attempts now now' stock_at at now'' : ℕ) (e : OutboxEvent) (w : World)
    → find_event id w ≡ some e
    → (e.status === OutboxStatus.pending) ≡ true
    → is_available now e ≡ true
    → (e.type === "product.stock-changed") ≡ false
    → Delivers id (process_outbox_event id attempts now now' stock_at at now'' w)
unfolding process_outbox_event claim_event
process_outbox_event-Delivers id attempts now now' stock_at at now'' e w there pending due other =
    let named : str_eq e.id id ≡ true = find_first-test (λ c. c.id === id) w.outbox there in
    let claimable : is_claimable id now e ≡ true = ground (arith, named, pending, due) in
    let some_row : 0 < count_where (is_claimable id now) w.outbox =
      count_where-pos (λ c. c.id === id) (is_claimable id now) w.outbox there claimable in
    let v : World = (claim_event id now now' w).1 in
    let found : find_event id v ≡ some (lease now' e) =
      rw
        (
          find_first-update_where (λ c. c.id === id) (is_claimable id now) (lease now') w.outbox
              (λ c. refl),
          there,
          claimable,
        )
        refl in
    let delivered : Delivers id (deliver id stock_at at v) =
      deliver-Delivers id (lease now' e) stock_at at v found other in
    let counted : (count_where (is_claimable id now) w.outbox == 0) ≡ false =
      ground (arith, some_row) in
    rw counted
      (subst (Delivers id) (sym (uncaught id attempts stock_at at now'' v delivered.0)) delivered)
