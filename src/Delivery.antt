-- ===== src/Delivery.antt =====
-- The delivery of outbox events of orders (backend/src/orders/orders.dispatcher.ts, `dispatchPending`, and
-- backend/src/orders/orders.processor.ts, `processOutboxEvent`). Each read of the clock is an argument, in the order
-- of the reads; so is the time at Redis, in milliseconds, when it sets a key. `lastError` and the logs are left out.
pub mod Marks
pub mod Once
pub mod Progress
use multi_marketplace.Base.{
  ℕ, zero, suc, ◌+◌, ◌*◌, String, Bool, true, false, ◌&&◌, ◌||◌, not, List, [], ◌∷◌, ◌++◌, Option,
  none, some, find_first, select, update_where, count_where, any, leb, ltb, ◌==◌, if◌then◌else◌,
  is_some,
}
use multi_marketplace.Store.{
  World, Order, SellerOrder, OutboxEvent, OutboxStatus, Receipt, Signal, Value, Action, Error,
  Reason, ok, gets, modify, raise, raise_if, or_raise, require_row, pure, skip, send, when,
  fresh_id, for_each, catch_error, bad_request, not_found, unique_violation, ◌===◌, ◌>>=◌, ◌>>◌,
  string_eq, outbox_status_eq,
}
use multi_marketplace.Repository.Orders.{find_by_id, find_seller_order}
use multi_marketplace.Orders.Cancellation.{join3}
use Prim.Native.String.{◌++◌ as text_append}

-- `availableAt: { lte: now }`; the default of the column is the time of the insert.
abbrev pub is_available : ℕ → OutboxEvent → Bool
is_available now e = elim e.available_at [ none ↦ true | some t ↦ leb t now ]

abbrev pub is_order_aggregate : OutboxEvent → Bool
is_order_aggregate e =
    e.aggregate_type === "Order"
    || e.aggregate_type === "SellerOrder"
    || e.aggregate_type === "Payment"

abbrev pub is_stalled : ℕ → OutboxEvent → Bool
is_stalled now e =
    is_order_aggregate e
    && e.status === OutboxStatus.processing
    && is_available now e
    && ltb e.attempts 5

abbrev pub is_waiting : ℕ → OutboxEvent → Bool
is_waiting now e =
    is_order_aggregate e
    && e.status === OutboxStatus.pending
    && is_available now e
    && ltb e.attempts 5

abbrev pub set_status : OutboxStatus → OutboxEvent → OutboxEvent
set_status status e = record e { status = status }

-- `take`.
abbrev pub take : {A : Type 0} → ℕ → List A → List A
take zero xs = []
take (suc n) [] = []
take (suc n) (x ∷ xs) = x ∷ take n xs

unfoldable pub dispatch_pending : ℕ → ℕ → Action (Unit {0})
dispatch_pending now now' = do
  modify λ w. record w {
    outbox = update_where (is_stalled now) (set_status OutboxStatus.pending) w.outbox;
  }
  events ← gets λ w. take 50 (select (is_waiting now') w.outbox)
  for_each events
      λ e. send (Signal.job "orders" "deliver-outbox-event" (text_append "outbox-" e.id))

abbrev pub find_event : String → World → Option OutboxEvent
find_event id w = find_first (λ e. e.id === id) w.outbox

-- The `where` and the `data` of the claim; the lease is thirty seconds, in milliseconds.
abbrev pub is_claimable : String → ℕ → OutboxEvent → Bool
is_claimable id now e = e.id === id && (e.status === OutboxStatus.pending && is_available now e)

abbrev pub lease : ℕ → OutboxEvent → OutboxEvent
lease now e = record e {
  status = OutboxStatus.processing;
  attempts = e.attempts + 1;
  available_at = some (now + 30000);
}

unfoldable pub claim_event : String → ℕ → ℕ → Action ℕ
claim_event id now now' w = (
  ok (count_where (is_claimable id now) w.outbox),
  record w { outbox = update_where (is_claimable id now) (lease now') w.outbox },
)

unfoldable pub update_event : String → (OutboxEvent → OutboxEvent) → Action (Unit {0})
update_event id change = do
  require_row (← gets λ w. count_where (λ e. e.id === id) w.outbox)
  modify λ w. record w { outbox = update_where (λ e. e.id === id) change w.outbox }

abbrev pub is_receipt : String → Receipt → Bool
is_receipt event r = r.event_id === event && r.consumer_name === "orders-websocket"

-- The event and the consumer together are unique.
unfoldable pub create_receipt : String → Action (Unit {0})
create_receipt event = do
  id ← fresh_id
  raise_if (← gets λ w. any (is_receipt event) w.receipts) unique_violation
  modify λ w. record w {
    receipts =
        w.receipts ++ record { id = id; event_id = event; consumer_name = "orders-websocket" } ∷ [];
  }

abbrev mark_unless : String → ℕ → Bool → Action Bool
mark_unless key expires true = pure false
mark_unless key expires false = do
  modify λ w. record w { delivered = w.delivered ++ (key, expires) ∷ [] }
  pure true

-- The key is set and has not expired.
abbrev pub is_live : String → ℕ → String × ℕ → Bool
is_live key now (k, expires) = k === key && ltb now expires

-- `setIfAbsent`, with the key's life in seconds: whether the key was absent.
unfoldable pub set_if_absent : String → ℕ → ℕ → Action Bool
set_if_absent key ttl_seconds now = do
  present ← gets λ w. any (is_live key now) w.delivered
  mark_unless key (now + 1000 * ttl_seconds) present

-- Thirty days.
abbrev pub mark_seconds : ℕ
mark_seconds = 60 * 60 * 24 * 30

abbrev pub stock_key : String → String
stock_key event = text_append "outbox:delivered:" event

abbrev pub order_key : String → String
order_key event = join3 "outbox:delivered:" event ":order"

abbrev pub field : String → List (String × Value) → Option Value
field name [] = none
field name ((key, value) ∷ rest) = if key === name then some value else field name rest

abbrev pub product_field : Option Value → Option String
product_field none = none
product_field (some Value.null) = none
product_field (some (Value.text s)) = if s === "" then none else some s
product_field (some (Value.count n)) = none
product_field (some (Value.money n)) = none

unfoldable pub announce_stock : String → String → Value → ℕ → Action (Unit {0})
announce_stock event product quantity now = do
  first ← set_if_absent (stock_key event) mark_seconds now
  when first (send (Signal.stock_event product quantity event))

abbrev pub announce_fields : String → Option String → Option Value → ℕ → Action (Unit {0})
announce_fields event none quantity now = raise (bad_request Reason.event_invalid)
announce_fields event (some product) none now = raise (bad_request Reason.event_invalid)
announce_fields event (some product) (some quantity) now = announce_stock event product quantity now

abbrev pub stock_if_changed : OutboxEvent → Bool → ℕ → Action (Unit {0})
stock_if_changed e false now = skip
stock_if_changed e true now =
    announce_fields e.id (product_field (field "productId" e.payload)) (field "quantity" e.payload)
      now

abbrev pub tell_seller : OutboxEvent → Order → Option SellerOrder → Action (Unit {0})
tell_seller e o none = skip
tell_seller e o (some s) = send (Signal.order_event s.seller_id o.id o.status e.id)

abbrev pub tell_both : OutboxEvent → Order → Option SellerOrder → Bool → Action (Unit {0})
tell_both e o s false = skip
tell_both e o s true = do send (Signal.order_event o.user_id o.id o.status e.id); tell_seller e o s

unfoldable pub announce_order : OutboxEvent → Order → Option SellerOrder → ℕ → Action (Unit {0})
announce_order e o s now = do
  first ← set_if_absent (order_key e.id) mark_seconds now
  tell_both e o s first

abbrev pub order_if_any : OutboxEvent → Option Order → Option SellerOrder → ℕ → Action (Unit {0})
order_if_any e none s now = skip
order_if_any e (some o) s now = announce_order e o s now

-- The relations that the query includes.
abbrev pub related : {A : Type 0} → (String → World → Option A) → Option String → World → Option A
related find none w = none
related find (some id) w = find id w

unfoldable pub deliver_order : OutboxEvent → ℕ → Action (Unit {0})
deliver_order e now = do
  order ← gets (related find_by_id e.order_id)
  seller_order ← gets (related find_seller_order e.seller_order_id)
  order_if_any e order seller_order now

unfoldable pub deliver_new : String → OutboxEvent → ℕ → ℕ → Action (Unit {0})
deliver_new id e stock_at order_at = do
  stock_if_changed e (e.type === "product.stock-changed") stock_at
  deliver_order e order_at
  create_receipt e.id
  update_event id (set_status OutboxStatus.processed)

abbrev pub deliver_unless : String → OutboxEvent → Option Receipt → ℕ → ℕ → Action (Unit {0})
deliver_unless id e (some r) stock_at order_at = update_event id (set_status OutboxStatus.processed)
deliver_unless id e none stock_at order_at = deliver_new id e stock_at order_at

-- The `try`, once the event is claimed.
unfoldable pub deliver : String → ℕ → ℕ → Action (Unit {0})
deliver id stock_at order_at = do
  e ← or_raise (← gets (find_event id)) (not_found Reason.event_missing)
  receipt ← gets λ w. find_first (is_receipt e.id) w.receipts
  deliver_unless id e receipt stock_at order_at

-- `job.attemptsMade + 1 >= 5 ? 'FAILED' : 'PENDING'`, available again in a second.
abbrev pub retry : ℕ → ℕ → OutboxEvent → OutboxEvent
retry attempts now e = record e {
  status = if leb 5 (attempts + 1) then OutboxStatus.failed else OutboxStatus.pending;
  available_at = some (now + 1000);
}

abbrev pub give_back : String → ℕ → ℕ → Error → Action (Unit {0})
give_back id attempts now e = do update_event id (retry attempts now); raise e

abbrev pub deliver_claimed : String → ℕ → ℕ → ℕ → ℕ → Bool → Action (Unit {0})
deliver_claimed id attempts stock_at order_at now true = skip
deliver_claimed id attempts stock_at order_at now false =
    catch_error (deliver id stock_at order_at) (give_back id attempts now)

-- `attempts` is the job's `attemptsMade`; `stock_at` and `order_at` are the times at which Redis sets
-- the two keys.
unfoldable pub process_outbox_event : String → ℕ → ℕ → ℕ → ℕ → ℕ → ℕ → Action (Unit {0})
process_outbox_event id attempts now now' stock_at order_at now'' = do
  claimed ← claim_event id now now'
  deliver_claimed id attempts stock_at order_at now'' (claimed == 0)
