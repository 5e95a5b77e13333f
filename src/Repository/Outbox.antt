-- ===== src/Repository/Outbox.antt =====
-- backend/src/database/outbox.repository.ts
use multi_marketplace.Base.{String, List, ◌∷◌, [], ◌++◌, Option, find_first, any, ℕ}
use multi_marketplace.Store.{
  World, OutboxEvent, OutboxStatus, Value, Action, gets, raise_if, modify, fresh_id, for_each,
  unique_violation, ◌===◌, string_eq, ◌>>=◌, ◌>>◌,
}

-- The data of a `create` call: the columns that the services write.
pub record EventData : Type 0 where
  pub order_id : Option String
  pub seller_order_id : Option String
  pub aggregate_type : String
  pub aggregate_id : String
  pub type : String
  pub payload : List (String × Value)
  pub available_at : Option ℕ
  pub idempotency_key : String

unfoldable pub find_by_idempotency_key : String → World → Option OutboxEvent
find_by_idempotency_key key w = find_first (λ e. e.idempotency_key === key) w.outbox

abbrev pub event_row : String → EventData → OutboxEvent
event_row id data' = record {
  id = id;
  order_id = data'.order_id;
  seller_order_id = data'.seller_order_id;
  aggregate_type = data'.aggregate_type;
  aggregate_id = data'.aggregate_id;
  type = data'.type;
  payload = data'.payload;
  status = OutboxStatus.pending;
  idempotency_key = data'.idempotency_key;
  attempts = 0;
  available_at = data'.available_at;
}

unfoldable pub create : EventData → Action (Unit {0})
create data' = do
  id ← fresh_id
  raise_if (← gets λ w. any (λ e. e.idempotency_key === data'.idempotency_key) w.outbox)
      unique_violation
  modify λ w. record w { outbox = w.outbox ++ event_row id data' ∷ [] }

unfoldable pub create_many : List EventData → Action (Unit {0})
create_many rows = for_each rows create
