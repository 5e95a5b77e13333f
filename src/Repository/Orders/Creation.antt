-- ===== src/Repository/Orders/Creation.antt =====
-- The inserts of backend/src/database/order.repository.ts. An amount that the program computes is
-- exact, in ten-thousandths of a cent; `column` is what a `Decimal(12, 2)` column makes of it.
use multi_marketplace.Base.{
  ℕ, ℤ, ◌*◌, pos, neg, String, List, [], ◌∷◌, ◌++◌, Option, none, some, any, ◌&&◌,
}
use multi_marketplace.Store.{
  Order, SellerOrder, OrderItem, Payment, Refund, LedgerEntry, LedgerEntryType, OrderStatus,
  SellerOrderStatus, PaymentStatus, RefundStatus, Action, modify, gets, raise_if, fresh_id, pure,
  for_each, unique_violation, ◌===◌, ◌>>=◌, ◌>>◌, string_eq, option_eq,
}

pub record ItemData : Type 0 where
  pub product_id : String
  pub product_name : String
  pub quantity : ℕ
  pub unit_price : ℕ
  pub total_amount : ℕ

-- The two ledger entries of a seller order carry the same two amounts.
pub record SellerOrderData : Type 0 where
  pub seller_id : String
  pub status : SellerOrderStatus
  pub subtotal : ℕ
  pub commission_rate : ℕ
  pub commission_amount : ℤ
  pub seller_earnings : ℤ
  pub items : List ItemData
  pub commission_key : String
  pub earning_key : String

pub record OrderData : Type 0 where
  pub user_id : String
  pub status : OrderStatus
  pub total_amount : ℕ
  pub payment_status : PaymentStatus
  pub payment_key : String
  pub seller_orders : List SellerOrderData

pub record LedgerData : Type 0 where
  pub seller_order_id : Option String
  pub payment_id : Option String
  pub refund_id : Option String
  pub type : LedgerEntryType
  pub amount : ℤ
  pub idempotency_key : String

pub record RefundData : Type 0 where
  pub seller_order_id : String
  pub order_item_id : String
  pub payment_id : Option String
  pub amount : ℕ
  pub quantity : ℕ
  pub reason : String
  pub status : RefundStatus
  pub idempotency_key : String
  pub processed_at : Option ℕ

abbrev pub item_row : String → String → ItemData → OrderItem
item_row id seller_order d = record {
  id = id;
  seller_order_id = seller_order;
  product_id = d.product_id;
  product_name = d.product_name;
  quantity = d.quantity;
  unit_price = d.unit_price;
  total_amount = d.total_amount;
}

unfoldable pub create_item : String → ItemData → Action (Unit {0})
create_item seller_order d = do
  id ← fresh_id
  modify λ w. record w { order_items = w.order_items ++ item_row id seller_order d ∷ [] }

abbrev pub refund_row : String → RefundData → Refund
refund_row id d = record {
  id = id;
  seller_order_id = d.seller_order_id;
  order_item_id = d.order_item_id;
  payment_id = d.payment_id;
  amount = d.amount;
  quantity = d.quantity;
  reason = d.reason;
  status = d.status;
  idempotency_key = d.idempotency_key;
  processed_at = d.processed_at;
}

-- Inserts that store computed amounts.
module _ (column : ℤ → ℤ) where
  abbrev pub ledger_row : String → LedgerData → LedgerEntry
  ledger_row id d = record {
    id = id;
    seller_order_id = d.seller_order_id;
    payment_id = d.payment_id;
    refund_id = d.refund_id;
    type = d.type;
    amount = column d.amount;
    idempotency_key = d.idempotency_key;
  }

  unfoldable pub create_ledger_entry : LedgerData → Action (Unit {0})
  create_ledger_entry d = do
    id ← fresh_id
    raise_if (← gets λ w. any (λ e. e.idempotency_key === d.idempotency_key) w.ledger)
        unique_violation
    modify λ w. record w { ledger = w.ledger ++ ledger_row id d ∷ [] }

  unfoldable pub create_ledger_entries : List LedgerData → Action (Unit {0})
  create_ledger_entries rows = for_each rows create_ledger_entry

  abbrev pub seller_order_row : String → String → SellerOrderData → SellerOrder
  seller_order_row id order d = record {
    id = id;
    order_id = order;
    seller_id = d.seller_id;
    status = d.status;
    subtotal = d.subtotal;
    commission_rate = d.commission_rate;
    commission_amount = column d.commission_amount;
    seller_earnings = column d.seller_earnings;
    refunded_amount = 0;
    tracking_number = none;
    shipped_at = none;
    completed_at = none;
    cancelled_at = none;
    cancellation_reason = none;
  }

  abbrev pub split_entry : String → LedgerEntryType → ℤ → String → LedgerData
  split_entry seller_order type amount key = record {
    seller_order_id = some seller_order;
    payment_id = none;
    refund_id = none;
    type = type;
    amount = amount;
    idempotency_key = key;
  }

  unfoldable pub create_seller_order : String → SellerOrderData → Action (Unit {0})
  create_seller_order order d = do
    id ← fresh_id
    raise_if
        (← gets λ w. any (λ s. s.order_id === order && s.seller_id === d.seller_id) w.seller_orders)
        unique_violation
    modify λ w. record w { seller_orders = w.seller_orders ++ seller_order_row id order d ∷ [] }
    for_each d.items (create_item id)
    create_ledger_entry
        (split_entry id LedgerEntryType.platform_commission d.commission_amount d.commission_key)
    create_ledger_entry
        (split_entry id LedgerEntryType.seller_earning d.seller_earnings d.earning_key)

  abbrev pub order_row : String → OrderData → Order
  order_row id d = record {
    id = id;
    user_id = d.user_id;
    status = d.status;
    subtotal = d.total_amount;
    total_amount = d.total_amount;
  }

  abbrev pub payment_row : String → String → OrderData → Payment
  payment_row id order d = record {
    id = id;
    order_id = order;
    provider = "mock";
    provider_ref = none;
    status = d.payment_status;
    amount = d.total_amount;
    idempotency_key = d.payment_key;
    paid_at = none;
  }

  -- `createCheckoutOrder` and `create`: the order with its payment and its seller orders.
  unfoldable pub create_order : OrderData → Action Order
  create_order d = do
    id ← fresh_id
    modify λ w. record w { orders = w.orders ++ order_row id d ∷ [] }
    payment ← fresh_id
    raise_if (← gets λ w. any (λ p. p.idempotency_key === d.payment_key) w.payments)
        unique_violation
    modify λ w. record w { payments = w.payments ++ payment_row payment id d ∷ [] }
    for_each d.seller_orders (create_seller_order id)
    pure (order_row id d)

  -- `createRefund`, with the ledger entry that is created under it.
  unfoldable pub create_refund : RefundData → String → Action Refund
  create_refund d ledger_key = do
    id ← fresh_id
    raise_if (← gets λ w. any (λ r. r.idempotency_key === d.idempotency_key) w.refunds)
        unique_violation
    modify λ w. record w { refunds = w.refunds ++ refund_row id d ∷ [] }
    create_ledger_entry (record {
      seller_order_id = none;
      payment_id = none;
      refund_id = some id;
      type = LedgerEntryType.refund;
      amount = neg (pos (10000 * d.amount));
      idempotency_key = ledger_key;
    })
    pure (refund_row id d)

-- `createRefund` with no ledger entry under it.
unfoldable pub create_plain_refund : RefundData → Action Refund
create_plain_refund d = do
  id ← fresh_id
  raise_if (← gets λ w. any (λ r. r.idempotency_key === d.idempotency_key) w.refunds)
      unique_violation
  modify λ w. record w { refunds = w.refunds ++ refund_row id d ∷ [] }
  pure (refund_row id d)
