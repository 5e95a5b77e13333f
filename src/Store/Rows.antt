-- ===== src/Store/Rows.antt =====
-- The rows of the tables (backend/prisma/schema.prisma). Money columns count cents, times count
-- milliseconds. A column that no modelled code reads is left out: `currency`, `createdAt`,
-- `updatedAt`, texts that are only displayed.
use multi_marketplace.Base.{ℕ, ℤ, String, Bool, List, Option}
use multi_marketplace.Store.Enums.{
  ProductType, ProductStatus, OrderStatus, SellerOrderStatus, PaymentStatus, RefundStatus,
  AuctionStatus, BidStatus, LedgerEntryType, OutboxStatus, DisputeStatus, Role, SellerStatus,
}

pub record Product : Type 0 where
  pub id : String
  pub seller_id : String
  pub name : String
  pub type : ProductType
  pub status : ProductStatus
  pub price : ℕ
  pub stock : ℕ
  pub version : ℕ
  pub is_archived : Bool
  pub category_id : String
  pub slug : String
  pub image_url : Option String

pub record Category : Type 0 where
  pub id : String
  pub name : String
  pub slug : String

pub record Auction : Type 0 where
  pub id : String
  pub product_id : String
  pub starting_price : ℕ
  pub current_price : ℕ
  pub min_bid_increment : ℕ
  pub starts_at : ℕ
  pub ends_at : ℕ
  pub status : AuctionStatus
  pub version : ℕ
  pub winner_id : Option String
  pub checkout_expires_at : Option ℕ
  pub checkout_order_id : Option String

pub record Bid : Type 0 where
  pub id : String
  pub auction_id : String
  pub bidder_id : String
  pub amount : ℕ
  pub status : BidStatus
  pub idempotency_key : Option String

pub record Cart : Type 0 where
  pub id : String
  pub user_id : String

pub record CartItem : Type 0 where
  pub id : String
  pub cart_id : String
  pub product_id : String
  pub quantity : ℕ

pub record Order : Type 0 where
  pub id : String
  pub user_id : String
  pub status : OrderStatus
  pub subtotal : ℕ
  pub total_amount : ℕ

-- `commission_rate` counts ten-thousandths (`Decimal(5, 4)`).
pub record SellerOrder : Type 0 where
  pub id : String
  pub order_id : String
  pub seller_id : String
  pub status : SellerOrderStatus
  pub subtotal : ℕ
  pub commission_rate : ℕ
  pub commission_amount : ℤ
  pub seller_earnings : ℤ
  pub refunded_amount : ℕ
  pub tracking_number : Option String
  pub shipped_at : Option ℕ
  pub completed_at : Option ℕ
  pub cancelled_at : Option ℕ
  pub cancellation_reason : Option String

pub record OrderItem : Type 0 where
  pub id : String
  pub seller_order_id : String
  pub product_id : String
  pub product_name : String
  pub quantity : ℕ
  pub unit_price : ℕ
  pub total_amount : ℕ

pub record Payment : Type 0 where
  pub id : String
  pub order_id : String
  pub provider : String
  pub provider_ref : Option String
  pub status : PaymentStatus
  pub amount : ℕ
  pub idempotency_key : String
  pub paid_at : Option ℕ

pub record Refund : Type 0 where
  pub id : String
  pub seller_order_id : String
  pub order_item_id : String
  pub payment_id : Option String
  pub amount : ℕ
  pub quantity : ℕ
  pub reason : String
  pub status : RefundStatus
  pub idempotency_key : String
  pub processed_at : Option ℕ

pub record LedgerEntry : Type 0 where
  pub id : String
  pub seller_order_id : Option String
  pub payment_id : Option String
  pub refund_id : Option String
  pub type : LedgerEntryType
  pub amount : ℤ
  pub idempotency_key : String

pub record Dispute : Type 0 where
  pub id : String
  pub seller_order_id : String
  pub opened_by_id : String
  pub resolved_by_id : Option String
  pub status : DisputeStatus
  pub subject : String
  pub description : String
  pub resolution : Option String
  pub resolved_at : Option ℕ

pub record DisputeHistory : Type 0 where
  pub id : String
  pub dispute_id : String
  pub actor_id : String
  pub status : DisputeStatus
  pub note : Option String

pub record Review : Type 0 where
  pub id : String
  pub product_id : String
  pub author_id : String
  pub order_item_id : String
  pub rating : ℕ
  pub comment : Option String

pub record SellerProfile : Type 0 where
  pub id : String
  pub user_id : String
  pub display_name : String
  pub description : Option String
  pub status : SellerStatus
  pub rejection_reason : Option String
  pub reviewed_at : Option ℕ
  pub reviewed_by_id : Option String

pub record User : Type 0 where
  pub id : String
  pub role : Role

pub record Receipt : Type 0 where
  pub id : String
  pub event_id : String
  pub consumer_name : String

-- A value in the JSON payload of an event.
pub data Value : Type 0 where
  null : Value
  text : String → Value
  count : ℕ → Value
  money : ℤ → Value

-- `available_at` is none where the column takes its default, the time of the insert.
pub record OutboxEvent : Type 0 where
  pub id : String
  pub order_id : Option String
  pub seller_order_id : Option String
  pub aggregate_type : String
  pub aggregate_id : String
  pub type : String
  pub payload : List (String × Value)
  pub status : OutboxStatus
  pub idempotency_key : String
  pub attempts : ℕ
  pub available_at : Option ℕ
