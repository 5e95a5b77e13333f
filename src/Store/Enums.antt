-- ===== src/Store/Enums.antt =====
-- The enumerations of backend/prisma/schema.prisma.
use multi_marketplace.Base.{ℕ}
use multi_marketplace.Store.Equality.{Eq, by_code}

pub data ProductType : Type 0 where
  fixed_price auction : ProductType

pub data ProductStatus : Type 0 where
  draft pending_approval active rejected archived sold : ProductStatus

pub data OrderStatus : Type 0 where
  new payment_pending processing partially_shipped shipped partially_completed completed :
      OrderStatus
  partially_cancelled cancelled : OrderStatus

pub data SellerOrderStatus : Type 0 where
  new payment_pending processing shipped completed cancelled : SellerOrderStatus

pub data PaymentStatus : Type 0 where
  pending authorized paid partially_refunded refunded failed cancelled : PaymentStatus

pub data RefundStatus : Type 0 where
  pending approved rejected processed failed : RefundStatus

pub data AuctionStatus : Type 0 where
  draft active ended sold expired cancelled : AuctionStatus

pub data BidStatus : Type 0 where
  active outbid won cancelled : BidStatus

pub data LedgerEntryType : Type 0 where
  customer_charge platform_commission seller_earning refund payout adjustment : LedgerEntryType

pub data DisputeStatus : Type 0 where
  opened under_review resolved_for_customer resolved_for_seller closed : DisputeStatus

pub data Role : Type 0 where
  customer seller admin : Role

pub data SellerStatus : Type 0 where
  pending approved rejected suspended : SellerStatus

pub data OutboxStatus : Type 0 where
  pending processing processed failed : OutboxStatus

abbrev product_type_code : ProductType → ℕ
product_type_code ProductType.fixed_price = 0
product_type_code ProductType.auction = 1

instance abbrev pub product_type_eq : Eq ProductType
product_type_eq = by_code product_type_code

abbrev product_status_code : ProductStatus → ℕ
product_status_code ProductStatus.draft = 0
product_status_code ProductStatus.pending_approval = 1
product_status_code ProductStatus.active = 2
product_status_code ProductStatus.rejected = 3
product_status_code ProductStatus.archived = 4
product_status_code ProductStatus.sold = 5

instance abbrev pub product_status_eq : Eq ProductStatus
product_status_eq = by_code product_status_code

abbrev order_status_code : OrderStatus → ℕ
order_status_code OrderStatus.new = 0
order_status_code OrderStatus.payment_pending = 1
order_status_code OrderStatus.processing = 2
order_status_code OrderStatus.partially_shipped = 3
order_status_code OrderStatus.shipped = 4
order_status_code OrderStatus.partially_completed = 5
order_status_code OrderStatus.completed = 6
order_status_code OrderStatus.partially_cancelled = 7
order_status_code OrderStatus.cancelled = 8

instance abbrev pub order_status_eq : Eq OrderStatus
order_status_eq = by_code order_status_code

abbrev seller_order_status_code : SellerOrderStatus → ℕ
seller_order_status_code SellerOrderStatus.new = 0
seller_order_status_code SellerOrderStatus.payment_pending = 1
seller_order_status_code SellerOrderStatus.processing = 2
seller_order_status_code SellerOrderStatus.shipped = 3
seller_order_status_code SellerOrderStatus.completed = 4
seller_order_status_code SellerOrderStatus.cancelled = 5

instance abbrev pub seller_order_status_eq : Eq SellerOrderStatus
seller_order_status_eq = by_code seller_order_status_code

abbrev payment_status_code : PaymentStatus → ℕ
payment_status_code PaymentStatus.pending = 0
payment_status_code PaymentStatus.authorized = 1
payment_status_code PaymentStatus.paid = 2
payment_status_code PaymentStatus.partially_refunded = 3
payment_status_code PaymentStatus.refunded = 4
payment_status_code PaymentStatus.failed = 5
payment_status_code PaymentStatus.cancelled = 6

instance abbrev pub payment_status_eq : Eq PaymentStatus
payment_status_eq = by_code payment_status_code

abbrev refund_status_code : RefundStatus → ℕ
refund_status_code RefundStatus.pending = 0
refund_status_code RefundStatus.approved = 1
refund_status_code RefundStatus.rejected = 2
refund_status_code RefundStatus.processed = 3
refund_status_code RefundStatus.failed = 4

instance abbrev pub refund_status_eq : Eq RefundStatus
refund_status_eq = by_code refund_status_code

abbrev auction_status_code : AuctionStatus → ℕ
auction_status_code AuctionStatus.draft = 0
auction_status_code AuctionStatus.active = 1
auction_status_code AuctionStatus.ended = 2
auction_status_code AuctionStatus.sold = 3
auction_status_code AuctionStatus.expired = 4
auction_status_code AuctionStatus.cancelled = 5

instance abbrev pub auction_status_eq : Eq AuctionStatus
auction_status_eq = by_code auction_status_code

abbrev bid_status_code : BidStatus → ℕ
bid_status_code BidStatus.active = 0
bid_status_code BidStatus.outbid = 1
bid_status_code BidStatus.won = 2
bid_status_code BidStatus.cancelled = 3

instance abbrev pub bid_status_eq : Eq BidStatus
bid_status_eq = by_code bid_status_code

abbrev ledger_entry_type_code : LedgerEntryType → ℕ
ledger_entry_type_code LedgerEntryType.customer_charge = 0
ledger_entry_type_code LedgerEntryType.platform_commission = 1
ledger_entry_type_code LedgerEntryType.seller_earning = 2
ledger_entry_type_code LedgerEntryType.refund = 3
ledger_entry_type_code LedgerEntryType.payout = 4
ledger_entry_type_code LedgerEntryType.adjustment = 5

instance abbrev pub ledger_entry_type_eq : Eq LedgerEntryType
ledger_entry_type_eq = by_code ledger_entry_type_code

abbrev outbox_status_code : OutboxStatus → ℕ
outbox_status_code OutboxStatus.pending = 0
outbox_status_code OutboxStatus.processing = 1
outbox_status_code OutboxStatus.processed = 2
outbox_status_code OutboxStatus.failed = 3

instance abbrev pub outbox_status_eq : Eq OutboxStatus
outbox_status_eq = by_code outbox_status_code

abbrev dispute_status_code : DisputeStatus → ℕ
dispute_status_code DisputeStatus.opened = 0
dispute_status_code DisputeStatus.under_review = 1
dispute_status_code DisputeStatus.resolved_for_customer = 2
dispute_status_code DisputeStatus.resolved_for_seller = 3
dispute_status_code DisputeStatus.closed = 4

instance abbrev pub dispute_status_eq : Eq DisputeStatus
dispute_status_eq = by_code dispute_status_code

abbrev seller_status_code : SellerStatus → ℕ
seller_status_code SellerStatus.pending = 0
seller_status_code SellerStatus.approved = 1
seller_status_code SellerStatus.rejected = 2
seller_status_code SellerStatus.suspended = 3

instance abbrev pub seller_status_eq : Eq SellerStatus
seller_status_eq = by_code seller_status_code
