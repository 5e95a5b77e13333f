-- ===== src/Orders.antt =====
-- backend/src/orders: checkout, payment, refunds, shipping and cancellations.
pub mod Books
pub mod Bounds
pub mod Status
pub mod Checkout
pub mod Refund
pub mod Shipping
pub mod Payment
pub mod Cancellation
