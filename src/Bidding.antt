-- ===== src/Bidding.antt =====
-- backend/src/bidding: auctions and bids.
pub mod Bids
pub mod Lots
pub mod WinnerCheckout
