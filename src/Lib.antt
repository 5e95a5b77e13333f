-- ===== src/Lib.antt =====
-- The core of a multi-vendor marketplace backend (backend/src): products, carts, orders and auctions,
-- with the disputes, reviews, sellers and event delivery around them.
--
-- Parts. Services (bidding.service.ts, orders.service.ts and others, each in its folder of backend/src)
-- run transactions against PostgreSQL through repositories (backend/src/database). A transaction
-- reads rows, checks them, changes rows by updates that name the state which they expect, and writes
-- events to an outbox table; dispatchers carry the events to workers later. Calls are repeatable by
-- an idempotency key, which a unique column stores.
--
-- Files.
--   Store: the tables. Rows and enumerations are those of backend/prisma/schema.prisma; Tables has
--     all tables in the record World, and calls (Action) that return or raise and leave a World.
--     `transaction` is UnitOfWork.run (backend/src/database/unit-of-work.ts): a body that raises
--     leaves the tables as they were. Store/Rules has rules by which a search shows that a call
--     keeps a property of the tables.
--   Repository: one module for each file of backend/src/database that the services call.
--     `updateMany` is an update of the rows that pass its `where`, with their number; an insert
--     that repeats a unique column raises `unique_violation` (Prisma's P2002); an `update` of a
--     missing row raises `record_missing` (P2025).
--   Bidding/Bids: placeBid. Bidding/Lots: createAuction, startAuction, endAuction,
--     expireWinnerCheckout, findAuction. Their children prove: Bids/Effect what an accepted bid
--     does, Bids/Book the invariant, Bids/Race concurrent bids, Bids/Calls whole calls, Lots/Ending
--     the end of an auction.
--   Bidding/WinnerCheckout: checkoutWinner; Parts is about what its parts leave in the tables, Sale
--     about whole calls.
--   Money: commission and earnings. Money/Rounding: what their columns store.
--   Orders/Checkout: checkout. Its children: Groups the split by seller, Stock the loop over the
--     stock, Recorded the rows that are added, Calls whole calls.
--   Orders/Status: deriveOrderStatus and assertSellerOrderTransition.
--   Orders/Payment: payOrder and the provider's charge
--     (backend/src/payments/mock-payment.service.ts); Waiting is about its first
--     transaction, Charge about the second, Parts about both, Calls about whole calls. The pause
--     between the two transactions, in which other calls may run, is left out.
--   Orders/Refund: refundOrderItem; Effect is about what it leaves in the tables, Quantity about how
--     much it refunds.
--   Orders/Shipping: updateSellerOrderStatus; Parent is about the order above a seller order,
--     Repeats about the key of its event.
--   Orders/Cancellation: what the cancellations share, and the provider's cancel. Whole: cancelOrder;
--     Part: cancelSellerOrder and cancelCustomerSuborder; Unpaid: cancelPayment. Refunds, Bounds and
--     Failures are about what they refund and what they leave when they raise.
--   Orders/Bounds: courses of calls on orders, with Orders/Books for the tables of items and refunds.
--   Products: submitForApproval, approve, reject, remove, restore; Products/Editing: create, update
--     (backend/src/products/products.service.ts). Claims, Lifecycle and Approval are about a product's
--     status and whether it is archived, over one call and over many.
--   Cart: addItem, updateItem, removeItem, getCart (backend/src/cart/cart.service.ts); Contents and
--     Rows are about what they leave in a cart.
--   Disputes: open, resolve (backend/src/disputes/disputes.service.ts); Resolution and Courses are
--     about the table of disputes over one call and over many.
--   Delivery: dispatchPending (backend/src/orders/orders.dispatcher.ts) and processOutboxEvent
--     (backend/src/orders/orders.processor.ts); Marks and Once are about repeated announcements,
--     Progress about the end of a job.
--   Reviews: create (backend/src/reviews/reviews.service.ts). Sellers: apply, approve, reject
--     (backend/src/sellers/sellers.service.ts).
--   Base: lists, integers and texts over the native numbers. Tests: concrete tables.
--
-- Conventions. Money is a number of cents, time a number of milliseconds; computed amounts are exact
-- in ten-thousandths of a cent, and `column` stands for PostgreSQL's rounding of a Decimal(12, 2)
-- column. Each read of the clock is an argument. Identifiers come from a stream `uuid` that
-- an insert draws from. The loops of the modelled code run over lists; the one function on fuel writes
-- a number n in digits with fuel n + 1, which no number of digits exceeds. Socket messages, dropped
-- cache keys, deleted files and counters are signals, a list in World; the keys that Delivery sets in
-- Redis stand there with the times at which they expire.
-- Transactions run one after the other; what a concurrent one can do between a read and a write of
-- another is stated about the parts after the read (Bids/Race), which take the read row as an argument.
--
-- Not modelled: logging and audit logs, the correlation identifier in payloads, columns that are only
-- displayed, the isolation level, overflow of the columns, what a slug looks like, listings with their
-- filters and pages, controllers and the frontend. The services for categories, search, analytics and
-- authentication, and the workers other than that of orders, are not modelled.
pub mod Base
pub mod Store
pub mod Repository
pub mod Bidding
pub mod Money
pub mod Orders
pub mod Products
pub mod Cart
pub mod Disputes
pub mod Delivery
pub mod Reviews
pub mod Sellers
pub mod Tests
