-- ===== src/Store/Tables.antt =====
-- The tables together, and calls against them: a call returns a value or raises, and leaves tables.
use multi_marketplace.Base.{
  ℕ, suc, String, Bool, true, false, List, [], ◌∷◌, ◌++◌, Option, none, some, if◌then◌else◌, ◌==◌,
}
use multi_marketplace.Store.Enums.{OrderStatus, SellerOrderStatus}
use multi_marketplace.Store.Rows.{
  Category, Product, Auction, Bid, Cart, CartItem, Order, SellerOrder, OrderItem, Payment, Refund,
  LedgerEntry, OutboxEvent, Value, Dispute, DisputeHistory, Review, SellerProfile, User, Receipt,
}

-- What leaves the process besides the tables: socket messages, dropped cache keys, counters.
pub data Signal : Type 0 where
  order_status_update : String → String → OrderStatus → Signal
  drop_cache : String → Signal
  metric : String → Signal
  order_event : String → String → OrderStatus → String → Signal
  stock_event : String → Value → String → Signal
  bid_event : String → String → String → String → Signal
  auction_event : String → List (String × Value) → String → Signal
  job : String → String → String → Signal
  delete_file : String → Signal

-- `delivered` holds the keys that Redis' `setIfAbsent` has set, with the times at which they expire. `uuid n` is the identifier that the n-th insert draws.
pub record World : Type 0 where
  pub categories : List Category
  pub products : List Product
  pub auctions : List Auction
  pub bids : List Bid
  pub carts : List Cart
  pub cart_items : List CartItem
  pub orders : List Order
  pub seller_orders : List SellerOrder
  pub order_items : List OrderItem
  pub payments : List Payment
  pub refunds : List Refund
  pub ledger : List LedgerEntry
  pub outbox : List OutboxEvent
  pub disputes : List Dispute
  pub dispute_history : List DisputeHistory
  pub reviews : List Review
  pub profiles : List SellerProfile
  pub users : List User
  pub receipts : List Receipt
  pub delivered : List (String × ℕ)
  pub uuid : ℕ → String
  pub drawn : ℕ
  pub signals : List Signal

-- The messages of the exceptions.
pub data Reason : Type 0 where
  key_required key_of_other_bid key_of_other_user key_of_other_refund : Reason
  auction_dates product_missing product_not_owned product_not_listable auction_exists : Reason
  auction_missing auction_closed auction_changed : Reason
  bid_below : ℕ → Reason
  checkout_of_other_user not_the_winner checkout_window_over auction_product_gone : Reason
  cart_empty : Reason
  stock_short : String → Reason
  order_missing order_not_owned payment_not_pending nothing_payable : Reason
  order_not_payable order_not_cancellable : OrderStatus → Reason
  cancellation_processed only_pending_payments processing_started : Reason
  seller_order_missing seller_order_not_owned : Reason
  seller_order_not_cancellable : SellerOrderStatus → Reason
  illegal_transition : SellerOrderStatus → SellerOrderStatus → Reason
  item_missing item_not_owned item_not_refundable : Reason
  quantity_invalid quantity_exceeds no_successful_payment : Reason
  not_draft not_pending_approval already_moderated auction_not_editable category_missing : Reason
  already_archived not_archived : Reason
  product_unavailable cart_item_missing : Reason
  stock_left : ℕ → Reason
  stock_left_with : ℕ → ℕ → Reason
  not_completed dispute_active dispute_missing dispute_resolved resolution_invalid : Reason
  refund_without_payment : Reason
  rating_invalid review_not_own review_not_completed review_exists : Reason
  seller_approved application_pending application_missing application_not_pending : Reason
  application_processed : Reason
  event_missing event_invalid : Reason

-- `unique_violation` is Prisma's error P2002, `record_missing` its P2025.
pub data Error : Type 0 where
  bad_request conflict forbidden not_found : Reason → Error
  unique_violation record_missing : Error

pub data Result (A : Type 0) : Type 0 where
  ok : A → Result A
  err : Error → Result A

abbrev pub Action : Type 0 → Type 0
Action A = World → Result A × World

module _ {A : Type 0} where
  abbrev pub pure : A → Action A
  pure a w = (ok a, w)

  abbrev pub raise : Error → Action A
  raise e w = (err e, w)

  abbrev pub gets : (World → A) → Action A
  gets f w = (ok (f w), w)

  -- `if (!row) throw e`.
  abbrev pub or_raise : Option A → Error → Action A
  or_raise none e w = (err e, w)
  or_raise (some a) e w = (ok a, w)

infixl 5 ◌>>=◌ ◌>>◌
abbrev pub ◌>>=◌ : {A B : Type 0} → Action A → (A → Action B) → Action B
◌>>=◌ m f w = let (r, w') = m w in elim r [ ok a ↦ f a w' | err e ↦ (err e, w') ]

abbrev pub ◌>>◌ : {A B : Type 0} → Action A → Action B → Action B
m >> k = m >>= λ _. k

abbrev pub modify : (World → World) → Action (Unit {0})
modify f w = (ok tt, f w)

-- `if (test) throw e`.
abbrev pub raise_if : Bool → Error → Action (Unit {0})
raise_if b e w = (if b then err e else ok tt, w)

abbrev pub skip : Action (Unit {0})
skip w = (ok tt, w)

-- `if (test) await m`.
abbrev pub when : Bool → Action (Unit {0}) → Action (Unit {0})
when true m = m
when false m = skip

-- `for (const x of xs) await f(x)`.
unfoldable pub for_each : {A : Type 0} → List A → (A → Action (Unit {0})) → Action (Unit {0})
for_each [] f w = (ok tt, w)
for_each (x ∷ xs) f w =
    let (r, w') = f x w in elim r [ ok _ ↦ for_each xs f w' | err e ↦ (err e, w') ]

-- The outcome of a transaction that ran from `w`: a body that raises leaves no trace.
abbrev pub settle : {A : Type 0} → World → Result A × World → Result A × World
settle w (ok a, w') = (ok a, w')
settle w (err e, w') = (err e, w)

-- `UnitOfWork.run`.
abbrev pub transaction : {A : Type 0} → Action A → Action A
transaction m w = settle w (m w)

-- `try { m } catch (e) { handler(e) }`.
abbrev pub catch_error : {A : Type 0} → Action A → (Error → Action A) → Action A
catch_error m handler w = let (r, w') = m w in elim r [ ok a ↦ (ok a, w') | err e ↦ handler e w' ]

abbrev pub send : Signal → Action (Unit {0})
send s = modify λ w. record w { signals = w.signals ++ s ∷ [] }

abbrev pub fresh_id : Action String
fresh_id w = (ok (w.uuid w.drawn), record w { drawn = suc w.drawn })

-- A query by a unique column, and its failure where Prisma's `update` finds no row.
abbrev pub require_row : ℕ → Action (Unit {0})
require_row n = raise_if (n == 0) record_missing
