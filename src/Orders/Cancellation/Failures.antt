-- ===== src/Orders/Cancellation/Failures.antt =====
-- The cancellations of Orders/Cancellation when they raise.
use multi_marketplace.Base.{ℕ, ℤ, ◌≡◌, ◌⊎◌, refl, inl, inr, String, arith}
use multi_marketplace.Store.{World, Action, Error, err, ok, Result}
use multi_marketplace.Orders.Cancellation.Whole.{cancel_order}
use multi_marketplace.Orders.Cancellation.Part.{
  Canceller, cancel_seller_order, attempt_cancellation, recover_cancellation,
}
use multi_marketplace.Orders.Cancellation.Unpaid.{cancel_payment, recover_void}

-- The call returns, or everything is as it was.
abbrev pub ReturnsOrKeeps : {A : Type 0} → Action A → World → Type 0
ReturnsOrKeeps {A} m w = ((a : A) × ((m w).0 ≡ ok a)) ⊎ ((m w).1 ≡ w)

by_outcome :
    {A : Type 0} (m : Action A) (w : World)
    → ((e : Error) → (m w).0 ≡ err e → (m w).1 ≡ w)
    → ReturnsOrKeeps m w
by_outcome {A} m w h = given (m w).0 refl
  where
    given : (r : Result A) → (m w).0 ≡ r → ReturnsOrKeeps m w
    given (ok a) e = inl (a, e)
    given (err x) e = inr (h x e)

module _ (column : ℤ → ℤ) (w : World) {e : Error} where
  cancel_order_failed :
      (user order : String) (now : ℕ)
      → (cancel_order column user order now w).0 ≡ err e
      → (cancel_order column user order now w).1 ≡ w
  unfolding cancel_order
  cancel_order_failed user order now h = ground arith

  cancel_seller_order_failed :
      (by : Canceller) (id key reason : String) (now : ℕ)
      → (cancel_seller_order column by id key reason now w).0 ≡ err e
      → (cancel_seller_order column by id key reason now w).1 ≡ w
  unfolding cancel_seller_order attempt_cancellation recover_cancellation
  cancel_seller_order_failed by id key reason now h = ground arith

  cancel_payment_failed :
      (user order key : String) (now : ℕ)
      → (cancel_payment column user order key now w).0 ≡ err e
      → (cancel_payment column user order key now w).1 ≡ w
  unfolding cancel_payment recover_void
  cancel_payment_failed user order key now h = ground arith

-- `cancelOrder`, `cancelSellerOrder` (for a seller or a customer) and `cancelPayment` either return or leave
-- everything as it was.
pub cancellations_atomic :
    (column : ℤ → ℤ) (user order key reason : String) (by : Canceller) (now : ℕ) (w : World)
    → ReturnsOrKeeps (cancel_order column user order now) w
      × ReturnsOrKeeps (cancel_seller_order column by order key reason now) w
      × ReturnsOrKeeps (cancel_payment column user order key now) w
cancellations_atomic column user order key reason by now w = (
  by_outcome (cancel_order column user order now) w
      (λ e. cancel_order_failed column w user order now),
  by_outcome (cancel_seller_order column by order key reason now) w
      (λ e. cancel_seller_order_failed column w by order key reason now),
  by_outcome (cancel_payment column user order key now) w
      (λ e. cancel_payment_failed column w user order key now),
)
