-- ===== src/Money/Rounding.antt =====
-- What PostgreSQL documents of a numeric column with two decimal places, and what becomes of a
-- seller's split under it.
use multi_marketplace.Base.{
  ℕ, ℤ, ◌+◌, ◌*◌, ◌/◌, ◌%◌, ◌≡◌, pos, neg, ◌+ℤ◌, ◌-ℤ◌, arith, ◌==◌, if◌then◌else◌,
}
use multi_marketplace.Money.{commission_rate, commission, earnings}

-- An amount is stored as the nearest cent, and half a cent goes away from zero.
pub record IsColumn (column : ℤ → ℤ) : Type 0 where
  pub nearest : (n : ℕ) → column (pos n) ≡ pos ((n + 5000) / 10000)
  pub signed : (n : ℕ) → column (neg (pos n)) ≡ neg (column (pos n))

-- For a column that stores the nearest cent, half a cent away from zero: a seller's subtotal is split into a commission and earnings, each rounded by its column. The two
-- stored amounts add up to the subtotal, except where the subtotal ends in 5 cents: then both are
-- rounded up, and they add up to one cent more.
pub stored_split :
    (column : ℤ → ℤ) (cents : ℕ)
    → IsColumn column
    → column (commission cents commission_rate) +ℤ column (earnings cents commission_rate)
      ≡ pos (if cents % 10 == 5 then cents + 1 else cents)
unfolding earnings ◌-ℤ◌ ◌+ℤ◌
stored_split column cents c =
    let left : earnings cents commission_rate ≡ pos (9000 * cents) = ground arith in
    rw (left, c.nearest (cents * 1000), c.nearest (9000 * cents)) (ground arith)
