-- ===== src/Money.antt =====
-- Amounts of money. A price, a subtotal and every other stored amount is a number of cents; a rate is
-- a number of ten-thousandths, so a share of an amount is exact in ten-thousandths of a cent. What a
-- `Decimal(12, 2)` column stores of an exact amount is PostgreSQL's, and is a parameter, `column`.
pub mod Rounding
use multi_marketplace.Base.{ℕ, ℤ, ◌*◌, pos, ◌-ℤ◌}

-- `new Prisma.Decimal('0.10')`.
abbrev pub commission_rate : ℕ
commission_rate = 1000

-- An amount in cents, exact.
abbrev pub exact : ℕ → ℤ
exact cents = pos (10000 * cents)

-- `amount.mul(rate)`.
abbrev pub commission : ℕ → ℕ → ℤ
commission cents rate = pos (cents * rate)

-- `amount.sub(commission)`.
unfoldable pub earnings : ℕ → ℕ → ℤ
earnings cents rate = exact cents -ℤ commission cents rate
