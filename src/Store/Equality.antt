-- ===== src/Store/Equality.antt =====
-- `===` on texts, enumerations and values that may be null.
use multi_marketplace.Base.{
  ℕ, String, Bool, true, false, Option, none, some, str_eq, ◌==◌ as nat_eq,
}

pub record Eq (A : Type 0) : Type 0 where
  pub beq : A → A → Bool

infix 50 ◌===◌
abbrev pub ◌===◌ : {A : Type 0} ⦃e : Eq A⦄ → A → A → Bool
◌===◌ ⦃e⦄ = e.beq

instance abbrev pub string_eq : Eq String
string_eq = record { beq = str_eq }

abbrev option_beq : {A : Type 0} → (A → A → Bool) → Option A → Option A → Bool
option_beq f none none = true
option_beq f none (some b) = false
option_beq f (some a) none = false
option_beq f (some a) (some b) = f a b

instance abbrev pub option_eq : {A : Type 0} ⦃e : Eq A⦄ → Eq (Option A)
option_eq ⦃e⦄ = record { beq = option_beq e.beq }

instance abbrev pub nat_eq_instance : Eq ℕ
nat_eq_instance = record { beq = nat_eq }

-- An enumeration is compared through the numbers of its constructors.
abbrev pub by_code : {A : Type 0} → (A → ℕ) → Eq A
by_code code = record { beq = λ a b. nat_eq (code a) (code b) }
