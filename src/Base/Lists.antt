-- ===== src/Base/Lists.antt =====
-- Lists as rows of a table: selection and update by a Boolean test, sums, and quantifiers.
use Prim.Native.Nat.{ℕ, suc, ◌+◌, ◌≤◌, ◌<◌}
use mathlib.Core.Path.{◌≡◌, refl, subst}
use mathlib.Core.Logic.{inl, inr}
use mathlib.Core.Bool.{Bool, true, false, ◌&&◌, ◌||◌}
use mathlib.Core.List.{List, [], ◌∷◌, ◌++◌}
use mathlib.Core.Option.{Option, none, some}
use native.Mathlib.Omega.{arith}
use multi_marketplace.Base.Tests.{if◌then◌else◌, Bool-cases}

module _ {ℓ} {A : Type ℓ} where
  abbrev pub length : List A → ℕ
  length [] = 0
  length (x ∷ xs) = suc (length xs)

  -- `rows.find(test)`: the first row that passes.
  abbrev pub find_first : (A → Bool) → List A → Option A
  find_first p [] = none
  find_first p (x ∷ xs) = if p x then some x else find_first p xs

  -- `rows.filter(test)`.
  abbrev pub select : (A → Bool) → List A → List A
  select p [] = []
  select p (x ∷ xs) = let rest = select p xs in if p x then x ∷ rest else rest

  -- Every row that passes is changed, the others stay as they are.
  abbrev pub update_where : (A → Bool) → (A → A) → List A → List A
  update_where p f [] = []
  update_where p f (x ∷ xs) = (if p x then f x else x) ∷ update_where p f xs

  abbrev pub count_where : (A → Bool) → List A → ℕ
  count_where p [] = 0
  count_where p (x ∷ xs) = (if p x then 1 else 0) + count_where p xs

  -- `rows.some(test)` and `rows.every(test)`.
  abbrev pub any : (A → Bool) → List A → Bool
  any p [] = false
  any p (x ∷ xs) = p x || any p xs

  abbrev pub every : (A → Bool) → List A → Bool
  every p [] = true
  every p (x ∷ xs) = p x && every p xs

  -- The sum of a measure over the rows.
  abbrev pub sum_by : (A → ℕ) → List A → ℕ
  sum_by f [] = 0
  sum_by f (x ∷ xs) = f x + sum_by f xs

  abbrev pub All {κ} : (A → Type κ) → List A → Type κ
  All P [] = Unit
  All P (x ∷ xs) = P x × All P xs

module _ {ℓ} {A : Type ℓ} where
  pub some_eq : {x y : A} → some x ≡ some y → x ≡ y
  some_eq e = cc

  pub sum_by-append : (f : A → ℕ) (xs ys : List A) → sum_by f (xs ++ ys) ≡ sum_by f xs + sum_by f ys
  sum_by-append f [] ys = omega arith
  sum_by-append f (x ∷ xs) ys = omega (arith, sum_by-append f xs ys)

  pub count_where-append :
      (p : A → Bool) (xs ys : List A)
      → count_where p (xs ++ ys) ≡ count_where p xs + count_where p ys
  count_where-append p [] ys = omega arith
  count_where-append p (x ∷ xs) ys = omega (arith, count_where-append p xs ys)

  pub All-append {κ} : (P : A → Type κ) (xs ys : List A) → All P xs → All P ys → All P (xs ++ ys)
  All-append P [] ys hx hy = hy
  All-append P (x ∷ xs) ys hx hy = (hx.0, All-append P xs ys hx.1 hy)

  pub All-map {κ κ'} :
      {P : A → Type κ} (Q : A → Type κ') (xs : List A) → ((x : A) → P x → Q x) → All P xs → All Q xs
  All-map Q [] f h = tt
  All-map Q (x ∷ xs) f h = (f x h.0, All-map Q xs f h.1)

  -- A predicate that an update keeps at each row holds after it.
  pub All-update_where {κ κ'} :
      {P : A → Type κ} (Q : A → Type κ') (p : A → Bool) (f : A → A) (xs : List A)
      → ((x : A) → P x → Q (if p x then f x else x))
      → All P xs
      → All Q (update_where p f xs)
  All-update_where Q p f [] k h = tt
  All-update_where Q p f (x ∷ xs) k h = (k x h.0, All-update_where Q p f xs k h.1)

  -- The first row that passes is a row, so it has what all rows have.
  pub All-find_first {κ} :
      (P : A → Type κ) (p : A → Bool) (xs : List A) {a : A}
      → All P xs
      → find_first p xs ≡ some a
      → P a
  All-find_first P p [] h e = cc
  All-find_first P p (x ∷ xs) {a} h e = elim (Bool-cases (p x)) [
    | inl t ↦ subst P (some_eq (rw t at e)) h.0
    | inr f ↦ All-find_first P p xs h.1 (rw f at e)
  ]

  -- The row that is found passes the test.
  pub find_first-test : (p : A → Bool) (xs : List A) {a : A} → find_first p xs ≡ some a → p a ≡ true
  find_first-test p [] e = cc
  find_first-test p (x ∷ xs) {a} e = elim (Bool-cases (p x)) [
    | inl t ↦ subst (λ y. p y ≡ true) (some_eq (rw t at e)) t
    | inr f ↦ find_first-test p xs (rw f at e)
  ]

  -- A search after an update finds the same row, updated, if the update keeps the test.
  pub find_first-update_where :
      (p q : A → Bool) (f : A → A) (xs : List A)
      → ((x : A) → p (f x) ≡ p x)
      → find_first p (update_where q f xs)
        ≡ elim (find_first p xs) [ none ↦ none | some x ↦ some (if q x then f x else x) ]
  find_first-update_where p q f [] keep = refl
  find_first-update_where p q f (x ∷ xs) keep =
      ground (arith, keep x, find_first-update_where p q f xs keep)

  -- No row passes a test that the update makes false.
  pub count_where-update_where_zero :
      (p q : A → Bool) (f : A → A) (xs : List A)
      → ((x : A) → p (if q x then f x else x) ≡ false)
      → count_where p (update_where q f xs) ≡ 0
  count_where-update_where_zero p q f [] off = refl
  count_where-update_where_zero p q f (x ∷ xs) off =
      ground (arith, off x, count_where-update_where_zero p q f xs off)

  pub count_where-update_where_le :
      (p q : A → Bool) (f : A → A) (xs : List A)
      → ((x : A) → p (f x) ≡ true → p x ≡ true)
      → count_where p (update_where q f xs) ≤ count_where p xs
  count_where-update_where_le p q f [] back = omega arith
  count_where-update_where_le p q f (x ∷ xs) back =
      ground (arith, back x, count_where-update_where_le p q f xs back)

  pub count_where-update_where :
      (p q : A → Bool) (f : A → A) (xs : List A)
      → ((x : A) → p (f x) ≡ p x)
      → count_where p (update_where q f xs) ≡ count_where p xs
  count_where-update_where p q f [] keep = refl
  count_where-update_where p q f (x ∷ xs) keep =
      ground (arith, keep x, count_where-update_where p q f xs keep)

  -- Where at most one row passes `p` and some row passes `p` and `q`, the row found by `p` passes `q`.
  pub count_where_zero :
      (p q : A → Bool) (xs : List A) → count_where p xs ≡ 0 → count_where (λ x. p x && q x) xs ≡ 0
  count_where_zero p q [] h = refl
  count_where_zero p q (x ∷ xs) h = ground (arith, count_where_zero p q xs)

  pub find_first_single :
      (p q : A → Bool) (xs : List A) {a : A}
      → count_where p xs ≤ 1
      → 0 < count_where (λ x. p x && q x) xs
      → find_first p xs ≡ some a
      → q a ≡ true
  find_first_single p q [] h k e = cc
  find_first_single p q (x ∷ xs) {a} h k e =
      ground (arith, count_where_zero p q xs, find_first_single p q xs {a = a})

  pub find_first-append_new :
      (p : A → Bool) (xs : List A) (a : A)
      → find_first p xs ≡ none
      → p a ≡ true
      → find_first p (xs ++ a ∷ []) ≡ some a
  find_first-append_new p [] a e h = rw h
  find_first-append_new p (x ∷ xs) a e h = ground (arith, find_first-append_new p xs a)

  -- A row that is found and passes a test is counted by it.
  pub count_where-pos :
      (p q : A → Bool) (xs : List A) {a : A}
      → find_first p xs ≡ some a
      → q a ≡ true
      → 0 < count_where q xs
  count_where-pos p q [] e h = cc
  count_where-pos p q (x ∷ xs) {a} e h = ground (arith, count_where-pos p q xs {a = a})

  pub count_where-none :
      (p : A → Bool) (xs : List A) → find_first p xs ≡ none → count_where p xs ≡ 0
  count_where-none p [] e = refl
  count_where-none p (x ∷ xs) e = ground (arith, count_where-none p xs)

  -- A row that is found is found with more rows behind.
  pub find_first-append_old :
      (p : A → Bool) (xs ys : List A) {a : A}
      → find_first p xs ≡ some a
      → find_first p (xs ++ ys) ≡ some a
  find_first-append_old p [] ys e = cc
  find_first-append_old p (x ∷ xs) ys {a} e = ground (arith, find_first-append_old p xs ys {a = a})

  pub any-none : (p : A → Bool) (xs : List A) → find_first p xs ≡ none → any p xs ≡ false
  any-none p [] e = refl
  any-none p (x ∷ xs) e = ground (arith, any-none p xs)
