-- ===== src/Store/Rules.antt =====
-- Rules by which a search shows that a call written with `>>=` keeps a property of the tables.
use multi_marketplace.Base.{Bool, true, false, List, Option, ◌≡◌, All, [], ◌∷◌}
use multi_marketplace.Store.Tables.{
  World, Error, Action, pure, raise, gets, or_raise, raise_if, skip, when, for_each, transaction,
  catch_error, ◌>>=◌, ◌>>◌,
}
use multi_marketplace.Store.Frame.{
  Keeps, Preserves, Preserves->>=, Preserves-for_each, Preserves-transaction, Preserves-catch_error,
  or_raise-Preserves, then_preserve,
}

-- `m` keeps `P`, whether it returns or raises; a name that a search does not see through.
unfoldable pub Preserved {ℓ} : (World → Type ℓ) → {A : Type 0} → Action A → Type ℓ
Preserved P m = Preserves P m

module _ {ℓ} (P : World → Type ℓ) where
  pub preserved : {A : Type 0} (m : Action A) → Preserves P m → Preserved P m
  unfolding Preserved
  preserved m h = h

  pub Preserved-apply : {A : Type 0} (m : Action A) → Preserved P m → (w : World) → P w → P (m w).1
  unfolding Preserved
  Preserved-apply m h = h

  pub pure-Preserved : {A : Type 0} (a : A) → Preserved P (pure a)
  unfolding Preserved
  pure-Preserved a w h = h

  pub skip-Preserved : Preserved P skip
  unfolding Preserved
  skip-Preserved w h = h

  pub raise-Preserved : (A : Type 0) (e : Error) → Preserved P (raise {A = A} e)
  unfolding Preserved
  raise-Preserved A e w h = h

  pub raise_if-Preserved : (b : Bool) (e : Error) → Preserved P (raise_if b e)
  unfolding Preserved
  raise_if-Preserved b e w h = h

  pub or_raise-Preserved : {A : Type 0} (o : Option A) (e : Error) → Preserved P (or_raise o e)
  unfolding Preserved
  or_raise-Preserved o e = or_raise-Preserves P o e

  pub gets-Preserved : {A : Type 0} (f : World → A) → Preserved P (gets f)
  unfolding Preserved
  gets-Preserved f w h = h

  pub >>=-Preserved :
      {A B : Type 0} (m : Action A) (k : A → Action B)
      → Preserved P m
      → ((a : A) → Preserved P (k a))
      → Preserved P (m >>= k)
  unfolding Preserved
  >>=-Preserved m k h hk = Preserves->>= P m k h hk

  pub >>-Preserved :
      {A B : Type 0} (m : Action A) (k : Action B)
      → Preserved P m
      → Preserved P k
      → Preserved P (m >> k)
  unfolding Preserved
  >>-Preserved m k h hk = Preserves->>= P m (λ _. k) h (λ _. hk)

  -- What is read may be used, with the property, in what follows.
  pub gets_then-Preserved :
      {A B : Type 0} (f : World → A) (k : A → Action B)
      → ((w : World) → P w → P (k (f w) w).1)
      → Preserved P (gets f >>= k)
  unfolding Preserved
  gets_then-Preserved f k h = h

  pub when-Preserved : (b : Bool) (m : Action (Unit {0})) → Preserved P m → Preserved P (when b m)
  unfolding Preserved
  when-Preserved true m h w p = h w p
  when-Preserved false m h w p = p

  pub for_each-Preserved :
      {A : Type 0} (xs : List A) (g : A → Action (Unit {0}))
      → ((x : A) → Preserved P (g x))
      → Preserved P (for_each xs g)
  unfolding Preserved
  for_each-Preserved xs g h = Preserves-for_each P xs g h

  pub for-All-Preserved {κ} :
      {A : Type 0} (Q : A → Type κ) (xs : List A) (g : A → Action (Unit {0}))
      → All Q xs
      → ((x : A) → Q x → Preserved P (g x))
      → Preserved P (for_each xs g)
  unfolding Preserved for_each
  for-All-Preserved Q [] g q h w p = p
  for-All-Preserved Q (x ∷ xs) g (here, rest) h w p =
      then_preserve P (g x w) (λ _. for_each xs g) (h x here w p)
        (λ _. for-All-Preserved Q xs g rest h)

  pub transaction-Preserved :
      {A : Type 0} (m : Action A) → Preserved P m → Preserved P (transaction m)
  unfolding Preserved
  transaction-Preserved m h = Preserves-transaction P m h

  pub catch_error-Preserved :
      {A : Type 0} (m : Action A) (handler : Error → Action A)
      → Preserved P m
      → ((e : Error) → Preserved P (handler e))
      → Preserved P (catch_error m handler)
  unfolding Preserved
  catch_error-Preserved m handler h hk = Preserves-catch_error P m handler h hk

-- A property of what `f` reads is kept by every call that leaves it.
pub Keeps-Preserved {ℓ κ} :
    {X : Type κ} (P : World → Type ℓ) (f : World → X)
    → ((w w' : World) → f w' ≡ f w → P w → P w')
    → {A : Type 0} (m : Action A) → Keeps f m
    → Preserved P m
unfolding Preserved
Keeps-Preserved P f carry m h w p = carry w (m w).1 (h w) p

pub ruleset chains = (
  pure-Preserved, skip-Preserved, raise-Preserved, raise_if-Preserved, or_raise-Preserved,
  gets-Preserved, >>=-Preserved, >>-Preserved, when-Preserved, for_each-Preserved,
  transaction-Preserved, catch_error-Preserved,
)
