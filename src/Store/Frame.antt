-- ===== src/Store/Frame.antt =====
-- Calls that leave a part of the tables alone.
use multi_marketplace.Base.{◌≡◌, refl, ap, ◌∙◌, List, [], ◌∷◌, Option, none, some}
use multi_marketplace.Store.Tables.{
  World, Error, Action, Result, ok, err, for_each, or_raise, settle, transaction, catch_error,
  ◌>>=◌,
}

-- `m` keeps what `f` reads.
abbrev pub Keeps {ℓ} : {X : Type ℓ} {A : Type 0} → (World → X) → Action A → Type ℓ
Keeps f m = (w : World) → f (m w).1 ≡ f w

module _ {ℓ} {X : Type ℓ} (f : World → X) where
  then_keep :
      {A B : Type 0} (r : Result A × World) (k : A → Action B) (x : X)
      → f r.1 ≡ x
      → ((a : A) → Keeps f (k a))
      → f (elim r.0 as (λ _. Result B × World) [ ok a ↦ k a r.1 | err e ↦ (err e, r.1) ]).1 ≡ x
  then_keep (ok a, w) k x h hk = hk a w ∙ h
  then_keep (err e, w) k x h hk = h

  pub Keeps->>= :
      {A B : Type 0} (m : Action A) (k : A → Action B)
      → Keeps f m
      → ((a : A) → Keeps f (k a))
      → Keeps f (m >>= k)
  Keeps->>= m k hm hk w = then_keep (m w) k (f w) (hm w) hk

  pub Keeps-for_each :
      {A : Type 0} (xs : List A) (g : A → Action (Unit {0}))
      → ((x : A) → Keeps f (g x))
      → Keeps f (for_each xs g)
  unfolding for_each
  Keeps-for_each [] g h w = refl
  Keeps-for_each (x ∷ xs) g h w =
      then_keep (g x w) (λ _. for_each xs g) (f w) (h x w) (λ _. Keeps-for_each xs g h)

-- What a chain of two calls that succeeds went through.
pub >>=-eq-ok :
    {A B : Type 0} (m : Action A) (k : A → Action B) (w : World) {b : B} {w' : World}
    → (m >>= k) w ≡ (ok b, w')
    → (a : A) × (v : World) × (m w ≡ (ok a, v)) × (k a v ≡ (ok b, w'))
>>=-eq-ok {A} {B} m k w {b} {w'} = went (m w) refl
  where
    went :
        (r : Result A × World)
        → m w ≡ r
        → elim r.0 as (λ _. Result B × World) [ ok a ↦ k a r.1 | err e ↦ (err e, r.1) ] ≡ (ok b, w')
        → (a : A) × (v : World) × (m w ≡ (ok a, v)) × (k a v ≡ (ok b, w'))
    went (ok a, v) e h = (a, v, e, h)
    went (err x, v) e h = cc

-- A chain whose first call raises raises the same.
pub >>=-eq-err :
    {A B : Type 0} (m : Action A) (k : A → Action B) (w : World) {e : Error}
    → (m w).0 ≡ err e
    → ((m >>= k) w).0 ≡ err e
>>=-eq-err {A} {B} m k w {e} h = given (m w) h
  where
    given :
        (r : Result A × World)
        → r.0 ≡ err e
        → (elim r.0 as (λ _. Result B × World) [ ok a ↦ k a r.1 | err x ↦ (err x, r.1) ]).0 ≡ err e
    given (ok a, v) h' = cc
    given (err x, v) h' = cc

-- A chain whose first call returns goes on from there.
pub >>=-eq-next :
    {A B : Type 0} (m : Action A) (k : A → Action B) (w : World) {a : A} {v : World}
    → m w ≡ (ok a, v)
    → (m >>= k) w ≡ k a v
>>=-eq-next {B = B} m k w e =
    ap (λ r. elim r.0 as (λ _. Result B × World) [ ok a ↦ k a r.1 | err x ↦ (err x, r.1) ]) e

-- `m` keeps `P`, whether it returns or raises.
abbrev pub Preserves {ℓ} : (World → Type ℓ) → {A : Type 0} → Action A → Type ℓ
Preserves P m = (w : World) → P w → P (m w).1

module _ {ℓ} (P : World → Type ℓ) where
  pub then_preserve :
      {A B : Type 0} (r : Result A × World) (k : A → Action B)
      → P r.1
      → ((a : A) → Preserves P (k a))
      → P (elim r.0 as (λ _. Result B × World) [ ok a ↦ k a r.1 | err e ↦ (err e, r.1) ]).1
  then_preserve (ok a, w) k h hk = hk a w h
  then_preserve (err e, w) k h hk = h

  pub Preserves->>= :
      {A B : Type 0} (m : Action A) (k : A → Action B)
      → Preserves P m
      → ((a : A) → Preserves P (k a))
      → Preserves P (m >>= k)
  Preserves->>= m k hm hk w h = then_preserve (m w) k (hm w h) hk

  pub Preserves-for_each :
      {A : Type 0} (xs : List A) (g : A → Action (Unit {0}))
      → ((x : A) → Preserves P (g x))
      → Preserves P (for_each xs g)
  unfolding for_each
  Preserves-for_each [] g h w p = p
  Preserves-for_each (x ∷ xs) g h w p =
      then_preserve (g x w) (λ _. for_each xs g) (h x w p) (λ _. Preserves-for_each xs g h)

  pub or_raise-Preserves : {A : Type 0} (o : Option A) (e : Error) → Preserves P (or_raise o e)
  or_raise-Preserves none e w h = h
  or_raise-Preserves (some a) e w h = h

  settle_preserve : {A : Type 0} (w : World) (r : Result A × World) → P w → P r.1 → P (settle w r).1
  settle_preserve w (ok a, w') p q = q
  settle_preserve w (err e, w') p q = p

  pub Preserves-transaction :
      {A : Type 0} (m : Action A) → Preserves P m → Preserves P (transaction m)
  Preserves-transaction m h w p = settle_preserve w (m w) p (h w p)

  catch_preserve :
      {A : Type 0} (r : Result A × World) (handler : Error → Action A)
      → P r.1
      → ((e : Error) → Preserves P (handler e))
      → P (elim r.0 as (λ _. Result A × World) [ ok a ↦ (ok a, r.1) | err e ↦ handler e r.1 ]).1
  catch_preserve (ok a, w) handler p h = p
  catch_preserve (err e, w) handler p h = h e w p

  pub Preserves-catch_error :
      {A : Type 0} (m : Action A) (handler : Error → Action A)
      → Preserves P m
      → ((e : Error) → Preserves P (handler e))
      → Preserves P (catch_error m handler)
  Preserves-catch_error m handler hm h w p = catch_preserve (m w) handler (hm w p) h

-- A property of what `f` reads is preserved by every call that keeps it.
pub Preserves-Keeps {ℓ κ} :
    {X : Type κ} (P : World → Type ℓ) (f : World → X)
    → ((w w' : World) → f w' ≡ f w → P w → P w')
    → {A : Type 0} (m : Action A) → Keeps f m
    → Preserves P m
Preserves-Keeps P f carry m h w p = carry w (m w).1 (h w) p
