-- ===== src/Products/Lifecycle.antt =====
-- The diagram of a product's states, beside the calls of Products and Products/Editing.
use multi_marketplace.Base.{
  ℕ, ◌≡◌, refl, sym, ap, ◌∙◌, ◌⊎◌, inl, inr, String, Bool, true, false, List, [], ◌∷◌, ◌++◌, Option,
  none, some, arith, find_first, update_where, find_first-update_where, find_first-test, Bool-cases,
  eq_of_str_eq, if◌then◌else◌,
}
use multi_marketplace.Store.{World, Product, ProductStatus, ◌===◌, string_eq, product_status_eq}
use multi_marketplace.Repository.Products.{find_by_id, is_claimed, product_row}
use multi_marketplace.Products.{
  is_draft_of, set_pending, submit_for_approval, is_pending_approval, moderated, Verdict,
  verdict_status, moderate, is_on_sale_of, archive, remove, is_archived_of, restore_row, restore,
}
use multi_marketplace.Products.Editing.{
  CreateProductDto, UpdateProductDto, create, update, edit, new_image, created_data,
}
use multi_marketplace.Products.Claims.{
  submit_products, moderate_products, remove_products, restore_products, create_products,
  update_products,
}

-- The calls of `ProductsService` that write, with their arguments.
pub data Call : Type 0 where
  creation : CreateProductDto → String → String → Option String → Call
  edition : String → UpdateProductDto → String → Option String → Call
  submission : String → String → Call
  moderation : String → String → Verdict → Option String → ℕ → Call
  removal : String → String → Call
  restoration : String → String → Call

-- The tables that a call leaves, whether it returns or raises.
unfoldable pub after : Call → World → World
after (Call.creation dto seller slug uploaded) w = (create dto seller slug uploaded w).1
after (Call.edition id dto seller uploaded) w = (update id dto seller uploaded w).1
after (Call.submission id seller) w = (submit_for_approval id seller w).1
after (Call.moderation id admin verdict comment now) w = (moderate id admin verdict comment now w).1
after (Call.removal id seller) w = (remove id seller w).1
after (Call.restoration id seller) w = (restore id seller w).1

-- A product's state: its status and whether it is archived, if there is such a product.
abbrev pub State : Type 0
State = Option (ProductStatus × Bool)

abbrev pub state_of : Option Product → State
state_of none = none
state_of (some p) = some (p.status, p.is_archived)

unfoldable pub state : String → World → State
state x w = state_of (find_by_id x w)

-- The edges, each with the call that takes it.
pub data Edge (x : String) : Call → State → State → Type 0 where
  new_draft :
      (dto : CreateProductDto) (seller slug : String) (uploaded : Option String)
      → Edge x (Call.creation dto seller slug uploaded) none (some (ProductStatus.draft, false))
  to_approval :
      (seller : String)
      → Edge x
          (Call.submission x seller)
          (some (ProductStatus.draft, false))
          (some (ProductStatus.pending_approval, false))
  judged :
      (admin : String) (verdict : Verdict) (comment : Option String) (now : ℕ)
      → Edge x
          (Call.moderation x admin verdict comment now)
          (some (ProductStatus.pending_approval, false))
          (some (verdict_status verdict, false))
  archived :
      (seller : String) (status : ProductStatus)
      → Edge x (Call.removal x seller) (some (status, false)) (some (ProductStatus.archived, true))
  restored :
      (seller : String) (status : ProductStatus)
      → Edge x (Call.restoration x seller) (some (status, true)) (some (ProductStatus.draft, false))

abbrev pub Moves : String → Call → State → State → Type 0
Moves x c s t = (t ≡ s) ⊎ Edge x c s t

-- What an update of the rows that pass does to the state of `x`.
module _ (x id : String) (c : Call) (test : Product → Bool) (change : Product → Product) where
  claimed_row :
      (found : Option Product)
      → ((p : Product) → found ≡ some p → (p.id === x) ≡ true)
      → ((p : Product)
          → x ≡ id
          → test p ≡ true
          → Edge x c
              (some (p.status, p.is_archived))
              (some ((change p).status, (change p).is_archived)))
      → Moves x c (state_of found) (
          state_of (elim found [
            | none ↦ none
            | some p ↦ some (if is_claimed id test p then change p else p)
          ]))
  claimed_row none row edge = inl refl
  claimed_row (some p) row edge = elim (Bool-cases (is_claimed id test p)) [
    | inl claimed ↦ rw claimed (
        inr (
          edge p
            (sym (eq_of_str_eq p.id x (row p refl))
              ∙ eq_of_str_eq p.id id (ground (arith, claimed)))
            (ground (arith, claimed))))
    | inr left ↦ rw left (inl refl)
  ]

  claimed_state :
      (w w' : World)
      → ((p : Product) → (change p).id ≡ p.id)
      → ((p : Product)
          → x ≡ id
          → test p ≡ true
          → Edge x c
              (some (p.status, p.is_archived))
              (some ((change p).status, (change p).is_archived)))
      → (w'.products ≡ w.products)
        ⊎ (w'.products ≡ update_where (is_claimed id test) change w.products)
      → Moves x c (state x w) (state x w')
  unfolding state find_by_id
  claimed_state w w' keep edge (inl same) = inl (rw same refl)
  claimed_state w w' keep edge (inr changed) =
      rw
        (
          changed,
          find_first-update_where (λ p. p.id === x) (is_claimed id test) change w.products
              (λ p. ap (λ y. y === x) (keep p)),
        )
        (claimed_row (find_first (λ p. p.id === x) w.products)
          (λ p found. find_first-test (λ p. p.id === x) w.products found) edge)

is_draft_status : (s : ProductStatus) → (s === ProductStatus.draft) ≡ true → s ≡ ProductStatus.draft
is_draft_status ProductStatus.draft h = refl
is_draft_status ProductStatus.pending_approval h = cc
is_draft_status ProductStatus.active h = cc
is_draft_status ProductStatus.rejected h = cc
is_draft_status ProductStatus.archived h = cc
is_draft_status ProductStatus.sold h = cc

is_pending_status :
    (s : ProductStatus)
    → (s === ProductStatus.pending_approval) ≡ true
    → s ≡ ProductStatus.pending_approval
is_pending_status ProductStatus.draft h = cc
is_pending_status ProductStatus.pending_approval h = refl
is_pending_status ProductStatus.active h = cc
is_pending_status ProductStatus.rejected h = cc
is_pending_status ProductStatus.archived h = cc
is_pending_status ProductStatus.sold h = cc

submission_edge :
    (x seller : String) (p : Product)
    → is_draft_of seller p ≡ true
    → Edge x
        (Call.submission x seller)
        (some (p.status, p.is_archived))
        (some (ProductStatus.pending_approval, p.is_archived))
submission_edge x seller p h =
    let kept : p.is_archived ≡ false = ground (arith, h) in
    rw (is_draft_status p.status (ground (arith, h)), kept) (to_approval seller)

moderation_edge :
    (x admin : String) (v : Verdict) (comment : Option String) (now : ℕ) (p : Product)
    → is_pending_approval p ≡ true
    → Edge x
        (Call.moderation x admin v comment now)
        (some (p.status, p.is_archived))
        (some (verdict_status v, p.is_archived))
moderation_edge x admin v comment now p h =
    let kept : p.is_archived ≡ false = ground (arith, h) in
    rw (is_pending_status p.status (ground (arith, h)), kept) (judged admin v comment now)

removal_edge :
    (x seller : String) (p : Product)
    → is_on_sale_of seller p ≡ true
    → Edge x
        (Call.removal x seller)
        (some (p.status, p.is_archived))
        (some (ProductStatus.archived, true))
removal_edge x seller p h =
    let kept : p.is_archived ≡ false = ground (arith, h) in rw (kept) (archived seller p.status)

restoration_edge :
    (x seller : String) (p : Product)
    → is_archived_of seller p ≡ true
    → Edge x
        (Call.restoration x seller)
        (some (p.status, p.is_archived))
        (some (ProductStatus.draft, false))
restoration_edge x seller p h =
    let kept : p.is_archived ≡ true = ground (arith, h) in rw (kept) (restored seller p.status)

-- A new row at the end.
appended_state :
    (x : String) (ps : List Product) (row : Product)
    → (state_of (find_first (λ p. p.id === x) (ps ++ row ∷ []))
        ≡ state_of (find_first (λ p. p.id === x) ps))
      ⊎ ((state_of (find_first (λ p. p.id === x) ps) ≡ none)
          × (state_of (find_first (λ p. p.id === x) (ps ++ row ∷ []))
              ≡ some (row.status, row.is_archived)))
appended_state x [] row = ground arith
appended_state x (p ∷ ps) row = ground (arith, appended_state x ps row)

edited_state :
    (x id : String) (dto : UpdateProductDto) (image : Option String) (ps : List Product)
    → state_of (find_first (λ p. p.id === x) (update_where (λ p. p.id === id) (edit dto image) ps))
      ≡ state_of (find_first (λ p. p.id === x) ps)
edited_state x id dto image [] = refl
edited_state x id dto image (p ∷ ps) = ground (arith, edited_state x id dto image ps)

creation-Moves :
    (x : String) (dto : CreateProductDto) (seller slug : String) (uploaded : Option String)
    (w w' : World)
    → (w'.products ≡ w.products)
      ⊎ (w'.products
          ≡ w.products ++ product_row (w.uuid w.drawn) (created_data dto seller slug uploaded) ∷ [])
    → Moves x (Call.creation dto seller slug uploaded) (state x w) (state x w')
unfolding state find_by_id
creation-Moves x dto seller slug uploaded w w' (inl same) = inl (rw same refl)
creation-Moves x dto seller slug uploaded w w' (inr grown) =
    elim (appended_state x w.products
      (product_row (w.uuid w.drawn) (created_data dto seller slug uploaded))) [
        | inl kept ↦ inl (rw grown kept)
        | inr (absent, there) ↦ inr (rw (grown, there, absent) (new_draft dto seller slug uploaded))
      ]

state-update :
    (x id : String) (dto : UpdateProductDto) (seller : String) (uploaded : Option String)
    (w : World)
    → state x (update id dto seller uploaded w).1 ≡ state x w
unfolding state find_by_id
state-update x id dto seller uploaded w = elim (update_products id dto seller uploaded w) [
  | inl same ↦ rw same refl
  | inr (existing, found, changed) ↦
      rw changed (edited_state x id dto (new_image uploaded dto.image_url existing) w.products)
]

-- Each call of `ProductsService` that writes leaves the state of every product as it was, or takes it along the
-- edge of the diagram that the call stands on: the calls implement the diagram.
pub after-Moves : (c : Call) (x : String) (w : World) → Moves x c (state x w) (state x (after c w))
unfolding after
after-Moves (Call.creation dto seller slug uploaded) x w =
    creation-Moves x dto seller slug uploaded w (create dto seller slug uploaded w).1
      (create_products dto seller slug uploaded w)
after-Moves (Call.edition id dto seller uploaded) x w =
    inl (state-update x id dto seller uploaded w)
after-Moves (Call.submission id seller) x w =
    claimed_state x id (Call.submission id seller) (is_draft_of seller) set_pending w
      (submit_for_approval id seller w).1 (λ p. refl)
      (λ p e h. rw e (submission_edge id seller p h)) (submit_products id seller w)
after-Moves (Call.moderation id admin v comment now) x w =
    claimed_state x id (Call.moderation id admin v comment now) is_pending_approval
      (moderated (verdict_status v)) w (moderate id admin v comment now w).1 (λ p. refl)
      (λ p e h. rw e (moderation_edge id admin v comment now p h))
      (moderate_products id admin v comment now w)
after-Moves (Call.removal id seller) x w =
    claimed_state x id (Call.removal id seller) (is_on_sale_of seller) archive w
      (remove id seller w).1 (λ p. refl) (λ p e h. rw e (removal_edge id seller p h))
      (remove_products id seller w)
after-Moves (Call.restoration id seller) x w =
    claimed_state x id (Call.restoration id seller) (is_archived_of seller) restore_row w
      (restore id seller w).1 (λ p. refl) (λ p e h. rw e (restoration_edge id seller p h))
      (restore_products id seller w)
