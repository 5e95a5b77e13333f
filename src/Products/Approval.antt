-- ===== src/Products/Approval.antt =====
-- Courses of calls of `ProductsService` (Products, Products/Editing).
use multi_marketplace.Base.{
  ◌≡◌, ◌≢◌, refl, sym, ◌∙◌, arith, inl, inr, String, Bool, true, false, List, [], ◌∷◌, none, some,
  any, str_eq_refl,
}
use multi_marketplace.Store.{World, ProductStatus, ◌===◌, string_eq, product_status_eq}
use multi_marketplace.Products.{Verdict}
use multi_marketplace.Products.Lifecycle.{Call, after, State, state, Edge, after-Moves}

-- The tables that the calls of a list, the last first, can lead to.
pub data Course (w : World) : List Call → World → Type 0 where
  start : Course w [] w
  next : (c : Call) {cs : List Call} {v : World} → Course w cs v → Course w (c ∷ cs) (after c v)

-- An administrator's approval of `x`.
abbrev pub is_approval : String → Call → Bool
is_approval x (Call.moderation id admin Verdict.approve comment now) = id === x
is_approval x (Call.moderation id admin Verdict.reject comment now) = false
is_approval x (Call.creation dto seller slug uploaded) = false
is_approval x (Call.edition id dto seller uploaded) = false
is_approval x (Call.submission id seller) = false
is_approval x (Call.removal id seller) = false
is_approval x (Call.restoration id seller) = false

edge_to_active :
    (x : String) {c : Call} {s t : State}
    → Edge x c s t
    → t ≡ some (ProductStatus.active, false)
    → is_approval x c ≡ true
edge_to_active x (Edge.new_draft dto seller slug uploaded) e = cc
edge_to_active x (Edge.to_approval seller) e = cc
edge_to_active x (Edge.judged admin Verdict.approve comment now) e = str_eq_refl x
edge_to_active x (Edge.judged admin Verdict.reject comment now) e = cc
edge_to_active x (Edge.archived seller status) e = cc
edge_to_active x (Edge.restored seller status) e = cc

-- Whatever calls are made, in any order, a product that is ACTIVE and not archived at the end, and was not so at the
-- beginning, has been approved by an administrator in between.
pub active_approved :
    (x : String) {w v : World} {cs : List Call}
    → Course w cs v
    → state x w ≢ some (ProductStatus.active, false)
    → state x v ≡ some (ProductStatus.active, false)
    → any (is_approval x) cs ≡ true
active_approved x start never e = absurd (never e)
active_approved x (next c {cs} {v} course) never e = elim (after-Moves c x v) [
  | inl same ↦
      let before : any (is_approval x) cs ≡ true = active_approved x course never (sym same ∙ e) in
      ground (arith, before)
  | inr edge ↦ rw (edge_to_active x edge e) refl
]

-- A product is archived exactly when its status says so.
abbrev pub IsConsistent : State → Type 0
IsConsistent none = Unit
IsConsistent (some (status, is_archived)) = is_archived ≡ (status === ProductStatus.archived)

edge-IsConsistent : (x : String) {c : Call} {s t : State} → Edge x c s t → IsConsistent t
edge-IsConsistent x (Edge.new_draft dto seller slug uploaded) = refl
edge-IsConsistent x (Edge.to_approval seller) = refl
edge-IsConsistent x (Edge.judged admin Verdict.approve comment now) = refl
edge-IsConsistent x (Edge.judged admin Verdict.reject comment now) = refl
edge-IsConsistent x (Edge.archived seller status) = refl
edge-IsConsistent x (Edge.restored seller status) = refl

-- The flag `isArchived` and the status ARCHIVED agree on a product after any calls, if they did before.
pub Course-IsConsistent :
    (x : String) {w v : World} {cs : List Call}
    → Course w cs v
    → IsConsistent (state x w)
    → IsConsistent (state x v)
Course-IsConsistent x start h = h
Course-IsConsistent x (next c {cs} {v} course) h = elim (after-Moves c x v) [
  | inl same ↦ rw same (Course-IsConsistent x course h)
  | inr edge ↦ edge-IsConsistent x edge
]
