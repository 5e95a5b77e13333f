-- ===== src/Disputes/Courses.antt =====
-- Courses of openings and resolutions of disputes (Disputes).
use multi_marketplace.Base.{
  ℕ, ℤ, ◌≤◌, ◌≡◌, refl, sym, ap, ◌∙◌, inl, inr, String, true, false, List, [], ◌∷◌, ◌++◌, Option,
  none, some, arith, find_first, update_where, count_where, count_where-append, count_where-none,
  count_where-update_where_le, find_first-update_where, find_first-append_old, find_first-test,
  some_eq, Bool-cases, eq_of_str_eq,
}
use multi_marketplace.Store.{World, Dispute, DisputeStatus, ◌===◌, string_eq, dispute_status_eq}
use multi_marketplace.Repository.Disputes.{
  is_unresolved, is_active_for, find_active_for_seller_order, find_dispute,
}
use multi_marketplace.Disputes.{open_dispute, resolve_dispute, resolve_row, is_resolution}
use multi_marketplace.Disputes.Resolution.{open_disputes, resolve_disputes}

-- The calls of `DisputesService` that write, with their arguments.
pub data Call : Type 0 where
  opening : String → String → String → String → Call
  resolution : String → String → DisputeStatus → Option String → ℕ → Call

-- The tables that a call leaves, whether it returns or raises.
unfoldable pub after : (ℤ → ℤ) → Call → World → World
after column (Call.opening customer so subject description) w =
    (open_dispute customer so subject description w).1
after column (Call.resolution admin id status text now) w =
    (resolve_dispute column admin id status text now w).1

-- The tables that calls, one after another, can lead to.
pub data Course (column : ℤ → ℤ) (w : World) : World → Type 0 where
  start : Course column w w
  next : (c : Call) {v : World} → Course column w v → Course column w (after column c v)

abbrev pub AtMostOne : String → World → Type 0
AtMostOne so w = count_where (is_active_for so) w.disputes ≤ 1

resolved_inactive :
    (so admin : String) (status : DisputeStatus) (text : Option String) (now : ℕ) (d : Dispute)
    → is_resolution status ≡ true
    → is_active_for so (resolve_row admin status text now d) ≡ true
    → is_active_for so d ≡ true
resolved_inactive so admin DisputeStatus.opened text now d valid h = cc
resolved_inactive so admin DisputeStatus.under_review text now d valid h = cc
resolved_inactive so admin DisputeStatus.resolved_for_customer text now d valid h =
    ground (arith, h)
resolved_inactive so admin DisputeStatus.resolved_for_seller text now d valid h = ground (arith, h)
resolved_inactive so admin DisputeStatus.closed text now d valid h = cc

-- A new row is the only active one of its seller order.
appended :
    (so so' : String) (row : Dispute) (v : World)
    → row.seller_order_id ≡ so'
    → find_active_for_seller_order so' v ≡ none
    → AtMostOne so v
    → count_where (is_active_for so) (v.disputes ++ row ∷ []) ≤ 1
unfolding find_active_for_seller_order
appended so so' row v of_order free h =
    rw (count_where-append (is_active_for so) v.disputes (row ∷ []))
      (elim (Bool-cases (is_active_for so row)) [
        | inl counted ↦
            let same : so' ≡ so =
              sym of_order ∙ eq_of_str_eq row.seller_order_id so (ground (arith, counted)) in
            let zero : count_where (is_active_for so) v.disputes ≡ 0 =
              count_where-none (is_active_for so) v.disputes (rw same at free) in
            ground (arith, counted, zero)
        | inr passed ↦ ground (arith, passed, h)
      ])

-- An update of an unresolved row leaves a resolved one.
other_row :
    (x id : String) (d d' : Dispute) (change : Dispute → Dispute) (ds : List Dispute)
    → ((c : Dispute) → ((change c).id === x) ≡ (c.id === x))
    → find_first (λ c. c.id === x) ds ≡ some d
    → find_first (λ c. c.id === id) ds ≡ some d'
    → is_unresolved d ≡ false
    → is_unresolved d' ≡ true
    → find_first (λ c. c.id === x) (update_where (λ c. c.id === id) change ds) ≡ some d
other_row x id d d' change ds keep there found closed unresolved =
    rw (find_first-update_where (λ c. c.id === x) (λ c. c.id === id) change ds keep, there)
      (elim (Bool-cases (d.id === id)) [
        | inl named ↦
            let same : x ≡ id =
              sym (eq_of_str_eq d.id x (find_first-test (λ c. c.id === x) ds there))
              ∙ eq_of_str_eq d.id id named in
            let one : d ≡ d' = some_eq (sym there ∙ rw (sym same) at found) in
            let clash : false ≡ true = sym closed ∙ ap is_unresolved one ∙ unresolved in
            absurd (ground (arith, clash))
        | inr passed ↦ rw passed refl
      ])

after-AtMostOne :
    (column : ℤ → ℤ) (so : String) (c : Call) (v : World)
    → AtMostOne so v
    → AtMostOne so (after column c v)
unfolding after
after-AtMostOne column so (Call.opening customer so' subject description) v h =
    elim (open_disputes customer so' subject description v) [
      | inl same ↦ rw same h
      | inr (row, grown, of_order, free) ↦ rw grown (appended so so' row v of_order free h)
    ]
after-AtMostOne column so (Call.resolution admin id status text now) v h =
    elim (resolve_disputes column admin id status text now v) [
      | inl same ↦ rw same h
      | inr (d, found, unresolved, valid, changed) ↦ rw changed (
          ground (
            arith,
            h,
            count_where-update_where_le (is_active_for so) (λ c. c.id === id)
                (resolve_row admin status text now) v.disputes
                (λ c. resolved_inactive so admin status text now c valid),
          ))
    ]

-- At most one dispute of a seller order is open or under review after any calls, if that was so before.
pub Course-AtMostOne :
    (column : ℤ → ℤ) (so : String) {w v : World}
    → Course column w v
    → AtMostOne so w
    → AtMostOne so v
Course-AtMostOne column so start h = h
Course-AtMostOne column so (next c {v} course) h =
    after-AtMostOne column so c v (Course-AtMostOne column so course h)

-- A resolved row is not the one that a call resolves.
after_kept :
    (column : ℤ → ℤ) (x : String) (d : Dispute) (c : Call) (v : World)
    → is_unresolved d ≡ false
    → find_dispute x v ≡ some d
    → find_dispute x (after column c v) ≡ some d
unfolding after find_dispute
after_kept column x d (Call.opening customer so subject description) v closed there =
    elim (open_disputes customer so subject description v) [
      | inl same ↦ rw same there
      | inr (row, grown, of_order, free) ↦
          rw grown (find_first-append_old (λ c. c.id === x) v.disputes (row ∷ []) there)
    ]
after_kept column x d (Call.resolution admin id status text now) v closed there =
    elim (resolve_disputes column admin id status text now v) [
      | inl same ↦ rw same there
      | inr (d', found, unresolved, valid, changed) ↦ rw changed (
          other_row x id d d' (resolve_row admin status text now) v.disputes (λ c. refl) there found
            closed unresolved)
    ]

-- A dispute that is resolved stays as it is, whatever calls follow.
pub Course-resolved :
    (column : ℤ → ℤ) (x : String) (d : Dispute) {w v : World}
    → Course column w v
    → is_unresolved d ≡ false
    → find_dispute x w ≡ some d
    → find_dispute x v ≡ some d
Course-resolved column x d start closed there = there
Course-resolved column x d (next c {v} course) closed there =
    after_kept column x d c v closed (Course-resolved column x d course closed there)
