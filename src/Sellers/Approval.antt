-- ===== src/Sellers/Approval.antt =====
-- What an approval does (Sellers).
use multi_marketplace.Base.{
  ℕ, ◌≡◌, refl, ap, String, true, List, Option, none, some, arith, find_first, update_where,
  find_first-update_where, find_first-test,
}
use multi_marketplace.Store.{
  World, SellerProfile, SellerStatus, Role, ok, ◌===◌, string_eq, seller_status_eq,
}
use multi_marketplace.Sellers.{
  find_profile, is_pending_profile, claim_pending, update_role, update_status, reviewed,
  set_profile_status, approve_body, approve,
}

-- The row with the identifier, after a claim of the pending row and an update of the status.
found_after :
    (id : String) (p : SellerProfile) (change : SellerProfile → SellerProfile)
    (rows : List SellerProfile)
    → ((q : SellerProfile) → (change q).id ≡ q.id)
    → find_first (λ q. q.id === id) rows ≡ some p
    → (p.status === SellerStatus.pending) ≡ true
    → find_first (λ q. q.id === id) (update_where (is_pending_profile id) change rows)
      ≡ some (change p)
found_after id p change rows keep there pending =
    rw
      (
        find_first-update_where (λ q. q.id === id) (is_pending_profile id) change rows
            (λ q. ap (λ y. y === id) (keep q)),
        there,
        find_first-test (λ q. q.id === id) rows there,
        pending,
      )
      refl

-- A call of `approve` that returns was for a pending application; it returns the application, approved by
-- the administrator at that time, and stores it so, and makes the applicant a seller, changing the role of no other user.
pub approve_grants :
    (id admin : String) (now : ℕ) (w : World) {r : SellerProfile} {w' : World}
    → approve id admin now w ≡ (ok r, w')
    → (p : SellerProfile) × (find_profile id w ≡ some p)
      × ((p.status === SellerStatus.pending) ≡ true)
      × (r ≡ record p {
        status = SellerStatus.approved;
        reviewed_by_id = some admin;
        reviewed_at = some now;
        rejection_reason = none;
      })
      × (find_profile id w' ≡ some r)
      × (w'.users
          ≡ update_where (λ u. u.id === p.user_id) (λ u. record u { role = Role.seller }) w.users)
unfolding approve approve_body claim_pending update_role update_status find_profile
approve_grants id admin now w {r} {w'} h = given (find_first (λ q. q.id === id) w.profiles) refl
  where
    given :
        (o : Option SellerProfile)
        → find_first (λ q. q.id === id) w.profiles ≡ o
        → (p : SellerProfile) × (o ≡ some p)
          × ((p.status === SellerStatus.pending) ≡ true)
          × (r ≡ record p {
            status = SellerStatus.approved;
            reviewed_by_id = some admin;
            reviewed_at = some now;
            rejection_reason = none;
          })
          × (find_first (λ q. q.id === id) w'.profiles ≡ some r)
          × (w'.users
              ≡ update_where
                  (λ u. u.id === p.user_id)
                  (λ u. record u { role = Role.seller })
                  w.users)
    given none e = absurd (ground (arith, h, e))
    given (some p) e =
        let pending : (p.status === SellerStatus.pending) ≡ true = ground (arith, h, e) in
        let after =
          found_after id p (reviewed SellerStatus.approved admin now none) w.profiles (λ q. refl) e
            pending in
        let named = find_first-test (λ q. q.id === id) w.profiles e in
        let again =
          find_first-update_where (λ q. q.id === id) (λ q. q.id === id)
            (set_profile_status SellerStatus.approved)
            (update_where (is_pending_profile id) (reviewed SellerStatus.approved admin now none)
              w.profiles)
            (λ q. refl) in
        (
          p,
          refl,
          pending,
          ground (arith, h, e, after),
          ground (arith, h, e, after, again, named),
          ground (arith, h, e, after),
        )
