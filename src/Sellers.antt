-- ===== src/Sellers.antt =====
-- Applications of sellers (backend/src/sellers/sellers.service.ts, with the calls of
-- backend/src/database/seller-profile.repository.ts and user.repository.ts). The audit log is left out.
pub mod Approval
use multi_marketplace.Base.{
  ℕ, String, Bool, false, ◌&&◌, List, [], ◌∷◌, ◌++◌, Option, none, some, find_first, update_where,
  count_where, ◌==◌, not,
}
use multi_marketplace.Store.{
  World, SellerProfile, SellerStatus, User, Role, Action, Reason, ok, gets, modify, raise_if,
  or_raise, require_row, pure, fresh_id, transaction, conflict, not_found, record_missing, ◌===◌,
  ◌>>=◌, ◌>>◌, string_eq, option_eq, seller_status_eq,
}

unfoldable pub find_by_user_id : String → World → Option SellerProfile
find_by_user_id user w = find_first (λ p. p.user_id === user) w.profiles

unfoldable pub find_profile : String → World → Option SellerProfile
find_profile id w = find_first (λ p. p.id === id) w.profiles

-- `CreateSellerApplicationDto`; a missing description leaves an old one.
pub record Application : Type 0 where
  pub display_name : String
  pub description : Option String

abbrev pub profile_row : String → String → Application → SellerProfile
profile_row id user dto = record {
  id = id;
  user_id = user;
  display_name = dto.display_name;
  description = dto.description;
  status = SellerStatus.pending;
  rejection_reason = none;
  reviewed_at = none;
  reviewed_by_id = none;
}

abbrev pub reapply : Application → SellerProfile → SellerProfile
reapply dto p = record p {
  display_name = dto.display_name;
  description = elim dto.description [ none ↦ p.description | some d ↦ some d ];
  status = SellerStatus.pending;
  rejection_reason = none;
  reviewed_at = none;
  reviewed_by_id = none;
}

abbrev insert_or_update : String → Application → Option SellerProfile → Action SellerProfile
insert_or_update user dto none = do
  id ← fresh_id
  modify λ w. record w { profiles = w.profiles ++ profile_row id user dto ∷ [] }
  pure (profile_row id user dto)
insert_or_update user dto (some p) = do
  modify
      λ w. record w { profiles = update_where (λ q. q.user_id === user) (reapply dto) w.profiles }
  pure (reapply dto p)

-- `upsert`.
unfoldable pub upsert_for_user : String → Application → Action SellerProfile
upsert_for_user user dto = do
  existing ← gets (find_by_user_id user)
  insert_or_update user dto existing

-- `existing?.status === status`.
abbrev pub has_status : SellerStatus → Option SellerProfile → Bool
has_status status existing = elim existing [ none ↦ false | some p ↦ p.status === status ]

unfoldable pub apply : String → Application → Action SellerProfile
apply user dto = do
  existing ← gets (find_by_user_id user)
  raise_if (has_status SellerStatus.approved existing) (conflict Reason.seller_approved)
  raise_if (has_status SellerStatus.pending existing) (conflict Reason.application_pending)
  upsert_for_user user dto

abbrev pub is_pending_profile : String → SellerProfile → Bool
is_pending_profile id p = p.id === id && p.status === SellerStatus.pending

unfoldable pub claim_pending : String → (SellerProfile → SellerProfile) → Action ℕ
claim_pending id change w = (
  ok (count_where (is_pending_profile id) w.profiles),
  record w { profiles = update_where (is_pending_profile id) change w.profiles },
)

unfoldable pub update_role : String → Role → Action (Unit {0})
update_role user role = do
  require_row (← gets λ w. count_where (λ u. u.id === user) w.users)
  modify λ w. record w {
    users = update_where (λ u. u.id === user) (λ u. record u { role = role }) w.users;
  }

abbrev pub set_profile_status : SellerStatus → SellerProfile → SellerProfile
set_profile_status status p = record p { status = status }

-- `update(id, { status })`, which returns the row.
unfoldable pub update_status : String → SellerStatus → Action SellerProfile
update_status id status = do
  row ← or_raise (← gets (find_profile id)) record_missing
  modify λ w. record w {
    profiles = update_where (λ p. p.id === id) (set_profile_status status) w.profiles;
  }
  pure (set_profile_status status row)

abbrev pub reviewed : SellerStatus → String → ℕ → Option String → SellerProfile → SellerProfile
reviewed status admin now reason p = record p {
  status = status;
  reviewed_by_id = some admin;
  reviewed_at = some now;
  rejection_reason = reason;
}

unfoldable pub approve_body : String → String → ℕ → Action SellerProfile
approve_body id admin now = do
  profile ← or_raise (← gets (find_profile id)) (not_found Reason.application_missing)
  raise_if (not (profile.status === SellerStatus.pending)) (conflict Reason.application_not_pending)
  claimed ← claim_pending id (reviewed SellerStatus.approved admin now none)
  raise_if (claimed == 0) (conflict Reason.application_processed)
  update_role profile.user_id Role.seller
  update_status id SellerStatus.approved

unfoldable pub approve : String → String → ℕ → Action SellerProfile
approve id admin now = transaction (approve_body id admin now)

unfoldable pub reject : String → String → String → ℕ → Action SellerProfile
reject id admin reason now = do
  profile ← or_raise (← gets (find_profile id)) (not_found Reason.application_missing)
  raise_if (not (profile.status === SellerStatus.pending)) (conflict Reason.application_not_pending)
  claimed ← claim_pending id (reviewed SellerStatus.rejected admin now (some reason))
  raise_if (claimed == 0) (conflict Reason.application_processed)
  or_raise (← gets (find_profile id)) record_missing
