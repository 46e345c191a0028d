-- ===== src/Roles.antt =====
-- Membership roles: src/auth/rbac.ts and src/mcp/authorization.ts.
use ptv_mcp.Base.{
  ℕ, Bool, true, ◌&&◌, List, [], ◌∷◌, Option, none, some, Text, text_eq, ltb, if◌then◌else◌,
}
use ptv_mcp.World.{
  MembershipRole, viewer, contributor, approver, publisher, tenant_admin, Membership, TenantRow,
  Result, ok, err, Call, throw_if, not_authorized, four_eyes,
}

-- ROLE_RANK
abbrev pub role_rank : MembershipRole → ℕ
role_rank viewer = 0
role_rank contributor = 1
role_rank approver = 2
role_rank publisher = 3
role_rank tenant_admin = 4

-- The role of `user` in `tenant`; a membership is unique there.
unfoldable pub role_of : Text → Text → List Membership → Option MembershipRole
role_of tenant user [] = none
role_of tenant user (m ∷ ms) =
    let rest = role_of tenant user ms in
    if text_eq m.tenant_id tenant && text_eq m.user_id user then some m.role else rest

-- The role, if it is `min_role` or above.
unfoldable pub check_role : Option MembershipRole → MembershipRole → Result MembershipRole
check_role none min_role = err (not_authorized min_role)
check_role (some role) min_role =
    if ltb (role_rank role) (role_rank min_role) then err (not_authorized min_role) else ok role

-- `tenantRequiresFourEyes`: an unknown tenant counts as one that requires it.
unfoldable pub requires_four_eyes : Text → List TenantRow → Bool
requires_four_eyes tenant [] = true
requires_four_eyes tenant (t ∷ ts) =
    let rest = requires_four_eyes tenant ts in
    if text_eq t.id tenant then t.require_four_eyes else rest

module _ {P : Type 0} where
  unfoldable pub require_tenant_role : Text → Text → MembershipRole → Call P MembershipRole
  unfolding check_role
  require_tenant_role tenant user min_role w =
      (check_role (role_of tenant user w.memberships) min_role, w)

  -- `requireNoFourEyes`
  unfoldable pub require_no_four_eyes : Text → Call P (Unit {0})
  require_no_four_eyes tenant w = throw_if (requires_four_eyes tenant w.tenants) four_eyes w
