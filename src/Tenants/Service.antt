-- ===== src/Tenants/Service.antt =====
-- The operations of TenantService (src/tenants/tenantService.ts); `listMembers` is members_of of
-- Proposals/Candidates.
use ptv_mcp.Base.{
  ℕ, ◌+◌, Bool, true, not, ◌&&◌, List, [], ◌∷◌, ◌++◌, Option, none, some, Text, text, text_eq,
  if◌then◌else◌, find, any, filter_by, update_where,
}
use ptv_mcp.Json.{Json, str, bool, obj, field, end}
use ptv_mcp.World.{
  MembershipRole, viewer, contributor, approver, publisher, tenant_admin, UserRow, Membership,
  TenantRow, Platform, Call, ok, ◌>>=◌, ◌>>◌, pure, throw_if, gets, modify, or_throw,
  slug_already_taken, user_not_found, membership_not_found, tenant_not_found,
}
use ptv_mcp.Audit.{AuditEntryInput, record_audit}

abbrev pub has_slug : Text → TenantRow → Bool
has_slug slug t = text_eq t.slug slug

abbrev pub is_tenant : Text → TenantRow → Bool
is_tenant id t = text_eq t.id id

abbrev pub has_email : Text → UserRow → Bool
has_email email u = text_eq u.email email

-- `WHERE tenant_id = … AND user_id = …`
abbrev pub is_membership : Text → Text → Membership → Bool
is_membership tenant user m = text_eq m.tenant_id tenant && text_eq m.user_id user

abbrev pub with_role : MembershipRole → Membership → Membership
with_role role m = record m { role = role }

-- INSERT … ON CONFLICT (user_id, tenant_id) DO UPDATE SET role.
unfoldable pub upsert_membership : Text → Text → MembershipRole → List Membership → List Membership
upsert_membership tenant user role [] =
    record { tenant_id = tenant; user_id = user; role = role } ∷ []
upsert_membership tenant user role (m ∷ ms) =
    let rest = upsert_membership tenant user role ms in
    if is_membership tenant user m then with_role role m ∷ ms else m ∷ rest

abbrev pub with_settings : Bool → ℕ → TenantRow → TenantRow
with_settings four now t = record t { require_four_eyes = four; updated_at = now }

abbrev role_name : MembershipRole → Text
role_name viewer = text "viewer"
role_name contributor = text "contributor"
role_name approver = text "approver"
role_name publisher = text "publisher"
role_name tenant_admin = text "tenant_admin"

abbrev role_state : MembershipRole → Json
role_state role = obj (field (text "role") (str (role_name role)) end)

abbrev settings_state : Bool → Json
settings_state four = obj (field (text "requireFourEyes") (bool four) end)

abbrev pub membership_entry : Text → Text → Text → Text → Option MembershipRole → AuditEntryInput
membership_entry tenant acting action user role = record {
  tenant_id = tenant;
  user_id = some acting;
  action = action;
  resource_type = text "Membership";
  resource_id = some user;
  before_state = none;
  after_state = elim role [ none ↦ none | some r ↦ some (role_state r) ];
  result = text "Success";
  correlation_id = none;
}

abbrev pub settings_entry : Text → Text → Bool → Bool → AuditEntryInput
settings_entry tenant acting before four = record {
  tenant_id = tenant;
  user_id = some acting;
  action = text "UpdateTenantSettings";
  resource_type = text "Tenant";
  resource_id = some tenant;
  before_state = some (settings_state before);
  after_state = some (settings_state four);
  result = text "Success";
  correlation_id = none;
}

abbrev pub new_tenant : Text → Text → Text → ℕ → TenantRow
new_tenant id name slug now = record {
  id = id;
  name = name;
  slug = slug;
  require_four_eyes = true;
  updated_at = now;
}

-- What `listTenantsForUser` answers for one membership.
pub record TenantMembership : Type 0 where
  pub tenant_id : Text
  pub tenant_name : Text
  pub tenant_slug : Text
  pub role : MembershipRole

abbrev membership_with :
    Membership → Option TenantRow → List TenantMembership → List TenantMembership
membership_with m none rest = rest
membership_with m (some t) rest =
    record { tenant_id = t.id; tenant_name = t.name; tenant_slug = t.slug; role = m.role } ∷ rest

-- `listTenantsForUser`: the user's memberships joined with their tenants.
unfoldable pub list_tenants_for_user :
    Text → List TenantRow → List Membership → List TenantMembership
list_tenants_for_user user tenants [] = []
list_tenants_for_user user tenants (m ∷ ms) =
    let rest = list_tenants_for_user user tenants ms in
    if text_eq m.user_id user
    then membership_with m (find (is_tenant m.tenant_id) tenants) rest
    else rest

module _ {P : Type 0} ⦃platform : Platform⦄ where
  -- The transaction of `createTenant`: both rows, or none.
  abbrev pub insert_tenant : Text → Text → Text → Call P Text
  insert_tenant name slug user w =
      let id = platform.random_uuid w.seed in
      (
        ok id,
        record w {
          seed = w.seed + 1;
          tenants = w.tenants ++ new_tenant id name slug w.now ∷ [];
          memberships =
              w.memberships ++ record { tenant_id = id; user_id = user; role = tenant_admin } ∷ [];
        },
      )

  unfoldable pub create_tenant : Text → Text → Text → Call P Text
  create_tenant name slug user = do
    taken ← gets (λ w. any (has_slug slug) w.tenants)
    throw_if taken slug_already_taken
    insert_tenant name slug user

  unfoldable pub add_member : Text → Text → MembershipRole → Text → Call P (Unit {0})
  add_member tenant email role acting = do
    row ← gets (λ w. find (has_email email) w.users)
    user ← or_throw row user_not_found
    modify (λ w. record w { memberships = upsert_membership tenant user.id role w.memberships })
    record_audit (membership_entry tenant acting (text "AddMember") user.id (some role))
    pure tt

  unfoldable pub update_member_role : Text → Text → MembershipRole → Text → Call P (Unit {0})
  update_member_role tenant user role acting = do
    found ← gets (λ w. any (is_membership tenant user) w.memberships)
    modify (λ w. record w {
      memberships = update_where (is_membership tenant user) (with_role role) w.memberships;
    })
    throw_if (not found) membership_not_found
    record_audit (membership_entry tenant acting (text "UpdateMemberRole") user (some role))
    pure tt

  unfoldable pub remove_member : Text → Text → Text → Call P (Unit {0})
  remove_member tenant user acting = do
    modify (λ w. record w {
      memberships = filter_by (λ m. not (is_membership tenant user m)) w.memberships;
    })
    record_audit (membership_entry tenant acting (text "RemoveMember") user none)
    pure tt

  unfoldable pub get_settings : Text → Call P Bool
  get_settings tenant = do
    row ← gets (λ w. find (is_tenant tenant) w.tenants)
    found ← or_throw row tenant_not_found
    pure found.require_four_eyes

  unfoldable pub update_settings : Text → Bool → Text → Call P Bool
  update_settings tenant four acting = do
    before ← get_settings tenant
    modify (λ w. record w {
      tenants = update_where (is_tenant tenant) (with_settings four w.now) w.tenants;
    })
    record_audit (settings_entry tenant acting before four)
    pure four
