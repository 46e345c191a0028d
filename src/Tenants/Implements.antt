-- ===== src/Tenants/Implements.antt =====
-- The methods of TenantService (src/tenants/tenantService.ts) against the directory that they promise.
use ptv_mcp.Base.{
  ◌≡◌, refl, inl, inr, Bool, true, false, ◌||◌, Option, none, some, [], ◌∷◌, ◌++◌, map, Text, text,
  text_eq, Bool-cases, find, any,
}
use mathlib.Core.List.{map-append}
use ptv_mcp.World.{
  MembershipRole, tenant_admin, UserRow, TenantRow, Platform, World, ok, err, ◌>>=◌,
  membership_not_found,
}
use ptv_mcp.Roles.{role_of}
use ptv_mcp.Audit.{AuditEntryInput, entry_of, record_audit}
use ptv_mcp.Tenants.Service.{
  add_member, create_tenant, get_settings, has_email, has_slug, insert_tenant, is_membership,
  is_tenant, membership_entry, new_tenant, remove_member, settings_entry, update_member_role,
  update_settings, with_role, with_settings,
}
use ptv_mcp.Tenants.Directory.{
  Request, assign, directory, perform, specify, summary, create, add, set_role, remove,
  set_four_eyes, created, done, settings,
}
use ptv_mcp.Tenants.Members.{
  any-role_of, upsert_membership-assigns, update_where-assigns, append-assigns, filter_by-assigns,
}
use ptv_mcp.Tenants.Settings.{
  any-append, any-find, any-update_where, update_where_none, requires_four_eyes-append,
  requires_four_eyes-update_where,
}

module _ {P : Type 0} ⦃platform : Platform⦄ (w : World P) where
  -- The next random id is no tenant's that somebody is a member of.
  abbrev pub FreshTenant : Type 0
  FreshTenant = (user : Text) → role_of (platform.random_uuid w.seed) user w.memberships ≡ none

  -- A request answers, and leaves the tables, as the directory says.
  abbrev pub Implements : Request → Type 0
  Implements req =
      ((perform req w).0, directory (perform req w).1)
      ≡ specify (platform.random_uuid w.seed) req (directory w)

  log_of :
      (input : AuditEntryInput)
      → map summary (w.audit ++ entry_of input (platform.random_uuid w.seed) w.now ∷ [])
        ≡ map summary w.audit
          ++ record {
            tenant = input.tenant_id;
            acting = input.user_id;
            action = input.action;
            resource = input.resource_id;
          }
            ∷ []
  log_of input = map-append summary w.audit (_ ∷ [])

  create-Implements :
      (name slug user : Text)
      → role_of (platform.random_uuid w.seed) user w.memberships ≡ none
      → Implements (create name slug user)
  unfolding ◌>>=◌ create_tenant perform directory specify
  create-Implements name slug user fresh = elim (Bool-cases (any (has_slug slug) w.tenants)) [
    | inl taken ↦ rw taken
    | inr free ↦ rw free (λ i. (ok (created id), after i))
  ]
    where
      id : Text
      id = platform.random_uuid w.seed

      row : TenantRow
      row = new_tenant id name slug w.now

      after : directory (insert_tenant name slug user w).1 ≡ record (directory w) {
        roles = assign id user (some tenant_admin) (directory w).roles;
        known = λ t. text_eq id t || (directory w).known t;
        taken = λ s. text_eq slug s || (directory w).taken s;
      }
      after i = record (directory w) {
        roles = λ t u. append-assigns id user tenant_admin w.memberships t u fresh i;
        known = λ t. any-append (is_tenant t) row w.tenants i;
        taken = λ s. any-append (has_slug s) row w.tenants i;
        four_eyes = λ t. requires_four_eyes-append row t w.tenants refl i;
      }

  add-Implements :
      (tenant email : Text) (role : MembershipRole) (acting : Text)
      → Implements (add tenant email role acting)
  unfolding ◌>>=◌ add_member record_audit perform directory specify
  add-Implements tenant email role acting = by_account (find (has_email email) w.users) refl
    where
      by_account :
          (row : Option UserRow)
          → find (has_email email) w.users ≡ row
          → Implements (add tenant email role acting)
      by_account none e = rw e
      by_account (some user) e = rw e (λ i. (
        ok done,
        record (directory w) {
          roles = λ t u. upsert_membership-assigns tenant user.id role w.memberships t u i;
          log = log_of (membership_entry tenant acting (text "AddMember") user.id (some role)) i;
        },
      ))

  set_role-Implements :
      (tenant user : Text) (role : MembershipRole) (acting : Text)
      → Implements (set_role tenant user role acting)
  unfolding ◌>>=◌ update_member_role record_audit perform directory specify
  set_role-Implements tenant user role acting = by_role (role_of tenant user w.memberships) refl
    where
      met :
          (old : Option MembershipRole)
          → role_of tenant user w.memberships ≡ old
          → any (is_membership tenant user) w.memberships
            ≡ elim old [ none ↦ false | some _ ↦ true ]
      met old e = rw (any-role_of tenant user w.memberships, e)

      by_role :
          (old : Option MembershipRole)
          → role_of tenant user w.memberships ≡ old
          → Implements (set_role tenant user role acting)
      by_role none e =
          rw (met none e, e)
            (λ i. (
              err membership_not_found,
              record (directory w) {
                roles = λ t u. role_of t u (
                    update_where_none (is_membership tenant user) (with_role role) w.memberships
                      (met none e) i);
              },
            ))
      by_role (some old) e =
          rw (met (some old) e, e)
            (λ i. (
              ok done,
              record (directory w) {
                roles = λ t u.
                    update_where-assigns tenant user role w.memberships t u (met (some old) e) i;
                log =
                    log_of
                      (membership_entry tenant acting (text "UpdateMemberRole") user (some role)) i;
              },
            ))

  remove-Implements : (tenant user acting : Text) → Implements (remove tenant user acting)
  unfolding ◌>>=◌ remove_member record_audit perform directory specify
  remove-Implements tenant user acting = λ i. (
    ok done,
    record (directory w) {
      roles = λ t u. filter_by-assigns tenant user w.memberships t u i;
      log = log_of (membership_entry tenant acting (text "RemoveMember") user none) i;
    },
  )

  set_four_eyes-Implements :
      (tenant : Text) (four : Bool) (acting : Text) → Implements (set_four_eyes tenant four acting)
  unfolding ◌>>=◌ get_settings update_settings record_audit perform directory specify
  set_four_eyes-Implements tenant four acting = by_tenant (find (is_tenant tenant) w.tenants) refl
    where
      by_tenant :
          (row : Option TenantRow)
          → find (is_tenant tenant) w.tenants ≡ row
          → Implements (set_four_eyes tenant four acting)
      by_tenant none e = rw (e, any-find (is_tenant tenant) w.tenants, e)
      by_tenant (some row) e =
          rw (e, known row e)
            (λ i. (
              ok (settings four),
              record (directory w) {
                known = λ t.
                    any-update_where (is_tenant t) (is_tenant tenant) (with_settings four w.now)
                      (λ x. refl) w.tenants i;
                taken = λ s.
                    any-update_where (has_slug s) (is_tenant tenant) (with_settings four w.now)
                      (λ x. refl) w.tenants i;
                four_eyes = λ t.
                    requires_four_eyes-update_where tenant four w.now t w.tenants (known row e) i;
                log = log_of (settings_entry tenant acting row.require_four_eyes four) i;
              },
            ))
        where
          known :
              (row : TenantRow)
              → find (is_tenant tenant) w.tenants ≡ some row
              → any (is_tenant tenant) w.tenants ≡ true
          known row e = rw (any-find (is_tenant tenant) w.tenants, e)

  -- Creating a tenant, adding or removing a member, and changing a role or the four-eyes setting
  -- answer, on success and on every error, and leave the role of every user in every tenant, the
  -- four-eyes setting, the known tenants, the slugs in use and the audit log, exactly as the
  -- abstract directory says: one pair's role or one tenant's setting changes and one entry is
  -- logged (none for a new tenant), or nothing changes; nobody is a member of the id drawn next.
  pub perform-Implements : (req : Request) → FreshTenant → Implements req
  perform-Implements (create name slug user) fresh = create-Implements name slug user (fresh user)
  perform-Implements (add tenant email role acting) fresh = add-Implements tenant email role acting
  perform-Implements (set_role tenant user role acting) fresh =
      set_role-Implements tenant user role acting
  perform-Implements (remove tenant user acting) fresh = remove-Implements tenant user acting
  perform-Implements (set_four_eyes tenant four acting) fresh =
      set_four_eyes-Implements tenant four acting
