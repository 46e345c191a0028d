-- ===== src/Tenants/Tests.antt =====
-- The tenants' operations at a small tenant.
use ptv_mcp.Base.{ℕ, ◌≡◌, refl, false, none, [], ◌∷◌, text, text_eq}
use ptv_mcp.World.{publisher, approver, World, err, ◌>>=◌, membership_not_found, slug_already_taken}
use ptv_mcp.Roles.{role_of, requires_four_eyes}
use ptv_mcp.Audit.{record_audit}
use ptv_mcp.Tenants.Service.{
  list_tenants_for_user, create_tenant, update_member_role, remove_member, update_settings,
  get_settings,
}
use ptv_mcp.Tenants.Directory.{create, directory, specify, perform}
use ptv_mcp.Tenants.Implements.{perform-Implements}
use ptv_mcp.Proposals.Samples.{sample_platform, sample_world}

abbrev small : World ℕ
small = sample_world []

perform-Implements_example :
    (
      (perform (create (text "Uusi") (text "uusi") (text "carl")) small).0,
      directory (perform (create (text "Uusi") (text "uusi") (text "carl")) small).1,
    )
    ≡ specify (100 ∷ []) (create (text "Uusi") (text "uusi") (text "carl")) (directory small)
unfolding text_eq role_of
perform-Implements_example =
    perform-Implements small (create (text "Uusi") (text "uusi") (text "carl")) (λ user. refl)

-- The slug of an existing tenant is refused.
slug_refused : (create_tenant (text "T2") (text "t") (text "carl") small).0 ≡ err slug_already_taken
unfolding text_eq create_tenant ◌>>=◌
slug_refused = refl

-- Bertha is no member, so that her role cannot be changed.
not_a_member :
    (update_member_role (text "t") (text "bertha") publisher (text "anna") small).0
    ≡ err membership_not_found
unfolding text_eq update_member_role ◌>>=◌
not_a_member = refl

-- A removed member has no role.
carl_removed :
    role_of
      (text "t")
      (text "carl")
      (remove_member (text "t") (text "carl") (text "anna") small).1.memberships
    ≡ none
unfolding text_eq role_of remove_member record_audit ◌>>=◌
carl_removed = refl

four_eyes_off :
    requires_four_eyes (text "t") (update_settings (text "t") false (text "anna") small).1.tenants
    ≡ false
unfolding text_eq requires_four_eyes update_settings get_settings record_audit ◌>>=◌
four_eyes_off = refl

anna_tenants :
    list_tenants_for_user (text "anna") small.tenants small.memberships
    ≡ record {
      tenant_id = text "t";
      tenant_name = text "T";
      tenant_slug = text "t";
      role = approver;
    }
      ∷ []
unfolding text_eq list_tenants_for_user
anna_tenants = refl
