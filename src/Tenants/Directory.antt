-- ===== src/Tenants/Directory.antt =====
-- What TenantService promises (src/tenants/tenantService.ts), without its tables: who has which role
-- where, which tenants require four-eyes, which addresses and slugs are in use, and a log.
use ptv_mcp.Base.{
  Bool, ◌&&◌, ◌||◌, List, [], ◌∷◌, ◌++◌, Option, none, some, Text, text, text_eq, if◌then◌else◌,
  find, any, map,
}
use ptv_mcp.World.{
  MembershipRole, tenant_admin, UserRow, Platform, World, AuditEntry, Result, ok, err, Call, ◌>>=◌,
  ◌>>◌, pure, slug_already_taken, user_not_found, membership_not_found, tenant_not_found,
}
use ptv_mcp.Roles.{role_of, requires_four_eyes}
use ptv_mcp.Tenants.Service.{
  has_slug, has_email, is_tenant, create_tenant, add_member, update_member_role, remove_member,
  update_settings,
}

pub record LogLine : Type 0 where
  pub tenant : Text
  pub acting : Option Text
  pub action : Text
  pub resource : Option Text

pub record Directory : Type 0 where
  pub roles : Text → Text → Option MembershipRole
  pub accounts : Text → Option Text
  pub known : Text → Bool
  pub taken : Text → Bool
  pub four_eyes : Text → Bool
  pub log : List LogLine

-- A call of the service, with its arguments; the last one is the acting user.
pub data Request : Type 0 where
  create : Text → Text → Text → Request
  add : Text → Text → MembershipRole → Text → Request
  set_role : Text → Text → MembershipRole → Text → Request
  remove : Text → Text → Text → Request
  set_four_eyes : Text → Bool → Text → Request

pub data Answer : Type 0 where
  created : Text → Answer
  done : Answer
  settings : Bool → Answer

abbrev pub is_pair : Text → Text → Text → Text → Bool
is_pair tenant user t u = text_eq tenant t && text_eq user u

-- The roles after one pair's role is set to `role`, or taken away.
abbrev pub assign :
    Text
    → Text
    → Option MembershipRole
    → (Text → Text → Option MembershipRole)
    → Text
    → Text
    → Option MembershipRole
assign tenant user role roles t u = if is_pair tenant user t u then role else roles t u

abbrev pub log_line : Text → Text → Text → Text → LogLine
log_line tenant acting action resource = record {
  tenant = tenant;
  acting = some acting;
  action = action;
  resource = some resource;
}

abbrev joined : Text → MembershipRole → Text → Directory → Option Text → Result Answer × Directory
joined tenant role acting d none = (err user_not_found, d)
joined tenant role acting d (some user) = (
  ok done,
  record d {
    roles = assign tenant user (some role) d.roles;
    log = d.log ++ log_line tenant acting (text "AddMember") user ∷ [];
  },
)

abbrev changed :
    Text
    → Text
    → MembershipRole
    → Text
    → Directory
    → Option MembershipRole
    → Result Answer × Directory
changed tenant user role acting d none = (err membership_not_found, d)
changed tenant user role acting d (some _) = (
  ok done,
  record d {
    roles = assign tenant user (some role) d.roles;
    log = d.log ++ log_line tenant acting (text "UpdateMemberRole") user ∷ [];
  },
)

-- What a request answers and leaves, `id` being the id that a new tenant gets.
unfoldable pub specify : Text → Request → Directory → Result Answer × Directory
specify id (create name slug user) d = if d.taken slug then (err slug_already_taken, d) else (
  ok (created id),
  record d {
    roles = assign id user (some tenant_admin) d.roles;
    known = λ t. text_eq id t || d.known t;
    taken = λ s. text_eq slug s || d.taken s;
  },
)
specify id (add tenant email role acting) d = joined tenant role acting d (d.accounts email)
specify id (set_role tenant user role acting) d =
    changed tenant user role acting d (d.roles tenant user)
specify id (remove tenant user acting) d = (
  ok done,
  record d {
    roles = assign tenant user none d.roles;
    log = d.log ++ log_line tenant acting (text "RemoveMember") user ∷ [];
  },
)
specify id (set_four_eyes tenant four acting) d =
    if d.known tenant
    then (
      ok (settings four),
      record d {
        four_eyes = λ t. if text_eq tenant t then four else d.four_eyes t;
        log = d.log ++ log_line tenant acting (text "UpdateTenantSettings") tenant ∷ [];
      },
    )
    else (err tenant_not_found, d)

abbrev pub summary : AuditEntry → LogLine
summary e = record {
  tenant = e.tenant_id;
  acting = e.user_id;
  action = e.action;
  resource = e.resource_id;
}

abbrev pub id_of_account : Option UserRow → Option Text
id_of_account none = none
id_of_account (some u) = some u.id

-- The tables, seen as a directory.
unfoldable pub directory : {P : Type 0} → World P → Directory
directory w = record {
  roles = λ t u. role_of t u w.memberships;
  accounts = λ e. id_of_account (find (has_email e) w.users);
  known = λ t. any (is_tenant t) w.tenants;
  taken = λ s. any (has_slug s) w.tenants;
  four_eyes = λ t. requires_four_eyes t w.tenants;
  log = map summary w.audit;
}

module _ {P : Type 0} ⦃platform : Platform⦄ where
  -- The service's method for a request.
  unfoldable pub perform : Request → Call P Answer
  perform (create name slug user) = create_tenant name slug user >>= λ id. pure (created id)
  perform (add tenant email role acting) = add_member tenant email role acting >> pure done
  perform (set_role tenant user role acting) =
      update_member_role tenant user role acting >> pure done
  perform (remove tenant user acting) = remove_member tenant user acting >> pure done
  perform (set_four_eyes tenant four acting) =
      update_settings tenant four acting >>= λ b. pure (settings b)
