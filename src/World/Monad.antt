-- ===== src/World/Monad.antt =====
-- The state that a service call works on, its errors, and `async` functions as a monad.
use ptv_mcp.Base.{ℕ, Bool, List, Option, none, some, Text, if◌then◌else◌}
use ptv_mcp.World.Tables.{
  MembershipRole, ProposalStatus, ProposalRecord, CommentRow, ReviewerRow, UserRow, Membership,
  TenantRow, AuditEntry,
}
use ptv_mcp.World.ReviewTables.{CampaignRow, ItemRow}

-- The errors that the services throw, without their message texts.
pub data ServiceError : Type 0 where
  not_authorized : MembershipRole → ServiceError
  four_eyes : ServiceError
  proposal_not_found : ServiceError
  already_resolved : ProposalStatus → ServiceError
  not_a_requested_reviewer : ServiceError
  reviews_pending : List ReviewerRow → ServiceError
  invalid_comment : ServiceError
  invalid_review_request : ServiceError
  invalid_resolve_action : ServiceError
  manual_publish_check : ServiceError
  adapter_not_authorized : ServiceError
  target_not_found : ServiceError
  review_campaign_error : ServiceError
  review_campaign_not_found : ServiceError
  review_item_not_found : ServiceError
  slug_already_taken : ServiceError
  user_not_found : ServiceError
  membership_not_found : ServiceError
  tenant_not_found : ServiceError
  -- Any other error, such as a failed validation or a failed request to PTV.
  other_error : Text → ServiceError

-- The database, the clock, the source of random ids, and PTV's own content, of a type `P` that
-- only the adapters look into.
pub record World (P : Type 0) : Type 0 where
  pub now : ℕ
  pub seed : ℕ
  pub proposals : List ProposalRecord
  pub comments : List CommentRow
  pub reviewers : List ReviewerRow
  pub users : List UserRow
  pub memberships : List Membership
  pub tenants : List TenantRow
  pub audit : List AuditEntry
  pub campaigns : List CampaignRow
  pub items : List ItemRow
  pub ptv : P

-- What the platform brings: random ids, Unicode case folding, Finnish collation and that of the
-- database.
pub record Platform : Type 0 where
  pub random_uuid : ℕ → Text
  pub to_lower_case : Text → Text
  -- `a.localeCompare(b, 'fi') <= 0`
  pub locale_before : Text → Text → Bool
  -- The order of `asc(users.name)`, equal names included.
  pub sql_before : Text → Text → Bool

pub data Result (A : Type 0) : Type 0 where
  ok : A → Result A
  err : ServiceError → Result A

abbrev pub Call : Type 0 → Type 0 → Type 0
Call P A = World P → Result A × World P

module _ {P A : Type 0} where
  abbrev pub pure : A → Call P A
  pure a w = (ok a, w)

  abbrev pub throw : ServiceError → Call P A
  throw e w = (err e, w)

  abbrev pub gets : (World P → A) → Call P A
  gets f w = (ok (f w), w)

  abbrev pub or_throw : Option A → ServiceError → Call P A
  or_throw none e w = (err e, w)
  or_throw (some a) e w = (ok a, w)

-- What follows a step, by its outcome.
abbrev pub continue : {P A B : Type 0} → (A → Call P B) → Result A → World P → Result B × World P
continue f (ok a) v = f a v
continue f (err e) v = (err e, v)

infixl 5 ◌>>=◌ ◌>>◌
unfoldable pub ◌>>=◌ : {P A B : Type 0} → Call P A → (A → Call P B) → Call P B
◌>>=◌ m f w = continue f (m w).0 (m w).1

abbrev pub ◌>>◌ : {P A B : Type 0} → Call P A → Call P B → Call P B
m >> k = m >>= λ _. k

-- `if (c) throw e`
abbrev pub throw_if : {P : Type 0} → Bool → ServiceError → Call P (Unit {0})
throw_if c e w = (if c then err e else ok tt, w)

abbrev pub modify : {P : Type 0} → (World P → World P) → Call P (Unit {0})
modify f w = (ok tt, f w)
