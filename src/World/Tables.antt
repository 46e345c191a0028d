-- ===== src/World/Tables.antt =====
-- Rows of the database: src/db/schema/enums.ts, src/proposals/proposalService.ts and
-- src/audit/auditService.ts. Dates are milliseconds.
use ptv_mcp.Base.{ℕ, Bool, true, false, List, Option, Text}
use ptv_mcp.Json.{Json, Fields}

pub data MembershipRole : Type 0 where
  viewer contributor approver publisher tenant_admin : MembershipRole

pub data PtvEnvironment : Type 0 where
  test production : PtvEnvironment

pub data ProposalStatus : Type 0 where
  pending approved rejected applied failed : ProposalStatus

pub data ProposalKind : Type 0 where
  service_update service_create channel_update channel_create connection_update : ProposalKind
  organisation_update organisation_create : ProposalKind

pub data ReviewDecision : Type 0 where
  pending approved changes_requested : ReviewDecision

unfoldable pub status_eq : ProposalStatus → ProposalStatus → Bool
status_eq ProposalStatus.pending ProposalStatus.pending = true
status_eq ProposalStatus.approved ProposalStatus.approved = true
status_eq rejected rejected = true
status_eq applied applied = true
status_eq failed failed = true
status_eq _ _ = false

unfoldable pub decision_eq : ReviewDecision → ReviewDecision → Bool
decision_eq ReviewDecision.pending ReviewDecision.pending = true
decision_eq ReviewDecision.approved ReviewDecision.approved = true
decision_eq changes_requested changes_requested = true
decision_eq _ _ = false

unfoldable pub environment_eq : PtvEnvironment → PtvEnvironment → Bool
environment_eq test test = true
environment_eq production production = true
environment_eq _ _ = false

pub record ServiceDiffEntry : Type 0 where
  pub field : Text
  pub before : Option Json
  pub after : Option Json

pub record ProposalRecord : Type 0 where
  pub id : Text
  pub tenant_id : Text
  pub kind : ProposalKind
  pub service_id : Text
  pub environment : PtvEnvironment
  pub proposed_by_user_id : Text
  pub status : ProposalStatus
  pub changes : Fields
  pub queued_diff : List ServiceDiffEntry
  pub correlation_id : Text
  pub resolved_by_user_id : Option Text
  pub resolved_at : Option ℕ
  pub review_item_id : Option Text
  pub created_at : ℕ
  pub updated_at : ℕ

pub record CommentRow : Type 0 where
  pub id : Text
  pub tenant_id : Text
  pub proposal_id : Text
  pub user_id : Text
  pub body : Text
  pub created_at : ℕ

pub record ReviewerRow : Type 0 where
  pub tenant_id : Text
  pub proposal_id : Text
  pub user_id : Text
  pub requested_by_user_id : Text
  pub decision : ReviewDecision
  pub comment : Option Text
  pub requested_at : ℕ
  pub decided_at : Option ℕ

-- `users`, as far as the services read it here.
pub record UserRow : Type 0 where
  pub id : Text
  pub name : Text
  pub email : Text

pub record Membership : Type 0 where
  pub tenant_id : Text
  pub user_id : Text
  pub role : MembershipRole

pub record TenantRow : Type 0 where
  pub id : Text
  pub name : Text
  pub slug : Text
  pub require_four_eyes : Bool
  pub updated_at : ℕ

pub record AuditEntry : Type 0 where
  pub tenant_id : Text
  pub user_id : Option Text
  pub correlation_id : Text
  pub action : Text
  pub resource_type : Text
  pub resource_id : Option Text
  pub before_state : Option Json
  pub after_state : Option Json
  pub result : Text
  pub created_at : ℕ
