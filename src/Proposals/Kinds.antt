-- ===== src/Proposals/Kinds.antt =====
-- The interface of a proposal kind's handler (`ProposalKindHandler` of src/mcp/proposalKinds.ts), as
-- far as the queue dispatches through it, and the context of a tool call (src/mcp/toolContext.ts).
use ptv_mcp.Base.{Bool, List, Option, Text, ◌≡◌, Extends}
use ptv_mcp.Json.{Json, Fields}
use ptv_mcp.World.{PtvEnvironment, ProposalKind, ServiceDiffEntry, ServiceError, World, Call}

pub record ToolContext : Type 0 where
  pub tenant_id : Text
  pub environment : PtvEnvironment
  pub read_api_version : Option Text
  pub write_api_version : Option Text
  pub acting_user_id : Text

pub record StoredProposal : Type 0 where
  pub target_id : Text
  pub changes : Fields
  pub queued_diff : List ServiceDiffEntry
  pub correlation_id : Text

-- `LiveDiff`: the entities of PTV are JSON values.
pub record LiveDiff : Type 0 where
  pub diff : List ServiceDiffEntry
  pub current : Option Json
  pub proposed : Option Json

pub record AppliedOutcome : Type 0 where
  pub created_id : Option Text
  pub after_state : Option Json

-- `LocalizedText` as the list of its entries.
pub record CreatedItem : Type 0 where
  pub organization_id : Text
  pub names : List (Text × Text)

pub record KindHandler (P : Type 0) : Type 0 where
  pub creates : Bool
  pub live_diff : ToolContext → StoredProposal → Call P LiveDiff
  pub approve_for_export : ToolContext → StoredProposal → Call P (Option Json)
  pub apply : ToolContext → StoredProposal → Call P AppliedOutcome
  pub is_not_found : ServiceError → Bool
  -- `created.expected`, and `created.read` through a read adapter with `.catch(() => null)`.
  pub expected : Fields → CreatedItem
  pub read_created : ToolContext → Text → Call P (Option CreatedItem)

-- What a call through a handler leaves alone: it may only write audit entries and PTV's content.
pub record Frame {P : Type 0} (w w' : World P) : Type 0 where
  pub now : w'.now ≡ w.now
  pub proposals : w'.proposals ≡ w.proposals
  pub comments : w'.comments ≡ w.comments
  pub reviewers : w'.reviewers ≡ w.reviewers
  pub users : w'.users ≡ w.users
  pub memberships : w'.memberships ≡ w.memberships
  pub tenants : w'.tenants ≡ w.tenants
  pub audit : Extends w.audit w'.audit

-- `PROPOSAL_KINDS`, with what the queue relies on: handlers leave the queue's tables alone, and
-- only `apply` writes to PTV.
pub record ProposalKinds (P : Type 0) : Type 0 where
  pub handler : ProposalKind → KindHandler P
  pub live_diff_frame :
      (k : ProposalKind) (ctx : ToolContext) (s : StoredProposal) (w : World P)
      → Frame w ((handler k).live_diff ctx s w).1
  pub live_diff_reads :
      (k : ProposalKind) (ctx : ToolContext) (s : StoredProposal) (w : World P)
      → ((handler k).live_diff ctx s w).1.ptv ≡ w.ptv
  pub export_frame :
      (k : ProposalKind) (ctx : ToolContext) (s : StoredProposal) (w : World P)
      → Frame w ((handler k).approve_for_export ctx s w).1
  pub export_reads :
      (k : ProposalKind) (ctx : ToolContext) (s : StoredProposal) (w : World P)
      → ((handler k).approve_for_export ctx s w).1.ptv ≡ w.ptv
  pub apply_frame :
      (k : ProposalKind) (ctx : ToolContext) (s : StoredProposal) (w : World P)
      → Frame w ((handler k).apply ctx s w).1
  pub read_created_frame :
      (k : ProposalKind) (ctx : ToolContext) (id : Text) (w : World P)
      → Frame w ((handler k).read_created ctx id w).1
  pub read_created_reads :
      (k : ProposalKind) (ctx : ToolContext) (id : Text) (w : World P)
      → ((handler k).read_created ctx id w).1.ptv ≡ w.ptv
