-- ===== src/Proposals/Resolve/Publish.antt =====
-- Confirming that an approved proposal was published by hand (src/mcp/proposalQueue.ts).
use ptv_mcp.Base.{
  Bool, true, false, not, ◌&&◌, ◌||◌, List, [], ◌∷◌, Option, none, some, Text, text, text_eq, trim,
  all, is_empty, if◌then◌else◌,
}
use ptv_mcp.Json.{Json, str, obj, fields}
use ptv_mcp.World.{
  approver, ProposalStatus, status_eq, ProposalRecord, Platform, Call, ◌>>=◌, ◌>>◌, pure, throw_if,
  manual_publish_check,
}
use ptv_mcp.Roles.{require_tenant_role}
use ptv_mcp.Proposals.Store.{get_by_id, mark_published}
use ptv_mcp.Proposals.Kinds.{ToolContext, CreatedItem, ProposalKinds}
use ptv_mcp.Proposals.Queue.{audit_proposal}
use ptv_mcp.Proposals.Resolve.View.{
  ProposalDetails, in_environment, publish_state, handler_of, proposal_diff_details,
  proposal_details,
}

-- `names[language]`
abbrev name_in : Text → List (Text × Text) → Option Text
name_in language [] = none
name_in language ((k, v) ∷ names) =
    let rest = name_in language names in if text_eq k language then some v else rest

abbrev has_name : Text → Option Text → Bool
has_name name none = is_empty name
has_name name (some found) = is_empty name || text_eq found name

-- The two kinds of problem that `checkCreatedItem` collects.
unfoldable pub item_matches : CreatedItem → CreatedItem → Bool
item_matches expected found =
    (is_empty expected.organization_id || text_eq found.organization_id expected.organization_id)
    && all (λ e. has_name e.1 (name_in e.0 found.names)) expected.names

unfoldable pub created_item_ok : CreatedItem → Option CreatedItem → Bool
created_item_ok expected none = false
created_item_ok expected (some found) = item_matches expected found

-- `ptvId?.trim()`
abbrev pub trimmed_id : Option Text → Text
trimmed_id none = []
trimmed_id (some id) = trim id

abbrev pub is_true : Option Bool → Bool
is_true (some true) = true
is_true _ = false

abbrev id_state : Option Text → Option Json
id_state none = none
id_state (some id) = some (obj (fields ((text "ptvId", str id) ∷ [])))

module _ {P : Type 0} ⦃platform : Platform⦄ (kinds : ProposalKinds P) where
  -- `checkCreatedItem`
  unfoldable pub check_created_item : ToolContext → ProposalRecord → Text → Call P (Unit {0})
  check_created_item ctx p ptv_id = do
    read ← (handler_of kinds p).read_created ctx ptv_id
    throw_if (not (created_item_ok ((handler_of kinds p).expected p.changes) read))
        manual_publish_check

  -- Whether PTV holds what was approved; returns the id of a created item.
  unfoldable pub check_created : ToolContext → ProposalRecord → Text → Call P (Option Text)
  check_created ctx p id = do
    throw_if (is_empty id) manual_publish_check
    check_created_item (in_environment ctx p) p id
    pure (some id)

  unfoldable pub check_update : ToolContext → ProposalRecord → Call P (Option Text)
  check_update ctx p = do
    live ← proposal_diff_details kinds (in_environment ctx p) p
    throw_if (not (is_true (publish_state p live (handler_of kinds p).creates)))
        manual_publish_check
    pure none

  unfoldable pub check_published : ToolContext → ProposalRecord → Option Text → Call P (Option Text)
  check_published ctx p ptv_id =
      if (handler_of kinds p).creates
      then check_created ctx p (trimmed_id ptv_id)
      else check_update ctx p

  unfoldable pub confirm_manual_publish : ToolContext → Text → Option Text → Call P ProposalDetails
  confirm_manual_publish ctx proposal_id ptv_id = do
    require_tenant_role ctx.tenant_id ctx.acting_user_id approver
    proposal ← get_by_id ctx.tenant_id proposal_id
    throw_if (not (status_eq proposal.status ProposalStatus.approved)) manual_publish_check
    created_id ← check_published ctx proposal ptv_id
    published ← mark_published ctx.tenant_id proposal_id created_id
    audit_proposal ctx proposal (text "ConfirmManualPublish") (text "Published")
        (id_state created_id)
    proposal_details kinds (in_environment ctx proposal) published
