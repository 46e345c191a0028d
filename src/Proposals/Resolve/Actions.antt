-- ===== src/Proposals/Resolve/Actions.antt =====
-- Resolving a proposal (src/mcp/proposalQueue.ts).
use ptv_mcp.Base.{
  Bool, true, false, not, ◌&&◌, List, [], ◌∷◌, none, Text, text, text_eq, filter_by, if◌then◌else◌,
}
use ptv_mcp.World.{
  approver, ProposalStatus, rejected, applied, failed, ReviewDecision, decision_eq, ServiceError,
  ProposalRecord, ReviewerRow, Platform, Result, ok, err, Call, ◌>>=◌, ◌>>◌, pure, throw, throw_if,
  gets, four_eyes, reviews_pending, adapter_not_authorized,
}
use ptv_mcp.Roles.{require_tenant_role, requires_four_eyes}
use ptv_mcp.Proposals.Store.{get_by_id, mark_resolved}
use ptv_mcp.Proposals.Reviewers.{ProposalReviewer, list_reviewers}
use ptv_mcp.Proposals.Kinds.{ToolContext, AppliedOutcome, ProposalKinds}
use ptv_mcp.Proposals.Queue.{audit_proposal}
use ptv_mcp.Proposals.Resolve.View.{
  ProposalDetails, stored_of, in_environment, handler_of, proposal_details,
}

pub data ResolveProposalAction : Type 0 where
  approve_and_export approve_and_apply reject : ResolveProposalAction

-- `reviewer.decision !== 'approved'`
abbrev pub is_waiting : ProposalReviewer → Bool
is_waiting r = not (decision_eq r.row.decision ReviewDecision.approved)

-- `listReviewers(…).filter(…)`, as rows
abbrev pub rows_of : List ProposalReviewer → List ReviewerRow
rows_of [] = []
rows_of (r ∷ rs) = r.row ∷ rows_of rs

abbrev pub no_row : List ReviewerRow → Bool
no_row [] = true
no_row (_ ∷ _) = false

abbrev pub is_reject : ResolveProposalAction → Bool
is_reject reject = true
is_reject _ = false

abbrev pub is_adapter_refusal : ServiceError → Bool
is_adapter_refusal adapter_not_authorized = true
is_adapter_refusal _ = false

module _ {P : Type 0} ⦃platform : Platform⦄ (kinds : ProposalKinds P) where
  -- The guards of `resolveProposal` on an approval: four eyes, then the required reviewers.
  unfoldable pub approval_guards : ToolContext → ProposalRecord → Text → Call P (Unit {0})
  approval_guards ctx p proposal_id = do
    four ← gets (λ w. requires_four_eyes ctx.tenant_id w.tenants)
    throw_if (text_eq p.proposed_by_user_id ctx.acting_user_id && four) four_eyes
    reviewers ← list_reviewers ctx.tenant_id proposal_id
    let waiting = rows_of (filter_by is_waiting reviewers)
    throw_if (not (no_row waiting)) (reviews_pending waiting)

  unfoldable pub resolve_reject : ToolContext → ProposalRecord → Text → Call P ProposalDetails
  resolve_reject ctx p proposal_id = do
    closed ← mark_resolved ctx.tenant_id proposal_id rejected ctx.acting_user_id none
    audit_proposal ctx p (text "ResolveProposal") (text "Rejected") none
    proposal_details kinds (in_environment ctx p) closed

  unfoldable pub resolve_export : ToolContext → ProposalRecord → Text → Call P ProposalDetails
  resolve_export ctx p proposal_id = do
    after_state ← (handler_of kinds p).approve_for_export (in_environment ctx p) (stored_of p)
    approved ←
        mark_resolved ctx.tenant_id proposal_id ProposalStatus.approved ctx.acting_user_id none
    audit_proposal ctx p (text "ResolveProposal") (text "ApprovedForManualPublish") after_state
    proposal_details kinds (in_environment ctx p) approved

  unfoldable pub record_failure :
      ToolContext → ProposalRecord → Text → ServiceError → Call P AppliedOutcome
  record_failure ctx p proposal_id e = do
    mark_resolved ctx.tenant_id proposal_id failed ctx.acting_user_id none
    audit_proposal ctx p (text "ResolveProposal") (text "Failed") none
    throw e

  -- The `catch` around `handler.apply`: an adapter's refusal leaves the proposal pending.
  unfoldable pub apply_failed :
      ToolContext → ProposalRecord → Text → ServiceError → Call P AppliedOutcome
  apply_failed ctx p proposal_id e =
      if is_adapter_refusal e then throw e else record_failure ctx p proposal_id e

  unfoldable pub caught :
      ToolContext → ProposalRecord → Text → Result AppliedOutcome → Call P AppliedOutcome
  caught ctx p proposal_id (ok outcome) = pure outcome
  caught ctx p proposal_id (err e) = apply_failed ctx p proposal_id e

  unfoldable pub try_apply : ToolContext → ProposalRecord → Text → Call P AppliedOutcome
  try_apply ctx p proposal_id w =
      let (r, v) = (handler_of kinds p).apply (in_environment ctx p) (stored_of p) w in
      caught ctx p proposal_id r v

  unfoldable pub resolve_apply : ToolContext → ProposalRecord → Text → Call P ProposalDetails
  resolve_apply ctx p proposal_id = do
    outcome ← try_apply ctx p proposal_id
    done ← mark_resolved ctx.tenant_id proposal_id applied ctx.acting_user_id outcome.created_id
    audit_proposal ctx p (text "ResolveProposal") (text "Applied") outcome.after_state
    proposal_details kinds (in_environment ctx p) done

  -- What follows the role check and the read, by the action.
  unfoldable pub act_on :
      ToolContext → ProposalRecord → Text → ResolveProposalAction → Call P ProposalDetails
  act_on ctx p proposal_id reject = resolve_reject ctx p proposal_id
  act_on ctx p proposal_id approve_and_export = do
    approval_guards ctx p proposal_id
    resolve_export ctx p proposal_id
  act_on ctx p proposal_id approve_and_apply = do
    approval_guards ctx p proposal_id
    resolve_apply ctx p proposal_id

  unfoldable pub resolve_proposal :
      ToolContext → Text → ResolveProposalAction → Call P ProposalDetails
  resolve_proposal ctx proposal_id action = do
    require_tenant_role ctx.tenant_id ctx.acting_user_id approver
    proposal ← get_by_id ctx.tenant_id proposal_id
    act_on ctx proposal proposal_id action
