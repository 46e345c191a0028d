-- ===== src/Proposals/Queue.antt =====
-- The proposal queue's tools (src/mcp/proposalQueue.ts): listing, commenting, asking for reviews and
-- signing off.
use ptv_mcp.Base.{
  ℕ, Bool, true, false, not, ◌&&◌, List, [], ◌∷◌, Option, none, some, Text, text, text_eq, trim,
  ltb, length, is_empty, if◌then◌else◌,
}
use ptv_mcp.Json.{Json, str, arr, obj, null, fields, texts}
use ptv_mcp.World.{
  contributor, approver, ProposalStatus, ReviewDecision, status_eq, ProposalRecord, AuditEntry,
  Platform, Call, ◌>>=◌, ◌>>◌, pure, throw_if, gets, not_authorized, already_resolved,
  invalid_comment, invalid_review_request,
}
use ptv_mcp.Roles.{role_rank, require_tenant_role}
use ptv_mcp.Audit.{AuditEntryInput, record_audit}
use ptv_mcp.Proposals.Store.{get_by_id, list_proposals_of}
use ptv_mcp.Proposals.Reviewers.{
  ProposalComment, ProposalReviewer, add_reviewers, record_decision, add_comment,
  list_awaiting_review,
}
use ptv_mcp.Proposals.Kinds.{ToolContext}
use ptv_mcp.Proposals.Candidates.{ReviewCandidate, members_of, review_candidates_of, reviewer_ids}

-- MAX_COMMENT_LENGTH
abbrev pub max_comment_length : ℕ
max_comment_length = 4000

abbrev pub is_pending : ProposalRecord → Bool
is_pending p = status_eq p.status ProposalStatus.pending

-- `comment?.trim() || null`
abbrev pub trimmed_note : Option Text → Option Text
trimmed_note none = none
trimmed_note (some t) = if is_empty (trim t) then none else some (trim t)

abbrev decision_text : ReviewDecision → Text
decision_text ReviewDecision.approved = text "approved"
decision_text ReviewDecision.pending = text "pending"
decision_text ReviewDecision.changes_requested = text "changes_requested"

abbrev decision_result : ReviewDecision → Text
decision_result ReviewDecision.approved = text "Approved"
decision_result _ = text "ChangesRequested"

abbrev pub note_json : Option Text → Json
note_json none = null
note_json (some t) = str t

module _ {P : Type 0} where
  -- `requireCommentLength`
  abbrev pub require_comment_length : Text → Call P (Unit {0})
  require_comment_length t = throw_if (ltb max_comment_length (length t)) invalid_comment

  abbrev pub check_note_length : Option Text → Call P (Unit {0})
  check_note_length none = pure tt
  check_note_length (some t) = require_comment_length t

  -- `requirePending`
  abbrev pub require_pending : ProposalRecord → Call P (Unit {0})
  require_pending p = throw_if (not (is_pending p)) (already_resolved p.status)

-- The entry that `auditProposal` records.
abbrev pub proposal_entry :
    ToolContext → ProposalRecord → Text → Text → Option Json → AuditEntryInput
proposal_entry ctx proposal action result after_state = record {
  tenant_id = ctx.tenant_id;
  user_id = some ctx.acting_user_id;
  action = action;
  resource_type = text "Proposal";
  resource_id = some proposal.id;
  before_state = none;
  after_state = after_state;
  result = result;
  correlation_id = some proposal.correlation_id;
}

module _ {P : Type 0} ⦃platform : Platform⦄ where
  -- `auditProposal`
  unfoldable pub audit_proposal :
      ToolContext → ProposalRecord → Text → Text → Option Json → Call P AuditEntry
  audit_proposal ctx proposal action result after_state =
      record_audit (proposal_entry ctx proposal action result after_state)

  unfoldable pub list_proposals :
      ToolContext → Option ProposalStatus → Bool → Call P (List ProposalRecord)
  list_proposals ctx status waiting_for_me = do
    require_tenant_role ctx.tenant_id ctx.acting_user_id contributor
    if waiting_for_me
        then list_awaiting_review ctx.tenant_id ctx.acting_user_id
        else list_proposals_of ctx.tenant_id status none

  unfoldable pub comment_on_proposal : ToolContext → Text → Text → Call P ProposalComment
  comment_on_proposal ctx proposal_id body = do
    require_tenant_role ctx.tenant_id ctx.acting_user_id contributor
    throw_if (is_empty (trim body)) invalid_comment
    require_comment_length (trim body)
    proposal ← get_by_id ctx.tenant_id proposal_id
    comment ← add_comment ctx.tenant_id proposal.id ctx.acting_user_id (trim body)
    audit_proposal ctx proposal (text "CommentProposal") (text "Commented") (
        some (
          obj (
            fields ((text "commentId", str comment.row.id) ∷ (text "body", str (trim body)) ∷ []))))
    pure comment

  unfoldable pub list_review_candidates : ToolContext → Call P (List ReviewCandidate)
  list_review_candidates ctx = do
    require_tenant_role ctx.tenant_id ctx.acting_user_id contributor
    gets (λ w. review_candidates_of (members_of ctx.tenant_id w.users w.memberships))

  unfoldable pub request_review : ToolContext → Text → List Text → Call P (List ProposalReviewer)
  request_review ctx proposal_id reviewers = do
    role ← require_tenant_role ctx.tenant_id ctx.acting_user_id contributor
    proposal ← get_by_id ctx.tenant_id proposal_id
    require_pending proposal
    throw_if
        (not (text_eq proposal.proposed_by_user_id ctx.acting_user_id)
          && ltb (role_rank role) (role_rank approver))
        (not_authorized approver)
    throw_if (elim reviewers [ [] ↦ true | _ ↦ false ]) invalid_review_request
    candidates ← gets (λ w. review_candidates_of (members_of ctx.tenant_id w.users w.memberships))
    user_ids ← (λ w. (reviewer_ids candidates proposal.proposed_by_user_id reviewers [], w))
    result ← add_reviewers ctx.tenant_id proposal.id user_ids ctx.acting_user_id
    audit_proposal ctx proposal (text "RequestReview") (text "Requested")
        (some (obj (fields ((text "reviewerUserIds", arr (texts user_ids)) ∷ []))))
    pure result

  -- `decision` is `approved` or `changes_requested`.
  unfoldable pub sign_off_proposal :
      ToolContext → Text → ReviewDecision → Option Text → Call P (List ProposalReviewer)
  sign_off_proposal ctx proposal_id decision comment = do
    require_tenant_role ctx.tenant_id ctx.acting_user_id contributor
    check_note_length (trimmed_note comment)
    proposal ← get_by_id ctx.tenant_id proposal_id
    require_pending proposal
    reviewers ←
        record_decision ctx.tenant_id proposal.id ctx.acting_user_id decision (trimmed_note comment)
    audit_proposal ctx proposal (text "SignOffProposal") (decision_result decision) (
        some (
          obj (
            fields (
              (text "decision", str (decision_text decision))
              ∷ (text "comment", note_json (trimmed_note comment))
              ∷ []))))
    pure reviewers
