-- ===== src/Proposals/Resolve/View.antt =====
-- A proposal with its details, compared with PTV (src/mcp/proposalQueue.ts).
use ptv_mcp.Base.{
  Bool, true, false, List, [], ◌∷◌, Option, none, some, Text, text, text_eq, if◌then◌else◌,
}
use ptv_mcp.Json.{Json, str, get_field}
use ptv_mcp.World.{
  contributor, ProposalStatus, status_eq, ServiceDiffEntry, ServiceError, ProposalRecord, Platform,
  Result, ok, err, Call, ◌>>=◌, ◌>>◌, pure,
}
use ptv_mcp.Roles.{require_tenant_role}
use ptv_mcp.Proposals.Store.{get_by_id}
use ptv_mcp.Proposals.Reviewers.{ProposalComment, ProposalReviewer, list_reviewers, list_comments}
use ptv_mcp.Proposals.Kinds.{ToolContext, StoredProposal, LiveDiff, KindHandler, ProposalKinds}
use ptv_mcp.Proposals.Queue.{audit_proposal}

-- `ProposalDetails`, without the quality report and the manual-publishing sheet, which are computed
-- from the members here.
pub record ProposalDetails : Type 0 where
  pub proposal : ProposalRecord
  pub live : LiveDiff
  pub comments : List ProposalComment
  pub reviewers : List ProposalReviewer
  pub published_in_ptv : Option Bool

abbrev pub stored_of : ProposalRecord → StoredProposal
stored_of p = record {
  target_id = p.service_id;
  changes = p.changes;
  queued_diff = p.queued_diff;
  correlation_id = p.correlation_id;
}

-- `{ ...ctx, environment: proposal.environment }`
abbrev pub in_environment : ToolContext → ProposalRecord → ToolContext
in_environment ctx p = record ctx { environment = p.environment }

-- `proposal.changes.publishingStatus === 'Archived'`
abbrev archived_json : Option Json → Bool
archived_json (some (str t)) = text_eq t (text "Archived")
archived_json _ = false

abbrev pub is_archiving : ProposalRecord → Bool
is_archiving p = archived_json (get_field (text "publishingStatus") p.changes)

abbrev no_diff : List ServiceDiffEntry → Bool
no_diff [] = true
no_diff (_ ∷ _) = false

-- `publishedInPtv`; `none` is `null`.
unfoldable pub published_in_ptv : ProposalRecord → LiveDiff → Bool → Option Bool
published_in_ptv p live true = none
published_in_ptv p live false = elim live.current [
  | some _ ↦ some (no_diff live.diff)
  | none ↦ if is_archiving p then some true else none
]

-- The part of `manualPublishState` that confirming reads.
unfoldable pub publish_state : ProposalRecord → LiveDiff → Bool → Option Bool
publish_state p live creates =
    if status_eq p.status ProposalStatus.approved then published_in_ptv p live creates else none

-- The `catch` of `proposalDiffDetails`.
unfoldable pub recovered : (ServiceError → Bool) → Result LiveDiff → Result LiveDiff
recovered is_not_found (ok live) = ok live
recovered is_not_found (err e) =
    if is_not_found e then ok (record { diff = []; current = none; proposed = none }) else err e

module _ {P : Type 0} ⦃platform : Platform⦄ (kinds : ProposalKinds P) where
  abbrev pub handler_of : ProposalRecord → KindHandler P
  handler_of p = kinds.handler p.kind

  -- `proposalDiffDetails`: a target that is gone leaves the proposal reviewable.
  unfoldable pub proposal_diff_details : ToolContext → ProposalRecord → Call P LiveDiff
  proposal_diff_details ctx p w =
      let (r, v) = (handler_of p).live_diff (in_environment ctx p) (stored_of p) w in
      (recovered (handler_of p).is_not_found r, v)

  unfoldable pub proposal_details : ToolContext → ProposalRecord → Call P ProposalDetails
  proposal_details ctx p = do
    live ← proposal_diff_details ctx p
    comments ← list_comments ctx.tenant_id p.id
    reviewers ← list_reviewers ctx.tenant_id p.id
    pure (record {
      proposal = p;
      live = live;
      comments = comments;
      reviewers = reviewers;
      published_in_ptv = publish_state p live (handler_of p).creates;
    })

  unfoldable pub get_proposal : ToolContext → Text → Call P ProposalDetails
  get_proposal ctx proposal_id = do
    require_tenant_role ctx.tenant_id ctx.acting_user_id contributor
    proposal ← get_by_id ctx.tenant_id proposal_id
    audit_proposal ctx proposal (text "ReviewProposal") (text "Viewed") none
    proposal_details ctx proposal
