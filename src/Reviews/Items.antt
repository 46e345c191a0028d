-- ===== src/Reviews/Items.antt =====
-- Deciding review items and linking proposals to them (src/reviews/reviewCampaigns.ts).
use ptv_mcp.Base.{
  Bool, true, false, not, ◌&&◌, ◌||◌, List, [], ◌∷◌, ◌++◌, map, Option, none, some, Text, text,
  text_eq, leb, filter_by, if◌then◌else◌,
}
use ptv_mcp.Json.{Json, bool, str, arr, Fields, fields, texts}
use ptv_mcp.World.{
  MembershipRole, contributor, publisher, environment_eq, ProposalKind, ProposalStatus, status_eq,
  ProposalRecord, TargetKind, organisation, service, channel, ItemStatus, confirmed,
  changes_proposed, item_status_eq, CampaignRow, AuditEntry, Platform, Call, ◌>>=◌, ◌>>◌, pure,
  throw_if, not_authorized, review_campaign_error,
}
use ptv_mcp.Roles.{role_rank, require_tenant_role}
use ptv_mcp.Proposals.Kinds.{ToolContext}
use ptv_mcp.Proposals.Store.{get_by_id, set_review_item}
use ptv_mcp.Proposals.Reviewers.{add_reviewers}
use ptv_mcp.Proposals.Queue.{audit_proposal, note_json}
use ptv_mcp.Proposals.Resolve.{in_environment}
use ptv_mcp.Reviews.Store.{ItemView, LinkedProposal, get_campaign, get_item, is_user}
use ptv_mcp.Reviews.ItemStore.{set_item_status}
use ptv_mcp.Reviews.Campaigns.{
  ItemWithProposals, ReviewSources, check_note, require_open, audit_review, with_links,
}

abbrev pub is_publisher : MembershipRole → Bool
is_publisher role = leb (role_rank publisher) (role_rank role)

abbrev pub no_link : List LinkedProposal → Bool
no_link [] = true
no_link (_ ∷ _) = false

abbrev pub pending_links : List LinkedProposal → List LinkedProposal
pending_links = filter_by (λ l. status_eq l.status ProposalStatus.pending)

-- The two checks of `completeReviewItem` on the proposals linked to the item; a decision is
-- `confirmed` or `changes_proposed`.
abbrev pub contradicts : ItemStatus → List LinkedProposal → Bool
contradicts decision links =
    item_status_eq decision changes_proposed && no_link links
    || item_status_eq decision confirmed && not (no_link (pending_links links))

abbrev item_result : ItemStatus → Text
item_result confirmed = text "Confirmed"
item_result _ = text "ChangesProposed"

abbrev kind_text : TargetKind → Text
kind_text organisation = text "organisation"
kind_text service = text "service"
kind_text channel = text "channel"

-- Whom a linked proposal is sent to: the item's reviewer, unless they act or proposed it.
abbrev pub sent_to : ToolContext → ItemView → ProposalRecord → Option Text
sent_to ctx item p = elim item.row.assignee_user_id [
  | none ↦ none
  | some reviewer ↦
      if text_eq reviewer ctx.acting_user_id || text_eq reviewer p.proposed_by_user_id
      then none
      else some reviewer
]

abbrev pub linked_elsewhere : Option Text → Text → Bool
linked_elsewhere none item = false
linked_elsewhere (some linked) item = not (text_eq linked []) && not (text_eq linked item)

module _ {P : Type 0} ⦃platform : Platform⦄ where
  -- `requireReviewerOf`
  unfoldable pub require_reviewer_of : ToolContext → ItemView → Call P Bool
  require_reviewer_of ctx item = do
    role ← require_tenant_role ctx.tenant_id ctx.acting_user_id contributor
    throw_if (not (is_user item.row.assignee_user_id ctx.acting_user_id) && not (is_publisher role))
        (not_authorized publisher)
    pure (is_publisher role)

  unfoldable pub require_linkable_review_item :
      ReviewSources P → ToolContext → Text → ProposalKind → Text → Fields → Call P ItemView
  require_linkable_review_item sources ctx item_id kind target changes = do
    item ← get_item ctx.tenant_id item_id
    publishes ← require_reviewer_of ctx item
    campaign ← get_campaign ctx.tenant_id item.row.campaign_id
    require_open campaign
    throw_if (not (environment_eq campaign.environment ctx.environment)) review_campaign_error
    throw_if (not (item_status_eq item.row.status ItemStatus.open_) && not publishes)
        review_campaign_error
    throw_if (sources.mismatch kind item target changes) review_campaign_error
    pure item

  -- A finished item is reopened; the note names the proposal.
  unfoldable pub reopen_finished :
      ToolContext → ItemView → CampaignRow → ProposalRecord → Call P (Unit {0})
  reopen_finished ctx item campaign p = do
    set_item_status ctx.tenant_id item.row.id ItemStatus.open_ none
        (some (text "Reopened: proposal " ++ p.id ++ text " was attached for review."))
    audit_review ctx (text "ReopenReviewItem") (text "ReviewItem") item.row.id
        campaign.correlation_id (text "Reopened")
        (fields ((text "campaignId", str campaign.id) ∷ (text "proposalId", str p.id) ∷ []))
    pure tt

  unfoldable pub send_to : ToolContext → ItemView → ProposalRecord → Option Text → Call P (Unit {0})
  send_to ctx item p none = pure tt
  send_to ctx item p (some reviewer) = do
    add_reviewers ctx.tenant_id p.id (reviewer ∷ []) ctx.acting_user_id
    audit_proposal ctx p (text "RequestReview") (text "Requested") (
        some (
          Json.obj (
            fields (
              (text "reviewerUserIds", arr (texts (reviewer ∷ [])))
              ∷ (text "reviewItemId", str item.row.id)
              ∷ []))))
    pure tt

  unfoldable pub link_proposal_to_review_item :
      ToolContext → ItemView → ProposalRecord → Call P AuditEntry
  link_proposal_to_review_item ctx item p = do
    campaign ← get_campaign ctx.tenant_id item.row.campaign_id
    if item_status_eq item.row.status ItemStatus.open_
        then pure tt
        else reopen_finished ctx item campaign p
    send_to ctx item p (sent_to ctx item p)
    audit_review ctx (text "LinkProposal") (text "ReviewItem") item.row.id campaign.correlation_id
        (text "Linked")
        (fields (
          (text "campaignId", str campaign.id)
          ∷ (text "proposalId", str p.id)
          ∷ (
            text "sentToReviewer",
            bool (elim (sent_to ctx item p) [ none ↦ false | some _ ↦ true ]),
          )
          ∷ []))

  -- Someone else's proposal takes a publisher.
  unfoldable pub require_own_or_publisher : ToolContext → ProposalRecord → Call P (Unit {0})
  require_own_or_publisher ctx p =
      if text_eq p.proposed_by_user_id ctx.acting_user_id
      then pure tt
      else require_tenant_role ctx.tenant_id ctx.acting_user_id publisher >>= λ _. pure tt

  unfoldable pub attach_proposal_to_review_item :
      ReviewSources P → ToolContext → Text → Text → Call P ItemWithProposals
  attach_proposal_to_review_item sources ctx item_id proposal_id = do
    p ← get_by_id ctx.tenant_id proposal_id
    throw_if (not (status_eq p.status ProposalStatus.pending)) review_campaign_error
    throw_if (linked_elsewhere p.review_item_id item_id) review_campaign_error
    require_own_or_publisher ctx p
    item ←
        require_linkable_review_item sources (in_environment ctx p) item_id p.kind p.service_id
          p.changes
    set_review_item ctx.tenant_id p.id item.row.id
    link_proposal_to_review_item ctx item p
    updated ← get_item ctx.tenant_id item.row.id
    with_links ctx.tenant_id updated

  unfoldable pub complete_review_item :
      ToolContext → Text → ItemStatus → Option Text → Call P ItemWithProposals
  complete_review_item ctx item_id decision note = do
    item ← get_item ctx.tenant_id item_id
    require_reviewer_of ctx item
    campaign ← get_campaign ctx.tenant_id item.row.campaign_id
    require_open campaign
    said ← check_note note
    linked ← with_links ctx.tenant_id item
    throw_if (contradicts decision linked.proposals) review_campaign_error
    updated ← set_item_status ctx.tenant_id item.row.id decision (some ctx.acting_user_id) said
    audit_review ctx (text "CompleteReviewItem") (text "ReviewItem") item.row.id
        campaign.correlation_id (item_result decision)
        (fields (
          (text "campaignId", str campaign.id)
          ∷ (text "targetKind", str (kind_text item.row.target_kind))
          ∷ (text "targetId", str item.row.target_id)
          ∷ (text "note", note_json said)
          ∷ (text "proposals", arr (texts (map (λ l. l.id) linked.proposals)))
          ∷ []))
    with_links ctx.tenant_id updated

  unfoldable pub reopen_review_item : ToolContext → Text → Option Text → Call P ItemWithProposals
  reopen_review_item ctx item_id note = do
    require_tenant_role ctx.tenant_id ctx.acting_user_id publisher
    item ← get_item ctx.tenant_id item_id
    campaign ← get_campaign ctx.tenant_id item.row.campaign_id
    require_open campaign
    said ← check_note note
    updated ← set_item_status ctx.tenant_id item.row.id ItemStatus.open_ none said
    audit_review ctx (text "ReopenReviewItem") (text "ReviewItem") item.row.id
        campaign.correlation_id (text "Reopened")
        (fields ((text "campaignId", str campaign.id) ∷ (text "note", note_json said) ∷ []))
    with_links ctx.tenant_id updated
