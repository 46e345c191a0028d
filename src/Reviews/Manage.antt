-- ===== src/Reviews/Manage.antt =====
-- Listing, assigning and closing review campaigns (src/reviews/reviewCampaigns.ts).
use ptv_mcp.Base.{
  ℕ, Bool, true, false, not, ◌&&◌, List, [], ◌∷◌, ◌++◌, Option, none, some, Text, text, is_empty,
  if◌then◌else◌,
}
use ptv_mcp.Json.{Json, str, number, arr, obj, Fields, fields, texts}
use ptv_mcp.World.{
  contributor, publisher, TargetKind, organisation, service, channel, ItemStatus, Platform, Call,
  ◌>>=◌, ◌>>◌, pure, gets, or_throw, review_campaign_error,
}
use ptv_mcp.Roles.{require_tenant_role}
use ptv_mcp.Proposals.Kinds.{ToolContext}
use ptv_mcp.Proposals.Candidates.{
  ReviewCandidate, members_of, review_candidates_of, find_review_candidate,
}
use ptv_mcp.Reviews.Store.{
  CampaignProgress, list_campaigns, get_campaign, close_campaign, list_items,
}
use ptv_mcp.Reviews.ItemStore.{Selection, assign_items, list_open_items_for}
use ptv_mcp.Reviews.Campaigns.{
  CampaignSummary, ItemWithProposals, CampaignDetails, require_open, audit_review, summaries,
  summary, with_proposals,
}

-- `input.itemIds?.length ? input.itemIds : undefined`
abbrev pub named_items : Option (List Text) → Option (List Text)
named_items none = none
named_items (some []) = none
named_items (some (id ∷ ids)) = some (id ∷ ids)

abbrev pub absent : Option (List Text) → Bool
absent none = true
absent (some _) = false

-- An empty text is no filter.
abbrev pub given_text : Option Text → Option Text
given_text none = none
given_text (some t) = if is_empty t then none else some t

-- The `selection` that `assignReviewItems` passes on; `reassign` may be absent.
abbrev pub selection_of : Option (List Text) → Option TargetKind → Option Text → Bool → Selection
selection_of item_ids target_kind organization reassign = record {
  item_ids = named_items item_ids;
  target_kind = target_kind;
  organization_id = given_text organization;
  only_unassigned = absent (named_items item_ids) && not reassign;
}

abbrev kind_text : TargetKind → Text
kind_text organisation = text "organisation"
kind_text service = text "service"
kind_text channel = text "channel"

abbrev selection_json : Selection → List (Text × Json)
selection_json s =
    elim s.item_ids [ none ↦ [] | some ids ↦ (text "itemIds", arr (texts ids)) ∷ [] ]
    ++ elim s.target_kind [ none ↦ [] | some k ↦ (text "targetKind", str (kind_text k)) ∷ [] ]
    ++ elim s.organization_id [ none ↦ [] | some o ↦ (text "organizationId", str o) ∷ [] ]

abbrev progress_json : CampaignProgress → Fields
progress_json p = fields (
    (text "total", number p.total)
    ∷ (text "open", number p.open_)
    ∷ (text "confirmed", number p.confirmed)
    ∷ (text "changesProposed", number p.changes_proposed)
    ∷ (text "unassigned", number p.unassigned)
    ∷ [])

module _ {P : Type 0} ⦃platform : Platform⦄ where
  unfoldable pub list_review_campaigns : ToolContext → Call P (List CampaignSummary)
  list_review_campaigns ctx = do
    require_tenant_role ctx.tenant_id ctx.acting_user_id contributor
    campaigns ← list_campaigns ctx.tenant_id
    summaries ctx.tenant_id campaigns

  unfoldable pub get_review_campaign :
      ToolContext → Text → Bool → Option ItemStatus → Call P CampaignDetails
  get_review_campaign ctx campaign_id assigned_to_me status = do
    require_tenant_role ctx.tenant_id ctx.acting_user_id contributor
    campaign ← get_campaign ctx.tenant_id campaign_id
    items ←
        list_items ctx.tenant_id campaign_id
          (if assigned_to_me then some ctx.acting_user_id else none) status
    sum ← summary ctx.tenant_id campaign
    linked ← with_proposals ctx.tenant_id items
    pure (record { summary = sum; items = linked })

  unfoldable pub list_my_review_items : ToolContext → Call P (List ItemWithProposals)
  list_my_review_items ctx = do
    require_tenant_role ctx.tenant_id ctx.acting_user_id contributor
    items ← list_open_items_for ctx.tenant_id ctx.acting_user_id
    with_proposals ctx.tenant_id items

  unfoldable pub assign_review_items :
      ToolContext
      → Text
      → Text
      → Option (List Text)
      → Option TargetKind
      → Option Text
      → Bool
      → Call P (ℕ × ReviewCandidate)
  assign_review_items ctx campaign_id ref item_ids target_kind organization reassign = do
    require_tenant_role ctx.tenant_id ctx.acting_user_id publisher
    campaign ← get_campaign ctx.tenant_id campaign_id
    require_open campaign
    candidates ← gets (λ w. review_candidates_of (members_of ctx.tenant_id w.users w.memberships))
    reviewer ← or_throw (find_review_candidate candidates ref) review_campaign_error
    assigned ←
        assign_items ctx.tenant_id campaign.id reviewer.user_id
          (selection_of item_ids target_kind organization reassign)
    audit_review ctx (text "AssignReviewItems") (text "ReviewCampaign") campaign.id
        campaign.correlation_id (text "Assigned")
        (fields (
          (text "reviewerUserId", str reviewer.user_id)
          ∷ (text "assigned", number assigned)
          ∷ selection_json (selection_of item_ids target_kind organization reassign)))
    pure (assigned, reviewer)

  unfoldable pub close_review_campaign : ToolContext → Text → Call P CampaignSummary
  close_review_campaign ctx campaign_id = do
    require_tenant_role ctx.tenant_id ctx.acting_user_id publisher
    campaign ← get_campaign ctx.tenant_id campaign_id
    require_open campaign
    closed ← close_campaign ctx.tenant_id campaign_id
    sum ← summary ctx.tenant_id closed
    audit_review ctx (text "CloseReviewCampaign") (text "ReviewCampaign") campaign_id
        campaign.correlation_id (text "Closed")
        (fields ((text "progress", obj (progress_json sum.progress)) ∷ []))
    pure sum
