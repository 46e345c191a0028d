-- ===== src/Reviews/Tests.antt =====
-- The properties of review campaigns, at a small tenant.
use ptv_mcp.Base.{
  ℕ, ◌≡◌, refl, ◌≢◌, true, false, [], ◌∷◌, Option, none, some, Text, text, text_eq, is_space, trim,
  trim_start, find,
}
use ptv_mcp.World.{
  publisher, production, environment_eq, status_eq, CampaignStatus, ItemStatus, confirmed,
  campaign_status_eq, item_status_eq, service, CampaignRow, ItemRow, World, Result, ok, ◌>>=◌,
}
use ptv_mcp.Roles.{role_of, check_role, require_tenant_role}
use ptv_mcp.Audit.{record_audit}
use ptv_mcp.Proposals.Candidates.{
  ReviewCandidate, members_of, review_candidates_of, find_review_candidate,
}
use ptv_mcp.Proposals.Samples.{
  sample_platform, sample_world, sample_context, ptv-Frame, succeeds, answer,
}
use ptv_mcp.Reviews.Store.{
  is_item, get_item, get_campaign, close_campaign, create_campaign, insert_items,
  find_open_campaign,
}
use ptv_mcp.Reviews.ItemStore.{links_of, linked_proposals, set_item_status, assign_items}
use ptv_mcp.Reviews.Campaigns.{
  CampaignSummary, ItemWithProposals, ReviewSources, audit_review, summary, with_links, fresh_id,
  start_review_campaign,
}
use ptv_mcp.Reviews.Manage.{assign_review_items, close_review_campaign}
use ptv_mcp.Reviews.Items.{
  require_own_or_publisher, require_linkable_review_item, reopen_finished, send_to,
  link_proposal_to_review_item, attach_proposal_to_review_item, require_reviewer_of,
  complete_review_item, reopen_review_item,
}
use ptv_mcp.Reviews.Completed.{Completed, Reopened, complete_review_item-ok, reopen_review_item-ok}
use ptv_mcp.Reviews.Assigned.{ItemsAssigned, assign_review_items-ok}
use ptv_mcp.Reviews.Started.{Started, start_review_campaign-ok}
use ptv_mcp.Proposals.Store.{get_by_id, set_review_item}
use ptv_mcp.Proposals.Reviewers.{insert_reviewers, add_reviewers, join_reviewers, list_reviewers}
use ptv_mcp.Proposals.Queue.{audit_proposal}
use ptv_mcp.Reviews.Attached.{Attached, attach_proposal_to_review_item-ok}
use ptv_mcp.Reviews.Closed.{closed_campaign_final}

abbrev sample_campaign : CampaignRow
sample_campaign = record {
  id = text "k";
  tenant_id = text "t";
  environment = production;
  name = text "Autumn";
  organization_id = text "org";
  status = CampaignStatus.open_;
  due_date = none;
  created_by_user_id = text "pia";
  correlation_id = text "cc";
  created_at = 1;
  closed_at = none;
}

abbrev sample_item : Text → Option Text → ItemRow
sample_item id assignee = record {
  id = id;
  tenant_id = text "t";
  campaign_id = text "k";
  target_kind = service;
  target_id = id;
  target_name = text "Service";
  channel_type = none;
  organization_id = text "org";
  assignee_user_id = assignee;
  status = ItemStatus.open_;
  findings = [];
  note = none;
  reviewed_by_user_id = none;
  reviewed_at = none;
  created_at = 1;
  updated_at = 1;
}

-- Pia publishes; Carl reviews `i1`, and nobody `i2`.
abbrev campaign_world : World ℕ
campaign_world = record (sample_world []) {
  memberships =
      record { tenant_id = text "t"; user_id = text "pia"; role = publisher }
      ∷ (sample_world []).memberships;
  campaigns = sample_campaign ∷ [];
  items = sample_item (text "i1") (some (text "carl")) ∷ sample_item (text "i2") none ∷ [];
}

abbrev sample_sources : ReviewSources ℕ
sample_sources = record {
  collect = λ ctx organization sub w. (ok (record { organisations = []; items = [] }), w);
  mismatch = λ kind item target changes. false;
  collect_frame = λ ctx organization sub w. ptv-Frame w w.ptv;
  collect_campaigns = λ ctx organization sub w. refl;
  collect_items = λ ctx organization sub w. refl;
}

abbrev completion : Result ItemWithProposals × World ℕ
completion =
    complete_review_item (sample_context (text "carl")) (text "i1") confirmed none campaign_world

completion_succeeds : succeeds completion.0 ≡ true
unfolding text_eq role_of check_role require_tenant_role record_audit ◌>>=◌ is_space trim trim_start
    status_eq campaign_status_eq item_status_eq get_item get_campaign links_of linked_proposals
    set_item_status audit_review with_links require_reviewer_of complete_review_item
completion_succeeds = refl

complete_review_item-ok_example :
    Completed (sample_context (text "carl")) (text "i1") confirmed none campaign_world completion.1
complete_review_item-ok_example =
    complete_review_item-ok (sample_context (text "carl")) (text "i1") confirmed none campaign_world
      _ _ (answer completion completion_succeeds).1

abbrev reopening : Result ItemWithProposals × World ℕ
reopening = reopen_review_item (sample_context (text "pia")) (text "i1") none campaign_world

reopening_succeeds : succeeds reopening.0 ≡ true
unfolding text_eq role_of check_role require_tenant_role record_audit ◌>>=◌ is_space trim trim_start
    campaign_status_eq get_item get_campaign links_of linked_proposals set_item_status audit_review
    with_links reopen_review_item
reopening_succeeds = refl

reopen_review_item-ok_example :
    Reopened (sample_context (text "pia")) (text "i1") none campaign_world reopening.1
reopen_review_item-ok_example =
    reopen_review_item-ok (sample_context (text "pia")) (text "i1") none campaign_world _ _
      (answer reopening reopening_succeeds).1

abbrev assigning : Result (ℕ × ReviewCandidate) × World ℕ
assigning =
    assign_review_items (sample_context (text "pia")) (text "k") (text "anna") none none none false
      campaign_world

assigning_succeeds : succeeds assigning.0 ≡ true
unfolding text_eq role_of check_role require_tenant_role record_audit ◌>>=◌ is_space trim trim_start
    campaign_status_eq members_of review_candidates_of find_review_candidate get_campaign
    assign_items audit_review assign_review_items
assigning_succeeds = refl

assign_review_items-ok_example :
    ItemsAssigned
      (sample_context (text "pia"))
      (text "k")
      none
      none
      none
      false
      campaign_world
      (answer assigning assigning_succeeds).0.0
      (answer assigning assigning_succeeds).0.1
      assigning.1
assign_review_items-ok_example =
    assign_review_items-ok (sample_context (text "pia")) (text "k") (text "anna") none none none
      false campaign_world _ _ _ (answer assigning assigning_succeeds).1

abbrev starting : Result CampaignSummary × World ℕ
starting =
    start_review_campaign sample_sources (sample_context (text "pia")) (text " Spring ")
      (text "other") none none campaign_world

starting_succeeds : succeeds starting.0 ≡ true
unfolding text_eq role_of check_role require_tenant_role record_audit ◌>>=◌ is_space trim trim_start
    environment_eq campaign_status_eq find_open_campaign insert_items create_campaign fresh_id
    audit_review summary start_review_campaign
starting_succeeds = refl

start_review_campaign-ok_example :
    Started
      (sample_context (text "pia"))
      (text " Spring ")
      (text "other")
      campaign_world
      (answer starting starting_succeeds).0
      starting.1
start_review_campaign-ok_example =
    start_review_campaign-ok sample_sources (sample_context (text "pia")) (text " Spring ")
      (text "other") none none campaign_world _ _ (answer starting starting_succeeds).1

abbrev closing : Result CampaignSummary × World ℕ
closing = close_review_campaign (sample_context (text "pia")) (text "k") campaign_world

closing_succeeds : succeeds closing.0 ≡ true
unfolding text_eq role_of check_role require_tenant_role record_audit ◌>>=◌ campaign_status_eq
    get_campaign close_campaign summary audit_review close_review_campaign
closing_succeeds = refl

closed_campaign_final_example :
    complete_review_item (sample_context (text "carl")) (text "i1") confirmed none closing.1
    ≢ (ok (answer completion completion_succeeds).0, completion.1)
closed_campaign_final_example =
    closed_campaign_final (sample_context (text "pia")) (sample_context (text "carl")) (text "k")
      (text "i1") campaign_world _ closing.1 _ _ (sample_item (text "i1") (some (text "carl")))
      confirmed none _ (answer closing closing_succeeds).1 refl refl found refl
  where
    found :
        find (is_item (text "t") (text "i1")) closing.1.items
        ≡ some (sample_item (text "i1") (some (text "carl")))
    found =
        unfold text_eq role_of check_role require_tenant_role record_audit ◌>>=◌ campaign_status_eq
          get_campaign close_campaign summary audit_review close_review_campaign in
        refl

-- Pia attaches Carl's proposal to Anna's item.
abbrev annas_item : World ℕ
annas_item = record campaign_world { items = sample_item (text "i1") (some (text "anna")) ∷ [] }

abbrev attaching : Result ItemWithProposals × World ℕ
attaching =
    attach_proposal_to_review_item sample_sources (sample_context (text "pia")) (text "i1")
      (text "p1") annas_item

attaching_succeeds : succeeds attaching.0 ≡ true
unfolding text_eq role_of check_role require_tenant_role record_audit ◌>>=◌ status_eq environment_eq
    campaign_status_eq item_status_eq get_by_id get_item get_campaign links_of linked_proposals
    set_review_item insert_reviewers add_reviewers join_reviewers list_reviewers audit_proposal
    audit_review with_links require_own_or_publisher require_reviewer_of
    require_linkable_review_item reopen_finished send_to link_proposal_to_review_item
    attach_proposal_to_review_item
attaching_succeeds = refl

attach_proposal_to_review_item-ok_example :
    Attached (sample_context (text "pia")) (text "i1") (text "p1") annas_item attaching.1
attach_proposal_to_review_item-ok_example =
    attach_proposal_to_review_item-ok sample_sources (sample_context (text "pia")) (text "i1")
      (text "p1") annas_item _ _ tt (answer attaching attaching_succeeds).1
