-- ===== src/Reviews/Campaigns.antt =====
-- Starting, listing, assigning and closing review campaigns (src/reviews/reviewCampaigns.ts).
use ptv_mcp.Base.{
  ℕ, ◌+◌, ◌≡◌, Bool, true, false, not, ◌&&◌, List, [], ◌∷◌, map, Option, none, some, Text, text,
  text_eq, trim, length, take, filter_by, ltb, leb, nat_eq, is_empty, if◌then◌else◌,
}
use ptv_mcp.Json.{str, number, arr, obj, Fields, fields, texts}
use ptv_mcp.World.{
  publisher, ProposalKind, CampaignStatus, campaign_status_eq, CampaignRow, AuditEntry, World,
  Platform, ok, err, Call, ◌>>=◌, ◌>>◌, pure, gets, throw_if, review_campaign_error,
}
use ptv_mcp.Roles.{require_tenant_role}
use ptv_mcp.Audit.{record_audit}
use ptv_mcp.Proposals.Kinds.{ToolContext, Frame}
use ptv_mcp.Proposals.Queue.{trimmed_note}
use ptv_mcp.Proposals.Reviewers.{user_name_of}
use ptv_mcp.Reviews.Store.{
  ItemView, NewReviewItem, CampaignProgress, LinkedProposal, create_campaign, find_open_campaign,
  is_item_of,
}
use ptv_mcp.Reviews.ItemStore.{progress_of, linked_proposals}

-- MAX_NOTE_LENGTH and MAX_CAMPAIGN_ITEMS
abbrev pub max_note_length : ℕ
max_note_length = 4000

abbrev pub max_campaign_items : ℕ
max_campaign_items = 5000

pub record CampaignSummary : Type 0 where
  pub campaign : CampaignRow
  pub created_by_name : Option Text
  pub progress : CampaignProgress

pub record ItemWithProposals : Type 0 where
  pub view : ItemView
  pub proposals : List LinkedProposal

pub record CampaignDetails : Type 0 where
  pub summary : CampaignSummary
  pub items : List ItemWithProposals

-- What a campaign is made of: the organisations in scope, and their content with its quality checks.
pub record CampaignContent : Type 0 where
  pub organisations : List Text
  pub items : List NewReviewItem

-- What the campaigns read through PTV's adapter, and which items a kind of proposal can answer
-- (`reviewItemMismatch` of src/mcp/proposalKinds.ts). Reading leaves the tables and PTV alone.
pub record ReviewSources (P : Type 0) : Type 0 where
  pub collect : ToolContext → Text → Bool → Call P CampaignContent
  pub mismatch : ProposalKind → ItemView → Text → Fields → Bool
  pub collect_frame :
      (ctx : ToolContext) (organization : Text) (sub : Bool) (w : World P)
      → Frame w (collect ctx organization sub w).1
  pub collect_campaigns :
      (ctx : ToolContext) (organization : Text) (sub : Bool) (w : World P)
      → (collect ctx organization sub w).1.campaigns ≡ w.campaigns
  pub collect_items :
      (ctx : ToolContext) (organization : Text) (sub : Bool) (w : World P)
      → (collect ctx organization sub w).1.items ≡ w.items

abbrev is_digit : ℕ → Bool
is_digit c = leb 48 c && leb c 57

-- `/^\d{4}-\d{2}-\d{2}$/`
unfoldable pub is_date : Text → Bool
is_date (a ∷ b ∷ c ∷ d ∷ dash ∷ e ∷ f ∷ dash' ∷ g ∷ h ∷ []) =
    is_digit a
    && is_digit b
    && is_digit c
    && is_digit d
    && nat_eq dash 45
    && is_digit e
    && is_digit f
    && nat_eq dash' 45
    && is_digit g
    && is_digit h
is_date _ = false

abbrev pub bad_due_date : Option Text → Bool
bad_due_date none = false
bad_due_date (some d) = not (is_empty d) && not (is_date d)

abbrev pub is_true_or_absent : Option Bool → Bool
is_true_or_absent none = true
is_true_or_absent (some b) = b

abbrev pub note_too_long : Option Text → Bool
note_too_long none = false
note_too_long (some t) = ltb max_note_length (length t)

-- `checkNote`
abbrev pub check_note : {P : Type 0} → Option Text → Call P (Option Text)
check_note note w = (
  if note_too_long (trimmed_note note) then err review_campaign_error else ok (trimmed_note note),
  w,
)

-- `requireOpen`
abbrev pub require_open : {P : Type 0} → CampaignRow → Call P (Unit {0})
require_open campaign =
    throw_if (not (campaign_status_eq campaign.status CampaignStatus.open_)) review_campaign_error

abbrev links_to : List LinkedProposal → ItemView → ItemWithProposals
links_to linked v = record {
  view = v;
  proposals = filter_by (λ l. text_eq l.review_item_id v.row.id) linked;
}

module _ {P : Type 0} ⦃platform : Platform⦄ where
  -- `audit`
  unfoldable pub audit_review :
      ToolContext → Text → Text → Text → Text → Text → Fields → Call P AuditEntry
  audit_review ctx action resource_type resource_id correlation result after_state =
      record_audit (record {
        tenant_id = ctx.tenant_id;
        user_id = some ctx.acting_user_id;
        action = action;
        resource_type = resource_type;
        resource_id = some resource_id;
        before_state = none;
        after_state = some (obj after_state);
        result = result;
        correlation_id = some correlation;
      })

  abbrev summary_of : Text → World P → CampaignRow → CampaignSummary
  summary_of tenant w c = record {
    campaign = c;
    created_by_name = user_name_of c.created_by_user_id w.users;
    progress = progress_of (filter_by (is_item_of tenant c.id) w.items);
  }

  -- `summaries`
  unfoldable pub summaries : Text → List CampaignRow → Call P (List CampaignSummary)
  summaries tenant campaigns = gets (λ w. map (summary_of tenant w) campaigns)

  unfoldable pub summary : Text → CampaignRow → Call P CampaignSummary
  summary tenant campaign = gets (λ w. summary_of tenant w campaign)

  -- `withProposals`
  unfoldable pub with_proposals : Text → List ItemView → Call P (List ItemWithProposals)
  with_proposals tenant items = do
    linked ← linked_proposals tenant (map (λ v. v.row.id) items)
    pure (map (links_to linked) items)

  unfoldable pub with_links : Text → ItemView → Call P ItemWithProposals
  with_links tenant item = do
    linked ← linked_proposals tenant (item.row.id ∷ [])
    pure (links_to linked item)

  -- `randomUUID()`
  unfoldable pub fresh_id : Call P Text
  fresh_id w = (ok (platform.random_uuid w.seed), record w { seed = w.seed + 1 })

  unfoldable pub start_review_campaign :
      ReviewSources P
      → ToolContext
      → Text
      → Text
      → Option Text
      → Option Bool
      → Call P CampaignSummary
  start_review_campaign sources ctx name organization due_date sub = do
    require_tenant_role ctx.tenant_id ctx.acting_user_id publisher
    throw_if (is_empty (trim name)) review_campaign_error
    throw_if (bad_due_date due_date) review_campaign_error
    existing ← find_open_campaign ctx.tenant_id ctx.environment organization
    throw_if (elim existing [ none ↦ false | some _ ↦ true ]) review_campaign_error
    content ← sources.collect ctx organization (is_true_or_absent sub)
    correlation ← fresh_id
    campaign ← create_campaign (record {
      tenant_id = ctx.tenant_id;
      environment = ctx.environment;
      name = trim name;
      organization_id = organization;
      due_date = due_date;
      created_by_user_id = ctx.acting_user_id;
      correlation_id = correlation;
      items = take max_campaign_items content.items;
    })
    audit_review ctx (text "StartReviewCampaign") (text "ReviewCampaign") campaign.id correlation
        (text "Started")
        (fields (
          (text "name", str (trim name))
          ∷ (text "organizationId", str organization)
          ∷ (text "organisations", arr (texts content.organisations))
          ∷ (text "items", number (length (take max_campaign_items content.items)))
          ∷ []))
    summary ctx.tenant_id campaign
