-- ===== src/Reviews/Store.antt =====
-- `ReviewService` (src/reviews/reviewService.ts): campaigns and their items in the database.
use ptv_mcp.Base.{
  ℕ, ◌+◌, Bool, true, false, ◌&&◌, List, [], ◌∷◌, ◌++◌, map, Option, none, some, Text, text_eq,
  length, filter_by, find, any, sort_by, update_where, ltb, leb, if◌then◌else◌,
}
use ptv_mcp.Json.{Json}
use ptv_mcp.World.{
  PtvEnvironment, environment_eq, ProposalKind, ProposalStatus, CampaignStatus, closed, TargetKind,
  organisation, service, channel, ItemStatus, campaign_status_eq, target_kind_eq, item_status_eq,
  CampaignRow, ItemRow, UserRow, Platform, ok, Call, ◌>>=◌, ◌>>◌, gets, or_throw, modify,
  review_campaign_not_found, review_item_not_found,
}
use ptv_mcp.Proposals.Reviewers.{user_name_of}

-- `ReviewItemView`: an item with display names.
pub record ItemView : Type 0 where
  pub row : ItemRow
  pub assignee_name : Option Text
  pub reviewed_by_name : Option Text

pub record NewReviewItem : Type 0 where
  pub target_kind : TargetKind
  pub target_id : Text
  pub target_name : Text
  pub channel_type : Option Text
  pub organization_id : Text
  pub findings : List Json

pub record NewCampaign : Type 0 where
  pub tenant_id : Text
  pub environment : PtvEnvironment
  pub name : Text
  pub organization_id : Text
  pub due_date : Option Text
  pub created_by_user_id : Text
  pub correlation_id : Text
  pub items : List NewReviewItem

pub record CampaignProgress : Type 0 where
  pub total : ℕ
  pub open_ : ℕ
  pub confirmed : ℕ
  pub changes_proposed : ℕ
  pub unassigned : ℕ

pub record LinkedProposal : Type 0 where
  pub id : Text
  pub review_item_id : Text
  pub kind : ProposalKind
  pub status : ProposalStatus
  pub created_at : ℕ

abbrev pub is_campaign : Text → Text → CampaignRow → Bool
is_campaign tenant id c = text_eq c.tenant_id tenant && text_eq c.id id

abbrev pub is_item : Text → Text → ItemRow → Bool
is_item tenant id i = text_eq i.tenant_id tenant && text_eq i.id id

abbrev pub is_item_of : Text → Text → ItemRow → Bool
is_item_of tenant campaign i = text_eq i.tenant_id tenant && text_eq i.campaign_id campaign

-- `column = value`, of a nullable column.
abbrev pub is_user : Option Text → Text → Bool
is_user none user = false
is_user (some u) user = text_eq u user

abbrev pub is_none : Option Text → Bool
is_none none = true
is_none (some _) = false

abbrev name_of : List UserRow → Option Text → Option Text
name_of users none = none
name_of users (some id) = user_name_of id users

abbrev pub view_of : List UserRow → ItemRow → ItemView
view_of users i = record {
  row = i;
  assignee_name = name_of users i.assignee_user_id;
  reviewed_by_name = name_of users i.reviewed_by_user_id;
}

abbrev new_campaign_row : NewCampaign → Text → ℕ → CampaignRow
new_campaign_row input id now = record {
  id = id;
  tenant_id = input.tenant_id;
  environment = input.environment;
  name = input.name;
  organization_id = input.organization_id;
  status = CampaignStatus.open_;
  due_date = input.due_date;
  created_by_user_id = input.created_by_user_id;
  correlation_id = input.correlation_id;
  created_at = now;
  closed_at = none;
}

abbrev pub new_item_row : Text → Text → Text → ℕ → NewReviewItem → ItemRow
new_item_row tenant campaign id now item = record {
  id = id;
  tenant_id = tenant;
  campaign_id = campaign;
  target_kind = item.target_kind;
  target_id = item.target_id;
  target_name = item.target_name;
  channel_type = item.channel_type;
  organization_id = item.organization_id;
  assignee_user_id = none;
  status = ItemStatus.open_;
  findings = item.findings;
  note = none;
  reviewed_by_user_id = none;
  reviewed_at = none;
  created_at = now;
  updated_at = now;
}

-- An open campaign over that organisation.
abbrev pub is_open_for : Text → PtvEnvironment → Text → CampaignRow → Bool
is_open_for tenant environment organization c =
    text_eq c.tenant_id tenant
    && environment_eq c.environment environment
    && text_eq c.organization_id organization
    && campaign_status_eq c.status CampaignStatus.open_

-- The `set` of `closeCampaign`.
abbrev pub closed_row : ℕ → CampaignRow → CampaignRow
closed_row now c = record c { status = closed; closed_at = some now }

-- The unique constraint on (campaign_id, target_kind, target_id).
abbrev pub has_target : Text → TargetKind → Text → ItemRow → Bool
has_target campaign kind target i =
    text_eq i.campaign_id campaign
    && target_kind_eq i.target_kind kind
    && text_eq i.target_id target

-- `KIND_ORDER`, then the name.
abbrev pub kind_order : TargetKind → ℕ
kind_order organisation = 0
kind_order service = 1
kind_order channel = 2

module _ ⦃platform : Platform⦄ where
  abbrev pub item_before : ItemRow → ItemRow → Bool
  item_before a b =
      if ltb (kind_order a.target_kind) (kind_order b.target_kind)
      then true
      else leb (kind_order a.target_kind) (kind_order b.target_kind)
        && platform.sql_before a.target_name b.target_name

  -- `insert … onConflictDoNothing`, item by item, each with a fresh id.
  unfoldable pub insert_items :
      Text → Text → ℕ → ℕ → List NewReviewItem → List ItemRow → List ItemRow
  insert_items tenant campaign now seed [] rows = rows
  insert_items tenant campaign now seed (item ∷ items) rows =
      insert_items tenant campaign now (seed + 1) items (
        if any (has_target campaign item.target_kind item.target_id) rows
        then rows
        else rows ++ new_item_row tenant campaign (platform.random_uuid seed) now item ∷ [])

module _ {P : Type 0} ⦃platform : Platform⦄ where
  unfoldable pub create_campaign : NewCampaign → Call P CampaignRow
  create_campaign input w =
      let row = new_campaign_row input (platform.random_uuid w.seed) w.now in
      (
        ok row,
        record w {
          campaigns = w.campaigns ++ row ∷ [];
          items = insert_items input.tenant_id row.id w.now (w.seed + 1) input.items w.items;
          seed = w.seed + 1 + length input.items;
        },
      )

  -- Newest first.
  unfoldable pub list_campaigns : Text → Call P (List CampaignRow)
  list_campaigns tenant = gets λ w.
      sort_by (λ a b. leb b.created_at a.created_at)
        (filter_by (λ c. text_eq c.tenant_id tenant) w.campaigns)

  unfoldable pub get_campaign : Text → Text → Call P CampaignRow
  get_campaign tenant id w =
      or_throw (find (is_campaign tenant id) w.campaigns) review_campaign_not_found w

  unfoldable pub find_open_campaign : Text → PtvEnvironment → Text → Call P (Option CampaignRow)
  find_open_campaign tenant environment organization =
      gets λ w. find (is_open_for tenant environment organization) w.campaigns

  unfoldable pub close_campaign : Text → Text → Call P CampaignRow
  close_campaign tenant id = do
    now ← gets (λ w. w.now)
    modify (λ w. record w {
      campaigns = update_where (is_campaign tenant id) (closed_row now) w.campaigns;
    })
    get_campaign tenant id

  unfoldable pub list_items : Text → Text → Option Text → Option ItemStatus → Call P (List ItemView)
  list_items tenant campaign assignee status = gets λ w. map (view_of w.users) (
      sort_by item_before (
        filter_by
          (λ i.
            is_item_of tenant campaign i
            && elim assignee [ none ↦ true | some u ↦ is_user i.assignee_user_id u ]
            && elim status [ none ↦ true | some s ↦ item_status_eq i.status s ])
          w.items))

  unfoldable pub get_item : Text → Text → Call P ItemView
  get_item tenant id w =
      (do
        row ← or_throw (find (is_item tenant id) w.items) review_item_not_found
        λ v. (ok (view_of v.users row), v))
        w
