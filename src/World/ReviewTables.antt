-- ===== src/World/ReviewTables.antt =====
-- Rows of review campaigns: src/db/schema/reviewCampaign.ts, src/db/schema/enums.ts and
-- src/reviews/reviewService.ts.
use ptv_mcp.Base.{ℕ, Bool, true, false, List, Option, Text}
use ptv_mcp.Json.{Json}
use ptv_mcp.World.Tables.{PtvEnvironment}

pub data CampaignStatus : Type 0 where
  open_ closed : CampaignStatus

pub data TargetKind : Type 0 where
  organisation service channel : TargetKind

pub data ItemStatus : Type 0 where
  open_ confirmed changes_proposed : ItemStatus

unfoldable pub campaign_status_eq : CampaignStatus → CampaignStatus → Bool
campaign_status_eq CampaignStatus.open_ CampaignStatus.open_ = true
campaign_status_eq closed closed = true
campaign_status_eq _ _ = false

unfoldable pub target_kind_eq : TargetKind → TargetKind → Bool
target_kind_eq organisation organisation = true
target_kind_eq service service = true
target_kind_eq channel channel = true
target_kind_eq _ _ = false

unfoldable pub item_status_eq : ItemStatus → ItemStatus → Bool
item_status_eq ItemStatus.open_ ItemStatus.open_ = true
item_status_eq confirmed confirmed = true
item_status_eq changes_proposed changes_proposed = true
item_status_eq _ _ = false

pub record CampaignRow : Type 0 where
  pub id : Text
  pub tenant_id : Text
  pub environment : PtvEnvironment
  pub name : Text
  pub organization_id : Text
  pub status : CampaignStatus
  pub due_date : Option Text
  pub created_by_user_id : Text
  pub correlation_id : Text
  pub created_at : ℕ
  pub closed_at : Option ℕ

-- The findings of the quality checks are JSON.
pub record ItemRow : Type 0 where
  pub id : Text
  pub tenant_id : Text
  pub campaign_id : Text
  pub target_kind : TargetKind
  pub target_id : Text
  pub target_name : Text
  pub channel_type : Option Text
  pub organization_id : Text
  pub assignee_user_id : Option Text
  pub status : ItemStatus
  pub findings : List Json
  pub note : Option Text
  pub reviewed_by_user_id : Option Text
  pub reviewed_at : Option ℕ
  pub created_at : ℕ
  pub updated_at : ℕ
