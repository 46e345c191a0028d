-- ===== src/Reviews/ItemStore.antt =====
-- The operations of `ReviewService` on the items of campaigns (src/reviews/reviewService.ts).
use ptv_mcp.Base.{
  ℕ, Bool, true, not, ◌&&◌, ◌||◌, List, [], ◌∷◌, map, Option, none, some, Text, text_eq, length,
  filter_by, any, sort_by, update_where, leb, if◌then◌else◌,
}
use ptv_mcp.World.{
  ProposalRecord, CampaignStatus, TargetKind, ItemStatus, confirmed, changes_proposed,
  campaign_status_eq, target_kind_eq, item_status_eq, CampaignRow, ItemRow, Platform, Call, ◌>>=◌,
  ◌>>◌, pure, gets, modify,
}
use ptv_mcp.Reviews.Store.{
  ItemView, CampaignProgress, LinkedProposal, is_item, is_item_of, is_user, is_none, view_of,
  item_before, get_item,
}

-- The `selection` of `assignItems`; a filter that is absent or an empty text is `none`.
pub record Selection : Type 0 where
  pub item_ids : Option (List Text)
  pub target_kind : Option TargetKind
  pub organization_id : Option Text
  pub only_unassigned : Bool

abbrev pub is_selected : Text → Text → Selection → ItemRow → Bool
is_selected tenant campaign s i =
    is_item_of tenant campaign i
    && elim s.item_ids [ none ↦ true | some ids ↦ any (text_eq i.id) ids ]
    && elim s.target_kind [ none ↦ true | some k ↦ target_kind_eq i.target_kind k ]
    && elim s.organization_id [ none ↦ true | some o ↦ text_eq i.organization_id o ]
    && (not s.only_unassigned || is_none i.assignee_user_id)

-- The `set` of `assignItems` and that of `setItemStatus`.
abbrev pub assigned_row : Text → ℕ → ItemRow → ItemRow
assigned_row user now i = record i { assignee_user_id = some user; updated_at = now }

abbrev pub reviewed_when : ItemStatus → ℕ → Option ℕ
reviewed_when ItemStatus.open_ now = none
reviewed_when _ now = some now

abbrev pub decided_item : ItemStatus → Option Text → Option Text → ℕ → ItemRow → ItemRow
decided_item status user note now i = record i {
  status = status;
  note = note;
  reviewed_by_user_id = user;
  reviewed_at = reviewed_when status now;
  updated_at = now;
}

abbrev pub progress_of : List ItemRow → CampaignProgress
progress_of items = record {
  total = length items;
  open_ = length (filter_by (λ i. item_status_eq i.status ItemStatus.open_) items);
  confirmed = length (filter_by (λ i. item_status_eq i.status confirmed) items);
  changes_proposed = length (filter_by (λ i. item_status_eq i.status changes_proposed) items);
  unassigned = length (filter_by (λ i. is_none i.assignee_user_id) items);
}

-- `proposals` joined on `review_item_id`, without the rows that have none.
unfoldable pub links_of : Text → List Text → List ProposalRecord → List LinkedProposal
links_of tenant ids [] = []
links_of tenant ids (p ∷ ps) =
    let rest = links_of tenant ids ps in
    elim p.review_item_id [
      | none ↦ rest
      | some item ↦
          if text_eq p.tenant_id tenant && any (text_eq item) ids
          then record {
            id = p.id;
            review_item_id = item;
            kind = p.kind;
            status = p.status;
            created_at = p.created_at;
          }
            ∷ rest
          else rest
    ]

-- When the item's campaign was created.
abbrev started_at : List CampaignRow → ItemRow → ℕ
started_at [] i = 0
started_at (c ∷ cs) i =
    let rest = started_at cs i in if text_eq c.id i.campaign_id then c.created_at else rest

module _ {P : Type 0} ⦃platform : Platform⦄ where
  -- The counts of one campaign; `progress` returns a map of these.
  unfoldable pub progress : Text → Text → Call P CampaignProgress
  progress tenant campaign = gets λ w. progress_of (filter_by (is_item_of tenant campaign) w.items)

  unfoldable pub list_open_items_for : Text → Text → Call P (List ItemView)
  list_open_items_for tenant user = gets λ w. map (view_of w.users) (
      sort_by (λ a b. leb (started_at w.campaigns a) (started_at w.campaigns b))
        (sort_by item_before (
          filter_by
            (λ i.
              text_eq i.tenant_id tenant
              && is_user i.assignee_user_id user
              && item_status_eq i.status ItemStatus.open_
              && any
                  (λ c.
                    text_eq c.id i.campaign_id && campaign_status_eq c.status CampaignStatus.open_)
                  w.campaigns)
            w.items)))

  unfoldable pub assign_items : Text → Text → Text → Selection → Call P ℕ
  assign_items tenant campaign user selection = do
    chosen ← gets (λ w. length (filter_by (is_selected tenant campaign selection) w.items))
    modify (λ w. record w {
      items =
          update_where (is_selected tenant campaign selection) (assigned_row user w.now) w.items;
    })
    pure chosen

  unfoldable pub set_item_status :
      Text → Text → ItemStatus → Option Text → Option Text → Call P ItemView
  set_item_status tenant id status user note = do
    modify (λ w. record w {
      items = update_where (is_item tenant id) (decided_item status user note w.now) w.items;
    })
    get_item tenant id

  -- Oldest first.
  unfoldable pub linked_proposals : Text → List Text → Call P (List LinkedProposal)
  linked_proposals tenant ids =
      gets λ w. sort_by (λ a b. leb a.created_at b.created_at) (links_of tenant ids w.proposals)
