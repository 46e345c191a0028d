-- ===== src/Reviews/Assigned.antt =====
-- Assigning review items (src/reviews/reviewCampaigns.ts, assignReviewItems).
use ptv_mcp.Base.{
  ℕ, ap, subst, ◌≡◌, refl, sym, ◌∙◌, Bool, true, false, ◌&&◌, List, [], ◌∷◌, Option, none, some,
  Text, arith, find, filter_by, length, update_where,
}
use ptv_mcp.Json.{Fields}
use ptv_mcp.World.{
  publisher, TargetKind, CampaignStatus, CampaignRow, ItemRow, World, Platform, ok, ◌>>=◌, ◌>>◌,
  pure,
}
use ptv_mcp.World.Keeps.{
  Ensures, bind-Ensures, gets-Ensures, modify-Ensures, pure-Ensures, from_same, or_throw-ok,
}
use ptv_mcp.Proposals.Kinds.{ToolContext}
use ptv_mcp.Proposals.Candidates.{ReviewCandidate}
use ptv_mcp.Proposals.Approval.{HasRole, require_tenant_role-ok}
use ptv_mcp.Proposals.Eligible.{IsCandidate, candidates-IsCandidate, found-IsCandidate}
use ptv_mcp.Reviews.Store.{is_campaign, is_none}
use ptv_mcp.Reviews.ItemStore.{Selection, is_selected, assigned_row, assign_items}
use ptv_mcp.Reviews.Selected.{Selects, Reassigned, update-Reassigned, is_selected-Selects}
use ptv_mcp.Reviews.Campaigns.{audit_review}
use ptv_mcp.Reviews.Manage.{named_items, selection_of, assign_review_items}
use ptv_mcp.Reviews.Steps.{Logged, get_campaign-ok, require_open-ok, audit_review-Logged}

-- The table of items at two moments: an item that had a reviewer is as it was.
abbrev pub AssignedStay : List ItemRow → List ItemRow → Type 0
AssignedStay [] [] = Unit
AssignedStay (i ∷ is) (j ∷ js) = (is_none i.assignee_user_id ≡ false → j ≡ i) × AssignedStay is js
AssignedStay _ _ = ⊥

update-AssignedStay :
    (tenant campaign user : Text) (s : Selection) (now : ℕ) (items : List ItemRow)
    → s.only_unassigned ≡ true
    → AssignedStay items
        (update_where (is_selected tenant campaign s) (assigned_row user now) items)
update-AssignedStay tenant campaign user s now [] only = tt
update-AssignedStay tenant campaign user s now (i ∷ items) only = (
  (λ taken. rw (only, taken, last_false _ _ _ _) refl),
  update-AssignedStay tenant campaign user s now items only,
)
  where
    last_false : (a b c d : Bool) → (a && b && c && d && false) ≡ false
    last_false a b c d = ground arith

pub record ItemsAssigned {P : Type 0} (ctx : ToolContext) (campaign_id : Text)
    (item_ids : Option (List Text)) (target_kind : Option TargetKind) (organization : Option Text)
    (reassign : Bool) (w : World P) (assigned : ℕ) (reviewer : ReviewCandidate) (u : World P)
    : Type 0 where
  pub authorized : HasRole publisher ctx.tenant_id ctx.acting_user_id w
  pub campaign : CampaignRow
  pub found : find (is_campaign ctx.tenant_id campaign_id) w.campaigns ≡ some campaign
  pub still_open : campaign.status ≡ CampaignStatus.open_
  pub candidate : IsCandidate ctx.tenant_id w.memberships reviewer.user_id
  pub items :
      Reassigned
        (Selects ctx.tenant_id campaign.id item_ids target_kind organization reassign)
        reviewer.user_id
        w.now
        assigned
        w.items
        u.items
  pub assigned_stay : named_items item_ids ≡ none → reassign ≡ false → AssignedStay w.items u.items
  pub proposals : u.proposals ≡ w.proposals
  pub campaigns : u.campaigns ≡ w.campaigns

module _ {P : Type 0} ⦃platform : Platform⦄ where
  assign_items-Ensures :
      (tenant campaign user : Text) (s : Selection) (w : World P)
      → Ensures w (assign_items tenant campaign user s) (λ n u.
        (length (filter_by (is_selected tenant campaign s) w.items) ≡ n)
        × (record w {
          items = update_where (is_selected tenant campaign s) (assigned_row user w.now) w.items;
        }
            ≡ u))
  unfolding assign_items
  assign_items-Ensures tenant campaign user s w =
      gets-Ensures _ _ (modify-Ensures _ _ (pure-Ensures (refl, refl)))

  store-Ensures :
      (ctx : ToolContext) (campaign_id : Text) (item_ids : Option (List Text))
      (target_kind : Option TargetKind) (organization : Option Text) (reassign : Bool)
      (c : CampaignRow) (reviewer : ReviewCandidate) (action kind result : Text) (f : ℕ → Fields)
      (w : World P)
      → HasRole publisher ctx.tenant_id ctx.acting_user_id w
      → find (is_campaign ctx.tenant_id campaign_id) w.campaigns ≡ some c
      → c.status ≡ CampaignStatus.open_
      → IsCandidate ctx.tenant_id w.memberships reviewer.user_id
      → Ensures {A = ℕ × ReviewCandidate} w
          (do
            assigned ←
                assign_items ctx.tenant_id c.id reviewer.user_id
                  (selection_of item_ids target_kind organization reassign)
            audit_review ctx action kind c.id c.correlation_id result (f assigned)
            pure (assigned, reviewer))
          (λ r u.
            ItemsAssigned ctx campaign_id item_ids target_kind organization reassign w r.0 r.1 u)
  store-Ensures ctx campaign_id item_ids target_kind organization reassign c reviewer action kind
        result f w role found still may =
      bind-Ensures _ _ λ n v stored.
        let s = selection_of item_ids target_kind organization reassign in
        let (counted, after) =
          (assign_items-Ensures ctx.tenant_id c.id reviewer.user_id s w).at n v stored in
        bind-Ensures _ _ λ a u audited. pure-Ensures (
          let logged : Logged v u =
            subst (Logged v) (ap (λ y. y.1) audited)
              (audit_review-Logged ctx action kind c.id c.correlation_id result (f n) v) in
          let items : u.items
              ≡ update_where (is_selected ctx.tenant_id c.id s)
                  (assigned_row reviewer.user_id w.now) w.items =
            logged.items ∙ ap (λ (y : World P). y.items) (sym after) in
          let Chosen : ItemRow → Type 0 =
            Selects ctx.tenant_id c.id item_ids target_kind organization reassign in
          record {
            authorized = role;
            campaign = c;
            found = found;
            still_open = still;
            candidate = may;
            items =
                subst (λ k. Reassigned Chosen reviewer.user_id w.now k w.items u.items) counted
                  (subst (Reassigned Chosen reviewer.user_id w.now _ w.items) (sym items) (
                    update-Reassigned Chosen (is_selected ctx.tenant_id c.id s) reviewer.user_id
                      w.now
                      (is_selected-Selects ctx.tenant_id c.id item_ids target_kind organization
                        reassign)
                      w.items));
            assigned_stay = λ unnamed keep. rw items (
                update-AssignedStay ctx.tenant_id c.id reviewer.user_id s w.now w.items
                  (rw (unnamed, keep) refl));
            proposals = logged.proposals ∙ ap (λ (y : World P). y.proposals) (sym after);
            campaigns = logged.campaigns ∙ ap (λ (y : World P). y.campaigns) (sym after);
          })

  assign-Ensures :
      (ctx : ToolContext) (campaign_id ref : Text) (item_ids : Option (List Text))
      (target_kind : Option TargetKind) (organization : Option Text) (reassign : Bool) (w : World P)
      → Ensures w
          (assign_review_items ctx campaign_id ref item_ids target_kind organization reassign)
          (λ r u.
            ItemsAssigned ctx campaign_id item_ids target_kind organization reassign w r.0 r.1 u)
  unfolding assign_review_items
  assign-Ensures ctx campaign_id ref item_ids target_kind organization reassign w =
      bind-Ensures _ _ λ role w1 entered.
        let (held, enough, same1) =
          require_tenant_role-ok ctx.tenant_id ctx.acting_user_id publisher role w w1 entered in
        bind-Ensures _ _ λ c w2 read.
          let (found, same2) = get_campaign-ok ctx.tenant_id campaign_id w1 w2 c read in
          bind-Ensures _ _ λ t w3 opened.
            let (still, same3) = require_open-ok c w2 w3 opened in
            let to3 : w ≡ w3 = same1 ∙ same2 ∙ same3 in
            gets-Ensures _ _ (
              bind-Ensures _ _ λ reviewer w4 chosen.
                let (known, same4) = or_throw-ok _ _ w3 w4 reviewer chosen in
                let may : IsCandidate ctx.tenant_id w.memberships reviewer.user_id =
                  subst (λ (z : World P). IsCandidate ctx.tenant_id z.memberships reviewer.user_id)
                    (sym to3)
                    (found-IsCandidate ctx.tenant_id w3.memberships _ ref reviewer
                      (candidates-IsCandidate ctx.tenant_id w3.users w3.memberships) known) in
                from_same (to3 ∙ same4) (
                  store-Ensures ctx campaign_id item_ids target_kind organization reassign c
                    reviewer _ _ _ _ w (role, held, enough) (rw same1 found) still may))

  -- If assigning review items succeeds, the acting user is a publisher or above, the campaign is
  -- open, the reviewer is a member with the role contributor or above, and the answer is the
  -- number of items selected: those of the tenant and campaign that are named, if any are, of the
  -- kind and organisation asked for, if so, and without a reviewer, unless items are named or
  -- reassigning is asked for; these have the new reviewer and the time of the call, all else of
  -- them and every other item being as before. Proposals and campaigns stay as they were, and
  -- where neither items are named nor reassigning is asked for, every item that had a reviewer is
  -- as it was.
  pub assign_review_items-ok :
      (ctx : ToolContext) (campaign_id ref : Text) (item_ids : Option (List Text))
      (target_kind : Option TargetKind) (organization : Option Text) (reassign : Bool)
      (w u : World P) (n : ℕ) (reviewer : ReviewCandidate)
      → assign_review_items ctx campaign_id ref item_ids target_kind organization reassign w
        ≡ (ok (n, reviewer), u)
      → ItemsAssigned ctx campaign_id item_ids target_kind organization reassign w n reviewer u
  assign_review_items-ok ctx campaign_id ref item_ids target_kind organization reassign w u n
        reviewer h =
      (assign-Ensures ctx campaign_id ref item_ids target_kind organization reassign w).at
        (n, reviewer) u h
