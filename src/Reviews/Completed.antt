-- ===== src/Reviews/Completed.antt =====
-- Completing and reopening review items (src/reviews/reviewCampaigns.ts).
use ptv_mcp.Base.{subst, ◌≡◌, sym, ◌∙◌, Option, none, some, Text}
use ptv_mcp.World.{publisher, ItemStatus, ItemRow, World, Platform, ok}
use ptv_mcp.World.Keeps.{Ensures, bind-Ensures, throw_if-Ensures, from_same}
use ptv_mcp.Proposals.Kinds.{ToolContext}
use ptv_mcp.Proposals.Approval.{HasRole, require_tenant_role-ok}
use ptv_mcp.Reviews.Campaigns.{ItemWithProposals}
use ptv_mcp.Reviews.Items.{complete_review_item, reopen_review_item}
use ptv_mcp.Reviews.Steps.{
  MayDecide, get_item-ok, get_campaign-ok, require_open-ok, check_note-ok, require_reviewer_of-ok,
}
use ptv_mcp.Reviews.Decided.{ItemDecided, Fits, fits, linked_to, with_links-ok, store-Ensures}
use ptv_mcp.Reviews.Fitting.{FitsTable, Fits-FitsTable}

pub record Completed {P : Type 0} (ctx : ToolContext) (id : Text) (decision : ItemStatus)
    (remark : Option Text) (w u : World P) : Type 0 where
  pub item : ItemRow
  pub decided : ItemDecided ctx id item decision (some ctx.acting_user_id) remark w u
  pub authorized : MayDecide ctx item w
  pub fitting : FitsTable decision ctx.tenant_id item.id w.proposals

pub record Reopened {P : Type 0} (ctx : ToolContext) (id : Text) (remark : Option Text)
    (w u : World P) : Type 0 where
  pub item : ItemRow
  pub decided : ItemDecided ctx id item ItemStatus.open_ none remark w u
  pub authorized : HasRole publisher ctx.tenant_id ctx.acting_user_id w

module _ {P : Type 0} ⦃platform : Platform⦄ where
  complete-Ensures :
      (ctx : ToolContext) (id : Text) (decision : ItemStatus) (remark : Option Text) (w : World P)
      → Ensures w
          (complete_review_item ctx id decision remark)
          (λ x u. Completed ctx id decision remark w u)
  unfolding complete_review_item
  complete-Ensures ctx id decision remark w = bind-Ensures _ _ λ v w1 read.
      let (found, same1) = get_item-ok ctx.tenant_id id w w1 v read in
      bind-Ensures _ _ λ b w2 entered.
        let (may, same2) = require_reviewer_of-ok ctx v w1 w2 b entered in
        bind-Ensures _ _ λ c w3 looked.
          let (part, same3) = get_campaign-ok ctx.tenant_id v.row.campaign_id w2 w3 c looked in
          bind-Ensures _ _ λ t w4 opened.
            let (still, same4) = require_open-ok c w3 w4 opened in
            bind-Ensures _ _ λ said w5 noted.
              let (trimmed, same5) = check_note-ok remark w4 w5 said noted in
              bind-Ensures _ _ λ x w6 linked.
                let (links, same6) = with_links-ok ctx.tenant_id v w5 w6 x linked in
                throw_if-Ensures _ _ _ λ agrees.
                  let to5 : w ≡ w5 = same1 ∙ same2 ∙ same3 ∙ same4 ∙ same5 in
                  let may_w : MayDecide ctx v.row w = rw same1 may in
                  let fits_w : Fits decision (linked_to ctx.tenant_id v.row w) =
                    subst (λ z. Fits decision (linked_to ctx.tenant_id v.row z)) (sym to5)
                      (subst (Fits decision) links (fits decision x.proposals agrees)) in
                  from_same (to5 ∙ same6) (record {
                    at = λ y u h. record {
                      item = v.row;
                      decided =
                          (store-Ensures ctx id decision (some ctx.acting_user_id) remark said v c _
                              _ _ _ w found (rw (same1 ∙ same2) part) still trimmed).at
                            y u h;
                      authorized = may_w;
                      fitting = Fits-FitsTable decision ctx.tenant_id v.row w fits_w;
                    };
                  })

  -- If completing a review item succeeds, its campaign is open, the acting user is its reviewer
  -- and a contributor or above, or a publisher or above, at least one proposal is linked if the
  -- decision is changes_proposed and no linked one is pending if it is confirmed, and in the
  -- items' table that item's row has the decision, the acting user, the trimmed note (none if that
  -- is empty) and the time of the call, all else of it and every other row being as before;
  -- proposals, campaigns and PTV stay as they were.
  pub complete_review_item-ok :
      (ctx : ToolContext) (id : Text) (decision : ItemStatus) (remark : Option Text) (w u : World P)
      (x : ItemWithProposals)
      → complete_review_item ctx id decision remark w ≡ (ok x, u)
      → Completed ctx id decision remark w u
  complete_review_item-ok ctx id decision remark w u x h =
      (complete-Ensures ctx id decision remark w).at x u h

  reopen-Ensures :
      (ctx : ToolContext) (id : Text) (remark : Option Text) (w : World P)
      → Ensures w (reopen_review_item ctx id remark) (λ x u. Reopened ctx id remark w u)
  unfolding reopen_review_item
  reopen-Ensures ctx id remark w = bind-Ensures _ _ λ role w1 entered.
      let (held, enough, same1) =
        require_tenant_role-ok ctx.tenant_id ctx.acting_user_id publisher role w w1 entered in
      bind-Ensures _ _ λ v w2 read.
        let (found, same2) = get_item-ok ctx.tenant_id id w1 w2 v read in
        bind-Ensures _ _ λ c w3 looked.
          let (part, same3) = get_campaign-ok ctx.tenant_id v.row.campaign_id w2 w3 c looked in
          bind-Ensures _ _ λ t w4 opened.
            let (still, same4) = require_open-ok c w3 w4 opened in
            bind-Ensures _ _ λ said w5 noted.
              let (trimmed, same5) = check_note-ok remark w4 w5 said noted in
              from_same (same1 ∙ same2 ∙ same3 ∙ same4 ∙ same5) (record {
                at = λ y u h. record {
                  item = v.row;
                  decided =
                      (store-Ensures ctx id ItemStatus.open_ none remark said v c _ _ _ _ w
                          (rw same1 found) (rw (same1 ∙ same2) part) still trimmed).at
                        y u h;
                  authorized = (role, held, enough);
                };
              })

  -- If reopening a review item succeeds, the acting user is a publisher or above, its campaign is
  -- open, and in the items' table that item's row is open again, with the trimmed note (none if
  -- that is empty), without a reviewing user or review time, and with the time of the call as its
  -- update time, all else of it and every other row being as before; proposals, campaigns and PTV
  -- stay as they were.
  pub reopen_review_item-ok :
      (ctx : ToolContext) (id : Text) (remark : Option Text) (w u : World P) (x : ItemWithProposals)
      → reopen_review_item ctx id remark w ≡ (ok x, u)
      → Reopened ctx id remark w u
  reopen_review_item-ok ctx id remark w u x h = (reopen-Ensures ctx id remark w).at x u h
