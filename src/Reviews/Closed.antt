-- ===== src/Reviews/Closed.antt =====
-- Closing a review campaign (src/reviews/reviewCampaigns.ts, closeReviewCampaign).
use ptv_mcp.Base.{
  ap, subst, ◌≡◌, ◌≢◌, refl, sym, ◌∙◌, Bool, List, [], ◌∷◌, Option, some, some-injective, Text,
  find, update_where, Bool-cases, inl, inr,
}
use ptv_mcp.Json.{Fields}
use ptv_mcp.World.{
  publisher, ItemStatus, CampaignStatus, closed, CampaignRow, ItemRow, World, Platform, ok, ◌>>=◌,
  ◌>>◌, pure,
}
use ptv_mcp.World.Keeps.{
  Ensures, bind-Ensures, gets-Ensures, modify-Ensures, pure-Ensures, from_same,
}
use ptv_mcp.Proposals.Kinds.{ToolContext}
use ptv_mcp.Proposals.Approval.{HasRole, require_tenant_role-ok}
use ptv_mcp.Reviews.Store.{is_campaign, is_item, closed_row, close_campaign}
use ptv_mcp.Reviews.Campaigns.{CampaignSummary, ItemWithProposals, audit_review, summary}
use ptv_mcp.Reviews.Manage.{close_review_campaign}
use ptv_mcp.Reviews.Items.{complete_review_item}
use ptv_mcp.Reviews.Steps.{Logged, get_campaign-ok, require_open-ok, audit_review-Logged}
use ptv_mcp.Reviews.Completed.{complete_review_item-ok}

-- A row that an update selects is found as updated.
pub find-update_where :
    {A : Type 0} (p : A → Bool) (f : A → A) (xs : List A) (x : A)
    → ((a : A) → p (f a) ≡ p a)
    → find p xs ≡ some x
    → find p (update_where p f xs) ≡ some (f x)
find-update_where p f [] x keep h = cc
find-update_where p f (y ∷ xs) x keep h = elim (Bool-cases (p y)) [
  | inl hit ↦
      let e : some y ≡ some x = rw hit at h in
      rw (hit, keep y, hit) (ap (λ a. some (f a)) (some-injective y x e))
  | inr miss ↦ rw (miss, miss) (find-update_where p f xs x keep (rw miss at h))
]

-- What closing a campaign has checked and stored.
pub record Closed {P : Type 0} (ctx : ToolContext) (id : Text) (w u : World P) : Type 0 where
  pub authorized : HasRole publisher ctx.tenant_id ctx.acting_user_id w
  pub campaign : CampaignRow
  pub found : find (is_campaign ctx.tenant_id id) w.campaigns ≡ some campaign
  pub was_open : campaign.status ≡ CampaignStatus.open_
  pub stored : find (is_campaign ctx.tenant_id id) u.campaigns ≡ some (closed_row w.now campaign)
  pub items : u.items ≡ w.items
  pub proposals : u.proposals ≡ w.proposals

module _ {P : Type 0} ⦃platform : Platform⦄ where
  close_campaign-Ensures :
      (tenant id : Text) (w : World P)
      → Ensures w (close_campaign tenant id) (λ c u.
        record w { campaigns = update_where (is_campaign tenant id) (closed_row w.now) w.campaigns }
        ≡ u)
  unfolding close_campaign
  close_campaign-Ensures tenant id w =
      gets-Ensures _ _
        (modify-Ensures _ _ (record { at = λ c u h. (get_campaign-ok tenant id _ u c h).1 }))

  store-Ensures :
      (ctx : ToolContext) (id : Text) (c : CampaignRow) (action kind result : Text)
      (f : CampaignSummary → Fields) (w : World P)
      → HasRole publisher ctx.tenant_id ctx.acting_user_id w
      → find (is_campaign ctx.tenant_id id) w.campaigns ≡ some c
      → c.status ≡ CampaignStatus.open_
      → Ensures w
          (do
            done ← close_campaign ctx.tenant_id id
            sum ← summary ctx.tenant_id done
            audit_review ctx action kind id c.correlation_id result (f sum)
            pure sum)
          (λ s u. Closed ctx id w u)
  unfolding summary
  store-Ensures ctx id c action kind result f w role found still =
      bind-Ensures _ _ λ done v closed_now.
        let after = (close_campaign-Ensures ctx.tenant_id id w).at done v closed_now in
        gets-Ensures _ _ (
          bind-Ensures _ _ λ a u audited. pure-Ensures (
            let logged : Logged v u =
              subst (Logged v) (ap (λ y. y.1) audited)
                (audit_review-Logged ctx action kind id c.correlation_id result _ v) in
            let campaigns : u.campaigns
                ≡ update_where (is_campaign ctx.tenant_id id) (closed_row w.now) w.campaigns =
              logged.campaigns ∙ ap (λ (y : World P). y.campaigns) (sym after) in
            record {
              authorized = role;
              campaign = c;
              found = found;
              was_open = still;
              stored =
                  ap (find (is_campaign ctx.tenant_id id)) campaigns
                  ∙ find-update_where _ (closed_row w.now) w.campaigns c (λ _. refl) found;
              items = logged.items ∙ ap (λ (y : World P). y.items) (sym after);
              proposals = logged.proposals ∙ ap (λ (y : World P). y.proposals) (sym after);
            }))

  close-Ensures :
      (ctx : ToolContext) (id : Text) (w : World P)
      → Ensures w (close_review_campaign ctx id) (λ s u. Closed ctx id w u)
  unfolding close_review_campaign
  close-Ensures ctx id w = bind-Ensures _ _ λ role w1 entered.
      let (held, enough, same1) =
        require_tenant_role-ok ctx.tenant_id ctx.acting_user_id publisher role w w1 entered in
      bind-Ensures _ _ λ c w2 read.
        let (found, same2) = get_campaign-ok ctx.tenant_id id w1 w2 c read in
        bind-Ensures _ _ λ t w3 opened.
          let (still, same3) = require_open-ok c w2 w3 opened in
          from_same (same1 ∙ same2 ∙ same3)
            (store-Ensures ctx id c _ _ _ _ w (role, held, enough) (rw same1 found) still)

  pub close_review_campaign-ok :
      (ctx : ToolContext) (id : Text) (w u : World P) (s : CampaignSummary)
      → close_review_campaign ctx id w ≡ (ok s, u)
      → Closed ctx id w u
  close_review_campaign-ok ctx id w u s h = (close-Ensures ctx id w).at s u h

  -- After a campaign was closed, completing any of its items is refused to everyone in the tenant,
  -- as long as the campaigns' table is as the closing left it.
  pub closed_campaign_final :
      (ctx ctx' : ToolContext) (id item_id : Text) (w u v v' : World P) (s : CampaignSummary)
      (i : ItemRow) (decision : ItemStatus) (remark : Option Text) (x : ItemWithProposals)
      → close_review_campaign ctx id w ≡ (ok s, u)
      → v.campaigns ≡ u.campaigns
      → ctx'.tenant_id ≡ ctx.tenant_id
      → find (is_item ctx'.tenant_id item_id) v.items ≡ some i
      → i.campaign_id ≡ id
      → complete_review_item ctx' item_id decision remark v ≢ (ok x, v')
  closed_campaign_final ctx ctx' id item_id w u v v' s i decision remark x first same tenant found
        part second =
      let c = close_review_campaign-ok ctx id w u s first in
      let d = complete_review_item-ok ctx' item_id decision remark v v' x second in
      let item : d.item ≡ i = some-injective d.item i (sym d.decided.found ∙ found) in
      let at_id : d.item.campaign_id ≡ id = ap (λ (y : ItemRow). y.campaign_id) item ∙ part in
      let here : find (is_campaign ctx.tenant_id id) v.campaigns
          ≡ some (closed_row w.now c.campaign) =
        ap (find (is_campaign ctx.tenant_id id)) same ∙ c.stored in
      let there : find (is_campaign ctx.tenant_id id) v.campaigns ≡ some d.decided.campaign =
        ap (λ y. find (is_campaign y id) v.campaigns) (sym tenant)
        ∙ ap (λ y. find (is_campaign ctx'.tenant_id y) v.campaigns) (sym at_id)
        ∙ d.decided.part_of in
      let row : closed_row w.now c.campaign ≡ d.decided.campaign =
        some-injective _ _ (sym here ∙ there) in
      not_both (ap (λ (y : CampaignRow). y.status) row ∙ d.decided.still_open)
    where
      not_both : closed ≢ CampaignStatus.open_
      not_both h = cc h
