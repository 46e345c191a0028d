-- ===== src/Reviews/Linkable.antt =====
-- The steps of attaching a proposal to a review item (src/reviews/reviewCampaigns.ts,
-- requireLinkableReviewItem and linkProposalToReviewItem).
use ptv_mcp.Base.{
  ap, subst, ◌≡◌, refl, sym, ◌∙◌, ◌⊎◌, inl, inr, Bool, true, false, some, Text, text_eq,
  text_eq_iff, arith, find, Bool-cases, if◌then◌else◌,
}
use ptv_mcp.Json.{Fields}
use ptv_mcp.World.{
  publisher, PtvEnvironment, environment_eq, ProposalKind, ProposalRecord, CampaignStatus,
  CampaignRow, ItemStatus, item_status_eq, World, Platform, pure,
}
use ptv_mcp.World.Keeps.{Keeps, Ensures, bind-Ensures, pure-Ensures, throw_if-Ensures}
use ptv_mcp.Proposals.Kinds.{ToolContext}
use ptv_mcp.Proposals.Reviewers.{is_taken}
use ptv_mcp.Proposals.Approval.{HasRole, require_tenant_role-ok, not-false}
use ptv_mcp.Proposals.Requested.{UniqueReviewers}
use ptv_mcp.Reviews.Store.{ItemView, is_item, is_campaign}
use ptv_mcp.Reviews.Campaigns.{ReviewSources}
use ptv_mcp.Reviews.Items.{
  sent_to, require_linkable_review_item, reopen_finished, link_proposal_to_review_item,
  require_own_or_publisher,
}
use ptv_mcp.Reviews.Steps.{
  MayDecide, get_item-ok, get_campaign-ok, require_open-ok, require_reviewer_of-ok,
}
use ptv_mcp.Reviews.Linked.{
  QueueStays, Sent, audit_review-QueueStays, reopen_finished-QueueStays, send_to-Ensures,
}

environment_eq→≡ : (a b : PtvEnvironment) → environment_eq a b ≡ true → a ≡ b
unfolding environment_eq
environment_eq→≡ a b h = ground arith

-- An item that a new or pending proposal may be linked to.
pub record LinkableItem {P : Type 0} (ctx : ToolContext) (item_id : Text) (v : ItemView)
    (w : World P) : Type 0 where
  pub found : find (is_item ctx.tenant_id item_id) w.items ≡ some v.row
  pub authorized : MayDecide ctx v.row w
  pub campaign : CampaignRow
  pub part_of : find (is_campaign ctx.tenant_id v.row.campaign_id) w.campaigns ≡ some campaign
  pub still_open : campaign.status ≡ CampaignStatus.open_
  pub same_environment : campaign.environment ≡ ctx.environment

module _ {P : Type 0} ⦃platform : Platform⦄ where
  pub linkable-Ensures :
      (sources : ReviewSources P) (ctx : ToolContext) (item_id : Text) (kind : ProposalKind)
      (target : Text) (changes : Fields) (w : World P)
      → Ensures w
          (require_linkable_review_item sources ctx item_id kind target changes)
          (λ v u. LinkableItem ctx item_id v w × (w ≡ u))
  unfolding require_linkable_review_item
  linkable-Ensures sources ctx item_id kind target changes w = bind-Ensures _ _ λ v w1 read.
      let (found, same1) = get_item-ok ctx.tenant_id item_id w w1 v read in
      bind-Ensures _ _ λ b w2 entered.
        let (may, same2) = require_reviewer_of-ok ctx v w1 w2 b entered in
        bind-Ensures _ _ λ c w3 looked.
          let (part, same3) = get_campaign-ok ctx.tenant_id v.row.campaign_id w2 w3 c looked in
          bind-Ensures _ _ λ t w4 opened.
            let (still, same4) = require_open-ok c w3 w4 opened in
            throw_if-Ensures _ _ _ λ here. throw_if-Ensures _ _ _ λ unfinished.
              throw_if-Ensures _ _ _ λ fitting. pure-Ensures (
                record {
                  found = found;
                  authorized = subst (MayDecide ctx v.row) (sym same1) may;
                  campaign = c;
                  part_of =
                      subst
                        (λ (z : World P).
                          find (is_campaign ctx.tenant_id v.row.campaign_id) z.campaigns ≡ some c)
                        (sym (same1 ∙ same2)) part;
                  still_open = still;
                  same_environment = environment_eq→≡ _ _ (not-false _ here);
                },
                same1 ∙ same2 ∙ same3 ∙ same4,
              )

  reopen-Stays :
      (ctx : ToolContext) (v : ItemView) (c : CampaignRow) (p : ProposalRecord) (b : Bool)
      → Keeps (QueueStays {P = P}) (if b then pure tt else reopen_finished ctx v c p)
  reopen-Stays ctx v c p true = record { at = λ w. record { proposals = refl; reviewers = refl } }
  reopen-Stays ctx v c p false = reopen_finished-QueueStays ctx v c p

  pub link-Ensures :
      (ctx : ToolContext) (v : ItemView) (p : ProposalRecord) (w : World P)
      → UniqueReviewers w.reviewers
      → Ensures w (link_proposal_to_review_item ctx v p) (λ a u. Sent ctx v p w u)
  unfolding link_proposal_to_review_item
  link-Ensures ctx v p w unique = bind-Ensures _ _ λ c w1 looked.
      let same1 = (get_campaign-ok ctx.tenant_id v.row.campaign_id w w1 c looked).1 in
      bind-Ensures _ _ λ t w2 reopened.
        let q2 : QueueStays w1 w2 =
          subst (QueueStays w1) (ap (λ x. x.1) reopened)
            ((reopen-Stays ctx v c p (item_status_eq v.row.status ItemStatus.open_)).at w1) in
        let unique2 : UniqueReviewers w2.reviewers =
          subst UniqueReviewers (ap (λ (x : World P). x.reviewers) same1 ∙ sym q2.reviewers)
            unique in
        bind-Ensures _ _ λ s w3 sent.
          let (same3, asked) =
            (send_to-Ensures ctx v p (sent_to ctx v p) w2 unique2).at s w3 sent in
          record {
            at = λ a u h.
                let q4 : QueueStays w3 u =
                  subst (QueueStays w3) (ap (λ x. x.1) h)
                    ((audit_review-QueueStays ctx _ _ _ _ _ _).at w3) in
                record {
                  proposals =
                      q4.proposals
                      ∙ same3
                      ∙ q2.proposals
                      ∙ ap (λ (x : World P). x.proposals) (sym same1);
                  asked = λ r to. ap (is_taken p.id r) q4.reviewers ∙ asked r to;
                };
          }

  pub own_or_publisher-Ensures :
      (ctx : ToolContext) (p : ProposalRecord) (w : World P)
      → Ensures w (require_own_or_publisher ctx p) (λ t u.
        ((p.proposed_by_user_id ≡ ctx.acting_user_id)
          ⊎ HasRole publisher ctx.tenant_id ctx.acting_user_id w)
        × (w ≡ u))
  unfolding require_own_or_publisher
  own_or_publisher-Ensures ctx p w =
      elim (Bool-cases (text_eq p.proposed_by_user_id ctx.acting_user_id)) [
        | inl own ↦ rw own (pure-Ensures (inl ((text_eq_iff _ _).0 own), refl))
        | inr other ↦ rw other (
            bind-Ensures _ _ λ role v entered.
              let (held, enough, same) =
                require_tenant_role-ok ctx.tenant_id ctx.acting_user_id publisher role w v
                  entered in
              pure-Ensures (inr (role, held, enough), same))
      ]
