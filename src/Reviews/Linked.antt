-- ===== src/Reviews/Linked.antt =====
-- What linking a proposal to a review item changes (src/reviews/reviewCampaigns.ts,
-- linkProposalToReviewItem).
use ptv_mcp.Base.{
  ap, subst, ◌≡◌, refl, sym, ◌∙◌, true, [], ◌∷◌, Option, none, some, some-injective, Text,
}
use ptv_mcp.Json.{Fields}
use ptv_mcp.World.{
  ProposalRecord, CampaignRow, World, Platform, Result, ◌>>=◌, ServiceError, or_throw,
}
use ptv_mcp.World.Keeps.{Keeps, bind-Keeps, Ensures, bind-Ensures, pure-Ensures}
use ptv_mcp.Proposals.Kinds.{ToolContext, Frame}
use ptv_mcp.Proposals.Reviewers.{is_taken, insert_reviewers, add_reviewers, list_reviewers}
use ptv_mcp.Proposals.Details.{audit_proposal-Frame}
use ptv_mcp.Proposals.Requested.{UniqueReviewers, insert_reviewers-ok}
use ptv_mcp.Reviews.Store.{ItemView, get_item}
use ptv_mcp.Reviews.ItemStore.{set_item_status, linked_proposals}
use ptv_mcp.Reviews.Campaigns.{audit_review, with_links}
use ptv_mcp.Reviews.Items.{sent_to, reopen_finished, send_to}
use ptv_mcp.Reviews.Steps.{audit_review-Logged}

-- A step that leaves proposals and required reviewers as they are.
pub record QueueStays {P : Type 0} (w u : World P) : Type 0 where
  pub proposals : u.proposals ≡ w.proposals
  pub reviewers : u.reviewers ≡ w.reviewers

QueueStays-trans : {P : Type 0} (w v u : World P) → QueueStays w v → QueueStays v u → QueueStays w u
QueueStays-trans w v u h k = record {
  proposals = k.proposals ∙ h.proposals;
  reviewers = k.reviewers ∙ h.reviewers;
}

idle : {P A : Type 0} {f : World P → Result A} → Keeps QueueStays (λ w. (f w, w))
idle = record { at = λ w. record { proposals = refl; reviewers = refl } }

-- What linking ensures: the proposals stay, and whom it is sent to is a required reviewer.
pub record Sent {P : Type 0} (ctx : ToolContext) (item : ItemView) (p : ProposalRecord)
    (w u : World P) : Type 0 where
  pub proposals : u.proposals ≡ w.proposals
  pub asked : (r : Text) → sent_to ctx item p ≡ some r → is_taken p.id r u.reviewers ≡ true

module _ {P : Type 0} ⦃platform : Platform⦄ where
  or_throw-QueueStays :
      {A : Type 0} (o : Option A) (e : ServiceError) → Keeps (QueueStays {P = P}) (or_throw o e)
  or_throw-QueueStays none e = idle
  or_throw-QueueStays (some a) e = idle

  pub get_item-QueueStays : (tenant id : Text) → Keeps (QueueStays {P = P}) (get_item tenant id)
  unfolding get_item
  get_item-QueueStays tenant id = record {
    at = λ w.
        (bind-Keeps QueueStays QueueStays-trans _ _
            (record { at = λ v. (or_throw-QueueStays _ _).at v }) (λ _. idle)).at
          w;
  }

  pub audit_review-QueueStays :
      (ctx : ToolContext) (action kind id correlation result : Text) (s : Fields)
      → Keeps (QueueStays {P = P}) (audit_review ctx action kind id correlation result s)
  audit_review-QueueStays ctx action kind id correlation result s = record {
    at = λ w.
        let l = audit_review-Logged ctx action kind id correlation result s w in
        record { proposals = l.proposals; reviewers = l.reviewers };
  }

  pub with_links-QueueStays :
      (tenant : Text) (v : ItemView) → Keeps (QueueStays {P = P}) (with_links tenant v)
  unfolding with_links linked_proposals
  with_links-QueueStays tenant v = bind-Keeps QueueStays QueueStays-trans _ _ idle λ _. idle

  pub reopen_finished-QueueStays :
      (ctx : ToolContext) (item : ItemView) (c : CampaignRow) (p : ProposalRecord)
      → Keeps (QueueStays {P = P}) (reopen_finished ctx item c p)
  unfolding reopen_finished set_item_status
  reopen_finished-QueueStays ctx item c p =
      bind-Keeps QueueStays QueueStays-trans _ _
        (bind-Keeps QueueStays QueueStays-trans _ _
          (record { at = λ w. record { proposals = refl; reviewers = refl } })
          λ _. get_item-QueueStays ctx.tenant_id item.row.id)
        λ _.
          bind-Keeps QueueStays QueueStays-trans _ _ (audit_review-QueueStays ctx _ _ _ _ _ _)
            λ _. idle

  pub send_to-Ensures :
      (ctx : ToolContext) (item : ItemView) (p : ProposalRecord) (o : Option Text) (w : World P)
      → UniqueReviewers w.reviewers
      → Ensures w (send_to ctx item p o) (λ t u.
        (u.proposals ≡ w.proposals)
        × ((r : Text) → o ≡ some r → is_taken p.id r u.reviewers ≡ true))
  unfolding send_to add_reviewers list_reviewers
  send_to-Ensures ctx item p none w unique = pure-Ensures (refl, λ r h. cc h)
  send_to-Ensures ctx item p (some reviewer) w unique = bind-Ensures _ _ λ rs v added.
      let after : record w {
        reviewers =
            insert_reviewers ctx.tenant_id p.id ctx.acting_user_id w.now (reviewer ∷ [])
              w.reviewers;
      }
          ≡ v =
        unfold ◌>>=◌ in ap (λ x. x.1) added in
      bind-Ensures _ _ λ a u audited. pure-Ensures (
        let framed : Frame v u =
          subst (Frame v) (ap (λ x. x.1) audited) ((audit_proposal-Frame ctx p _ _ _).at v) in
        let rows = framed.reviewers ∙ sym (ap (λ (x : World P). x.reviewers) after) in
        let named =
          (insert_reviewers-ok ctx.tenant_id p.id ctx.acting_user_id w.now (reviewer ∷ [])
            w.reviewers unique).named.0 in
        (
          framed.proposals ∙ sym (ap (λ (x : World P). x.proposals) after),
          λ r h.
              subst (λ z. is_taken p.id z u.reviewers ≡ true) (some-injective reviewer r h)
                (ap (is_taken p.id reviewer) rows ∙ named),
        ))
