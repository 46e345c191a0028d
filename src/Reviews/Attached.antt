-- ===== src/Reviews/Attached.antt =====
-- Attaching a pending proposal to a review item (src/reviews/reviewCampaigns.ts,
-- attachProposalToReviewItem).
use ptv_mcp.Base.{
  ℕ, ap, subst, ◌≡◌, refl, sym, ◌∙◌, ◌⊎◌, inl, inr, ◌≢◌, true, false, List, [], ◌∷◌, Option, none,
  some, Text, text_eq, text_eq_iff, arith, find, update_where, Rows, update_where-Rows, both_equal,
  one_differs, Bool-cases, ◌&&◌, Mem,
}
use ptv_mcp.World.{
  publisher, ProposalStatus, ProposalRecord, ReviewerRow, World, Platform, ok, ◌>>=◌, ◌>>◌,
}
use ptv_mcp.World.Keeps.{Ensures, bind-Ensures, modify-Ensures, throw_if-Ensures, from_same}
use ptv_mcp.Proposals.Kinds.{ToolContext}
use ptv_mcp.Proposals.Store.{is_row, linked_row, set_review_item}
use ptv_mcp.Proposals.Reviewers.{is_taken}
use ptv_mcp.Proposals.Resolve.{in_environment}
use ptv_mcp.Proposals.Transition.{status_eq_iff}
use ptv_mcp.Proposals.Approval.{HasRole, not-false}
use ptv_mcp.Proposals.Details.{get_by_id-ok}
use ptv_mcp.Proposals.Requested.{UniqueReviewers}
use ptv_mcp.Reviews.Store.{ItemView, get_item}
use ptv_mcp.Reviews.Campaigns.{ItemWithProposals, ReviewSources, with_links}
use ptv_mcp.Reviews.Items.{
  sent_to, linked_elsewhere, link_proposal_to_review_item, attach_proposal_to_review_item,
}
use ptv_mcp.Reviews.Steps.{get_item-ok}
use ptv_mcp.Reviews.Linked.{QueueStays, with_links-QueueStays}
use ptv_mcp.Reviews.Linkable.{
  LinkableItem, linkable-Ensures, link-Ensures, own_or_publisher-Ensures,
}

-- A row before and after: the proposal's row names the item, any other is as it was.
abbrev pub LinkedRow : Text → Text → Text → ℕ → ProposalRecord → ProposalRecord → Type 0
LinkedRow tenant id item now p q =
    ((p.tenant_id ≡ tenant)
      × (p.id ≡ id)
      × (q ≡ record p { review_item_id = some item; updated_at = now }))
    ⊎ (((p.tenant_id ≢ tenant) ⊎ (p.id ≢ id)) × (q ≡ p))

linked-Rows :
    (tenant id item : Text) (now : ℕ) (ps : List ProposalRecord)
    → Rows
        (LinkedRow tenant id item now)
        ps
        (update_where (is_row tenant id) (linked_row item now) ps)
linked-Rows tenant id item now =
    update_where-Rows (LinkedRow tenant id item now) (is_row tenant id) (linked_row item now)
      (λ p hit.
        let (here, same) = both_equal p.tenant_id tenant p.id id hit in inl (here, same, refl))
      (λ p miss. inr (one_differs p.tenant_id tenant p.id id miss, refl))

-- A link that does not stand in the way of one to the item.
abbrev pub LinksNoOther : Option Text → Text → Type 0
LinksNoOther none item = Unit
LinksNoOther (some linked) item = (linked ≡ []) ⊎ (linked ≡ item)

elsewhere_lem :
    (linked : Option Text) (item : Text)
    → linked_elsewhere linked item ≡ false
    → LinksNoOther linked item
elsewhere_lem none item h = tt
elsewhere_lem (some linked) item h = ground (arith, text_eq_iff linked [], text_eq_iff linked item)

-- The item's reviewer must sign the proposal off, unless they act or proposed it.
abbrev pub ReviewerAsked : Option Text → Text → ProposalRecord → List ReviewerRow → Type 0
ReviewerAsked none acting p rows = Unit
ReviewerAsked (some reviewer) acting p rows =
    (reviewer ≡ acting)
    ⊎ (reviewer ≡ p.proposed_by_user_id)
    ⊎ ((row : ReviewerRow) × Mem row rows × (row.proposal_id ≡ p.id) × (row.user_id ≡ reviewer))

taken-Mem :
    (id user : Text) (rows : List ReviewerRow)
    → is_taken id user rows ≡ true
    → (row : ReviewerRow) × Mem row rows × (row.proposal_id ≡ id) × (row.user_id ≡ user)
taken-Mem id user [] h = absurd (cc h)
taken-Mem id user (r ∷ rows) h =
    elim (Bool-cases (text_eq r.proposal_id id && text_eq r.user_id user)) [
      | inl hit ↦
          let (named, by) = both_equal r.proposal_id id r.user_id user hit in
          (r, inl refl, named, by)
      | inr miss ↦
          let (row, stands, named, by) = taken-Mem id user rows (rw miss at h) in
          (row, inr stands, named, by)
    ]

asked-ReviewerAsked :
    (ctx : ToolContext) (v : ItemView) (p : ProposalRecord) (rows : List ReviewerRow)
    → ((r : Text) → sent_to ctx v p ≡ some r → is_taken p.id r rows ≡ true)
    → ReviewerAsked v.row.assignee_user_id ctx.acting_user_id p rows
asked-ReviewerAsked ctx v p rows asked = by_reviewer v.row.assignee_user_id refl
  where
    by_reviewer :
        (o : Option Text) → v.row.assignee_user_id ≡ o → ReviewerAsked o ctx.acting_user_id p rows
    by_reviewer none h = tt
    by_reviewer (some reviewer) h = elim (Bool-cases (text_eq reviewer ctx.acting_user_id)) [
      | inl acts ↦ inl ((text_eq_iff reviewer ctx.acting_user_id).0 acts)
      | inr other ↦ elim (Bool-cases (text_eq reviewer p.proposed_by_user_id)) [
        | inl own ↦ inr (inl ((text_eq_iff reviewer p.proposed_by_user_id).0 own))
        | inr foreign ↦
            inr (inr (taken-Mem p.id reviewer rows (asked reviewer (rw (h, other, foreign) refl))))
      ]
    ]

-- What attaching a proposal has checked and stored.
pub record Attached {P : Type 0} (ctx : ToolContext) (item_id proposal_id : Text) (w u : World P)
    : Type 0 where
  pub proposal : ProposalRecord
  pub found : find (is_row ctx.tenant_id proposal_id) w.proposals ≡ some proposal
  pub is_open : proposal.status ≡ ProposalStatus.pending
  pub not_elsewhere : LinksNoOther proposal.review_item_id item_id
  pub authorized :
      (proposal.proposed_by_user_id ≡ ctx.acting_user_id)
      ⊎ HasRole publisher ctx.tenant_id ctx.acting_user_id w
  pub item : ItemView
  pub linkable : LinkableItem (in_environment ctx proposal) item_id item w
  pub proposals :
      Rows (LinkedRow ctx.tenant_id proposal.id item.row.id w.now) w.proposals u.proposals
  pub asked : ReviewerAsked item.row.assignee_user_id ctx.acting_user_id proposal u.reviewers

module _ {P : Type 0} ⦃platform : Platform⦄ where
  -- From the checks on, in the state `w`.
  store-Ensures :
      (ctx : ToolContext) (item_id proposal_id : Text) (p : ProposalRecord) (v : ItemView)
      (w : World P)
      → UniqueReviewers w.reviewers
      → find (is_row ctx.tenant_id proposal_id) w.proposals ≡ some p
      → p.status ≡ ProposalStatus.pending
      → linked_elsewhere p.review_item_id item_id ≡ false
      → (p.proposed_by_user_id ≡ ctx.acting_user_id)
        ⊎ HasRole publisher ctx.tenant_id ctx.acting_user_id w
      → LinkableItem (in_environment ctx p) item_id v w
      → Ensures w
          (do
            set_review_item ctx.tenant_id p.id v.row.id
            link_proposal_to_review_item ctx v p
            updated ← get_item ctx.tenant_id v.row.id
            with_links ctx.tenant_id updated)
          (λ x u. Attached ctx item_id proposal_id w u)
  unfolding set_review_item
  store-Ensures ctx item_id proposal_id p v w unique found is_open elsewhere own linkable =
      modify-Ensures _ _ (
        bind-Ensures _ _ λ a w2 linked.
          let sent = (link-Ensures ctx v p _ unique).at a w2 linked in
          bind-Ensures _ _ λ updated w3 read.
            let same3 = (get_item-ok ctx.tenant_id v.row.id w2 w3 updated read).1 in
            record {
              at = λ x u h.
                  let q : QueueStays w3 u =
                    subst (QueueStays w3) (ap (λ y. y.1) h)
                      ((with_links-QueueStays ctx.tenant_id updated).at w3) in
                  record {
                    proposal = p;
                    found = found;
                    is_open = is_open;
                    not_elsewhere = elsewhere_lem p.review_item_id item_id elsewhere;
                    authorized = own;
                    item = v;
                    linkable = linkable;
                    proposals =
                        subst (Rows (LinkedRow ctx.tenant_id p.id v.row.id w.now) w.proposals)
                          (sym (
                            q.proposals
                            ∙ ap (λ (y : World P). y.proposals) (sym same3)
                            ∙ sent.proposals))
                          (linked-Rows ctx.tenant_id p.id v.row.id w.now w.proposals);
                    asked = asked-ReviewerAsked ctx v p u.reviewers (λ r to.
                        ap (is_taken p.id r)
                          (q.reviewers ∙ ap (λ (y : World P). y.reviewers) (sym same3))
                        ∙ sent.asked r to);
                  };
            })

  attach-Ensures :
      (sources : ReviewSources P) (ctx : ToolContext) (item_id proposal_id : Text) (w : World P)
      → UniqueReviewers w.reviewers
      → Ensures w
          (attach_proposal_to_review_item sources ctx item_id proposal_id)
          (λ x u. Attached ctx item_id proposal_id w u)
  unfolding attach_proposal_to_review_item
  attach-Ensures sources ctx item_id proposal_id w unique = bind-Ensures _ _ λ p w1 read.
      let (found, same1) = get_by_id-ok ctx.tenant_id proposal_id w w1 p read in
      throw_if-Ensures _ _ _ λ still_open. throw_if-Ensures _ _ _ λ elsewhere.
        bind-Ensures _ _ λ t w2 entered.
          let (own, same2) = (own_or_publisher-Ensures ctx p w1).at t w2 entered in
          bind-Ensures _ _ λ v w3 looked.
            let (linkable, same3) =
              (linkable-Ensures sources (in_environment ctx p) item_id p.kind p.service_id p.changes
                  w2).at
                v w3 looked in
            from_same (same1 ∙ same2 ∙ same3) (
              store-Ensures ctx item_id proposal_id p v w unique found
                ((status_eq_iff _ _).0 (not-false _ still_open)) elsewhere
                (subst
                  (λ (z : World P).
                    (p.proposed_by_user_id ≡ ctx.acting_user_id)
                    ⊎ HasRole publisher ctx.tenant_id ctx.acting_user_id z)
                  (sym same1) own)
                (subst (LinkableItem (in_environment ctx p) item_id v) (sym (same1 ∙ same2))
                  linkable))

  -- If a user is asked at most once for a proposal and attaching a proposal to a review item
  -- succeeds, then the proposal was pending and not linked to another item, the acting user
  -- proposed it or is a publisher or above, the item's campaign is open and in the proposal's
  -- environment, the acting user is the item's reviewer or a publisher or above; in the proposals'
  -- table that proposal's row names the item and the time of the call, all else of it and every
  -- other row being as before; and the item's reviewer, if it has one who neither acts nor
  -- proposed it, is in the table of required reviewers for it.
  pub attach_proposal_to_review_item-ok :
      (sources : ReviewSources P) (ctx : ToolContext) (item_id proposal_id : Text) (w u : World P)
      (x : ItemWithProposals)
      → UniqueReviewers w.reviewers
      → attach_proposal_to_review_item sources ctx item_id proposal_id w ≡ (ok x, u)
      → Attached ctx item_id proposal_id w u
  attach_proposal_to_review_item-ok sources ctx item_id proposal_id w u x unique h =
      (attach-Ensures sources ctx item_id proposal_id w unique).at x u h
