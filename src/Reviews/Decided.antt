-- ===== src/Reviews/Decided.antt =====
-- Deciding and reopening review items (src/reviews/reviewCampaigns.ts, completeReviewItem and
-- reopenReviewItem).
use ptv_mcp.Base.{
  ℕ, ◌⊎◌, none, inl, inr, trim, is_empty, Bool-cases, Rows, update_where-Rows, both_equal,
  one_differs, ap, subst, ◌≡◌, refl, sym, ◌∙◌, ◌≢◌, Bool, true, false, not, List, [], ◌∷◌, Option,
  some, Text, text_eq, find, filter_by, update_where, sort_by, leb,
}
use ptv_mcp.Json.{Fields}
use ptv_mcp.World.{
  ItemStatus, confirmed, changes_proposed, CampaignStatus, item_status_eq, CampaignRow, ItemRow,
  World, Platform, ok, ◌>>=◌, ◌>>◌,
}
use ptv_mcp.World.Keeps.{Ensures, bind-Ensures, modify-Ensures, ok-injective}
use ptv_mcp.Proposals.Kinds.{ToolContext}
use ptv_mcp.Proposals.Queue.{trimmed_note}
use ptv_mcp.Reviews.Store.{ItemView, LinkedProposal, is_campaign, is_item}
use ptv_mcp.Reviews.ItemStore.{
  decided_item, reviewed_when, set_item_status, links_of, linked_proposals,
}
use ptv_mcp.Reviews.Campaigns.{ItemWithProposals, with_links, audit_review}
use ptv_mcp.Reviews.Items.{contradicts, no_link, pending_links}
use ptv_mcp.Reviews.Steps.{Logged, get_item-ok, audit_review-Logged}

-- The proposals of the tenant that are linked to the item, oldest first.
abbrev pub linked_to : {P : Type 0} → Text → ItemRow → World P → List LinkedProposal
linked_to tenant item w =
    filter_by (λ l. text_eq l.review_item_id item.id)
      (sort_by (λ a b. leb a.created_at b.created_at) (links_of tenant (item.id ∷ []) w.proposals))

-- When the decision was made; an item that is open again has no such time.
abbrev pub ReviewTime : ItemStatus → ℕ → Option ℕ → Type 0
ReviewTime ItemStatus.open_ now at = at ≡ none
ReviewTime confirmed now at = at ≡ some now
ReviewTime changes_proposed now at = at ≡ some now

-- The note that is stored for the remark that was given.
abbrev pub NoteOf : Option Text → Option Text → Type 0
NoteOf none said = said ≡ none
NoteOf (some t) said = ((trim t ≡ []) × (said ≡ none)) ⊎ ((trim t ≢ []) × (said ≡ some (trim t)))

-- A row before and after: the item's row is decided, any other is as it was.
abbrev pub DecidedRow :
    Text → Text → ItemStatus → Option Text → Option Text → ℕ → ItemRow → ItemRow → Type 0
DecidedRow tenant id status user said now i j =
    ((i.tenant_id ≡ tenant)
      × (i.id ≡ id)
      × (at : Option ℕ) × ReviewTime status now at
      × (j ≡ record i {
        status = status;
        note = said;
        reviewed_by_user_id = user;
        reviewed_at = at;
        updated_at = now;
      }))
    ⊎ (((i.tenant_id ≢ tenant) ⊎ (i.id ≢ id)) × (j ≡ i))

decided-Rows :
    (tenant id : Text) (status : ItemStatus) (user said : Option Text) (now : ℕ)
    (items : List ItemRow)
    → Rows
        (DecidedRow tenant id status user said now)
        items
        (update_where (is_item tenant id) (decided_item status user said now) items)
decided-Rows tenant id status user said now =
    update_where-Rows (DecidedRow tenant id status user said now) (is_item tenant id)
      (decided_item status user said now)
      (λ i hit.
        let (here, same) = both_equal i.tenant_id tenant i.id id hit in
        inl (here, same, reviewed_when status now, timed status, refl))
      (λ i miss. inr (one_differs i.tenant_id tenant i.id id miss, refl))
  where
    timed : (s : ItemStatus) → ReviewTime s now (reviewed_when s now)
    timed ItemStatus.open_ = refl
    timed confirmed = refl
    timed changes_proposed = refl

trimmed_note-NoteOf : (remark : Option Text) → NoteOf remark (trimmed_note remark)
trimmed_note-NoteOf none = refl
trimmed_note-NoteOf (some t) = elim (Bool-cases (is_empty (trim t))) [
  | inl blank ↦ rw blank (inl (nothing (trim t) blank, refl))
  | inr said ↦ rw said (inr (something (trim t) said, refl))
]
  where
    nothing : (s : Text) → is_empty s ≡ true → s ≡ []
    nothing [] h = refl
    nothing (c ∷ s) h = cc h

    something : (s : Text) → is_empty s ≡ false → s ≢ []
    something s h e = cc (h, e)

-- What a successful decision has checked and stored.
pub record ItemDecided {P : Type 0} (ctx : ToolContext) (id : Text) (item : ItemRow)
    (status : ItemStatus) (user remark : Option Text) (w u : World P) : Type 0 where
  pub found : find (is_item ctx.tenant_id id) w.items ≡ some item
  pub campaign : CampaignRow
  pub part_of : find (is_campaign ctx.tenant_id item.campaign_id) w.campaigns ≡ some campaign
  pub still_open : campaign.status ≡ CampaignStatus.open_
  pub said : Option Text
  pub noted : NoteOf remark said
  pub items : Rows (DecidedRow ctx.tenant_id item.id status user said w.now) w.items u.items
  pub campaigns : u.campaigns ≡ w.campaigns
  pub proposals : u.proposals ≡ w.proposals
  pub ptv : u.ptv ≡ w.ptv

-- The decision fits the proposals linked to the item.
pub record Fits (decision : ItemStatus) (links : List LinkedProposal) : Type 0 where
  pub some_change : decision ≡ changes_proposed → links ≢ []
  pub nothing_pending : decision ≡ confirmed → pending_links links ≡ []

pub fits :
    (decision : ItemStatus) (links : List LinkedProposal)
    → contradicts decision links ≡ false
    → Fits decision links
unfolding item_status_eq
fits decision links h = record {
  some_change = λ d none_linked. changes decision links h d none_linked;
  nothing_pending = λ d. empty_if (pending_links links) (confirms decision links h d);
}
  where
    empty_if : (ls : List LinkedProposal) → no_link ls ≡ true → ls ≡ []
    empty_if [] h = refl
    empty_if (l ∷ ls) h = cc h

    changes :
        (decision : ItemStatus) (links : List LinkedProposal)
        → contradicts decision links ≡ false
        → decision ≡ changes_proposed
        → links ≡ []
        → ⊥
    changes decision links h d none_linked = cc (rw (d, none_linked) at h)

    confirms :
        (decision : ItemStatus) (links : List LinkedProposal)
        → contradicts decision links ≡ false
        → decision ≡ confirmed
        → no_link (pending_links links) ≡ true
    confirms decision links h d = not_not (no_link (pending_links links)) (rw d at h)
      where
        not_not : (b : Bool) → not b ≡ false → b ≡ true
        not_not true h = refl
        not_not false h = cc

module _ {P : Type 0} ⦃platform : Platform⦄ where
  pub with_links-ok :
      (tenant : Text) (v : ItemView) (w u : World P) (x : ItemWithProposals)
      → with_links tenant v w ≡ (ok x, u)
      → (x.proposals ≡ linked_to tenant v.row w) × (w ≡ u)
  unfolding with_links linked_proposals ◌>>=◌
  with_links-ok tenant v w u x h = (
    sym (ap (λ (y : ItemWithProposals). y.proposals) (ok-injective _ x (ap (λ y. y.0) h))),
    ap (λ y. y.1) h,
  )

  -- What follows the checks: the update, the audit entry, and the item read again.
  pub store-Ensures :
      (ctx : ToolContext) (id : Text) (status : ItemStatus) (user remark said : Option Text)
      (v : ItemView) (c : CampaignRow) (action kind result : Text) (s : Fields) (w : World P)
      → find (is_item ctx.tenant_id id) w.items ≡ some v.row
      → find (is_campaign ctx.tenant_id v.row.campaign_id) w.campaigns ≡ some c
      → c.status ≡ CampaignStatus.open_
      → said ≡ trimmed_note remark
      → Ensures w
          (do
            updated ← set_item_status ctx.tenant_id v.row.id status user said
            audit_review ctx action kind v.row.id c.correlation_id result s
            with_links ctx.tenant_id updated)
          (λ x u. ItemDecided ctx id v.row status user remark w u)
  unfolding set_item_status
  store-Ensures ctx id status user remark said v c action kind result s w found part still trimmed =
      bind-Ensures _ _ λ updated w1 stored.
        let made = (set_ok status said).at updated w1 stored in
        bind-Ensures _ _ λ a w2 audited. record {
          at = λ x u h.
              let logged : Logged w1 w2 =
                subst (Logged w1) (ap (λ y. y.1) audited)
                  (audit_review-Logged ctx action kind v.row.id c.correlation_id result s w1) in
              let after : record w {
                items =
                    update_where (is_item ctx.tenant_id v.row.id)
                      (decided_item status user said w.now) w.items;
              }
                  ≡ w1 =
                made in
              let same = (with_links-ok ctx.tenant_id updated w2 u x h).1 in
              record {
                found = found;
                campaign = c;
                part_of = part;
                still_open = still;
                said = trimmed_note remark;
                noted = trimmed_note-NoteOf remark;
                items =
                    subst
                      (Rows
                        (DecidedRow ctx.tenant_id v.row.id status user (trimmed_note remark) w.now)
                        w.items)
                      (sym (
                        ap (λ (y : World P). y.items) (sym same)
                        ∙ logged.items
                        ∙ ap (λ (y : World P). y.items) (sym after)
                        ∙ ap
                            (λ t.
                              update_where (is_item ctx.tenant_id v.row.id)
                                (decided_item status user t w.now) w.items)
                            trimmed))
                      (decided-Rows ctx.tenant_id v.row.id status user (trimmed_note remark) w.now
                        w.items);
                campaigns =
                    ap (λ (y : World P). y.campaigns) (sym same)
                    ∙ logged.campaigns
                    ∙ ap (λ (y : World P). y.campaigns) (sym after);
                proposals =
                    ap (λ (y : World P). y.proposals) (sym same)
                    ∙ logged.proposals
                    ∙ ap (λ (y : World P). y.proposals) (sym after);
                ptv =
                    ap (λ (y : World P). y.ptv) (sym same)
                    ∙ logged.ptv
                    ∙ ap (λ (y : World P). y.ptv) (sym after);
              };
        }
    where
      set_ok :
          (status : ItemStatus) (said : Option Text)
          → Ensures w (set_item_status ctx.tenant_id v.row.id status user said) (λ x u.
            record w {
              items =
                  update_where
                    (is_item ctx.tenant_id v.row.id)
                    (decided_item status user said w.now)
                    w.items;
            }
            ≡ u)
      set_ok status said =
          modify-Ensures _ _
            (record { at = λ x u h. (get_item-ok ctx.tenant_id v.row.id _ u x h).1 })
