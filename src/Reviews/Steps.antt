-- ===== src/Reviews/Steps.antt =====
-- What the single steps of the operations on review campaigns ensure.
use ptv_mcp.Base.{
  ap, ◌≡◌, refl, sym, ◌∙◌, ◌≤◌, ◌⊎◌, inl, inr, Bool, true, false, not, ◌&&◌, Option, none, some,
  Text, text_eq_iff, arith, find, Bool-cases, leb→le, if◌then◌else◌,
}
use ptv_mcp.Json.{Fields}
use ptv_mcp.World.{
  MembershipRole, contributor, publisher, CampaignStatus, campaign_status_eq, CampaignRow, ItemRow,
  World, Platform, ok, err, review_campaign_error,
}
use ptv_mcp.World.Keeps.{
  Ensures, bind-Ensures, pure-Ensures, throw_if-Ensures, throw_if-ok, or_throw-ok, bind-ok,
  ok-injective,
}
use ptv_mcp.Roles.{role_rank, role_of}
use ptv_mcp.Audit.{record_audit}
use ptv_mcp.Proposals.Kinds.{ToolContext}
use ptv_mcp.Proposals.Queue.{trimmed_note}
use ptv_mcp.Proposals.Approval.{HasRole, require_tenant_role-ok, not-false}
use ptv_mcp.Reviews.Store.{ItemView, is_campaign, is_item, is_user, get_campaign, get_item}
use ptv_mcp.Reviews.Campaigns.{check_note, note_too_long, require_open, audit_review}
use ptv_mcp.Reviews.Items.{is_publisher, require_reviewer_of}

-- A step that only writes to the audit log.
pub record Logged {P : Type 0} (w u : World P) : Type 0 where
  pub proposals : u.proposals ≡ w.proposals
  pub reviewers : u.reviewers ≡ w.reviewers
  pub campaigns : u.campaigns ≡ w.campaigns
  pub items : u.items ≡ w.items
  pub ptv : u.ptv ≡ w.ptv

-- The item's reviewer acts, or a publisher does.
abbrev pub MayDecide : {P : Type 0} → ToolContext → ItemRow → World P → Type 0
MayDecide ctx item w =
    (HasRole contributor ctx.tenant_id ctx.acting_user_id w
      × (item.assignee_user_id ≡ some ctx.acting_user_id))
    ⊎ HasRole publisher ctx.tenant_id ctx.acting_user_id w

pub campaign_status_eq→≡ : (a b : CampaignStatus) → campaign_status_eq a b ≡ true → a ≡ b
unfolding campaign_status_eq
campaign_status_eq→≡ a b h = ground arith

is_user→≡ : (o : Option Text) (user : Text) → is_user o user ≡ true → o ≡ some user
is_user→≡ none user h = cc
is_user→≡ (some u) user h = ap some ((text_eq_iff u user).0 h)

module _ {P : Type 0} ⦃platform : Platform⦄ where
  pub get_campaign-ok :
      (tenant id : Text) (w u : World P) (c : CampaignRow)
      → get_campaign tenant id w ≡ (ok c, u)
      → (find (is_campaign tenant id) w.campaigns ≡ some c) × (w ≡ u)
  unfolding get_campaign
  get_campaign-ok tenant id w u c h = or_throw-ok _ _ w u c h

  pub get_item-ok :
      (tenant id : Text) (w u : World P) (v : ItemView)
      → get_item tenant id w ≡ (ok v, u)
      → (find (is_item tenant id) w.items ≡ some v.row) × (w ≡ u)
  unfolding get_item
  get_item-ok tenant id w u v h =
      let (row, z, first, rest) = bind-ok _ _ w u v h in
      let (found, same) = or_throw-ok _ _ w z row first in
      let e = ok-injective _ v (ap (λ x. x.0) rest) in
      (found ∙ ap (λ (x : ItemView). some x.row) e, same ∙ ap (λ x. x.1) rest)

  pub require_open-ok :
      (c : CampaignRow) (w u : World P)
      → require_open c w ≡ (ok tt, u)
      → (c.status ≡ CampaignStatus.open_) × (w ≡ u)
  require_open-ok c w u h =
      let (open_, same) = throw_if-ok _ _ w u h in
      (campaign_status_eq→≡ _ _ (not-false _ open_), same)

  pub check_note-ok :
      (note : Option Text) (w u : World P) (t : Option Text)
      → check_note note w ≡ (ok t, u)
      → (t ≡ trimmed_note note) × (w ≡ u)
  check_note-ok note w u t h =
      (by_length (note_too_long (trimmed_note note)) t (ap (λ x. x.0) h), ap (λ x. x.1) h)
    where
      by_length :
          (b : Bool) (t : Option Text)
          → (if b then err review_campaign_error else ok (trimmed_note note)) ≡ ok t
          → t ≡ trimmed_note note
      by_length true t h = cc
      by_length false t h = sym (ok-injective _ t h)

  require_reviewer_of-Ensures :
      (ctx : ToolContext) (item : ItemView) (w : World P)
      → Ensures w (require_reviewer_of ctx item) (λ b u. MayDecide ctx item.row w × (w ≡ u))
  unfolding require_reviewer_of
  require_reviewer_of-Ensures ctx item w = bind-Ensures _ _ λ role v entered.
      let (held, enough, same) =
        require_tenant_role-ok ctx.tenant_id ctx.acting_user_id contributor role w v entered in
      throw_if-Ensures _ _ _ λ allowed. pure-Ensures (decides role held enough allowed, same)
    where
      decides :
          (role : MembershipRole)
          → role_of ctx.tenant_id ctx.acting_user_id w.memberships ≡ some role
          → role_rank contributor ≤ role_rank role
          → (not (is_user item.row.assignee_user_id ctx.acting_user_id) && not (is_publisher role))
            ≡ false
          → MayDecide ctx item.row w
      decides role held enough allowed =
          elim (Bool-cases (is_user item.row.assignee_user_id ctx.acting_user_id)) [
            | inl theirs ↦ inl ((role, held, enough), is_user→≡ _ _ theirs)
            | inr other ↦ inr (role, held, leb→le _ _ (not-false _ (rw other at allowed)))
          ]

  pub require_reviewer_of-ok :
      (ctx : ToolContext) (item : ItemView) (w u : World P) (b : Bool)
      → require_reviewer_of ctx item w ≡ (ok b, u)
      → MayDecide ctx item.row w × (w ≡ u)
  require_reviewer_of-ok ctx item w u b h = (require_reviewer_of-Ensures ctx item w).at b u h

  pub audit_review-Logged :
      (ctx : ToolContext) (action kind id correlation result : Text) (s : Fields) (w : World P)
      → Logged w (audit_review ctx action kind id correlation result s w).1
  unfolding audit_review record_audit
  audit_review-Logged ctx action kind id correlation result s w = record {
    proposals = refl;
    reviewers = refl;
    campaigns = refl;
    items = refl;
    ptv = refl;
  }
