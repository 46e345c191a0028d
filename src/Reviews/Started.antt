-- ===== src/Reviews/Started.antt =====
-- Starting a review campaign (src/reviews/reviewCampaigns.ts, startReviewCampaign).
use ptv_mcp.Base.{
  ℕ, zero, suc, ◌+◌, ◌≤◌, ap, subst, ◌≡◌, refl, sym, ◌∙◌, Bool, true, false, List, [], ◌∷◌, ◌++◌,
  Option, none, some, Text, arith, find, any, take, length, length-append, is_empty, trim,
  Bool-cases, inl, inr,
}
use ptv_mcp.Json.{Fields}
use ptv_mcp.World.{
  publisher, CampaignStatus, CampaignRow, ItemRow, World, Platform, ok, ◌>>=◌, ◌>>◌,
}
use ptv_mcp.World.Keeps.{
  Ensures, bind-Ensures, gets-Ensures, throw_if-Ensures, from_same, ok-injective,
}
use ptv_mcp.Proposals.Kinds.{ToolContext}
use ptv_mcp.Proposals.Approval.{HasRole, require_tenant_role-ok}
use ptv_mcp.Reviews.Store.{
  NewReviewItem, NewCampaign, is_open_for, has_target, insert_items, create_campaign,
  find_open_campaign,
}
use ptv_mcp.Reviews.Campaigns.{
  CampaignSummary, ReviewSources, max_campaign_items, audit_review, summary, fresh_id,
  is_true_or_absent, start_review_campaign,
}
use ptv_mcp.Reviews.Steps.{Logged, audit_review-Logged}

length-take : {A : Type 0} (n : ℕ) (xs : List A) → length (take n xs) ≤ n
length-take zero xs = omega arith
length-take (suc n) [] = omega arith
length-take (suc n) (x ∷ xs) = omega (arith, length-take n xs)

module _ ⦃platform : Platform⦄ where
  length-insert_items :
      (tenant campaign : Text) (now seed : ℕ) (items : List NewReviewItem) (rows : List ItemRow)
      → length (insert_items tenant campaign now seed items rows) ≤ length rows + length items
  unfolding insert_items
  length-insert_items tenant campaign now seed [] rows = omega arith
  length-insert_items tenant campaign now seed (item ∷ items) rows =
      elim (Bool-cases (any (has_target campaign item.target_kind item.target_id) rows)) [
        | inl known ↦
            rw known (omega (arith, length-insert_items tenant campaign now (seed + 1) items rows))
        | inr new ↦ rw new (
            omega (
              arith,
              length-insert_items tenant campaign now (seed + 1) items (rows ++ _),
              length-append rows (_ ∷ []),
            ))
      ]

-- What starting a campaign has checked and stored.
pub record Started {P : Type 0} (ctx : ToolContext) (name organization : Text) (w : World P)
    (s : CampaignSummary) (u : World P) : Type 0 where
  pub authorized : HasRole publisher ctx.tenant_id ctx.acting_user_id w
  pub none_open : find (is_open_for ctx.tenant_id ctx.environment organization) w.campaigns ≡ none
  pub stored : u.campaigns ≡ w.campaigns ++ s.campaign ∷ []
  pub is_open : s.campaign.status ≡ CampaignStatus.open_
  pub named : s.campaign.name ≡ trim name
  pub not_empty : is_empty s.campaign.name ≡ false
  pub over : s.campaign.organization_id ≡ organization
  pub bounded : length u.items ≤ length w.items + max_campaign_items

module _ {P : Type 0} ⦃platform : Platform⦄ where
  create_campaign-Ensures :
      (input : NewCampaign) (w : World P)
      → Ensures w (create_campaign input) (λ c u.
        (u.campaigns ≡ w.campaigns ++ c ∷ [])
        × (c.status ≡ CampaignStatus.open_)
        × (c.name ≡ input.name)
        × (c.organization_id ≡ input.organization_id)
        × (length u.items ≤ length w.items + length input.items))
  unfolding create_campaign
  create_campaign-Ensures input w = record {
    at = λ c u h.
        let made = ok-injective _ c (ap (λ x. x.0) h) in
        let after = ap (λ x. x.1) h in
        (
          ap (λ (x : World P). x.campaigns) (sym after) ∙ ap (λ x. w.campaigns ++ x ∷ []) made,
          ap (λ (x : CampaignRow). x.status) (sym made),
          ap (λ (x : CampaignRow). x.name) (sym made),
          ap (λ (x : CampaignRow). x.organization_id) (sym made),
          subst (λ (x : World P). length x.items ≤ length w.items + length input.items) after
              (length-insert_items input.tenant_id _ w.now (w.seed + 1) input.items w.items),
        );
  }

  create-Ensures :
      (ctx : ToolContext) (name organization : Text) (input : NewCampaign) (correlation : Text)
      (action kind result : Text) (f : Fields) (w v : World P)
      → HasRole publisher ctx.tenant_id ctx.acting_user_id w
      → is_empty (trim name) ≡ false
      → find (is_open_for ctx.tenant_id ctx.environment organization) w.campaigns ≡ none
      → v.campaigns ≡ w.campaigns
      → v.items ≡ w.items
      → input.name ≡ trim name
      → input.organization_id ≡ organization
      → length input.items ≤ max_campaign_items
      → Ensures v
          (do
            campaign ← create_campaign input
            audit_review ctx action kind campaign.id correlation result f
            summary ctx.tenant_id campaign)
          (Started ctx name organization w)
  unfolding summary
  create-Ensures ctx name organization input correlation action kind result f w v role given
        none_open same_campaigns same_items named over bounded =
      bind-Ensures _ _ λ c v1 made.
        let (stored, is_open, its_name, its_org, longer) =
          (create_campaign-Ensures input v).at c v1 made in
        bind-Ensures _ _ λ a v2 audited. record {
          at = λ s u h.
              let logged : Logged v1 v2 =
                subst (Logged v1) (ap (λ y. y.1) audited)
                  (audit_review-Logged ctx action kind c.id correlation result f v1) in
              let row : c ≡ s.campaign =
                ap (λ (x : CampaignSummary). x.campaign) (ok-injective _ s (ap (λ x. x.0) h)) in
              let same : v2 ≡ u = ap (λ x. x.1) h in
              let items : u.items ≡ v1.items =
                ap (λ (x : World P). x.items) (sym same) ∙ logged.items in
              record {
                authorized = role;
                none_open = none_open;
                stored =
                    ap (λ (x : World P). x.campaigns) (sym same)
                    ∙ logged.campaigns
                    ∙ stored
                    ∙ ap (λ x. x ++ c ∷ []) same_campaigns
                    ∙ ap (λ x. w.campaigns ++ x ∷ []) row;
                is_open = ap (λ (x : CampaignRow). x.status) (sym row) ∙ is_open;
                named = ap (λ (x : CampaignRow). x.name) (sym row) ∙ its_name ∙ named;
                not_empty =
                    rw (ap (λ (x : CampaignRow). x.name) (sym row) ∙ its_name ∙ named) given;
                over = ap (λ (x : CampaignRow). x.organization_id) (sym row) ∙ its_org ∙ over;
                bounded = enough (ap length items) longer (ap length same_items) bounded;
              };
        }
    where
      enough : {a b c d e m : ℕ} → a ≡ b → b ≤ c + d → c ≡ e → d ≤ m → a ≤ e + m
      enough x y z t = omega arith

  fresh_id-keeps :
      (w u : World P) (id : Text)
      → fresh_id w ≡ (ok id, u)
      → (u.campaigns ≡ w.campaigns) × (u.items ≡ w.items)
  unfolding fresh_id
  fresh_id-keeps w u id h = (
    ap (λ (x : World P). x.campaigns) (sym (ap (λ x. x.1) h)),
    ap (λ (x : World P). x.items) (sym (ap (λ x. x.1) h)),
  )

  start-Ensures :
      (sources : ReviewSources P) (ctx : ToolContext) (name organization : Text)
      (due_date : Option Text) (sub : Option Bool) (w : World P)
      → Ensures w
          (start_review_campaign sources ctx name organization due_date sub)
          (Started ctx name organization w)
  unfolding start_review_campaign find_open_campaign
  start-Ensures sources ctx name organization due_date sub w = bind-Ensures _ _ λ role w1 entered.
      let (held, enough, same1) =
        require_tenant_role-ok ctx.tenant_id ctx.acting_user_id publisher role w w1 entered in
      from_same same1 (
        throw_if-Ensures _ _ _ λ given. throw_if-Ensures _ _ _ λ dated. gets-Ensures _ _ (
          throw_if-Ensures _ _ _ λ free. bind-Ensures _ _ λ content v collected.
            bind-Ensures _ _ λ correlation v1 drawn.
              let (same_campaigns, same_items) = fresh_id-keeps v v1 correlation drawn in
              create-Ensures ctx name organization _ correlation _ _ _ _ w v1 (role, held, enough)
                given (none_found _ free)
                (same_campaigns
                  ∙ subst (λ (x : World P). x.campaigns ≡ w.campaigns) (ap (λ x. x.1) collected)
                      (sources.collect_campaigns ctx organization (is_true_or_absent sub) w))
                (same_items
                  ∙ subst (λ (x : World P). x.items ≡ w.items) (ap (λ x. x.1) collected)
                      (sources.collect_items ctx organization (is_true_or_absent sub) w))
                refl refl (length-take max_campaign_items content.items)))
    where
      none_found :
          (o : Option CampaignRow) → (elim o [ none ↦ false | some _ ↦ true ]) ≡ false → o ≡ none
      none_found none h = refl
      none_found (some c) h = cc h

  -- If starting a campaign succeeds, the acting user is a publisher or above, no open campaign
  -- stood for that organisation in the tenant and environment, one open campaign with the trimmed,
  -- non-empty name was appended, and at most 5000 items were added.
  pub start_review_campaign-ok :
      (sources : ReviewSources P) (ctx : ToolContext) (name organization : Text)
      (due_date : Option Text) (sub : Option Bool) (w u : World P) (s : CampaignSummary)
      → start_review_campaign sources ctx name organization due_date sub w ≡ (ok s, u)
      → Started ctx name organization w s u
  start_review_campaign-ok sources ctx name organization due_date sub w u s h =
      (start-Ensures sources ctx name organization due_date sub w).at s u h
