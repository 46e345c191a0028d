-- ===== src/Reviews/Fitting.antt =====
-- What completing an item asks of the proposals' table (src/reviews/reviewCampaigns.ts,
-- completeReviewItem, and linkedProposals of src/reviews/reviewService.ts).
use ptv_mcp.Base.{
  ap, ◌≡◌, refl, sym, ◌∙◌, ◌≢◌, both_equal, one_differs, Option-cases, ◌⊎◌, inl, inr, Bool, true,
  false, ◌&&◌, List, [], ◌∷◌, some, some-injective, Text, text_eq, text_eq_iff, arith, any,
  filter_by, insert_by, sort_by, leb, All, All-map, Mem, Bool-cases, sort_by-All, filter_by-test,
}
use ptv_mcp.World.{
  ProposalRecord, ProposalStatus, status_eq, ItemStatus, confirmed, changes_proposed, World,
  ItemRow,
}
use ptv_mcp.Proposals.Transition.{status_eq_iff}
use ptv_mcp.Reviews.Store.{LinkedProposal}
use ptv_mcp.Reviews.ItemStore.{links_of}
use ptv_mcp.Reviews.Items.{pending_links}
use ptv_mcp.Reviews.Decided.{Fits, linked_to}

-- A decision fits the table: a proposal of the tenant is linked to the item if changes are
-- proposed, and none that is linked to it is pending if it is confirmed.
pub record FitsTable (decision : ItemStatus) (tenant item : Text) (ps : List ProposalRecord)
    : Type 0 where
  pub some_change :
      decision ≡ changes_proposed
      → (p : ProposalRecord) × Mem p ps × (p.tenant_id ≡ tenant) × (p.review_item_id ≡ some item)
  pub nothing_pending :
      decision ≡ confirmed
      → All
          (λ p.
            (p.status ≢ ProposalStatus.pending)
            ⊎ (p.tenant_id ≢ tenant)
            ⊎ (p.review_item_id ≢ some item))
          ps

module _ {A : Type 0} where
  insert_by-back :
      (Q : A → Type 0) (before : A → A → Bool) (x : A) (ys : List A)
      → All Q (insert_by before x ys)
      → Q x × All Q ys
  insert_by-back Q before x [] h = h
  insert_by-back Q before x (y ∷ ys) h = elim (Bool-cases (before x y)) [
    | inl first ↦ rw first at h
    | inr later ↦
        let (here, rest) : Q y × All Q (insert_by before x ys) = rw later at h in
        let (new, old) = insert_by-back Q before x ys rest in (new, (here, old))
  ]

  sort_by-back :
      (Q : A → Type 0) (before : A → A → Bool) (xs : List A) → All Q (sort_by before xs) → All Q xs
  sort_by-back Q before [] h = tt
  sort_by-back Q before (x ∷ xs) h =
      let (here, rest) = insert_by-back Q before x (sort_by before xs) h in
      (here, sort_by-back Q before xs rest)

  filter_by-back :
      (Q : A → Type 0) (p : A → Bool) (xs : List A)
      → All Q (filter_by p xs)
      → All (λ x. Q x ⊎ (p x ≡ false)) xs
  filter_by-back Q p [] h = tt
  filter_by-back Q p (x ∷ xs) h = elim (Bool-cases (p x)) [
    | inl hit ↦
        let (here, rest) : Q x × All Q (filter_by p xs) = rw hit at h in
        (inl here, filter_by-back Q p xs rest)
    | inr miss ↦ (inr miss, filter_by-back Q p xs (rw miss at h))
  ]

  none_left : (Q : A → Type 0) (xs : List A) → xs ≡ [] → All Q xs
  none_left Q [] h = tt
  none_left Q (x ∷ xs) h = absurd (cc h)

module _ (tenant item : Text) where
  -- The row that a link stands for.
  abbrev Source : List ProposalRecord → LinkedProposal → Type 0
  Source ps l =
      (p : ProposalRecord) × Mem p ps
      × (p.tenant_id ≡ tenant)
      × (p.review_item_id ≡ some l.review_item_id)

  links_of-Source :
      (all ps : List ProposalRecord)
      → ((p : ProposalRecord) → Mem p ps → Mem p all)
      → All (Source all) (links_of tenant (item ∷ []) ps)
  unfolding links_of
  links_of-Source all [] within = tt
  links_of-Source all (p ∷ ps) within =
      let rest = links_of-Source all ps (λ q stands. within q (inr stands)) in
      elim (Option-cases p.review_item_id) [
        | inl no_link ↦ rw no_link rest
        | inr (linked, e) ↦
            elim (Bool-cases (text_eq p.tenant_id tenant && any (text_eq linked) (item ∷ []))) [
              | inl hit ↦ rw (e, hit) ((p, within p (inl refl), (hit_both linked p hit).0, e), rest)
              | inr miss ↦ rw (e, miss) rest
            ]
      ]
    where
      hit_both :
          (linked : Text) (p : ProposalRecord)
          → (text_eq p.tenant_id tenant && any (text_eq linked) (item ∷ [])) ≡ true
          → (p.tenant_id ≡ tenant) × (linked ≡ item)
      hit_both linked p h = both_equal p.tenant_id tenant linked item (ground arith)

  -- What holds of all links holds of all rows that have one.
  module _ (Q : LinkedProposal → Type 0) (R : ProposalRecord → Type 0)
      (other : (p : ProposalRecord) → (p.tenant_id ≢ tenant) ⊎ (p.review_item_id ≢ some item) → R p)
      (same : (p : ProposalRecord) (l : LinkedProposal)
        → l.status ≡ p.status
        → l.review_item_id ≡ item
        → Q l
        → R p) where
    unlinked :
        (p : ProposalRecord) (linked : Text)
        → p.review_item_id ≡ some linked
        → (text_eq p.tenant_id tenant && any (text_eq linked) (item ∷ [])) ≡ false
        → R p
    unlinked p linked e h =
        other p (elim (one_differs p.tenant_id tenant linked item (ground arith)) [
          | inl foreign ↦ inl foreign
          | inr elsewhere ↦ inr (λ e'. elsewhere (some-injective linked item (sym e ∙ e')))
        ])

    links_of-back : (ps : List ProposalRecord) → All Q (links_of tenant (item ∷ []) ps) → All R ps
    unfolding links_of
    links_of-back [] h = tt
    links_of-back (p ∷ ps) h = elim (Option-cases p.review_item_id) [
      | inl no_link ↦ (other p (inr (λ e. cc (no_link, e))), links_of-back ps (rw no_link at h))
      | inr (linked, e) ↦
          elim (Bool-cases (text_eq p.tenant_id tenant && any (text_eq linked) (item ∷ []))) [
            | inl hit ↦
                let (here, rest) = rw (e, hit) at h in
                (
                  same p _ refl (both_equal p.tenant_id tenant linked item (ground arith)).1 here,
                  links_of-back ps rest,
                )
            | inr miss ↦ (unlinked p linked e miss, links_of-back ps (rw (e, miss) at h))
          ]
    ]

-- The checks on the links, as they are read, on the table.
pub Fits-FitsTable :
    {P : Type 0} (decision : ItemStatus) (tenant : Text) (item : ItemRow) (w : World P)
    → Fits decision (linked_to tenant item w)
    → FitsTable decision tenant item.id w.proposals
Fits-FitsTable decision tenant item w fits = record {
  some_change = λ d.
      first_source _
        (filter_by-test (Source tenant item.id w.proposals) (λ l. text_eq l.review_item_id item.id)
          _
          (sort_by-All (Source tenant item.id w.proposals) _ _
            (links_of-Source tenant item.id w.proposals w.proposals (λ p stands. stands))))
        (fits.some_change d);
  nothing_pending = λ d.
      links_of-back tenant item.id NotPending _ (λ p away. inr away)
        (λ p l status at_item open_or_away. elim open_or_away [
          | inl decided ↦ inl (λ e. pending_no l (status ∙ e) decided)
          | inr away ↦ absurd (cc ((text_eq_iff l.review_item_id item.id).1 at_item, away))
        ])
        w.proposals
        (sort_by-back NotPending earlier (links_of tenant (item.id ∷ []) w.proposals) (
          filter_by-back (λ (l : LinkedProposal). status_eq l.status ProposalStatus.pending ≡ false)
            (λ l. text_eq l.review_item_id item.id)
            (sort_by earlier (links_of tenant (item.id ∷ []) w.proposals))
            (still_none _ (fits.nothing_pending d))));
}
  where
    earlier : LinkedProposal → LinkedProposal → Bool
    earlier a b = leb a.created_at b.created_at

    NotPending : LinkedProposal → Type 0
    NotPending l =
        (status_eq l.status ProposalStatus.pending ≡ false)
        ⊎ (text_eq l.review_item_id item.id ≡ false)

    first_source :
        (ls : List LinkedProposal)
        → All
            (λ l. Source tenant item.id w.proposals l × (text_eq l.review_item_id item.id ≡ true))
            ls
        → ls ≢ []
        → (p : ProposalRecord) × Mem p w.proposals
          × (p.tenant_id ≡ tenant)
          × (p.review_item_id ≡ some item.id)
    first_source [] h k = absurd (k refl)
    first_source (l ∷ ls) (((p, stands, own, linked), at_item), rest) k = (
      p,
      stands,
      own,
      linked ∙ ap (λ t. some t) ((text_eq_iff l.review_item_id item.id).0 at_item),
    )

    pending_no :
        (l : LinkedProposal)
        → l.status ≡ ProposalStatus.pending
        → status_eq l.status ProposalStatus.pending ≡ false
        → ⊥
    pending_no l e differs = cc ((status_eq_iff l.status ProposalStatus.pending).1 e, differs)

    still_none :
        (ls : List LinkedProposal)
        → pending_links ls ≡ []
        → All (λ l. status_eq l.status ProposalStatus.pending ≡ false) ls
    still_none ls h =
        All-map _ _ (λ l k. elim k [ inl never ↦ absurd never | inr differs ↦ differs ]) ls
          (filter_by-back (λ l. ⊥) (λ l. status_eq l.status ProposalStatus.pending) ls
            (none_left (λ l. ⊥) _ h))
