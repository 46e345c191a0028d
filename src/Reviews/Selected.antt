-- ===== src/Reviews/Selected.antt =====
-- The items that assigning selects, and what it makes of the table (src/reviews/reviewCampaigns.ts,
-- assignReviewItems, and assignItems of src/reviews/reviewService.ts).
use ptv_mcp.Base.{
  ℕ, suc, ◌≡◌, refl, ◌↔◌, ◌⊎◌, inl, inr, Bool, true, false, not, ◌&&◌, ◌||◌, List, [], ◌∷◌, Option,
  none, some, Text, text_eq, text_eq_iff, arith, filter_by, length, any, Mem, update_where,
  Bool-cases,
}
use ptv_mcp.World.{TargetKind, target_kind_eq, ItemRow}
use ptv_mcp.Reviews.Store.{is_none}
use ptv_mcp.Reviews.ItemStore.{is_selected, assigned_row}
use ptv_mcp.Reviews.Manage.{named_items, absent, given_text, selection_of}

-- The items that a call names; naming none selects all.
abbrev pub IsNamed : Option (List Text) → Text → Type 0
IsNamed none id = Unit
IsNamed (some []) id = Unit
IsNamed (some (x ∷ xs)) id = Mem id (x ∷ xs)

abbrev pub IsOfKind : Option TargetKind → TargetKind → Type 0
IsOfKind none kind = Unit
IsOfKind (some k) kind = kind ≡ k

abbrev pub IsIn : Option Text → Text → Type 0
IsIn none organization = Unit
IsIn (some []) organization = Unit
IsIn (some (c ∷ o)) organization = organization ≡ c ∷ o

-- A reviewer is replaced on items that are named, or where reassigning is asked for.
abbrev pub MayTake : Option (List Text) → Bool → Option Text → Type 0
MayTake (some (x ∷ xs)) reassign reviewer = Unit
MayTake _ reassign reviewer = (reviewer ≡ none) ⊎ (reassign ≡ true)

-- The arguments of a call and the item they select.
pub record Selects (tenant campaign : Text) (item_ids : Option (List Text))
    (kind : Option TargetKind) (organization : Option Text) (reassign : Bool) (i : ItemRow)
    : Type 0 where
  pub own : (i.tenant_id ≡ tenant) × (i.campaign_id ≡ campaign)
  pub named : IsNamed item_ids i.id
  pub of_kind : IsOfKind kind i.target_kind
  pub in_organization : IsIn organization i.organization_id
  pub may_take : MayTake item_ids reassign i.assignee_user_id

-- The table before and after, and how many rows were selected: these have the new reviewer and
-- the time of the call, all others are as they were.
abbrev pub Reassigned : (ItemRow → Type 0) → Text → ℕ → ℕ → List ItemRow → List ItemRow → Type 0
Reassigned Chosen reviewer now n [] [] = n ≡ 0
Reassigned Chosen reviewer now n (i ∷ is) (j ∷ js) =
    (Chosen i
      × (j ≡ record i { assignee_user_id = some reviewer; updated_at = now })
      × (m : ℕ) × (n ≡ suc m)
      × Reassigned Chosen reviewer now m is js)
    ⊎ ((¬ Chosen i) × (j ≡ i) × Reassigned Chosen reviewer now n is js)
Reassigned _ _ _ _ _ _ = ⊥

pub update-Reassigned :
    (Chosen : ItemRow → Type 0) (chosen : ItemRow → Bool) (reviewer : Text) (now : ℕ)
    → ((i : ItemRow) → (chosen i ≡ true) ↔ Chosen i)
    → (items : List ItemRow)
    → Reassigned Chosen reviewer now
        (length (filter_by chosen items))
        items
        (update_where chosen (assigned_row reviewer now) items)
update-Reassigned Chosen chosen reviewer now same [] = refl
update-Reassigned Chosen chosen reviewer now same (i ∷ items) =
    let rest = update-Reassigned Chosen chosen reviewer now same items in
    elim (Bool-cases (chosen i)) [
      | inl hit ↦ rw hit (inl ((same i).0 hit, refl, _, refl, rest))
      | inr miss ↦ rw miss (inr ((λ c. cc ((same i).1 c, miss)), refl, rest))
    ]

any_equal : (id : Text) (ids : List Text) → (any (text_eq id) ids ≡ true) ↔ Mem id ids
any_equal id [] = ground arith
any_equal id (x ∷ ids) = ground (arith, text_eq_iff id x, any_equal id ids)

kind_eq_iff : (a b : TargetKind) → (target_kind_eq a b ≡ true) ↔ (a ≡ b)
unfolding target_kind_eq
kind_eq_iff a b = ground arith

module _ (i : ItemRow) where
  ids_iff :
      (ids : Option (List Text))
      → (elim (named_items ids) [ none ↦ true | some xs ↦ any (text_eq i.id) xs ] ≡ true)
        ↔ IsNamed ids i.id
  ids_iff none = (λ h. tt, λ h. refl)
  ids_iff (some []) = (λ h. tt, λ h. refl)
  ids_iff (some (x ∷ xs)) = any_equal i.id (x ∷ xs)

  kind_iff :
      (kind : Option TargetKind)
      → (elim kind [ none ↦ true | some k ↦ target_kind_eq i.target_kind k ] ≡ true)
        ↔ IsOfKind kind i.target_kind
  kind_iff none = (λ h. tt, λ h. refl)
  kind_iff (some k) = kind_eq_iff i.target_kind k

  organization_iff :
      (organization : Option Text)
      → (elim (given_text organization) [ none ↦ true | some o ↦ text_eq i.organization_id o ]
          ≡ true)
        ↔ IsIn organization i.organization_id
  organization_iff none = (λ h. tt, λ h. refl)
  organization_iff (some []) = (λ h. tt, λ h. refl)
  organization_iff (some (c ∷ o)) = text_eq_iff i.organization_id (c ∷ o)

free :
    (r : Bool) (o : Option Text) → ((not (not r) || is_none o) ≡ true) ↔ ((o ≡ none) ⊎ (r ≡ true))
free true o = (λ h. inr refl, λ h. refl)
free false none = (λ h. inl refl, λ h. refl)
free false (some u) = (λ h. cc h, λ h. elim h [ inl e ↦ absurd (cc e) | inr e ↦ cc e ])

free_iff :
    (ids : Option (List Text)) (reassign : Bool) (reviewer : Option Text)
    → ((not (absent (named_items ids) && not reassign) || is_none reviewer) ≡ true)
      ↔ MayTake ids reassign reviewer
free_iff (some (x ∷ xs)) reassign reviewer = (λ h. tt, λ h. refl)
free_iff none reassign reviewer = free reassign reviewer
free_iff (some []) reassign reviewer = free reassign reviewer

all_true :
    (a b c d e f : Bool)
    → (((a && b) && c && d && e && f) ≡ true)
      ↔ ((a ≡ true) × (b ≡ true) × (c ≡ true) × (d ≡ true) × (e ≡ true) × (f ≡ true))
all_true a b c d e f = ground arith

pub is_selected-Selects :
    (tenant campaign : Text) (ids : Option (List Text)) (kind : Option TargetKind)
    (organization : Option Text) (reassign : Bool) (i : ItemRow)
    → (is_selected tenant campaign (selection_of ids kind organization reassign) i ≡ true)
      ↔ Selects tenant campaign ids kind organization reassign i
is_selected-Selects tenant campaign ids kind organization reassign i =
    let parts = all_true (text_eq i.tenant_id tenant) (text_eq i.campaign_id campaign) _ _ _ _ in
    (
      λ h.
          let (t, c, n, k, o, f) = parts.0 h in
          record {
            own = ((text_eq_iff i.tenant_id tenant).0 t, (text_eq_iff i.campaign_id campaign).0 c);
            named = (ids_iff i ids).0 n;
            of_kind = (kind_iff i kind).0 k;
            in_organization = (organization_iff i organization).0 o;
            may_take = (free_iff ids reassign i.assignee_user_id).0 f;
          },
      λ s. parts.1 (
        (text_eq_iff i.tenant_id tenant).1 s.own.0,
        (text_eq_iff i.campaign_id campaign).1 s.own.1,
        (ids_iff i ids).1 s.named,
        (kind_iff i kind).1 s.of_kind,
        (organization_iff i organization).1 s.in_organization,
        (free_iff ids reassign i.assignee_user_id).1 s.may_take,
      ),
    )
