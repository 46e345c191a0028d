-- ===== src/Reviews/Progress.antt =====
-- The counts of a campaign (src/reviews/reviewService.ts, progress).
use ptv_mcp.Base.{
  ℕ, ◌+◌, ◌≤◌, ◌≡◌, ap, subst, List, [], ◌∷◌, Text, length, length-filter_by, filter_by, arith,
  if◌then◌else◌, Bool,
}
use ptv_mcp.World.{
  ItemStatus, confirmed, changes_proposed, item_status_eq, ItemRow, World, Platform, ok,
}
use ptv_mcp.World.Keeps.{ok-injective}
use ptv_mcp.Reviews.Store.{CampaignProgress, is_item_of, is_none}
use ptv_mcp.Reviews.ItemStore.{progress_of, progress}

-- Every item is open, confirmed or sent on with changes, and counted once.
abbrev pub AddsUp : CampaignProgress → Type 0
AddsUp p = (p.total ≡ p.open_ + p.confirmed + p.changes_proposed) × (p.unassigned ≤ p.total)

-- One more item counts once among the three.
one_status :
    (s : ItemStatus) (a b c n : ℕ)
    → n ≡ a + b + c
    → n + 1
      ≡ (if item_status_eq s ItemStatus.open_ then a + 1 else a)
        + (if item_status_eq s confirmed then b + 1 else b)
        + (if item_status_eq s changes_proposed then c + 1 else c)
unfolding item_status_eq
one_status s a b c n h = ground arith

length-filter_by-cons :
    {A : Type 0} (p : A → Bool) (x : A) (xs : List A)
    → length (filter_by p (x ∷ xs))
      ≡ (if p x then length (filter_by p xs) + 1 else length (filter_by p xs))
length-filter_by-cons p x xs = ground arith

total-progress_of :
    (items : List ItemRow)
    → (progress_of items).total
      ≡ (progress_of items).open_
        + (progress_of items).confirmed
        + (progress_of items).changes_proposed
total-progress_of [] = omega arith
total-progress_of (i ∷ items) =
    rw
      (
        length-filter_by-cons (λ x. item_status_eq x.status ItemStatus.open_) i items,
        length-filter_by-cons (λ x. item_status_eq x.status confirmed) i items,
        length-filter_by-cons (λ x. item_status_eq x.status changes_proposed) i items,
      )
      (omega (arith, one_status i.status _ _ _ _ (total-progress_of items)))

module _ {P : Type 0} ⦃platform : Platform⦄ where
  -- The counts of open, confirmed and changes_proposed items of a campaign add up to its total,
  -- and no more items than that are unassigned.
  pub progress-AddsUp :
      (tenant campaign : Text) (w u : World P) (p : CampaignProgress)
      → progress tenant campaign w ≡ (ok p, u)
      → AddsUp p
  unfolding progress
  progress-AddsUp tenant campaign w u p h =
      let items = filter_by (is_item_of tenant campaign) w.items in
      subst AddsUp (ok-injective (progress_of items) p (ap (λ x. x.0) h))
        (total-progress_of items, length-filter_by (λ i. is_none i.assignee_user_id) items)
