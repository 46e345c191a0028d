-- ===== src/Paging/Pages.antt =====
-- All pages of a list, one after another (src/ptv/v11/pagination.ts, fetchAllPages).
use ptv_mcp.Base.{
  ◌≤◌, ℕ, zero, suc, ◌+◌, ◌-◌, ◌*◌, ◌≤◌, ◌≡◌, sym, ap, ◌∙◌, some, List, [], ◌∷◌, ◌++◌, arith, take,
  drop,
}
use native.Mathlib.Nat.{mul-le-mul_right}
use ptv_mcp.Paging.{IdNamePair, Client}
use ptv_mcp.Paging.Windows.{take-none, take-all, drop-drop, same_drop, same_take}
use ptv_mcp.Paging.Window.{Serves}
use ptv_mcp.Paging.ByIds.{later_pages, fetch_all_pages}

take-plus : {A : Type 0} (a b : ℕ) (xs : List A) → take (a + b) xs ≡ take a xs ++ take b (drop a xs)
take-plus zero b xs = same_take (0 + b) b xs (omega arith)
take-plus (suc a) b [] = same_take (suc a + b) (suc (a + b)) [] (omega arith) ∙ sym (take-none b)
take-plus (suc a) b (x ∷ xs) =
    same_take (suc a + b) (suc (a + b)) (x ∷ xs) (omega arith) ∙ ap (x ∷◌) (take-plus a b xs)

module _ (client : Client) (items : List IdNamePair) (size pages : ℕ)
    (serves : Serves client items size pages) where
  -- One page, then `left` pages.
  joined :
      (left q : ℕ)
      → take size (drop (q * size) items) ++ take (left * size) (drop ((q + 1) * size) items)
        ≡ take (suc left * size) (drop (q * size) items)
  joined left q =
      ap (λ xs. take size (drop (q * size) items) ++ take (left * size) xs)
        (same_drop ((q + 1) * size) (q * size + size) items (next q size)
          ∙ sym (drop-drop size (q * size) items))
      ∙ sym (take-plus size (left * size) (drop (q * size) items))
      ∙ same_take (size + left * size) (suc left * size) (drop (q * size) items) (more left size)
    where
      next : (q s : ℕ) → (q + 1) * s ≡ q * s + s
      next q s = omega arith

      more : (l s : ℕ) → s + l * s ≡ suc l * s
      more l s = omega arith

  later_pages-take :
      (left q : ℕ)
      → later_pages client left (q + 1) ≡ some (take (left * size) (drop (q * size) items))
  unfolding later_pages
  later_pages-take zero q = ap some (same_take 0 (0 * size) (drop (q * size) items) (omega arith))
  later_pages-take (suc left) q =
      let (p, read, _, _, holds) = serves.page q in
      rw (read, later_pages-take left (q + 1), holds) (ap some (joined left q))

  -- From a server whose page count holds the list, all of it is read, in order.
  pub fetch_all_pages-whole : fetch_all_pages client ≡ some items
  unfolding fetch_all_pages
  fetch_all_pages-whole =
      let (p, read, _, count, holds) = serves.page 0 in
      rw (read, count, later_pages-take (pages - 1) 1, holds) (ap some whole)
    where
      covered : {l a b : ℕ} → l ≤ a → a ≤ b → l ≤ b
      covered x y = omega arith

      counted : pages ≤ suc (pages - 1)
      counted = omega arith

      none_ : 0 * size ≡ 0
      none_ = omega arith

      whole :
          take size (drop (0 * size) items) ++ take ((pages - 1) * size) (drop (1 * size) items)
          ≡ items
      whole =
          joined (pages - 1) 0
          ∙ ap (take (suc (pages - 1) * size)) (same_drop (0 * size) 0 items none_)
          ∙ take-all (suc (pages - 1) * size) items
              (covered serves.enough (mul-le-mul_right size counted))
