-- ===== src/Paging/Window.antt =====
-- A window read page by page is the window of the whole list (src/ptv/v11/pagination.ts,
-- fetchIdWindow).
use ptv_mcp.Base.{
  ℕ, zero, suc, ◌+◌, ◌-◌, ◌*◌, ◌/◌, ◌≤◌, ◌≡◌, refl, sym, ◌∙◌, ap, ◌⊎◌, inl, inr, true, false, List,
  [], ◌++◌, some, Text, length, length-append, take, drop, ltb, leb, leb→le, nat_eq, arith,
  Bool-cases,
}
use native.Mathlib.Nat.{mod-lt, div-add-mod, mul-le-mul_right}
use ptv_mcp.Paging.{
  IdNamePair, PagedList, Client, IdWindow, items_of, ids_of, from_page, after_page, window_loop,
  window_from, fetch_id_window,
}
use ptv_mcp.Paging.Windows.{
  length-map_ids, same_drop, append-none, append-append, map-append, drop-drop, drop-take,
  take-split, take-all, length-drop,
}

-- A server that answers the list `items` in pages of `size` items, at least `pages` of which hold it.
pub record Serves (client : Client) (items : List IdNamePair) (size pages : ℕ) : Type 0 where
  pub positive : 1 ≤ size
  pub enough : length items ≤ pages * size
  pub page :
      (q : ℕ)
      → (p : PagedList) × (client (q + 1) ≡ some p)
        × (p.page_size ≡ size)
        × (p.page_count ≡ pages)
        × (items_of p ≡ take size (drop (q * size) items))

-- The fetch succeeds, with the ids of that window of the whole list.
abbrev pub ReadsWindow : Client → List IdNamePair → ℕ → ℕ → Type 0
ReadsWindow client items start count =
    (w : IdWindow) × (fetch_id_window client start count ≡ some w)
    × (w.ids ≡ ids_of (take count (drop start items)))

mul_next : (q s : ℕ) → (q + 1) * s ≡ q * s + s
mul_next q s = omega arith

module _ (client : Client) (items : List IdNamePair) (size pages count : ℕ)
    (serves : Serves client items size pages) where
  -- What the loop still adds from page `q + 1` on.
  abbrev rest_of : ℕ → ℕ → List Text → List Text
  rest_of q offset ids = ids_of (take (count - length ids) (drop (q * size + offset) items))

  last_page :
      (q offset : ℕ) (ids : List Text) (p : PagedList)
      → items_of p ≡ take size (drop (q * size) items)
      → pages ≤ q + 1
      → from_page count offset p ids ≡ ids ++ rest_of q offset ids
  last_page q offset ids p held h =
      let short : length (drop (q * size) items) ≤ size =
        fits (q * size) (length-drop (q * size) items) (mul-le-mul_right size h) (mul_next q size)
          serves.enough in
      let whole = held ∙ take-all size (drop (q * size) items) short in
      ap (λ xs. ids ++ ids_of (take (count - length ids) (drop offset xs))) whole
      ∙ ap (λ xs. ids ++ ids_of (take (count - length ids) xs)) (drop-drop offset (q * size) items)
    where
      fits : {d l b c s : ℕ} (a : ℕ) → d ≡ l - a → b ≤ c → c ≡ a + s → l ≤ b → d ≤ s
      fits a x y z t = omega arith

  next_page :
      (q offset : ℕ) (ids : List Text) (p : PagedList)
      → offset ≤ size
      → items_of p ≡ take size (drop (q * size) items)
      → from_page count offset p ids ++ rest_of (q + 1) 0 (from_page count offset p ids)
        ≡ ids ++ rest_of q offset ids
  next_page q offset ids p within held =
      let k = count - length ids in
      let window = drop (q * size + offset) items in
      let slice = take k (take (size - offset) window) in
      let on_page : take k (drop offset (items_of p)) ≡ slice =
        ap (λ xs. take k (drop offset xs)) held
        ∙ ap (take k) (drop-take offset size (drop (q * size) items))
        ∙ ap (λ xs. take k (take (size - offset) xs)) (drop-drop offset (q * size) items) in
      let read : from_page count offset p ids ≡ ids ++ ids_of slice =
        ap (λ xs. ids ++ ids_of xs) on_page in
      let behind : drop ((q + 1) * size + 0) items ≡ drop (size - offset) window =
        same_drop ((q + 1) * size + 0) (q * size + offset + (size - offset)) items
          (next_start (q * size) (mul_next q size) within)
        ∙ sym (drop-drop (size - offset) (q * size + offset) items) in
      let left : count - length (ids ++ ids_of slice) ≡ k - length slice =
        missing count (length ids) (length-append ids (ids_of slice))
          (length-map_ids (λ (i : IdNamePair). i.id) slice) in
      ap (λ xs. xs ++ rest_of (q + 1) 0 xs) read
      ∙ ap (λ xs. (ids ++ ids_of slice) ++ ids_of (take (count - length (ids ++ ids_of slice)) xs))
          behind
      ∙ ap (λ n. (ids ++ ids_of slice) ++ ids_of (take n (drop (size - offset) window))) left
      ∙ append-append ids (ids_of slice) _
      ∙ ap (λ xs. ids ++ xs) (sym (map-append (λ (i : IdNamePair). i.id) slice _))
      ∙ ap (λ xs. ids ++ ids_of xs) (sym (take-split k (size - offset) window))
    where
      next_start : {a s o : ℕ} (b : ℕ) → a ≡ b + s → o ≤ s → a + 0 ≡ b + o + (s - o)
      next_start b x y = omega arith

      missing : {a c d : ℕ} (n b : ℕ) → a ≡ b + c → c ≡ d → n - a ≡ n - b - d
      missing n b x y = omega arith

  -- The loop from page `q + 1` on reads what is left of the window, in `fuel` pages at most.
  window_loop-reads :
      (fuel q offset : ℕ) (ids : List Text)
      → offset ≤ size
      → 1 ≤ fuel
      → pages ≤ q + fuel
      → window_loop client count fuel (q + 1) offset ids ≡ some (ids ++ rest_of q offset ids)
  unfolding window_loop after_page
  window_loop-reads zero q offset ids within some_fuel fuelled = absurd (no_fuel some_fuel)
    where
      no_fuel : 1 ≤ 0 → ⊥
      no_fuel h = omega arith
  window_loop-reads (suc fuel) q offset ids within some_fuel fuelled =
      elim (Bool-cases (ltb (length ids) count)) [
        | inr full ↦ rw full (
            ap some (
              sym (append-none ids)
              ∙ ap (λ n. ids ++ ids_of (take n (drop (q * size + offset) items)))
                  (sym (none_missing full))))
        | inl more ↦
            let (p, answers, sized, counted, held) = serves.page q in
            rw (more, answers)
              (by_page p counted held
                (λ later.
                  window_loop-reads fuel (q + 1) 0 (from_page count offset p ids)
                    (omega (arith, serves.positive)) (more_fuel p.page_count counted later fuelled)
                    (omega (arith, fuelled)))
                (Bool-cases (leb p.page_count (q + 1))))
      ]
    where
      more_fuel : (n : ℕ) → n ≡ pages → leb n (q + 1) ≡ false → pages ≤ q + suc fuel → 1 ≤ fuel
      more_fuel n e later h = ground arith

      none_missing : ltb (length ids) count ≡ false → count - length ids ≡ 0
      none_missing full = ground arith

      by_page :
          (p : PagedList)
          → p.page_count ≡ pages
          → items_of p ≡ take size (drop (q * size) items)
          → (leb p.page_count (q + 1) ≡ false
              → window_loop client count fuel (q + 1 + 1) 0 (from_page count offset p ids)
                ≡ some (
                    from_page count offset p ids
                    ++ rest_of (q + 1) 0 (from_page count offset p ids)))
          → (leb p.page_count (q + 1) ≡ true) ⊎ (leb p.page_count (q + 1) ≡ false)
          → after_page
              (window_loop client count fuel (q + 1 + 1) 0)
              count
              (q + 1)
              offset
              ids
              (some p)
            ≡ some (ids ++ rest_of q offset ids)
      by_page p counted held onward (inl last) =
          rw last (ap some (last_page q offset ids p held (rw (← counted) (leb→le _ _ last))))
      by_page p counted held onward (inr later) =
          rw later (onward later ∙ ap some (next_page q offset ids p within held))

  -- The place of `start` on its page.
  on_page :
      (start s : ℕ)
      → 1 ≤ s
      → (start - start / s * s ≤ s) × (start / s * s + (start - start / s * s) ≡ start)
  on_page start s positive =
      let below = mod-lt start positive in
      let parts = div-add-mod start s in omega (arith, below, parts)

  window_from-reads :
      (start : ℕ) (p : PagedList)
      → p.page_size ≡ size
      → p.page_count ≡ pages
      → (w : IdWindow) × (window_from client start count p ≡ some w)
        × (w.ids ≡ ids_of (take count (drop start items)))
  unfolding window_from
  window_from-reads start p sized counted =
      let (within, at_start) = on_page start size serves.positive in
      let looped =
        window_loop-reads (suc p.page_count) (start / size) (start - start / size * size) [] within
          (omega arith) (omega (arith, counted)) in
      (
        record {
          ids = rest_of (start / size) (start - start / size * size) [];
          total_count_estimate = p.page_count * p.page_size;
        },
        rw (sized, looped) refl,
        ap (λ n. ids_of (take n (drop (start / size * size + (start - start / size * size)) items)))
              (less_none count)
            ∙ ap (λ n. ids_of (take count (drop n items))) at_start,
      )
    where
      less_none : (n : ℕ) → n - 0 ≡ n
      less_none n = omega arith

  -- From a server that answers a list in pages of one positive size, with a page count whose pages
  -- hold it, fetching an id window succeeds with exactly the ids of the items from the start on,
  -- as many as asked for or as there are; the loop ends within one round more than the page count.
  pub fetch_id_window-ReadsWindow : (start : ℕ) → ReadsWindow client items start count
  unfolding fetch_id_window
  fetch_id_window-ReadsWindow start = elim (Bool-cases (nat_eq count 0)) [
    | inl nothing ↦ (
      record { ids = []; total_count_estimate = 0 },
      rw nothing refl,
      sym (ap (λ n. ids_of (take n (drop start items))) (is_zero nothing)),
    )
    | inr some_wanted ↦
        let (p, answers, sized, counted, held) = serves.page 0 in
        let (w, read, ids) = window_from-reads start p sized counted in
        (w, rw (some_wanted, answers) read, ids)
  ]
    where
      is_zero : nat_eq count 0 ≡ true → count ≡ 0
      is_zero h = ground arith
