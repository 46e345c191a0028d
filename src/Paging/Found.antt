-- ===== src/Paging/Found.antt =====
-- Batches are not seen in what they give (src/ptv/v11/pagination.ts, fetchListByIds).
use ptv_mcp.Base.{
  All-append, All-map, take, drop, ℕ, zero, suc, ◌+◌, ◌≤◌, ◌≡◌, refl, sym, ap, ◌∙◌, subst, ◌≢◌, ◌⊎◌,
  inl, inr, Bool, true, false, Option, none, some, List, [], ◌∷◌, ◌++◌, arith, Text, text_eq,
  text_eq_iff, ltb, if◌then◌else◌, Bool-cases, take, drop, length, All, All-append, All-map, Mem,
}
use ptv_mcp.Paging.{◌>>=◌}
use ptv_mcp.Paging.Windows.{drop-drop, drop-all}
use ptv_mcp.Paging.ByIds.{
  BatchAnswer, found, not_found, kept, each_found, by_id, with_batch, batches_from,
  fetch_list_by_ids,
}

All-take :
    {A : Type 0} (Q : A → Type 0) (n : ℕ) (xs : List A)
    → All Q (take n xs)
    → All Q (drop n xs)
    → All Q xs
All-take Q zero xs h k = k
All-take Q (suc n) [] h k = tt
All-take Q (suc n) (x ∷ xs) h k = (h.0, All-take Q n xs h.1 k)

ltb-false : (a b : ℕ) → ltb a b ≡ false → b ≤ a
ltb-false a b h = ground arith

module _ {T : Type 0} (id_of : T → Text) (lookup : Text → Option T) where
  -- `t` is what the server has under its id, and `ts` holds what it has under `id`.
  abbrev IsStored : T → Type 0
  IsStored t = lookup (id_of t) ≡ some t

  abbrev Covers : List T → Text → Type 0
  Covers ts id = (t : T) → lookup id ≡ some t → Mem t ts

  -- A server that answers a batch with the items that it has under the batch's ids, perhaps with others
  -- that it has, and with 404 if it has none of them.
  abbrev pub ServesBatches : (List Text → BatchAnswer T) → Type 0
  ServesBatches client =
      (batch : List Text)
      → ((ts : List T) × (client batch ≡ found ts) × All IsStored ts × All (Covers ts) batch)
        ⊎ ((client batch ≡ not_found) × All (λ id. lookup id ≡ none) batch)

  Mem-left : (t : T) (xs ys : List T) → Mem t xs → Mem t (xs ++ ys)
  Mem-left t [] ys h = absurd h
  Mem-left t (x ∷ xs) ys h = elim h [ inl e ↦ inl e | inr m ↦ inr (Mem-left t xs ys m) ]

  Mem-right : (t : T) (xs ys : List T) → Mem t ys → Mem t (xs ++ ys)
  Mem-right t [] ys h = h
  Mem-right t (x ∷ xs) ys h = inr (Mem-right t xs ys h)

  by_id-IsStored :
      (ts : List T) (id : Text) (t : T)
      → All IsStored ts
      → by_id id_of ts id ≡ some t
      → (id_of t ≡ id) × IsStored t
  by_id-IsStored [] id t h e = cc
  by_id-IsStored (x ∷ ts) id t (here, rest) e =
      later (by_id id_of ts id) refl (λ k. by_id-IsStored ts id t rest k)
    where
      later :
          (o : Option T)
          → by_id id_of ts id ≡ o
          → (by_id id_of ts id ≡ some t → (id_of t ≡ id) × IsStored t)
          → (id_of t ≡ id) × IsStored t
      later (some y) k tail = tail (k ∙ (rw k at e))
      later none k tail = elim (Bool-cases (text_eq (id_of x) id)) [
        | inl hit ↦
            let found_x : some x ≡ some t = rw (k, hit) at e in
            let same : x ≡ t = cc found_x in rw (← same) ((text_eq_iff (id_of x) id).0 hit, here)
        | inr miss ↦ let none_found : none ≡ some t = rw (k, miss) at e in cc none_found
      ]

  by_id-none :
      (ts : List T) (id : Text) (t : T) → by_id id_of ts id ≡ none → Mem t ts → id_of t ≢ id
  by_id-none [] id t e m same = absurd m
  by_id-none (x ∷ ts) id t e m same =
      later (by_id id_of ts id) refl (λ k there. by_id-none ts id t k there same)
    where
      later : (o : Option T) → by_id id_of ts id ≡ o → (by_id id_of ts id ≡ none → Mem t ts → ⊥) → ⊥
      later (some y) k rest = let some_found : some y ≡ none = rw k at e in cc some_found
      later none k rest = elim m [
        | inl head ↦
            let hit : text_eq (id_of x) id ≡ true =
              (text_eq_iff (id_of x) id).1 (ap id_of (sym head) ∙ same) in
            let some_found : some x ≡ none = rw (k, hit) at e in cc some_found
        | inr tail ↦ rest k tail
      ]

  module _ (keyed : (id : Text) (t : T) → lookup id ≡ some t → id_of t ≡ id) where
    by_id-lookup :
        (ts : List T) (id : Text) → All IsStored ts → Covers ts id → by_id id_of ts id ≡ lookup id
    by_id-lookup ts id stored covers = answer (by_id id_of ts id) refl
      where
        missing : by_id id_of ts id ≡ none → (o : Option T) → lookup id ≡ o → none ≡ o
        missing e none k = refl
        missing e (some t) k = absurd (by_id-none ts id t e (covers t k) (keyed id t k))

        answer : (o : Option T) → by_id id_of ts id ≡ o → o ≡ lookup id
        answer none e = missing e (lookup id) refl
        answer (some t) e =
            let (same, there) = by_id-IsStored ts id t stored e in sym there ∙ ap lookup same

    each_found-lookup :
        (ts : List T) (ids : List Text)
        → All IsStored ts
        → All (Covers ts) ids
        → each_found (by_id id_of ts) ids ≡ each_found lookup ids
    each_found-lookup ts [] stored covers = refl
    each_found-lookup ts (id ∷ ids) stored (here, rest) =
        ap (λ o. kept o (each_found (by_id id_of ts) ids)) (by_id-lookup ts id stored here)
        ∙ ap (kept (lookup id)) (each_found-lookup ts ids stored rest)

    module _ (client : List Text → BatchAnswer T) (lenient : Bool) (serves : ServesBatches client)
        (ids : List Text) where
      -- The loop from index `i` on gives what covers the ids left, or a 404 that is not excused.
      abbrev Gathers : Option (List T) → List Text → Type 0
      Gathers r left =
          ((r ≡ none) × (lenient ≡ false))
          ⊎ ((ts : List T) × (r ≡ some ts) × All IsStored ts × All (Covers ts) left)

      nothing_left : (left : List Text) → left ≡ [] → Gathers (some []) left
      nothing_left left e = inr ([], refl, tt, rw e tt)

      with_found :
          (ts : List T) (xs : List Text) (r : Option (List T))
          → All IsStored ts
          → All (Covers ts) (take 100 xs)
          → Gathers r (drop 100 xs)
          → Gathers (r >>= λ more. some (ts ++ more)) xs
      with_found ts xs r stored covers rest = elim rest [
        | inl (gone, strict) ↦ rw gone (inl (refl, strict))
        | inr (more, got, kept_, left) ↦ rw got (
            inr (
              ts ++ more,
              refl,
              All-append IsStored ts more stored kept_,
              All-take (Covers (ts ++ more)) 100 xs
                  (All-map (Covers ts) (Covers (ts ++ more))
                    (λ id c t e. Mem-left t ts more (c t e)) (take 100 xs) covers)
                  (All-map (Covers more) (Covers (ts ++ more))
                    (λ id c t e. Mem-right t ts more (c t e)) (drop 100 xs) left),
            ))
      ]

      with_none :
          (xs : List Text) (r : Option (List T))
          → All (λ id. lookup id ≡ none) (take 100 xs)
          → Gathers r (drop 100 xs)
          → Gathers r xs
      with_none xs r missing rest = elim rest [
        | inl h ↦ inl h
        | inr (more, got, kept_, left) ↦ inr (
          more,
          got,
          kept_,
          All-take (Covers more) 100 xs
              (All-map (λ id. lookup id ≡ none) (Covers more)
                (λ id m t e. absurd (not_both id t m e)) (take 100 xs) missing)
              left,
        )
      ]
        where
          not_both : (id : Text) (t : T) → lookup id ≡ none → lookup id ≡ some t → ⊥
          not_both id t m e = cc

      with_batch-Gathers :
          (xs : List Text) (r : Option (List T))
          → Gathers r (drop 100 xs)
          → Gathers (with_batch id_of client lenient (client (take 100 xs)) r) xs
      unfolding with_batch
      with_batch-Gathers xs r rest = elim (serves (take 100 xs)) [
        | inl (ts, answer, stored, covers) ↦ rw answer (with_found ts xs r stored covers rest)
        | inr (answer, missing) ↦ rw answer (elim (Bool-cases lenient) [
          | inl excused ↦
              let same : (if lenient then r else none) ≡ r = rw excused in
              subst (λ o. Gathers o xs) (sym same) (with_none xs r missing rest)
          | inr strict ↦ rw strict (inl (refl, refl))
        ])
      ]

      batches_from-Gathers :
          (fuel i : ℕ)
          → length ids ≤ i + fuel
          → Gathers (batches_from id_of client lenient fuel i ids) (drop i ids)
      unfolding batches_from
      batches_from-Gathers zero i h =
          let past : ltb i (length ids) ≡ false = ground arith in
          rw past (nothing_left (drop i ids) (drop-all i ids (omega (arith, h))))
      batches_from-Gathers (suc fuel) i h = elim (Bool-cases (ltb i (length ids))) [
        | inl more ↦ rw more (
            with_batch-Gathers (drop i ids) _
              (rw (drop-drop 100 i ids) (batches_from-Gathers fuel (i + 100) (omega (arith, h)))))
        | inr past ↦
            rw past (nothing_left (drop i ids) (drop-all i ids (ltb-false i (length ids) past)))
      ]

      -- The loop ends with what the server has under the ids, in their order, or with an error if a
      -- 404 is not excused.
      abbrev pub GivesEach : Type 0
      GivesEach =
          (fetch_list_by_ids id_of client lenient ids ≡ some (each_found lookup ids))
          ⊎ ((fetch_list_by_ids id_of client lenient ids ≡ none) × (lenient ≡ false))

      -- From a server that answers each batch of ids with items that it has, those asked for among
      -- them, or with 404 if it has none of the batch, fetching a list of ids ends with exactly
      -- the server's item of each id that it has, in the order of the ids, whatever the batches
      -- and the order of the answers; only where a 404 is not to count as empty may it end with an
      -- error instead. The server's item of an id has that id.
      pub fetch_list_by_ids-GivesEach : GivesEach
      unfolding fetch_list_by_ids
      fetch_list_by_ids-GivesEach = elim (batches_from-Gathers (suc (length ids)) 0 (omega arith)) [
        | inl (gone, strict) ↦ inr (rw gone, strict)
        | inr (ws, got, stored, covers) ↦
            inl (rw got (ap some (each_found-lookup ws ids stored covers)))
      ]
