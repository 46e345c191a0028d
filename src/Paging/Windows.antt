-- ===== src/Paging/Windows.antt =====
-- Windows of lists: what is taken, page by page, is the window of the whole.
use ptv_mcp.Base.{
  ℕ, zero, suc, ◌+◌, ◌-◌, ◌≤◌, ◌≡◌, refl, sym, ◌∙◌, ap, List, [], ◌∷◌, ◌++◌, map, length, take,
  drop, arith,
}

pub length-map_ids : {A B : Type 0} (f : A → B) (xs : List A) → length (map f xs) ≡ length xs
length-map_ids f [] = refl
length-map_ids f (x ∷ xs) = omega (arith, length-map_ids f xs)

module _ {A : Type 0} where
  pub take-none : (n : ℕ) → ◌≡◌ {A = List A} (take n []) []
  take-none zero = refl
  take-none (suc n) = refl

  drop-none : (n : ℕ) → ◌≡◌ {A = List A} (drop n []) []
  drop-none zero = refl
  drop-none (suc n) = refl

  -- The same window, its size or start written in another way.
  pub same_take : (a b : ℕ) (xs : List A) → a ≡ b → take a xs ≡ take b xs
  same_take a b xs h = ap (λ k. take k xs) h

  pub same_drop : (a b : ℕ) (xs : List A) → a ≡ b → drop a xs ≡ drop b xs
  same_drop a b xs h = ap (λ k. drop k xs) h

  pub drop-drop : (m n : ℕ) (xs : List A) → drop m (drop n xs) ≡ drop (n + m) xs
  drop-drop m zero xs = same_drop m (0 + m) xs (omega arith)
  drop-drop m (suc n) [] = drop-none m ∙ sym (drop-none (suc n + m))
  drop-drop m (suc n) (x ∷ xs) =
      drop-drop m n xs ∙ same_drop (suc (n + m)) (suc n + m) (x ∷ xs) (omega arith)

  -- The rest of a page.
  pub drop-take : (o s : ℕ) (xs : List A) → drop o (take s xs) ≡ take (s - o) (drop o xs)
  drop-take zero s xs = same_take s (s - 0) xs (omega arith)
  drop-take (suc o) zero xs = sym (same_take (0 - suc o) 0 (drop (suc o) xs) (omega arith))
  drop-take (suc o) (suc s) [] = sym (take-none (suc s - suc o))
  drop-take (suc o) (suc s) (x ∷ xs) =
      drop-take o s xs ∙ same_take (s - o) (suc s - suc o) (drop o xs) (omega arith)

  -- A window is what one page holds of it, and what is missing from the pages after.
  pub take-split :
      (n m : ℕ) (xs : List A)
      → take n xs ≡ take n (take m xs) ++ take (n - length (take n (take m xs))) (drop m xs)
  take-split zero m xs = sym (same_take (0 - 0) 0 (drop m xs) (omega arith))
  take-split (suc n) zero xs = same_take (suc n) (suc n - 0) xs (omega arith)
  take-split (suc n) (suc m) [] = sym (take-none (suc n - 0))
  take-split (suc n) (suc m) (x ∷ xs) = ap (x ∷◌) (
      take-split n m xs
      ∙ ap (λ k. take n (take m xs) ++ take k (drop m xs))
          (less_one n (length (take n (take m xs)))))
    where
      less_one : (a b : ℕ) → a - b ≡ suc a - suc b
      less_one a b = omega arith

  pub take-all : (s : ℕ) (xs : List A) → length xs ≤ s → take s xs ≡ xs
  take-all zero [] h = refl
  take-all zero (x ∷ xs) h = absurd (none_fits h)
    where
      none_fits : suc (length xs) ≤ 0 → ⊥
      none_fits h = omega arith
  take-all (suc s) [] h = refl
  take-all (suc s) (x ∷ xs) h = ap (x ∷◌) (take-all s xs (omega (arith, h)))

  pub length-drop : (n : ℕ) (xs : List A) → length (drop n xs) ≡ length xs - n
  length-drop zero xs = omega arith
  length-drop (suc n) [] = omega arith
  length-drop (suc n) (x ∷ xs) = omega (arith, length-drop n xs)

  pub append-none : (xs : List A) → xs ++ [] ≡ xs
  append-none [] = refl
  append-none (x ∷ xs) = ap (x ∷◌) (append-none xs)

  pub append-append : (xs ys zs : List A) → (xs ++ ys) ++ zs ≡ xs ++ (ys ++ zs)
  append-append [] ys zs = refl
  append-append (x ∷ xs) ys zs = ap (x ∷◌) (append-append xs ys zs)

  -- Nothing is left behind the end.
  pub drop-all : (n : ℕ) (xs : List A) → length xs ≤ n → drop n xs ≡ []
  drop-all n [] h = drop-none n
  drop-all zero (x ∷ xs) h = absurd (none_fits h)
    where
      none_fits : suc (length xs) ≤ 0 → ⊥
      none_fits h = omega arith
  drop-all (suc n) (x ∷ xs) h = drop-all n xs (omega (arith, h))

pub map-append :
    {A B : Type 0} (f : A → B) (xs ys : List A) → map f (xs ++ ys) ≡ map f xs ++ map f ys
map-append f [] ys = refl
map-append f (x ∷ xs) ys = ap (f x ∷◌) (map-append f xs ys)
