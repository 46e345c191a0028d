-- ===== src/OAuth/Decimals.antt =====
-- Addresses in decimals, as isPrivateIp splits and reads them (src/mcp/oauthService.ts).
use ptv_mcp.Base.{
  ℕ, ◌+◌, ◌-◌, ◌*◌, ◌≤◌, ◌≡◌, refl, sym, ap, ◌∙◌, subst, inl, inr, true, some, List, [], ◌∷◌, ◌++◌,
  map, all, arith, Text, Bool-cases, nat_eq,
}
use ptv_mcp.Validation.Patterns.{is_digit, is_digits}
use ptv_mcp.OAuth.Addresses.{split_from, digits_from, number_of}

-- A text of decimal digits and the number that it writes; no digits are zero.
pub data Writes : Text → ℕ → Type 0 where
  nothing : Writes [] 0
  one_more :
      (s : Text) (n c : ℕ) → Writes s n → 48 ≤ c → c ≤ 57 → Writes (s ++ c ∷ []) (n * 10 + (c - 48))

append-none : {A : Type 0} (xs : List A) → xs ++ [] ≡ xs
append-none [] = refl
append-none (x ∷ xs) = ap (x ∷◌) (append-none xs)

append-append : {A : Type 0} (xs ys zs : List A) → (xs ++ ys) ++ zs ≡ xs ++ (ys ++ zs)
append-append [] ys zs = refl
append-append (x ∷ xs) ys zs = ap (x ∷◌) (append-append xs ys zs)

digits_from-Writes :
    (before s : Text) (n : ℕ)
    → Writes before n
    → all is_digit s ≡ true
    → Writes (before ++ s) (digits_from n s)
unfolding digits_from
digits_from-Writes before [] n read h = subst (λ t. Writes t n) (sym (append-none before)) read
digits_from-Writes before (c ∷ s) n read h =
    subst (λ t. Writes t (digits_from (n * 10 + (c - 48)) s)) (append-append before (c ∷ []) s)
      (digits_from-Writes (before ++ c ∷ []) s (n * 10 + (c - 48))
        (one_more before n c read (ground arith) (ground arith)) (ground arith))

number_of-Writes : (s : Text) (n : ℕ) → number_of s ≡ some n → Writes s n
unfolding number_of is_digits
number_of-Writes [] n h = let same : 0 ≡ n = cc h in subst (Writes []) same nothing
number_of-Writes (c ∷ s) n h = elim (Bool-cases (all is_digit (c ∷ s))) [
  | inl digits ↦
      let same : digits_from 0 (c ∷ s) ≡ n = cc (rw digits at h) in
      subst (Writes (c ∷ s)) same (digits_from-Writes [] (c ∷ s) 0 nothing digits)
  | inr other ↦ absurd (cc (rw other at h))
]

-- The parts with a dot in front of each.
abbrev dotted : List Text → Text
dotted [] = []
dotted (part ∷ parts) = 46 ∷ part ++ dotted parts

split_from-dotted : (part s : Text) → dotted (split_from part s) ≡ 46 ∷ part ++ s
unfolding split_from
split_from-dotted part [] = refl
split_from-dotted part (c ∷ s) = elim (Bool-cases (nat_eq c 46)) [
  | inl dot ↦ let same : c ≡ 46 = ground arith in rw dot (rw (split_from-dotted [] s, same) refl)
  | inr other ↦
      rw other (split_from-dotted (part ++ c ∷ []) s ∙ ap (46 ∷◌) (append-append part (c ∷ []) s))
]

-- Four numbers in decimals, with dots between them.
pub record FourNumbers (address : Text) (a b c d : ℕ) : Type 0 where
  pub a_text : Text
  pub b_text : Text
  pub c_text : Text
  pub d_text : Text
  pub written : address ≡ a_text ++ (46 ∷ (b_text ++ (46 ∷ (c_text ++ (46 ∷ d_text)))))
  pub reads : Writes a_text a × Writes b_text b × Writes c_text c × Writes d_text d

-- An address whose parts are read as four numbers is written so.
pub parts-FourNumbers :
    (address : Text) (a b c d : ℕ)
    → map number_of (split_from [] address) ≡ some a ∷ some b ∷ some c ∷ some d ∷ []
    → FourNumbers address a b c d
parts-FourNumbers address a b c d h =
    by_parts (split_from [] address) (split_from-dotted [] address) h
  where
    by_parts :
        (parts : List Text)
        → dotted parts ≡ 46 ∷ address
        → map number_of parts ≡ some a ∷ some b ∷ some c ∷ some d ∷ []
        → FourNumbers address a b c d
    by_parts (s ∷ t ∷ u ∷ v ∷ []) joined h =
        let whole : 46 ∷ (s ++ (46 ∷ (t ++ (46 ∷ (u ++ (46 ∷ (v ++ []))))))) ≡ 46 ∷ address =
          joined in
        let e : s ++ (46 ∷ (t ++ (46 ∷ (u ++ (46 ∷ (v ++ [])))))) ≡ address = cc whole in
        record {
          a_text = s;
          b_text = t;
          c_text = u;
          d_text = v;
          written = sym e ∙ ap (λ x. s ++ (46 ∷ (t ++ (46 ∷ (u ++ (46 ∷ x)))))) (append-none v);
          reads = (
            number_of-Writes s a (cc h),
            number_of-Writes t b (cc h),
            number_of-Writes u c (cc h),
            number_of-Writes v d (cc h),
          );
        }
    by_parts [] joined h = absurd (cc h)
    by_parts (_ ∷ []) joined h = absurd (cc h)
    by_parts (_ ∷ _ ∷ []) joined h = absurd (cc h)
    by_parts (_ ∷ _ ∷ _ ∷ []) joined h = absurd (cc h)
    by_parts (_ ∷ _ ∷ _ ∷ _ ∷ _ ∷ _) joined h = absurd (cc h)
