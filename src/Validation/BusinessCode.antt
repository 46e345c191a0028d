-- ===== src/Validation/BusinessCode.antt =====
-- What the check digit of a business ID guarantees (src/validation/organizationRules.ts,
-- isValidBusinessCode).
use ptv_mcp.Base.{
  ℕ, ◌+◌, ◌*◌, ◌%◌, ◌<◌, ◌≡◌, ◌≢◌, ◌↔◌, true, false, List, [], ◌∷◌, ◌++◌, Text, take, drop, arith,
  &&-true, Bool-cases, inl, inr, ◌∙◌, sym,
}
use ptv_mcp.Validation.{
  Atom, digit, hyphen, digit_value, fits, fits_all, business_code, weights, weighted_sum,
  check_digit, has_check_digit, is_valid_business_code,
}

-- The weights of a whole code: none for the hyphen, one for the check digit.
abbrev pub code_weights : List ℕ
code_weights = 7 ∷ 9 ∷ 10 ∷ 5 ∷ 8 ∷ 4 ∷ 2 ∷ 0 ∷ 1 ∷ []

check_of :
    (sum check : ℕ)
    → check < 10
    → (has_check_digit (sum % 11) check ≡ true) ↔ ((sum + check) % 11 ≡ 0)
unfolding has_check_digit
check_of sum check h = ground arith

digit_value_bound : (c : ℕ) → fits digit c ≡ true → digit_value c < 10
unfolding fits
digit_value_bound c h = ground arith

digit_value_injective :
    (c d : ℕ) → fits digit c ≡ true → fits digit d ≡ true → digit_value c ≡ digit_value d → c ≡ d
unfolding fits
digit_value_injective c d h k e = ground arith

-- A place of the expression with a weight that tells its characters apart.
abbrev Strong : Atom → ℕ → Type 0
Strong a w =
    (s c d : ℕ)
    → fits a c ≡ true
    → fits a d ≡ true
    → (s + w * digit_value c) % 11 ≡ (s + w * digit_value d) % 11
    → c ≡ d

digit-Strong :
    (w : ℕ)
    → ((s a b : ℕ) → a < 10 → b < 10 → (s + w * a) % 11 ≡ (s + w * b) % 11 → a ≡ b)
    → Strong digit w
digit-Strong w apart s c d h k e =
    digit_value_injective c d h k (apart s _ _ (digit_value_bound c h) (digit_value_bound d k) e)

hyphen-Strong : Strong hyphen 0
unfolding fits
hyphen-Strong s c d h k e = ground arith

-- Every place of the expression has a weight that tells its characters apart.
AllStrong : List Atom → List ℕ → Type 0
AllStrong [] ws = Unit
AllStrong (a ∷ atoms) [] = ⊥
AllStrong (a ∷ atoms) (w ∷ ws) = Strong a w × AllStrong atoms ws

business_code-AllStrong : AllStrong business_code code_weights
unfolding AllStrong
business_code-AllStrong = (
  digit-Strong 7 (λ s a b h k e. omega arith),
  (
    digit-Strong 9 (λ s a b h k e. omega arith),
    (
      digit-Strong 10 (λ s a b h k e. omega arith),
      (
        digit-Strong 5 (λ s a b h k e. omega arith),
        (
          digit-Strong 8 (λ s a b h k e. omega arith),
          (
            digit-Strong 4 (λ s a b h k e. omega arith),
            (
              digit-Strong 2 (λ s a b h k e. omega arith),
              (hyphen-Strong, (digit-Strong 1 (λ s a b h k e. omega arith), tt)),
            ),
          ),
        ),
      ),
    ),
  ),
)

weighted_sum_total :
    (ws : List ℕ) (s : Text) (total : ℕ) → weighted_sum ws s total ≡ total + weighted_sum ws s 0
unfolding weighted_sum
weighted_sum_total [] s total = omega arith
weighted_sum_total (w ∷ ws) [] total = omega arith
weighted_sum_total (w ∷ ws) (c ∷ s) total =
    regroup total _ _ _ _ (weighted_sum_total ws s (total + w * digit_value c))
      (weighted_sum_total ws s (0 + w * digit_value c))
  where
    regroup : (t x p q r : ℕ) → p ≡ t + x + r → q ≡ 0 + x + r → p ≡ t + q
    regroup t x p q r h k = omega arith

same_place :
    (atoms : List Atom) (ws : List ℕ)
    → AllStrong atoms ws
    → (xs ys : Text) (c d total : ℕ) → fits_all atoms (xs ++ c ∷ ys) ≡ true
    → fits_all atoms (xs ++ d ∷ ys) ≡ true
    → weighted_sum ws (xs ++ c ∷ ys) total % 11 ≡ weighted_sum ws (xs ++ d ∷ ys) total % 11
    → c ≡ d
unfolding AllStrong fits_all weighted_sum
same_place [] ws strong [] ys c d total h k e = cc
same_place [] ws strong (x ∷ xs) ys c d total h k e = cc
same_place (a ∷ atoms) [] strong xs ys c d total h k e = elim strong [ ]
same_place (a ∷ atoms) (w ∷ ws) (strong, _) [] ys c d total h k e =
    strong (total + weighted_sum ws ys 0) c d (&&-true (fits a c) (fits_all atoms ys) h).0
      (&&-true (fits a d) (fits_all atoms ys) k).0
      (regroup total _ _ _ _ _ (weighted_sum_total ws ys _) (weighted_sum_total ws ys _) e)
  where
    regroup :
        (t x y p q r : ℕ)
        → p ≡ t + x + r
        → q ≡ t + y + r
        → p % 11 ≡ q % 11
        → (t + r + x) % 11 ≡ (t + r + y) % 11
    regroup t x y p q r u v e = omega arith
same_place (a ∷ atoms) (w ∷ ws) (_, strong) (x ∷ xs) ys c d total h k e =
    same_place atoms ws strong xs ys c d _ (&&-true (fits a x) (fits_all atoms (xs ++ c ∷ ys)) h).1
      (&&-true (fits a x) (fits_all atoms (xs ++ d ∷ ys)) k).1 e

-- The nine units of a code.
check_digits :
    (code : Text)
    → fits_all business_code code ≡ true
    → (check_digit (drop 8 code) < 10)
      × (weighted_sum code_weights code 0
          ≡ weighted_sum weights (take 7 code) 0 + check_digit (drop 8 code))
unfolding fits_all weighted_sum check_digit
check_digits [] fit = ground arith
check_digits (a ∷ []) fit = ground arith
check_digits (a ∷ b ∷ []) fit = ground arith
check_digits (a ∷ b ∷ c ∷ []) fit = ground arith
check_digits (a ∷ b ∷ c ∷ d ∷ []) fit = ground arith
check_digits (a ∷ b ∷ c ∷ d ∷ e ∷ []) fit = ground arith
check_digits (a ∷ b ∷ c ∷ d ∷ e ∷ f ∷ []) fit = ground arith
check_digits (a ∷ b ∷ c ∷ d ∷ e ∷ f ∷ g ∷ []) fit = ground arith
check_digits (a ∷ b ∷ c ∷ d ∷ e ∷ f ∷ g ∷ dash ∷ []) fit = ground arith
check_digits (a ∷ b ∷ c ∷ d ∷ e ∷ f ∷ g ∷ dash ∷ i ∷ []) fit =
    (digit_value_bound i (ground arith), omega arith)
check_digits (a ∷ b ∷ c ∷ d ∷ e ∷ f ∷ g ∷ dash ∷ i ∷ j ∷ s) fit = ground arith

-- A business ID is accepted exactly when it is seven digits, a hyphen and a digit, and the sum of
-- its digits weighted 7, 9, 10, 5, 8, 4, 2 and, the check digit, 1 is a multiple of 11.
pub is_valid_business_code_iff :
    (code : Text)
    → (is_valid_business_code code ≡ true)
      ↔ ((fits_all business_code code ≡ true) × (weighted_sum code_weights code 0 % 11 ≡ 0))
unfolding is_valid_business_code
is_valid_business_code_iff code = elim (Bool-cases (fits_all business_code code)) [
  | inl h ↦ rw h (valid h)
  | inr miss ↦ rw miss (ground arith)
]
  where
    valid :
        fits_all business_code code ≡ true
        → (has_check_digit (weighted_sum weights (take 7 code) 0 % 11) (check_digit (drop 8 code))
            ≡ true)
          ↔ ((true ≡ true) × (weighted_sum code_weights code 0 % 11 ≡ 0))
    valid h = rw ((check_digits code h).1) (
        ground (
          arith,
          check_of (weighted_sum weights (take 7 code) 0) (check_digit (drop 8 code))
              (check_digits code h).0,
        ))

is_valid_business_code_unique :
    (xs ys : Text) (c d : ℕ)
    → is_valid_business_code (xs ++ c ∷ ys) ≡ true
    → is_valid_business_code (xs ++ d ∷ ys) ≡ true
    → c ≡ d
is_valid_business_code_unique xs ys c d h k =
    same_place business_code code_weights business_code-AllStrong xs ys c d 0 first.0 second.0
      (first.1 ∙ sym second.1)
  where
    first :
        (fits_all business_code (xs ++ c ∷ ys) ≡ true)
        × (weighted_sum code_weights (xs ++ c ∷ ys) 0 % 11 ≡ 0)
    first = (is_valid_business_code_iff (xs ++ c ∷ ys)).0 h

    second :
        (fits_all business_code (xs ++ d ∷ ys) ≡ true)
        × (weighted_sum code_weights (xs ++ d ∷ ys) 0 % 11 ≡ 0)
    second = (is_valid_business_code_iff (xs ++ d ∷ ys)).0 k

-- An accepted business ID with any one of its characters replaced by a different one is refused.
pub is_valid_business_code_typo :
    (xs ys : Text) (c d : ℕ)
    → is_valid_business_code (xs ++ c ∷ ys) ≡ true
    → c ≢ d
    → is_valid_business_code (xs ++ d ∷ ys) ≡ false
is_valid_business_code_typo xs ys c d h apart =
    elim (Bool-cases (is_valid_business_code (xs ++ d ∷ ys))) [
      | inl k ↦ elim (apart (is_valid_business_code_unique xs ys c d h k)) [ ]
      | inr k ↦ k
    ]
