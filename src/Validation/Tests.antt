-- ===== src/Validation/Tests.antt =====
-- A valid business ID, and one digit changed.
use ptv_mcp.Base.{true, false, ◌≡◌, ◌≢◌, arith, refl, Text, text, ◌↔◌, ◌%◌, ℕ}
use ptv_mcp.Validation.{
  fits, fits_all, business_code, weighted_sum, has_check_digit, check_digit, is_valid_business_code,
}
use ptv_mcp.Validation.BusinessCode.{
  code_weights, is_valid_business_code_iff, is_valid_business_code_typo,
}

abbrev sample_code : Text
sample_code = text "0201256-6"

accepted : is_valid_business_code sample_code ≡ true
unfolding is_valid_business_code fits fits_all weighted_sum has_check_digit check_digit
accepted = refl

mistyped : is_valid_business_code (text "0201266-6") ≡ false
unfolding is_valid_business_code fits fits_all weighted_sum has_check_digit check_digit
mistyped = refl

no_hyphen : is_valid_business_code (text "02012566") ≡ false
unfolding is_valid_business_code fits fits_all weighted_sum has_check_digit check_digit
no_hyphen = refl

is_valid_business_code_iff_example : (is_valid_business_code sample_code ≡ true) ↔ (
    (fits_all business_code sample_code ≡ true)
    × (weighted_sum code_weights sample_code 0 % 11 ≡ 0))
is_valid_business_code_iff_example = is_valid_business_code_iff sample_code

differs : ◌≢◌ {A = ℕ} 53 54
differs = omega arith

is_valid_business_code_typo_example : is_valid_business_code (text "0201266-6") ≡ false
is_valid_business_code_typo_example =
    is_valid_business_code_typo (text "02012") (text "6-6") 53 54 accepted differs
