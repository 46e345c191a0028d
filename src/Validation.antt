-- ===== src/Validation.antt =====
-- The check of Finnish business IDs (src/validation/organizationRules.ts).
use ptv_mcp.Base.{
  ℕ, zero, ◌+◌, ◌-◌, ◌*◌, ◌%◌, Bool, true, false, ◌&&◌, List, [], ◌∷◌, Text, leb, nat_eq, take,
  drop, if◌then◌else◌,
}
pub mod Patterns
pub mod Domain
pub mod Errors
pub mod ServiceRules
pub mod ContactRules
pub mod ChannelRules
pub mod OrganizationRules
mod NoErrors
mod Writable
mod RuleLaws
mod Accepted
mod Times
mod Versions
mod Organizations
pub mod BusinessCode
mod Tests
mod RuleTests

-- An element of the expression `^(\d{7})-(\d)$`: `\d` or the hyphen.
pub data Atom : Type 0 where
  digit : Atom
  hyphen : Atom

-- The number that a decimal digit's code unit stands for.
abbrev pub digit_value : ℕ → ℕ
digit_value c = c - 48

unfoldable pub fits : Atom → ℕ → Bool
fits digit c = leb 48 c && leb c 57
fits hyphen c = nat_eq c 45

unfoldable pub fits_all : List Atom → Text → Bool
fits_all [] [] = true
fits_all [] (c ∷ s) = false
fits_all (a ∷ atoms) [] = false
fits_all (a ∷ atoms) (c ∷ s) = fits a c && fits_all atoms s

abbrev pub business_code : List Atom
business_code = digit ∷ digit ∷ digit ∷ digit ∷ digit ∷ digit ∷ digit ∷ hyphen ∷ digit ∷ []

abbrev pub weights : List ℕ
weights = 7 ∷ 9 ∷ 10 ∷ 5 ∷ 8 ∷ 4 ∷ 2 ∷ []

-- `WEIGHTS.reduce((total, weight, i) => total + weight * Number(digits[i]), 0)`; a matched group has
-- a digit for every weight.
unfoldable pub weighted_sum : List ℕ → Text → ℕ → ℕ
weighted_sum [] digits total = total
weighted_sum (w ∷ ws) [] total = total
weighted_sum (w ∷ ws) (c ∷ digits) total = weighted_sum ws digits (total + w * digit_value c)

-- `Number(match[2])`, of the group's one digit.
unfoldable pub check_digit : Text → ℕ
check_digit [] = 0
check_digit (c ∷ _) = digit_value c

unfoldable pub has_check_digit : ℕ → ℕ → Bool
has_check_digit remainder check =
    if nat_eq remainder 1
    then false
    else nat_eq (if nat_eq remainder 0 then 0 else 11 - remainder) check

-- The first group is the first seven units, the second what follows the hyphen.
unfoldable pub is_valid_business_code : Text → Bool
is_valid_business_code code =
    if fits_all business_code code
    then has_check_digit (weighted_sum weights (take 7 code) 0 % 11) (check_digit (drop 8 code))
    else false
