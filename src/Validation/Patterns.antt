-- ===== src/Validation/Patterns.antt =====
-- The regular expressions and string tests of the rules (src/validation/channelRules.ts and
-- src/validation/changeValidator.ts), as functions of UTF-16 code units.
use ptv_mcp.Base.{
  ℕ, ◌+◌, Bool, true, false, not, ◌&&◌, ◌||◌, Option, none, some, List, [], ◌∷◌, ◌++◌, map, Text,
  text, ltb, leb, nat_eq, if◌then◌else◌, filter_by, all, length, is_empty, starts_with, is_space,
}
use ptv_mcp.Validation.{Atom, digit, hyphen, fits_all}

-- What follows a prefix.
unfoldable pub after_prefix : Text → Text → Option Text
after_prefix [] s = some s
after_prefix (p ∷ ps) [] = none
after_prefix (p ∷ ps) (c ∷ s) = if nat_eq p c then after_prefix ps s else none

-- `\d`
abbrev pub is_digit : ℕ → Bool
is_digit c = leb 48 c && leb c 57

-- `/^\d+$/`
unfoldable pub is_digits : Text → Bool
is_digits [] = false
is_digits (c ∷ s) = all is_digit (c ∷ s)

-- `/^http:\/\/www\.yso\.fi\/onto\/koko\/p\d+$/`
unfoldable pub is_koko_uri : Text → Bool
unfolding after_prefix is_digits
is_koko_uri uri = elim (after_prefix (text "http://www.yso.fi/onto/koko/p") uri) [
  | none ↦ false
  | some number ↦ is_digits number
]

-- The flag `i` folds the letters of ASCII only, against a pattern of ASCII.
abbrev pub lower : ℕ → ℕ
lower c = if leb 65 c && leb c 90 then c + 32 else c

-- `/^https?:\/\/<rest>/i`
unfoldable pub starts_http : Text → Text → Bool
starts_http rest url =
    starts_with (text "http://" ++ rest) (map lower url)
    || starts_with (text "https://" ++ rest) (map lower url)

-- `number.replace(/[\s-]/g, '')`
abbrev pub without_spaces : Text → Text
without_spaces = filter_by (λ c. not (is_space c || nat_eq c 45))

-- `/^\+\d{1,4}$/`
unfoldable pub is_country_prefix : Text → Bool
unfolding is_digits
is_country_prefix [] = false
is_country_prefix (c ∷ s) = nat_eq c 43 && is_digits s && leb (length s) 4

-- `/^([01]\d|2[0-3]):[0-5]\d$/`
unfoldable pub is_time : Text → Bool
is_time (a ∷ b ∷ c ∷ d ∷ e ∷ []) =
    (leb 48 a && leb a 49 && is_digit b || nat_eq a 50 && leb 48 b && leb b 51)
    && nat_eq c 58
    && leb 48 d
    && leb d 53
    && is_digit e
is_time _ = false

abbrev pub date : List Atom
date = digit ∷ digit ∷ digit ∷ digit ∷ hyphen ∷ digit ∷ digit ∷ hyphen ∷ digit ∷ digit ∷ []

-- `/^\d{4}-\d{2}-\d{2}$/`
unfoldable pub is_iso_date : Text → Bool
is_iso_date s = fits_all date s

-- `/^\d{5}$/`
unfoldable pub is_postal_code : Text → Bool
is_postal_code s = fits_all (digit ∷ digit ∷ digit ∷ digit ∷ digit ∷ []) s

-- `[^\s@]`
abbrev pub is_mail_unit : ℕ → Bool
is_mail_unit c = not (is_space c) && not (nat_eq c 64)

-- `\.[^\s@]+`, somewhere in a domain.
unfoldable pub dot_within : Text → Bool
dot_within [] = false
dot_within (c ∷ s) = nat_eq c 46 && not (is_empty s) || dot_within s

unfoldable pub is_domain : Text → Bool
unfolding dot_within
is_domain [] = false
is_domain (c ∷ s) = all is_mail_unit (c ∷ s) && dot_within s

unfoldable pub mail_from : Bool → Text → Bool
unfolding is_domain
mail_from started [] = false
mail_from started (c ∷ s) =
    let rest = mail_from true s in
    if nat_eq c 64 then started && is_domain s else is_mail_unit c && rest

-- `/^[^\s@]+@[^\s@]+\.[^\s@]+$/`
unfoldable pub is_email : Text → Bool
unfolding mail_from
is_email s = mail_from false s

-- `a < b` on strings.
unfoldable pub text_lt : Text → Text → Bool
text_lt s [] = false
text_lt [] (d ∷ t) = true
text_lt (c ∷ s) (d ∷ t) = let rest = text_lt s t in if nat_eq c d then rest else ltb c d
