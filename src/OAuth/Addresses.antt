-- ===== src/OAuth/Addresses.antt =====
-- `isPrivateIp` (src/mcp/oauthService.ts). Addresses come from the resolver, in ASCII, and an IPv4
-- address in decimals.
use ptv_mcp.Base.{
  ℕ, ◌+◌, ◌-◌, ◌*◌, Bool, true, ◌&&◌, ◌||◌, Option, none, some, List, [], ◌∷◌, ◌++◌, map, Text,
  text, text_eq, ltb, leb, nat_eq, if◌then◌else◌, starts_with, includes_text,
}
use ptv_mcp.Validation.Patterns.{is_digits, lower}

-- `address.split('.')`
unfoldable pub split_from : Text → Text → List Text
split_from part [] = part ∷ []
split_from part (c ∷ s) =
    let more = split_from (part ++ c ∷ []) s in
    let next = split_from [] s in if nat_eq c 46 then part ∷ next else more

unfoldable pub digits_from : ℕ → Text → ℕ
digits_from total [] = total
digits_from total (c ∷ s) = digits_from (total * 10 + (c - 48)) s

-- `Number(part)`: a number, zero for nothing, or `none` for what is not a number.
unfoldable pub number_of : Text → Option ℕ
unfolding digits_from is_digits
number_of [] = some 0
number_of (c ∷ s) = if is_digits (c ∷ s) then some (digits_from 0 (c ∷ s)) else none

unfoldable pub is_private_octets : List (Option ℕ) → Bool
is_private_octets (some a ∷ some b ∷ some c ∷ some d ∷ []) =
    ltb 255 a
    || ltb 255 b
    || ltb 255 c
    || ltb 255 d
    || nat_eq a 10
    || nat_eq a 127
    || nat_eq a 169 && nat_eq b 254
    || nat_eq a 172 && leb 16 b && leb b 31
    || nat_eq a 192 && nat_eq b 168
    || nat_eq a 0
is_private_octets _ = true

unfoldable pub is_private_v6 : Text → Bool
is_private_v6 normalized =
    text_eq normalized (text "::1")
    || starts_with (text "fc") normalized
    || starts_with (text "fd") normalized
    || starts_with (text "fe8") normalized
    || starts_with (text "fe9") normalized
    || starts_with (text "fea") normalized
    || starts_with (text "feb") normalized

unfoldable pub is_private_ip : Text → Bool
unfolding is_private_v6 split_from number_of is_private_octets
is_private_ip address =
    if includes_text (text ":") address
    then is_private_v6 (map lower address)
    else is_private_octets (map number_of (split_from [] address))
