-- ===== src/OAuth/Outside.antt =====
-- The addresses that isPrivateIp lets pass, range by range (src/mcp/oauthService.ts).
use ptv_mcp.Base.{
  ℕ, ◌≤◌, ◌<◌, ◌≡◌, refl, ◌≢◌, ◌⊎◌, inl, inr, true, false, Option, some, List, [], ◌∷◌, map, arith,
  Text, text, text_eq_iff, Bool-cases, starts_with, includes_text,
}
use ptv_mcp.Validation.Patterns.{lower}
use ptv_mcp.OAuth.Decimals.{FourNumbers, parts-FourNumbers}
use ptv_mcp.OAuth.Addresses.{split_from, number_of, is_private_octets, is_private_v6, is_private_ip}

-- Outside 10/8, 127/8, 0/8, 169.254/16, 172.16/12 and 192.168/16.
pub record OutsideV4 (a b c d : ℕ) : Type 0 where
  pub bounded : (a ≤ 255) × (b ≤ 255) × (c ≤ 255) × (d ≤ 255)
  pub not_ten : a ≢ 10
  pub not_loopback : a ≢ 127
  pub not_this : a ≢ 0
  pub not_link_local : (a ≢ 169) ⊎ (b ≢ 254)
  pub not_172 : (a ≢ 172) ⊎ (b < 16) ⊎ (31 < b)
  pub not_192 : (a ≢ 192) ⊎ (b ≢ 168)

-- Not written as the loopback, nor in fc00::/7 or fe80::/10.
pub record OutsideV6 (s : Text) : Type 0 where
  pub not_loopback : s ≢ text "::1"
  pub not_unique_local : (starts_with (text "fc") s ≡ false) × (starts_with (text "fd") s ≡ false)
  pub not_link_local :
      (starts_with (text "fe8") s ≡ false)
      × (starts_with (text "fe9") s ≡ false)
      × (starts_with (text "fea") s ≡ false)
      × (starts_with (text "feb") s ≡ false)

-- An address with a colon is read as IPv6, as it is written in lower case; any other is four
-- decimal numbers.
abbrev pub IsOutside : Text → Type 0
IsOutside address =
    ((includes_text (text ":") address ≡ true) × OutsideV6 (map lower address))
    ⊎ ((a : ℕ) × (b : ℕ) × (c : ℕ) × (d : ℕ) × FourNumbers address a b c d × OutsideV4 a b c d)

abbrev OutsideOctets : List (Option ℕ) → Type 0
OutsideOctets os =
    (a : ℕ) × (b : ℕ) × (c : ℕ) × (d : ℕ) × (os ≡ some a ∷ some b ∷ some c ∷ some d ∷ [])
    × OutsideV4 a b c d

octets-Outside : (os : List (Option ℕ)) → is_private_octets os ≡ false → OutsideOctets os
unfolding is_private_octets
octets-Outside (some a ∷ some b ∷ some c ∷ some d ∷ []) h = (
  a,
  b,
  c,
  d,
  refl,
  record {
    bounded = (ground arith, ground arith, ground arith, ground arith);
    not_ten = ground arith;
    not_loopback = ground arith;
    not_this = ground arith;
    not_link_local = ground arith;
    not_172 = ground arith;
    not_192 = ground arith;
  },
)
octets-Outside _ h = absurd (cc h)

v6-Outside : (s : Text) → is_private_v6 s ≡ false → OutsideV6 s
unfolding is_private_v6
v6-Outside s h = record {
  not_loopback = ground (arith, text_eq_iff s (text "::1"));
  not_unique_local = (ground arith, ground arith);
  not_link_local = (ground arith, ground arith, ground arith, ground arith);
}

pub is_private_ip-Outside : (address : Text) → is_private_ip address ≡ false → IsOutside address
unfolding is_private_ip
is_private_ip-Outside address h = elim (Bool-cases (includes_text (text ":") address)) [
  | inl colon ↦ inl (colon, v6-Outside (map lower address) (rw colon at h))
  | inr plain ↦
      let (a, b, c, d, parts, outside) =
        octets-Outside (map number_of (split_from [] address)) (rw plain at h) in
      inr (a, b, c, d, parts-FourNumbers address a b c d parts, outside)
]
