-- ===== src/OAuth/Mapped.antt =====
-- IPv4 addresses in IPv6 form (src/mcp/oauthService.ts, isPrivateIp).
use ptv_mcp.Base.{◌≡◌, refl, false, ◌++◌, Text, text, text_eq, starts_with, includes_text}
use ptv_mcp.OAuth.Addresses.{is_private_v6, is_private_ip}

pub mapped_is_public : (s : Text) → is_private_ip (text "::ffff:" ++ s) ≡ false
unfolding is_private_ip is_private_v6 text_eq includes_text starts_with
mapped_is_public s = refl
