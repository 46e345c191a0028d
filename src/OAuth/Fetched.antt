-- ===== src/OAuth/Fetched.antt =====
-- Which hosts the lookup of a client's document asks (src/mcp/oauthService.ts, fetchCimdMetadata).
use ptv_mcp.Base.{
  ℕ, zero, suc, ◌+◌, ◌≤◌, ◌≡◌, refl, subst, inl, inr, Bool, true, false, ◌&&◌, Option, none, some,
  List, [], ◌∷◌, arith, Text, Bool-cases, Option-cases, &&-true, any, length, All, All-map,
}
use ptv_mcp.OAuth.{Url, Response, Platform, err, invalid_cimd}
use ptv_mcp.OAuth.Addresses.{is_private_ip}
use ptv_mcp.OAuth.Outside.{IsOutside, is_private_ip-Outside}
use ptv_mcp.OAuth.Cimd.{
  is_cimd_client_id, all_public, is_public_host, Asked, asking, next_url, is_redirect, follow,
  after_redirect, answered, fetch_from, fetch_named, fetch_cimd_metadata,
}

module _ ⦃platform : Platform⦄ where
  -- A URL whose host resolved, when it was checked, to addresses outside the private ranges.
  pub record Vetted (href : Text) : Type 0 where
    pub url : Url
    pub is_url : href ≡ url.href
    pub addresses : List Text
    pub resolved : platform.lookup url.hostname ≡ some addresses
    pub some_ : 1 ≤ length addresses
    pub open_ : All IsOutside addresses

  none_of : (p : Text → Bool) (xs : List Text) → any p xs ≡ false → All (λ x. p x ≡ false) xs
  none_of p [] h = tt
  none_of p (x ∷ xs) h = (ground arith, none_of p xs (ground arith))

  public_addresses : (xs : List Text) → all_public xs ≡ true → (1 ≤ length xs) × All IsOutside xs
  unfolding all_public
  public_addresses [] h = absurd (cc h)
  public_addresses (x ∷ xs) h =
      let none_ : any is_private_ip (x ∷ xs) ≡ false = ground arith in
      (
        omega arith,
        All-map (λ a. is_private_ip a ≡ false) IsOutside is_private_ip-Outside (x ∷ xs)
            (none_of is_private_ip (x ∷ xs) none_),
      )

  vetted : (url : Url) → is_public_host url ≡ true → Vetted url.href
  unfolding is_public_host
  vetted url h = elim (Option-cases (platform.lookup url.hostname)) [
    | inl none_ ↦ absurd (no (rw (none_, is_public_host) at h))
    | inr (addresses, found) ↦
        let public = public_addresses addresses (rw (found, is_public_host) at h) in
        record {
          url = url;
          is_url = refl;
          addresses = addresses;
          resolved = found;
          some_ = public.0;
          open_ = public.1;
        }
  ]
    where
      no : false ≡ true → ⊥
      no e = absurd (cc e)

  -- Few requests, each to a vetted URL.
  abbrev pub Careful : ℕ → Asked → Type 0
  Careful n asked = All Vetted asked.1 × (length asked.1 ≤ n)

  followed :
      (n : ℕ) (rest : Url → Asked)
      → ((u : Url) → is_public_host u ≡ true → Careful n (rest u))
      → (o : Option Url) → Careful n (follow rest o)
  unfolding follow
  followed n rest careful none = (tt, omega arith)
  followed n rest careful (some next) =
      elim (Bool-cases (is_cimd_client_id next.href && is_public_host next)) [
        | inl fine ↦ rw fine (careful next (&&-true _ _ fine).1)
        | inr refused ↦ rw refused (tt, omega arith)
      ]

  answered_rounds :
      (client : Text) (left : ℕ) (rest : Url → Asked)
      → ((u : Url) → is_public_host u ≡ true → Careful left (rest u))
      → (current : Url) (o : Option Response) → Careful left (answered client left rest current o)
  unfolding answered after_redirect
  answered_rounds client left rest careful current none = (tt, omega arith)
  answered_rounds client zero rest careful current (some r) = elim (Bool-cases (is_redirect r)) [
    | inl redirect ↦ rw redirect (tt, omega arith)
    | inr final ↦ rw final (tt, omega arith)
  ]
  answered_rounds client (suc left) rest careful current (some r) =
      elim (Bool-cases (is_redirect r)) [
        | inl redirect ↦ rw redirect (followed (suc left) rest careful (next_url current r))
        | inr final ↦ rw final (tt, omega arith)
      ]

  asks :
      (asked : Asked) (current : Url)
      → is_public_host current ≡ true
      → (n : ℕ) → Careful n asked
      → Careful (n + 1) (asking current.href asked)
  asks asked current h n (all_, few) = ((vetted current h, all_), omega arith)

  loop_asks :
      (client : Text) (left : ℕ) (current : Url)
      → is_public_host current ≡ true
      → Careful (left + 1) (fetch_from client left current)
  unfolding fetch_from
  loop_asks client zero current h =
      asks
        (answered client zero (λ _. (err invalid_cimd, [])) current (platform.fetch current.href))
        current h zero
        (answered_rounds client zero (λ _. (err invalid_cimd, [])) (λ u _. (tt, omega arith))
          current (platform.fetch current.href))
  loop_asks client (suc left) current h =
      asks
        (answered client (suc left) (fetch_from client left) current (platform.fetch current.href))
        current h (suc left)
        (answered_rounds client (suc left) (fetch_from client left)
          (λ u k.
            subst (λ n. Careful n (fetch_from client left u)) (next left)
              (loop_asks client left u k))
          current (platform.fetch current.href))
    where
      next : (n : ℕ) → n + 1 ≡ suc n
      next n = omega arith

  -- The lookup of a client's document ends after at most four requests, whatever the servers
  -- answer, and each request goes to a URL whose host resolved, when it was checked, to at least
  -- one address, each of which is written as four decimal numbers up to 255 with dots between
  -- them, outside 10/8, 127/8, 0/8, 169.254/16, 172.16/12 and 192.168/16, or has a colon and in
  -- lower case is not ::1 and does not begin with fc, fd, fe8, fe9, fea or feb; an IPv4 address
  -- written in IPv6 form is among the latter, whatever it is.
  pub fetched_carefully : (client : Text) → Careful 4 (fetch_cimd_metadata client)
  unfolding fetch_cimd_metadata fetch_named
  fetched_carefully client = go (platform.parse_url client)
    where
      go : (o : Option Url) → Careful 4 (fetch_named client o)
      go none = (tt, omega arith)
      go (some url) = elim (Bool-cases (is_cimd_client_id client && is_public_host url)) [
        | inl fine ↦ rw fine (loop_asks client 3 url (&&-true _ _ fine).1)
        | inr refused ↦ rw refused (tt, omega arith)
      ]
