-- ===== src/Tenants/Members.antt =====
-- The role that a search finds after a write to the memberships (src/tenants/tenantService.ts,
-- resolveMembershipRole of src/auth/rbac.ts).
use ptv_mcp.Base.{
  ◌≡◌, refl, inl, inr, true, false, not, Option, none, some, List, [], ◌∷◌, ◌++◌, Text, text_eq_iff,
  text_eq_refl, Bool-cases, &&-true, filter_by, any, update_where,
}
use ptv_mcp.World.{MembershipRole, Membership}
use ptv_mcp.Roles.{role_of}
use ptv_mcp.Tenants.Service.{is_membership, with_role, upsert_membership}
use ptv_mcp.Tenants.Directory.{is_pair, assign}

module _ (tenant user t u : Text) where
  -- The row of a pair is met by a search for another pair if the pairs are the same.
  same_pair :
      (m : Membership)
      → is_membership tenant user m ≡ true
      → is_membership t u m ≡ is_pair tenant user t u
  same_pair m h =
      let (here, name) = &&-true _ _ h in
      rw ((text_eq_iff m.tenant_id tenant).0 here, (text_eq_iff m.user_id user).0 name)

  pair_equal : is_pair tenant user t u ≡ true → (tenant ≡ t) × (user ≡ u)
  pair_equal h =
      let (here, name) = &&-true _ _ h in
      ((text_eq_iff tenant t).0 here, (text_eq_iff user u).0 name)

  -- A table whose search for one pair answers `role`, and any other as before.
  pub assigned :
      (role : Option MembershipRole) (ms ms' : List Membership)
      → role_of tenant user ms' ≡ role
      → (is_pair tenant user t u ≡ false → role_of t u ms' ≡ role_of t u ms)
      → role_of t u ms' ≡ assign tenant user role (λ a b. role_of a b ms) t u
  assigned role ms ms' set kept = elim (Bool-cases (is_pair tenant user t u)) [
    | inl same ↦ rw (same, ← (pair_equal same).0, ← (pair_equal same).1) set
    | inr other ↦ rw other (kept other)
  ]

  module _ (other : is_pair tenant user t u ≡ false) where
    upsert_membership-other :
        (role : MembershipRole) (ms : List Membership)
        → role_of t u (upsert_membership tenant user role ms) ≡ role_of t u ms
    unfolding role_of upsert_membership
    upsert_membership-other role [] = rw other
    upsert_membership-other role (m ∷ ms) = elim (Bool-cases (is_membership tenant user m)) [
      | inl hit ↦ rw (hit, same_pair m hit, other)
      | inr miss ↦ rw (miss, upsert_membership-other role ms)
    ]

    update_where-other :
        (role : MembershipRole) (ms : List Membership)
        → role_of t u (update_where (is_membership tenant user) (with_role role) ms)
          ≡ role_of t u ms
    unfolding role_of
    update_where-other role [] = refl
    update_where-other role (m ∷ ms) = elim (Bool-cases (is_membership tenant user m)) [
      | inl hit ↦ rw (hit, same_pair m hit, other, update_where-other role ms)
      | inr miss ↦ rw (miss, update_where-other role ms)
    ]

    filter_by-other :
        (ms : List Membership)
        → role_of t u (filter_by (λ m. not (is_membership tenant user m)) ms) ≡ role_of t u ms
    unfolding role_of
    filter_by-other [] = refl
    filter_by-other (m ∷ ms) = elim (Bool-cases (is_membership tenant user m)) [
      | inl hit ↦ rw (hit, same_pair m hit, other, filter_by-other ms)
      | inr miss ↦ rw (miss, filter_by-other ms)
    ]

    append-other :
        (role : MembershipRole) (ms : List Membership)
        → role_of t u (ms ++ record { tenant_id = tenant; user_id = user; role = role } ∷ [])
          ≡ role_of t u ms
    unfolding role_of
    append-other role [] = rw other
    append-other role (m ∷ ms) = rw (append-other role ms)

module _ (tenant user : Text) where
  upsert_membership-same :
      (role : MembershipRole) (ms : List Membership)
      → role_of tenant user (upsert_membership tenant user role ms) ≡ some role
  unfolding role_of upsert_membership
  upsert_membership-same role [] = rw (text_eq_refl tenant, text_eq_refl user)
  upsert_membership-same role (m ∷ ms) = elim (Bool-cases (is_membership tenant user m)) [
    | inl hit ↦ rw (hit, hit)
    | inr miss ↦ rw (miss, miss) (upsert_membership-same role ms)
  ]

  update_where-same :
      (role : MembershipRole) (ms : List Membership)
      → any (is_membership tenant user) ms ≡ true
      → role_of tenant user (update_where (is_membership tenant user) (with_role role) ms)
        ≡ some role
  unfolding role_of
  update_where-same role [] h = cc h
  update_where-same role (m ∷ ms) h = elim (Bool-cases (is_membership tenant user m)) [
    | inl hit ↦ rw (hit, hit)
    | inr miss ↦ rw (miss, miss) (update_where-same role ms (rw miss at h))
  ]

  filter_by-same :
      (ms : List Membership)
      → role_of tenant user (filter_by (λ m. not (is_membership tenant user m)) ms) ≡ none
  unfolding role_of
  filter_by-same [] = refl
  filter_by-same (m ∷ ms) = elim (Bool-cases (is_membership tenant user m)) [
    | inl hit ↦ rw hit (filter_by-same ms)
    | inr miss ↦ rw (miss, miss) (filter_by-same ms)
  ]

  append-same :
      (role : MembershipRole) (ms : List Membership)
      → role_of tenant user ms ≡ none
      → role_of tenant user (ms ++ record { tenant_id = tenant; user_id = user; role = role } ∷ [])
        ≡ some role
  unfolding role_of
  append-same role [] h = rw (text_eq_refl tenant, text_eq_refl user)
  append-same role (m ∷ ms) h = elim (Bool-cases (is_membership tenant user m)) [
    | inl hit ↦ let e : some m.role ≡ none = rw hit at h in cc e
    | inr miss ↦ rw miss (append-same role ms (rw miss at h))
  ]

  -- The UPDATE meets a row if the user has a role.
  pub any-role_of :
      (ms : List Membership)
      → any (is_membership tenant user) ms
        ≡ elim (role_of tenant user ms) [ none ↦ false | some _ ↦ true ]
  unfolding role_of
  any-role_of [] = refl
  any-role_of (m ∷ ms) = elim (Bool-cases (is_membership tenant user m)) [
    | inl hit ↦ rw hit
    | inr miss ↦ rw miss (any-role_of ms)
  ]

  module _ (role : MembershipRole) (ms : List Membership) (t u : Text) where
    pub upsert_membership-assigns :
        role_of t u (upsert_membership tenant user role ms)
        ≡ assign tenant user (some role) (λ a b. role_of a b ms) t u
    upsert_membership-assigns =
        assigned tenant user t u (some role) ms _ (upsert_membership-same role ms)
          (λ o. upsert_membership-other tenant user t u o role ms)

    pub update_where-assigns :
        any (is_membership tenant user) ms ≡ true
        → role_of t u (update_where (is_membership tenant user) (with_role role) ms)
          ≡ assign tenant user (some role) (λ a b. role_of a b ms) t u
    update_where-assigns h =
        assigned tenant user t u (some role) ms _ (update_where-same role ms h)
          (λ o. update_where-other tenant user t u o role ms)

    pub append-assigns :
        role_of tenant user ms ≡ none
        → role_of t u (ms ++ record { tenant_id = tenant; user_id = user; role = role } ∷ [])
          ≡ assign tenant user (some role) (λ a b. role_of a b ms) t u
    append-assigns h =
        assigned tenant user t u (some role) ms _ (append-same role ms h)
          (λ o. append-other tenant user t u o role ms)

  pub filter_by-assigns :
      (ms : List Membership) (t u : Text)
      → role_of t u (filter_by (λ m. not (is_membership tenant user m)) ms)
        ≡ assign tenant user none (λ a b. role_of a b ms) t u
  filter_by-assigns ms t u =
      assigned tenant user t u none ms _ (filter_by-same ms)
        (λ o. filter_by-other tenant user t u o ms)
