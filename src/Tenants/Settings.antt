-- ===== src/Tenants/Settings.antt =====
-- What the searches of the tenants' table answer after a write (src/tenants/tenantService.ts).
use ptv_mcp.Base.{
  ℕ, ◌≡◌, refl, inl, inr, Bool, true, false, ◌||◌, none, some, List, [], ◌∷◌, ◌++◌, arith, Text,
  text_eq, text_eq_iff, if◌then◌else◌, Bool-cases, find, any, update_where,
}
use ptv_mcp.World.{TenantRow}
use ptv_mcp.Roles.{requires_four_eyes}
use ptv_mcp.Tenants.Service.{is_tenant, with_settings}

-- A row at the end of a table that nobody found before.
pub any-append :
    {A : Type 0} (p : A → Bool) (x : A) (xs : List A) → any p (xs ++ x ∷ []) ≡ (p x || any p xs)
any-append p x [] = refl
any-append p x (y ∷ ys) = ground (arith, any-append p x ys)

pub any-find :
    {A : Type 0} (p : A → Bool) (xs : List A)
    → any p xs ≡ elim (find p xs) [ none ↦ false | some _ ↦ true ]
any-find p [] = refl
any-find p (x ∷ xs) = elim (Bool-cases (p x)) [
  | inl hit ↦ rw hit
  | inr miss ↦ rw miss (any-find p xs)
]

-- A test that an update leaves alone.
pub any-update_where :
    {A : Type 0} (p q : A → Bool) (f : A → A)
    → ((x : A) → p (f x) ≡ p x)
    → (xs : List A) → any p (update_where q f xs) ≡ any p xs
any-update_where p q f same [] = refl
any-update_where p q f same (x ∷ xs) = elim (Bool-cases (q x)) [
  | inl hit ↦ rw (hit, same x, any-update_where p q f same xs)
  | inr miss ↦ rw (miss, any-update_where p q f same xs)
]

-- An update that meets no row.
pub update_where_none :
    {A : Type 0} (q : A → Bool) (f : A → A) (xs : List A)
    → any q xs ≡ false
    → update_where q f xs ≡ xs
update_where_none q f [] h = refl
update_where_none q f (x ∷ xs) h = elim (Bool-cases (q x)) [
  | inl hit ↦ absurd (cc (rw hit at h))
  | inr miss ↦ rw (miss, update_where_none q f xs (rw miss at h))
]

-- A new tenant requires four-eyes, as an unknown one does.
pub requires_four_eyes-append :
    (x : TenantRow) (tenant : Text) (ts : List TenantRow)
    → x.require_four_eyes ≡ true
    → requires_four_eyes tenant (ts ++ x ∷ []) ≡ requires_four_eyes tenant ts
unfolding requires_four_eyes
requires_four_eyes-append x tenant [] h = ground (arith, h)
requires_four_eyes-append x tenant (t ∷ ts) h = rw (requires_four_eyes-append x tenant ts h)

module _ (tenant : Text) (four : Bool) (now : ℕ) where
  -- The value that was set is read by the tenant it was set for; the others read what they did.
  pub requires_four_eyes-update_where :
      (other : Text) (ts : List TenantRow)
      → any (is_tenant tenant) ts ≡ true
      → requires_four_eyes other (update_where (is_tenant tenant) (with_settings four now) ts)
        ≡ (if text_eq tenant other then four else requires_four_eyes other ts)
  unfolding requires_four_eyes
  requires_four_eyes-update_where other ts known = elim (Bool-cases (text_eq tenant other)) [
    | inl same ↦ rw (same, ← (text_eq_iff tenant other).0 same) (set ts known)
    | inr differs ↦ rw differs (kept ts differs)
  ]
    where
      set :
          (ts : List TenantRow)
          → any (is_tenant tenant) ts ≡ true
          → requires_four_eyes tenant (update_where (is_tenant tenant) (with_settings four now) ts)
            ≡ four
      set [] h = cc h
      set (t ∷ ts) h = elim (Bool-cases (is_tenant tenant t)) [
        | inl hit ↦ rw (hit, hit)
        | inr miss ↦ rw (miss, miss) (set ts (rw miss at h))
      ]

      kept :
          (ts : List TenantRow)
          → text_eq tenant other ≡ false
          → requires_four_eyes other (update_where (is_tenant tenant) (with_settings four now) ts)
            ≡ requires_four_eyes other ts
      kept [] d = refl
      kept (t ∷ ts) d = elim (Bool-cases (is_tenant tenant t)) [
        | inl hit ↦ rw (hit, (text_eq_iff t.id tenant).0 hit, d, kept ts d)
        | inr miss ↦ rw (miss, kept ts d)
      ]
