-- ===== src/Base/Growing.antt =====
-- Tables whose rows stay in place: rows change by a relation, and new ones come at the end.
use mathlib.Core.Path.{◌≡◌, refl, ◌∙◌}
use mathlib.Core.Logic.{inl, inr}
use mathlib.Core.Bool.{Bool, true, false}
use mathlib.Core.Option.{none, some}
use mathlib.Core.List.{List, [], ◌∷◌, ◌++◌}
use ptv_mcp.Base.Tests.{Bool-cases, if◌then◌else◌}
use ptv_mcp.Base.Lists.{find, update_where}
use ptv_mcp.Base.Predicates.{All}

module _ {A : Type 0} (R : A → A → Type 0) where
  abbrev pub Grows : List A → List A → Type 0
  Grows [] ys = Unit
  Grows (x ∷ xs) [] = ⊥
  Grows (x ∷ xs) (y ∷ ys) = R x y × Grows xs ys

  pub Grows-refl : ((x : A) → R x x) → (xs : List A) → Grows xs xs
  Grows-refl r [] = tt
  Grows-refl r (x ∷ xs) = (r x, Grows-refl r xs)

  pub Grows-trans :
      ((x y z : A) → R x y → R y z → R x z)
      → (xs ys zs : List A) → Grows xs ys
      → Grows ys zs
      → Grows xs zs
  Grows-trans t [] ys zs h k = tt
  Grows-trans t (x ∷ xs) [] zs h k = absurd h
  Grows-trans t (x ∷ xs) (y ∷ ys) [] h k = k
  Grows-trans t (x ∷ xs) (y ∷ ys) (z ∷ zs) h k = (t x y z h.0 k.0, Grows-trans t xs ys zs h.1 k.1)

  pub Grows-append : ((x : A) → R x x) → (xs ys : List A) → Grows xs (xs ++ ys)
  Grows-append r [] ys = tt
  Grows-append r (x ∷ xs) ys = (r x, Grows-append r xs ys)

  pub update_where-Grows_if :
      ((x : A) → R x x)
      → (p : A → Bool) (f : A → A) → ((x : A) → p x ≡ true → R x (f x))
      → (xs : List A) → Grows xs (update_where p f xs)
  update_where-Grows_if r p f step [] = tt
  update_where-Grows_if r p f step (x ∷ xs) = (
    elim (Bool-cases (p x)) [ inl hit ↦ rw hit (step x hit) | inr miss ↦ rw miss (r x) ],
    update_where-Grows_if r p f step xs,
  )

  pub update_where-Grows :
      ((x : A) → R x x)
      → (p : A → Bool) (f : A → A) → ((x : A) → R x (f x))
      → (xs : List A) → Grows xs (update_where p f xs)
  update_where-Grows r p f step xs = update_where-Grows_if r p f (λ x _. step x) xs

  -- The row that a search found is still the one that it finds.
  pub find-Grows :
      (p : A → Bool)
      → ((x y : A) → R x y → p y ≡ p x)
      → (xs ys : List A) (x : A) → Grows xs ys
      → find p xs ≡ some x
      → (y : A) × (find p ys ≡ some y) × R x y
  find-Grows p same [] ys x g h = cc
  find-Grows p same (z ∷ xs) [] x g h = absurd g
  find-Grows p same (z ∷ xs) (y ∷ ys) x g h = elim (Bool-cases (p z)) [
    | inl hit ↦ found hit (rw hit at h)
    | inr miss ↦ rw (same z y g.0 ∙ miss) (find-Grows p same xs ys x g.1 (rw miss at h))
  ]
    where
      found :
          p z ≡ true
          → some z ≡ some x
          → (v : A) × ((if p y then some y else find p ys) ≡ some v) × R x v
      found hit e = let s : z ≡ x = cc e in (y, rw (same z y g.0 ∙ hit), rw (← s) (g.0))

-- Two tables of the same length, row by row.
abbrev pub Rows : {A : Type 0} → (A → A → Type 0) → List A → List A → Type 0
Rows R [] [] = Unit
Rows R (x ∷ xs) (y ∷ ys) = R x y × Rows R xs ys
Rows R _ _ = ⊥

pub update_where-Rows :
    {A : Type 0} (R : A → A → Type 0) (p : A → Bool) (f : A → A)
    → ((x : A) → p x ≡ true → R x (f x))
    → ((x : A) → p x ≡ false → R x x)
    → (xs : List A) → Rows R xs (update_where p f xs)
update_where-Rows R p f hit_ miss_ [] = tt
update_where-Rows R p f hit_ miss_ (x ∷ xs) = (
  elim (Bool-cases (p x)) [ inl hit ↦ rw hit (hit_ x hit) | inr miss ↦ rw miss (miss_ x miss) ],
  update_where-Rows R p f hit_ miss_ xs,
)

module _ {A : Type 0} (p q : A → Bool) (f : A → A) (same : (x : A) → p (f x) ≡ p x) where
  -- A search after an update that leaves its test alone.
  pub find-update_where :
      (xs : List A) (x : A)
      → find p xs ≡ some x
      → find p (update_where q f xs) ≡ some (if q x then f x else x)
  find-update_where [] x h = cc
  find-update_where (y ∷ xs) x h = elim (Bool-cases (p y)) [
    | inl hit ↦ found hit (rw hit at h)
    | inr miss ↦ rw (kept y ∙ miss) (find-update_where xs x (rw miss at h))
  ]
    where
      kept : (z : A) → p (if q z then f z else z) ≡ p z
      kept z = elim (Bool-cases (q z)) [ inl hit ↦ rw hit (same z) | inr miss ↦ rw miss ]

      found :
          p y ≡ true
          → some y ≡ some x
          → find p (update_where q f (y ∷ xs)) ≡ some (if q x then f x else x)
      found hit e = let s : y ≡ x = cc e in rw (kept y ∙ hit) (rw s)

module _ {A : Type 0} where
  pub find-append :
      (p : A → Bool) (xs ys : List A) (x : A) → find p xs ≡ some x → find p (xs ++ ys) ≡ some x
  find-append p [] ys x h = cc
  find-append p (y ∷ xs) ys x h = elim (Bool-cases (p y)) [
    | inl hit ↦ rw hit (rw hit at h)
    | inr miss ↦ rw miss (find-append p xs ys x (rw miss at h))
  ]

  pub find-append_none :
      (p : A → Bool) (xs ys : List A) → find p xs ≡ none → find p (xs ++ ys) ≡ find p ys
  find-append_none p [] ys h = refl
  find-append_none p (y ∷ xs) ys h = elim (Bool-cases (p y)) [
    | inl hit ↦ let e : some y ≡ none = rw hit at h in cc e
    | inr miss ↦ rw miss (find-append_none p xs ys (rw miss at h))
  ]

  -- A row of a table in which nothing passes `q` does not pass it.
  pub find-none :
      (p q : A → Bool) (xs : List A) (x : A) → find q xs ≡ none → find p xs ≡ some x → q x ≡ false
  find-none p q [] x k h = cc
  find-none p q (y ∷ xs) x k h = elim (Bool-cases (q y)) [
    | inl hit ↦ let e : some y ≡ none = rw hit at k in cc e
    | inr miss ↦ elim (Bool-cases (p y)) [
      | inl found ↦ let e : some y ≡ some x = rw found at h in let s : y ≡ x = cc e in rw (← s) miss
      | inr passed ↦ find-none p q xs x (rw miss at k) (rw passed at h)
    ]
  ]

  pub update_where-All :
      (Q : A → Type 0) (p : A → Bool) (f : A → A)
      → ((x : A) → Q x → Q (f x))
      → (xs : List A) → All Q xs
      → All Q (update_where p f xs)
  update_where-All Q p f step [] h = tt
  update_where-All Q p f step (x ∷ xs) (here, rest) = (
    elim (Bool-cases (p x)) [ inl hit ↦ rw hit (step x here) | inr miss ↦ rw miss here ],
    update_where-All Q p f step xs rest,
  )

  -- What every row satisfies after an update, from what it does on the rows that it meets.
  pub All-update_where :
      (Q : A → Type 0) (p : A → Bool) (f : A → A)
      → ((x : A) → p x ≡ true → Q (f x))
      → ((x : A) → p x ≡ false → Q x)
      → (xs : List A) → All Q (update_where p f xs)
  All-update_where Q p f hit_ miss_ [] = tt
  All-update_where Q p f hit_ miss_ (x ∷ xs) = (
    elim (Bool-cases (p x)) [ inl hit ↦ rw hit (hit_ x hit) | inr miss ↦ rw miss (miss_ x miss) ],
    All-update_where Q p f hit_ miss_ xs,
  )

  -- An update that sets the same values twice.
  pub update_where_idempotent :
      (p : A → Bool) (f : A → A)
      → ((x : A) → p (f x) ≡ p x)
      → ((x : A) → f (f x) ≡ f x)
      → (xs : List A) → update_where p f (update_where p f xs) ≡ update_where p f xs
  update_where_idempotent p f same twice [] = refl
  update_where_idempotent p f same twice (x ∷ xs) =
      cc (update_where_idempotent p f same twice xs, once)
    where
      once :
          (if p (if p x then f x else x)
            then f (if p x then f x else x)
            else if p x
            then f x
            else x)
          ≡ (if p x then f x else x)
      once = elim (Bool-cases (p x)) [
        | inl hit ↦ rw (hit, same x ∙ hit) (twice x)
        | inr miss ↦ rw (miss, miss)
      ]
