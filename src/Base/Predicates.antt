-- ===== src/Base/Predicates.antt =====
-- Predicates on all elements of a list, and membership, as recursive types.
use mathlib.Core.Path.{◌≡◌, refl, ◌∙◌}
use mathlib.Core.Logic.{◌⊎◌}
use mathlib.Core.List.{List, [], ◌∷◌, ◌++◌}

module _ {ℓ κ} {A : Type ℓ} (P : A → Type κ) where
  abbrev pub All : List A → Type κ
  All [] = Unit
  All (x ∷ xs) = P x × All xs

  pub All-append : (xs ys : List A) → All xs → All ys → All (xs ++ ys)
  All-append [] ys h k = k
  All-append (x ∷ xs) ys h k = (h.0, All-append xs ys h.1 k)

-- `a` stands somewhere in the list.
abbrev pub Mem : {A : Type 0} → A → List A → Type 0
Mem a [] = ⊥
Mem a (x ∷ xs) = (a ≡ x) ⊎ Mem a xs

-- `ys` begins with `xs`: a table that rows are only appended to.
module _ {A : Type 0} where
  abbrev pub Extends : List A → List A → Type 0
  Extends [] ys = Unit
  Extends (x ∷ xs) [] = ⊥
  Extends (x ∷ xs) (y ∷ ys) = (y ≡ x) × Extends xs ys

  pub Extends-refl : (xs : List A) → Extends xs xs
  Extends-refl [] = tt
  Extends-refl (x ∷ xs) = (refl, Extends-refl xs)

  pub Extends-append : (xs ys : List A) → Extends xs (xs ++ ys)
  Extends-append [] ys = tt
  Extends-append (x ∷ xs) ys = (refl, Extends-append xs ys)

  pub Extends-trans : (xs ys zs : List A) → Extends xs ys → Extends ys zs → Extends xs zs
  Extends-trans [] ys zs h k = tt
  Extends-trans (x ∷ xs) [] zs h k = absurd h
  Extends-trans (x ∷ xs) (y ∷ ys) [] h k = k
  Extends-trans (x ∷ xs) (y ∷ ys) (z ∷ zs) h k = (k.0 ∙ h.0, Extends-trans xs ys zs h.1 k.1)
