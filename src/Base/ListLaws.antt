-- ===== src/Base/ListLaws.antt =====
-- What searching, filtering and sorting keep.
use mathlib.Core.Path.{◌≡◌}
use mathlib.Core.Logic.{inl, inr}
use mathlib.Core.Bool.{Bool, true}
use mathlib.Core.Option.{some}
use mathlib.Core.List.{List, [], ◌∷◌}
use ptv_mcp.Base.Tests.{Bool-cases}
use ptv_mcp.Base.Lists.{find, filter_by, insert_by, sort_by}
use ptv_mcp.Base.Predicates.{All}

module _ {A : Type 0} where
  -- What `find` returns passes its test.
  pub find-test : (p : A → Bool) (xs : List A) (x : A) → find p xs ≡ some x → p x ≡ true
  find-test p [] x h = cc
  find-test p (y ∷ xs) x h = elim (Bool-cases (p y)) [
    | inl hit ↦ let e : some y ≡ some x = rw hit at h in let s : y ≡ x = cc e in rw (← s) hit
    | inr miss ↦ find-test p xs x (rw miss at h)
  ]

  pub find-All :
      (Q : A → Type 0) (p : A → Bool) (xs : List A) (x : A) → All Q xs → find p xs ≡ some x → Q x
  find-All Q p [] x all_ h = cc
  find-All Q p (y ∷ xs) x (here, rest) h = elim (Bool-cases (p y)) [
    | inl hit ↦ let e : some y ≡ some x = rw hit at h in let s : y ≡ x = cc e in rw (← s) here
    | inr miss ↦ find-All Q p xs x rest (rw miss at h)
  ]

  pub filter_by-All :
      (Q : A → Type 0) (p : A → Bool) (xs : List A) → All Q xs → All Q (filter_by p xs)
  filter_by-All Q p [] h = tt
  filter_by-All Q p (x ∷ xs) (here, rest) = elim (Bool-cases (p x)) [
    | inl hit ↦ rw hit (here, filter_by-All Q p xs rest)
    | inr miss ↦ rw miss (filter_by-All Q p xs rest)
  ]

  -- What a filter lets through passes its test.
  pub filter_by-test :
      (Q : A → Type 0) (p : A → Bool) (xs : List A)
      → All Q xs
      → All (λ x. Q x × (p x ≡ true)) (filter_by p xs)
  filter_by-test Q p [] h = tt
  filter_by-test Q p (x ∷ xs) (here, rest) = elim (Bool-cases (p x)) [
    | inl hit ↦ rw hit ((here, hit), filter_by-test Q p xs rest)
    | inr miss ↦ rw miss (filter_by-test Q p xs rest)
  ]

  insert_by-All :
      (Q : A → Type 0) (before : A → A → Bool) (x : A) (ys : List A)
      → Q x
      → All Q ys
      → All Q (insert_by before x ys)
  insert_by-All Q before x [] h k = (h, tt)
  insert_by-All Q before x (y ∷ ys) h (here, rest) = elim (Bool-cases (before x y)) [
    | inl first ↦ rw first (h, (here, rest))
    | inr later ↦ rw later (here, insert_by-All Q before x ys h rest)
  ]

  pub sort_by-All :
      (Q : A → Type 0) (before : A → A → Bool) (xs : List A) → All Q xs → All Q (sort_by before xs)
  sort_by-All Q before [] h = tt
  sort_by-All Q before (x ∷ xs) (here, rest) =
      insert_by-All Q before x (sort_by before xs) here (sort_by-All Q before xs rest)

  pub All-map : (Q R : A → Type 0) → ((x : A) → Q x → R x) → (xs : List A) → All Q xs → All R xs
  All-map Q R f [] h = tt
  All-map Q R f (x ∷ xs) (here, rest) = (f x here, All-map Q R f xs rest)
