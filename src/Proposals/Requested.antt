-- ===== src/Proposals/Requested.antt =====
-- The reviewers that are asked for a proposal (src/proposals/proposalService.ts, addReviewers).
use ptv_mcp.Base.{
  ℕ, ap, ◌≡◌, refl, sym, subst, inl, inr, Bool, true, false, ◌&&◌, ◌||◌, List, [], ◌∷◌, ◌++◌, none,
  Text, text_eq, text_eq_iff, text_eq_refl, arith, All, Extends, Extends-refl, Extends-append,
  Extends-trans, any, Bool-cases, if◌then◌else◌, &&-true,
}
use ptv_mcp.World.{ReviewDecision, ReviewerRow}
use ptv_mcp.Proposals.Reviewers.{insert_reviewers, is_taken}

-- The unique constraint on (proposal_id, user_id) of the reviewers' table.
abbrev pub UniqueReviewers : List ReviewerRow → Type 0
UniqueReviewers [] = Unit
UniqueReviewers (r ∷ rs) = (is_taken r.proposal_id r.user_id rs ≡ false) × UniqueReviewers rs

pub any-append :
    {A : Type 0} (p : A → Bool) (xs ys : List A) → any p (xs ++ ys) ≡ (any p xs || any p ys)
any-append p [] ys = refl
any-append p (x ∷ xs) ys = ground (arith, any-append p xs ys)

any-Extends :
    {A : Type 0} (p : A → Bool) (xs ys : List A) → Extends xs ys → any p xs ≡ true → any p ys ≡ true
any-Extends p [] ys e h = cc
any-Extends p (x ∷ xs) [] e h = absurd e
any-Extends p (x ∷ xs) (y ∷ ys) (same, rest) h = elim (Bool-cases (p x)) [
  | inl hit ↦ rw (same, hit) refl
  | inr miss ↦ rw (same, miss) (any-Extends p xs ys rest (rw miss at h))
]

same_key_sym :
    (a b c d : Text) → (text_eq a b && text_eq c d) ≡ false → (text_eq b a && text_eq d c) ≡ false
same_key_sym a b c d h = elim (Bool-cases (text_eq b a && text_eq d c)) [
  | inr f ↦ f
  | inl t ↦
      let (ba, dc) = &&-true _ _ t in
      let ab = (text_eq_iff a b).1 (sym ((text_eq_iff b a).0 ba)) in
      let cd = (text_eq_iff c d).1 (sym ((text_eq_iff d c).0 dc)) in cc (rw (ab, cd) at h)
]

-- A row with a new key can be appended.
UniqueReviewers-append :
    (rows : List ReviewerRow) (x : ReviewerRow)
    → UniqueReviewers rows
    → is_taken x.proposal_id x.user_id rows ≡ false
    → UniqueReviewers (rows ++ x ∷ [])
UniqueReviewers-append [] x u h = (refl, tt)
UniqueReviewers-append (r ∷ rows) x (fresh, u) h =
    let (other, rest) = or_false _ _ h in
    (
      rw
          (
            any-append (λ s. text_eq s.proposal_id r.proposal_id && text_eq s.user_id r.user_id)
                rows (x ∷ []),
            fresh,
            same_key_sym r.proposal_id x.proposal_id r.user_id x.user_id other,
          )
          refl,
      UniqueReviewers-append rows x u rest,
    )
  where
    or_false : (a b : Bool) → (a || b) ≡ false → (a ≡ false) × (b ≡ false)
    or_false a b h = ground arith

abbrev asked : Text → Text → Text → ℕ → Text → ReviewerRow
asked tenant id by now user = record {
  tenant_id = tenant;
  proposal_id = id;
  user_id = user;
  requested_by_user_id = by;
  decision = ReviewDecision.pending;
  comment = none;
  requested_at = now;
  decided_at = none;
}

-- The table after reviews of proposal `id` were asked of `users`: every row that stood is kept, no
-- user is asked twice, and each of them is a reviewer.
pub record Requested (id : Text) (users : List Text) (rows rows' : List ReviewerRow) : Type 0 where
  pub unique : UniqueReviewers rows'
  pub kept : Extends rows rows'
  pub named : All (λ u. is_taken id u rows' ≡ true) users

one_more :
    (id user : Text) (users : List Text) (rows rows' : List ReviewerRow)
    → is_taken id user rows ≡ true
    → Requested id users rows rows'
    → Requested id (user ∷ users) rows rows'
one_more id user users rows rows' taken h = record {
  unique = h.unique;
  kept = h.kept;
  named = (any-Extends _ rows rows' h.kept taken, h.named);
}

there :
    (tenant id by : Text) (now : ℕ) (user : Text) (rows : List ReviewerRow)
    → is_taken id user (rows ++ asked tenant id by now user ∷ []) ≡ true
there tenant id by now user rows =
    rw
      (
        any-append (λ s. text_eq s.proposal_id id && text_eq s.user_id user) rows
            (asked tenant id by now user ∷ []),
        text_eq_refl id,
        text_eq_refl user,
      )
      (or_true _)
  where
    or_true : (a : Bool) → (a || true) ≡ true
    or_true a = ground arith

-- If a user is asked at most once for a proposal, then after asking for reviews that still holds,
-- every row that stood is kept as it was, decisions included, and every user named is a reviewer
-- of the proposal.
pub insert_reviewers-ok :
    (tenant id by : Text) (now : ℕ) (users : List Text) (rows : List ReviewerRow)
    → UniqueReviewers rows
    → Requested id users rows (insert_reviewers tenant id by now users rows)
unfolding insert_reviewers
insert_reviewers-ok tenant id by now [] rows u = record {
  unique = u;
  kept = Extends-refl rows;
  named = tt;
}
insert_reviewers-ok tenant id by now (user ∷ users) rows u =
    elim (Bool-cases (is_taken id user rows)) [
      | inl taken ↦
          subst (Requested id (user ∷ users) rows) (sym (ap next taken)) (
            one_more id user users rows _ taken (insert_reviewers-ok tenant id by now users rows u))
      | inr free ↦
          let longer = rows ++ asked tenant id by now user ∷ [] in
          let h =
            insert_reviewers-ok tenant id by now users longer
              (UniqueReviewers-append rows (asked tenant id by now user) u free) in
          subst (Requested id (user ∷ users) rows) (sym (ap next free)) (record {
            unique = h.unique;
            kept = Extends-trans rows longer _ (Extends-append rows _) h.kept;
            named = (any-Extends _ longer _ h.kept (there tenant id by now user rows), h.named);
          })
    ]
  where
    next : Bool → List ReviewerRow
    next b =
        insert_reviewers tenant id by now users
          (if b then rows else rows ++ asked tenant id by now user ∷ [])
