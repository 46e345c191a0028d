-- ===== src/Proposals/Eligible.antt =====
-- Who a request for reviews can name (src/mcp/proposalQueue.ts, requestReview).
use ptv_mcp.Base.{
  subst, ◌≡◌, refl, sym, ◌≢◌, ◌≤◌, inl, inr, Bool, true, false, List, [], ◌∷◌, ◌++◌, some, Text,
  text_eq, text_eq_iff, All, All-append, Mem, any, find, find-test, find-All, filter_by-test,
  sort_by-All, All-map, Bool-cases, Option-cases, if◌then◌else◌, leb, leb→le,
}
use ptv_mcp.World.{contributor, UserRow, Membership, Platform, ok, err, invalid_review_request}
use ptv_mcp.Roles.{role_rank}
use ptv_mcp.Proposals.Candidates.{
  ReviewCandidate, members_of, review_candidates_of, find_review_candidate, reviewer_ids,
}

-- `user` is a member of the tenant with the role Contributor or above.
abbrev pub IsCandidate : Text → List Membership → Text → Type 0
IsCandidate tenant ms user =
    (m : Membership) × Mem m ms
    × (m.tenant_id ≡ tenant)
    × (m.user_id ≡ user)
    × (role_rank contributor ≤ role_rank m.role)

-- Such a user, but not the proposer.
abbrev pub MayReview : Text → List Membership → Text → Text → Type 0
MayReview tenant ms proposer user = IsCandidate tenant ms user × (user ≢ proposer)

-- Where a member of the list comes from.
abbrev IsMember : Text → List Membership → ReviewCandidate → Type 0
IsMember tenant ms c =
    (m : Membership) × Mem m ms
    × (m.tenant_id ≡ tenant)
    × (m.user_id ≡ c.user_id)
    × (m.role ≡ c.role)

members_of-IsMember :
    (tenant : Text) (users : List UserRow) (ms : List Membership)
    → All (IsMember tenant ms) (members_of tenant users ms)
unfolding members_of
members_of-IsMember tenant users [] = tt
members_of-IsMember tenant users (m ∷ ms) =
    let rest =
      All-map (IsMember tenant ms) (IsMember tenant (m ∷ ms)) (λ c h. (h.0, inr h.1, h.2, h.3, h.4))
        _ (members_of-IsMember tenant users ms) in
    elim (Bool-cases (text_eq m.tenant_id tenant)) [
      | inr foreign ↦ rw foreign rest
      | inl ours ↦ elim (Option-cases (find (λ u. text_eq u.id m.user_id) users)) [
        | inl gone ↦ rw (ours, gone, members_of) rest
        | inr (u, known) ↦
            rw (ours, known, members_of)
              (
                (
                  m,
                  inl refl,
                  (text_eq_iff m.tenant_id tenant).0 ours,
                  sym ((text_eq_iff u.id m.user_id).0 (find-test _ users u known)),
                  refl,
                ),
                rest,
              )
      ]
    ]

module _ ⦃platform : Platform⦄ where
  pub candidates-IsCandidate :
      (tenant : Text) (users : List UserRow) (ms : List Membership)
      → All
          (λ c. IsCandidate tenant ms c.user_id)
          (review_candidates_of (members_of tenant users ms))
  unfolding review_candidates_of
  candidates-IsCandidate tenant users ms = sort_by-All _ _ _ (
      All-map _ _ ranked _
        (filter_by-test (IsMember tenant ms) _ _ (members_of-IsMember tenant users ms)))
    where
      ranked :
          (c : ReviewCandidate)
          → IsMember tenant ms c × (leb (role_rank contributor) (role_rank c.role) ≡ true)
          → IsCandidate tenant ms c.user_id
      ranked c ((m, there, ours, theirs, role), high) =
          (m, there, ours, theirs, rw role (leb→le _ _ high))

  pub found-IsCandidate :
      (tenant : Text) (ms : List Membership) (candidates : List ReviewCandidate) (ref : Text)
      (c : ReviewCandidate)
      → All (λ c. IsCandidate tenant ms c.user_id) candidates
      → find_review_candidate candidates ref ≡ some c
      → IsCandidate tenant ms c.user_id
  unfolding find_review_candidate
  found-IsCandidate tenant ms candidates ref c good known =
      find-All (λ c. IsCandidate tenant ms c.user_id) _ candidates c good known

  -- Whoever the named reviewers come out as may review.
  pub reviewer_ids-MayReview :
      (tenant : Text) (ms : List Membership) (candidates : List ReviewCandidate) (proposer : Text)
      (refs acc ids : List Text)
      → All (λ c. IsCandidate tenant ms c.user_id) candidates
      → All (MayReview tenant ms proposer) acc
      → reviewer_ids candidates proposer refs acc ≡ ok ids
      → All (MayReview tenant ms proposer) ids
  unfolding reviewer_ids
  reviewer_ids-MayReview tenant ms candidates proposer [] acc ids good h e =
      let same : acc ≡ ids = cc e in subst (All (MayReview tenant ms proposer)) same h
  reviewer_ids-MayReview tenant ms candidates proposer (ref ∷ refs) acc ids good h e =
      elim (Option-cases (find_review_candidate candidates ref)) [
        | inl unknown ↦ absurd (refused (rw (unknown, reviewer_ids) at e))
        | inr (c, known) ↦ elim (Bool-cases (text_eq c.user_id proposer)) [
          | inl own ↦ absurd (refused (rw (known, reviewer_ids, own) at e))
          | inr other ↦
              reviewer_ids-MayReview tenant ms candidates proposer refs
                (if any (text_eq c.user_id) acc then acc else acc ++ c.user_id ∷ []) ids good
                (longer c (any (text_eq c.user_id) acc)
                  (found-IsCandidate tenant ms candidates ref c good known)
                  (λ same. not_own c other same))
                (rw (known, reviewer_ids, other) at e)
        ]
      ]
    where
      refused : {ids : List Text} → err invalid_review_request ≡ ok ids → ⊥
      refused x = cc

      not_own :
          (c : ReviewCandidate) → text_eq c.user_id proposer ≡ false → c.user_id ≡ proposer → ⊥
      not_own c other same = cc (other, (text_eq_iff c.user_id proposer).1 same)

      longer :
          (c : ReviewCandidate) (b : Bool)
          → IsCandidate tenant ms c.user_id
          → c.user_id ≢ proposer
          → All (MayReview tenant ms proposer) (if b then acc else acc ++ c.user_id ∷ [])
      longer c true k n = h
      longer c false k n = All-append _ acc (c.user_id ∷ []) h ((k, n), tt)
