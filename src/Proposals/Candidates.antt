-- ===== src/Proposals/Candidates.antt =====
-- Who can be named as a reviewer (src/mcp/proposalQueue.ts; src/tenants/tenantService.ts lists the
-- members).
use ptv_mcp.Base.{
  ◌||◌, List, [], ◌∷◌, ◌++◌, Option, none, some, Text, text_eq, trim, leb, filter_by, find, any,
  sort_by, if◌then◌else◌,
}
use ptv_mcp.World.{
  MembershipRole, contributor, UserRow, Membership, Platform, ok, err, Result,
  invalid_review_request,
}
use ptv_mcp.Roles.{role_rank}

-- A tenant member as far as review requests need one.
pub record ReviewCandidate : Type 0 where
  pub user_id : Text
  pub name : Text
  pub email : Text
  pub role : MembershipRole

-- `TenantService.listMembers`: the tenant's memberships joined with their users.
abbrev user_of : Text → List UserRow → Option UserRow
user_of id us = find (λ u. text_eq u.id id) us

unfoldable pub members_of : Text → List UserRow → List Membership → List ReviewCandidate
members_of tenant users [] = []
members_of tenant users (m ∷ ms) =
    let rest = members_of tenant users ms in
    if text_eq m.tenant_id tenant
    then elim (user_of m.user_id users) [
      | none ↦ rest
      | some u ↦ record { user_id = u.id; name = u.name; email = u.email; role = m.role } ∷ rest
    ]
    else rest

module _ ⦃platform : Platform⦄ where
  -- `reviewCandidatesOf`: Contributor or above, by name.
  unfoldable pub review_candidates_of : List ReviewCandidate → List ReviewCandidate
  review_candidates_of members =
      sort_by (λ a b. platform.locale_before a.name b.name)
        (filter_by (λ m. leb (role_rank contributor) (role_rank m.role)) members)

  -- `findReviewCandidate`, by user id or by email in any case.
  unfoldable pub find_review_candidate : List ReviewCandidate → Text → Option ReviewCandidate
  find_review_candidate candidates ref =
      find
        (λ c.
          text_eq c.user_id (trim ref)
          || text_eq (platform.to_lower_case c.email) (platform.to_lower_case (trim ref)))
        candidates

  -- The loop of `requestReview` over the named reviewers; a `Set` keeps each id once.
  unfoldable pub reviewer_ids :
      List ReviewCandidate → Text → List Text → List Text → Result (List Text)
  reviewer_ids candidates proposer [] ids = ok ids
  reviewer_ids candidates proposer (ref ∷ refs) ids = elim (find_review_candidate candidates ref) [
    | none ↦ err invalid_review_request
    | some c ↦
        let rest =
          reviewer_ids candidates proposer refs
            (if any (text_eq c.user_id) ids then ids else ids ++ c.user_id ∷ []) in
        if text_eq c.user_id proposer then err invalid_review_request else rest
  ]
