-- ===== src/Proposals/Request.antt =====
-- Asking for reviews of a proposal (src/mcp/proposalQueue.ts, requestReview).
use ptv_mcp.Base.{
  ap, subst, Extends, ◌≡◌, refl, sym, ◌∙◌, ◌≤◌, ◌⊎◌, inl, inr, false, not, ◌&&◌, List, [], Option,
  some, Text, text_eq, text_eq_iff, arith, All, find, Bool-cases, ltb,
}
use ptv_mcp.World.{
  MembershipRole, contributor, approver, ProposalStatus, ProposalRecord, ReviewerRow, World,
  Platform, ok, ◌>>=◌, ◌>>◌, pure, gets,
}
use ptv_mcp.Audit.{record_audit}
use ptv_mcp.Roles.{role_rank, role_of}
use ptv_mcp.Proposals.Candidates.{members_of, review_candidates_of, reviewer_ids}
use ptv_mcp.World.Keeps.{
  Ensures, bind-Ensures, gets-Ensures, pure-Ensures, throw_if-Ensures, from_same,
}
use ptv_mcp.Json.{Json}
use ptv_mcp.Proposals.Store.{is_row}
use ptv_mcp.Proposals.Reviewers.{ProposalReviewer, insert_reviewers, add_reviewers, list_reviewers}
use ptv_mcp.Proposals.Kinds.{ToolContext, Frame}
use ptv_mcp.Proposals.Queue.{audit_proposal, request_review}
use ptv_mcp.Proposals.Transition.{status_eq_iff}
use ptv_mcp.Proposals.Approval.{HasRole, require_tenant_role-ok, not-false}
use ptv_mcp.Proposals.Details.{get_by_id-ok, audit_proposal-Frame}
use ptv_mcp.Proposals.Eligible.{MayReview, candidates-IsCandidate, reviewer_ids-MayReview}

-- What a successful request has checked and stored.
pub record ReviewRequested {P : Type 0} (ctx : ToolContext) (id : Text) (w u : World P)
    : Type 0 where
  pub proposal : ProposalRecord
  pub found : find (is_row ctx.tenant_id id) w.proposals ≡ some proposal
  pub is_open : proposal.status ≡ ProposalStatus.pending
  -- The proposer asks, or an approver does.
  pub authorized :
      (HasRole contributor ctx.tenant_id ctx.acting_user_id w
        × (proposal.proposed_by_user_id ≡ ctx.acting_user_id))
      ⊎ HasRole approver ctx.tenant_id ctx.acting_user_id w
  pub users : List Text
  pub eligible : All (MayReview ctx.tenant_id w.memberships proposal.proposed_by_user_id) users
  pub reviewers :
      u.reviewers
      ≡ insert_reviewers ctx.tenant_id proposal.id ctx.acting_user_id w.now users w.reviewers
  -- Every other table, PTV, the clock and the random ids are as they were.
  pub rest : u ≡ record w { reviewers = u.reviewers; audit = u.audit }
  pub logged : Extends w.audit u.audit

module _ {P : Type 0} ⦃platform : Platform⦄ where
  audit_rest :
      (ctx : ToolContext) (p : ProposalRecord) (action result : Text) (s : Option Json)
      (w : World P)
      → (audit_proposal ctx p action result s w).1
        ≡ record w { audit = (audit_proposal ctx p action result s w).1.audit }
  unfolding audit_proposal record_audit
  audit_rest ctx p action result s w = refl

  -- From the users that were named on, in the state `w`.
  ask-Ensures :
      (ctx : ToolContext) (id : Text) (p : ProposalRecord) (refs : List Text) (action result : Text)
      (s : List Text → Option Json) (w : World P)
      → find (is_row ctx.tenant_id id) w.proposals ≡ some p
      → p.status ≡ ProposalStatus.pending
      → (HasRole contributor ctx.tenant_id ctx.acting_user_id w
          × (p.proposed_by_user_id ≡ ctx.acting_user_id))
        ⊎ HasRole approver ctx.tenant_id ctx.acting_user_id w
      → Ensures w
          (do
            candidates ←
                gets (λ w. review_candidates_of (members_of ctx.tenant_id w.users w.memberships))
            user_ids ← (λ w. (reviewer_ids candidates p.proposed_by_user_id refs [], w))
            asked ← add_reviewers ctx.tenant_id p.id user_ids ctx.acting_user_id
            audit_proposal ctx p action result (s user_ids)
            pure asked)
          (λ rs u. ReviewRequested ctx id w u)
  unfolding add_reviewers list_reviewers
  ask-Ensures ctx id p refs action result s w found is_open role = gets-Ensures _ _ (
      bind-Ensures _ _ λ users v named.
        let resolved = ap (λ x. x.0) named in
        let same : w ≡ v = ap (λ x. x.1) named in
        bind-Ensures _ _ λ rs v1 added.
          let after : record v {
            reviewers =
                insert_reviewers ctx.tenant_id p.id ctx.acting_user_id v.now users v.reviewers;
          }
              ≡ v1 =
            unfold ◌>>=◌ in ap (λ x. x.1) added in
          bind-Ensures _ _ λ a u audited. pure-Ensures (
            let framed : Frame v1 u =
              subst (Frame v1) (ap (λ x. x.1) audited)
                ((audit_proposal-Frame ctx p action result (s users)).at v1) in
            let only_logged : u ≡ record v1 { audit = u.audit } =
              subst (λ (z : World P). z ≡ record v1 { audit = z.audit }) (ap (λ x. x.1) audited)
                (audit_rest ctx p action result (s users) v1) in
            let asked_rows : (z : World P) → List ReviewerRow =
              λ z. insert_reviewers ctx.tenant_id p.id ctx.acting_user_id z.now users z.reviewers in
            let written : u.reviewers ≡ asked_rows w =
              framed.reviewers
              ∙ sym (ap (λ (x : World P). x.reviewers) after)
              ∙ sym (ap asked_rows same) in
            let from_v : u ≡ record v { reviewers = asked_rows v; audit = u.audit } =
              subst (λ (z : World P). u ≡ record z { audit = u.audit }) (sym after) only_logged in
            let from_w : u ≡ record w { reviewers = asked_rows w; audit = u.audit } =
              subst (λ (z : World P). u ≡ record z { reviewers = asked_rows z; audit = u.audit })
                (sym same) from_v in
            record {
              proposal = p;
              found = found;
              is_open = is_open;
              authorized = role;
              users = users;
              eligible =
                  reviewer_ids-MayReview ctx.tenant_id w.memberships _ p.proposed_by_user_id refs []
                    users (candidates-IsCandidate ctx.tenant_id w.users w.memberships) tt resolved;
              reviewers = written;
              rest =
                  subst (λ rs. u ≡ record w { reviewers = rs; audit = u.audit }) (sym written)
                    from_w;
              logged =
                  subst (λ xs. Extends xs u.audit)
                    (sym (ap (λ (x : World P). x.audit) after)
                      ∙ sym (ap (λ (x : World P). x.audit) same))
                    framed.audit;
            }))

  request-Ensures :
      (ctx : ToolContext) (id : Text) (refs : List Text) (w : World P)
      → Ensures w (request_review ctx id refs) (λ rs u. ReviewRequested ctx id w u)
  unfolding request_review
  request-Ensures ctx id refs w = bind-Ensures _ _ λ role w1 entered.
      let (held, enough, same1) =
        require_tenant_role-ok ctx.tenant_id ctx.acting_user_id contributor role w w1 entered in
      bind-Ensures _ _ λ p w2 read.
        let (found, same2) = get_by_id-ok ctx.tenant_id id w1 w2 p read in
        throw_if-Ensures _ _ _ λ still_open. throw_if-Ensures _ _ _ λ allowed.
          throw_if-Ensures _ _ _ λ some_named. from_same (same1 ∙ same2) (
            ask-Ensures ctx id p refs _ _ _ w (rw same1 found)
              ((status_eq_iff _ _).0 (not-false _ still_open))
              (entitled ctx p w role held enough allowed))
    where
      high :
          (role : MembershipRole)
          → ltb (role_rank role) (role_rank approver) ≡ false
          → role_rank approver ≤ role_rank role
      high role h = ground arith

      entitled :
          (ctx : ToolContext) (p : ProposalRecord) (w : World P) (role : MembershipRole)
          → role_of ctx.tenant_id ctx.acting_user_id w.memberships ≡ some role
          → role_rank contributor ≤ role_rank role
          → (not (text_eq p.proposed_by_user_id ctx.acting_user_id)
              && ltb (role_rank role) (role_rank approver))
            ≡ false
          → (HasRole contributor ctx.tenant_id ctx.acting_user_id w
              × (p.proposed_by_user_id ≡ ctx.acting_user_id))
            ⊎ HasRole approver ctx.tenant_id ctx.acting_user_id w
      entitled ctx p w role held enough allowed =
          elim (Bool-cases (text_eq p.proposed_by_user_id ctx.acting_user_id)) [
            | inl own ↦ inl ((role, held, enough), (text_eq_iff _ _).0 own)
            | inr other ↦ inr (role, held, high role (rw other at allowed))
          ]

  -- If asking for reviews succeeds, the proposal is pending, the acting user is its proposer and a
  -- contributor or above, or an approver or above, every user asked is a member of the tenant with
  -- the role contributor or above and not the proposer, and only the reviewers' table and the
  -- audit log change.
  pub request_review-ok :
      (ctx : ToolContext) (id : Text) (refs : List Text) (w u : World P)
      (rs : List ProposalReviewer)
      → request_review ctx id refs w ≡ (ok rs, u)
      → ReviewRequested ctx id w u
  request_review-ok ctx id refs w u rs h = (request-Ensures ctx id refs w).at rs u h
