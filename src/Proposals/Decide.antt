-- ===== src/Proposals/Decide.antt =====
-- What the queue does on a proposal in a known status (src/mcp/proposalQueue.ts, resolveProposal).
use ptv_mcp.Base.{
  ℕ, ◌≤◌, ◌≡◌, refl, ◌∙◌, ◌≢◌, ap, false, Option, none, some, Text, text, find, ltb, arith,
  update_where, subst,
}
use ptv_mcp.World.{
  MembershipRole, approver, ProposalStatus, rejected, ProposalRecord, World, Platform, ok, err,
  already_resolved, ◌>>=◌,
}
use ptv_mcp.World.Keeps.{bind-run, bind-fail, Keeps, bind-Keeps}
use ptv_mcp.Roles.{check_role, require_tenant_role}
use ptv_mcp.Proposals.Store.{is_row, is_row_in, resolved_row, get_by_id, transition, mark_resolved}
use ptv_mcp.Proposals.Kinds.{ToolContext, AppliedOutcome, Frame, ProposalKinds}
use ptv_mcp.Proposals.Queue.{audit_proposal}
use ptv_mcp.Proposals.Resolve.{
  ResolveProposalAction, reject, approve_and_apply, approval_guards, resolve_reject, try_apply,
  resolve_apply, act_on, resolve_proposal, caught, in_environment, stored_of, proposal_details,
}
use ptv_mcp.Proposals.Transition.{UniqueIds, is_row_in-find, find-update, transition-refused}
use ptv_mcp.Proposals.Approval.{HasRole}
use ptv_mcp.Proposals.Details.{Quiet, Quiet-trans, proposal_details-Quiet, audit_proposal-Quiet}

module _ {P : Type 0} where
  pub require_tenant_role-run :
      (tenant user : Text) (min_role : MembershipRole) (w : World P)
      (held : HasRole min_role tenant user w)
      → require_tenant_role tenant user min_role w ≡ (ok held.0, w)
  unfolding require_tenant_role check_role
  require_tenant_role-run tenant user min_role w (role, found, enough) =
      rw (found, check_role, not_low _ _ enough) refl
    where
      not_low : (a b : ℕ) → b ≤ a → ltb a b ≡ false
      not_low a b h = ground arith

  pub get_by_id-run :
      (tenant id : Text) (w : World P) (p : ProposalRecord)
      → find (is_row tenant id) w.proposals ≡ some p
      → get_by_id tenant id w ≡ (ok p, w)
  unfolding get_by_id
  get_by_id-run tenant id w p h = rw h refl

  pub mark_resolved-run :
      (tenant id : Text) (status : ProposalStatus) (user : Text) (created : Option Text)
      (w : World P) (p : ProposalRecord)
      → find (is_row tenant id) w.proposals ≡ some p
      → p.status ≡ ProposalStatus.pending
      → mark_resolved tenant id status user created w ≡ (
        ok (resolved_row status user created w.now p),
        record w {
          proposals =
              update_where
                (is_row_in tenant id ProposalStatus.pending)
                (resolved_row status user created w.now)
                w.proposals;
        },
      )
  unfolding mark_resolved transition
  mark_resolved-run tenant id status user created w p h s =
      rw (is_row_in-find tenant id _ w.proposals p h s, transition) refl

module _ {P : Type 0} ⦃platform : Platform⦄ (kinds : ProposalKinds P) where
  -- The entry of a resolution.
  resolve_proposal-run :
      (ctx : ToolContext) (id : Text) (action : ResolveProposalAction) (w : World P)
      (p : ProposalRecord)
      → HasRole approver ctx.tenant_id ctx.acting_user_id w
      → find (is_row ctx.tenant_id id) w.proposals ≡ some p
      → resolve_proposal kinds ctx id action w ≡ act_on kinds ctx p id action w
  unfolding resolve_proposal
  resolve_proposal-run ctx id action w p role found =
      bind-run _ _ w w role.0
        (require_tenant_role-run ctx.tenant_id ctx.acting_user_id approver w role)
      ∙ bind-run _ _ w w p (get_by_id-run ctx.tenant_id id w p found)

  rejected_rest :
      (ctx : ToolContext) (p q : ProposalRecord) (action result : Text)
      → Keeps Quiet (
          audit_proposal ctx p action result none >>= λ _.
          proposal_details kinds (in_environment ctx p) q)
  rejected_rest ctx p q action result =
      bind-Keeps Quiet Quiet-trans _ _ (audit_proposal-Quiet ctx p action result none)
        λ _. proposal_details-Quiet kinds (in_environment ctx p) q

  -- If proposal ids are unique, an approver or above who rejects a pending proposal leaves it
  -- rejected, whoever proposed it, whatever the four-eyes setting and the reviewers say, and even
  -- if showing its details fails.
  pub reject-stores :
      (ctx : ToolContext) (id : Text) (w : World P) (p : ProposalRecord)
      → UniqueIds w.proposals
      → HasRole approver ctx.tenant_id ctx.acting_user_id w
      → find (is_row ctx.tenant_id id) w.proposals ≡ some p
      → p.status ≡ ProposalStatus.pending
      → find (is_row ctx.tenant_id id) (resolve_proposal kinds ctx id reject w).1.proposals
        ≡ some (resolved_row rejected ctx.acting_user_id none w.now p)
  unfolding act_on resolve_reject
  reject-stores ctx id w p unique role found is_pending =
      let marked =
        mark_resolved-run ctx.tenant_id id rejected ctx.acting_user_id none w p found is_pending in
      let ran = resolve_proposal-run ctx id reject w p role found ∙ bind-run _ _ w _ _ marked in
      let rest =
        (rejected_rest ctx p (resolved_row rejected ctx.acting_user_id none w.now p)
            (text "ResolveProposal") (text "Rejected")).at
          (mark_resolved ctx.tenant_id id rejected ctx.acting_user_id none w).1 in
      rw
        (
          ap (λ x. x.1.proposals) ran,
          ← ap (λ x. x.1) marked,
          rest.proposals,
          ap (λ x. x.1.proposals) marked,
        )
        (find-update ctx.tenant_id id ProposalStatus.pending _ w.proposals p (λ _. refl) unique
          (is_row_in-find ctx.tenant_id id _ w.proposals p found is_pending))

  -- If proposal ids are unique, an approver or above approves a proposal that is no longer
  -- pending, the approval guards pass and the handler's write to PTV succeeds, then the call is
  -- refused as already resolved, and the state is the one that the handler's write left.
  pub apply_on_resolved :
      (ctx : ToolContext) (id : Text) (w v : World P) (p : ProposalRecord)
      (outcome : AppliedOutcome)
      → UniqueIds w.proposals
      → HasRole approver ctx.tenant_id ctx.acting_user_id w
      → find (is_row ctx.tenant_id id) w.proposals ≡ some p
      → p.status ≢ ProposalStatus.pending
      → approval_guards kinds ctx p id w ≡ (ok tt, w)
      → (kinds.handler p.kind).apply (in_environment ctx p) (stored_of p) w ≡ (ok outcome, v)
      → resolve_proposal kinds ctx id approve_and_apply w ≡ (err (already_resolved p.status), v)
  unfolding act_on resolve_apply try_apply caught mark_resolved
  apply_on_resolved ctx id w v p outcome unique role found closed guards applied_ok =
      let framed : Frame w v =
        subst (Frame w) (ap (λ x. x.1) applied_ok)
          (kinds.apply_frame p.kind (in_environment ctx p) (stored_of p) w) in
      resolve_proposal-run ctx id approve_and_apply w p role found
      ∙ bind-run _ _ w w tt guards
      ∙ bind-run _ _ w v outcome (ap (λ x. caught kinds ctx p id x.0 x.1) applied_ok)
      ∙ bind-fail _ _ v v (already_resolved p.status) (
          transition-refused ctx.tenant_id id _ _ v p (rw framed.proposals unique)
            (rw framed.proposals found) closed)
