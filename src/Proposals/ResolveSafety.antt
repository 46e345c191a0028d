-- ===== src/Proposals/ResolveSafety.antt =====
-- Every way of resolving a proposal only adds to the history, whatever it answers.
use ptv_mcp.Base.{Option, Text, Extends-refl, Bool-cases, inl, inr}
use ptv_mcp.World.{ProposalRecord, Platform, ServiceError, World, ok, err, Result}
use ptv_mcp.Proposals.Kinds.{ToolContext, AppliedOutcome, Frame, ProposalKinds}
use ptv_mcp.Proposals.Reviewers.{list_comments, list_reviewers}
use ptv_mcp.Proposals.Resolve.{
  ResolveProposalAction, reject, approve_and_export, approve_and_apply, proposal_diff_details,
  proposal_details, get_proposal, approval_guards, resolve_reject, resolve_export, caught,
  record_failure, apply_failed, try_apply, resolve_apply, resolve_proposal, check_created_item,
  check_created, check_update, check_published, confirm_manual_publish, act_on, is_adapter_refusal,
  in_environment, stored_of,
}
use ptv_mcp.Proposals.History.{
  Advances, Advances-refl, Evolves-refl, ReviewersEvolve-refl, Advances-trans,
}
use ptv_mcp.Proposals.StoreSafety.{
  Steady, bind-Steady, get_by_id-Steady, mark_resolved-Steady, mark_published-Steady,
}
use ptv_mcp.Proposals.QueueSafety.{require_tenant_role-Steady, audit_proposal-Steady}

Frame-Advances : {P : Type 0} (w v : World P) → Frame w v → Advances w v
Frame-Advances w v f = record {
  history = record {
    proposals = rw f.proposals (Evolves-refl w.proposals);
    comments = rw f.comments (Extends-refl w.comments);
    reviewers = rw f.reviewers (ReviewersEvolve-refl w.reviewers);
    audit = f.audit;
  };
  users = f.users;
  memberships = f.memberships;
  tenants = f.tenants;
}

module _ {P : Type 0} ⦃platform : Platform⦄ (kinds : ProposalKinds P) where
  proposal_diff_details-Steady :
      (ctx : ToolContext) (p : ProposalRecord) → Steady (proposal_diff_details kinds ctx p)
  unfolding proposal_diff_details
  proposal_diff_details-Steady ctx p = record {
    at = λ w.
        Frame-Advances w _ (kinds.live_diff_frame p.kind (in_environment ctx p) (stored_of p) w);
  }

  proposal_details-Steady :
      (ctx : ToolContext) (p : ProposalRecord) → Steady (proposal_details kinds ctx p)
  unfolding proposal_details list_comments list_reviewers
  proposal_details-Steady ctx p = bind-Steady _ _ (proposal_diff_details-Steady ctx p) λ _.
      bind-Steady _ _ (record { at = Advances-refl })
        λ _. bind-Steady _ _ (record { at = Advances-refl }) λ _. record { at = Advances-refl }

  pub get_proposal-Steady : (ctx : ToolContext) (id : Text) → Steady (get_proposal kinds ctx id)
  unfolding get_proposal
  get_proposal-Steady ctx id =
      bind-Steady _ _ (require_tenant_role-Steady ctx.tenant_id ctx.acting_user_id _) λ _.
        bind-Steady _ _ (get_by_id-Steady ctx.tenant_id id) λ p.
          bind-Steady _ _ (audit_proposal-Steady ctx p _ _ _) λ _. proposal_details-Steady ctx p

  approval_guards-Steady :
      (ctx : ToolContext) (p : ProposalRecord) (id : Text) → Steady (approval_guards kinds ctx p id)
  unfolding approval_guards list_reviewers
  approval_guards-Steady ctx p id =
      bind-Steady _ _ (record { at = Advances-refl })
        λ _.
          bind-Steady _ _ (record { at = Advances-refl })
            λ _. bind-Steady _ _ (record { at = Advances-refl }) λ _. record { at = Advances-refl }

  resolve_reject-Steady :
      (ctx : ToolContext) (p : ProposalRecord) (id : Text) → Steady (resolve_reject kinds ctx p id)
  unfolding resolve_reject
  resolve_reject-Steady ctx p id =
      bind-Steady _ _ (mark_resolved-Steady ctx.tenant_id id _ ctx.acting_user_id _)
        λ q. bind-Steady _ _ (audit_proposal-Steady ctx p _ _ _) λ _. proposal_details-Steady _ q

  resolve_export-Steady :
      (ctx : ToolContext) (p : ProposalRecord) (id : Text) → Steady (resolve_export kinds ctx p id)
  unfolding resolve_export
  resolve_export-Steady ctx p id =
      bind-Steady _ _ (record { at = λ w. Frame-Advances w _ (kinds.export_frame p.kind _ _ w) })
        λ _.
          bind-Steady _ _ (mark_resolved-Steady ctx.tenant_id id _ ctx.acting_user_id _) λ q.
            bind-Steady _ _ (audit_proposal-Steady ctx p _ _ _) λ _. proposal_details-Steady _ q

  record_failure-Steady :
      (ctx : ToolContext) (p : ProposalRecord) (id : Text) (e : ServiceError)
      → Steady (record_failure kinds ctx p id e)
  unfolding record_failure
  record_failure-Steady ctx p id e =
      bind-Steady _ _ (mark_resolved-Steady ctx.tenant_id id _ ctx.acting_user_id _)
        λ _. bind-Steady _ _ (audit_proposal-Steady ctx p _ _ _) λ _. record { at = Advances-refl }

  caught-Steady :
      (ctx : ToolContext) (p : ProposalRecord) (id : Text) (r : Result AppliedOutcome)
      → Steady (caught kinds ctx p id r)
  unfolding caught apply_failed
  caught-Steady ctx p id (ok outcome) = record { at = Advances-refl }
  caught-Steady ctx p id (err e) = elim (Bool-cases (is_adapter_refusal e)) [
    | inl refused ↦ rw refused (record { at = Advances-refl })
    | inr other ↦ rw other (record_failure-Steady ctx p id e)
  ]

  try_apply-Steady :
      (ctx : ToolContext) (p : ProposalRecord) (id : Text) → Steady (try_apply kinds ctx p id)
  unfolding try_apply
  try_apply-Steady ctx p id = record {
    at = λ w.
        Advances-trans w _ _ (Frame-Advances w _ (kinds.apply_frame p.kind _ _ w))
          ((caught-Steady ctx p id _).at _);
  }

  resolve_apply-Steady :
      (ctx : ToolContext) (p : ProposalRecord) (id : Text) → Steady (resolve_apply kinds ctx p id)
  unfolding resolve_apply
  resolve_apply-Steady ctx p id = bind-Steady _ _ (try_apply-Steady ctx p id) λ _.
      bind-Steady _ _ (mark_resolved-Steady ctx.tenant_id id _ ctx.acting_user_id _)
        λ q. bind-Steady _ _ (audit_proposal-Steady ctx p _ _ _) λ _. proposal_details-Steady _ q

  act_on-Steady :
      (ctx : ToolContext) (p : ProposalRecord) (id : Text) (action : ResolveProposalAction)
      → Steady (act_on kinds ctx p id action)
  unfolding act_on
  act_on-Steady ctx p id reject = resolve_reject-Steady ctx p id
  act_on-Steady ctx p id approve_and_export =
      bind-Steady _ _ (approval_guards-Steady ctx p id) λ _. resolve_export-Steady ctx p id
  act_on-Steady ctx p id approve_and_apply =
      bind-Steady _ _ (approval_guards-Steady ctx p id) λ _. resolve_apply-Steady ctx p id

  pub resolve_proposal-Steady :
      (ctx : ToolContext) (id : Text) (action : ResolveProposalAction)
      → Steady (resolve_proposal kinds ctx id action)
  unfolding resolve_proposal
  resolve_proposal-Steady ctx id action =
      bind-Steady _ _ (require_tenant_role-Steady ctx.tenant_id ctx.acting_user_id _)
        λ _. bind-Steady _ _ (get_by_id-Steady ctx.tenant_id id) λ p. act_on-Steady ctx p id action

  check_update-Steady : (ctx : ToolContext) (p : ProposalRecord) → Steady (check_update kinds ctx p)
  unfolding check_update
  check_update-Steady ctx p =
      bind-Steady _ _ (proposal_diff_details-Steady _ p)
        λ _. bind-Steady _ _ (record { at = Advances-refl }) λ _. record { at = Advances-refl }

  check_created-Steady :
      (ctx : ToolContext) (p : ProposalRecord) (id : Text) → Steady (check_created kinds ctx p id)
  unfolding check_created check_created_item
  check_created-Steady ctx p id =
      bind-Steady _ _ (record { at = Advances-refl })
        λ _.
          bind-Steady _ _
            (bind-Steady _ _
              (record { at = λ w. Frame-Advances w _ (kinds.read_created_frame p.kind _ _ w) })
              (λ _. record { at = Advances-refl }))
            λ _. record { at = Advances-refl }

  check_published-Steady :
      (ctx : ToolContext) (p : ProposalRecord) (id : Option Text)
      → Steady (check_published kinds ctx p id)
  unfolding check_published
  check_published-Steady ctx p id = elim (Bool-cases (kinds.handler p.kind).creates) [
    | inl new ↦ rw new (check_created-Steady ctx p _)
    | inr old ↦ rw old (check_update-Steady ctx p)
  ]

  pub confirm_manual_publish-Steady :
      (ctx : ToolContext) (id : Text) (ptv_id : Option Text)
      → Steady (confirm_manual_publish kinds ctx id ptv_id)
  unfolding confirm_manual_publish
  confirm_manual_publish-Steady ctx id ptv_id =
      bind-Steady _ _ (require_tenant_role-Steady ctx.tenant_id ctx.acting_user_id _) λ _.
        bind-Steady _ _ (get_by_id-Steady ctx.tenant_id id) λ p.
          bind-Steady _ _ (record { at = Advances-refl })
            λ _. bind-Steady _ _ (check_published-Steady ctx p ptv_id) λ _.
              bind-Steady _ _ (mark_published-Steady ctx.tenant_id id _) λ q.
                bind-Steady _ _ (audit_proposal-Steady ctx p _ _ _) λ _. proposal_details-Steady _ q
