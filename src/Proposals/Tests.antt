-- ===== src/Proposals/Tests.antt =====
-- The queue's properties at a small tenant.
use ptv_mcp.Base.{
  ℕ, ◌≤◌, arith, ◌≡◌, refl, ◌≢◌, ◌⊎◌, true, false, [], ◌∷◌, none, some, Text, text, text_eq,
  text_eq_iff, find,
}
use ptv_mcp.World.{
  approver, ProposalStatus, rejected, service_update, ReviewDecision, status_eq, decision_eq, World,
  ok, Result, ◌>>=◌,
}
use ptv_mcp.Roles.{role_of, check_role, require_tenant_role, requires_four_eyes}
use ptv_mcp.Audit.{record_audit}
use ptv_mcp.Proposals.Store.{resolved_row, get_by_id, transition, mark_resolved, is_row}
use ptv_mcp.Proposals.Reviewers.{join_reviewers, join_comments, list_reviewers, list_comments}
use ptv_mcp.Proposals.Queue.{audit_proposal}
use ptv_mcp.Proposals.Resolve.{
  reject, approve_and_apply, ProposalDetails, published_in_ptv, publish_state, recovered,
  proposal_diff_details, proposal_details, approval_guards, resolve_reject, caught, try_apply,
  resolve_apply, act_on, resolve_proposal,
}
use ptv_mcp.Proposals.History.{History}
use ptv_mcp.Proposals.Transition.{UniqueIds}
use ptv_mcp.Proposals.Approval.{HasRole}
use ptv_mcp.Proposals.Outcome.{Resolved, resolve_proposal-ok}
use ptv_mcp.Proposals.Ptv.{MayWrite, resolve_proposal-ptv}
use ptv_mcp.Proposals.Decide.{reject-stores}
use ptv_mcp.Proposals.Reach.{here, further, resolves, Reach-History, resolved_once}
use ptv_mcp.Proposals.Samples.{
  sample_platform, sample_kinds, sample_proposal, sample_reviewer, sample_world, sample_context,
  succeeds, answer,
}

abbrev anna : Text
anna = text "anna"

abbrev waiting_on_anna : World ℕ
waiting_on_anna = sample_world (sample_reviewer anna ReviewDecision.pending ∷ [])

abbrev one_approved : World ℕ
one_approved = sample_world (sample_reviewer anna ReviewDecision.approved ∷ [])

abbrev no_reviewer : World ℕ
no_reviewer = sample_world []

different : (a b : Text) → text_eq a b ≡ false → a ≢ b
different a b h same = cc (h, (text_eq_iff a b).1 same)

ids_differ : (text "p2" ≢ text "p1") × (text "p3" ≢ text "p1") × (text "p3" ≢ text "p2")
unfolding text_eq
ids_differ = (different _ _ refl, different _ _ refl, different _ _ refl)

sample_unique : UniqueIds no_reviewer.proposals
sample_unique = ((ids_differ.0, (ids_differ.1, tt)), ((ids_differ.2, tt), (tt, tt)))

anna_approves : HasRole approver (text "t") anna no_reviewer
unfolding text_eq role_of
anna_approves = (approver, refl, le)
  where
    le : 2 ≤ 2
    le = omega arith

-- Approving to apply, with every sign-off.
abbrev approval : Result ProposalDetails × World ℕ
approval =
    resolve_proposal sample_kinds (sample_context anna) (text "p1") approve_and_apply one_approved

approval_succeeds : succeeds approval.0 ≡ true
unfolding text_eq role_of check_role require_tenant_role get_by_id audit_proposal record_audit ◌>>=◌
    join_reviewers join_comments list_reviewers list_comments proposal_details proposal_diff_details
    recovered publish_state published_in_ptv status_eq decision_eq requires_four_eyes transition
    mark_resolved approval_guards caught try_apply resolve_apply resolve_reject act_on
    resolve_proposal
approval_succeeds = refl

resolve_proposal-ok_example :
    Resolved
      (sample_context anna)
      (text "p1")
      approve_and_apply
      one_approved
      (answer approval approval_succeeds).0
      approval.1
resolve_proposal-ok_example =
    resolve_proposal-ok sample_kinds (sample_context anna) (text "p1") approve_and_apply
      one_approved _ _ sample_unique (answer approval approval_succeeds).1

resolve_proposal-ptv_example :
    (approval.1.ptv ≡ 0) ⊎ MayWrite (sample_context anna) (text "p1") approve_and_apply one_approved
resolve_proposal-ptv_example =
    resolve_proposal-ptv sample_kinds (sample_context anna) (text "p1") approve_and_apply
      one_approved

-- The four-eyes rule and a missing sign-off each stop an approval.
missing_sign_off :
    succeeds
      (resolve_proposal sample_kinds
        (sample_context anna)
        (text "p1")
        approve_and_apply
        waiting_on_anna).0
    ≡ false
unfolding text_eq role_of check_role require_tenant_role get_by_id audit_proposal record_audit ◌>>=◌
    join_reviewers join_comments list_reviewers list_comments proposal_details proposal_diff_details
    recovered publish_state published_in_ptv status_eq decision_eq requires_four_eyes transition
    mark_resolved approval_guards caught try_apply resolve_apply resolve_reject act_on
    resolve_proposal
missing_sign_off = refl

unique_after : UniqueIds approval.1.proposals
unfolding text_eq role_of check_role require_tenant_role get_by_id audit_proposal record_audit ◌>>=◌
    join_reviewers join_comments list_reviewers list_comments proposal_details proposal_diff_details
    recovered publish_state published_in_ptv status_eq decision_eq requires_four_eyes transition
    mark_resolved approval_guards caught try_apply resolve_apply resolve_reject act_on
    resolve_proposal
unique_after = sample_unique

resolved_once_example :
    resolve_proposal sample_kinds (sample_context anna) (text "p1") reject approval.1
    ≢ (ok (answer approval approval_succeeds).0, approval.1)
resolved_once_example =
    resolved_once sample_kinds (sample_context anna) (text "p1") approve_and_apply one_approved _
      approval.1 _ sample_unique (answer approval approval_succeeds).1 here unique_after
      (sample_context anna) refl reject _ _

Reach-History_example : History one_approved approval.1
Reach-History_example =
    Reach-History sample_kinds one_approved approval.1
      (further one_approved _ here (resolves (sample_context anna) (text "p1") approve_and_apply))

-- Rejecting.
reject-stores_example :
    find
      (is_row (text "t") (text "p1"))
      (resolve_proposal sample_kinds
        (sample_context anna)
        (text "p1")
        reject
        no_reviewer).1.proposals
    ≡ some (
        resolved_row rejected anna none 5
          (sample_proposal (text "p1") ProposalStatus.pending service_update))
reject-stores_example =
    reject-stores sample_kinds (sample_context anna) (text "p1") no_reviewer _ sample_unique
      anna_approves found refl
  where
    found :
        find (is_row (text "t") (text "p1")) no_reviewer.proposals
        ≡ some (sample_proposal (text "p1") ProposalStatus.pending service_update)
    found = unfold text_eq in refl
