-- ===== src/Proposals/MoreTests.antt =====
-- The properties of the store, of reviews, comments and manual publishing, at a small tenant.
use ptv_mcp.Base.{
  ℕ, ◌≤◌, arith, ◌≡◌, refl, ◌≢◌, true, false, List, [], ◌∷◌, none, some, Text, text, text_eq,
  is_space, trim, trim_start, text_eq_iff, find,
}
use ptv_mcp.World.{
  approver, ProposalStatus, applied, rejected, service_update, ReviewDecision, status_eq,
  decision_eq, ProposalRecord, World, ok, err, already_resolved, Result, ◌>>=◌,
}
use ptv_mcp.Roles.{role_of, check_role, require_tenant_role, requires_four_eyes}
use ptv_mcp.Audit.{record_audit}
use ptv_mcp.Proposals.Store.{get_by_id, transition, mark_resolved, mark_published, is_row}
use ptv_mcp.Proposals.Reviewers.{
  ProposalComment, ProposalReviewer, join_reviewers, join_comments, list_reviewers, list_comments,
  record_decision, awaiting, insert_reviewers, add_reviewers, save_comment, add_comment,
}
use ptv_mcp.Proposals.Candidates.{
  members_of, review_candidates_of, find_review_candidate, reviewer_ids,
}
use ptv_mcp.Proposals.Queue.{audit_proposal, comment_on_proposal, request_review, sign_off_proposal}
use ptv_mcp.Proposals.Resolve.{
  approve_and_apply, ProposalDetails, published_in_ptv, publish_state, item_matches,
  created_item_ok, recovered, proposal_diff_details, proposal_details, approval_guards,
  resolve_proposal, check_created_item, check_created, check_update, check_published,
  confirm_manual_publish,
}
use ptv_mcp.Proposals.History.{CanBecome, History-refl}
use ptv_mcp.Proposals.Transition.{UniqueIds}
use ptv_mcp.Proposals.Exclusive.{resolution_exclusive}
use ptv_mcp.Proposals.Approval.{HasRole}
use ptv_mcp.Proposals.Decide.{apply_on_resolved}
use ptv_mcp.Proposals.Confirm.{Confirmed, confirm_manual_publish-ok}
use ptv_mcp.Proposals.Requested.{Requested, insert_reviewers-ok}
use ptv_mcp.Proposals.Request.{ReviewRequested, request_review-ok}
use ptv_mcp.Proposals.Commented.{Commented, comment_on_proposal-ok}
use ptv_mcp.Proposals.SignOff.{SignedOff, sign_off_proposal-ok, signed_off_awaiting}
use ptv_mcp.Proposals.Samples.{
  sample_platform, sample_kinds, sample_proposal, sample_reviewer, sample_world, sample_context,
  succeeds, answer,
}

abbrev pub anna : Text
anna = text "anna"

abbrev carl : Text
carl = text "carl"

abbrev waiting_on_anna : World ℕ
waiting_on_anna = sample_world (sample_reviewer anna ReviewDecision.pending ∷ [])

abbrev no_reviewer : World ℕ
no_reviewer = sample_world []

different : (a b : Text) → text_eq a b ≡ false → a ≢ b
different a b h same = cc (h, (text_eq_iff a b).1 same)

ids_differ : (text "p2" ≢ text "p1") × (text "p3" ≢ text "p1") × (text "p3" ≢ text "p2")
unfolding text_eq
ids_differ = (different _ _ refl, different _ _ refl, different _ _ refl)

sample_unique : UniqueIds no_reviewer.proposals
sample_unique = ((ids_differ.0, (ids_differ.1, tt)), ((ids_differ.2, tt), (tt, tt)))

-- Two resolutions that reach the database one after the other.
abbrev rejection : Result ProposalRecord × World ℕ
rejection = mark_resolved (text "t") (text "p1") rejected anna none no_reviewer

rejection_succeeds : succeeds rejection.0 ≡ true
unfolding text_eq status_eq transition mark_resolved
rejection_succeeds = refl

unique_after : UniqueIds rejection.1.proposals
unfolding text_eq status_eq transition mark_resolved
unique_after = sample_unique

resolution_exclusive_example :
    (r : ProposalStatus) × (CanBecome rejected r)
    × (mark_resolved (text "t") (text "p1") applied carl none rejection.1
        ≡ (err (already_resolved r), rejection.1))
resolution_exclusive_example =
    resolution_exclusive (text "t") (text "p1") rejected anna none no_reviewer _ _ sample_unique
      decided (answer rejection rejection_succeeds).1 rejection.1 (History-refl _) unique_after
      applied carl none
  where
    decided : rejected ≢ ProposalStatus.pending
    decided h = cc h

-- The applied proposal `p3`, approved once more.
apply_on_resolved_example :
    resolve_proposal sample_kinds (sample_context anna) (text "p3") approve_and_apply no_reviewer
    ≡ (err (already_resolved applied), record no_reviewer { ptv = 1 })
apply_on_resolved_example =
    apply_on_resolved sample_kinds (sample_context anna) (text "p3") no_reviewer _ _ _ sample_unique
      anna_approves found decided guards refl
  where
    le : 2 ≤ 2
    le = omega arith

    anna_approves : HasRole approver (text "t") anna no_reviewer
    anna_approves = (approver, (unfold text_eq role_of in refl), le)

    found :
        find (is_row (text "t") (text "p3")) no_reviewer.proposals
        ≡ some (sample_proposal (text "p3") applied service_update)
    found = unfold text_eq in refl

    decided : applied ≢ ProposalStatus.pending
    decided h = cc h

    guards :
        approval_guards sample_kinds
          (sample_context anna)
          (sample_proposal (text "p3") applied service_update)
          (text "p3")
          no_reviewer
        ≡ (ok tt, no_reviewer)
    guards =
        unfold text_eq requires_four_eyes approval_guards join_reviewers list_reviewers decision_eq
          ◌>>=◌ in
        refl

-- Confirming that `p2` was created in PTV.
abbrev confirmation : Result ProposalDetails × World ℕ
confirmation =
    confirm_manual_publish sample_kinds (sample_context anna) (text "p2") (some (text " id "))
      no_reviewer

confirmation_succeeds : succeeds confirmation.0 ≡ true
unfolding text_eq role_of check_role require_tenant_role get_by_id audit_proposal record_audit ◌>>=◌
    is_space trim trim_start join_reviewers join_comments list_reviewers list_comments
    proposal_details proposal_diff_details recovered publish_state published_in_ptv status_eq
    decision_eq transition mark_published item_matches created_item_ok check_created_item
    check_created check_update check_published confirm_manual_publish
confirmation_succeeds = refl

confirm_manual_publish-ok_example :
    Confirmed sample_kinds
      (sample_context anna)
      (text "p2")
      (some (text " id "))
      no_reviewer
      (answer confirmation confirmation_succeeds).0
      confirmation.1
confirm_manual_publish-ok_example =
    confirm_manual_publish-ok sample_kinds (sample_context anna) (text "p2") (some (text " id "))
      no_reviewer _ _ sample_unique (answer confirmation confirmation_succeeds).1

-- Signing off.
abbrev sign_off : Result (List ProposalReviewer) × World ℕ
sign_off =
    sign_off_proposal (sample_context anna) (text "p1") ReviewDecision.approved
      (some (text " fine ")) waiting_on_anna

sign_off_succeeds : succeeds sign_off.0 ≡ true
unfolding text_eq role_of check_role require_tenant_role get_by_id audit_proposal record_audit ◌>>=◌
    is_space trim trim_start status_eq join_reviewers list_reviewers record_decision
    sign_off_proposal
sign_off_succeeds = refl

sign_off_proposal-ok_example :
    SignedOff
      (sample_context anna)
      (text "p1")
      ReviewDecision.approved
      (some (text " fine "))
      waiting_on_anna
      sign_off.1
sign_off_proposal-ok_example =
    sign_off_proposal-ok (sample_context anna) (text "p1") ReviewDecision.approved
      (some (text " fine ")) waiting_on_anna _ _ (answer sign_off sign_off_succeeds).1

signed_off_awaiting_example :
    awaiting
      (text "t")
      anna
      sign_off.1.reviewers
      (sample_proposal (text "p1") ProposalStatus.pending service_update)
    ≡ false
signed_off_awaiting_example =
    signed_off_awaiting (sample_context anna) (text "p1") ReviewDecision.approved
      (some (text " fine ")) waiting_on_anna _ _ (refl, tt) decided
      (answer sign_off sign_off_succeeds).1
      (sample_proposal (text "p1") ProposalStatus.pending service_update) found
  where
    decided : ReviewDecision.approved ≢ ReviewDecision.pending
    decided h = cc h

    found :
        find (is_row (text "t") (text "p1")) sign_off.1.proposals
        ≡ some (sample_proposal (text "p1") ProposalStatus.pending service_update)
    found =
        unfold text_eq role_of check_role require_tenant_role get_by_id audit_proposal record_audit
          ◌>>=◌ is_space trim trim_start status_eq join_reviewers list_reviewers record_decision
          sign_off_proposal in
        refl

-- Asking the same reviewer twice.
insert_reviewers-ok_example :
    Requested
      (text "p1")
      (anna ∷ carl ∷ anna ∷ [])
      (sample_reviewer anna ReviewDecision.approved ∷ [])
      (insert_reviewers
        (text "t")
        (text "p1")
        carl
        7
        (anna ∷ carl ∷ anna ∷ [])
        (sample_reviewer anna ReviewDecision.approved ∷ []))
insert_reviewers-ok_example =
    insert_reviewers-ok (text "t") (text "p1") carl 7 (anna ∷ carl ∷ anna ∷ [])
      (sample_reviewer anna ReviewDecision.approved ∷ []) (refl, tt)

abbrev request : Result (List ProposalReviewer) × World ℕ
request = request_review (sample_context carl) (text "p1") (text "anna@t.fi" ∷ []) no_reviewer

request_succeeds : succeeds request.0 ≡ true
unfolding text_eq role_of check_role require_tenant_role get_by_id audit_proposal record_audit ◌>>=◌
    is_space trim trim_start status_eq join_reviewers list_reviewers insert_reviewers add_reviewers
    members_of review_candidates_of find_review_candidate reviewer_ids request_review
request_succeeds = refl

request_review-ok_example : ReviewRequested (sample_context carl) (text "p1") no_reviewer request.1
request_review-ok_example =
    request_review-ok (sample_context carl) (text "p1") (text "anna@t.fi" ∷ []) no_reviewer _ _
      (answer request request_succeeds).1

abbrev remark : Result ProposalComment × World ℕ
remark = comment_on_proposal (sample_context carl) (text "p1") (text "  please look ") no_reviewer

remark_succeeds : succeeds remark.0 ≡ true
unfolding text_eq role_of check_role require_tenant_role get_by_id audit_proposal record_audit ◌>>=◌
    is_space trim trim_start save_comment add_comment comment_on_proposal
remark_succeeds = refl

comment_on_proposal-ok_example :
    Commented
      (sample_context carl)
      (text "p1")
      (text "  please look ")
      no_reviewer
      (answer remark remark_succeeds).0
      remark.1
comment_on_proposal-ok_example =
    comment_on_proposal-ok (sample_context carl) (text "p1") (text "  please look ") no_reviewer _ _
      (answer remark remark_succeeds).1
