-- ===== src/Proposals/QueueSafety.antt =====
-- Every tool of the proposal queue only adds to the history, whatever it answers.
use ptv_mcp.Base.{List, Option, Text, none, some}
use ptv_mcp.Json.{Json}
use ptv_mcp.World.{MembershipRole, ReviewDecision, ProposalRecord, Platform}
use ptv_mcp.Roles.{require_tenant_role}
use ptv_mcp.Proposals.Kinds.{ToolContext}
use ptv_mcp.Proposals.Queue.{
  proposal_entry, audit_proposal, comment_on_proposal, request_review, sign_off_proposal,
  trimmed_note, check_note_length,
}
use ptv_mcp.Proposals.History.{Advances-refl}
use ptv_mcp.Proposals.StoreSafety.{Steady, bind-Steady, get_by_id-Steady}
use ptv_mcp.Proposals.ReviewerSafety.{
  record_audit-Steady, add_comment-Steady, add_reviewers-Steady, record_decision-Steady,
}

module _ {P : Type 0} where
  pub require_tenant_role-Steady :
      (tenant user : Text) (role : MembershipRole)
      → Steady {P = P} (require_tenant_role tenant user role)
  unfolding require_tenant_role
  require_tenant_role-Steady tenant user role = record { at = λ w. Advances-refl w }

module _ {P : Type 0} where
  check_note_length-Steady : (note : Option Text) → Steady {P = P} (check_note_length note)
  check_note_length-Steady none = record { at = Advances-refl }
  check_note_length-Steady (some t) = record { at = Advances-refl }

module _ {P : Type 0} ⦃platform : Platform⦄ where
  pub audit_proposal-Steady :
      (ctx : ToolContext) (p : ProposalRecord) (action result : Text) (state : Option Json)
      → Steady {P = P} (audit_proposal ctx p action result state)
  unfolding audit_proposal
  audit_proposal-Steady ctx p action result state =
      record_audit-Steady (proposal_entry ctx p action result state)

  pub comment_on_proposal-Steady :
      (ctx : ToolContext) (id body : Text) → Steady {P = P} (comment_on_proposal ctx id body)
  unfolding comment_on_proposal
  comment_on_proposal-Steady ctx id body =
      bind-Steady _ _ (require_tenant_role-Steady ctx.tenant_id ctx.acting_user_id _) λ _.
        bind-Steady _ _ (record { at = Advances-refl })
          λ _.
            bind-Steady _ _ (record { at = Advances-refl })
              λ _. bind-Steady _ _ (get_by_id-Steady ctx.tenant_id id) λ p.
                bind-Steady _ _ (add_comment-Steady ctx.tenant_id p.id ctx.acting_user_id _) λ _.
                  bind-Steady _ _ (audit_proposal-Steady ctx p _ _ _)
                    λ _. record { at = Advances-refl }

  pub request_review-Steady :
      (ctx : ToolContext) (id : Text) (reviewers : List Text)
      → Steady {P = P} (request_review ctx id reviewers)
  unfolding request_review
  request_review-Steady ctx id reviewers =
      bind-Steady _ _ (require_tenant_role-Steady ctx.tenant_id ctx.acting_user_id _) λ _.
        bind-Steady _ _ (get_by_id-Steady ctx.tenant_id id) λ p.
          bind-Steady _ _ (record { at = Advances-refl })
            λ _.
              bind-Steady _ _ (record { at = Advances-refl })
                λ _.
                  bind-Steady _ _ (record { at = Advances-refl })
                    λ _.
                      bind-Steady _ _ (record { at = Advances-refl })
                        λ _.
                          bind-Steady _ _ (record { at = Advances-refl })
                            λ ids.
                              bind-Steady _ _
                                (add_reviewers-Steady ctx.tenant_id p.id ids ctx.acting_user_id)
                                λ _.
                                  bind-Steady _ _ (audit_proposal-Steady ctx p _ _ _)
                                    λ _. record { at = Advances-refl }

  pub sign_off_proposal-Steady :
      (ctx : ToolContext) (id : Text) (decision : ReviewDecision) (comment : Option Text)
      → Steady {P = P} (sign_off_proposal ctx id decision comment)
  unfolding sign_off_proposal
  sign_off_proposal-Steady ctx id decision comment =
      bind-Steady _ _ (require_tenant_role-Steady ctx.tenant_id ctx.acting_user_id _) λ _.
        bind-Steady _ _ (check_note_length-Steady (trimmed_note comment)) λ _.
          bind-Steady _ _ (get_by_id-Steady ctx.tenant_id id) λ p.
            bind-Steady _ _ (record { at = Advances-refl })
              λ _.
                bind-Steady _ _
                  (record_decision-Steady ctx.tenant_id p.id ctx.acting_user_id decision _)
                  λ _.
                    bind-Steady _ _ (audit_proposal-Steady ctx p _ _ _)
                      λ _. record { at = Advances-refl }
