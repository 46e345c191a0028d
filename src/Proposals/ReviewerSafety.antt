-- ===== src/Proposals/ReviewerSafety.antt =====
-- New proposals, audit entries, required reviewers and comments only add to the history
-- (src/proposals/proposalService.ts, src/audit/auditService.ts).
use ptv_mcp.Base.{
  ℕ, ◌+◌, refl, List, [], ◌∷◌, ◌++◌, Option, Text, any, Extends-refl, Extends-append, update_where,
  Bool-cases, Option-cases, inl, inr,
}
use ptv_mcp.World.{ReviewDecision, CommentRow, ReviewerRow, World, Platform, AuditEntry, ◌>>=◌}
use ptv_mcp.Audit.{AuditEntryInput, record_audit}
use ptv_mcp.Proposals.Store.{NewProposal, get_by_id, create_pending}
use ptv_mcp.Proposals.Reviewers.{
  insert_reviewers, is_taken, list_reviewers, add_reviewers, record_decision, save_comment,
  add_comment, user_name_of, of_reviewer, decided_row,
}
use ptv_mcp.Proposals.History.{
  Evolves-refl, Evolves-append, ReviewersEvolve, ReviewersEvolve-refl, ReviewersEvolve-append,
  ReviewersEvolve-trans, update-ReviewersEvolve, Advances,
}
use ptv_mcp.Proposals.StoreSafety.{Steady, bind-Steady, get_by_id-Steady, reviewers_Advances}

insert_reviewers-ReviewersEvolve :
    (tenant id by : Text) (now : ℕ) (users : List Text) (rows : List ReviewerRow)
    → ReviewersEvolve rows (insert_reviewers tenant id by now users rows)
unfolding insert_reviewers
insert_reviewers-ReviewersEvolve tenant id by now [] rows = ReviewersEvolve-refl rows
insert_reviewers-ReviewersEvolve tenant id by now (user ∷ users) rows =
    elim (Bool-cases (is_taken id user rows)) [
      | inl taken ↦ rw taken (insert_reviewers-ReviewersEvolve tenant id by now users rows)
      | inr free ↦ rw free (
          ReviewersEvolve-trans rows (rows ++ _) _ (ReviewersEvolve-append rows _)
            (insert_reviewers-ReviewersEvolve tenant id by now users (rows ++ _)))
    ]

module _ {P : Type 0} ⦃platform : Platform⦄ where
  pub create_pending-Steady : (input : NewProposal) → Steady {P = P} (create_pending input)
  unfolding create_pending
  create_pending-Steady input = record {
    at = λ w. record {
      history = record {
        proposals = Evolves-append w.proposals _;
        comments = Extends-refl w.comments;
        reviewers = ReviewersEvolve-refl w.reviewers;
        audit = Extends-refl w.audit;
      };
      users = refl;
      memberships = refl;
      tenants = refl;
    };
  }

  appended_audit :
      (w : World P) (entries : List AuditEntry) (seed : ℕ)
      → Advances w (record w { audit = w.audit ++ entries; seed = seed })
  appended_audit w entries seed = record {
    history = record {
      proposals = Evolves-refl w.proposals;
      comments = Extends-refl w.comments;
      reviewers = ReviewersEvolve-refl w.reviewers;
      audit = Extends-append w.audit entries;
    };
    users = refl;
    memberships = refl;
    tenants = refl;
  }

  appended_comment :
      (w : World P) (rows : List CommentRow)
      → Advances w (record w { comments = w.comments ++ rows; seed = w.seed + 1 })
  appended_comment w rows = record {
    history = record {
      proposals = Evolves-refl w.proposals;
      comments = Extends-append w.comments rows;
      reviewers = ReviewersEvolve-refl w.reviewers;
      audit = Extends-refl w.audit;
    };
    users = refl;
    memberships = refl;
    tenants = refl;
  }

  pub record_audit-Steady : (input : AuditEntryInput) → Steady {P = P} (record_audit input)
  unfolding record_audit
  record_audit-Steady input = record {
    at = λ w. elim (Option-cases input.correlation_id) [
      | inl fresh ↦ rw fresh (appended_audit w _ _)
      | inr (id, given) ↦ rw given (appended_audit w _ _)
    ];
  }

  pub add_reviewers-Steady :
      (tenant id : Text) (users : List Text) (by : Text)
      → Steady {P = P} (add_reviewers tenant id users by)
  unfolding add_reviewers list_reviewers ◌>>=◌
  add_reviewers-Steady tenant id users by = record {
    at = λ w.
        reviewers_Advances w _
          (insert_reviewers-ReviewersEvolve tenant id by w.now users w.reviewers);
  }

  decided_Advances :
      (tenant id user : Text) (decision : ReviewDecision) (comment : Option Text) (w : World P)
      → Advances w (record w {
        reviewers =
            update_where
              (of_reviewer tenant id user)
              (decided_row decision comment w.now)
              w.reviewers;
      })
  decided_Advances tenant id user decision comment w = reviewers_Advances w _ (
      update-ReviewersEvolve (of_reviewer tenant id user) (decided_row decision comment w.now)
        (λ r. record {
          tenant_id = refl;
          proposal_id = refl;
          user_id = refl;
          requested_by = refl;
          requested_at = refl;
        })
        w.reviewers)

  pub record_decision-Steady :
      (tenant id user : Text) (decision : ReviewDecision) (comment : Option Text)
      → Steady {P = P} (record_decision tenant id user decision comment)
  unfolding record_decision list_reviewers ◌>>=◌
  record_decision-Steady tenant id user decision comment = record {
    at = λ w. elim (Bool-cases (any (of_reviewer tenant id user) w.reviewers)) [
      | inl known ↦ rw (known, record_decision) (decided_Advances tenant id user decision comment w)
      | inr unknown ↦
          rw (unknown, record_decision) (decided_Advances tenant id user decision comment w)
    ];
  }

  save_comment-Steady :
      (tenant id user body : Text) → Steady {P = P} (save_comment tenant id user body)
  unfolding save_comment
  save_comment-Steady tenant id user body = record {
    at = λ w. elim (Option-cases (user_name_of user w.users)) [
      | inl unknown ↦ rw (unknown, save_comment) (appended_comment w _)
      | inr (name, known) ↦ rw (known, save_comment) (appended_comment w _)
    ];
  }

  pub add_comment-Steady :
      (tenant id user body : Text) → Steady {P = P} (add_comment tenant id user body)
  unfolding add_comment
  add_comment-Steady tenant id user body =
      bind-Steady (get_by_id tenant id) _ (get_by_id-Steady tenant id)
        (λ _. save_comment-Steady tenant id user body)
