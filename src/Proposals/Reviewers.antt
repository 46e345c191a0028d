-- ===== src/Proposals/Reviewers.antt =====
-- Required reviewers and comments of a proposal (src/proposals/proposalService.ts).
use ptv_mcp.Base.{
  ℕ, ◌+◌, Bool, true, false, ◌&&◌, List, [], ◌∷◌, ◌++◌, Option, none, some, Text, text_eq, ltb, leb,
  filter_by, any, sort_by, update_where, if◌then◌else◌,
}
use ptv_mcp.World.{
  ProposalStatus, ReviewDecision, decision_eq, status_eq, ProposalRecord, CommentRow, ReviewerRow,
  UserRow, Platform, ok, err, Call, ◌>>=◌, ◌>>◌, gets, throw_if, modify, not_a_requested_reviewer,
  other_error,
}
use ptv_mcp.Proposals.Store.{get_by_id}

-- `ProposalComment` and `ProposalReviewer`: a row joined with its user's display name.
pub record ProposalComment : Type 0 where
  pub row : CommentRow
  pub user_name : Text

pub record ProposalReviewer : Type 0 where
  pub row : ReviewerRow
  pub user_name : Text

abbrev pub user_name_of : Text → List UserRow → Option Text
user_name_of id [] = none
user_name_of id (u ∷ us) =
    let rest = user_name_of id us in if text_eq u.id id then some u.name else rest

-- `innerJoin(users, eq(users.id, …userId))`: a row without a user is not returned.
unfoldable pub join_reviewers : List UserRow → List ReviewerRow → List ProposalReviewer
join_reviewers users [] = []
join_reviewers users (r ∷ rs) =
    let rest = join_reviewers users rs in
    elim (user_name_of r.user_id users) [
      | none ↦ rest
      | some name ↦ record { row = r; user_name = name } ∷ rest
    ]

unfoldable pub join_comments : List UserRow → List CommentRow → List ProposalComment
join_comments users [] = []
join_comments users (c ∷ cs) =
    let rest = join_comments users cs in
    elim (user_name_of c.user_id users) [
      | none ↦ rest
      | some name ↦ record { row = c; user_name = name } ∷ rest
    ]

abbrev pub of_proposal : Text → Text → ReviewerRow → Bool
of_proposal tenant id r = text_eq r.tenant_id tenant && text_eq r.proposal_id id

abbrev pub of_reviewer : Text → Text → Text → ReviewerRow → Bool
of_reviewer tenant id user r = of_proposal tenant id r && text_eq r.user_id user

abbrev requested_row : Text → Text → Text → Text → ℕ → ReviewerRow
requested_row tenant id by user now = record {
  tenant_id = tenant;
  proposal_id = id;
  user_id = user;
  requested_by_user_id = by;
  decision = ReviewDecision.pending;
  comment = none;
  requested_at = now;
  decided_at = none;
}

-- The `set` of `recordDecision`.
abbrev pub decided_row : ReviewDecision → Option Text → ℕ → ReviewerRow → ReviewerRow
decided_row decision comment now r = record r {
  decision = decision;
  comment = comment;
  decided_at = some now;
}

-- The unique constraint on (proposal_id, user_id), which `onConflictDoNothing` targets.
abbrev pub is_taken : Text → Text → List ReviewerRow → Bool
is_taken id user rows = any (λ r. text_eq r.proposal_id id && text_eq r.user_id user) rows

-- `insert … onConflictDoNothing`, a row for each user id in turn.
unfoldable pub insert_reviewers :
    Text → Text → Text → ℕ → List Text → List ReviewerRow → List ReviewerRow
insert_reviewers tenant id by now [] rows = rows
insert_reviewers tenant id by now (user ∷ users) rows =
    insert_reviewers tenant id by now users
      (if is_taken id user rows then rows else rows ++ requested_row tenant id by user now ∷ [])

module _ {P : Type 0} ⦃platform : Platform⦄ where
  -- In request order, then by name.
  unfoldable pub list_reviewers : Text → Text → Call P (List ProposalReviewer)
  list_reviewers tenant id = gets λ w.
      sort_by
        (λ a b.
          if ltb a.row.requested_at b.row.requested_at
          then true
          else leb a.row.requested_at b.row.requested_at
            && platform.sql_before a.user_name b.user_name)
        (join_reviewers w.users (filter_by (of_proposal tenant id) w.reviewers))

  unfoldable pub add_reviewers : Text → Text → List Text → Text → Call P (List ProposalReviewer)
  add_reviewers tenant id user_ids by = do
    modify (λ w. record w { reviewers = insert_reviewers tenant id by w.now user_ids w.reviewers })
    list_reviewers tenant id

  unfoldable pub record_decision :
      Text → Text → Text → ReviewDecision → Option Text → Call P (List ProposalReviewer)
  record_decision tenant id user decision comment = do
    known ← gets (λ w. any (of_reviewer tenant id user) w.reviewers)
    modify (λ w. record w {
      reviewers =
          update_where (of_reviewer tenant id user) (decided_row decision comment w.now)
            w.reviewers;
    })
    throw_if (if known then false else true) not_a_requested_reviewer
    list_reviewers tenant id

  -- The insert of `addComment`, with its author's name.
  unfoldable pub save_comment : Text → Text → Text → Text → Call P ProposalComment
  save_comment tenant id user body w =
      let row : CommentRow = record {
        id = platform.random_uuid w.seed;
        tenant_id = tenant;
        proposal_id = id;
        user_id = user;
        body = body;
        created_at = w.now;
      } in
      let w' = record w { comments = w.comments ++ row ∷ []; seed = w.seed + 1 } in
      elim (user_name_of user w.users) [
        | none ↦ (err (other_error []), w')
        | some name ↦ (ok (record { row = row; user_name = name }), w')
      ]

  unfoldable pub add_comment : Text → Text → Text → Text → Call P ProposalComment
  add_comment tenant id user body = do get_by_id tenant id; save_comment tenant id user body

  -- Oldest first.
  unfoldable pub list_comments : Text → Text → Call P (List ProposalComment)
  list_comments tenant id = gets λ w.
      sort_by (λ a b. leb a.row.created_at b.row.created_at)
        (join_comments w.users
          (filter_by (λ c. text_eq c.tenant_id tenant && text_eq c.proposal_id id) w.comments))

-- Pending proposals that wait for `user`'s sign-off, newest first. A reviewer is unique to a
-- proposal, so the join gives each proposal once.
unfoldable pub awaiting : Text → Text → List ReviewerRow → ProposalRecord → Bool
awaiting tenant user reviewers p =
    text_eq p.tenant_id tenant
    && status_eq p.status ProposalStatus.pending
    && any
        (λ r.
          text_eq r.proposal_id p.id
          && text_eq r.user_id user
          && decision_eq r.decision ReviewDecision.pending)
        reviewers

module _ {P : Type 0} where
  unfoldable pub list_awaiting_review : Text → Text → Call P (List ProposalRecord)
  list_awaiting_review tenant user = gets λ w.
      sort_by (λ a b. leb b.created_at a.created_at)
        (filter_by (awaiting tenant user w.reviewers) w.proposals)
