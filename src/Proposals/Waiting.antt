-- ===== src/Proposals/Waiting.antt =====
-- Which proposals wait for a reviewer before and after a decision (src/proposals/proposalService.ts,
-- recordDecision and listAwaitingReview).
use ptv_mcp.Base.{
  ℕ, ◌≡◌, refl, ◌≢◌, inl, inr, Bool, true, false, ◌&&◌, List, [], ◌∷◌, Option, Text, text_eq,
  text_eq_iff, arith, any, Bool-cases, update_where,
}
use ptv_mcp.World.{ReviewDecision, decision_eq, ReviewerRow}
use ptv_mcp.Proposals.Reviewers.{is_taken, of_reviewer, of_proposal, decided_row}
use ptv_mcp.Proposals.Requested.{UniqueReviewers}

-- `user` still has to sign off proposal `id`.
abbrev pub waits : Text → Text → ReviewerRow → Bool
waits id user r =
    text_eq r.proposal_id id
    && text_eq r.user_id user
    && decision_eq r.decision ReviewDecision.pending

pub not_pending :
    (d : ReviewDecision) → d ≢ ReviewDecision.pending → decision_eq d ReviewDecision.pending ≡ false
unfolding decision_eq
not_pending ReviewDecision.pending h = absurd (h refl)
not_pending ReviewDecision.approved h = refl
not_pending ReviewDecision.changes_requested h = refl

-- Rows of another key: none waits, and an update of that key changes none.
pub none_waits :
    (tenant id user : Text) (set : ReviewerRow → ReviewerRow) (rows : List ReviewerRow)
    → is_taken id user rows ≡ false
    → any (waits id user) (update_where (of_reviewer tenant id user) set rows) ≡ false
none_waits tenant id user set [] h = refl
none_waits tenant id user set (r ∷ rows) h = elim (Bool-cases (text_eq r.proposal_id id)) [
  | inl this_one ↦ elim (Bool-cases (text_eq r.user_id user)) [
    | inl theirs ↦ cc (rw (this_one, theirs) at h)
    | inr other ↦
        rw (this_one, other, and_false (text_eq r.tenant_id tenant && true), this_one, other)
          (none_waits tenant id user set rows (rw (this_one, other) at h))
  ]
  | inr another ↦
      rw (another, and_false (text_eq r.tenant_id tenant), another)
        (none_waits tenant id user set rows (rw another at h))
]
  where
    and_false : (a : Bool) → (a && false) ≡ false
    and_false a = ground arith

pub taken_if_asked :
    (tenant id user : Text) (rows : List ReviewerRow)
    → any (of_reviewer tenant id user) rows ≡ true
    → is_taken id user rows ≡ true
taken_if_asked tenant id user [] h = cc
taken_if_asked tenant id user (r ∷ rows) h = ground (arith, taken_if_asked tenant id user rows)

-- After a sign-off its reviewer waits on that proposal no longer.
pub decided_waits :
    (tenant id user : Text) (d : ReviewDecision) (remark : Option Text) (now : ℕ)
    (rows : List ReviewerRow)
    → UniqueReviewers rows
    → d ≢ ReviewDecision.pending
    → any (of_reviewer tenant id user) rows ≡ true
    → any
        (waits id user)
        (update_where (of_reviewer tenant id user) (decided_row d remark now) rows)
      ≡ false
decided_waits tenant id user d remark now [] u open_ h = cc
decided_waits tenant id user d remark now (r ∷ rows) (fresh, u) open_ h =
    elim (Bool-cases (text_eq r.proposal_id id)) [
      | inl this_one ↦ elim (Bool-cases (text_eq r.user_id user)) [
        | inl theirs ↦ elim (Bool-cases (text_eq r.tenant_id tenant)) [
          | inl ours ↦
              rw (ours, this_one, theirs, this_one, theirs, not_pending d open_)
                (none_waits tenant id user (decided_row d remark now) rows
                  (same_key this_one theirs))
          | inr foreign ↦
              let later : any (of_reviewer tenant id user) rows ≡ true = rw foreign at h in
              cc (taken_if_asked tenant id user rows later, same_key this_one theirs)
        ]
        | inr other ↦
            rw (other, and_false (of_proposal tenant id r), other, this_one)
              (decided_waits tenant id user d remark now rows u open_
                (rw (other, and_false (of_proposal tenant id r)) at h))
      ]
      | inr another ↦
          rw (another, and_false (text_eq r.tenant_id tenant), another)
            (decided_waits tenant id user d remark now rows u open_
              (rw (another, and_false (text_eq r.tenant_id tenant)) at h))
    ]
  where
    and_false : (a : Bool) → (a && false) ≡ false
    and_false a = ground arith

    same_key :
        text_eq r.proposal_id id ≡ true
        → text_eq r.user_id user ≡ true
        → is_taken id user rows ≡ false
    same_key a b =
        rw (← (text_eq_iff r.proposal_id id).0 a, ← (text_eq_iff r.user_id user).0 b) fresh
