-- ===== src/Proposals/SignOff.antt =====
-- Signing off a proposal (src/mcp/proposalQueue.ts, signOffProposal;
-- src/proposals/proposalService.ts, recordDecision and listAwaitingReview).
use ptv_mcp.Base.{
  ap, ◌≡◌, refl, sym, ◌∙◌, ◌≢◌, Bool, true, false, List, Option, none, some, some-injective, Text,
  arith, any, find, if◌then◌else◌, update_where, subst,
}
use ptv_mcp.World.{
  contributor, ProposalStatus, ReviewDecision, ProposalRecord, World, Platform, ok, pure, ◌>>=◌,
  ◌>>◌,
}
use ptv_mcp.World.Keeps.{
  Ensures, bind-Ensures, throw_if-Ensures, modify-Ensures, from_same, gets-Ensures, pure-Ensures,
  throw_if-ok,
}
use ptv_mcp.Proposals.Store.{is_row}
use ptv_mcp.Proposals.Reviewers.{
  ProposalReviewer, of_reviewer, decided_row, record_decision, list_reviewers, awaiting,
}
use ptv_mcp.Json.{Json}
use ptv_mcp.Proposals.Kinds.{ToolContext, Frame}
use ptv_mcp.Proposals.Queue.{trimmed_note, check_note_length, audit_proposal, sign_off_proposal}
use ptv_mcp.Proposals.Transition.{status_eq_iff}
use ptv_mcp.Proposals.Approval.{HasRole, require_tenant_role-ok, not-false}
use ptv_mcp.Proposals.Details.{Quiet, get_by_id-ok, audit_proposal-Frame, audit_proposal-Quiet}
use ptv_mcp.Proposals.Requested.{UniqueReviewers}
use ptv_mcp.Proposals.Waiting.{decided_waits}

-- What a successful sign-off has checked and stored: the acting user's own rows, and no other.
pub record SignedOff {P : Type 0} (ctx : ToolContext) (id : Text) (decision : ReviewDecision)
    (comment : Option Text) (w u : World P) : Type 0 where
  pub proposal : ProposalRecord
  pub found : find (is_row ctx.tenant_id id) w.proposals ≡ some proposal
  pub is_open : proposal.status ≡ ProposalStatus.pending
  pub authorized : HasRole contributor ctx.tenant_id ctx.acting_user_id w
  pub asked : any (of_reviewer ctx.tenant_id proposal.id ctx.acting_user_id) w.reviewers ≡ true
  pub reviewers :
      u.reviewers
      ≡ update_where
          (of_reviewer ctx.tenant_id proposal.id ctx.acting_user_id)
          (decided_row decision (trimmed_note comment) w.now)
          w.reviewers
  pub proposals : u.proposals ≡ w.proposals
  pub ptv : u.ptv ≡ w.ptv

module _ {P : Type 0} ⦃platform : Platform⦄ where
  record_decision-Ensures :
      (tenant id user : Text) (decision : ReviewDecision) (comment : Option Text) (w : World P)
      → Ensures w (record_decision tenant id user decision comment) (λ rs u.
        (any (of_reviewer tenant id user) w.reviewers ≡ true)
        × (u ≡ record w {
          reviewers =
              update_where
                (of_reviewer tenant id user)
                (decided_row decision comment w.now)
                w.reviewers;
        }))
  unfolding record_decision list_reviewers
  record_decision-Ensures tenant id user decision comment w = gets-Ensures _ _ (
      modify-Ensures _ _ (
        throw_if-Ensures _ _ _
          λ known. record { at = λ rs u h. (was_known _ known, sym (ap (λ x. x.1) h)) }))
    where
      was_known : (b : Bool) → (if b then false else true) ≡ false → b ≡ true
      was_known true h = refl
      was_known false h = cc

  decide-Ensures :
      (ctx : ToolContext) (id : Text) (decision : ReviewDecision) (comment : Option Text)
      (p : ProposalRecord) (action result : Text) (s : Option Json) (w : World P)
      → find (is_row ctx.tenant_id id) w.proposals ≡ some p
      → p.status ≡ ProposalStatus.pending
      → HasRole contributor ctx.tenant_id ctx.acting_user_id w
      → Ensures w
          (do
            reviewers ←
                record_decision ctx.tenant_id p.id ctx.acting_user_id decision
                  (trimmed_note comment)
            audit_proposal ctx p action result s
            pure reviewers)
          (λ rs u. SignedOff ctx id decision comment w u)
  decide-Ensures ctx id decision comment p action result s w found is_open role =
      bind-Ensures _ _ λ rs v decided.
        let (asked, after) =
          (record_decision-Ensures ctx.tenant_id p.id ctx.acting_user_id decision
              (trimmed_note comment) w).at
            rs v decided in
        bind-Ensures _ _ λ a u audited. pure-Ensures (
          let framed : Frame v u =
            subst (Frame v) (ap (λ x. x.1) audited)
              ((audit_proposal-Frame ctx p action result s).at v) in
          let quiet : Quiet v u =
            subst (Quiet v) (ap (λ x. x.1) audited)
              ((audit_proposal-Quiet ctx p action result s).at v) in
          record {
            proposal = p;
            found = found;
            is_open = is_open;
            authorized = role;
            asked = asked;
            reviewers = framed.reviewers ∙ ap (λ (x : World P). x.reviewers) after;
            proposals = framed.proposals ∙ ap (λ (x : World P). x.proposals) after;
            ptv = quiet.ptv ∙ ap (λ (x : World P). x.ptv) after;
          })

  note_length : (w u : World P) (n : Option Text) → check_note_length n w ≡ (ok tt, u) → w ≡ u
  note_length w u none h = ap (λ x. x.1) h
  note_length w u (some t) h = (throw_if-ok _ _ w u h).1

  sign_off-Ensures :
      (ctx : ToolContext) (id : Text) (decision : ReviewDecision) (comment : Option Text)
      (w : World P)
      → Ensures w
          (sign_off_proposal ctx id decision comment)
          (λ rs u. SignedOff ctx id decision comment w u)
  unfolding sign_off_proposal
  sign_off-Ensures ctx id decision comment w = bind-Ensures _ _ λ role w1 entered.
      let (held, enough, same1) =
        require_tenant_role-ok ctx.tenant_id ctx.acting_user_id contributor role w w1 entered in
      bind-Ensures _ _ λ t w2 short.
        let same2 = note_length w1 w2 (trimmed_note comment) short in
        bind-Ensures _ _ λ p w3 read.
          let (found, same3) = get_by_id-ok ctx.tenant_id id w2 w3 p read in
          throw_if-Ensures _ _ _ λ still_open.
            let same : w ≡ w3 = same1 ∙ same2 ∙ same3 in
            from_same same (
              decide-Ensures ctx id decision comment p _ _ _ w (rw (same1 ∙ same2) found)
                ((status_eq_iff _ _).0 (not-false _ still_open)) (role, held, enough))

  -- If a sign-off succeeds, the acting user is a contributor or above and was asked to review the
  -- proposal, which is pending, and the reviewers' table changes in the acting user's row of that
  -- proposal only; no proposal and nothing in PTV changes.
  pub sign_off_proposal-ok :
      (ctx : ToolContext) (id : Text) (decision : ReviewDecision) (comment : Option Text)
      (w u : World P) (rs : List ProposalReviewer)
      → sign_off_proposal ctx id decision comment w ≡ (ok rs, u)
      → SignedOff ctx id decision comment w u
  sign_off_proposal-ok ctx id decision comment w u rs h =
      (sign_off-Ensures ctx id decision comment w).at rs u h

  -- After a successful sign-off with a decision other than pending, the proposal is no longer
  -- among those that wait for the acting user; a user is asked at most once for a proposal.
  pub signed_off_awaiting :
      (ctx : ToolContext) (id : Text) (decision : ReviewDecision) (comment : Option Text)
      (w u : World P) (rs : List ProposalReviewer)
      → UniqueReviewers w.reviewers
      → decision ≢ ReviewDecision.pending
      → sign_off_proposal ctx id decision comment w ≡ (ok rs, u)
      → (p : ProposalRecord) → find (is_row ctx.tenant_id id) u.proposals ≡ some p
      → awaiting ctx.tenant_id ctx.acting_user_id u.reviewers p ≡ false
  unfolding awaiting
  signed_off_awaiting ctx id decision comment w u rs unique decided h p found =
      let done = sign_off_proposal-ok ctx id decision comment w u rs h in
      let found_w : find (is_row ctx.tenant_id id) w.proposals ≡ some p =
        rw (← done.proposals) found in
      let e : done.proposal ≡ p = some-injective done.proposal p (sym done.found ∙ found_w) in
      rw
        (
          done.reviewers,
          ← e,
          decided_waits ctx.tenant_id done.proposal.id ctx.acting_user_id decision
              (trimmed_note comment) w.now w.reviewers unique decided done.asked,
        )
        (ground arith)
