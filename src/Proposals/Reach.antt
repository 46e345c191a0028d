-- ===== src/Proposals/Reach.antt =====
-- The queue as a machine: whatever calls are made, in any order and by anyone, with anything else
-- happening in between, the records are kept (src/mcp/proposalQueue.ts).
use ptv_mcp.Base.{
  ◌≡◌, sym, ◌∙◌, ap, subst, ◌≢◌, List, Option, some, some-injective, Text, find, Extends-refl,
}
use ptv_mcp.World.{ProposalStatus, ReviewDecision, ProposalRecord, World, Platform, ok}
use ptv_mcp.Proposals.Store.{NewProposal, is_row, create_pending, set_review_item}
use ptv_mcp.Proposals.Kinds.{ToolContext, ProposalKinds}
use ptv_mcp.Proposals.Queue.{comment_on_proposal, request_review, sign_off_proposal}
use ptv_mcp.Proposals.Resolve.{
  ResolveProposalAction, reject, approve_and_export, approve_and_apply, ProposalDetails,
  get_proposal, resolve_proposal, confirm_manual_publish,
}
use ptv_mcp.Proposals.History.{
  CanBecome, History, History-refl, History-trans, Evolves-refl, ReviewersEvolve-refl,
}
use ptv_mcp.Proposals.StoreSafety.{set_review_item-Steady}
use ptv_mcp.Proposals.ReviewerSafety.{create_pending-Steady}
use ptv_mcp.Proposals.QueueSafety.{
  comment_on_proposal-Steady, request_review-Steady, sign_off_proposal-Steady,
}
use ptv_mcp.Proposals.ResolveSafety.{
  get_proposal-Steady, resolve_proposal-Steady, confirm_manual_publish-Steady,
}
use ptv_mcp.Proposals.Transition.{UniqueIds, find-Evolves}
use ptv_mcp.Proposals.Exclusive.{CanBecome-decided}
use ptv_mcp.Proposals.Outcome.{resolve_proposal-ok}
use ptv_mcp.Proposals.Details.{status_after}

-- Everything else that may happen: time passes, users and roles change, PTV is edited, but the
-- queue's own tables and the audit log are not touched.
pub record Outside {P : Type 0} (w v : World P) : Type 0 where
  pub proposals : v.proposals ≡ w.proposals
  pub comments : v.comments ≡ w.comments
  pub reviewers : v.reviewers ≡ w.reviewers
  pub audit : v.audit ≡ w.audit

module _ {P : Type 0} ⦃platform : Platform⦄ (kinds : ProposalKinds P) where
  -- One call, whatever it answers, or something outside the queue.
  pub data Step (w : World P) : World P → Type 0 where
    proposes : (input : NewProposal) → Step w (create_pending input w).1
    links : (tenant id item : Text) → Step w (set_review_item tenant id item w).1
    comments : (ctx : ToolContext) (id body : Text) → Step w (comment_on_proposal ctx id body w).1
    requests :
        (ctx : ToolContext) (id : Text) (reviewers : List Text)
        → Step w (request_review ctx id reviewers w).1
    signs_off :
        (ctx : ToolContext) (id : Text) (decision : ReviewDecision) (comment : Option Text)
        → Step w (sign_off_proposal ctx id decision comment w).1
    views : (ctx : ToolContext) (id : Text) → Step w (get_proposal kinds ctx id w).1
    resolves :
        (ctx : ToolContext) (id : Text) (action : ResolveProposalAction)
        → Step w (resolve_proposal kinds ctx id action w).1
    confirms :
        (ctx : ToolContext) (id : Text) (ptv_id : Option Text)
        → Step w (confirm_manual_publish kinds ctx id ptv_id w).1
    passes : (v : World P) → Outside w v → Step w v

  pub data Reach (w : World P) : World P → Type 0 where
    here : Reach w w
    further : (v u : World P) → Reach w v → Step v u → Reach w u

  Step-History : (w v : World P) → Step w v → History w v
  Step-History w _ (proposes input) = ((create_pending-Steady input).at w).history
  Step-History w _ (links tenant id item) = ((set_review_item-Steady tenant id item).at w).history
  Step-History w _ (comments ctx id body) = ((comment_on_proposal-Steady ctx id body).at w).history
  Step-History w _ (requests ctx id reviewers) =
      ((request_review-Steady ctx id reviewers).at w).history
  Step-History w _ (signs_off ctx id decision comment) =
      ((sign_off_proposal-Steady ctx id decision comment).at w).history
  Step-History w _ (views ctx id) = ((get_proposal-Steady kinds ctx id).at w).history
  Step-History w _ (resolves ctx id action) =
      ((resolve_proposal-Steady kinds ctx id action).at w).history
  Step-History w _ (confirms ctx id ptv_id) =
      ((confirm_manual_publish-Steady kinds ctx id ptv_id).at w).history
  Step-History w v (passes _ o) = record {
    proposals = rw o.proposals (Evolves-refl w.proposals);
    comments = rw o.comments (Extends-refl w.comments);
    reviewers = rw o.reviewers (ReviewersEvolve-refl w.reviewers);
    audit = rw o.audit (Extends-refl w.audit);
  }

  -- Between any two states that calls of the queue and outside events connect, no proposal,
  -- comment, reviewer row or audit entry is lost or reordered, statuses move only forward in the
  -- status machine, and who decided a proposal and when stays as first recorded.
  pub Reach-History : (w v : World P) → Reach w v → History w v
  Reach-History w _ here = History-refl w
  Reach-History w _ (further v u before step) =
      History-trans w v u (Reach-History w v before) (Step-History v u step)

  decided : (action : ResolveProposalAction) → status_after action ≢ ProposalStatus.pending
  decided reject = λ h. cc
  decided approve_and_export = λ h. cc
  decided approve_and_apply = λ h. cc

  -- After a successful resolution of a proposal, no resolution of it by anyone in its tenant
  -- succeeds in any state that the calls of the queue and outside events can reach; proposal ids
  -- are unique in both states.
  pub resolved_once :
      (ctx : ToolContext) (id : Text) (action : ResolveProposalAction) (w u v : World P)
      (d : ProposalDetails)
      → UniqueIds w.proposals
      → resolve_proposal kinds ctx id action w ≡ (ok d, u)
      → Reach u v
      → UniqueIds v.proposals
      → (ctx' : ToolContext) → ctx'.tenant_id ≡ ctx.tenant_id
      → (action' : ResolveProposalAction) (d' : ProposalDetails) (u' : World P)
      → resolve_proposal kinds ctx' id action' v ≢ (ok d', u')
  resolved_once ctx id action w u v d unique first later unique' ctx' same action' d' u' second =
      let r = resolve_proposal-ok kinds ctx id action w d u unique first in
      let s = resolve_proposal-ok kinds ctx' id action' v d' u' unique' second in
      let h = Reach-History u v later in
      let (q, found, evolved) =
        find-Evolves ctx.tenant_id id u.proposals v.proposals d.proposal h.proposals r.stored in
      let found' : find (is_row ctx.tenant_id id) v.proposals ≡ some s.before =
        rw (← same) s.found in
      let e : q ≡ s.before = some-injective q s.before (sym found ∙ found') in
      let status : d.proposal.status ≡ status_after action =
        ap (λ (x : ProposalRecord). x.status) r.after in
      let moved : CanBecome (status_after action) q.status =
        subst (λ x. CanBecome x q.status) status evolved.status in
      CanBecome-decided (status_after action) q.status moved (decided action)
        (ap (λ (x : ProposalRecord). x.status) e ∙ s.was_pending)
