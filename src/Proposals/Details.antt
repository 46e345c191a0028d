-- ===== src/Proposals/Details.antt =====
-- What the common steps of the queue ensure: reading a proposal, its details, the audit entry and the
-- handler's write (src/mcp/proposalQueue.ts).
use ptv_mcp.Base.{
  ap, ◌≡◌, refl, ◌∙◌, subst, Option, some, Text, find, Extends-append, Bool-cases, inl, inr,
}
use ptv_mcp.Json.{Json}
use ptv_mcp.World.{
  ProposalStatus, rejected, applied, ProposalRecord, World, Platform, ok, err, Result,
}
use ptv_mcp.World.Keeps.{
  Keeps, bind-Keeps, or_throw-ok, Ensures, bind-Ensures, gets-Ensures, throw-Ensures, pure-Ensures,
}
use ptv_mcp.Audit.{record_audit}
use ptv_mcp.Proposals.Store.{is_row, get_by_id}
use ptv_mcp.Proposals.Reviewers.{list_comments, list_reviewers}
use ptv_mcp.Proposals.Kinds.{ToolContext, AppliedOutcome, Frame, ProposalKinds}
use ptv_mcp.Proposals.Queue.{audit_proposal}
use ptv_mcp.Proposals.Resolve.{
  ResolveProposalAction, reject, approve_and_export, approve_and_apply, proposal_diff_details,
  proposal_details, caught, record_failure, apply_failed, try_apply, in_environment, stored_of,
  is_adapter_refusal,
}

-- A step that touches neither the proposals nor PTV.
pub record Quiet {P : Type 0} (w u : World P) : Type 0 where
  pub proposals : u.proposals ≡ w.proposals
  pub ptv : u.ptv ≡ w.ptv

pub Quiet-trans : {P : Type 0} (w v u : World P) → Quiet w v → Quiet v u → Quiet w u
Quiet-trans w v u h k = record { proposals = k.proposals ∙ h.proposals; ptv = k.ptv ∙ h.ptv }

-- The status that an action gives.
abbrev pub status_after : ResolveProposalAction → ProposalStatus
status_after reject = rejected
status_after approve_and_export = ProposalStatus.approved
status_after approve_and_apply = applied

pub get_by_id-ok :
    {P : Type 0} (tenant id : Text) (w u : World P) (p : ProposalRecord)
    → get_by_id tenant id w ≡ (ok p, u)
    → (find (is_row tenant id) w.proposals ≡ some p) × (w ≡ u)
unfolding get_by_id
get_by_id-ok tenant id w u p h = or_throw-ok _ _ w u p h

module _ {P : Type 0} ⦃platform : Platform⦄ (kinds : ProposalKinds P) where
  pub proposal_diff_details-Quiet :
      (ctx : ToolContext) (p : ProposalRecord) → Keeps Quiet (proposal_diff_details kinds ctx p)
  unfolding proposal_diff_details
  proposal_diff_details-Quiet ctx p = record {
    at = λ w. record {
      proposals = (kinds.live_diff_frame p.kind (in_environment ctx p) (stored_of p) w).proposals;
      ptv = kinds.live_diff_reads p.kind (in_environment ctx p) (stored_of p) w;
    };
  }

  pub proposal_diff_details-now :
      (ctx : ToolContext) (p : ProposalRecord) (w : World P)
      → (proposal_diff_details kinds ctx p w).1.now ≡ w.now
  unfolding proposal_diff_details
  proposal_diff_details-now ctx p w =
      (kinds.live_diff_frame p.kind (in_environment ctx p) (stored_of p) w).now

  pub proposal_details-Quiet :
      (ctx : ToolContext) (p : ProposalRecord) → Keeps Quiet (proposal_details kinds ctx p)
  unfolding proposal_details list_comments list_reviewers
  proposal_details-Quiet ctx p =
      bind-Keeps Quiet Quiet-trans _ _ (proposal_diff_details-Quiet ctx p) λ _.
        bind-Keeps Quiet Quiet-trans _ _ idle λ _. bind-Keeps Quiet Quiet-trans _ _ idle λ _. idle
    where
      idle : {A : Type 0} {f : World P → Result A} → Keeps Quiet (λ w. (f w, w))
      idle = record { at = λ w. record { proposals = refl; ptv = refl } }

  -- The details are those of the row they are asked for.
  proposal_details-proposal :
      (ctx : ToolContext) (p : ProposalRecord) (w : World P)
      → Ensures w (proposal_details kinds ctx p) (λ d u. d.proposal ≡ p)
  unfolding proposal_details list_comments list_reviewers
  proposal_details-proposal ctx p w =
      bind-Ensures _ _ λ live v _. gets-Ensures _ _ (gets-Ensures _ _ (pure-Ensures refl))

  pub proposal_details-Ensures :
      (ctx : ToolContext) (p : ProposalRecord) (w : World P)
      → Ensures w (proposal_details kinds ctx p) (λ d u. (d.proposal ≡ p) × Quiet w u)
  proposal_details-Ensures ctx p w = record {
    at = λ d u h. (
      (proposal_details-proposal ctx p w).at d u h,
      subst (Quiet w) (ap (λ x. x.1) h) ((proposal_details-Quiet ctx p).at w),
    );
  }

  caught-Ensures :
      (ctx : ToolContext) (p : ProposalRecord) (id : Text) (r : Result AppliedOutcome) (v : World P)
      → Ensures v (caught kinds ctx p id r) (λ outcome u. (r ≡ ok outcome) × (v ≡ u))
  unfolding caught apply_failed record_failure
  caught-Ensures ctx p id (ok o) v = pure-Ensures (refl, refl)
  caught-Ensures ctx p id (err e) v = elim (Bool-cases (is_adapter_refusal e)) [
    | inl refused ↦ rw refused throw-Ensures
    | inr other ↦ rw other (bind-Ensures _ _ λ q v1 _. bind-Ensures _ _ λ a v2 _. throw-Ensures)
  ]

  -- An outcome of `handler.apply` that is passed on left the queue's tables alone.
  pub try_apply-Ensures :
      (ctx : ToolContext) (p : ProposalRecord) (id : Text) (w : World P)
      → Ensures w (try_apply kinds ctx p id) (λ outcome v. Frame w v)
  unfolding try_apply
  try_apply-Ensures ctx p id w = record {
    at = λ o v h.
        subst (Frame w) ((caught-Ensures ctx p id _ _).at o v h).1
          (kinds.apply_frame p.kind (in_environment ctx p) (stored_of p) w);
  }

pub audit_proposal-Quiet :
    {P : Type 0} ⦃platform : Platform⦄ (ctx : ToolContext) (p : ProposalRecord)
    (action result : Text) (s : Option Json)
    → Keeps Quiet (audit_proposal {P = P} ctx p action result s)
unfolding audit_proposal record_audit
audit_proposal-Quiet ctx p action result s = record {
  at = λ w. record { proposals = refl; ptv = refl };
}

-- An audit entry is all that it adds.
pub audit_proposal-Frame :
    {P : Type 0} ⦃platform : Platform⦄ (ctx : ToolContext) (p : ProposalRecord)
    (action result : Text) (s : Option Json)
    → Keeps Frame (audit_proposal {P = P} ctx p action result s)
unfolding audit_proposal record_audit
audit_proposal-Frame ctx p action result s = record {
  at = λ w. record {
    now = refl;
    proposals = refl;
    comments = refl;
    reviewers = refl;
    users = refl;
    memberships = refl;
    tenants = refl;
    audit = Extends-append w.audit _;
  };
}
