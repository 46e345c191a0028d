-- ===== src/Proposals/Ptv.antt =====
-- When the queue writes to PTV (src/mcp/proposalQueue.ts).
use ptv_mcp.Base.{◌≡◌, refl, ◌∙◌, ◌⊎◌, inl, inr, Option, none, some, Text, find, subst}
use ptv_mcp.Json.{Json}
use ptv_mcp.World.{
  approver, ProposalStatus, ProposalRecord, World, Platform, ok, err, Call, continue, Result,
  ServiceError, or_throw, ◌>>=◌,
}
use ptv_mcp.World.Keeps.{Keeps, bind-Keeps}
use ptv_mcp.Roles.{require_tenant_role}
use ptv_mcp.Audit.{record_audit}
use ptv_mcp.Proposals.Store.{
  is_row, is_row_in, get_by_id, transition, mark_resolved, mark_published,
}
use ptv_mcp.Proposals.Reviewers.{list_reviewers}
use ptv_mcp.Proposals.Kinds.{ToolContext, ProposalKinds}
use ptv_mcp.Proposals.Queue.{audit_proposal}
use ptv_mcp.Proposals.Resolve.{
  ResolveProposalAction, reject, approve_and_export, approve_and_apply, proposal_details,
  approval_guards, resolve_reject, resolve_export, act_on, resolve_proposal,
}
use ptv_mcp.Proposals.Approval.{HasRole, MayApprove, require_tenant_role-ok, approval_guards-ok}
use ptv_mcp.Proposals.Details.{proposal_details-Quiet, get_by_id-ok}

pub record SamePtv {P : Type 0} (w u : World P) : Type 0 where
  pub ptv : u.ptv ≡ w.ptv

SamePtv-trans : {P : Type 0} (w v u : World P) → SamePtv w v → SamePtv v u → SamePtv w u
SamePtv-trans w v u h k = record { ptv = k.ptv ∙ h.ptv }

abbrev pub Reads : {P A : Type 0} → Call P A → Type 0
Reads = Keeps SamePtv

pub bind-Reads :
    {P A B : Type 0} (m : Call P A) (f : A → Call P B)
    → Reads m
    → ((a : A) → Reads (f a))
    → Reads (m >>= f)
bind-Reads m f hm hf = bind-Keeps SamePtv SamePtv-trans m f hm hf

abbrev pub idle-Reads : {P A : Type 0} {f : World P → Result A} → Reads (λ w. (f w, w))
idle-Reads = record { at = λ w. record { ptv = refl } }

-- Who may write to PTV by resolving that proposal, and when.
pub record MayWrite {P : Type 0} (ctx : ToolContext) (id : Text) (action : ResolveProposalAction)
    (w : World P) : Type 0 where
  pub by_apply : action ≡ approve_and_apply
  pub proposal : ProposalRecord
  pub found : find (is_row ctx.tenant_id id) w.proposals ≡ some proposal
  pub authorized : HasRole approver ctx.tenant_id ctx.acting_user_id w
  pub allowed : MayApprove ctx proposal id w

module _ {P : Type 0} where
  pub or_throw-Reads : {A : Type 0} (o : Option A) (e : ServiceError) → Reads {P = P} (or_throw o e)
  or_throw-Reads none e = idle-Reads
  or_throw-Reads (some a) e = idle-Reads

  pub get_by_id-Reads : (tenant id : Text) → Reads {P = P} (get_by_id tenant id)
  unfolding get_by_id
  get_by_id-Reads tenant id = record { at = λ w. (or_throw-Reads _ _).at w }

  pub transition-Reads :
      (tenant id : Text) (from : ProposalStatus) (set : ProposalRecord → ProposalRecord)
      → Reads {P = P} (transition tenant id from set)
  unfolding transition
  transition-Reads tenant id from set = record {
    at = λ w. by_match w (find (is_row_in tenant id from) w.proposals) refl;
  }
    where
      by_match :
          (w : World P) (o : Option ProposalRecord)
          → find (is_row_in tenant id from) w.proposals ≡ o
          → SamePtv w (transition tenant id from set w).1
      by_match w (some p) e = rw (e, transition) (record { ptv = refl })
      by_match w none e =
          rw (e, transition) ((bind-Reads _ _ (get_by_id-Reads tenant id) (λ c. idle-Reads)).at w)

  pub mark_published-Reads :
      (tenant id : Text) (created : Option Text) → Reads {P = P} (mark_published tenant id created)
  unfolding mark_published
  mark_published-Reads tenant id created = record {
    at = λ w. (transition-Reads tenant id _ _).at w;
  }

  -- A step and what follows it write nothing, unless what follows does so with leave `Q`.
  bind-Writes :
      {A B : Type 0} {Q : Type 0} (m : Call P A) (f : A → Call P B) (w : World P)
      → Reads m
      → ((a : A) (v : World P) → m w ≡ (ok a, v) → ((f a v).1.ptv ≡ v.ptv) ⊎ Q)
      → (((m >>= f) w).1.ptv ≡ w.ptv) ⊎ Q
  unfolding ◌>>=◌
  bind-Writes {Q = Q} m f w reads rest = by_result (m w).0 (m w).1 refl (reads.at w)
    where
      by_result :
          (r : Result _) (v : World P)
          → m w ≡ (r, v)
          → SamePtv w v
          → ((continue f r v).1.ptv ≡ w.ptv) ⊎ Q
      by_result (ok a) v e same = elim (rest a v e) [
        | inl quiet ↦ inl (quiet ∙ same.ptv)
        | inr leave ↦ inr leave
      ]
      by_result (err x) v e same = inl same.ptv

module _ {P : Type 0} ⦃platform : Platform⦄ (kinds : ProposalKinds P) where
  audit-Reads :
      (ctx : ToolContext) (p : ProposalRecord) (action result : Text) (s : Option Json)
      → Reads {P = P} (audit_proposal ctx p action result s)
  unfolding audit_proposal record_audit
  audit-Reads ctx p action result s = record { at = λ w. record { ptv = refl } }

  details-Reads : (ctx : ToolContext) (p : ProposalRecord) → Reads (proposal_details kinds ctx p)
  details-Reads ctx p = record {
    at = λ w. record { ptv = ((proposal_details-Quiet kinds ctx p).at w).ptv };
  }

  mark_resolved-Reads :
      (tenant id : Text) (status : ProposalStatus) (user : Text) (created : Option Text)
      → Reads {P = P} (mark_resolved tenant id status user created)
  unfolding mark_resolved
  mark_resolved-Reads tenant id status user created = record {
    at = λ w. (transition-Reads tenant id _ _).at w;
  }

  guards-Reads :
      (ctx : ToolContext) (p : ProposalRecord) (id : Text) → Reads (approval_guards kinds ctx p id)
  unfolding approval_guards list_reviewers
  guards-Reads ctx p id =
      bind-Reads _ _ idle-Reads
        λ _. bind-Reads _ _ idle-Reads λ _. bind-Reads _ _ idle-Reads λ _. idle-Reads

  pub resolve_reject-Reads :
      (ctx : ToolContext) (p : ProposalRecord) (id : Text) → Reads (resolve_reject kinds ctx p id)
  unfolding resolve_reject
  resolve_reject-Reads ctx p id =
      bind-Reads _ _ (mark_resolved-Reads _ _ _ _ _)
        λ q. bind-Reads _ _ (audit-Reads ctx p _ _ _) λ _. details-Reads _ q

  pub resolve_export-Reads :
      (ctx : ToolContext) (p : ProposalRecord) (id : Text) → Reads (resolve_export kinds ctx p id)
  unfolding resolve_export
  resolve_export-Reads ctx p id =
      bind-Reads _ _ (record { at = λ w. record { ptv = kinds.export_reads p.kind _ _ w } })
        λ _.
          bind-Reads _ _ (mark_resolved-Reads _ _ _ _ _)
            λ q. bind-Reads _ _ (audit-Reads ctx p _ _ _) λ _. details-Reads _ q

  act_on-Writes :
      (ctx : ToolContext) (p : ProposalRecord) (id : Text) (action : ResolveProposalAction)
      (w : World P)
      → find (is_row ctx.tenant_id id) w.proposals ≡ some p
      → HasRole approver ctx.tenant_id ctx.acting_user_id w
      → ((act_on kinds ctx p id action w).1.ptv ≡ w.ptv) ⊎ MayWrite ctx id action w
  unfolding act_on
  act_on-Writes ctx p id reject w found role = inl ((resolve_reject-Reads ctx p id).at w).ptv
  act_on-Writes ctx p id approve_and_export w found role =
      inl ((bind-Reads _ _ (guards-Reads ctx p id) (λ _. resolve_export-Reads ctx p id)).at w).ptv
  act_on-Writes ctx p id approve_and_apply w found role =
      bind-Writes _ _ w (guards-Reads ctx p id) λ t v passed. inr (record {
        by_apply = refl;
        proposal = p;
        found = found;
        authorized = role;
        allowed = (approval_guards-ok kinds ctx p id w v passed).0;
      })

  -- Whatever resolving a proposal answers, PTV is as it was, unless the action is to apply, the
  -- acting user is an approver or above, the proposal exists, and its four-eyes and reviewer
  -- guards passed.
  pub resolve_proposal-ptv :
      (ctx : ToolContext) (id : Text) (action : ResolveProposalAction) (w : World P)
      → ((resolve_proposal kinds ctx id action w).1.ptv ≡ w.ptv) ⊎ MayWrite ctx id action w
  unfolding resolve_proposal require_tenant_role
  resolve_proposal-ptv ctx id action w = bind-Writes _ _ w idle-Reads λ role w1 entered.
      let (held, enough, same1) =
        require_tenant_role-ok ctx.tenant_id ctx.acting_user_id approver role w w1 entered in
      bind-Writes _ _ w1 (get_by_id-Reads ctx.tenant_id id) λ p w2 read.
        let (found, same2) = get_by_id-ok ctx.tenant_id id w1 w2 p read in
        subst (λ x. ((act_on kinds ctx p id action x).1.ptv ≡ x.ptv) ⊎ MayWrite ctx id action w)
          (same1 ∙ same2) (act_on-Writes ctx p id action w (rw same1 found) (role, held, enough))
