-- ===== src/Proposals/Outcome.antt =====
-- What a successful resolution has checked and stored (src/mcp/proposalQueue.ts, resolveProposal).
use ptv_mcp.Base.{
  ap, ◌≡◌, refl, sym, ◌∙◌, subst, ◌≢◌, Option, none, some, some-injective, Text, find,
}
use ptv_mcp.Json.{Json}
use ptv_mcp.World.{
  approver, ProposalStatus, rejected, applied, ProposalRecord, World, Platform, ok, Call, ◌>>=◌,
  ◌>>◌,
}
use ptv_mcp.World.Keeps.{Ensures, bind-Ensures}
use ptv_mcp.Proposals.Store.{is_row, resolved_row, mark_resolved}
use ptv_mcp.Proposals.Kinds.{ToolContext, Frame, ProposalKinds}
use ptv_mcp.Proposals.Queue.{audit_proposal}
use ptv_mcp.Proposals.Resolve.{
  ResolveProposalAction, reject, approve_and_export, approve_and_apply, ProposalDetails,
  proposal_details, resolve_reject, resolve_export, resolve_apply, act_on, resolve_proposal,
  in_environment, stored_of,
}
use ptv_mcp.Proposals.Transition.{UniqueIds}
use ptv_mcp.Proposals.Exclusive.{mark_resolved-ok}
use ptv_mcp.Proposals.Approval.{HasRole, MayApprove, require_tenant_role-ok, approval_guards-ok}
use ptv_mcp.Proposals.Details.{
  Quiet, status_after, get_by_id-ok, proposal_details-Ensures, try_apply-Ensures,
  audit_proposal-Quiet,
}

-- What the end of a resolution found, answers and stores, from the state `v` that it starts in.
record Closes {P : Type 0} (tenant id user : Text) (status : ProposalStatus) (created : Option Text)
    (v : World P) (d : ProposalDetails) (u : World P) : Type 0 where
  before : ProposalRecord
  found : find (is_row tenant id) v.proposals ≡ some before
  was_pending : before.status ≡ ProposalStatus.pending
  after : d.proposal ≡ resolved_row status user created v.now before
  stored : find (is_row tenant id) u.proposals ≡ some d.proposal

-- What a successful resolution has checked, answers and stored.
pub record Resolved {P : Type 0} (ctx : ToolContext) (id : Text) (action : ResolveProposalAction)
    (w : World P) (d : ProposalDetails) (u : World P) : Type 0 where
  pub before : ProposalRecord
  pub found : find (is_row ctx.tenant_id id) w.proposals ≡ some before
  pub was_pending : before.status ≡ ProposalStatus.pending
  pub authorized : HasRole approver ctx.tenant_id ctx.acting_user_id w
  pub allowed : action ≢ reject → MayApprove ctx before id w
  -- The id of an item that the approval created in PTV.
  pub created : Option Text
  pub created_by_apply : action ≢ approve_and_apply → created ≡ none
  pub after :
      d.proposal ≡ resolved_row (status_after action) ctx.acting_user_id created w.now before
  pub stored : find (is_row ctx.tenant_id id) u.proposals ≡ some d.proposal

-- A resolution that starts after a handler's step found what stood before it.
through :
    {P : Type 0} {tenant id user : Text} {status : ProposalStatus} {created : Option Text}
    {w v : World P} {m : Call P ProposalDetails}
    → Frame w v
    → Ensures v m (Closes tenant id user status created v)
    → Ensures v m (Closes tenant id user status created w)
through f h = record {
  at = λ d u e.
      let c = h.at d u e in
      record {
        before = c.before;
        found = rw (← f.proposals) c.found;
        was_pending = c.was_pending;
        after = rw (← f.now) c.after;
        stored = c.stored;
      };
}

-- The end of an allowed resolution, with what was checked before it.
with_checks :
    {P : Type 0} (ctx : ToolContext) (id : Text) (action : ResolveProposalAction)
    (created : Option Text) (p : ProposalRecord) (w : World P)
    → find (is_row ctx.tenant_id id) w.proposals ≡ some p
    → HasRole approver ctx.tenant_id ctx.acting_user_id w
    → (action ≢ reject → MayApprove ctx p id w)
    → (action ≢ approve_and_apply → created ≡ none)
    → (d : ProposalDetails) (u : World P)
    → Closes ctx.tenant_id id ctx.acting_user_id (status_after action) created w d u
    → Resolved ctx id action w d u
with_checks ctx id action created p w read role may by_apply d u c = record {
  before = c.before;
  found = c.found;
  was_pending = c.was_pending;
  authorized = role;
  allowed = λ other.
      subst (λ x. MayApprove ctx x id w) (some-injective p c.before (sym read ∙ c.found))
        (may other);
  created = created;
  created_by_apply = by_apply;
  after = c.after;
  stored = c.stored;
}

module _ {P : Type 0} ⦃platform : Platform⦄ (kinds : ProposalKinds P) where
  close-Ensures :
      (ctx ctx' : ToolContext) (id : Text) (status : ProposalStatus) (created : Option Text)
      (p : ProposalRecord) (action result : Text) (s : Option Json) (v : World P)
      → UniqueIds v.proposals
      → Ensures v
          (do
            closed ← mark_resolved ctx.tenant_id id status ctx.acting_user_id created
            audit_proposal ctx p action result s
            proposal_details kinds ctx' closed)
          (Closes ctx.tenant_id id ctx.acting_user_id status created v)
  close-Ensures ctx ctx' id status created p action result s v unique =
      bind-Ensures _ _ λ q v1 marked.
        let (row, found, was_pending, made, stored) =
          mark_resolved-ok ctx.tenant_id id status ctx.acting_user_id created v v1 q unique
            marked in
        bind-Ensures _ _ λ a v2 audited. record {
          at = λ d u h.
              let (same, quiet) = (proposal_details-Ensures kinds ctx' q v2).at d u h in
              let logged : Quiet v1 v2 =
                subst (Quiet v1) (ap (λ x. x.1) audited)
                  ((audit_proposal-Quiet ctx p action result s).at v1) in
              record {
                before = row;
                found = found;
                was_pending = was_pending;
                after = same ∙ made;
                stored = rw (quiet.proposals, logged.proposals, same) stored;
              };
        }

  reject_case :
      (ctx : ToolContext) (p : ProposalRecord) (id : Text) (w : World P)
      → UniqueIds w.proposals
      → Ensures w
          (resolve_reject kinds ctx p id)
          (Closes ctx.tenant_id id ctx.acting_user_id rejected none w)
  unfolding resolve_reject
  reject_case ctx p id w unique = close-Ensures ctx _ id _ _ p _ _ _ w unique

  export_case :
      (ctx : ToolContext) (p : ProposalRecord) (id : Text) (w : World P)
      → UniqueIds w.proposals
      → Ensures w
          (resolve_export kinds ctx p id)
          (Closes ctx.tenant_id id ctx.acting_user_id ProposalStatus.approved none w)
  unfolding resolve_export
  export_case ctx p id w unique = bind-Ensures _ _ λ s v exported.
      let framed : Frame w v =
        subst (Frame w) (ap (λ x. x.1) exported)
          (kinds.export_frame p.kind (in_environment ctx p) (stored_of p) w) in
      through framed (close-Ensures ctx _ id _ none p _ _ s v (rw framed.proposals unique))

  apply_case :
      (ctx : ToolContext) (p : ProposalRecord) (id : Text) (w : World P)
      → UniqueIds w.proposals
      → Ensures w (resolve_apply kinds ctx p id) (λ d u.
        (created : Option Text) × Closes ctx.tenant_id id ctx.acting_user_id applied created w d u)
  unfolding resolve_apply
  apply_case ctx p id w unique = bind-Ensures _ _ λ outcome v tried.
      let framed = (try_apply-Ensures kinds ctx p id w).at outcome v tried in
      let ends = through framed (
        close-Ensures ctx _ id applied outcome.created_id p _ _ outcome.after_state v
          (rw framed.proposals unique)) in
      record { at = λ d u h. (outcome.created_id, ends.at d u h) }

  act_on-Ensures :
      (ctx : ToolContext) (p : ProposalRecord) (id : Text) (action : ResolveProposalAction)
      (w : World P)
      → UniqueIds w.proposals
      → find (is_row ctx.tenant_id id) w.proposals ≡ some p
      → HasRole approver ctx.tenant_id ctx.acting_user_id w
      → Ensures w (act_on kinds ctx p id action) (Resolved ctx id action w)
  unfolding act_on
  act_on-Ensures ctx p id reject w unique read role = record {
    at = λ d u h.
        with_checks ctx id reject none p w read role (λ k. absurd (k refl)) (λ _. refl) d u
          ((reject_case ctx p id w unique).at d u h);
  }
  act_on-Ensures ctx p id approve_and_export w unique read role = bind-Ensures _ _ λ t v passed.
      let (may, same) = approval_guards-ok kinds ctx p id w v passed in
      record {
        at = λ d u h.
            with_checks ctx id approve_and_export none p w read role (λ _. may) (λ _. refl) d u
              ((export_case ctx p id w unique).at d u (rw same h));
      }
  act_on-Ensures ctx p id approve_and_apply w unique read role = bind-Ensures _ _ λ t v passed.
      let (may, same) = approval_guards-ok kinds ctx p id w v passed in
      record {
        at = λ d u h.
            let (created, ends) = (apply_case ctx p id w unique).at d u (rw same h) in
            with_checks ctx id approve_and_apply created p w read role (λ _. may)
              (λ k. absurd (k refl)) d u ends;
      }

  -- If proposal ids are unique and resolving a proposal succeeds, then the acting user is an
  -- approver or above, the proposal was pending, unless it was rejected the four-eyes rule held
  -- and every required reviewer with an account had approved, and the stored and returned row is
  -- that proposal with the status of the action, the acting user and the time.
  pub resolve_proposal-ok :
      (ctx : ToolContext) (id : Text) (action : ResolveProposalAction) (w : World P)
      (d : ProposalDetails) (u : World P)
      → UniqueIds w.proposals
      → resolve_proposal kinds ctx id action w ≡ (ok d, u)
      → Resolved ctx id action w d u
  unfolding resolve_proposal
  resolve_proposal-ok ctx id action w d u unique h = checked.at d u h
    where
      checked : Ensures w (resolve_proposal kinds ctx id action) (Resolved ctx id action w)
      checked = bind-Ensures _ _ λ role w1 entered.
          let (held, enough, same1) =
            require_tenant_role-ok ctx.tenant_id ctx.acting_user_id approver role w w1 entered in
          bind-Ensures _ _ λ p w2 read.
            let (found, same2) = get_by_id-ok ctx.tenant_id id w1 w2 p read in
            subst (λ x. Ensures x (act_on kinds ctx p id action) (Resolved ctx id action w))
              (same1 ∙ same2)
              (act_on-Ensures ctx p id action w unique (rw same1 found) (role, held, enough))
