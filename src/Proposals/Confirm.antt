-- ===== src/Proposals/Confirm.antt =====
-- Confirming that an approved proposal was published in PTV by hand (src/mcp/proposalQueue.ts,
-- confirmManualPublish).
use ptv_mcp.Base.{◌≡◌, sym, ◌∙◌, ap, Option, some, Text, find, some-injective}
use ptv_mcp.Json.{Json}
use ptv_mcp.World.{approver, ProposalStatus, ProposalRecord, World, Platform, ok, ◌>>=◌, ◌>>◌}
use ptv_mcp.World.Keeps.{Ensures, bind-Ensures, throw_if-Ensures}
use ptv_mcp.Proposals.Store.{is_row, published_row, mark_published}
use ptv_mcp.Proposals.Kinds.{ToolContext, ProposalKinds}
use ptv_mcp.Proposals.Queue.{audit_proposal}
use ptv_mcp.Proposals.Resolve.{
  ProposalDetails, in_environment, proposal_details, confirm_manual_publish,
}
use ptv_mcp.Proposals.Transition.{UniqueIds, status_eq_iff}
use ptv_mcp.Proposals.Approval.{HasRole, require_tenant_role-ok, not-false}
use ptv_mcp.Proposals.Details.{get_by_id-ok}
use ptv_mcp.Proposals.Verify.{Verified, Looked, check_published-Ensures, publish_case}

pub record Confirmed {P : Type 0} ⦃platform : Platform⦄ (kinds : ProposalKinds P)
    (ctx : ToolContext) (id : Text) (ptv_id : Option Text) (w : World P) (d : ProposalDetails)
    (u : World P) : Type 0 where
  pub before : ProposalRecord
  pub found : find (is_row ctx.tenant_id id) w.proposals ≡ some before
  pub was_approved : before.status ≡ ProposalStatus.approved
  pub authorized : HasRole approver ctx.tenant_id ctx.acting_user_id w
  pub created : Option Text
  pub verified : Verified kinds ctx before w ptv_id created
  pub after : d.proposal ≡ published_row created w.now before
  pub stored : find (is_row ctx.tenant_id id) u.proposals ≡ some d.proposal
  pub same_ptv : u.ptv ≡ w.ptv

module _ {P : Type 0} ⦃platform : Platform⦄ (kinds : ProposalKinds P) where
  -- After the check, from the state `w` that it read.
  publish-Ensures :
      (ctx ctx' : ToolContext) (id : Text) (ptv_id created : Option Text) (p : ProposalRecord)
      (action result : Text) (s : Option Json) (w v : World P)
      → UniqueIds w.proposals
      → HasRole approver ctx.tenant_id ctx.acting_user_id w
      → find (is_row ctx.tenant_id id) w.proposals ≡ some p
      → p.status ≡ ProposalStatus.approved
      → Verified kinds ctx p w ptv_id created
      → Looked w v
      → Ensures v
          (do
            published ← mark_published ctx.tenant_id id created
            audit_proposal ctx p action result s
            proposal_details kinds ctx' published)
          (Confirmed kinds ctx id ptv_id w)
  publish-Ensures ctx ctx' id ptv_id created p action result s w v unique role found was verified
        looked =
      record {
        at = λ d u h.
            let (row, row_found, after, stored, same) =
              (publish_case kinds ctx ctx' id created p action result s v
                  (rw looked.proposals unique)).at
                d u h in
            let row_found_w : find (is_row ctx.tenant_id id) w.proposals ≡ some row =
              rw (← looked.proposals) row_found in
            let e : row ≡ p = some-injective row p (sym row_found_w ∙ found) in
            record {
              before = p;
              found = found;
              was_approved = was;
              authorized = role;
              created = created;
              verified = verified;
              after =
                  after
                  ∙ ap (published_row created v.now) e
                  ∙ ap (λ n. published_row created n p) looked.now;
              stored = stored;
              same_ptv = same ∙ looked.ptv;
            };
      }

  confirm-Ensures :
      (ctx : ToolContext) (id : Text) (ptv_id : Option Text) (w : World P)
      → UniqueIds w.proposals
      → Ensures w (confirm_manual_publish kinds ctx id ptv_id) (Confirmed kinds ctx id ptv_id w)
  unfolding confirm_manual_publish
  confirm-Ensures ctx id ptv_id w unique = bind-Ensures _ _ λ role w1 entered.
      let (held, enough, same1) =
        require_tenant_role-ok ctx.tenant_id ctx.acting_user_id approver role w w1 entered in
      bind-Ensures _ _ λ p w2 read.
        let (found, same2) = get_by_id-ok ctx.tenant_id id w1 w2 p read in
        throw_if-Ensures _ _ _ λ was. bind-Ensures _ _ λ created v checked.
          let (verified, looked) =
            (check_published-Ensures kinds ctx p w ptv_id).at created v
              (rw (same1 ∙ same2) checked) in
          publish-Ensures ctx (in_environment ctx p) id ptv_id created p _ _ _ w v unique
            (role, held, enough) (rw same1 found) ((status_eq_iff _ _).0 (not-false _ was)) verified
            looked

  -- If proposal ids are unique and confirming a manual publishing succeeds, then the acting user
  -- is an approver or above, the proposal was approved, PTV was read and held the created item
  -- with the approved names and organisation, or nothing of the change was missing any more, the
  -- row became applied with its resolver kept, and PTV was not written to.
  pub confirm_manual_publish-ok :
      (ctx : ToolContext) (id : Text) (ptv_id : Option Text) (w : World P) (d : ProposalDetails)
      (u : World P)
      → UniqueIds w.proposals
      → confirm_manual_publish kinds ctx id ptv_id w ≡ (ok d, u)
      → Confirmed kinds ctx id ptv_id w d u
  confirm_manual_publish-ok ctx id ptv_id w d u unique h =
      (confirm-Ensures ctx id ptv_id w unique).at d u h
