-- ===== src/Proposals/Verify.antt =====
-- What is checked before a manual publishing is confirmed (src/mcp/proposalQueue.ts,
-- checkCreatedItem and confirmManualPublish).
use ptv_mcp.Base.{
  ◌≡◌, refl, ◌∙◌, ap, subst, Bool, true, false, not, Option, none, some, Text, find, is_empty,
  Bool-cases, inl, inr,
}
use ptv_mcp.Json.{Json}
use ptv_mcp.World.{ProposalStatus, ProposalRecord, World, Platform, ok, ◌>>=◌, ◌>>◌}
use ptv_mcp.World.Keeps.{Ensures, bind-Ensures, throw_if-Ensures, pure-Ensures, throw_if-ok}
use ptv_mcp.Proposals.Store.{is_row, published_row, mark_published}
use ptv_mcp.Proposals.Kinds.{ToolContext, LiveDiff, CreatedItem, ProposalKinds}
use ptv_mcp.Proposals.Queue.{audit_proposal}
use ptv_mcp.Proposals.Resolve.{
  in_environment, publish_state, item_matches, created_item_ok, trimmed_id, is_true,
  proposal_diff_details, proposal_details, check_created_item, check_created, check_update,
  check_published,
}
use ptv_mcp.Proposals.Transition.{UniqueIds, find-update, find-is_row_in, transition-ok}
use ptv_mcp.Proposals.Approval.{not-false}
use ptv_mcp.Proposals.Details.{
  Quiet, proposal_diff_details-Quiet, proposal_diff_details-now, proposal_details-Ensures,
  audit_proposal-Quiet,
}
use ptv_mcp.Proposals.Ptv.{mark_published-Reads}

module _ {P : Type 0} (tenant id : Text) where
  -- What a successful `markPublished` has done.
  pub mark_published-ok :
      (created : Option Text) (w u : World P) (q : ProposalRecord)
      → UniqueIds w.proposals
      → mark_published tenant id created w ≡ (ok q, u)
      → (p : ProposalRecord) × (find (is_row tenant id) w.proposals ≡ some p)
        × (p.status ≡ ProposalStatus.approved)
        × (q ≡ published_row created w.now p)
        × (find (is_row tenant id) u.proposals ≡ some q)
  unfolding mark_published
  mark_published-ok created w u q unique h =
      let (p, found, made, stored) = transition-ok tenant id _ _ w u q h in
      let (row, approved) = find-is_row_in tenant id _ w.proposals p unique found in
      (
        p,
        row,
        approved,
        made,
        rw (stored, made) (find-update tenant id _ _ w.proposals p (λ _. refl) unique found),
      )

-- What was read from PTV before the confirmation: the created item, with the approved names and
-- organisation, or a live state in which nothing approved is missing any more.
pub data Verified {P : Type 0} ⦃platform : Platform⦄ (kinds : ProposalKinds P) (ctx : ToolContext)
    (p : ProposalRecord) (w : World P) : Option Text → Option Text → Type 0 where
  item_found :
      (ptv_id : Option Text) (item : CreatedItem)
      → (kinds.handler p.kind).creates ≡ true
      → is_empty (trimmed_id ptv_id) ≡ false
      → ((kinds.handler p.kind).read_created (in_environment ctx p) (trimmed_id ptv_id) w).0
        ≡ ok (some item)
      → item_matches ((kinds.handler p.kind).expected p.changes) item ≡ true
      → Verified kinds ctx p w ptv_id (some (trimmed_id ptv_id))
  nothing_left :
      (ptv_id : Option Text) (live : LiveDiff)
      → (proposal_diff_details kinds (in_environment ctx p) p w).0 ≡ ok live
      → publish_state p live (kinds.handler p.kind).creates ≡ some true
      → Verified kinds ctx p w ptv_id none

-- What checking leaves as it was.
pub record Looked {P : Type 0} (w v : World P) : Type 0 where
  pub proposals : v.proposals ≡ w.proposals
  pub now : v.now ≡ w.now
  pub ptv : v.ptv ≡ w.ptv

is_true→some : (o : Option Bool) → not (is_true o) ≡ false → o ≡ some true
is_true→some none h = cc
is_true→some (some true) h = refl
is_true→some (some false) h = cc

module _ {P : Type 0} ⦃platform : Platform⦄ (kinds : ProposalKinds P) where
  check_created_item-Ensures :
      (ctx : ToolContext) (p : ProposalRecord) (id : Text) (w : World P)
      → Ensures w (check_created_item kinds ctx p id) (λ t v.
        ((item : CreatedItem) × (((kinds.handler p.kind).read_created ctx id w).0 ≡ ok (some item))
          × (item_matches ((kinds.handler p.kind).expected p.changes) item ≡ true))
        × Looked w v)
  unfolding check_created_item created_item_ok
  check_created_item-Ensures ctx p id w = bind-Ensures _ _ λ read v got. record {
    at = λ t u h.
        let (good, same) = throw_if-ok _ _ v u h in
        (
          matched read (ap (λ x. x.0) got) (not-false _ good),
          subst (Looked w) (ap (λ x. x.1) got ∙ same) (looked w),
        );
  }
    where
      looked : (w : World P) → Looked w ((kinds.handler p.kind).read_created ctx id w).1
      looked w =
          let f = kinds.read_created_frame p.kind ctx id w in
          record {
            proposals = f.proposals;
            now = f.now;
            ptv = kinds.read_created_reads p.kind ctx id w;
          }

      matched :
          (read : Option CreatedItem)
          → ((kinds.handler p.kind).read_created ctx id w).0 ≡ ok read
          → created_item_ok ((kinds.handler p.kind).expected p.changes) read ≡ true
          → (item : CreatedItem) × (((kinds.handler p.kind).read_created ctx id w).0
              ≡ ok (some item))
            × (item_matches ((kinds.handler p.kind).expected p.changes) item ≡ true)
      matched none got good = cc
      matched (some item) got good = (item, got, good)

  check_update-Ensures :
      (ctx : ToolContext) (p : ProposalRecord) (w : World P) (ptv_id : Option Text)
      → Ensures w
          (check_update kinds ctx p)
          (λ created v. Verified kinds ctx p w ptv_id created × Looked w v)
  unfolding check_update
  check_update-Ensures ctx p w ptv_id = bind-Ensures _ _ λ live v got.
      throw_if-Ensures _ _ _ λ clean. pure-Ensures (
        nothing_left ptv_id live (ap (λ x. x.0) got) (is_true→some _ clean),
        subst (Looked w) (ap (λ x. x.1) got) (looked p w),
      )
    where
      looked :
          (p : ProposalRecord) (w : World P)
          → Looked w (proposal_diff_details kinds (in_environment ctx p) p w).1
      looked p w =
          let q = (proposal_diff_details-Quiet kinds (in_environment ctx p) p).at w in
          record {
            proposals = q.proposals;
            now = proposal_diff_details-now kinds (in_environment ctx p) p w;
            ptv = q.ptv;
          }

  pub check_published-Ensures :
      (ctx : ToolContext) (p : ProposalRecord) (w : World P) (ptv_id : Option Text)
      → Ensures w
          (check_published kinds ctx p ptv_id)
          (λ created v. Verified kinds ctx p w ptv_id created × Looked w v)
  unfolding check_published check_created
  check_published-Ensures ctx p w ptv_id = elim (Bool-cases (kinds.handler p.kind).creates) [
    | inl new ↦ rw new (
        throw_if-Ensures _ _ _ λ named. bind-Ensures _ _ λ t v read.
          let ((item, got, good), looked) =
            (check_created_item-Ensures (in_environment ctx p) p (trimmed_id ptv_id) w).at t v
              read in
          pure-Ensures (item_found ptv_id item new named got good, looked))
    | inr old ↦ rw old (check_update-Ensures ctx p w ptv_id)
  ]

  pub publish_case :
      (ctx ctx' : ToolContext) (id : Text) (created : Option Text) (p : ProposalRecord)
      (action result : Text) (s : Option Json) (v : World P)
      → UniqueIds v.proposals
      → Ensures v
          (do
            published ← mark_published ctx.tenant_id id created
            audit_proposal ctx p action result s
            proposal_details kinds ctx' published)
          (λ d u.
            (row : ProposalRecord) × (find (is_row ctx.tenant_id id) v.proposals ≡ some row)
            × (d.proposal ≡ published_row created v.now row)
            × (find (is_row ctx.tenant_id id) u.proposals ≡ some d.proposal)
            × (u.ptv ≡ v.ptv))
  publish_case ctx ctx' id created p action result s v unique = bind-Ensures _ _ λ q v1 marked.
      let (row, found, was, made, stored) =
        mark_published-ok ctx.tenant_id id created v v1 q unique marked in
      bind-Ensures _ _ λ a v2 audited. record {
        at = λ d u h.
            let (same, quiet) = (proposal_details-Ensures kinds ctx' q v2).at d u h in
            let logged : Quiet v1 v2 =
              subst (Quiet v1) (ap (λ x. x.1) audited)
                ((audit_proposal-Quiet ctx p action result s).at v1) in
            (
              row,
              found,
              same ∙ made,
              rw (quiet.proposals, logged.proposals, same) stored,
              quiet.ptv
                  ∙ logged.ptv
                  ∙ subst (λ x. x.ptv ≡ v.ptv) (ap (λ x. x.1) marked)
                      ((mark_published-Reads ctx.tenant_id id created).at v).ptv,
            );
      }
