-- ===== src/Proposals/Exclusive.antt =====
-- Of several resolutions of one proposal, at whatever moments they reach the database, at most one
-- succeeds (src/proposals/proposalService.ts).
use ptv_mcp.Base.{◌≡◌, refl, ap, subst, ◌≢◌, Option, some, Text, find, arith}
use ptv_mcp.World.{
  ProposalStatus, rejected, applied, failed, ProposalRecord, World, ok, err, already_resolved,
}
use ptv_mcp.Proposals.Store.{is_row, resolved_row, mark_resolved}
use ptv_mcp.Proposals.History.{CanBecome, History}
use ptv_mcp.Proposals.Transition.{
  UniqueIds, find-update, find-Evolves, find-is_row_in, transition-ok, transition-refused,
}

-- A status that is not `pending` never becomes it again.
pub CanBecome-decided :
    (a b : ProposalStatus) → CanBecome a b → a ≢ ProposalStatus.pending → b ≢ ProposalStatus.pending
CanBecome-decided ProposalStatus.pending b h k = absurd (k refl)
CanBecome-decided ProposalStatus.approved b h k = ground arith
CanBecome-decided rejected b h k = ground arith
CanBecome-decided applied b h k = ground arith
CanBecome-decided failed b h k = ground arith

module _ {P : Type 0} (tenant id : Text) where
  -- What a successful `markResolved` has done.
  pub mark_resolved-ok :
      (status : ProposalStatus) (user : Text) (service_id : Option Text) (w u : World P)
      (q : ProposalRecord)
      → UniqueIds w.proposals
      → mark_resolved tenant id status user service_id w ≡ (ok q, u)
      → (p : ProposalRecord) × (find (is_row tenant id) w.proposals ≡ some p)
        × (p.status ≡ ProposalStatus.pending)
        × (q ≡ resolved_row status user service_id w.now p)
        × (find (is_row tenant id) u.proposals ≡ some q)
  unfolding mark_resolved
  mark_resolved-ok status user service_id w u q unique h =
      let (p, found, made, stored) = transition-ok tenant id _ _ w u q h in
      let (row, pending) = find-is_row_in tenant id _ w.proposals p unique found in
      (
        p,
        row,
        pending,
        made,
        rw (stored, made) (find-update tenant id _ _ w.proposals p (λ _. refl) unique found),
      )

  -- Once one resolution of a proposal has succeeded in the database with a status other than
  -- pending, every later one is refused with the status that the row has then, and changes
  -- nothing; rows evolved lawfully in between, and ids are unique in both states.
  pub resolution_exclusive :
      (status : ProposalStatus) (user : Text) (service_id : Option Text) (w u : World P)
      (q : ProposalRecord)
      → UniqueIds w.proposals
      → status ≢ ProposalStatus.pending
      → mark_resolved tenant id status user service_id w ≡ (ok q, u)
      → (v : World P) → History u v
      → UniqueIds v.proposals
      → (status' : ProposalStatus) (user' : Text) (service_id' : Option Text)
      → (r : ProposalStatus) × (CanBecome status r)
        × (mark_resolved tenant id status' user' service_id' v ≡ (err (already_resolved r), v))
  resolution_exclusive status user service_id w u q unique decided h v later unique' status' user'
        service_id' =
      let (p, row, pending, made, found) = mark_resolved-ok status user service_id w u q unique h in
      let (s, found', evolved) =
        find-Evolves tenant id u.proposals v.proposals q later.proposals found in
      let moved : CanBecome status s.status =
        subst (λ x. CanBecome x s.status) (ap (λ (x : ProposalRecord). x.status) made)
          evolved.status in
      (s.status, moved, refused s found' (CanBecome-decided status s.status moved decided))
    where
      refused :
          (s : ProposalRecord)
          → find (is_row tenant id) v.proposals ≡ some s
          → s.status ≢ ProposalStatus.pending
          → mark_resolved tenant id status' user' service_id' v
            ≡ (err (already_resolved s.status), v)
      refused s found' closed =
          unfold mark_resolved in transition-refused tenant id _ _ v s unique' found' closed
