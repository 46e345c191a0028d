-- ===== src/Proposals/Store.antt =====
-- `ProposalService` (src/proposals/proposalService.ts). The tenant filter of each statement is
-- written out; row-level security only repeats it.
use ptv_mcp.Base.{
  ℕ, ◌+◌, Bool, true, ◌&&◌, List, [], ◌∷◌, ◌++◌, Option, none, some, Text, text_eq, leb, filter_by,
  find, sort_by, take, update_where, is_empty, if◌then◌else◌,
}
use ptv_mcp.Json.{Fields}
use ptv_mcp.World.{
  PtvEnvironment, ProposalStatus, ProposalKind, status_eq, ServiceDiffEntry, ProposalRecord,
  Platform, ok, err, Call, ◌>>=◌, gets, or_throw, modify, proposal_not_found, already_resolved,
}

-- `and(eq(proposals.tenantId, tenantId), eq(proposals.id, proposalId))`
abbrev pub is_row : Text → Text → ProposalRecord → Bool
is_row tenant id p = text_eq p.tenant_id tenant && text_eq p.id id

pub record NewProposal : Type 0 where
  pub tenant_id : Text
  pub kind : Option ProposalKind
  pub service_id : Text
  pub environment : PtvEnvironment
  pub proposed_by_user_id : Text
  pub changes : Fields
  pub queued_diff : List ServiceDiffEntry
  pub correlation_id : Text
  pub review_item_id : Option Text

-- `input.kind ?? 'service_update'`
abbrev or_service_update : Option ProposalKind → ProposalKind
or_service_update none = ProposalKind.service_update
or_service_update (some kind) = kind

abbrev pub pending_row : NewProposal → Text → ℕ → ProposalRecord
pending_row input id now = record {
  id = id;
  tenant_id = input.tenant_id;
  kind = or_service_update input.kind;
  service_id = input.service_id;
  environment = input.environment;
  proposed_by_user_id = input.proposed_by_user_id;
  status = ProposalStatus.pending;
  changes = input.changes;
  queued_diff = input.queued_diff;
  correlation_id = input.correlation_id;
  resolved_by_user_id = none;
  resolved_at = none;
  review_item_id = input.review_item_id;
  created_at = now;
  updated_at = now;
}

-- The id that PTV gave a new item, where there is one: `serviceId ? { serviceId } : {}`.
abbrev pub or_old_id : Option Text → Text → Text
or_old_id none old = old
or_old_id (some id) old = if is_empty id then old else id

-- The `set` of `markResolved`, and that of `markPublished`.
abbrev pub resolved_row : ProposalStatus → Text → Option Text → ℕ → ProposalRecord → ProposalRecord
resolved_row status user service_id now p = record p {
  status = status;
  resolved_by_user_id = some user;
  resolved_at = some now;
  updated_at = now;
  service_id = or_old_id service_id p.service_id;
}

abbrev pub published_row : Option Text → ℕ → ProposalRecord → ProposalRecord
published_row service_id now p = record p {
  status = ProposalStatus.applied;
  updated_at = now;
  service_id = or_old_id service_id p.service_id;
}

-- The `set` of `setReviewItem`.
abbrev pub linked_row : Text → ℕ → ProposalRecord → ProposalRecord
linked_row item now p = record p { review_item_id = some item; updated_at = now }

-- `is_row` and `eq(proposals.status, from)`
abbrev pub is_row_in : Text → Text → ProposalStatus → ProposalRecord → Bool
is_row_in tenant id from p = is_row tenant id p && status_eq p.status from

module _ {P : Type 0} where
  unfoldable pub get_by_id : Text → Text → Call P ProposalRecord
  get_by_id tenant id w = or_throw (find (is_row tenant id) w.proposals) proposal_not_found w

  -- The private `transition`: one UPDATE guarded by the old status, then a read to say why not.
  unfoldable pub transition :
      Text → Text → ProposalStatus → (ProposalRecord → ProposalRecord) → Call P ProposalRecord
  transition tenant id from set w = elim (find (is_row_in tenant id from) w.proposals) [
    | some p ↦ (
      ok (set p),
      record w { proposals = update_where (is_row_in tenant id from) set w.proposals },
    )
    | none ↦ (do current ← get_by_id tenant id; λ v. (err (already_resolved current.status), v)) w
  ]

  unfoldable pub mark_resolved :
      Text → Text → ProposalStatus → Text → Option Text → Call P ProposalRecord
  mark_resolved tenant id status user service_id w =
      transition tenant id ProposalStatus.pending (resolved_row status user service_id w.now) w

  unfoldable pub mark_published : Text → Text → Option Text → Call P ProposalRecord
  mark_published tenant id service_id w =
      transition tenant id ProposalStatus.approved (published_row service_id w.now) w

  unfoldable pub set_review_item : Text → Text → Text → Call P (Unit {0})
  set_review_item tenant id item = modify (λ w. record w {
    proposals = update_where (is_row tenant id) (linked_row item w.now) w.proposals;
  })

  -- `options.status`, `options.limit ?? 100`; newest first.
  unfoldable pub list_proposals_of :
      Text → Option ProposalStatus → Option ℕ → Call P (List ProposalRecord)
  list_proposals_of tenant status limit = gets λ w.
      take (elim limit [ none ↦ 100 | some n ↦ n ])
        (sort_by (λ a b. leb b.created_at a.created_at)
          (filter_by
            (λ p.
              text_eq p.tenant_id tenant
              && elim status [ none ↦ true | some s ↦ status_eq p.status s ])
            w.proposals))

module _ {P : Type 0} ⦃platform : Platform⦄ where
  unfoldable pub create_pending : NewProposal → Call P ProposalRecord
  create_pending input w =
      let row = pending_row input (platform.random_uuid w.seed) w.now in
      (ok row, record w { proposals = w.proposals ++ row ∷ []; seed = w.seed + 1 })
