-- ===== src/Proposals/Samples.antt =====
-- A small tenant, its queue and stand-ins for the platform and the handlers of proposal kinds, for
-- the tests.
use ptv_mcp.Base.{
  ℕ, ◌+◌, ◌≡◌, refl, Bool, true, false, List, [], ◌∷◌, none, some, Text, text, Extends-refl,
}
use ptv_mcp.Json.{null, end}
use ptv_mcp.World.{
  contributor, approver, production, ProposalStatus, applied, ProposalKind, service_create,
  service_update, ReviewDecision, ProposalRecord, ReviewerRow, World, Platform, Result, ok, err,
}
use ptv_mcp.Proposals.Kinds.{ToolContext, LiveDiff, CreatedItem, KindHandler, Frame, ProposalKinds}

instance abbrev pub sample_platform : Platform
sample_platform = record {
  random_uuid = λ n. n ∷ [];
  to_lower_case = λ t. t;
  locale_before = λ a b. true;
  sql_before = λ a b. true;
}

-- PTV as the number of writes to it; creating kinds find one item.
abbrev sample_item : CreatedItem
sample_item = record { organization_id = text "org"; names = [] }

abbrev sample_diff : LiveDiff
sample_diff = record { diff = []; current = some null; proposed = none }

abbrev pub sample_handler : Bool → KindHandler ℕ
sample_handler creates = record {
  creates = creates;
  live_diff = λ ctx s w. (ok sample_diff, w);
  approve_for_export = λ ctx s w. (ok none, w);
  apply = λ ctx s w.
      (ok (record { created_id = none; after_state = none }), record w { ptv = w.ptv + 1 });
  is_not_found = λ e. false;
  expected = λ changes. sample_item;
  read_created = λ ctx id w. (ok (some sample_item), w);
}

abbrev sample_creates : ProposalKind → Bool
sample_creates service_create = true
sample_creates _ = false

pub ptv-Frame : (w : World ℕ) (n : ℕ) → Frame w (record w { ptv = n })
ptv-Frame w n = record {
  now = refl;
  proposals = refl;
  comments = refl;
  reviewers = refl;
  users = refl;
  memberships = refl;
  tenants = refl;
  audit = Extends-refl w.audit;
}

abbrev pub sample_kinds : ProposalKinds ℕ
sample_kinds = record {
  handler = λ k. sample_handler (sample_creates k);
  live_diff_frame = λ k ctx s w. ptv-Frame w w.ptv;
  live_diff_reads = λ k ctx s w. refl;
  export_frame = λ k ctx s w. ptv-Frame w w.ptv;
  export_reads = λ k ctx s w. refl;
  apply_frame = λ k ctx s w. ptv-Frame w (w.ptv + 1);
  read_created_frame = λ k ctx id w. ptv-Frame w w.ptv;
  read_created_reads = λ k ctx id w. refl;
}

-- Anna approves, Carl contributes; `p1` waits, `p2` is approved, `p3` is applied.
abbrev pub sample_proposal : Text → ProposalStatus → ProposalKind → ProposalRecord
sample_proposal id status kind = record {
  id = id;
  tenant_id = text "t";
  kind = kind;
  service_id = text "s";
  environment = production;
  proposed_by_user_id = text "carl";
  status = status;
  changes = end;
  queued_diff = [];
  correlation_id = text "c";
  resolved_by_user_id = none;
  resolved_at = none;
  review_item_id = none;
  created_at = 1;
  updated_at = 1;
}

abbrev pub sample_reviewer : Text → ReviewDecision → ReviewerRow
sample_reviewer user decision = record {
  tenant_id = text "t";
  proposal_id = text "p1";
  user_id = user;
  requested_by_user_id = text "carl";
  decision = decision;
  comment = none;
  requested_at = 2;
  decided_at = none;
}

abbrev pub sample_world : List ReviewerRow → World ℕ
sample_world reviewers = record {
  now = 5;
  seed = 100;
  proposals =
      sample_proposal (text "p1") ProposalStatus.pending service_update
      ∷ sample_proposal (text "p2") ProposalStatus.approved service_create
      ∷ sample_proposal (text "p3") applied service_update
      ∷ [];
  comments = [];
  reviewers = reviewers;
  users =
      record { id = text "anna"; name = text "Anna"; email = text "anna@t.fi" }
      ∷ record { id = text "carl"; name = text "Carl"; email = text "carl@t.fi" }
      ∷ [];
  memberships =
      record { tenant_id = text "t"; user_id = text "anna"; role = approver }
      ∷ record { tenant_id = text "t"; user_id = text "carl"; role = contributor }
      ∷ [];
  tenants =
      record {
        id = text "t";
        name = text "T";
        slug = text "t";
        require_four_eyes = true;
        updated_at = 0;
      }
      ∷ [];
  audit = [];
  campaigns = [];
  items = [];
  ptv = 0;
}

abbrev pub sample_context : Text → ToolContext
sample_context user = record {
  tenant_id = text "t";
  environment = production;
  read_api_version = none;
  write_api_version = none;
  acting_user_id = user;
}

-- A call that succeeds on a concrete state.
abbrev pub succeeds : {A : Type 0} → Result A → Bool
succeeds (ok a) = true
succeeds (err e) = false

pub answer :
    {P A : Type 0} (r : Result A × World P) → succeeds r.0 ≡ true → (a : A) × (r ≡ (ok a, r.1))
answer (ok a, w) h = (a, refl)
answer (err e, w) h = cc
