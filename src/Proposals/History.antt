-- ===== src/Proposals/History.antt =====
-- What may happen to the rows of the queue's tables, as relations between two states: no row is
-- removed or reordered, a status moves only forward, and the audit log is append-only.
use ptv_mcp.Base.{
  Grows, Grows-refl, Grows-append, Grows-trans, update_where-Grows, update_where-Grows_if, ◌≡◌,
  refl, ◌∙◌, ◌≢◌, ◌⊎◌, Bool, true, List, ◌++◌, arith, Extends, Extends-refl, Extends-trans,
  update_where, inl,
}
use ptv_mcp.World.{ProposalStatus, rejected, applied, failed, ProposalRecord, ReviewerRow, World}

-- The status machine of a proposal: a pending one is decided, an approved one is applied, and every
-- other status is final.
abbrev pub CanBecome : ProposalStatus → ProposalStatus → Type 0
CanBecome ProposalStatus.pending b = Unit
CanBecome ProposalStatus.approved b = (b ≡ ProposalStatus.approved) ⊎ (b ≡ applied)
CanBecome rejected b = b ≡ rejected
CanBecome applied b = b ≡ applied
CanBecome failed b = b ≡ failed

pub CanBecome-refl : (a : ProposalStatus) → CanBecome a a
CanBecome-refl ProposalStatus.pending = tt
CanBecome-refl ProposalStatus.approved = inl refl
CanBecome-refl rejected = refl
CanBecome-refl applied = refl
CanBecome-refl failed = refl

pub CanBecome-trans : (a b c : ProposalStatus) → CanBecome a b → CanBecome b c → CanBecome a c
CanBecome-trans ProposalStatus.pending b c h k = tt
CanBecome-trans ProposalStatus.approved b c h k = ground arith
CanBecome-trans rejected b c h k = ground arith
CanBecome-trans applied b c h k = ground arith
CanBecome-trans failed b c h k = ground arith

-- One row at two moments: what was proposed never changes, and who decided is recorded once.
pub record RowEvolves (p q : ProposalRecord) : Type 0 where
  pub id : q.id ≡ p.id
  pub tenant_id : q.tenant_id ≡ p.tenant_id
  pub kind : q.kind ≡ p.kind
  pub environment : q.environment ≡ p.environment
  pub proposer : q.proposed_by_user_id ≡ p.proposed_by_user_id
  pub changes : q.changes ≡ p.changes
  pub queued_diff : q.queued_diff ≡ p.queued_diff
  pub correlation_id : q.correlation_id ≡ p.correlation_id
  pub created_at : q.created_at ≡ p.created_at
  pub status : CanBecome p.status q.status
  pub resolved_by :
      p.status ≢ ProposalStatus.pending → q.resolved_by_user_id ≡ p.resolved_by_user_id
  pub resolved_at : p.status ≢ ProposalStatus.pending → q.resolved_at ≡ p.resolved_at

pub RowEvolves-refl : (p : ProposalRecord) → RowEvolves p p
RowEvolves-refl p = record {
  id = refl;
  tenant_id = refl;
  kind = refl;
  environment = refl;
  proposer = refl;
  changes = refl;
  queued_diff = refl;
  correlation_id = refl;
  created_at = refl;
  status = CanBecome-refl p.status;
  resolved_by = λ _. refl;
  resolved_at = λ _. refl;
}

still_decided :
    (a b : ProposalStatus) → CanBecome a b → a ≢ ProposalStatus.pending → b ≢ ProposalStatus.pending
still_decided ProposalStatus.pending b h k = absurd (k refl)
still_decided ProposalStatus.approved b h k = ground arith
still_decided rejected b h k = ground arith
still_decided applied b h k = ground arith
still_decided failed b h k = ground arith

pub RowEvolves-trans : (p q r : ProposalRecord) → RowEvolves p q → RowEvolves q r → RowEvolves p r
RowEvolves-trans p q r h k = record {
  id = k.id ∙ h.id;
  tenant_id = k.tenant_id ∙ h.tenant_id;
  kind = k.kind ∙ h.kind;
  environment = k.environment ∙ h.environment;
  proposer = k.proposer ∙ h.proposer;
  changes = k.changes ∙ h.changes;
  queued_diff = k.queued_diff ∙ h.queued_diff;
  correlation_id = k.correlation_id ∙ h.correlation_id;
  created_at = k.created_at ∙ h.created_at;
  status = CanBecome-trans p.status q.status r.status h.status k.status;
  resolved_by = λ d. k.resolved_by (still_decided p.status q.status h.status d) ∙ h.resolved_by d;
  resolved_at = λ d. k.resolved_at (still_decided p.status q.status h.status d) ∙ h.resolved_at d;
}

-- The table of proposals at two moments; new rows stand at the end.
abbrev pub Evolves : List ProposalRecord → List ProposalRecord → Type 0
Evolves = Grows RowEvolves

pub Evolves-refl : (ps : List ProposalRecord) → Evolves ps ps
Evolves-refl = Grows-refl RowEvolves RowEvolves-refl

pub Evolves-append : (ps qs : List ProposalRecord) → Evolves ps (ps ++ qs)
Evolves-append = Grows-append RowEvolves RowEvolves-refl

pub Evolves-trans : (ps qs rs : List ProposalRecord) → Evolves ps qs → Evolves qs rs → Evolves ps rs
Evolves-trans = Grows-trans RowEvolves RowEvolves-trans

-- An UPDATE whose `set` is lawful on every row that it selects.
pub update-Evolves :
    (sel : ProposalRecord → Bool) (set : ProposalRecord → ProposalRecord)
    → ((p : ProposalRecord) → sel p ≡ true → RowEvolves p (set p))
    → (ps : List ProposalRecord) → Evolves ps (update_where sel set ps)
update-Evolves = update_where-Grows_if RowEvolves RowEvolves-refl

-- A reviewer row at two moments: who was asked, by whom and when stays.
pub record ReviewerEvolves (r s : ReviewerRow) : Type 0 where
  pub tenant_id : s.tenant_id ≡ r.tenant_id
  pub proposal_id : s.proposal_id ≡ r.proposal_id
  pub user_id : s.user_id ≡ r.user_id
  pub requested_by : s.requested_by_user_id ≡ r.requested_by_user_id
  pub requested_at : s.requested_at ≡ r.requested_at

ReviewerEvolves-refl : (r : ReviewerRow) → ReviewerEvolves r r
ReviewerEvolves-refl r = record {
  tenant_id = refl;
  proposal_id = refl;
  user_id = refl;
  requested_by = refl;
  requested_at = refl;
}

ReviewerEvolves-trans :
    (r s t : ReviewerRow) → ReviewerEvolves r s → ReviewerEvolves s t → ReviewerEvolves r t
ReviewerEvolves-trans r s t h k = record {
  tenant_id = k.tenant_id ∙ h.tenant_id;
  proposal_id = k.proposal_id ∙ h.proposal_id;
  user_id = k.user_id ∙ h.user_id;
  requested_by = k.requested_by ∙ h.requested_by;
  requested_at = k.requested_at ∙ h.requested_at;
}

abbrev pub ReviewersEvolve : List ReviewerRow → List ReviewerRow → Type 0
ReviewersEvolve = Grows ReviewerEvolves

pub ReviewersEvolve-refl : (rs : List ReviewerRow) → ReviewersEvolve rs rs
ReviewersEvolve-refl = Grows-refl ReviewerEvolves ReviewerEvolves-refl

pub ReviewersEvolve-append : (rs ss : List ReviewerRow) → ReviewersEvolve rs (rs ++ ss)
ReviewersEvolve-append = Grows-append ReviewerEvolves ReviewerEvolves-refl

pub ReviewersEvolve-trans :
    (rs ss ts : List ReviewerRow)
    → ReviewersEvolve rs ss
    → ReviewersEvolve ss ts
    → ReviewersEvolve rs ts
ReviewersEvolve-trans = Grows-trans ReviewerEvolves ReviewerEvolves-trans

pub update-ReviewersEvolve :
    (sel : ReviewerRow → Bool) (set : ReviewerRow → ReviewerRow)
    → ((r : ReviewerRow) → ReviewerEvolves r (set r))
    → (rs : List ReviewerRow) → ReviewersEvolve rs (update_where sel set rs)
update-ReviewersEvolve = update_where-Grows ReviewerEvolves ReviewerEvolves-refl

-- Two states of the world, the second later: what happened in between kept every record.
pub record History {P : Type 0} (w v : World P) : Type 0 where
  pub proposals : Evolves w.proposals v.proposals
  pub comments : Extends w.comments v.comments
  pub reviewers : ReviewersEvolve w.reviewers v.reviewers
  pub audit : Extends w.audit v.audit

-- What one call may do: it adds to the history, and changes no user, role or setting.
pub record Advances {P : Type 0} (w v : World P) : Type 0 where
  pub history : History w v
  pub users : v.users ≡ w.users
  pub memberships : v.memberships ≡ w.memberships
  pub tenants : v.tenants ≡ w.tenants

module _ {P : Type 0} where
  pub History-refl : (w : World P) → History w w
  History-refl w = record {
    proposals = Evolves-refl w.proposals;
    comments = Extends-refl w.comments;
    reviewers = ReviewersEvolve-refl w.reviewers;
    audit = Extends-refl w.audit;
  }

  pub History-trans : (w v u : World P) → History w v → History v u → History w u
  History-trans w v u h k = record {
    proposals = Evolves-trans w.proposals v.proposals u.proposals h.proposals k.proposals;
    comments = Extends-trans w.comments v.comments u.comments h.comments k.comments;
    reviewers = ReviewersEvolve-trans w.reviewers v.reviewers u.reviewers h.reviewers k.reviewers;
    audit = Extends-trans w.audit v.audit u.audit h.audit k.audit;
  }

  pub Advances-refl : (w : World P) → Advances w w
  Advances-refl w = record {
    history = History-refl w;
    users = refl;
    memberships = refl;
    tenants = refl;
  }

  pub Advances-trans : (w v u : World P) → Advances w v → Advances v u → Advances w u
  Advances-trans w v u h k = record {
    history = History-trans w v u h.history k.history;
    users = k.users ∙ h.users;
    memberships = k.memberships ∙ h.memberships;
    tenants = k.tenants ∙ h.tenants;
  }
