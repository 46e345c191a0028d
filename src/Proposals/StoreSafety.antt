-- ===== src/Proposals/StoreSafety.antt =====
-- Every statement of the proposal service only adds to the history.
use ptv_mcp.Base.{
  ℕ, ◌≡◌, refl, true, List, Option, none, some, Text, arith, find, Extends-refl, Option-cases, inl,
  inr, &&-true,
}
use ptv_mcp.World.{
  ProposalStatus, status_eq, ProposalRecord, ReviewerRow, World, err, ServiceError,
  already_resolved, Call, ◌>>=◌, or_throw,
}
use ptv_mcp.World.Keeps.{Keeps, bind-Keeps}
use ptv_mcp.Proposals.Store.{
  is_row, is_row_in, resolved_row, published_row, linked_row, get_by_id, transition, mark_resolved,
  mark_published, set_review_item,
}
use ptv_mcp.Proposals.History.{
  RowEvolves, CanBecome-refl, Evolves, Evolves-refl, update-Evolves, ReviewersEvolve,
  ReviewersEvolve-refl, Advances, Advances-refl, Advances-trans,
}

-- Whatever the result, the call only adds to the history.
abbrev pub Steady : {P A : Type 0} → Call P A → Type 0
Steady = Keeps Advances

pub bind-Steady :
    {P A B : Type 0} (m : Call P A) (f : A → Call P B)
    → Steady m
    → ((a : A) → Steady (f a))
    → Steady (m >>= f)
bind-Steady m f hm hf = bind-Keeps Advances Advances-trans m f hm hf

pub or_throw-Steady :
    {P A : Type 0} (o : Option A) (e : ServiceError) → Steady {P = P} (or_throw o e)
or_throw-Steady none e = record { at = λ w. Advances-refl w }
or_throw-Steady (some a) e = record { at = λ w. Advances-refl w }

status_eq→≡ : (a b : ProposalStatus) → status_eq a b ≡ true → a ≡ b
unfolding status_eq
status_eq→≡ a b h = ground arith

-- `markResolved` from `pending`, `markPublished` from `approved`.
resolved_row-RowEvolves :
    (status : ProposalStatus) (user : Text) (id : Option Text) (now : ℕ) (p : ProposalRecord)
    → p.status ≡ ProposalStatus.pending
    → RowEvolves p (resolved_row status user id now p)
resolved_row-RowEvolves status user id now p h = record {
  id = refl;
  tenant_id = refl;
  kind = refl;
  environment = refl;
  proposer = refl;
  changes = refl;
  queued_diff = refl;
  correlation_id = refl;
  created_at = refl;
  status = rw h tt;
  resolved_by = λ d. absurd (d h);
  resolved_at = λ d. absurd (d h);
}

published_row-RowEvolves :
    (id : Option Text) (now : ℕ) (p : ProposalRecord)
    → p.status ≡ ProposalStatus.approved
    → RowEvolves p (published_row id now p)
published_row-RowEvolves id now p h = record {
  id = refl;
  tenant_id = refl;
  kind = refl;
  environment = refl;
  proposer = refl;
  changes = refl;
  queued_diff = refl;
  correlation_id = refl;
  created_at = refl;
  status = rw h (inr refl);
  resolved_by = λ d. refl;
  resolved_at = λ d. refl;
}

linked_row-RowEvolves :
    (item : Text) (now : ℕ) (p : ProposalRecord) → RowEvolves p (linked_row item now p)
linked_row-RowEvolves item now p = record {
  id = refl;
  tenant_id = refl;
  kind = refl;
  environment = refl;
  proposer = refl;
  changes = refl;
  queued_diff = refl;
  correlation_id = refl;
  created_at = refl;
  status = CanBecome-refl p.status;
  resolved_by = λ d. refl;
  resolved_at = λ d. refl;
}

module _ {P : Type 0} (w : World P) where
  -- A state that differs in the proposals alone.
  proposals_Advances :
      (ps : List ProposalRecord) → Evolves w.proposals ps → Advances w (record w { proposals = ps })
  proposals_Advances ps h = record {
    history = record {
      proposals = h;
      comments = Extends-refl w.comments;
      reviewers = ReviewersEvolve-refl w.reviewers;
      audit = Extends-refl w.audit;
    };
    users = refl;
    memberships = refl;
    tenants = refl;
  }

  pub reviewers_Advances :
      (rs : List ReviewerRow)
      → ReviewersEvolve w.reviewers rs
      → Advances w (record w { reviewers = rs })
  reviewers_Advances rs h = record {
    history = record {
      proposals = Evolves-refl w.proposals;
      comments = Extends-refl w.comments;
      reviewers = h;
      audit = Extends-refl w.audit;
    };
    users = refl;
    memberships = refl;
    tenants = refl;
  }

module _ {P : Type 0} where
  pub get_by_id-Steady : (tenant id : Text) → Steady {P = P} (get_by_id tenant id)
  unfolding get_by_id
  get_by_id-Steady tenant id = record {
    at = λ w. (or_throw-Steady (find (is_row tenant id) w.proposals) _).at w;
  }

  transition-Steady :
      (tenant id : Text) (from : ProposalStatus) (set : ProposalRecord → ProposalRecord)
      → ((p : ProposalRecord) → p.status ≡ from → RowEvolves p (set p))
      → Steady {P = P} (transition tenant id from set)
  unfolding transition
  transition-Steady tenant id from set lawful = record {
    at = λ w. elim (Option-cases (find (is_row_in tenant id from) w.proposals)) [
      | inl missing ↦
          rw (missing, transition)
            ((bind-Steady (get_by_id tenant id)
                (λ current v. (err (already_resolved current.status), v))
                (get_by_id-Steady tenant id) (λ current. record { at = Advances-refl })).at
              w)
      | inr (p, found) ↦
          rw (found, transition)
            (proposals_Advances w _ (
              update-Evolves (is_row_in tenant id from) set
                (λ q sel. lawful q (status_eq→≡ q.status from (&&-true _ _ sel).1)) w.proposals))
    ];
  }

  pub mark_resolved-Steady :
      (tenant id : Text) (status : ProposalStatus) (user : Text) (service_id : Option Text)
      → Steady {P = P} (mark_resolved tenant id status user service_id)
  unfolding mark_resolved
  mark_resolved-Steady tenant id status user service_id = record {
    at = λ w.
        (transition-Steady tenant id ProposalStatus.pending
            (resolved_row status user service_id w.now)
            (resolved_row-RowEvolves status user service_id w.now)).at
          w;
  }

  pub mark_published-Steady :
      (tenant id : Text) (service_id : Option Text)
      → Steady {P = P} (mark_published tenant id service_id)
  unfolding mark_published
  mark_published-Steady tenant id service_id = record {
    at = λ w.
        (transition-Steady tenant id ProposalStatus.approved (published_row service_id w.now)
            (published_row-RowEvolves service_id w.now)).at
          w;
  }

  pub set_review_item-Steady :
      (tenant id item : Text) → Steady {P = P} (set_review_item tenant id item)
  unfolding set_review_item
  set_review_item-Steady tenant id item = record {
    at = λ w. proposals_Advances w _ (
        update-Evolves (is_row tenant id) (linked_row item w.now)
          (λ p _. linked_row-RowEvolves item w.now p) w.proposals);
  }
