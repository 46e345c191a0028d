-- ===== src/Proposals/Approval.antt =====
-- What has been checked when a proposal is approved (src/mcp/proposalQueue.ts, resolveProposal):
-- four eyes, and the sign-off of every required reviewer.
use ptv_mcp.Base.{
  ℕ, ap, ◌≡◌, refl, ◌≢◌, ◌≤◌, inl, inr, Bool, true, false, not, ◌&&◌, List, [], ◌∷◌, Option, none,
  some, Text, text_eq, text_eq_iff, arith, All, filter_by, insert_by, sort_by, Bool-cases,
  Option-cases, ltb,
}
use ptv_mcp.World.{
  MembershipRole, ReviewDecision, decision_eq, ProposalRecord, ReviewerRow, UserRow, World,
  Platform, ok,
}
use ptv_mcp.World.Keeps.{throw_if-ok, throw_if-bind, gets-bind}
use ptv_mcp.Roles.{role_rank, role_of, check_role, require_tenant_role, requires_four_eyes}
use ptv_mcp.Proposals.Kinds.{ToolContext, ProposalKinds}
use ptv_mcp.Proposals.Reviewers.{
  ProposalReviewer, user_name_of, join_reviewers, of_proposal, list_reviewers,
}
use ptv_mcp.Proposals.Resolve.{is_waiting, rows_of, no_row, approval_guards}

-- The user has at least that role in the tenant.
abbrev pub HasRole : {P : Type 0} → MembershipRole → Text → Text → World P → Type 0
HasRole min_role tenant user w =
    (role : MembershipRole) × (role_of tenant user w.memberships ≡ some role)
    × (role_rank min_role ≤ role_rank role)

-- Every reviewer asked for that proposal, whose account still exists, has approved.
abbrev pub AllApproved : {P : Type 0} → Text → Text → World P → Type 0
AllApproved tenant id w =
    All
      (λ r.
        of_proposal tenant id r ≡ true
        → user_name_of r.user_id w.users ≢ none
        → r.decision ≡ ReviewDecision.approved)
      w.reviewers

pub record MayApprove {P : Type 0} (ctx : ToolContext) (p : ProposalRecord) (id : Text)
    (w : World P) : Type 0 where
  pub two_people :
      requires_four_eyes ctx.tenant_id w.tenants ≡ true → p.proposed_by_user_id ≢ ctx.acting_user_id
  pub reviewed : AllApproved ctx.tenant_id id w

check_role-ok :
    (o : Option MembershipRole) (min_role role : MembershipRole)
    → check_role o min_role ≡ ok role
    → (o ≡ some role) × (role_rank min_role ≤ role_rank role)
unfolding check_role
check_role-ok none min_role role h = cc
check_role-ok (some r) min_role role h =
    elim (Bool-cases (ltb (role_rank r) (role_rank min_role))) [
      | inl low ↦ cc (rw low at h)
      | inr enough ↦
          let same : ok r ≡ ok role = rw enough at h in
          let e : r ≡ role = cc same in (cc e, rw (← e) (ltb-false _ _ enough))
    ]
  where
    ltb-false : (a b : ℕ) → ltb a b ≡ false → b ≤ a
    ltb-false a b f = ground arith

pub require_tenant_role-ok :
    {P : Type 0} (tenant user : Text) (min_role role : MembershipRole) (w u : World P)
    → require_tenant_role tenant user min_role w ≡ (ok role, u)
    → (role_of tenant user w.memberships ≡ some role)
      × (role_rank min_role ≤ role_rank role)
      × (w ≡ u)
unfolding require_tenant_role
require_tenant_role-ok tenant user min_role role w u h =
    let (found, enough) =
      check_role-ok (role_of tenant user w.memberships) min_role role (ap (λ x. x.0) h) in
    (found, enough, ap (λ x. x.1) h)

-- A sorted list holds what the list held.
All-insert_by :
    {A : Type 0} (Q : A → Type 0) (before : A → A → Bool) (x : A) (ys : List A)
    → All Q (insert_by before x ys)
    → Q x × All Q ys
All-insert_by Q before x [] h = h
All-insert_by Q before x (y ∷ ys) h = elim (Bool-cases (before x y)) [
  | inl first ↦ rw first at h
  | inr later ↦
      let g : Q y × All Q (insert_by before x ys) = rw later at h in
      let (here, rest) = All-insert_by Q before x ys g.1 in (here, (g.0, rest))
]

All-sort_by :
    {A : Type 0} (Q : A → Type 0) (before : A → A → Bool) (xs : List A)
    → All Q (sort_by before xs)
    → All Q xs
All-sort_by Q before [] h = tt
All-sort_by Q before (x ∷ xs) h =
    let (here, rest) = All-insert_by Q before x (sort_by before xs) h in
    (here, All-sort_by Q before xs rest)

-- Nobody waits: all have approved.
none_waiting :
    (rs : List ProposalReviewer)
    → no_row (rows_of (filter_by is_waiting rs)) ≡ true
    → All (λ r. r.row.decision ≡ ReviewDecision.approved) rs
unfolding decision_eq
none_waiting [] h = tt
none_waiting (r ∷ rs) h = ground (arith, none_waiting rs)

All-join_reviewers :
    (users : List UserRow) (sel : ReviewerRow → Bool) (rows : List ReviewerRow)
    → All
        (λ r. r.row.decision ≡ ReviewDecision.approved)
        (join_reviewers users (filter_by sel rows))
    → All
        (λ r.
          sel r ≡ true → user_name_of r.user_id users ≢ none → r.decision ≡ ReviewDecision.approved)
        rows
unfolding join_reviewers
All-join_reviewers users sel [] h = tt
All-join_reviewers users sel (r ∷ rows) h = elim (Bool-cases (sel r)) [
  | inl hit ↦ elim (Option-cases (user_name_of r.user_id users)) [
    | inl gone ↦ (
      (λ s known. absurd (known gone)),
      All-join_reviewers users sel rows (rw (gone, join_reviewers) at (rw hit at h)),
    )
    | inr (name, known) ↦
        let g : (r.decision ≡ ReviewDecision.approved)
            × All (λ x. x.row.decision ≡ ReviewDecision.approved)
                (join_reviewers users (filter_by sel rows)) =
          rw (known, join_reviewers) at (rw hit at h) in
        ((λ s k. g.0), All-join_reviewers users sel rows g.1)
  ]
  | inr miss ↦ ((λ s. cc), All-join_reviewers users sel rows (rw miss at h))
]

pub not-false : (b : Bool) → not b ≡ false → b ≡ true
not-false true h = refl
not-false false h = cc

module _ {P : Type 0} ⦃platform : Platform⦄ (kinds : ProposalKinds P) where
  -- The guards pass only where the approval is allowed, and they change nothing.
  pub approval_guards-ok :
      (ctx : ToolContext) (p : ProposalRecord) (id : Text) (w u : World P)
      → approval_guards kinds ctx p id w ≡ (ok tt, u)
      → MayApprove ctx p id w × (w ≡ u)
  unfolding approval_guards list_reviewers
  approval_guards-ok ctx p id w u h =
      let h1 = gets-bind _ _ w u tt h in
      let (own, h2) = throw_if-bind _ _ _ w u tt h1 in
      let h3 = gets-bind _ _ w u tt h2 in
      let (all_in, same) = throw_if-ok _ _ w u h3 in
      (
        record {
          two_people = λ four mine. two four mine own;
          reviewed =
              All-join_reviewers w.users (of_proposal ctx.tenant_id id) w.reviewers
                (All-sort_by _ _ _ (none_waiting _ (not-false _ all_in)));
        },
        same,
      )
    where
      two :
          requires_four_eyes ctx.tenant_id w.tenants ≡ true
          → p.proposed_by_user_id ≡ ctx.acting_user_id
          → (text_eq p.proposed_by_user_id ctx.acting_user_id
              && requires_four_eyes ctx.tenant_id w.tenants)
            ≡ false
          → ⊥
      two four mine own =
          let eq = (text_eq_iff p.proposed_by_user_id ctx.acting_user_id).1 mine in
          cc (rw (eq, four) at own)
