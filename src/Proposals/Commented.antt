-- ===== src/Proposals/Commented.antt =====
-- Commenting on a proposal (src/mcp/proposalQueue.ts, commentOnProposal;
-- src/proposals/proposalService.ts, addComment).
use ptv_mcp.Base.{
  ℕ, ◌+◌, ap, subst, ◌≡◌, sym, ◌∙◌, ◌≤◌, false, [], ◌∷◌, ◌++◌, Option, some, Text, arith, find,
  Option-cases, inl, inr, length, is_empty, trim, ltb,
}
use ptv_mcp.Json.{Json}
use ptv_mcp.World.{
  contributor, ProposalRecord, CommentRow, World, Platform, ServiceError, Result, ok, err, ◌>>=◌,
  ◌>>◌, pure,
}
use ptv_mcp.World.Keeps.{Ensures, bind-Ensures, pure-Ensures, throw_if-Ensures, from_same}
use ptv_mcp.Proposals.Store.{is_row}
use ptv_mcp.Proposals.Reviewers.{ProposalComment, user_name_of, save_comment, add_comment}
use ptv_mcp.Proposals.Kinds.{ToolContext, Frame}
use ptv_mcp.Proposals.Queue.{max_comment_length, audit_proposal, comment_on_proposal}
use ptv_mcp.Proposals.Approval.{HasRole, require_tenant_role-ok}
use ptv_mcp.Proposals.Details.{Quiet, get_by_id-ok, audit_proposal-Frame, audit_proposal-Quiet}

-- A comment that was stored: by the acting user, on a proposal of the tenant, with the trimmed text.
pub record Commented {P : Type 0} (ctx : ToolContext) (id said : Text) (w : World P)
    (c : ProposalComment) (u : World P) : Type 0 where
  pub proposal : ProposalRecord
  pub found : find (is_row ctx.tenant_id id) w.proposals ≡ some proposal
  pub authorized : HasRole contributor ctx.tenant_id ctx.acting_user_id w
  pub body : c.row.body ≡ trim said
  pub not_empty : is_empty c.row.body ≡ false
  pub short : length c.row.body ≤ max_comment_length
  pub author : c.row.user_id ≡ ctx.acting_user_id
  pub place : c.row.proposal_id ≡ proposal.id
  pub comments : u.comments ≡ w.comments ++ c.row ∷ []
  pub proposals : u.proposals ≡ w.proposals
  pub reviewers : u.reviewers ≡ w.reviewers
  pub ptv : u.ptv ≡ w.ptv

-- A comment's row as the insert leaves it.
record Saved {P : Type 0} (user id text : Text) (w : World P) (c : ProposalComment) (u : World P)
    : Type 0 where
  body : c.row.body ≡ text
  author : c.row.user_id ≡ user
  place : c.row.proposal_id ≡ id
  comments : u.comments ≡ w.comments ++ c.row ∷ []
  proposals : u.proposals ≡ w.proposals
  reviewers : u.reviewers ≡ w.reviewers
  ptv : u.ptv ≡ w.ptv

module _ {P : Type 0} ⦃platform : Platform⦄ where
  abbrev comment_row : Text → Text → Text → Text → World P → CommentRow
  comment_row tenant id user text w = record {
    id = platform.random_uuid w.seed;
    tenant_id = tenant;
    proposal_id = id;
    user_id = user;
    body = text;
    created_at = w.now;
  }

  abbrev with_comment : CommentRow → World P → World P
  with_comment row w = record w { comments = w.comments ++ row ∷ []; seed = w.seed + 1 }

  saved :
      (tenant id user text name : Text) (w u : World P) (c : ProposalComment)
      → ◌≡◌ {A = Result ProposalComment × World P}
          (
            ok (record { row = comment_row tenant id user text w; user_name = name }),
            with_comment (comment_row tenant id user text w) w,
          )
          (ok c, u)
      → Saved user id text w c u
  saved tenant id user text name w u c h =
      let same : record { row = comment_row tenant id user text w; user_name = name } ≡ c =
        cc (ap (λ x. x.0) h) in
      let row : comment_row tenant id user text w ≡ c.row =
        ap (λ (x : ProposalComment). x.row) same in
      let after : with_comment (comment_row tenant id user text w) w ≡ u = ap (λ x. x.1) h in
      record {
        body = sym (ap (λ (x : CommentRow). x.body) row);
        author = sym (ap (λ (x : CommentRow). x.user_id) row);
        place = sym (ap (λ (x : CommentRow). x.proposal_id) row);
        comments =
            sym (ap (λ (x : World P). x.comments) after) ∙ ap (λ r. w.comments ++ r ∷ []) row;
        proposals = sym (ap (λ (x : World P). x.proposals) after);
        reviewers = sym (ap (λ (x : World P). x.reviewers) after);
        ptv = sym (ap (λ (x : World P). x.ptv) after);
      }

  save_comment-Ensures :
      (tenant id user text : Text) (w : World P)
      → Ensures w (save_comment tenant id user text) (Saved user id text w)
  unfolding save_comment
  save_comment-Ensures tenant id user text w = record {
    at = λ c u h. elim (Option-cases (user_name_of user w.users)) [
      | inl gone ↦ absurd (refused c u _ _ (rw (gone, save_comment) at h))
      | inr (name, known) ↦ saved tenant id user text name w u c (rw (known, save_comment) at h)
    ];
  }
    where
      refused :
          (c : ProposalComment) (u v : World P) (e : ServiceError)
          → ◌≡◌ {A = Result ProposalComment × World P} (err e, v) (ok c, u)
          → ⊥
      refused c u v e h = cc (ap (λ x. x.0) h)

  add_comment-Ensures :
      (tenant id user text : Text) (w : World P)
      → Ensures w (add_comment tenant id user text) (Saved user id text w)
  unfolding add_comment
  add_comment-Ensures tenant id user text w = bind-Ensures _ _ λ p v read.
      from_same (get_by_id-ok tenant id w v p read).1 (save_comment-Ensures tenant id user text w)

  say-Ensures :
      (ctx : ToolContext) (id said : Text) (p : ProposalRecord) (action result : Text)
      (s : ProposalComment → Option Json) (w : World P)
      → find (is_row ctx.tenant_id id) w.proposals ≡ some p
      → HasRole contributor ctx.tenant_id ctx.acting_user_id w
      → is_empty (trim said) ≡ false
      → length (trim said) ≤ max_comment_length
      → Ensures w
          (do
            comment ← add_comment ctx.tenant_id p.id ctx.acting_user_id (trim said)
            audit_proposal ctx p action result (s comment)
            pure comment)
          (Commented ctx id said w)
  say-Ensures ctx id said p action result s w found role given fits = bind-Ensures _ _ λ c v added.
      let m =
        (add_comment-Ensures ctx.tenant_id p.id ctx.acting_user_id (trim said) w).at c v added in
      bind-Ensures _ _ λ a u audited. pure-Ensures (
        let framed : Frame v u =
          subst (Frame v) (ap (λ x. x.1) audited)
            ((audit_proposal-Frame ctx p action result (s c)).at v) in
        let quiet : Quiet v u =
          subst (Quiet v) (ap (λ x. x.1) audited)
            ((audit_proposal-Quiet ctx p action result (s c)).at v) in
        record {
          proposal = p;
          found = found;
          authorized = role;
          body = m.body;
          not_empty = rw m.body given;
          short = rw m.body fits;
          author = m.author;
          place = m.place;
          comments = framed.comments ∙ m.comments;
          proposals = framed.proposals ∙ m.proposals;
          reviewers = framed.reviewers ∙ m.reviewers;
          ptv = quiet.ptv ∙ m.ptv;
        })

  comment-Ensures :
      (ctx : ToolContext) (id said : Text) (w : World P)
      → Ensures w (comment_on_proposal ctx id said) (Commented ctx id said w)
  unfolding comment_on_proposal
  comment-Ensures ctx id said w = bind-Ensures _ _ λ role w1 entered.
      let (held, enough, same1) =
        require_tenant_role-ok ctx.tenant_id ctx.acting_user_id contributor role w w1 entered in
      throw_if-Ensures _ _ _ λ given. throw_if-Ensures _ _ _ λ fits. bind-Ensures _ _ λ p w2 read.
        let (found, same2) = get_by_id-ok ctx.tenant_id id w1 w2 p read in
        from_same (same1 ∙ same2) (
          say-Ensures ctx id said p _ _ _ w (rw same1 found) (role, held, enough) given
            (short _ _ fits))
    where
      short : (a b : ℕ) → ltb a b ≡ false → b ≤ a
      short a b h = ground arith

  -- If commenting succeeds, the acting user is a contributor or above, the proposal is one of the
  -- tenant's, and one comment is appended: by the acting user, with the trimmed text, which is not
  -- empty and at most 4000 code units long; proposals, reviewers and PTV stay as they were.
  pub comment_on_proposal-ok :
      (ctx : ToolContext) (id said : Text) (w u : World P) (c : ProposalComment)
      → comment_on_proposal ctx id said w ≡ (ok c, u)
      → Commented ctx id said w c u
  comment_on_proposal-ok ctx id said w u c h = (comment-Ensures ctx id said w).at c u h
