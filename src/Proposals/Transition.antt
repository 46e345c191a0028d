-- ===== src/Proposals/Transition.antt =====
-- The guarded update of `ProposalService.transition`: what it answers and stores, and that of two
-- resolutions of one proposal at most one succeeds.
use ptv_mcp.Base.{
  ◌≡◌, refl, sym, ◌∙◌, ap, subst, ◌≢◌, inl, inr, true, List, [], ◌∷◌, Option, none, some,
  some-injective, Text, text_eq_iff, arith, All, find, update_where, Bool-cases, Option-cases,
  &&-true,
}
use ptv_mcp.World.{
  ProposalStatus, status_eq, ProposalRecord, World, ServiceError, Call, ok, err, already_resolved,
  ◌>>=◌,
}
use ptv_mcp.World.Keeps.{bind-ok, ok-injective}
use ptv_mcp.Proposals.Store.{is_row, is_row_in, get_by_id, transition}
use ptv_mcp.Proposals.History.{RowEvolves, Evolves}

-- The primary key of `proposals`.
abbrev pub UniqueIds : List ProposalRecord → Type 0
UniqueIds [] = Unit
UniqueIds (p ∷ ps) = All (λ q. q.id ≢ p.id) ps × UniqueIds ps

pub status_eq_iff :
    (a b : ProposalStatus) → (status_eq a b ≡ true → a ≡ b) × (a ≡ b → status_eq a b ≡ true)
unfolding status_eq
status_eq_iff a b = ground arith

is_row→id : (tenant id : Text) (p : ProposalRecord) → is_row tenant id p ≡ true → p.id ≡ id
is_row→id tenant id p h = (text_eq_iff p.id id).0 (&&-true _ _ h).1

-- No row below has the id of a row that was found.
none_below :
    (tenant id i : Text) (ps : List ProposalRecord)
    → i ≡ id
    → All (λ q. q.id ≢ i) ps
    → find (is_row tenant id) ps ≡ none
none_below tenant id i [] e h = refl
none_below tenant id i (p ∷ ps) e (h, hs) = elim (Bool-cases (is_row tenant id p)) [
  | inl hit ↦ absurd (h (is_row→id tenant id p hit ∙ sym e))
  | inr miss ↦ rw miss (none_below tenant id i ps e hs)
]

none_in :
    (tenant id : Text) (from : ProposalStatus) (ps : List ProposalRecord)
    → find (is_row tenant id) ps ≡ none
    → find (is_row_in tenant id from) ps ≡ none
none_in tenant id from [] h = refl
none_in tenant id from (p ∷ ps) h = elim (Bool-cases (is_row tenant id p)) [
  | inl hit ↦ cc (rw hit at h)
  | inr miss ↦ rw miss (none_in tenant id from ps (rw miss at h))
]

-- A row found in status `from` is the row of that id, and has that status.
pub find-is_row_in :
    (tenant id : Text) (from : ProposalStatus) (ps : List ProposalRecord) (p : ProposalRecord)
    → UniqueIds ps
    → find (is_row_in tenant id from) ps ≡ some p
    → (find (is_row tenant id) ps ≡ some p) × (p.status ≡ from)
find-is_row_in tenant id from [] p u h = cc
find-is_row_in tenant id from (q ∷ ps) p (fresh, u) h = elim (Bool-cases (is_row tenant id q)) [
  | inl hit ↦ elim (Bool-cases (status_eq q.status from)) [
    | inl same ↦
        let e : some q ≡ some p = rw (hit, same) at h in
        (rw hit e, cc (e, (status_eq_iff q.status from).0 same))
    | inr other ↦ absurd (
        absent
          (none_in tenant id from ps
            (none_below tenant id q.id ps (is_row→id tenant id q hit) fresh))
          (rw (hit, other) at h))
  ]
  | inr miss ↦ rw miss (find-is_row_in tenant id from ps p u (rw miss at h))
]
  where
    absent : {o : Option ProposalRecord} → o ≡ none → o ≡ some p → ⊥
    absent a b = cc

-- A row of that id in status `from` is the one found.
pub is_row_in-find :
    (tenant id : Text) (from : ProposalStatus) (ps : List ProposalRecord) (p : ProposalRecord)
    → find (is_row tenant id) ps ≡ some p
    → p.status ≡ from
    → find (is_row_in tenant id from) ps ≡ some p
is_row_in-find tenant id from [] p h e = cc
is_row_in-find tenant id from (q ∷ ps) p h e = elim (Bool-cases (is_row tenant id q)) [
  | inl hit ↦
      let same : some q ≡ some p = rw hit at h in
      rw (hit, status_eq_lem q (some-injective q p same)) same
  | inr miss ↦ rw miss (is_row_in-find tenant id from ps p (rw miss at h) e)
]
  where
    status_eq_lem : (r : ProposalRecord) → r ≡ p → status_eq r.status from ≡ true
    status_eq_lem r s =
        (status_eq_iff r.status from).1 (ap (λ (x : ProposalRecord). x.status) s ∙ e)

-- The row as an update leaves it.
pub find-update :
    (tenant id : Text) (from : ProposalStatus) (set : ProposalRecord → ProposalRecord)
    (ps : List ProposalRecord) (p : ProposalRecord)
    → ((q : ProposalRecord) → is_row tenant id (set q) ≡ is_row tenant id q)
    → UniqueIds ps
    → find (is_row_in tenant id from) ps ≡ some p
    → find (is_row tenant id) (update_where (is_row_in tenant id from) set ps) ≡ some (set p)
find-update tenant id from set [] p keep u h = cc
find-update tenant id from set (q ∷ ps) p keep (fresh, u) h =
    elim (Bool-cases (is_row tenant id q)) [
      | inl hit ↦ elim (Bool-cases (status_eq q.status from)) [
        | inl same ↦
            let e : some q ≡ some p = rw (hit, same) at h in
            rw (hit, same, keep q, hit) (ap (λ r. some (set r)) (some-injective q p e))
        | inr other ↦
            let rest : find (is_row_in tenant id from) ps ≡ some p = rw (hit, other) at h in
            let gone =
              none_in tenant id from ps
                (none_below tenant id q.id ps (is_row→id tenant id q hit) fresh) in
            cc (rest, gone)
      ]
      | inr miss ↦ rw (miss, miss) (find-update tenant id from set ps p keep u (rw miss at h))
    ]

-- A row is still found, evolved, in every later table.
pub find-Evolves :
    (tenant id : Text) (ps qs : List ProposalRecord) (p : ProposalRecord)
    → Evolves ps qs
    → find (is_row tenant id) ps ≡ some p
    → (q : ProposalRecord) × (find (is_row tenant id) qs ≡ some q) × RowEvolves p q
find-Evolves tenant id [] qs p h e = cc
find-Evolves tenant id (r ∷ ps) [] p h e = absurd h
find-Evolves tenant id (r ∷ ps) (s ∷ qs) p (h, hs) e = elim (Bool-cases (is_row tenant id r)) [
  | inl hit ↦
      let same : some r ≡ some p = rw hit at e in
      (s, rw (h.tenant_id, h.id, hit), subst (λ x. RowEvolves x s) (some-injective r p same) h)
  | inr miss ↦
      let (q, found, evolved) = find-Evolves tenant id ps qs p hs (rw miss at e) in
      (q, rw (h.tenant_id, h.id, miss) found, evolved)
]

module _ {P : Type 0} where
  -- The update of the row that it finds, and the refusal where it finds none.
  abbrev updated :
      Text → Text → ProposalStatus → (ProposalRecord → ProposalRecord) → World P → World P
  updated tenant id from set w = record w {
    proposals = update_where (is_row_in tenant id from) set w.proposals;
  }

  transition-hit :
      (tenant id : Text) (from : ProposalStatus) (set : ProposalRecord → ProposalRecord)
      (w : World P) (p : ProposalRecord)
      → find (is_row_in tenant id from) w.proposals ≡ some p
      → transition tenant id from set w ≡ (ok (set p), updated tenant id from set w)
  unfolding transition
  transition-hit tenant id from set w p h = rw (h, transition) refl

  abbrev refuse : ProposalRecord → Call P ProposalRecord
  refuse c v = (err (already_resolved c.status), v)

  transition-miss :
      (tenant id : Text) (from : ProposalStatus) (set : ProposalRecord → ProposalRecord)
      (w u : World P) (q : ProposalRecord)
      → find (is_row_in tenant id from) w.proposals ≡ none
      → transition tenant id from set w ≢ (ok q, u)
  unfolding transition
  transition-miss tenant id from set w u q missing h =
      let (c, v, read, answer) =
        bind-ok (get_by_id tenant id) refuse w u q (rw (missing, transition) at h) in
      refused c v u q answer
    where
      not_ok : (e : ServiceError) (q : ProposalRecord) → err e ≢ ok q
      not_ok e q h = cc

      refused : (c : ProposalRecord) (v u : World P) (q : ProposalRecord) → refuse c v ≢ (ok q, u)
      refused c v u q e = not_ok _ q (ap (λ x. x.0) e)

  pub transition-ok :
      (tenant id : Text) (from : ProposalStatus) (set : ProposalRecord → ProposalRecord)
      (w u : World P) (q : ProposalRecord)
      → transition tenant id from set w ≡ (ok q, u)
      → (p : ProposalRecord) × (find (is_row_in tenant id from) w.proposals ≡ some p)
        × (q ≡ set p)
        × (u ≡ updated tenant id from set w)
  transition-ok tenant id from set w u q h = by_match _ refl
    where
      by_match :
          (o : Option ProposalRecord)
          → find (is_row_in tenant id from) w.proposals ≡ o
          → (p : ProposalRecord) × (find (is_row_in tenant id from) w.proposals ≡ some p)
            × (q ≡ set p)
            × (u ≡ updated tenant id from set w)
      by_match none missing = absurd (transition-miss tenant id from set w u q missing h)
      by_match (some p) found =
          let done = sym (transition-hit tenant id from set w p found) ∙ h in
          (p, found, sym (ok-injective (set p) q (ap (λ x. x.0) done)), sym (ap (λ x. x.1) done))

  -- An UPDATE that finds no row in that status changes nothing.
  pub transition-refused :
      (tenant id : Text) (from : ProposalStatus) (set : ProposalRecord → ProposalRecord)
      (w : World P) (p : ProposalRecord)
      → UniqueIds w.proposals
      → find (is_row tenant id) w.proposals ≡ some p
      → p.status ≢ from
      → transition tenant id from set w ≡ (err (already_resolved p.status), w)
  unfolding transition get_by_id ◌>>=◌
  transition-refused tenant id from set w p u found other =
      elim (Option-cases (find (is_row_in tenant id from) w.proposals)) [
        | inl missing ↦ rw (missing, transition) (rw found)
        | inr (q, hit) ↦
            let (row, status) = find-is_row_in tenant id from w.proposals q u hit in
            absurd (
              other (
                ap (λ (x : ProposalRecord). x.status) (some-injective p q (sym found ∙ row))
                ∙ status))
      ]
