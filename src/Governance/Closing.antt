-- ===== src/Governance/Closing.antt =====
-- Closing a proposal (`finalize_proposal`): it is done once, and the outcome stays.
use synledger_core.Double.{Double}
use synledger_core.Engine.{PoSygEngine, get_participant}
use synledger_core.Governance.{
  Proposal, Governance, find_proposal, update_proposal, get_proposal_by_id, close,
  finalize_proposal, Step, Reach, here, next, new_proposal, create_proposal, add_vote, vote,
  is_proposal_approved, created, voted, finalized,
}
use synledger_core.Governance.Voting.{find_proposal-update, add_vote-id}
use synledger_core.Prelude.{
  ◌≡◌, refl, true, false, some, List, [], ◌∷◌, ◌++◌, arith, ok, Result-cases, Bool-cases,
  Option-cases, ℕ, ◌∙◌, inl, inr, Bool,
}
use synledger_core.Prelude.Int.{ℤ, eqb_ℤ, eqb_ℤ-refl}

pub eqb_ℤ-eq : (a b : ℤ) → eqb_ℤ a b ≡ true → a ≡ b
eqb_ℤ-eq a b h = ground arith

module _ {D : Type 0} where
  find_proposal-append_left :
      (i : ℤ) (ps qs : List (Proposal D)) (p : Proposal D)
      → find_proposal i ps ≡ some p
      → find_proposal i (ps ++ qs) ≡ some p
  unfolding find_proposal
  find_proposal-append_left i [] qs p h = cc
  find_proposal-append_left i (q ∷ ps) qs p h = ground (arith, find_proposal-append_left i ps qs p)

  -- A write to an open proposal leaves a closed one alone.
  update-closed :
      (i j : ℤ) (f : Proposal D → Proposal D) (ps : List (Proposal D)) (p q : Proposal D)
      → ((r : Proposal D) → (f r).id ≡ r.id)
      → find_proposal i ps ≡ some p
      → p.is_active ≡ false
      → find_proposal j ps ≡ some q
      → q.is_active ≡ true
      → find_proposal i (update_proposal j f ps) ≡ some p
  update-closed i j f ps p q same found closed other open_now = elim (Bool-cases (eqb_ℤ j i)) [
    | inl e ↦ cc (eqb_ℤ-eq j i e)
    | inr e ↦ find_proposal-update j i f ps same ∙ rw e found
  ]

  -- A proposal that is there is closed, with the votes that it has.
  pub finalize_proposal-closes :
      (i : ℤ) (g : Governance D) (p : Proposal D)
      → get_proposal_by_id i g ≡ some p
      → get_proposal_by_id i (finalize_proposal i g) ≡ some (close p)
  unfolding get_proposal_by_id finalize_proposal
  finalize_proposal-closes i g p found =
      ground (arith, eqb_ℤ-refl i, find_proposal-update i i close g.proposals (λ r. refl))

module _ {D : Type 0} ⦃d : Double D⦄ where
  vote-closed :
      (i j : ℤ) (b : Bool) (n : ℕ) (engine : PoSygEngine D) (g : Governance D) (p : Proposal D)
      {new : Governance D}
      → vote j b n engine g ≡ ok new
      → find_proposal i g.proposals ≡ some p
      → p.is_active ≡ false
      → find_proposal i new.proposals ≡ some p
  unfolding vote
  vote-closed i j b n engine g p e found closed = elim (Result-cases (get_participant n engine)) [
    | inr (x, got) ↦ cc
    | inl (x, got) ↦ elim (Option-cases (find_proposal j g.proposals)) [
      | inl missing ↦ ground arith
      | inr (q, other) ↦ ground (
        arith,
        update-closed i j (add_vote b x.synergy) g.proposals p q (add_vote-id b x.synergy),
      )
    ]
  ]

  finalize-closed :
      (i j : ℤ) (g : Governance D) (p : Proposal D)
      → find_proposal i g.proposals ≡ some p
      → p.is_active ≡ false
      → find_proposal i (finalize_proposal j g).proposals ≡ some p
  unfolding finalize_proposal
  finalize-closed i j g p found closed = elim (Option-cases (find_proposal j g.proposals)) [
    | inl missing ↦ ground arith
    | inr (q, other) ↦ ground (arith, update-closed i j close g.proposals p q (λ r. refl))
  ]

  Step-closed :
      (i : ℤ) (p : Proposal D)
      → p.is_active ≡ false
      → {g new : Governance D} → Step g new
      → find_proposal i g.proposals ≡ some p
      → find_proposal i new.proposals ≡ some p
  unfolding create_proposal
  Step-closed i p closed (created description {g}) found =
      find_proposal-append_left i g.proposals (new_proposal g.next_proposal_id description ∷ []) p
        found
  Step-closed i p closed (voted j b n engine {g} e) found =
      vote-closed i j b n engine g p e found closed
  Step-closed i p closed (finalized j {g}) found = finalize-closed i j g p found closed

  Reach-closed :
      (i : ℤ) (p : Proposal D)
      → p.is_active ≡ false
      → {g new : Governance D} → find_proposal i g.proposals ≡ some p
      → Reach g new
      → find_proposal i new.proposals ≡ some p
  Reach-closed i p closed found here = found
  Reach-closed i p closed found (next r s) =
      Step-closed i p closed s (Reach-closed i p closed found r)

  -- Once a proposal is closed, no sequence of calls changes it, and its verdict stays.
  pub closed_forever :
      (i : ℤ) (g new : Governance D) (p : Proposal D)
      → get_proposal_by_id i g ≡ some p
      → p.is_active ≡ false
      → Reach g new
      → (get_proposal_by_id i new ≡ some p)
        × (is_proposal_approved i new ≡ is_proposal_approved i g)
  unfolding get_proposal_by_id is_proposal_approved
  closed_forever i g new p found closed r =
      let after = Reach-closed i p closed found r in (after, ground (arith, after))
