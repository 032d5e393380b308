-- ===== src/Governance.antt =====
-- `class Governance` (include/governance/governance.hpp, src/governance/governance.cpp). Messages are
-- left out. The number of the next proposal is an `int`, which wraps around.
pub mod Calls
pub mod Numbering
pub mod Voting
pub mod Closing
pub mod Tally
pub mod Bounds
use synledger_core.Double.{Double, nought}
use synledger_core.Engine.{PoSygEngine, get_participant}
use synledger_core.Prelude.{
  ◌>>=◌, Result, ok, if◌then◌else◌, Text, ℕ, ◌≡◌, Bool, true, false, not, ◌&&◌, Option, none, some,
  List, [], ◌∷◌, ◌++◌,
}
use synledger_core.Prelude.Int.{ℤ, pos, ◌+ℤ◌, wrap_int, eqb_ℤ}

pub record Proposal (D : Type 0) : Type 0 where
  pub id : ℤ
  pub description : Text
  pub votes_for : D
  pub votes_against : D
  pub is_active : Bool

pub record Governance (D : Type 0) : Type 0 where
  pub proposals : List (Proposal D)
  pub next_proposal_id : ℤ

-- `Governance(posyg_engine)`.
abbrev pub new_governance : {D : Type 0} → Governance D
new_governance = record { proposals = []; next_proposal_id = pos 1 }

module _ {D : Type 0} where
  -- The loop of `get_proposal_by_id`, and a write through the pointer that it returns.
  unfoldable pub find_proposal : ℤ → List (Proposal D) → Option (Proposal D)
  find_proposal proposal_id [] = none
  find_proposal proposal_id (p ∷ ps) =
      if eqb_ℤ p.id proposal_id then some p else find_proposal proposal_id ps

  unfoldable pub update_proposal :
      ℤ → (Proposal D → Proposal D) → List (Proposal D) → List (Proposal D)
  update_proposal proposal_id f [] = []
  update_proposal proposal_id f (p ∷ ps) =
      if eqb_ℤ p.id proposal_id then f p ∷ ps else p ∷ update_proposal proposal_id f ps

  unfoldable pub get_proposal_by_id : ℤ → Governance D → Option (Proposal D)
  unfolding find_proposal
  get_proposal_by_id proposal_id g = find_proposal proposal_id g.proposals

  abbrev pub close : Proposal D → Proposal D
  close p = record p { is_active = false }

  -- A proposal that is not there or is closed is left as it is.
  unfoldable pub finalize_proposal : ℤ → Governance D → Governance D
  finalize_proposal proposal_id g = elim (find_proposal proposal_id g.proposals) [
    | none ↦ g
    | some p ↦
        if p.is_active
        then record g { proposals = update_proposal proposal_id close g.proposals }
        else g
  ]

  unfoldable pub active_of : List (Proposal D) → List (Proposal D)
  active_of [] = []
  active_of (p ∷ ps) = if p.is_active then p ∷ active_of ps else active_of ps

  unfoldable pub get_active_proposals : Governance D → List (Proposal D)
  unfolding active_of
  get_active_proposals g = active_of g.proposals

module _ {D : Type 0} ⦃d : Double D⦄ where
  abbrev pub new_proposal : ℤ → Text → Proposal D
  new_proposal id description = record {
    id = id;
    description = description;
    votes_for = nought;
    votes_against = nought;
    is_active = true;
  }

  unfoldable pub create_proposal : Text → Governance D → Governance D
  create_proposal description g = record {
    proposals = g.proposals ++ (new_proposal g.next_proposal_id description ∷ []);
    next_proposal_id = wrap_int (g.next_proposal_id +ℤ pos 1);
  }

  abbrev pub add_vote : Bool → D → Proposal D → Proposal D
  add_vote vote_for weight p =
      if vote_for
      then record p { votes_for = d.add p.votes_for weight }
      else record p { votes_against = d.add p.votes_against weight }

  -- The proposal is looked up first and the participant next, which throws if there is none.
  unfoldable pub vote : ℤ → Bool → ℕ → PoSygEngine D → Governance D → Result (Governance D)
  vote proposal_id vote_for participant_id engine g =
      get_participant participant_id engine >>= λ participant.
      ok (elim (find_proposal proposal_id g.proposals) [
        | none ↦ g
        | some p ↦
            if p.is_active && not participant.slashed
            then record g {
              proposals =
                  update_proposal proposal_id (add_vote vote_for participant.synergy) g.proposals;
            }
            else g
      ])

  unfoldable pub is_proposal_approved : ℤ → Governance D → Bool
  is_proposal_approved proposal_id g = elim (find_proposal proposal_id g.proposals) [
    | none ↦ false
    | some p ↦ if not p.is_active then d.lt p.votes_against p.votes_for else false
  ]

  -- One call of a method that changes the proposals, on some state of the engine.
  pub data Step : Governance D → Governance D → Type 0 where
    created : (description : Text) {g : Governance D} → Step g (create_proposal description g)
    voted :
        (proposal_id : ℤ) (vote_for : Bool) (participant_id : ℕ) (engine : PoSygEngine D)
        {g new : Governance D}
        → vote proposal_id vote_for participant_id engine g ≡ ok new
        → Step g new
    finalized : (proposal_id : ℤ) {g : Governance D} → Step g (finalize_proposal proposal_id g)

  pub data Reach (start : Governance D) : Governance D → Type 0 where
    here : Reach start start
    next : {g new : Governance D} → Reach start g → Step g new → Reach start new
