-- ===== src/Governance/Voting.antt =====
-- What a vote changes, and when it is refused.
use mathlib.Core.Option
use synledger_core.Double.{Double}
use synledger_core.Engine.{PoSygEngine, get_participant}
use synledger_core.Governance.{
  Proposal, Governance, find_proposal, update_proposal, get_proposal_by_id, add_vote, vote,
}
use synledger_core.Participant.{Participant}
use synledger_core.Prelude.{
  ok, if◌then◌else◌, ℕ, ◌≡◌, refl, ◌⊎◌, Bool, true, false, none, some, List, [], ◌∷◌, arith,
}
use synledger_core.Prelude.Int.{ℤ, eqb_ℤ, eqb_ℤ-refl}

module _ {D : Type 0} where
  -- A write to one proposal, as the lookups see it, if it keeps the number.
  pub find_proposal-update :
      (i j : ℤ) (f : Proposal D → Proposal D) (ps : List (Proposal D))
      → ((p : Proposal D) → (f p).id ≡ p.id)
      → find_proposal j (update_proposal i f ps)
        ≡ (if eqb_ℤ i j then Option.map f (find_proposal i ps) else find_proposal j ps)
  unfolding find_proposal update_proposal
  find_proposal-update i j f [] same = ground arith
  find_proposal-update i j f (p ∷ ps) same =
      ground (arith, same p, find_proposal-update i j f ps same)

module _ {D : Type 0} ⦃d : Double D⦄ where
  pub add_vote-id : (b : Bool) (w : D) (p : Proposal D) → (add_vote b w p).id ≡ p.id
  add_vote-id b w p = ground arith

  -- A vote on an open proposal by a participant who is not slashed adds the participant's synergy to
  -- one side of that proposal and changes no other proposal, nor the next number.
  pub vote-counts :
      (i : ℤ) (b : Bool) (n : ℕ) (engine : PoSygEngine D) (g : Governance D) (x : Participant D)
      (p : Proposal D)
      → get_participant n engine ≡ ok x
      → x.slashed ≡ false
      → get_proposal_by_id i g ≡ some p
      → p.is_active ≡ true
      → (new : Governance D) × (vote i b n engine g ≡ ok new)
        × ((j : ℤ)
            → get_proposal_by_id j new
              ≡ (if eqb_ℤ i j then some (add_vote b x.synergy p) else get_proposal_by_id j g))
        × (new.next_proposal_id ≡ g.next_proposal_id)
  unfolding vote get_proposal_by_id
  vote-counts i b n engine g x p got free found open_now =
      let f = add_vote b x.synergy in
      (
        record g { proposals = update_proposal i f g.proposals },
        ground arith,
        λ j. ground (arith, find_proposal-update i j f g.proposals (add_vote-id b x.synergy)),
        refl,
      )

  -- A vote by a participant who is there changes nothing if the proposal is not there, or is closed,
  -- or the participant is slashed.
  pub vote-refused :
      (i : ℤ) (b : Bool) (n : ℕ) (engine : PoSygEngine D) (g : Governance D) (x : Participant D)
      → get_participant n engine ≡ ok x
      → (get_proposal_by_id i g ≡ none)
        ⊎ (x.slashed ≡ true)
        ⊎ ((p : Proposal D) × (get_proposal_by_id i g ≡ some p) × (p.is_active ≡ false))
      → vote i b n engine g ≡ ok g
  unfolding vote get_proposal_by_id
  vote-refused i b n engine g x got why = ground arith

  vote-own :
      (i : ℤ) (b : Bool) (n : ℕ) (engine : PoSygEngine D) (g new : Governance D) (x : Participant D)
      (p : Proposal D)
      → get_participant n engine ≡ ok x
      → x.slashed ≡ false
      → get_proposal_by_id i g ≡ some p
      → p.is_active ≡ true
      → vote i b n engine g ≡ ok new
      → get_proposal_by_id i new ≡ some (add_vote b x.synergy p)
  vote-own i b n engine g new x p got free found open_now e =
      let (result, called, lookups, _) = vote-counts i b n engine g x p got free found open_now in
      ground (arith, lookups i, eqb_ℤ-refl i, called)

  -- A participant may vote again on an open proposal: each vote counts in full.
  pub vote-again :
      (i : ℤ) (n : ℕ) (engine : PoSygEngine D) (g once twice : Governance D) (x : Participant D)
      (p : Proposal D)
      → get_participant n engine ≡ ok x
      → x.slashed ≡ false
      → get_proposal_by_id i g ≡ some p
      → p.is_active ≡ true
      → vote i true n engine g ≡ ok once
      → vote i true n engine once ≡ ok twice
      → get_proposal_by_id i twice
        ≡ some (record p { votes_for = d.add (d.add p.votes_for x.synergy) x.synergy })
  vote-again i n engine g once twice x p got free found open_now first second =
      let q = add_vote true x.synergy p in
      vote-own i true n engine once twice x q got free
        (vote-own i true n engine g once x p got free found open_now first) open_now second
