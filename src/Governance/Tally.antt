-- ===== src/Governance/Tally.antt =====
-- One proposal followed by itself: what a sequence of calls of `class Governance` makes of it.
use mathlib.Core.Option
use synledger_core.Double.{Double}
use synledger_core.Engine.{PoSygEngine, get_participant}
use synledger_core.Governance.{
  Proposal, Governance, find_proposal, get_proposal_by_id, close, finalize_proposal,
  create_proposal, new_proposal, add_vote, vote, new_governance, is_proposal_approved,
}
use synledger_core.Governance.Calls.{Call, propose, cast, finalize, after_vote, call, run}
use synledger_core.Governance.Closing.{eqb_ℤ-eq}
use synledger_core.Governance.Numbering.{IsNumbered, find_proposal-append, IsNext, call-IsNext}
use synledger_core.Governance.Voting.{find_proposal-update, add_vote-id}
use synledger_core.Prelude.{
  ok, err, if◌then◌else◌, Text, ℕ, ◌≡◌, Bool, false, Option, some, List, [], ◌∷◌, ◌++◌, arith, sym,
  Result-cases, Option-cases, refl, inl, inr, ap, ◌∙◌, not, ◌&&◌, none, length, ◌+◌, ◌-◌, ◌^◌, ◌<◌,
}
use synledger_core.Prelude.Int.{ℤ, pos, ◌+ℤ◌, eqb_ℤ, wrap_int, wrap_int-add, add_pos}

module _ {D : Type 0} ⦃d : Double D⦄ where
  -- What a participant's vote adds to a proposal: the synergy, if there is such a participant, who is
  -- not slashed, and the proposal is open.
  unfoldable pub weighed : Bool → ℕ → PoSygEngine D → Proposal D → Proposal D
  weighed vote_for k engine p = elim (get_participant k engine) [
    | err e ↦ p
    | ok x ↦ if p.is_active then (if x.slashed then p else add_vote vote_for x.synergy p) else p
  ]

  -- The specification, for the proposal of number `i` alone: the number of the next proposal, and the
  -- proposal once it is made.
  unfoldable pub follow : ℤ → Call D → ℤ × Option (Proposal D) → ℤ × Option (Proposal D)
  follow i (propose description) (n, o) =
      (n +ℤ pos 1, if eqb_ℤ n i then some (new_proposal n description) else o)
  follow i (cast j vote_for k engine) (n, o) =
      (n, if eqb_ℤ j i then Option.map (weighed vote_for k engine) o else o)
  follow i (finalize j) (n, o) = (n, if eqb_ℤ j i then Option.map close o else o)

  unfoldable pub follow_all : ℤ → List (Call D) → ℤ × Option (Proposal D) → ℤ × Option (Proposal D)
  follow_all i [] s = s
  follow_all i (c ∷ cs) s = follow_all i cs (follow i c s)

  abbrev pub approved : Option (Proposal D) → Bool
  approved none = false
  approved (some p) = not p.is_active && d.lt p.votes_against p.votes_for

  -- What the class shows of proposal `i`.
  abbrev pub view : ℤ → Governance D → ℤ × Option (Proposal D)
  view i g = (g.next_proposal_id, get_proposal_by_id i g)

  find_proposal-append_other :
      (i : ℤ) (ps : List (Proposal D)) (q : Proposal D)
      → eqb_ℤ q.id i ≡ false
      → find_proposal i (ps ++ (q ∷ [])) ≡ find_proposal i ps
  unfolding find_proposal
  find_proposal-append_other i [] q h = ground arith
  find_proposal-append_other i (p ∷ ps) q h = ground (arith, find_proposal-append_other i ps q h)

  close-closed : (p : Proposal D) → p.is_active ≡ false → close p ≡ p
  close-closed p h = λ i. record p { is_active = sym h i }

  view-propose :
      (i : ℤ) (description : Text) (g : Governance D)
      → IsNumbered g
      → wrap_int (g.next_proposal_id +ℤ pos 1) ≡ g.next_proposal_id +ℤ pos 1
      → view i (create_proposal description g) ≡ follow i (propose description) (view i g)
  unfolding create_proposal follow get_proposal_by_id
  view-propose i description g v plain =
      let q : Proposal D = new_proposal g.next_proposal_id description in
      ground (
        arith,
        plain,
        eqb_ℤ-eq g.next_proposal_id i,
        find_proposal-append (pos 1) g.proposals g.next_proposal_id q v refl,
        find_proposal-append_other i g.proposals q,
      )

  view-cast :
      (i j : ℤ) (vote_for : Bool) (k : ℕ) (engine : PoSygEngine D) (g : Governance D)
      → view i (after_vote g (vote j vote_for k engine g))
        ≡ follow i (cast j vote_for k engine) (view i g)
  unfolding vote follow get_proposal_by_id weighed
  view-cast i j vote_for k engine g = elim (Result-cases (get_participant k engine)) [
    | inr (x, got) ↦ ground (arith, Option-cases (find_proposal i g.proposals))
    | inl (x, got) ↦ elim (Option-cases (find_proposal j g.proposals)) [
      | inl missing ↦ ground (arith, eqb_ℤ-eq j i, Option-cases (find_proposal i g.proposals))
      | inr (q, found) ↦ ground (
        arith,
        eqb_ℤ-eq j i,
        find_proposal-update j i (add_vote vote_for x.synergy) g.proposals
            (add_vote-id vote_for x.synergy),
      )
    ]
  ]

  view-finalize :
      (i j : ℤ) (g : Governance D)
      → view i (finalize_proposal j g) ≡ follow i (finalize j) (view i g)
  unfolding finalize_proposal follow get_proposal_by_id
  view-finalize i j g = elim (Option-cases (find_proposal j g.proposals)) [
    | inl missing ↦ ground (arith, eqb_ℤ-eq j i)
    | inr (q, found) ↦ ground (
      arith,
      eqb_ℤ-eq j i,
      close-closed q,
      find_proposal-update j i close g.proposals (λ p. refl),
    )
  ]

  is_proposal_approved-view :
      (i : ℤ) (g : Governance D) → is_proposal_approved i g ≡ approved (get_proposal_by_id i g)
  unfolding is_proposal_approved get_proposal_by_id
  is_proposal_approved-view i g = ground (arith, Option-cases (find_proposal i g.proposals))

  view-call :
      (i : ℤ) (c : Call D) (n : ℕ) (g : Governance D)
      → n + 1 < 2147483648
      → IsNext n g
      → view i (call c g) ≡ follow i c (view i g)
  unfolding call
  view-call i (propose description) n g room h =
      let plain : wrap_int (g.next_proposal_id +ℤ pos 1) ≡ g.next_proposal_id +ℤ pos 1 =
        rw h.next_number (wrap_int-add n 1 room ∙ sym (add_pos n 1)) in
      view-propose i description g h.numbered plain
  view-call i (cast j vote_for k engine) n g room h = view-cast i j vote_for k engine g
  view-call i (finalize j) n g room h = view-finalize i j g

  view-run :
      (i : ℤ) (cs : List (Call D)) (n : ℕ) (g : Governance D)
      → n + length cs < 2147483648
      → IsNext n g
      → view i (run cs g) ≡ follow_all i cs (view i g)
  unfolding run follow_all
  view-run i [] n g room h = refl
  view-run i (c ∷ cs) n g room h =
      let (m, most, h') = call-IsNext c n g (omega arith) h in
      view-run i cs m (call c g) (omega arith) h'
      ∙ ap (follow_all i cs) (view-call i c n g (omega arith) h)

  -- From the constructor on, after fewer than 2^31 - 1 calls, each proposal is what the calls make of it when it is
  -- followed by itself: it is made under its number, every vote of a participant who is there and not
  -- slashed adds to it while it is open, and closing ends that; it is approved exactly when it is
  -- closed with fewer votes against it than for it.
  pub run-follow_all :
      (i : ℤ) (cs : List (Call D))
      → length cs < 2 ^ 31 - 1
      → let (_, followed) = follow_all i cs (pos 1, none) in
        (get_proposal_by_id i (run cs new_governance) ≡ followed)
        × (is_proposal_approved i (run cs new_governance) ≡ approved followed)
  unfolding get_proposal_by_id find_proposal
  run-follow_all i cs few =
      let start : IsNext 1 (new_governance {D = D}) = record {
        numbered = refl;
        next_number = refl;
      } in
      let found : get_proposal_by_id i (run cs new_governance) ≡ (follow_all i cs (pos 1, none)).1 =
        ap (λ s. s.1) (view-run i cs 1 new_governance (omega arith) start) in
      (found, is_proposal_approved-view i (run cs new_governance) ∙ ap approved found)
