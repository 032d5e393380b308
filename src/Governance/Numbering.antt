-- ===== src/Governance/Numbering.antt =====
-- Proposals are numbered 1, 2, 3, ….
use mathlib.Core.Path.{subst}
use synledger_core.Double.{Double}
use synledger_core.Engine.{PoSygEngine, get_participant}
use synledger_core.Governance.{
  Proposal, Governance, find_proposal, update_proposal, get_proposal_by_id, close,
  finalize_proposal, new_proposal, create_proposal, add_vote, vote, is_proposal_approved,
}
use synledger_core.Governance.Calls.{Call, propose, cast, finalize, call}
use synledger_core.Prelude.{
  ◌≡◌, refl, sym, ap, ◌∙◌, List, [], ◌∷◌, ◌++◌, arith, ok, Result-cases, Text, ℕ, inl, inr, Bool,
  true, false, some, ◌+◌, ◌≤◌, ◌<◌,
}
use synledger_core.Prelude.Int.{
  ℤ, pos, ◌+ℤ◌, add_pos, ◌≤ℤ◌, int_laws, eqb_ℤ-below, wrap_int, wrap_int-add,
}

module _ {D : Type 0} where
  -- The numbers run from `start` up, and `end` is the next one.
  abbrev pub Numbered : ℤ → List (Proposal D) → ℤ → Type 0
  Numbered start [] end = start ≡ end
  Numbered start (p ∷ ps) end = (p.id ≡ start) × Numbered (start +ℤ pos 1) ps end

  Numbered-append :
      (start : ℤ) (ps : List (Proposal D)) (end : ℤ) (p : Proposal D)
      → Numbered start ps end
      → p.id ≡ end
      → Numbered start (ps ++ (p ∷ [])) (end +ℤ pos 1)
  Numbered-append start [] end p h e = (e ∙ sym h, ap (λ n. n +ℤ pos 1) h)
  Numbered-append start (q ∷ ps) end p h e = (h.0, Numbered-append (start +ℤ pos 1) ps end p h.1 e)

  Numbered-update :
      (start : ℤ) (ps : List (Proposal D)) (end i : ℤ) (f : Proposal D → Proposal D)
      → ((p : Proposal D) → (f p).id ≡ p.id)
      → Numbered start ps end
      → Numbered start (update_proposal i f ps) end
  unfolding update_proposal
  Numbered-update start [] end i f same h = h
  Numbered-update start (p ∷ ps) end i f same h =
      ground (arith, same p, Numbered-update (start +ℤ pos 1) ps end i f same h.1)

  Numbered-le :
      (start : ℤ) (ps : List (Proposal D)) (end : ℤ) → Numbered start ps end → start ≤ℤ end
  Numbered-le start [] end h = rw h (omega arith)
  Numbered-le start (p ∷ ps) end h = omega (int_laws, Numbered-le (start +ℤ pos 1) ps end h.1)

  -- The number after the last finds what is appended under it.
  pub find_proposal-append :
      (start : ℤ) (ps : List (Proposal D)) (end : ℤ) (q : Proposal D)
      → Numbered start ps end
      → q.id ≡ end
      → find_proposal end (ps ++ (q ∷ [])) ≡ some q
  unfolding find_proposal
  find_proposal-append start [] end q h e = ground arith
  find_proposal-append start (p ∷ ps) end q h e = ground (
    arith,
    eqb_ℤ-below start end,
    Numbered-le (start +ℤ pos 1) ps end h.1,
    find_proposal-append (start +ℤ pos 1) ps end q h.1 e,
  )

module _ {D : Type 0} ⦃d : Double D⦄ where
  -- The state that the class keeps.
  abbrev pub IsNumbered : Governance D → Type 0
  IsNumbered g = Numbered (pos 1) g.proposals g.next_proposal_id

  vote-IsNumbered :
      (i : ℤ) (b : Bool) (n : ℕ) (engine : PoSygEngine D) (g : Governance D) {new : Governance D}
      → vote i b n engine g ≡ ok new
      → IsNumbered g
      → IsNumbered new
  unfolding vote
  vote-IsNumbered i b n engine g e v = elim (Result-cases (get_participant n engine)) [
    | inl (x, got) ↦ ground (
      arith,
      Numbered-update (pos 1) g.proposals g.next_proposal_id i (add_vote b x.synergy)
          (add_vote-id b x.synergy) v,
    )
    | inr (x, got) ↦ cc
  ]
    where
      add_vote-id : (c : Bool) (w : D) (p : Proposal D) → (add_vote c w p).id ≡ p.id
      add_vote-id true w p = refl
      add_vote-id false w p = refl

  -- The next number is `n`, and the numbers before it are given.
  pub record IsNext (n : ℕ) (g : Governance D) : Type 0 where
    pub numbered : IsNumbered g
    pub next_number : g.next_proposal_id ≡ pos n

  vote-next :
      (i : ℤ) (b : Bool) (k : ℕ) (engine : PoSygEngine D) (g : Governance D) {new : Governance D}
      → vote i b k engine g ≡ ok new
      → new.next_proposal_id ≡ g.next_proposal_id
  unfolding vote
  vote-next i b k engine g e = elim (Result-cases (get_participant k engine)) [
    | inl (x, got) ↦ ground arith
    | inr (x, got) ↦ cc
  ]

  create_proposal-IsNext :
      (description : Text) (n : ℕ) (g : Governance D)
      → n + 1 < 2147483648
      → IsNext n g
      → IsNext (n + 1) (create_proposal description g)
  unfolding create_proposal
  create_proposal-IsNext description n g room h =
      let up : wrap_int (g.next_proposal_id +ℤ pos 1) ≡ pos (n + 1) =
        ap (λ a. wrap_int (a +ℤ pos 1)) h.next_number ∙ wrap_int-add n 1 room in
      let plain : pos (n + 1) ≡ g.next_proposal_id +ℤ pos 1 =
        sym (add_pos n 1) ∙ ap (λ a. a +ℤ pos 1) (sym h.next_number) in
      let numbers =
        Numbered-append (pos 1) g.proposals g.next_proposal_id
          (new_proposal g.next_proposal_id description) h.numbered refl in
      record {
        numbered =
            subst (Numbered (pos 1) (create_proposal description g).proposals) (sym (up ∙ plain))
              numbers;
        next_number = up;
      }

  -- A call uses up one number at most; the numbers are given in their order, 1, 2, 3, ….
  pub call-IsNext :
      (c : Call D) (n : ℕ) (g : Governance D)
      → n + 1 < 2147483648
      → IsNext n g
      → (m : ℕ) × (m ≤ n + 1) × IsNext m (call c g)
  unfolding call finalize_proposal
  call-IsNext (propose description) n g room h =
      (n + 1, omega arith, create_proposal-IsNext description n g room h)
  call-IsNext (cast j vote_for k engine) n g room h =
      elim (Result-cases (vote j vote_for k engine g)) [
        | inl (new, e) ↦ (
          n,
          omega arith,
          rw e (record {
            numbered = vote-IsNumbered j vote_for k engine g e h.numbered;
            next_number = vote-next j vote_for k engine g e ∙ h.next_number;
          }),
        )
        | inr (x, e) ↦ (n, omega arith, rw e h)
      ]
  call-IsNext (finalize j) n g room h = (
    n,
    omega arith,
    record {
      numbered = ground (
        arith,
        h.numbered,
        Numbered-update (pos 1) g.proposals g.next_proposal_id j close (λ p. refl) h.numbered,
      );
      next_number = ground (arith, h.next_number);
    },
  )

  -- In such a state a new proposal is found under its number, open and without votes, and is not
  -- approved.
  pub create_proposal-found :
      (description : Text) (g : Governance D)
      → IsNumbered g
      → let new = create_proposal description g in
        (get_proposal_by_id g.next_proposal_id new
          ≡ some (new_proposal g.next_proposal_id description))
        × (is_proposal_approved g.next_proposal_id new ≡ false)
  unfolding create_proposal get_proposal_by_id is_proposal_approved
  create_proposal-found description g v =
      let found =
        find_proposal-append (pos 1) g.proposals g.next_proposal_id
          (new_proposal g.next_proposal_id description) v refl in
      (found, ground (arith, found))
