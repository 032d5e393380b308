-- ===== src/Governance/Bounds.antt =====
-- The numbers of proposals are `int`s; how many calls they are enough for.
use synledger_core.Double.{Double}
use synledger_core.Engine.{PoSygEngine, get_participant}
use synledger_core.Governance.{
  Proposal, Governance, update_proposal, finalize_proposal, new_governance, create_proposal, vote,
  new_proposal, close, add_vote,
}
use synledger_core.Governance.Calls.{Call, propose, cast, finalize, after_vote, call, run}
use synledger_core.Prelude.{
  length, length-append, ◌^◌, ◌+◌, ◌-◌, ◌<◌, ◌≤◌, ◌≡◌, refl, ap, ◌∙◌, ℕ, suc, List, [], ◌∷◌, arith,
  Bool, Result-cases, inl, inr, sym,
}
use synledger_core.Prelude.Int.{ℤ, pos, ◌+ℤ◌, wrap_int, wrap_int-add}

module _ {D : Type 0} where
  length-update_proposal :
      (i : ℤ) (f : Proposal D → Proposal D) (ps : List (Proposal D))
      → length (update_proposal i f ps) ≡ length ps
  unfolding update_proposal
  length-update_proposal i f [] = refl
  length-update_proposal i f (p ∷ ps) = ground (arith, length-update_proposal i f ps)

  -- There are `n` proposals, and the next one has the number after theirs.
  pub record IsAt (n : ℕ) (g : Governance D) : Type 0 where
    pub many : length g.proposals ≡ n
    pub next : g.next_proposal_id ≡ pos (suc n)

module _ {D : Type 0} ⦃d : Double D⦄ where
  vote-IsAt :
      (n : ℕ) (j : ℤ) (vote_for : Bool) (k : ℕ) (engine : PoSygEngine D) (g : Governance D)
      → IsAt n g
      → IsAt n (after_vote g (vote j vote_for k engine g))
  unfolding vote
  vote-IsAt n j vote_for k engine g h = elim (Result-cases (get_participant k engine)) [
    | inr (x, e) ↦ ground (arith, h.many, h.next)
    | inl (x, e) ↦
        ground (
          arith,
          h.many,
          h.next,
          length-update_proposal j (add_vote vote_for x.synergy) g.proposals,
        )
  ]

  call-IsAt :
      (n : ℕ) (c : Call D) (g : Governance D)
      → n + 2 < 2147483648
      → IsAt n g
      → (m : ℕ) × (m ≤ n + 1) × IsAt m (call c g)
  unfolding call create_proposal finalize_proposal
  call-IsAt n (propose description) g room h = (
    suc n,
    omega arith,
    record {
      many = omega (
        arith,
        h.many,
        length-append g.proposals (new_proposal g.next_proposal_id description ∷ []),
      );
      next =
          ap (λ a. wrap_int (a +ℤ pos 1)) h.next
          ∙ wrap_int-add (suc n) 1 (omega arith)
          ∙ ap pos (omega arith);
    },
  )
  call-IsAt n (cast j vote_for k engine) g room h =
      (n, omega arith, vote-IsAt n j vote_for k engine g h)
  call-IsAt n (finalize j) g room h =
      (n, omega arith, ground (arith, h.many, h.next, length-update_proposal j close g.proposals))

  run-IsAt :
      (n : ℕ) (cs : List (Call D)) (g : Governance D)
      → n + 1 + length cs < 2147483648
      → IsAt n g
      → (m : ℕ) × (m ≤ n + length cs) × IsAt m (run cs g)
  unfolding run
  run-IsAt n [] g room h = (n, omega arith, h)
  run-IsAt n (c ∷ cs) g room h =
      let (m, most, at) = call-IsAt n c g (omega arith) h in
      let (m', most', at') = run-IsAt m cs (call c g) (omega arith) at in (m', omega arith, at')

  -- From the constructor on, with fewer than 2^31 - 1 calls, the number of the next proposal is one more
  -- than the number of proposals, and an `int` holds it.
  pub next_proposal_id-run :
      (cs : List (Call D))
      → length cs < 2 ^ 31 - 1
      → let g = run cs new_governance in
        (g.next_proposal_id ≡ pos (suc (length g.proposals))) × (suc (length g.proposals) < 2 ^ 31)
  next_proposal_id-run cs h =
      let (m, most, at) =
        run-IsAt 0 cs new_governance (omega arith) (record { many = refl; next = refl }) in
      (at.next ∙ ap (λ k. pos (suc k)) (sym at.many), omega (arith, at.many))
