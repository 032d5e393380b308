-- ===== src/Examples/GovernanceRuns.antt =====
-- The theorems on proposals and votes, applied.
use mathlib.Core.Path.{subst}
use synledger_core.Double.Fixed.{fixed_double, Fixed}
use synledger_core.Engine.{get_participant}
use synledger_core.Examples.{engine_of_two}
use synledger_core.Governance.{
  Reach, here, next, created, voted, finalized, Proposal, Governance, new_governance,
  get_proposal_by_id, close, finalize_proposal, new_proposal, create_proposal, vote,
  is_proposal_approved, find_proposal, update_proposal,
}
use synledger_core.Governance.Bounds.{next_proposal_id-run}
use synledger_core.Governance.Calls.{Call, propose, cast, finalize, run}
use synledger_core.Governance.Tally.{follow_all, follow, weighed, approved, run-follow_all}
use synledger_core.Prelude.{
  ok, codes, ◌≡◌, refl, true, some, [], ◌∷◌, false, none, List, length, suc, ◌^◌, ◌<◌, arith,
}
use synledger_core.Prelude.Int.{pos, ◌+ℤ◌, wrap_int}

abbrev proposal : Proposal Fixed
proposal = new_proposal (pos 1) (codes "Increase block reward")

abbrev one_proposal : Governance Fixed
one_proposal = record { proposals = proposal ∷ []; next_proposal_id = pos 2 }

abbrev voted_once : Governance Fixed
voted_once = record one_proposal { proposals = record proposal { votes_for = pos 100000 } ∷ [] }

first_vote : vote (pos 1) true 0 engine_of_two one_proposal ≡ ok voted_once
unfolding vote get_participant find_proposal update_proposal fixed_double
first_vote = refl

abbrev closed : Governance Fixed
closed = record one_proposal { proposals = close (record proposal { votes_for = pos 100000 }) ∷ [] }

create_test : create_proposal (codes "Increase block reward") new_governance ≡ one_proposal
unfolding create_proposal ◌+ℤ◌ wrap_int
create_test = refl

closing_test : finalize_proposal (pos 1) voted_once ≡ closed
unfolding finalize_proposal find_proposal update_proposal
closing_test = refl

abbrev life : Governance Fixed
life = finalize_proposal (pos 1) voted_once

lived : Reach new_governance life
lived =
    next
      (next
        (subst (Reach new_governance) create_test
          (next here (created (codes "Increase block reward"))))
        (voted (pos 1) true 0 engine_of_two first_vote))
      (finalized (pos 1))

closed_test :
    get_proposal_by_id (pos 1) closed ≡ some (close (record proposal { votes_for = pos 100000 }))
unfolding get_proposal_by_id
closed_test = refl

-- A proposal is made and voted for twice by the same participant, then by one who is not there, and
-- closed; the last vote comes too late.
abbrev calls : List (Call Fixed)
calls =
    propose (codes "Increase block reward")
    ∷ (cast (pos 1) true 0 engine_of_two
        ∷ (cast (pos 1) true 0 engine_of_two
            ∷ (cast (pos 1) false 7 engine_of_two
                ∷ (finalize (pos 1) ∷ (cast (pos 1) false 1 engine_of_two ∷ [])))))

run-follow_all_example :
    let (_, followed) = follow_all (pos 1) calls (pos 1, none) in
    (get_proposal_by_id (pos 1) (run calls new_governance) ≡ followed)
    × (is_proposal_approved (pos 1) (run calls new_governance) ≡ approved followed)
run-follow_all_example = run-follow_all (pos 1) calls (omega arith)

calls_test :
    (follow_all (pos 1) calls (pos 1, none)).1
    ≡ some (close (record proposal { votes_for = pos 200000 }))
unfolding follow_all follow weighed get_participant fixed_double
calls_test = refl

next_proposal_id-run_example :
    let g = run calls new_governance in
    (g.next_proposal_id ≡ pos (suc (length g.proposals))) × (suc (length g.proposals) < 2 ^ 31)
next_proposal_id-run_example = next_proposal_id-run calls (omega arith)
