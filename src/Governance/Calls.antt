-- ===== src/Governance/Calls.antt =====
-- The calls of `class Governance` that write proposals, one after the other.
-- The calls that write proposals, a vote with the engine that it reads.
use synledger_core.Double.{Double}
use synledger_core.Engine.{PoSygEngine}
use synledger_core.Governance.{Governance, finalize_proposal, create_proposal, vote}
use synledger_core.Prelude.{Result, ok, err, Text, ℕ, Bool, List, [], ◌∷◌}
use synledger_core.Prelude.Int.{ℤ}

pub data Call (D : Type 0) : Type 0 where
  propose : Text → Call D
  cast : ℤ → Bool → ℕ → PoSygEngine D → Call D
  finalize : ℤ → Call D

module _ {D : Type 0} ⦃d : Double D⦄ where
  -- An exception goes to the caller, and the proposals stay.
  abbrev pub after_vote : Governance D → Result (Governance D) → Governance D
  after_vote g (ok new) = new
  after_vote g (err e) = g

  unfoldable pub call : Call D → Governance D → Governance D
  call (propose description) g = create_proposal description g
  call (cast j vote_for k engine) g = after_vote g (vote j vote_for k engine g)
  call (finalize j) g = finalize_proposal j g

  unfoldable pub run : List (Call D) → Governance D → Governance D
  run [] g = g
  run (c ∷ cs) g = run cs (call c g)
