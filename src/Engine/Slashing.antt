-- ===== src/Engine/Slashing.antt =====
-- What the program's own calls can do to the engine, and whether they ever slash anybody.
use mathlib.Core.Path.{subst}
use synledger_core.Double.{Double, nought}
use synledger_core.Engine.{
  PoSygEngine, get_participant, put_participant, new_participants, new_engine, run_cycle,
  convert_all, convert_synergy_to_tokens, apply_slashing_mechanism,
}
use synledger_core.Engine.Lifetime.{
  Method, slashing, contributing, rewarding, Use, Uses, unused, used, cycled, all_slashed,
  converted, on_participant, apply,
}
use synledger_core.Engine.Limits.{
  IsLimited, Uses-keeps, process_slashing-IsLimited, run_cycle-IsLimited,
  new_participants-IsLimited,
}
use synledger_core.Participant.{
  Participant, detect_suspicious_behavior, new_participant, apply_slash, update_economic_activity,
}
use synledger_core.Prelude.{
  All, All-get_elem?, All-set, ok, if◌then◌else◌, ℕ, zero, suc, ◌+◌, ◌≡◌, refl, true, false, not,
  List, [], ◌∷◌, map, arith, sym,
}
use synledger_core.Prelude.Int.{pos}

module _ {D : Type 0} ⦃d : Double D⦄ where
  -- Everything that the program does to an engine: the engine's own operations, an economic update of
  -- one participant, and the writes of `Consensus` (a reward, a slash of one who looks suspicious).
  pub data Step : PoSygEngine D → PoSygEngine D → Type 0 where
    cycle : (draw : ℕ → ℕ) {e : PoSygEngine D} → Step e (run_cycle draw e)
    slashing_pass : {e : PoSygEngine D} → Step e (apply_slashing_mechanism e)
    conversion : (rate : D) {e : PoSygEngine D} → Step e (convert_synergy_to_tokens rate e).0
    economic_update :
        (i : ℕ) (x : Participant D) (contribution : D) {e : PoSygEngine D}
        → get_participant i e ≡ ok x
        → Step e (put_participant i (update_economic_activity contribution x) e)
    rewarded :
        (i : ℕ) (x : Participant D) (reward : D) {e : PoSygEngine D}
        → get_participant i e ≡ ok x
        → Step e (put_participant i (record x { reward = reward }) e)
    slashed_suspect :
        (i : ℕ) (x : Participant D) {e : PoSygEngine D}
        → get_participant i e ≡ ok x
        → detect_suspicious_behavior x ≡ true
        → Step e (put_participant i (apply_slash x) e)

  pub data Reach (start : PoSygEngine D) : PoSygEngine D → Type 0 where
    here : Reach start start
    next : {e new : PoSygEngine D} → Reach start e → Step e new → Reach start new

  -- No violation is on record, the governance activity is the initial one, and nothing is slashed.
  pub record IsQuiet (x : Participant D) : Type 0 where
    pub no_violation : x.violations_count ≡ pos 0
    pub initial_activity : x.governance_activity ≡ pos 1
    pub not_slashed : x.slashed ≡ false

  abbrev NotSlashed : Participant D → Type 0
  NotSlashed x = x.slashed ≡ false

  detect-IsLimited : (x : Participant D) → IsLimited x → detect_suspicious_behavior x ≡ false
  unfolding detect_suspicious_behavior
  detect-IsLimited x q = ground (arith, q.initial_activity)

  -- What the program does, any caller can do.
  Step-Use : {e new : PoSygEngine D} → Step e new → Use e new
  Step-Use (cycle draw) = cycled draw
  Step-Use slashing_pass = all_slashed
  Step-Use (conversion rate) = converted rate
  Step-Use (economic_update i x contribution h) = on_participant i x (contributing contribution) h
  Step-Use (rewarded i x reward h) = on_participant i x (rewarding reward) h
  Step-Use (slashed_suspect i x h suspicious) = on_participant i x slashing h

  Reach-Uses : {start e : PoSygEngine D} → Reach start e → Uses start e
  Reach-Uses here = unused
  Reach-Uses (next r s) = used (Reach-Uses r) (Step-Use s)

  to_flags :
      (xs : List (Participant D))
      → All NotSlashed xs
      → All (λ b. b ≡ false) (map (λ x. x.slashed) xs)
  to_flags [] off = tt
  to_flags (x ∷ xs) off = (off.0, to_flags xs off.1)

  of_flags :
      (xs : List (Participant D))
      → All (λ b. b ≡ false) (map (λ x. x.slashed) xs)
      → All NotSlashed xs
  of_flags [] off = tt
  of_flags (x ∷ xs) off = (off.0, of_flags xs off.1)

  convert_all-NotSlashed :
      (rate total : D) (xs : List (Participant D))
      → All NotSlashed xs
      → All NotSlashed (convert_all rate total xs).0
  unfolding convert_all
  convert_all-NotSlashed rate total [] off = tt
  convert_all-NotSlashed rate total (x ∷ xs) off = ground (
    arith,
    off.0,
    convert_all-NotSlashed rate
        (if not x.slashed then d.add total (d.mul x.synergy rate) else total) xs off.1,
  )

  put_participant-NotSlashed :
      (i : ℕ) (x : Participant D) (m : Method D) (e : PoSygEngine D)
      → (x.slashed ≡ false → (apply m x).slashed ≡ false)
      → All NotSlashed e.participants
      → get_participant i e ≡ ok x
      → All NotSlashed (put_participant i (apply m x) e).participants
  unfolding put_participant get_participant
  put_participant-NotSlashed i x m e keep off h =
      All-set NotSlashed e.participants i (apply m x) off
        (keep (All-get_elem? NotSlashed e.participants i x off (ground arith)))

  Step-NotSlashed :
      {e new : PoSygEngine D}
      → Step e new
      → All IsLimited e.participants
      → All NotSlashed e.participants
      → All NotSlashed new.participants
  unfolding apply_slashing_mechanism convert_synergy_to_tokens update_economic_activity
      get_participant
  Step-NotSlashed (cycle draw {e}) q off = of_flags (run_cycle draw e).participants (
      subst (All (λ b. b ≡ false)) (sym (run_cycle-IsLimited draw e q).1)
        (to_flags e.participants off))
  Step-NotSlashed (slashing_pass {e}) q off = rw (process_slashing-IsLimited e q) off
  Step-NotSlashed (conversion rate {e}) q off =
      convert_all-NotSlashed rate nought e.participants off
  Step-NotSlashed (economic_update i x contribution {e} h) q off =
      put_participant-NotSlashed i x (contributing contribution) e (λ k. k) off h
  Step-NotSlashed (rewarded i x reward {e} h) q off =
      put_participant-NotSlashed i x (rewarding reward) e (λ k. k) off h
  Step-NotSlashed (slashed_suspect i x {e} h suspicious) q off =
      cc (
        suspicious,
        detect-IsLimited x (All-get_elem? IsLimited e.participants i x q (ground arith)),
      )

  Reach-NotSlashed :
      {start e : PoSygEngine D}
      → All IsLimited start.participants
      → All NotSlashed start.participants
      → Reach start e
      → All NotSlashed e.participants
  Reach-NotSlashed q off here = off
  Reach-NotSlashed q off (next r s) =
      Step-NotSlashed s (Uses-keeps q (Reach-Uses r)) (Reach-NotSlashed q off r)

  both : (xs : List (Participant D)) → All IsLimited xs → All NotSlashed xs → All IsQuiet xs
  both [] q off = tt
  both (x ∷ xs) q off = (
    record {
      no_violation = q.0.no_violation;
      initial_activity = q.0.initial_activity;
      not_slashed = off.0;
    },
    both xs q.1 off.1,
  )

new_participants-NotSlashed :
    (D : Type 0) ⦃d : Double D⦄ (n i : ℕ) → All NotSlashed (new_participants {D = D} n i)
unfolding new_participants new_participant
new_participants-NotSlashed D zero i = tt
new_participants-NotSlashed D (suc n) i = (refl, new_participants-NotSlashed D n (i + 1))

-- Whatever the program does to a new engine, nobody is ever slashed: no violation is counted and no
-- governance activity is added, so neither way to a slash is taken.
pub Reach-IsQuiet :
    {D : Type 0} ⦃d : Double D⦄ (n : ℕ) {e : PoSygEngine D}
    → Reach (new_engine n) e
    → All IsQuiet e.participants
unfolding new_engine
Reach-IsQuiet {D} n {e} r =
    let limited = new_participants-IsLimited D n 0 in
    both e.participants (Uses-keeps limited (Reach-Uses r))
      (Reach-NotSlashed limited (new_participants-NotSlashed D n 0) r)
