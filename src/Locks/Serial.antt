-- ===== src/Locks/Serial.antt =====
-- However the calls interleave, they do what they do one after the other, in the order in which they
-- enter; whoever reads sees the state between two of them.
use mathlib.Core.List.Perm
use mathlib.Core.List.{Perm, perm_middle}
use synledger_core.Locks.{
  Program, exec, System, LockStep, enters, looks, acts, leaves, starts_reading, stops_reading,
  Execution, at_start, goes_on, serial, all_waiting,
}
use synledger_core.Prelude.{
  ◌<◌, ◌≡◌, refl, ap, ◌∙◌, ◌⊎◌, inl, inr, Option, none, some, List, [], ◌∷◌, ◌++◌, append_assoc,
  arith,
}

module _ {ℓ κ ι} {S : Type ℓ} {R : Type κ} {C : Type ι} (program_of : C → Program S R) where
  -- What a state comes to when the call inside has left.
  abbrev pub completed : Option (Program S R) → S → List R → S × List R
  completed none s rs = (s, rs)
  completed (some p) s rs = let (after_p, r) = exec p s in (after_p, rs ++ (r ∷ []))

  serial-push :
      (cs : List C) (c : C) (s : S)
      → serial program_of (cs ++ (c ∷ [])) s ≡ (
          let (after_cs, rs) = serial program_of cs s in
          completed (some (program_of c)) after_cs rs)
  unfolding serial
  serial-push [] c s = refl
  serial-push (b ∷ cs) c s =
      ap (λ r. (r.0, (exec (program_of b) s).1 ∷ r.1)) (serial-push cs c (exec (program_of b) s).0)

  -- Calls that have entered come to what is left of the call inside, nobody reads beside one, and no call
  -- is lost.
  pub record IsSerial (start : S) (calls : List C) (s : System S R C) : Type (ℓ ⊔ κ ⊔ ι) where
    pub serially : serial program_of s.entered start ≡ completed s.inside s.shared s.answers
    pub exclusive : 0 < s.readers → s.inside ≡ none
    pub order : Perm (s.entered ++ s.waiting) calls

  enters-order :
      (entered before behind : List C) (c : C)
      → Perm ((entered ++ (c ∷ [])) ++ (before ++ behind)) (entered ++ (before ++ (c ∷ behind)))
  enters-order entered before behind c =
      rw (append_assoc entered (c ∷ []) (before ++ behind))
        (Perm.append_left entered (Perm.symm (perm_middle before behind)))

  LockStep-IsSerial :
      (start : S) (calls : List C) {s new : System S R C}
      → LockStep program_of s new
      → IsSerial start calls s
      → IsSerial start calls new
  unfolding exec
  LockStep-IsSerial start calls (enters before behind c {s} w e r) i = record {
    serially =
        serial-push s.entered c start
        ∙ ap (λ x. completed (some (program_of c)) x.0 x.1)
            (i.serially ∙ ap (λ o. completed o s.shared s.answers) e);
    exclusive = λ h. absurd (omega (arith, r));
    order = Perm.trans (enters-order s.entered before behind c) (rw w at i.order);
  }
  LockStep-IsSerial start calls (looks f {s} e) i = record {
    serially = i.serially ∙ ap (λ o. completed o s.shared s.answers) e;
    exclusive = λ h. cc (i.exclusive h, e);
    order = i.order;
  }
  LockStep-IsSerial start calls (acts f p {s} e) i = record {
    serially = i.serially ∙ ap (λ o. completed o s.shared s.answers) e;
    exclusive = λ h. cc (i.exclusive h, e);
    order = i.order;
  }
  LockStep-IsSerial start calls (leaves r {s} e) i = record {
    serially = i.serially ∙ ap (λ o. completed o s.shared s.answers) e;
    exclusive = λ h. refl;
    order = i.order;
  }
  LockStep-IsSerial start calls (starts_reading {s} e) i = record {
    serially = i.serially;
    exclusive = λ h. e;
    order = i.order;
  }
  LockStep-IsSerial start calls (stops_reading k {s} e) i = record {
    serially = i.serially;
    exclusive = λ h. i.exclusive (omega (arith, e));
    order = i.order;
  }

  pub Execution-IsSerial :
      (start : S) (calls : List C) {s : System S R C}
      → Execution program_of (all_waiting start calls) s
      → IsSerial start calls s
  unfolding serial
  Execution-IsSerial start calls at_start = record {
    serially = refl;
    exclusive = λ h. refl;
    order = Perm.refl calls;
  }
  Execution-IsSerial start calls (goes_on r st) =
      LockStep-IsSerial start calls st (Execution-IsSerial start calls r)

  -- Who reads, or finds nobody inside, sees the state and the answers of the calls so far, one by one.
  pub Execution-serial :
      (start : S) (calls : List C) {s : System S R C}
      → Execution program_of (all_waiting start calls) s
      → (s.inside ≡ none) ⊎ (0 < s.readers)
      → serial program_of s.entered start ≡ (s.shared, s.answers)
  Execution-serial start calls {s} r seen =
      let i = Execution-IsSerial start calls r in
      let e : s.inside ≡ none = elim seen [ inl e ↦ e | inr h ↦ i.exclusive h ] in
      i.serially ∙ ap (λ o. completed o s.shared s.answers) e
