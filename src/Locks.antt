-- ===== src/Locks.antt =====
-- Calls that hold a lock: `std::mutex` with `lock_guard`, and `std::shared_mutex`, which any number of
-- readers may hold together while no call is inside. A call is a program on the shared state that reads
-- or writes it once at each step; where it throws, it leaves the lock as it returns.
pub mod Serial
use synledger_core.Prelude.{ℕ, suc, ◌≡◌, Option, none, some, List, [], ◌∷◌, ◌++◌}

-- What is left of a call on `S`, until it answers with an `R`.
pub data Program {ℓ κ} (S : Type ℓ) (R : Type κ) : Type (ℓ ⊔ κ) where
  finish : R → Program S R
  look : (S → Program S R) → Program S R
  act : (S → S) → Program S R → Program S R

module _ {ℓ κ} {S : Type ℓ} {R : Type κ} where
  -- The call by itself.
  unfoldable pub exec : Program S R → S → S × R
  exec (finish r) s = (s, r)
  exec (look f) s = exec (f s) s
  exec (act f p) s = exec p (f s)

-- The state, the calls that wait for the lock, the call inside, the number of readers, and the calls that
-- have entered, with the answers of those that have left.
pub record System {ℓ κ ι} (S : Type ℓ) (R : Type κ) (C : Type ι) : Type (ℓ ⊔ κ ⊔ ι) where
  pub shared : S
  pub waiting : List C
  pub inside : Option (Program S R)
  pub readers : ℕ
  pub entered : List C
  pub answers : List R

module _ {ℓ κ ι} {S : Type ℓ} {R : Type κ} {C : Type ι} (program_of : C → Program S R) where
  pub data LockStep : System S R C → System S R C → Type (ℓ ⊔ κ ⊔ ι) where
    enters :
        (before behind : List C) (c : C) {s : System S R C}
        → s.waiting ≡ before ++ (c ∷ behind)
        → s.inside ≡ none
        → s.readers ≡ 0
        → LockStep s (record s {
          waiting = before ++ behind;
          inside = some (program_of c);
          entered = s.entered ++ (c ∷ []);
        })
    looks :
        (f : S → Program S R) {s : System S R C}
        → s.inside ≡ some (look f)
        → LockStep s (record s { inside = some (f s.shared) })
    acts :
        (f : S → S) (p : Program S R) {s : System S R C}
        → s.inside ≡ some (act f p)
        → LockStep s (record s { shared = f s.shared; inside = some p })
    leaves :
        (r : R) {s : System S R C}
        → s.inside ≡ some (finish r)
        → LockStep s (record s { inside = none; answers = s.answers ++ (r ∷ []) })
    starts_reading :
        {s : System S R C} → s.inside ≡ none → LockStep s (record s { readers = suc s.readers })
    stops_reading :
        (k : ℕ) {s : System S R C} → s.readers ≡ suc k → LockStep s (record s { readers = k })

  pub data Execution (start : System S R C) : System S R C → Type (ℓ ⊔ κ ⊔ ι) where
    at_start : Execution start start
    goes_on : {s new : System S R C} → Execution start s → LockStep s new → Execution start new

  -- The calls one after the other, and their answers.
  unfoldable pub serial : List C → S → S × List R
  unfolding exec
  serial [] s = (s, [])
  serial (c ∷ cs) s =
      let (after_c, r) = exec (program_of c) s in
      let (after_all, rs) = serial cs after_c in (after_all, r ∷ rs)

-- Nobody is inside or reading yet.
abbrev pub all_waiting {ℓ κ ι} : {S : Type ℓ} {R : Type κ} {C : Type ι} → S → List C → System S R C
all_waiting s cs = record {
  shared = s;
  waiting = cs;
  inside = none;
  readers = 0;
  entered = [];
  answers = [];
}
