-- ===== src/Schedules.antt =====
-- The rounds of a parallel loop in the order in which they happen to run, one at a time.
pub mod First
use mathlib.Core.Option
use mathlib.Core.Option.{some-injective}
use mathlib.Core.Path.{ap₂}
use synledger_core.Prelude.{
  length, get_elem?, set, get_elem?-set, get_elem?-none, count, ltb, ◌==◌, if◌then◌else◌,
  Bool-cases, Option-cases, ℕ, zero, suc, ◌+◌, ◌≡◌, refl, sym, ap, ◌∙◌, inl, inr, Option, none,
  some, List, [], ◌∷◌, arith, All, ==_iff, ◌<◌,
}

-- Each round below `n` runs once, and no other.
abbrev pub IsSchedule : ℕ → List ℕ → Type 0
IsSchedule n order = (j : ℕ) → count j order ≡ (if ltb j n then 1 else 0)

-- The rounds of a schedule are below its number.
pub IsSchedule-below : (n : ℕ) (order : List ℕ) → IsSchedule n order → All (λ i. i < n) order
IsSchedule-below n order once = go order (λ j h. ground (arith, once j))
  where
    go : (rest : List ℕ) → ((j : ℕ) → 0 < count j rest → j < n) → All (λ i. i < n) rest
    go [] below = tt
    go (i ∷ rest) below =
        (below i (ground (arith, ==_iff i i)), go rest (λ j h. below j (omega (arith, h))))

module _ {ℓ} {A : Type ℓ} where
  pub times : ℕ → (A → A) → A → A
  times zero f x = x
  times (suc n) f x = times n f (f x)

  pub map-times-zero : (f : A → A) (o : Option A) → o ≡ Option.map (times 0 f) o
  unfolding times
  map-times-zero f none = refl
  map-times-zero f (some x) = refl

  pub map-times-one : (f : A → A) (o : Option A) → Option.map (times 1 f) o ≡ Option.map f o
  unfolding times
  map-times-one f none = refl
  map-times-one f (some x) = refl

  map-times-suc :
      (n : ℕ) (f : A → A) (o : Option A)
      → Option.map (times n f) (Option.map f o) ≡ Option.map (times (suc n) f) o
  unfolding times
  map-times-suc n f none = refl
  map-times-suc n f (some x) = refl

  -- Two lists with the same elements at every index are equal.
  pub lists-eq : (xs ys : List A) → ((j : ℕ) → get_elem? xs j ≡ get_elem? ys j) → xs ≡ ys
  lists-eq [] [] h = refl
  lists-eq [] (y ∷ ys) h = cc (h 0)
  lists-eq (x ∷ xs) [] h = cc (h 0)
  lists-eq (x ∷ xs) (y ∷ ys) h =
      ap₂ (λ z zs. z ∷ zs) (some-injective x y (h 0)) (lists-eq xs ys (λ j. h (suc j)))

module _ {ℓ} {A : Type ℓ} (body : ℕ → A → A) where
  -- Round `i`, which reads and writes the element at `i` alone.
  unfoldable pub run_round : ℕ → List A → List A
  run_round i xs = elim (get_elem? xs i) [ none ↦ xs | some x ↦ set xs i (body i x) ]

  unfoldable pub run_rounds : List ℕ → List A → List A
  unfolding run_round
  run_rounds [] xs = xs
  run_rounds (i ∷ order) xs = run_rounds order (run_round i xs)

  -- The loop in the order of the indices, from `i` on.
  abbrev pub map_from : ℕ → List A → List A
  map_from i [] = []
  map_from i (x ∷ xs) = body i x ∷ map_from (i + 1) xs

  get_elem?-run_round :
      (i j : ℕ) (xs : List A)
      → get_elem? (run_round i xs) j
        ≡ (if i == j then Option.map (body j) (get_elem? xs j) else get_elem? xs j)
  unfolding run_round
  get_elem?-run_round i j xs = elim (Option-cases (get_elem? xs i)) [
    | inl missing ↦ rw (missing, run_round) (ground (arith, missing))
    | inr (x, found) ↦
        rw (found, run_round) (ground (arith, found, get_elem?-set xs i j (body i x)))
  ]

  pub get_elem?-run_rounds :
      (order : List ℕ) (j : ℕ) (xs : List A)
      → get_elem? (run_rounds order xs) j
        ≡ Option.map (times (count j order) (body j)) (get_elem? xs j)
  unfolding run_rounds times
  get_elem?-run_rounds [] j xs = map-times-zero (body j) (get_elem? xs j)
  get_elem?-run_rounds (i ∷ order) j xs =
      let rest = times (count j order) (body j) in
      elim (Bool-cases (i == j)) [
        | inl own ↦
            let one : (if i == j then 1 else 0) + count j order ≡ suc (count j order) =
              rw own (omega arith) in
            get_elem?-run_rounds order j (run_round i xs)
            ∙ ap (Option.map rest) (get_elem?-run_round i j xs)
            ∙ ap
                (λ b.
                  Option.map rest
                    (if b then Option.map (body j) (get_elem? xs j) else get_elem? xs j))
                own
            ∙ map-times-suc (count j order) (body j) (get_elem? xs j)
            ∙ ap (λ n. Option.map (times n (body j)) (get_elem? xs j)) (sym one)
        | inr other ↦
            let same : (if i == j then 1 else 0) + count j order ≡ count j order =
              rw other (omega arith) in
            get_elem?-run_rounds order j (run_round i xs)
            ∙ ap (Option.map rest) (get_elem?-run_round i j xs)
            ∙ ap
                (λ b.
                  Option.map rest
                    (if b then Option.map (body j) (get_elem? xs j) else get_elem? xs j))
                other
            ∙ ap (λ n. Option.map (times n (body j)) (get_elem? xs j)) (sym same)
      ]

  -- How often each round runs is all that counts.
  pub run_rounds-eq :
      (order order' : List ℕ) (xs : List A)
      → ((j : ℕ) → count j order ≡ count j order')
      → run_rounds order xs ≡ run_rounds order' xs
  run_rounds-eq order order' xs h = lists-eq (run_rounds order xs) (run_rounds order' xs) (λ j.
      get_elem?-run_rounds order j xs
      ∙ ap (λ n. Option.map (times n (body j)) (get_elem? xs j)) (h j)
      ∙ sym (get_elem?-run_rounds order' j xs))

  get_elem?-map_from :
      (i j : ℕ) (xs : List A)
      → get_elem? (map_from i xs) j ≡ Option.map (body (i + j)) (get_elem? xs j)
  get_elem?-map_from i j [] = refl
  get_elem?-map_from i zero (x ∷ xs) = ap (λ k. some (body k x)) (omega arith)
  get_elem?-map_from i (suc j) (x ∷ xs) =
      let e : i + 1 + j ≡ i + suc j = omega arith in
      get_elem?-map_from (i + 1) j xs ∙ ap (λ k. Option.map (body k) (get_elem? xs j)) e

  same :
      (order : List ℕ) (xs : List A)
      → IsSchedule (length xs) order
      → (j : ℕ) → get_elem? (run_rounds order xs) j ≡ get_elem? (map_from 0 xs) j
  same order xs once j =
      let start : 0 + j ≡ j = omega arith in
      let goal = get_elem?-map_from 0 j xs ∙ ap (λ k. Option.map (body k) (get_elem? xs j)) start in
      elim (Bool-cases (ltb j (length xs))) [
        | inl inside ↦
            get_elem?-run_rounds order j xs
            ∙ ap (λ n. Option.map (times n (body j)) (get_elem? xs j)) (rw inside at (once j))
            ∙ map-times-one (body j) (get_elem? xs j)
            ∙ sym goal
        | inr outside ↦
            let missing : get_elem? xs j ≡ none = get_elem?-none xs j (ground arith) in
            get_elem?-run_rounds order j xs
            ∙ ap (Option.map (times (count j order) (body j))) missing
            ∙ sym (ap (Option.map (body j)) missing)
            ∙ sym goal
      ]

  -- In whatever order the rounds run, if each runs once, the list is that of the loop in the order of
  -- the indices.
  pub run_rounds-map_from :
      (order : List ℕ) (xs : List A)
      → IsSchedule (length xs) order
      → run_rounds order xs ≡ map_from 0 xs
  run_rounds-map_from order xs once =
      lists-eq (run_rounds order xs) (map_from 0 xs) (same order xs once)
