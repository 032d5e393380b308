-- ===== src/Schedules/First.antt =====
-- Rounds that do the same to each of the first elements of a list.
use mathlib.Core.Option
use synledger_core.Prelude.{
  length, get_elem?, ltb, if◌then◌else◌, Bool-cases, ℕ, zero, suc, ◌≡◌, refl, sym, ap, ◌∙◌, inl,
  inr, List, [], ◌∷◌, arith,
}
use synledger_core.Schedules.{
  IsSchedule, times, map-times-zero, map-times-one, lists-eq, run_rounds, get_elem?-run_rounds,
}

module _ {ℓ} {A : Type ℓ} where
  -- The first `n` elements changed by `f`.
  unfoldable pub on_first : ℕ → (A → A) → List A → List A
  on_first zero f xs = xs
  on_first (suc n) f [] = []
  on_first (suc n) f (x ∷ xs) = f x ∷ on_first n f xs

  get_elem?-on_first :
      (n j : ℕ) (f : A → A) (xs : List A)
      → get_elem? (on_first n f xs) j
        ≡ (if ltb j n then Option.map f (get_elem? xs j) else get_elem? xs j)
  unfolding on_first
  get_elem?-on_first zero j f xs = ground arith
  get_elem?-on_first (suc n) j f [] = ground arith
  get_elem?-on_first (suc n) zero f (x ∷ xs) = ground arith
  get_elem?-on_first (suc n) (suc j) f (x ∷ xs) = ground (arith, get_elem?-on_first n j f xs)

  -- One pass after another is one pass that does both.
  pub on_first-on_first :
      (n : ℕ) (f g : A → A) (xs : List A)
      → on_first n f (on_first n g xs) ≡ on_first n (λ x. f (g x)) xs
  unfolding on_first
  on_first-on_first zero f g xs = refl
  on_first-on_first (suc n) f g [] = refl
  on_first-on_first (suc n) f g (x ∷ xs) = ap (λ ys. f (g x) ∷ ys) (on_first-on_first n f g xs)

  pub on_first_id : (n : ℕ) (xs : List A) → on_first n (λ x. x) xs ≡ xs
  unfolding on_first
  on_first_id zero xs = refl
  on_first_id (suc n) [] = refl
  on_first_id (suc n) (x ∷ xs) = ap (λ ys. x ∷ ys) (on_first_id n xs)

  pub length-on_first : (n : ℕ) (f : A → A) (xs : List A) → length (on_first n f xs) ≡ length xs
  unfolding on_first
  length-on_first zero f xs = refl
  length-on_first (suc n) f [] = refl
  length-on_first (suc n) f (x ∷ xs) = ap suc (length-on_first n f xs)

  -- Rounds that do the same to every element, each below `n` once, in any order.
  pub run_rounds-on_first :
      (n : ℕ) (f : A → A) (order : List ℕ) (xs : List A)
      → IsSchedule n order
      → run_rounds (λ k. f) order xs ≡ on_first n f xs
  run_rounds-on_first n f order xs once =
      lists-eq (run_rounds (λ k. f) order xs) (on_first n f xs) (λ j.
        let o = get_elem? xs j in
        get_elem?-run_rounds (λ k. f) order j xs ∙ elim (Bool-cases (ltb j n)) [
          | inl below ↦
              ap (λ k. Option.map (times k f) o) (once j ∙ ap (λ b. if b then 1 else 0) below)
              ∙ map-times-one f o
              ∙ sym (get_elem?-on_first n j f xs ∙ ap (λ b. if b then Option.map f o else o) below)
          | inr beyond ↦
              ap (λ k. Option.map (times k f) o) (once j ∙ ap (λ b. if b then 1 else 0) beyond)
              ∙ sym (map-times-zero f o)
              ∙ sym (get_elem?-on_first n j f xs ∙ ap (λ b. if b then Option.map f o else o) beyond)
        ])
