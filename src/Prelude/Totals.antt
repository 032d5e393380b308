-- ===== src/Prelude/Totals.antt =====
-- A number summed over a list does not depend on its order.
use mathlib.Core.List.{Perm, Permᴰ}
use mathlib.Core.Logic.{∥∥₁_elim}
use mathlib.Core.Path.{ap₂}
use native.Mathlib.Nat.{ℕ_set}
use synledger_core.Prelude.{ℕ, ◌+◌, ◌≡◌, refl, sym, ◌∙◌, List, ◌∷◌, arith}

module _ {ℓ} {A : Type ℓ} (f : List A → ℕ) (weight : A → ℕ)
    (sums : (x : A) (xs : List A) → f (x ∷ xs) ≡ weight x + f xs) where
  total-permᴰ : {xs ys : List A} → Permᴰ xs ys → f xs ≡ f ys
  total-permᴰ Permᴰ.nil = refl
  total-permᴰ (Permᴰ.cons {a} {b} {l₁ = xs} {l₂ = ys} e p) =
      sums a xs ∙ ap₂ (λ x n. weight x + n) e (total-permᴰ p) ∙ sym (sums b ys)
  total-permᴰ (Permᴰ.swap {a} {b} {a' = c} {b' = d} {l} e f) =
      rw (e, f) (omega (arith, sums d (c ∷ l), sums c l, sums c (d ∷ l), sums d l))
  total-permᴰ (Permᴰ.trans p q) = total-permᴰ p ∙ total-permᴰ q

  pub total-perm : {xs ys : List A} → Perm xs ys → f xs ≡ f ys
  total-perm p = ∥∥₁_elim p (ℕ_set _ _) total-permᴰ
