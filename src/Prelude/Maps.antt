-- ===== src/Prelude/Maps.antt =====
-- `std::map` and `std::unordered_map`, as the list of their entries. Where the source walks a map in
-- key order and the order can be seen, the component has a map of its own.
use mathlib.Core.Path.{◌≡◌, refl}
use mathlib.Core.Logic.{◌↔◌, ◌≢◌, inl, inr}
use mathlib.Core.Bool.{Bool, true, false}
use mathlib.Core.Option.{Option, none, some}
use mathlib.Core.List.{List, [], ◌∷◌}
use native.Mathlib.Omega.{arith}
use Prim.Native.Nat.{ℕ}
use synledger_core.Prelude.Tests.{◌==◌, ==_iff, if◌then◌else◌, Bool-cases}
use synledger_core.Prelude.Texts.{Text, text_eq, text_eq_iff}

-- Equality of keys.
pub record Eq (K : Type 0) : Type 0 where
  pub beq : K → K → Bool
  pub beq_iff : (a b : K) → (beq a b ≡ true) ↔ (a ≡ b)

instance abbrev pub nat_eq : Eq ℕ
nat_eq = record { beq = ◌==◌; beq_iff = ==_iff }

instance abbrev pub text_key : Eq Text
text_key = record { beq = text_eq; beq_iff = text_eq_iff }

abbrev pub Map {κ} : Type 0 → Type κ → Type κ
Map K V = List (K × V)

module _ {κ} {K : Type 0} {V : Type κ} ⦃e : Eq K⦄ where
  -- `m.find(k)`, `none` for `m.end()`.
  unfoldable pub lookup : K → Map K V → Option V
  lookup k [] = none
  lookup k ((j, v) ∷ m) = if e.beq j k then some v else lookup k m

  -- `m.find(k) != m.end()`.
  unfoldable pub contains : K → Map K V → Bool
  contains k [] = false
  contains k ((j, v) ∷ m) = if e.beq j k then true else contains k m

  -- `m[k] = v`.
  unfoldable pub insert : K → V → Map K V → Map K V
  insert k v [] = (k, v) ∷ []
  insert k v ((j, w) ∷ m) = if e.beq j k then (j, v) ∷ m else (j, w) ∷ insert k v m

  pub lookup-insert :
      (k j : K) (v : V) (m : Map K V)
      → lookup j (insert k v m) ≡ (if e.beq k j then some v else lookup j m)
  unfolding lookup insert
  lookup-insert k j v [] = refl
  lookup-insert k j v ((i, w) ∷ m) =
      ground (arith, e.beq_iff k j, e.beq_iff i k, e.beq_iff i j, lookup-insert k j v m)

  pub lookup-insert_self : (k : K) (v : V) (m : Map K V) → lookup k (insert k v m) ≡ some v
  lookup-insert_self k v m = ground (arith, lookup-insert k k v m, e.beq_iff k k)

  pub lookup-insert_ne :
      (k j : K) (v : V) (m : Map K V) → k ≢ j → lookup j (insert k v m) ≡ lookup j m
  lookup-insert_ne k j v m h = ground (arith, lookup-insert k j v m, e.beq_iff k j)

  pub contains-insert :
      (k j : K) (v : V) (m : Map K V)
      → contains j (insert k v m) ≡ (if e.beq k j then true else contains j m)
  unfolding contains insert
  contains-insert k j v [] = refl
  contains-insert k j v ((i, w) ∷ m) =
      ground (arith, e.beq_iff k j, e.beq_iff i k, e.beq_iff i j, contains-insert k j v m)

  pub contains-eq-lookup : (k : K) (m : Map K V) → (contains k m ≡ false) ↔ (lookup k m ≡ none)
  unfolding lookup contains
  contains-eq-lookup k [] = ((λ _. refl), (λ _. refl))
  contains-eq-lookup k ((j, v) ∷ m) = ground (arith, contains-eq-lookup k m)

  -- `m.at(k)`-like lookups of a key that is there.
  pub contains-lookup :
      (k : K) (m : Map K V) → contains k m ≡ true → (v : V) × (lookup k m ≡ some v)
  unfolding lookup contains
  contains-lookup k [] h = cc
  contains-lookup k ((j, v) ∷ m) h = elim (Bool-cases (e.beq j k)) [
    | inl p ↦ (v, rw p)
    | inr p ↦ let (w, q) = contains-lookup k m (ground arith) in (w, rw (p, q))
  ]
