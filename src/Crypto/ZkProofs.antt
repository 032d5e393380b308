-- ===== src/Crypto/ZkProofs.antt =====
-- `class ZKProofs` (src/cryptography/zk_proofs.cpp).
use synledger_core.Crypto.Hex.{to_hex}
use synledger_core.Prelude.{
  runtime_error, Result, ok, err, Result-cases, if◌then◌else◌, Text, codes, text_eq, text_eq_refl,
  text_eq_iff, ℕ, ◌≡◌, ◌↔◌, inl, inr, Bool, true, false, not, List, ◌++◌, arith, Exception,
  invalid_argument, out_of_range, ◌⊎◌, [], ◌∷◌, ap, ◌∙◌,
}

-- Whether each step of OpenSSL's SHA-256 succeeds, and the digest of what the updates are given.
pub record Sha256 : Type 0 where
  pub init : Bool
  pub update : Text → Bool
  pub final : Bool
  pub digest : Text → List ℕ

unfoldable pub generate_proof : Sha256 → Text → Text → Result Text
generate_proof o statement witness =
    if not o.init
    then err (runtime_error (codes "Failed to initialize SHA256"))
    else if not (o.update statement)
    then err (runtime_error (codes "Failed to update SHA256 with statement"))
    else if not (o.update witness)
    then err (runtime_error (codes "Failed to update SHA256 with witness"))
    else if not o.final
    then err (runtime_error (codes "Failed to finalize SHA256"))
    else ok (to_hex (o.digest (statement ++ witness)))

-- `generate_proof` throws nothing but `runtime_error`, which is caught.
unfoldable pub verify_proof : Sha256 → Text → Text → Text → Bool
unfolding generate_proof
verify_proof o statement proof witness = elim (generate_proof o statement witness) [
  | ok expected_proof ↦ text_eq proof expected_proof
  | err e ↦ false
]

-- `e.what()`; `generate_proof` throws `runtime_error` only.
abbrev pub what : Exception → Text
what (runtime_error message) = message
what (invalid_argument message) = message
what out_of_range = []

abbrev pub result_of : Text → Bool → Text
result_of proof is_valid =
    codes "Generated proof: "
    ++ (proof
        ++ (b'\n'
            ∷ (codes "Proof verification: "
                ++ ((if is_valid then codes "valid" else codes "invalid") ++ (b'\n' ∷ [])))))

-- `example_usage`: what it makes of the proof, and the whole.
abbrev report : Sha256 → Text → Text → Result Text → Text
report o statement witness (ok proof) = result_of proof (verify_proof o statement proof witness)
report o statement witness (err e) =
    codes "Error during proof generation or verification: " ++ what e

unfoldable pub example_usage : Sha256 → Text
example_usage o =
    let statement = codes "I know a secret number" in
    let witness = codes "42" in report o statement witness (generate_proof o statement witness)

module _ (o : Sha256) where
  -- A proof is accepted exactly when it is the one that `generate_proof` makes.
  pub verify_proof_iff :
      (statement proof witness : Text)
      → (verify_proof o statement proof witness ≡ true)
        ↔ (generate_proof o statement witness ≡ ok proof)
  unfolding verify_proof
  verify_proof_iff statement proof witness =
      elim (Result-cases (generate_proof o statement witness)) [
        | inl (made, e) ↦ ground (arith, text_eq_iff proof made)
        | inr (x, e) ↦ ground arith
      ]

  -- Where updates always succeed, a proof that is made for a statement and a witness is accepted for
  -- that statement, and for every other way to cut the two, one after the other, into a statement and
  -- a witness.
  pub verify_proof-generate_proof :
      (statement witness statement' witness' : Text) {proof : Text}
      → ((text : Text) → o.update text ≡ true)
      → generate_proof o statement witness ≡ ok proof
      → statement' ++ witness' ≡ statement ++ witness
      → (verify_proof o statement proof witness ≡ true)
        × (verify_proof o statement' proof witness' ≡ true)
  unfolding verify_proof
  verify_proof-generate_proof statement witness statement' witness' {proof} works made same =
      ground (
        arith,
        text_eq_refl proof,
        works statement,
        works statement',
        works witness,
        works witness',
        ap (λ t. to_hex (o.digest t)) same,
      )

  -- The demonstration says "valid" or reports what was thrown, where OpenSSL answers its two
  -- computations alike.
  pub example_usage-valid :
      ((proof : Text) × (example_usage o ≡ result_of proof true))
      ⊎ ((e : Exception) × (example_usage o
            ≡ codes "Error during proof generation or verification: " ++ what e))
  unfolding example_usage
  example_usage-valid =
      let statement = codes "I know a secret number" in
      let witness = codes "42" in
      elim (Result-cases (generate_proof o statement witness)) [
        | inl (proof, made) ↦
            let accepted = (verify_proof_iff statement proof witness).1 made in
            inl (proof, ap (report o statement witness) made ∙ ap (result_of proof) accepted)
        | inr (e, thrown) ↦ inr (e, ap (report o statement witness) thrown)
      ]
