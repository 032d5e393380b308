-- ===== src/Block/Signing.antt =====
-- Collecting validator signatures on a block (`sign_block`, `verify_signatures`).
use synledger_core.Block.{Block, sign_block, verify_signatures, get_signature_count}
use synledger_core.Prelude.{
  ℕ, zero, suc, ◌+◌, ◌-◌, ◌≤◌, ◌<◌, ◌≡◌, refl, ap, ◌∙◌, ◌↔◌, true, List, [], ◌∷◌, ◌++◌,
  append_assoc, append-nil, arith, lt→ltb, length, take, length-append, length-take, take_all, Text,
}

-- A series of calls of `sign_block`, whatever they return.
pub sign_all : {D : Type 0} → List Text → Block D → Block D
sign_all [] b = b
sign_all (s ∷ ss) b = sign_all ss (sign_block s b).0

-- The block with other signatures.
abbrev pub with_signatures : {D : Type 0} → Block D → List Text → Block D
with_signatures b ss = record b { validator_signatures = ss }

module _ {D : Type 0} where
  pub sign_block-room :
      (s : Text) (b : Block D)
      → get_signature_count b < b.required_signatures
      → (sign_block s b).0 ≡ with_signatures b (b.validator_signatures ++ (s ∷ []))
  unfolding sign_block
  sign_block-room s b h = ground (arith, lt→ltb _ _ h)

  pub sign_block-full :
      (s : Text) (b : Block D)
      → b.required_signatures ≤ get_signature_count b
      → (sign_block s b).0 ≡ b
  unfolding sign_block
  sign_block-full s b h = ground arith

  sign_all-full :
      (ss : List Text) (b : Block D)
      → b.required_signatures ≤ get_signature_count b
      → sign_all ss b ≡ b
  unfolding sign_all
  sign_all-full [] b h = refl
  sign_all-full (s ∷ ss) b h = rw (sign_block-full s b h) (sign_all-full ss b h)

  -- With `k` signatures missing, the calls keep the first `k` offered, in order.
  pub sign_all_lem :
      (k : ℕ) (ss : List Text) (b : Block D)
      → get_signature_count b + k ≡ b.required_signatures
      → sign_all ss b ≡ with_signatures b (b.validator_signatures ++ take k ss)
  unfolding sign_all
  sign_all_lem zero ss b h =
      rw (sign_all-full ss b (omega arith), append-nil b.validator_signatures)
  sign_all_lem (suc k) [] b h = rw (append-nil b.validator_signatures)
  sign_all_lem (suc k) (s ∷ ss) b h = rw (sign_block-room s b (omega arith)) (
      sign_all_lem k ss (with_signatures b (b.validator_signatures ++ (s ∷ [])))
        (omega (arith, length-append b.validator_signatures (s ∷ [])))
      ∙ ap (with_signatures b) (append_assoc b.validator_signatures (s ∷ []) (take k ss)))

  -- A block that has no more signatures than it needs and is offered a list of signatures, one call for
  -- each, is verified exactly when those that it had and those offered are enough.
  pub verify_signatures-sign_all :
      (ss : List Text) (b : Block D)
      → get_signature_count b ≤ b.required_signatures
      → (verify_signatures (sign_all ss b) ≡ true)
        ↔ (b.required_signatures ≤ get_signature_count b + length ss)
  unfolding verify_signatures
  verify_signatures-sign_all ss b h =
      let k = b.required_signatures - get_signature_count b in
      rw (sign_all_lem k ss b (omega arith)) (
        grind (
          arith,
          length-append b.validator_signatures (take k ss),
          length-take k ss,
          take_all k ss,
        ))
