-- ===== src/Block/Serialization/RoundTrip.antt =====
-- A block that is serialized and read back, and the loop over its transactions.
use synledger_core.Block.{Transaction, Block, serialize, calculate_block_hash, content_hash}
use synledger_core.Block.Serialization.{
  DoubleReader, Uninitialized, read_one, read_transactions, serialize_all, serialize_block,
  deserialize_block, read_header,
}
use synledger_core.Block.Serialization.Fields.{IsPrintable, deserialize_transaction-serialize}
use synledger_core.Block.Transactions.{IsHashed}
use synledger_core.Platform.{Platform}
use synledger_core.Prelude.{
  length, All, length-append, Bool-cases, size_mod, Text, show_nat, ℕ, zero, suc, ◌^◌, ◌≤◌, ◌<◌,
  ◌≡◌, refl, inl, inr, false, some, List, [], ◌∷◌, ◌++◌, arith,
}
use synledger_core.Prelude.Int.{show_int}
use synledger_core.Streams.{Stream, good_at, is_nil, getline}
use synledger_core.Streams.Fields.{
  Without, getline-append, read_char_lem, getline_shorter, getline_empty,
}
use synledger_core.Streams.Numbers.{read_size-show_nat, Fits, read_signed-show_int}

is_nil-serialize :
    {D : Type 0} ⦃p : Platform D⦄ (tx : Transaction D) → is_nil (serialize tx) ≡ false
unfolding serialize
is_nil-serialize tx = ends tx.sender _
  where
    ends : (s t : Text) → is_nil (s ++ (b'|' ∷ t)) ≡ false
    ends [] t = refl
    ends (c ∷ s) t = refl

module _ {D : Type 0} (r : DoubleReader D) (u : Uninitialized D) where
  -- Every line takes a character, so the loop ends within its fuel, on any stream.
  read_transactions_total :
      (fuel : ℕ) (s : Stream)
      → length s.rest < fuel
      → (txs : List (Transaction D)) × (read_transactions r u fuel s ≡ some txs)
  unfolding read_transactions
  read_transactions_total zero s h = absurd (omega arith)
  read_transactions_total (suc fuel) s h = elim (Bool-cases (getline b'#' [] s).1.fail) [
    | inl failed ↦ ([], rw failed refl)
    | inr more ↦
        let (txs, e) =
          read_transactions_total fuel (getline b'#' [] s).1
            (omega (arith, getline_shorter b'#' [] s more)) in
        (read_one r u (getline b'#' [] s).0 txs, rw (more, e) refl)
  ]

-- A transaction that can stand in a block's text.
abbrev pub IsListable : {D : Type 0} → ⦃p : Platform D⦄ → DoubleReader D → Transaction D → Type 0
IsListable r tx = IsPrintable r tx × Without b'#' (serialize tx)

module _ {D : Type 0} ⦃p : Platform D⦄ (r : DoubleReader D) (u : Uninitialized D) where
  length-serialize_all : (txs : List (Transaction D)) → length txs ≤ length (serialize_all txs)
  unfolding serialize_all
  length-serialize_all [] = omega arith
  length-serialize_all (tx ∷ txs) =
      omega
        (arith, length-serialize_all txs, length-append (serialize tx) (b'#' ∷ serialize_all txs))

  read_transactions-serialize_all :
      (fuel : ℕ) (txs : List (Transaction D))
      → length txs < fuel
      → All (IsListable r) txs
      → read_transactions r u fuel (good_at (serialize_all txs)) ≡ some txs
  unfolding read_transactions serialize_all
  read_transactions-serialize_all zero txs h k = absurd (omega arith)
  read_transactions-serialize_all (suc fuel) [] h k = rw (getline_empty b'#')
  read_transactions-serialize_all (suc fuel) (tx ∷ txs) h k = rw (
    getline-append b'#' [] (serialize tx) (serialize_all txs) k.0.1,
    read_transactions-serialize_all fuel txs (omega arith) k.1,
    is_nil-serialize tx,
    deserialize_transaction-serialize r u tx k.0.0,
  )

  -- Reading a block ends within its fuel, whatever the text is, with a block whose hash is that of its
  -- contents and which nobody has signed.
  pub deserialize_block_total :
      (text : Text)
      → (b : Block D) × (deserialize_block r u text ≡ some b)
        × IsHashed b
        × (b.validator_signatures ≡ [])
  unfolding deserialize_block read_header calculate_block_hash content_hash
  deserialize_block_total text =
      let (block, s) = read_header {D = D} u text in
      let (txs, e) = read_transactions_total r u (suc (length s.rest)) s (omega arith) in
      (calculate_block_hash (record block { transactions = txs }), rw e refl, refl, refl)

  -- A block is read back with all but its signatures, and its hash made afresh, if its numbers fit
  -- their types, its previous hash has no `|`, and each transaction is printable and its text has no
  -- `#`.
  pub deserialize_block-serialize_block :
      (b : Block D)
      → b.block_number < size_mod
      → b.required_signatures < size_mod
      → Fits (2 ^ 63) b.timestamp
      → Without b'|' b.previous_block_hash
      → All (IsListable r) b.transactions
      → deserialize_block r u (serialize_block b)
        ≡ some (calculate_block_hash (record b { validator_signatures = [] }))
  unfolding deserialize_block serialize_block calculate_block_hash content_hash
  deserialize_block-serialize_block b number required time previous listable =
      let all = serialize_all b.transactions in
      let needs = show_nat b.required_signatures ++ (b'|' ∷ all) in
      let timed = show_int b.timestamp ++ (b'|' ∷ needs) in
      let linked = b.previous_block_hash ++ (b'|' ∷ timed) in
      rw (
        read_size-show_nat u.block_number b.block_number b'|' linked number refl,
        read_char_lem u.delimiter b'|' linked refl,
        getline-append b'|' [] b.previous_block_hash timed previous,
        read_signed-show_int (2 ^ 63) u.timestamp b.timestamp b'|' needs (omega arith) time refl,
        read_char_lem b'|' b'|' needs refl,
        read_size-show_nat u.required_signatures b.required_signatures b'|' all required refl,
        read_char_lem b'|' b'|' all refl,
        read_transactions-serialize_all (suc (length all)) b.transactions
            (omega (arith, length-serialize_all b.transactions)) listable,
      )
