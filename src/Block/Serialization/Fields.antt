-- ===== src/Block/Serialization/Fields.antt =====
-- A transaction that is serialized and read back.
use synledger_core.Block.{type_index, Transaction, serialize}
use synledger_core.Block.Serialization.{
  DoubleReader, Uninitialized, read_double, type_of, deserialize_transaction,
}
use synledger_core.Platform.{Platform}
use synledger_core.Prelude.{Text, ◌^◌, ◌≡◌, refl, true, false, [], ◌∷◌, ◌++◌, arith}
use synledger_core.Prelude.Int.{show_int}
use synledger_core.Streams.{good_at, sentry}
use synledger_core.Streams.Fields.{Without, getline-append, getline_last, read_char_lem}
use synledger_core.Streams.Numbers.{Fits, read_signed-show_int}

-- The amount is printed so that `>>` reads it back before a separator: it has six significant digits at
-- most, and is finite.
pub record Rereads {D : Type 0} ⦃p : Platform D⦄ (r : DoubleReader D) (a : D) : Type 0 where
  pub no_space :
      (t : Text)
      → sentry (good_at (p.show_double a ++ (b'|' ∷ t)))
        ≡ (true, good_at (p.show_double a ++ (b'|' ∷ t)))
  pub reads : (t : Text) → r.scan_double (p.show_double a ++ (b'|' ∷ t)) ≡ (a, false, b'|' ∷ t)

-- No field holds the separator behind it, the type is an enumerator or another `int`, and the amount
-- rereads.
pub record IsPrintable {D : Type 0} ⦃p : Platform D⦄ (r : DoubleReader D) (tx : Transaction D)
    : Type 0 where
  pub sender : Without b'|' tx.sender
  pub receiver : Without b'|' tx.receiver
  pub amount : Rereads r tx.amount
  pub signature : Without b'|' tx.signature
  pub type : type_of (type_index tx.type) ≡ tx.type
  pub range : Fits (2 ^ 31) (type_index tx.type)
  pub payload : Without b'\n' tx.payload

module _ {D : Type 0} ⦃p : Platform D⦄ (r : DoubleReader D) (u : Uninitialized D) where
  read_double_lem :
      (old a : D) (t : Text)
      → Rereads r a
      → read_double r old (good_at (p.show_double a ++ (b'|' ∷ t))) ≡ (a, good_at (b'|' ∷ t))
  unfolding read_double
  read_double_lem old a t h = rw (h.no_space t) (rw (h.reads t) refl)

  -- A printable transaction is read back as it was, whatever the variables held before.
  pub deserialize_transaction-serialize :
      (tx : Transaction D) → IsPrintable r tx → deserialize_transaction r u (serialize tx) ≡ tx
  unfolding deserialize_transaction serialize
  deserialize_transaction-serialize tx h =
      let end = tx.payload in
      let typed = show_int (type_index tx.type) ++ (b'|' ∷ end) in
      let signed = tx.signature ++ (b'|' ∷ typed) in
      let paid = p.show_double tx.amount ++ (b'|' ∷ signed) in
      rw (
        getline-append b'|' [] tx.sender (tx.receiver ++ (b'|' ∷ paid)) h.sender,
        getline-append b'|' [] tx.receiver paid h.receiver,
        read_double_lem u.amount tx.amount signed h.amount,
        read_char_lem u.delimiter b'|' signed refl,
        getline-append b'|' [] tx.signature typed h.signature,
        read_signed-show_int (2 ^ 31) u.type (type_index tx.type) b'|' end (omega arith) h.range
            refl,
        read_char_lem b'|' b'|' end refl,
        getline_last b'\n' [] tx.payload h.payload,
        h.type,
      )
