-- ===== src/Crypto/Service.antt =====
-- `Crypto` as the platform that blocks call, and the laws that it fills.
use synledger_core.Block.{Transaction, Block, add_transaction, verify_transaction}
use synledger_core.Block.Transactions.{appended}
use synledger_core.Crypto.Digests.{OpenSsl, hash, sign, verify_signature}
use synledger_core.Crypto.Hex.{Scanner, hex_digit, to_hex}
use synledger_core.Crypto.Resources.{Held, nothing_held}
use synledger_core.Crypto.Signatures.{Works, verify_signature-sign}
use synledger_core.Platform.{Platform, is_hex_digit, HexHash}
use synledger_core.Prelude.{
  All, length, Result, ok, err, out_of_range, Text, ℕ, ◌<◌, ◌≡◌, true, Option, none, some, List, [],
  ◌∷◌, arith, ap, ◌∙◌, invalid_argument, if◌then◌else◌, codes, refl,
}

-- What a call that holds nothing before it comes to. No call frees what is not held.
abbrev pub result_of : {A : Type 0} → Option (Result A × Held) → Result A
result_of none = err out_of_range
result_of (some (r, h)) = r

-- The text of a call that does not throw.
abbrev pub text_of : Result Text → Text
text_of (ok t) = t
text_of (err e) = []

module _ {D : Type 0} (o : OpenSsl) (s : Scanner) (show_double to_string_double : D → Text) where
  abbrev pub crypto_platform : Platform D
  crypto_platform = record {
    hash = λ content. text_of (result_of (hash o content nothing_held));
    verify_signature = λ message signature public_key.
        result_of (verify_signature o s message signature public_key nothing_held);
    show_double = show_double;
    to_string_double = to_string_double;
  }

  to_hex-digits :
      (bytes : List ℕ) → All (λ b. b < 256) bytes → All (λ c. is_hex_digit c ≡ true) (to_hex bytes)
  unfolding to_hex hex_digit
  to_hex-digits [] h = tt
  to_hex-digits (b ∷ bs) h = (ground arith, (ground arith, to_hex-digits bs h.1))

  -- Whatever OpenSSL's steps answer, a hash is printed in hexadecimal digits.
  pub crypto-HexHash :
      ((content : Text) → All (λ b. b < 256) (o.sha256 content)) → HexHash crypto_platform
  unfolding hash
  crypto-HexHash bytes = record {
    hash_digits = λ content. ground (arith, to_hex-digits (o.sha256 content) (bytes content));
  }

  -- What `Crypto::sign` returns for a message.
  abbrev pub signature_of : Text → Text → Text
  signature_of message private_key = text_of (result_of (sign o message private_key nothing_held))

  -- What `Crypto` prints as a signature is verified by OpenSSL on the signature's own bytes.
  signature_of-verified :
      (message private_key public_key : Text)
      → Works o
      → 0 < o.sign_size
      → All (λ b. b < 256) (o.sign_bytes private_key message)
      → 0 < length (o.sign_bytes private_key message)
      → result_of
          (verify_signature o s message (signature_of message private_key) public_key nothing_held)
        ≡ ok (o.verify_final public_key message (o.sign_bytes private_key message))
  signature_of-verified message private_key public_key w room small some_bytes =
      let (signature, signed, verified) =
        verify_signature-sign o s message private_key public_key nothing_held w small room
          some_bytes in
      ap
        (λ r.
          result_of (verify_signature o s message (text_of (result_of r)) public_key nothing_held))
        signed
      ∙ ap result_of verified

  -- Where every OpenSSL step succeeds, room is asked for and the signature has bytes, a transaction whose
  -- signature `Crypto::sign` has made of its sender is added to a block, whose hash is computed again, if OpenSSL
  -- verifies the signature's own bytes with the sender as the key; otherwise the block throws.
  pub add_transaction-sign :
      (tx : Transaction D) (b : Block D) (private_key : Text)
      → Works o
      → 0 < o.sign_size
      → All (λ b. b < 256) (o.sign_bytes private_key tx.sender)
      → 0 < length (o.sign_bytes private_key tx.sender)
      → let signed = record tx { signature = signature_of tx.sender private_key } in
        add_transaction ⦃p = crypto_platform⦄ signed b ≡ (
          if o.verify_final tx.sender tx.sender (o.sign_bytes private_key tx.sender)
          then ok (appended ⦃p = crypto_platform⦄ signed b)
          else err (invalid_argument (codes "Invalid transaction signature")))
  unfolding add_transaction verify_transaction
  add_transaction-sign tx b private_key w room small some_bytes =
      rw (signature_of-verified tx.sender private_key tx.sender w room small some_bytes) refl
