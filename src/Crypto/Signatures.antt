-- ===== src/Crypto/Signatures.antt =====
-- A signature printed as text by `Crypto::sign` and read back by `Crypto::verify_signature`.
use synledger_core.Crypto.Digests.{OpenSsl, sign, verify_signature}
use synledger_core.Crypto.Hex.{Scanner, to_hex, from_hex-to_hex, length-to_hex}
use synledger_core.Crypto.Resources.{Held}
use synledger_core.Prelude.{All, length, ok, Text, ◌<◌, ◌≡◌, refl, true, some, arith, ℕ, ◌/◌}

-- Every step of OpenSSL that a signature or its verification takes succeeds.
pub record Works (o : OpenSsl) : Type 0 where
  pub md_ctx_new : o.md_ctx_new ≡ true
  pub bio_new : o.bio_new ≡ true
  pub read_private : (pem : Text) → o.read_private true pem ≡ true
  pub read_public : (pem : Text) → o.read_public true pem ≡ true
  pub sign_init : o.sign_init ≡ true
  pub sign_update : o.sign_update ≡ true
  pub sign_length : o.sign_length ≡ true
  pub malloc : (n : ℕ) → 0 < n → o.malloc n ≡ true
  pub sign_final : o.sign_final ≡ true
  pub verify_init : o.verify_init ≡ true
  pub verify_update : o.verify_update ≡ true

-- Where every step of OpenSSL succeeds, room is asked for and the signature has bytes, a message is
-- signed, and the text that this returns is verified with the answer that OpenSSL gives on the
-- signature's own bytes. Both calls hold nothing afterwards that was not held before.
pub verify_signature-sign :
    (o : OpenSsl) (s : Scanner) (message private_key public_key : Text) (h : Held)
    → Works o
    → All (λ b. b < 256) (o.sign_bytes private_key message)
    → 0 < o.sign_size
    → 0 < length (o.sign_bytes private_key message)
    → (signature : Text) × (sign o message private_key h ≡ some (ok signature, h))
      × (verify_signature o s message signature public_key h
          ≡ some (ok (o.verify_final public_key message (o.sign_bytes private_key message)), h))
unfolding sign verify_signature
verify_signature-sign o s message private_key public_key h w small room some_bytes =
    let bytes = o.sign_bytes private_key message in
    let size : length (to_hex bytes) / 2 ≡ length bytes = omega (arith, length-to_hex bytes) in
    (
      to_hex bytes,
      rw
          (
            w.bio_new,
            w.read_private private_key,
            w.md_ctx_new,
            w.sign_init,
            w.sign_update,
            w.sign_length,
            w.malloc o.sign_size room,
            w.sign_final,
          )
          refl,
      rw
          (
            size,
            w.malloc (length bytes) some_bytes,
            w.bio_new,
            w.read_public public_key,
            w.md_ctx_new,
            w.verify_init,
            w.verify_update,
            from_hex-to_hex s o.uninitialized 0 bytes small,
          )
          refl,
    )
