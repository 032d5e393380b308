-- ===== src/Crypto/Digests.antt =====
-- `class Crypto` (include/cryptography/crypto.hpp, src/cryptography/crypto.cpp).
use synledger_core.Crypto.Hex.{to_hex, Scanner, from_hex}
use synledger_core.Crypto.Resources.{
  ◌>>=◌, ◌>>◌, Held, context, key, private_bio, public_bio, buffer, Action, pure, make, free,
  require, IsClean,
}
use synledger_core.Prelude.{length, Text, codes, ℕ, ◌/◌, Bool, List, [], ◌∷◌, arith}

-- What OpenSSL answers in one call of a method: whether each constructor gives a pointer that is not
-- null, whether each step succeeds, and what the digest and the signature are.
pub record OpenSsl : Type 0 where
  pub md_ctx_new : Bool
  pub digest_init : Bool
  pub digest_update : Bool
  pub digest_final : Bool
  pub sha256 : Text → List ℕ
  pub bio_new : Bool
  -- `PEM_read_bio_PrivateKey` and `PEM_read_bio_PUBKEY`, from a BIO that may be null, on the text.
  pub read_private : Bool → Text → Bool
  pub read_public : Bool → Text → Bool
  pub sign_init : Bool
  pub sign_update : Bool
  pub sign_length : Bool
  -- The length that `EVP_DigestSignFinal` asks for, at least that of the signature.
  pub sign_size : ℕ
  pub malloc : ℕ → Bool
  pub sign_final : Bool
  pub sign_bytes : Text → Text → List ℕ
  pub verify_init : Bool
  pub verify_update : Bool
  -- `EVP_DigestVerifyFinal` on the key, the message and the signature.
  pub verify_final : Text → Text → List ℕ → Bool
  -- What a new buffer holds.
  pub uninitialized : ℕ → ℕ

-- `Crypto::hash`.
unfoldable pub hash : OpenSsl → Text → Action Text
hash o content = do
  mdctx ← make context o.md_ctx_new
  require mdctx [] (codes "Failed to create EVP_MD_CTX")
  require o.digest_init ((context, mdctx) ∷ []) (codes "Failed to initialize EVP digest")
  require o.digest_update ((context, mdctx) ∷ []) (codes "Failed to update digest")
  require o.digest_final ((context, mdctx) ∷ []) (codes "Failed to finalize digest")
  free context mdctx
  pure (to_hex (o.sha256 content))

-- `Crypto::sign`.
unfoldable pub sign : OpenSsl → Text → Text → Action Text
sign o message private_key = do
  bio_made ← make private_bio o.bio_new
  pkey ← make key (o.read_private bio_made private_key)
  free private_bio bio_made
  require pkey [] (codes "Failed to read private key")
  mdctx ← make context o.md_ctx_new
  require mdctx ((key, pkey) ∷ []) (codes "Failed to create MD context")
  require o.sign_init ((context, mdctx) ∷ ((key, pkey) ∷ []))
      (codes "Failed to initialize DigestSign")
  require o.sign_update ((context, mdctx) ∷ ((key, pkey) ∷ []))
      (codes "Failed to update DigestSign")
  require o.sign_length ((context, mdctx) ∷ ((key, pkey) ∷ []))
      (codes "Failed to determine signature length")
  let sig_bytes = o.sign_bytes private_key message
  sig ← make buffer (o.malloc o.sign_size)
  require sig ((context, mdctx) ∷ ((key, pkey) ∷ []))
      (codes "Failed to allocate memory for signature")
  require o.sign_final ((context, mdctx) ∷ ((key, pkey) ∷ ((buffer, sig) ∷ [])))
      (codes "Failed to finalize signature")
  free context mdctx
  free key pkey
  free buffer sig
  pure (to_hex sig_bytes)

-- `Crypto::verify_signature`.
unfoldable pub verify_signature : OpenSsl → Scanner → Text → Text → Text → Action Bool
verify_signature o scanner message signature public_key = do
  let sig_len = length signature / 2
  sig ← make buffer (o.malloc sig_len)
  require sig [] (codes "Failed to allocate memory for signature")
  let sig_bytes = from_hex scanner o.uninitialized sig_len 0 signature
  pub_bio ← make public_bio o.bio_new
  pkey ← make key (o.read_public pub_bio public_key)
  free public_bio pub_bio
  require pkey ((buffer, sig) ∷ []) (codes "Failed to read public key")
  mdctx ← make context o.md_ctx_new
  require mdctx ((key, pkey) ∷ ((buffer, sig) ∷ [])) (codes "Failed to create MD context")
  require o.verify_init ((context, mdctx) ∷ ((key, pkey) ∷ ((buffer, sig) ∷ [])))
      (codes "Failed to initialize DigestVerify")
  require o.verify_update ((context, mdctx) ∷ ((key, pkey) ∷ ((buffer, sig) ∷ [])))
      (codes "Failed to update DigestVerify")
  let verified = o.verify_final public_key message sig_bytes
  free context mdctx
  free key pkey
  free buffer sig
  pure verified

-- On every path, thrown exceptions included, a hash frees what it makes, once, and nothing else.
pub hash-IsClean : (o : OpenSsl) (content : Text) (h : Held) → IsClean (hash o content h) h
unfolding hash
hash-IsClean o content h = ground arith

-- On every path, thrown exceptions included, a signature frees what it makes, once, and nothing else.
pub sign-IsClean :
    (o : OpenSsl) (message private_key : Text) (h : Held) → IsClean (sign o message private_key h) h
unfolding sign
sign-IsClean o message private_key h = ground arith

-- On every path, thrown exceptions included, a verification frees what it makes, once, and nothing
-- else.
pub verify_signature-IsClean :
    (o : OpenSsl) (s : Scanner) (message signature public_key : Text) (h : Held)
    → IsClean (verify_signature o s message signature public_key h) h
unfolding verify_signature
verify_signature-IsClean o s message signature public_key h = ground arith
