-- ===== src/Crypto/Ecdsa.antt =====
-- `class ECDSA` (src/cryptography/ecdsa.cpp): the keys. `sign_message` and `verify_signature` are,
-- statement for statement, `Crypto::sign` and `Crypto::verify_signature`.
use synledger_core.Crypto.Digests
use synledger_core.Crypto.Digests.{sign, OpenSsl}
use synledger_core.Crypto.Hex.{Scanner}
use synledger_core.Crypto.Resources.{
  ◌>>=◌, ◌>>◌, Held, key, private_bio, public_bio, ec_key, Action, pure, make, free, require,
  hand_over, IsClean,
}
use synledger_core.Prelude.{Text, codes, Bool, ◌&&◌, [], ◌∷◌, arith}

-- What OpenSSL answers in one call of `generate_key_pair`.
pub record KeyAnswers : Type 0 where
  pub ec_key_new : Bool
  pub ec_key_generate : Bool
  pub pkey_new : Bool
  pub assign : Bool
  pub pri_bio_new : Bool
  pub write_private : Bool
  pub pub_bio_new : Bool
  pub write_public : Bool
  pub private_pem : Text
  pub public_pem : Text

unfoldable pub generate_key_pair : KeyAnswers → Action (Text × Text)
generate_key_pair o = do
  eckey ← make ec_key o.ec_key_new
  require (eckey && o.ec_key_generate) ((ec_key, eckey) ∷ []) (codes "Failed to generate EC key")
  pkey ← make key o.pkey_new
  require (pkey && o.assign) ((ec_key, eckey) ∷ ((key, pkey) ∷ []))
      (codes "Failed to assign EC key")
  hand_over ec_key
  pri_bio ← make private_bio o.pri_bio_new
  require (pri_bio && o.write_private) ((private_bio, pri_bio) ∷ ((key, pkey) ∷ []))
      (codes "Failed to write private key to BIO")
  pub_bio ← make public_bio o.pub_bio_new
  require (pub_bio && o.write_public)
      ((private_bio, pri_bio) ∷ ((public_bio, pub_bio) ∷ ((key, pkey) ∷ [])))
      (codes "Failed to write public key to BIO")
  free private_bio pri_bio
  free public_bio pub_bio
  free key pkey
  pure (o.private_pem, o.public_pem)

unfoldable pub sign_message : OpenSsl → Text → Text → Action Text
sign_message o message private_key = sign o message private_key

-- `ECDSA::verify_signature`.
unfoldable pub verify_signature : OpenSsl → Scanner → Text → Text → Text → Action Bool
verify_signature o scanner message signature public_key =
    Digests.verify_signature o scanner message signature public_key

-- On every path, thrown exceptions included, making a pair of keys frees what it makes, once, and
-- nothing else; the elliptic-curve key goes with the key that takes it over.
pub generate_key_pair-IsClean : (o : KeyAnswers) (h : Held) → IsClean (generate_key_pair o h) h
unfolding generate_key_pair
generate_key_pair-IsClean o h = ground arith
