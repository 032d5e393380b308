-- ===== src/Examples/CryptoRuns.antt =====
-- The theorems on `Crypto`, applied to an OpenSSL that succeeds.
use mathlib.Core.Path.{ap₂}
use synledger_core.Crypto.Digests.{sign, OpenSsl, verify_signature}
use synledger_core.Crypto.Ecdsa.{KeyAnswers, generate_key_pair, generate_key_pair-IsClean}
use synledger_core.Crypto.Hex.{hex_digit, Scanner, to_hex}
use synledger_core.Crypto.Resources.{IsClean, nothing_held}
use synledger_core.Crypto.Signatures.{Works, verify_signature-sign}
use synledger_core.Crypto.ZkProofs.{
  Sha256, generate_proof, verify_proof, verify_proof-generate_proof,
}
use synledger_core.Prelude.{
  length, ok, ltb, if◌then◌else◌, lt→ltb, Text, codes, text_eq, ℕ, ◌+◌, ◌-◌, ◌*◌, ◌<◌, ◌≡◌, refl,
  true, Option, none, some, [], ◌∷◌, arith, false, ◌++◌, ◌%◌,
}

abbrev pub openssl : OpenSsl
openssl = record {
  md_ctx_new = true;
  digest_init = true;
  digest_update = true;
  digest_final = true;
  sha256 = λ content. length content % 256 ∷ [];
  bio_new = true;
  read_private = λ bio_made pem. bio_made;
  read_public = λ bio_made pem. bio_made;
  sign_init = true;
  sign_update = true;
  sign_length = true;
  sign_size = 2;
  malloc = λ n. ltb 0 n;
  sign_final = true;
  sign_bytes = λ private_key message. 171 ∷ (5 ∷ []);
  verify_init = true;
  verify_update = true;
  verify_final = λ public_key message sig. text_eq sig (171 ∷ (5 ∷ []));
  uninitialized = λ i. 0;
}

pub openssl-Works : Works openssl
openssl-Works = record {
  md_ctx_new = refl;
  bio_new = refl;
  read_private = λ pem. refl;
  read_public = λ pem. refl;
  sign_init = refl;
  sign_update = refl;
  sign_length = refl;
  malloc = λ n h. lt→ltb 0 n h;
  sign_final = refl;
  verify_init = refl;
  verify_update = refl;
}

-- The value of a hexadecimal digit.
abbrev digit_value : ℕ → Option ℕ
digit_value c =
    if ltb c 48
    then none
    else if ltb c 58
    then some (c - 48)
    else if ltb c 97
    then none
    else if ltb c 103
    then some (c - 87)
    else none

abbrev joined : Option ℕ → Option ℕ → Option ℕ
joined none low = none
joined (some high) none = some high
joined (some high) (some low) = some (high * 16 + low)

abbrev scan_two : Text → Option ℕ
scan_two [] = none
scan_two (a ∷ []) = digit_value a
scan_two (a ∷ (b ∷ rest)) = joined (digit_value a) (digit_value b)

pub digit_value-hex_digit : (n : ℕ) → n < 16 → digit_value (hex_digit n) ≡ some n
unfolding hex_digit
digit_value-hex_digit n h = ground arith

abbrev pub scanner : Scanner
scanner = record {
  scan = scan_two;
  scan_digits =
      λ high low rest h k. ap₂ joined (digit_value-hex_digit high h) (digit_value-hex_digit low k);
}

verify_signature-sign_example :
    (signature : Text) × (sign openssl (codes "pay") (codes "private") nothing_held
      ≡ some (ok signature, nothing_held))
    × (verify_signature openssl scanner (codes "pay") signature (codes "public") nothing_held
        ≡ some (ok (text_eq (171 ∷ (5 ∷ [])) (171 ∷ (5 ∷ []))), nothing_held))
verify_signature-sign_example =
    verify_signature-sign openssl scanner (codes "pay") (codes "private") (codes "public")
      nothing_held openssl-Works (omega arith, (omega arith, tt)) (omega arith) (omega arith)

sign_test :
    sign openssl (codes "pay") (codes "private") nothing_held
    ≡ some (ok (codes "ab05"), nothing_held)
unfolding sign to_hex hex_digit
sign_test = refl

-- The public key cannot be written.
abbrev no_public : KeyAnswers
no_public = record {
  ec_key_new = true;
  ec_key_generate = true;
  pkey_new = true;
  assign = true;
  pri_bio_new = true;
  write_private = true;
  pub_bio_new = true;
  write_public = false;
  private_pem = codes "private";
  public_pem = codes "public";
}

generate_key_pair-IsClean_example : IsClean (generate_key_pair no_public nothing_held) nothing_held
generate_key_pair-IsClean_example = generate_key_pair-IsClean no_public nothing_held

-- Its digest is the text itself.
abbrev sha : Sha256
sha = record { init = true; update = λ text. true; final = true; digest = λ text. text }

proof_test : generate_proof sha (codes "ab" ++ codes "c") (codes "d") ≡ ok (codes "61626364")
unfolding generate_proof to_hex hex_digit
proof_test = refl

verify_proof-generate_proof_example :
    (verify_proof sha (codes "abc") (codes "61626364") (codes "d") ≡ true)
    × (verify_proof sha (codes "ab") (codes "61626364") (codes "cd") ≡ true)
verify_proof-generate_proof_example =
    verify_proof-generate_proof sha (codes "abc") (codes "d") (codes "ab") (codes "cd")
      (λ text. refl) proof_test refl
