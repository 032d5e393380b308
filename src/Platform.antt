-- ===== src/Platform.antt =====
-- What the ledger calls and leaves to other parts: `Crypto` (include/cryptography/crypto.hpp) and the
-- standard library's ways to print a `double`.
use synledger_core.Prelude.{Bool, Text, Result, All, leb, ℕ, ◌≡◌, true, ◌&&◌, ◌||◌}

pub record Platform (D : Type 0) : Type 0 where
  -- `Crypto::hash`, where OpenSSL's digest calls succeed.
  pub hash : Text → Text
  -- `Crypto::verify_signature`, on the message, the signature and the public key.
  pub verify_signature : Text → Text → Text → Result Bool
  -- `oss << amount` and `std::to_string(amount)`.
  pub show_double : D → Text
  pub to_string_double : D → Text

abbrev pub is_hex_digit : ℕ → Bool
is_hex_digit c = (leb 48 c && leb c 57) || (leb 97 c && leb c 102)

-- A hash is printed in hexadecimal digits.
pub record HexHash {D : Type 0} (p : Platform D) : Type 0 where
  pub hash_digits : (content : Text) → All (λ c. is_hex_digit c ≡ true) (p.hash content)
