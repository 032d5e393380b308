-- ===== src/Crypto/Hex.antt =====
-- Bytes as hexadecimal text: `std::hex << std::setw(2) << std::setfill('0')`, and `sscanf` back.
use mathlib.Core.Path.{ap₂}
use synledger_core.Prelude.{
  length, All, ltb, if◌then◌else◌, Text, ℕ, zero, suc, ◌+◌, ◌*◌, ◌/◌, ◌%◌, ◌<◌, ◌≡◌, refl, Option,
  none, some, List, [], ◌∷◌, arith,
}

unfoldable pub hex_digit : ℕ → ℕ
hex_digit n = if ltb n 10 then n + 48 else n + 87

-- The loop that prints a digest or a signature.
unfoldable pub to_hex : List ℕ → Text
to_hex [] = []
to_hex (b ∷ bs) = hex_digit (b / 16) ∷ (hex_digit (b % 16) ∷ to_hex bs)

-- `sscanf(text, "%2hhx", …)`, `none` where nothing is stored. Two hexadecimal digits at the start are
-- read as a byte.
pub record Scanner : Type 0 where
  pub scan : Text → Option ℕ
  pub scan_digits :
      (high low : ℕ) (rest : Text)
      → high < 16
      → low < 16
      → scan (hex_digit high ∷ (hex_digit low ∷ rest)) ≡ some (high * 16 + low)

abbrev pub drop_two : Text → Text
drop_two [] = []
drop_two (a ∷ []) = []
drop_two (a ∷ (b ∷ rest)) = rest

abbrev pub stored : Option ℕ → ℕ → ℕ
stored none held = held
stored (some b) held = b

-- The loop of `verify_signature` from `&signature[i * 2]` on, with `n` bytes to go. A byte that `sscanf`
-- does not store stays what the buffer held.
unfoldable pub from_hex : Scanner → (ℕ → ℕ) → ℕ → ℕ → Text → List ℕ
from_hex s uninitialized zero i text = []
from_hex s uninitialized (suc n) i text =
    stored (s.scan text) (uninitialized i) ∷ from_hex s uninitialized n (i + 1) (drop_two text)

pub length-to_hex : (bytes : List ℕ) → length (to_hex bytes) ≡ 2 * length bytes
unfolding to_hex
length-to_hex [] = refl
length-to_hex (b ∷ bs) = omega (arith, length-to_hex bs)

-- The bytes that are printed are read back, whatever the buffer held before.
pub from_hex-to_hex :
    (s : Scanner) (uninitialized : ℕ → ℕ) (i : ℕ) (bytes : List ℕ)
    → All (λ b. b < 256) bytes
    → from_hex s uninitialized (length bytes) i (to_hex bytes) ≡ bytes
unfolding from_hex to_hex
from_hex-to_hex s uninitialized i [] h = refl
from_hex-to_hex s uninitialized i (b ∷ bs) h =
    rw (s.scan_digits (b / 16) (b % 16) (to_hex bs) (omega (arith, h.0)) (omega arith))
      (ap₂ (λ x xs. x ∷ xs) (omega arith) (from_hex-to_hex s uninitialized (i + 1) bs h.1))
