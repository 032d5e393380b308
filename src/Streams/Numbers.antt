-- ===== src/Streams/Numbers.antt =====
-- Numbers that are printed are read back.
use native.Mathlib.Nat.{pow-suc}
use synledger_core.Prelude.{
  Text, digits_onto, show_nat, ℕ, zero, suc, ◌+◌, ◌-◌, ◌*◌, ◌/◌, ◌%◌, ◌^◌, ◌<◌, ◌≡◌, true, false,
  [], ◌∷◌, ◌++◌, arith, lt→ltb, size_mod, refl, ap, ◌∙◌, some,
}
use synledger_core.Prelude.Int.{ℤ, pos, negsuc, show_int}
use synledger_core.Streams.{
  is_digit, read_digits, good_at, sentry, scan_number, read_size, read_signed, scan_unsigned,
  stored_signed,
}

-- A text that does not go on with a digit.
abbrev pub NoDigit : Text → Type 0
NoDigit [] = Unit
NoDigit (c ∷ t) = is_digit c ≡ false

-- A text that starts with a digit.
abbrev pub Starts : Text → Type 0
Starts [] = ⊥
Starts (c ∷ t) = is_digit c ≡ true

digit_lem : (n : ℕ) → is_digit (n % 10 + 48) ≡ true
digit_lem n = ground arith

read_digits-digits_onto :
    (f n : ℕ) (acc rest : Text)
    → n < 10 ^ f
    → read_digits 0 (digits_onto f n acc ++ rest) ≡ read_digits n (acc ++ rest)
unfolding digits_onto read_digits
read_digits-digits_onto zero n acc rest h = let e : n ≡ 0 = omega arith in rw e
read_digits-digits_onto (suc f) n acc rest h =
    let smaller : n / 10 < 10 ^ f = omega (arith, pow-suc 10 f) in
    let whole : n / 10 * 10 + (n % 10 + 48 - 48) ≡ n = omega arith in
    ground (
      arith,
      read_digits-digits_onto f (n / 10) ((n % 10 + 48) ∷ acc) rest smaller,
      digit_lem n,
      whole,
    )

Starts-digits_onto :
    (f n : ℕ) (acc rest : Text) → Starts (acc ++ rest) → Starts (digits_onto f n acc ++ rest)
unfolding digits_onto
Starts-digits_onto zero n acc rest h = h
Starts-digits_onto (suc f) n acc rest h =
    ground
      (arith, digit_lem n, Starts-digits_onto f (n / 10) ((n % 10 + 48) ∷ acc) rest (digit_lem n))

Starts-digits_onto-suc : (f n : ℕ) (acc rest : Text) → Starts (digits_onto (suc f) n acc ++ rest)
unfolding digits_onto
Starts-digits_onto-suc f n acc rest =
    ground
      (arith, digit_lem n, Starts-digits_onto f (n / 10) ((n % 10 + 48) ∷ acc) rest (digit_lem n))

Starts-show_nat : (n : ℕ) (rest : Text) → Starts (show_nat n ++ rest)
unfolding show_nat
Starts-show_nat n rest = Starts-digits_onto-suc 19 n [] rest

read_digits_all : (n : ℕ) (rest : Text) → NoDigit rest → read_digits n rest ≡ (n, rest)
unfolding read_digits
read_digits_all n [] h = refl
read_digits_all n (c ∷ t) h = rw h

read_digits-show_nat :
    (n : ℕ) (rest : Text)
    → n < 10 ^ 20
    → NoDigit rest
    → read_digits 0 (show_nat n ++ rest) ≡ (n, rest)
unfolding show_nat
read_digits-show_nat n rest h k = read_digits-digits_onto 20 n [] rest h ∙ read_digits_all n rest k

-- At a digit, `>>` finds neither space nor sign and reads digits.
scan_number-Starts :
    (t : Text) → Starts t → scan_number t ≡ (false, (some (read_digits 0 t).0, (read_digits 0 t).1))
unfolding scan_number
scan_number-Starts [] h = absurd h
scan_number-Starts (c ∷ t) h = ground arith

sentry-Starts : (t : Text) → Starts t → sentry (good_at t) ≡ (true, good_at t)
unfolding sentry
sentry-Starts [] h = absurd h
sentry-Starts (c ∷ t) h = ground arith

scan_number-show_nat :
    (n : ℕ) (rest : Text)
    → n < 10 ^ 20
    → NoDigit rest
    → scan_number (show_nat n ++ rest) ≡ (false, (some n, rest))
scan_number-show_nat n rest h k =
    scan_number-Starts (show_nat n ++ rest) (Starts-show_nat n rest)
    ∙ ap (λ r. (false, (some r.0, r.1))) (read_digits-show_nat n rest h k)

scan_unsigned-Starts :
    (t : Text) → Starts t → scan_unsigned t ≡ (some (read_digits 0 t).0, (read_digits 0 t).1)
unfolding scan_unsigned
scan_unsigned-Starts [] h = absurd h
scan_unsigned-Starts (c ∷ t) h = ground arith

scan_unsigned-show_nat :
    (n : ℕ) (rest : Text)
    → n < 10 ^ 20
    → NoDigit rest
    → scan_unsigned (show_nat n ++ rest) ≡ (some n, rest)
scan_unsigned-show_nat n rest h k =
    scan_unsigned-Starts (show_nat n ++ rest) (Starts-show_nat n rest)
    ∙ ap (λ r. (some r.0, r.1)) (read_digits-show_nat n rest h k)

stored_negative :
    (limit n : ℕ) → n < limit → stored_signed limit true (some (suc n)) ≡ (negsuc n, false)
stored_negative limit n h = ground arith

-- A `size_t` that is printed and followed by a character that is no digit is read back.
pub read_size-show_nat :
    (old n : ℕ) (c : ℕ) (t : Text)
    → n < size_mod
    → is_digit c ≡ false
    → read_size old (good_at (show_nat n ++ (c ∷ t))) ≡ (n, good_at (c ∷ t))
unfolding read_size
read_size-show_nat old n c t h k =
    rw (sentry-Starts (show_nat n ++ (c ∷ t)) (Starts-show_nat n (c ∷ t)))
      (rw (scan_number-show_nat n (c ∷ t) (omega arith) k) (rw (lt→ltb n size_mod h) refl))

-- The integers that a signed type of this limit holds.
abbrev pub Fits : ℕ → ℤ → Type 0
Fits limit (pos n) = n < limit
Fits limit (negsuc n) = n < limit

-- The same of a signed number that its type holds.
pub read_signed-show_int :
    (limit : ℕ) (old n : ℤ) (c : ℕ) (t : Text)
    → limit < 10 ^ 20
    → Fits limit n
    → is_digit c ≡ false
    → read_signed limit old (good_at (show_int n ++ (c ∷ t))) ≡ (n, good_at (c ∷ t))
unfolding read_signed show_int
read_signed-show_int limit old (pos n) c t l h k =
    rw (sentry-Starts (show_nat n ++ (c ∷ t)) (Starts-show_nat n (c ∷ t)))
      (rw (scan_number-show_nat n (c ∷ t) (omega arith) k) (rw (lt→ltb n limit h) refl))
read_signed-show_int limit old (negsuc n) c t l h k =
    rw (scan_unsigned-show_nat (suc n) (c ∷ t) (omega arith) k)
      (rw (stored_negative limit n h) refl)
