-- ===== src/Streams.antt =====
-- `std::istringstream`, as far as src/ledger/block.cpp reads from it: `std::getline`, and `>>` into a
-- `char` and into integers. A value that a failed read leaves alone is an argument.
pub mod Fields
pub mod Numbers
use synledger_core.Prelude.{
  ltb, leb, ◌==◌, if◌then◌else◌, size_mod, Text, ℕ, ◌+◌, ◌-◌, ◌*◌, ◌%◌, Bool, true, false, not,
  ◌&&◌, ◌||◌, Option, none, some, [], ◌∷◌,
}
use synledger_core.Prelude.Int.{ℤ, pos, sub_ℕ}

pub record Stream : Type 0 where
  pub rest : Text
  pub eof : Bool
  pub fail : Bool

-- A stream at `text` with no flag set.
abbrev pub good_at : Text → Stream
good_at text = record { rest = text; eof = false; fail = false }

abbrev pub is_good : Stream → Bool
is_good s = not s.eof && not s.fail

-- The text up to the delimiter, and the text behind it if there is one.
unfoldable pub split_at : ℕ → Text → Text × Option Text
split_at d [] = ([], none)
split_at d (c ∷ t) =
    let (line, behind) = split_at d t in if c == d then ([], some t) else (c ∷ line, behind)

abbrev pub is_nil : Text → Bool
is_nil [] = true
is_nil (c ∷ t) = false

abbrev pub after_line : Text × Option Text → Text × Stream
after_line (line, none) = (line, record { rest = []; eof = true; fail = is_nil line })
after_line (line, some behind) = (line, good_at behind)

-- `std::getline(s, line, d)`. At the end of the text it fails only if it has read nothing.
unfoldable pub getline : ℕ → Text → Stream → Text × Stream
unfolding split_at
getline d line s =
    if is_good s then after_line (split_at d s.rest) else (line, record s { fail = true })

abbrev pub is_space : ℕ → Bool
is_space c = (c == 32) || (leb 9 c && leb c 13)

unfoldable pub skip_space : Text → Text
skip_space [] = []
skip_space (c ∷ t) = if is_space c then skip_space t else c ∷ t

abbrev pub skipped : Text → Bool × Stream
skipped [] = (false, record { rest = []; eof = true; fail = true })
skipped (c ∷ t) = (true, good_at (c ∷ t))

-- The sentry of `>>`: whether the read goes on, and the stream behind the space.
unfoldable pub sentry : Stream → Bool × Stream
unfolding skip_space
sentry s = if is_good s then skipped (skip_space s.rest) else (false, record s { fail = true })

abbrev pub first_of : ℕ → Text → ℕ × Stream
first_of old [] = (old, record { rest = []; eof = true; fail = true })
first_of old (c ∷ t) = (c, good_at t)

-- `s >> c` of a `char`.
unfoldable pub read_char : ℕ → Stream → ℕ × Stream
unfolding sentry
read_char old s = let (ready, s') = sentry s in if ready then first_of old s'.rest else (old, s')

abbrev pub is_digit : ℕ → Bool
is_digit c = leb 48 c && leb c 57

-- The digits at the start of the text, behind those that make `n`, and the text behind them.
unfoldable pub read_digits : ℕ → Text → ℕ × Text
read_digits n [] = (n, [])
read_digits n (c ∷ t) = if is_digit c then read_digits (n * 10 + (c - 48)) t else (n, c ∷ t)

unfoldable pub scan_unsigned : Text → Option ℕ × Text
unfolding read_digits
scan_unsigned [] = (none, [])
scan_unsigned (c ∷ t) =
    if is_digit c
    then (let (n, behind) = read_digits (c - 48) t in (some n, behind))
    else (none, c ∷ t)

-- A sign, the digits and the text behind them.
unfoldable pub scan_number : Text → Bool × (Option ℕ × Text)
unfolding scan_unsigned
scan_number [] = (false, (none, []))
scan_number (c ∷ t) =
    if c == b'-'
    then (true, scan_unsigned t)
    else if c == b'+'
    then (false, scan_unsigned t)
    else (false, scan_unsigned (c ∷ t))

-- What `>>` stores for a sign and digits, and whether it fails: without digits 0, out of range the
-- nearest value. An unsigned number with a minus is taken modulo 2^64.
abbrev pub stored_size : Bool → Option ℕ → ℕ × Bool
stored_size negative none = (0, true)
stored_size negative (some n) =
    if ltb n size_mod
    then (if negative then (size_mod - n) % size_mod else n, false)
    else (size_mod - 1, true)

-- The range is from -limit to limit - 1.
abbrev pub stored_signed : ℕ → Bool → Option ℕ → ℤ × Bool
stored_signed limit negative none = (pos 0, true)
stored_signed limit true (some n) =
    if leb n limit then (sub_ℕ 0 n, false) else (sub_ℕ 0 limit, true)
stored_signed limit false (some n) = if ltb n limit then (pos n, false) else (pos (limit - 1), true)

abbrev pub after_number {ℓ} : {A : Type ℓ} → A × Bool → Text → A × Stream
after_number (value, failed) behind =
    (value, record { rest = behind; eof = is_nil behind; fail = failed })

-- `s >> n` of a `size_t`.
unfoldable pub read_size : ℕ → Stream → ℕ × Stream
unfolding sentry scan_number
read_size old s =
    let (ready, s') = sentry s in
    let (negative, (digits, behind)) = scan_number s'.rest in
    if ready then after_number (stored_size negative digits) behind else (old, s')

-- `s >> n` of a signed number: `int` with 2^31, `std::time_t` with 2^63.
unfoldable pub read_signed : ℕ → ℤ → Stream → ℤ × Stream
unfolding sentry scan_number
read_signed limit old s =
    let (ready, s') = sentry s in
    let (negative, (digits, behind)) = scan_number s'.rest in
    if ready then after_number (stored_signed limit negative digits) behind else (old, s')
