-- ===== src/Streams/Fields.antt =====
-- Texts between delimiters.
use synledger_core.Prelude.{
  All, ◌==◌, ==_iff, Text, ℕ, ◌≡◌, refl, ap, false, none, some, [], ◌∷◌, ◌++◌, arith, length,
  Bool-cases, suc, ◌+◌, ◌<◌, inl, inr, Option, true,
}
use synledger_core.Streams.{
  good_at, split_at, after_line, getline, is_space, read_char, Stream, is_good,
}

abbrev pub Without : ℕ → Text → Type 0
Without d t = All (λ c. (c == d) ≡ false) t

split_at-append : (d : ℕ) (s t : Text) → Without d s → split_at d (s ++ (d ∷ t)) ≡ (s, some t)
unfolding split_at
split_at-append d [] t h = ground (arith, ==_iff d d)
split_at-append d (c ∷ s) t h = ground (arith, split_at-append d s t)

split_at_all : (d : ℕ) (s : Text) → Without d s → split_at d s ≡ (s, none)
unfolding split_at
split_at_all d [] h = refl
split_at_all d (c ∷ s) h = ground (arith, split_at_all d s)

-- A text without the delimiter is read up to the delimiter behind it.
pub getline-append :
    (d : ℕ) (line s t : Text)
    → Without d s
    → getline d line (good_at (s ++ (d ∷ t))) ≡ (s, good_at t)
unfolding getline
getline-append d line s t h = ap after_line (split_at-append d s t h)

-- The last line: a text without the delimiter is read to its end.
pub getline_last : (d : ℕ) (line s : Text) → Without d s → (getline d line (good_at s)).0 ≡ s
unfolding getline
getline_last d line s h = ap (λ r. (after_line r).0) (split_at_all d s h)

pub getline_empty : (d : ℕ) → (getline d [] (good_at [])).1.fail ≡ true
unfolding getline
getline_empty d = refl

pub read_char_lem :
    (old c : ℕ) (t : Text) → is_space c ≡ false → read_char old (good_at (c ∷ t)) ≡ (c, good_at t)
unfolding read_char
read_char_lem old c t h = rw h

-- The number of characters behind a line, its delimiter counted.
abbrev behind : Option Text → ℕ
behind none = 0
behind (some t) = suc (length t)

length-split_at : (d : ℕ) (s : Text) → length (split_at d s).0 + behind (split_at d s).1 ≡ length s
unfolding split_at
length-split_at d [] = refl
length-split_at d (c ∷ s) = ground (arith, length-split_at d s)

after_line_shorter :
    (r : Text × Option Text) (n : ℕ)
    → length r.0 + behind r.1 ≡ n
    → (after_line r).1.fail ≡ false
    → length (after_line r).1.rest < n
after_line_shorter ([], none) n e h = cc
after_line_shorter (c ∷ line, none) n e h = omega arith
after_line_shorter (line, some t) n e h = omega arith

-- A line that is read takes a character at least.
pub getline_shorter :
    (d : ℕ) (line : Text) (s : Stream)
    → (getline d line s).1.fail ≡ false
    → length (getline d line s).1.rest < length s.rest
unfolding getline
getline_shorter d line s h = elim (Bool-cases (is_good s)) [
  | inl good ↦ rw good (
      after_line_shorter (split_at d s.rest) (length s.rest) (length-split_at d s.rest)
        (rw good at h))
  | inr bad ↦ cc (rw bad at h)
]
