-- ===== src/Size/Exact.antt =====
-- The sizes that src/cli/size.rs accepts are exact.
use dfdisk.Prelude.{
  ℕ, suc, ◌*◌, ◌≤◌, ◌<◌, ◌≡◌, refl, ◌∙◌, Bool, true, false, not, ◌&&◌, some, [], ◌∷◌, ◌++◌, arith,
  leb, if◌then◌else◌, ◌==◌, u64_max, Text, Bool-cases, inl, inr, ◌⊎◌,
}
use dfdisk.Prelude.Results.{ok, err}
use dfdisk.Str.{
  trim, trim_start, trim_end, is_whitespace, is_ascii_digit, all_chars, from_str_radix, from_digits,
}
use dfdisk.Pieces.File.{decimal, to_ascii_lowercase}
use dfdisk.Pieces.Lines.{all_digits, digits-from_digits, decimal-cons}
use dfdisk.Size.{too_large, split_digits, units, lookup, parse_size}

abbrev is_solid : ℕ → Bool
is_solid c = not (is_whitespace c)

trim_end-solid : (t : Text) → all_chars is_solid t ≡ true → trim_end t ≡ t
unfolding trim_end all_chars
trim_end-solid [] h = refl
trim_end-solid (c ∷ cs) h = ground (arith, trim_end-solid cs)

trim-solid : (t : Text) → all_chars is_solid t ≡ true → trim t ≡ t
unfolding trim trim_start all_chars
trim-solid [] h = unfold trim_end in refl
trim-solid (c ∷ cs) h = ground (arith, trim_end-solid (c ∷ cs) h)

all_chars-append :
    (p : ℕ → Bool) (s t : Text) → all_chars p (s ++ t) ≡ (all_chars p s && all_chars p t)
unfolding all_chars
all_chars-append p [] t = refl
all_chars-append p (c ∷ cs) t = ground (arith, all_chars-append p cs t)

differs : (a b : ℕ) → (b < a) ⊎ (a < b) → (a == b) ≡ false
differs a b h = ground arith

digit_not_whitespace : (c : ℕ) → 48 ≤ c → c ≤ 57 → is_whitespace c ≡ false
unfolding is_whitespace
digit_not_whitespace c l h =
    let e0 : (c == 32) ≡ false = differs c 32 (inl (omega arith)) in
    let e1 : (c == 133) ≡ false = differs c 133 (inr (omega arith)) in
    let e2 : (c == 160) ≡ false = differs c 160 (inr (omega arith)) in
    let e3 : (c == 5760) ≡ false = differs c 5760 (inr (omega arith)) in
    let e4 : (c == 8232) ≡ false = differs c 8232 (inr (omega arith)) in
    let e5 : (c == 8233) ≡ false = differs c 8233 (inr (omega arith)) in
    let e6 : (c == 8239) ≡ false = differs c 8239 (inr (omega arith)) in
    let e7 : (c == 8287) ≡ false = differs c 8287 (inr (omega arith)) in
    let e8 : (c == 12288) ≡ false = differs c 12288 (inr (omega arith)) in
    let tabs : leb c 13 ≡ false = ground arith in
    let thin : leb 8192 c ≡ false = ground arith in
    let known : leb 9 c ≡ true = ground arith in
    rw (e0, e1, e2, e3, e4, e5, e6, e7, e8, known, tabs, thin) refl

digit_bounds : (c : ℕ) → is_ascii_digit c ≡ true → (48 ≤ c) × (c ≤ 57)
digit_bounds c h = ground arith

digits_solid : (t : Text) → all_chars is_ascii_digit t ≡ true → all_chars is_solid t ≡ true
unfolding all_chars
digits_solid [] h = refl
digits_solid (c ∷ cs) h =
    let first : is_ascii_digit c ≡ true = ground arith in
    let (l, u) = digit_bounds c first in ground (arith, digit_not_whitespace c l u, digits_solid cs)

-- The text does not start with a digit.
abbrev no_digit_first : Text → Bool
no_digit_first [] = true
no_digit_first (c ∷ cs) = not (is_ascii_digit c)

split_digits-append :
    (s t : Text)
    → all_chars is_ascii_digit s ≡ true
    → no_digit_first t ≡ true
    → split_digits (s ++ t) ≡ (s, t)
unfolding split_digits all_chars
split_digits-append [] [] h k = refl
split_digits-append [] (c ∷ cs) h k = ground arith
split_digits-append (c ∷ cs) t h k = ground (arith, split_digits-append cs t)

decimal_digits : (n : ℕ) → all_chars is_ascii_digit (decimal n) ≡ true
unfolding decimal all_chars
decimal_digits n = all_digits (suc n) n [] refl

decimal_value : (n : ℕ) → n ≤ u64_max → from_digits 10 u64_max 0 (decimal n) ≡ some n
unfolding decimal from_digits
decimal_value n m = digits-from_digits (suc n) n [] (omega arith) m

-- A unit as it is written: no digit in front, no whitespace.
abbrev pub IsUnit : Text → ℕ → Type 0
IsUnit unit multiplier =
    (no_digit_first unit ≡ true)
    × (all_chars is_solid unit ≡ true)
    × (lookup (to_ascii_lowercase unit) units ≡ some multiplier)

-- A number and a unit, in any case, are exactly their product, or refused as too large: a size is
-- never rounded and never wraps. The number is a `u64`, and the unit is one of the table.
pub parse_size-decimal :
    (n : ℕ) (unit : Text) (multiplier : ℕ)
    → n ≤ u64_max
    → IsUnit unit multiplier
    → parse_size (decimal n ++ unit) ≡ (
        if leb (n * multiplier) u64_max
        then ok (n * multiplier)
        else err (too_large (decimal n ++ unit)))
unfolding parse_size from_str_radix
parse_size-decimal n unit multiplier m (front, solid, known) =
    let all : all_chars is_ascii_digit (decimal n) ≡ true = decimal_digits n in
    let whole : trim (decimal n ++ unit) ≡ decimal n ++ unit = trim-solid (decimal n ++ unit) (
      all_chars-append is_solid (decimal n) unit ∙ rw (digits_solid (decimal n) all, solid) refl) in
    let value : from_digits 10 u64_max 0 (decimal n) ≡ some n = decimal_value n m in
    elim (Bool-cases (leb (n * multiplier) u64_max)) [
      | inl e ↦
          rw
            (
              whole,
              split_digits-append (decimal n) unit all front,
              decimal-cons n,
              value,
              trim-solid unit solid,
              known,
              e,
            )
            refl
      | inr e ↦
          rw
            (
              whole,
              split_digits-append (decimal n) unit all front,
              decimal-cons n,
              value,
              trim-solid unit solid,
              known,
              e,
            )
            refl
    ]
