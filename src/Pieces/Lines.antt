-- ===== src/Pieces/Lines.antt =====
-- A line of the pieces file of src/engines/pieces.rs: its numbers read back, and it splits into its
-- fields.
use dfdisk.Prelude.{
  ℕ, zero, suc, ◌+◌, ◌*◌, ◌/◌, ◌%◌, ◌≤◌, ◌<◌, ◌≡◌, refl, ap, ◌∙◌, Bool, true, false, not, ◌&&◌,
  ◌||◌, some, [], ◌∷◌, ◌++◌, arith, ltb, leb, ◌==◌, length, Text, is_empty, u64_max, Bool-cases,
  inl, inr,
}
use dfdisk.Prelude.Results.{ok}
use dfdisk.Str.{
  split_on, split, is_ascii_digit, is_ascii_hexdigit, all_chars, from_str_radix, from_digits,
  digit_value,
}
use dfdisk.Pieces.{PieceRecord}
use dfdisk.Pieces.File.{digits, decimal, to_line, piece_end, Field, number, to_ascii_lowercase}

pub from_digits-step :
    (a d : ℕ) (rest : Text)
    → d < 10
    → a * 10 + d ≤ u64_max
    → from_digits 10 u64_max a ((b'0' + d) ∷ rest) ≡ from_digits 10 u64_max (a * 10 + d) rest
unfolding from_digits
from_digits-step a d rest h m =
    let value : digit_value (b'0' + d) ≡ d = ground arith in
    let small : ltb d 10 ≡ true = ground arith in
    let fits : leb (a * 10 + d) u64_max ≡ true = ground arith in
    rw (value, small, fits, from_digits) (ap (λ v. from_digits 10 u64_max (a * 10 + v) rest) value)

-- A decimal number reads back, in front of any text.
pub digits-from_digits :
    (fuel n : ℕ) (rest : Text)
    → n < fuel
    → n ≤ u64_max
    → from_digits 10 u64_max 0 (digits fuel n rest) ≡ from_digits 10 u64_max n rest
unfolding digits from_digits
digits-from_digits zero n rest h m = absurd (omega arith)
digits-from_digits (suc fuel) n rest h m = elim (Bool-cases (ltb n 10)) [
  | inl e ↦
      rw (e, digits)
        (from_digits-step 0 n rest (ground arith) (omega arith)
          ∙ ap (λ v. from_digits 10 u64_max v rest) (omega arith))
  | inr e ↦
      let big : 10 ≤ n = ground arith in
      let same : n / 10 * 10 + n % 10 ≡ n = omega arith in
      rw (e, digits)
        (digits-from_digits fuel (n / 10) ((b'0' + n % 10) ∷ rest) (omega arith) (omega arith)
          ∙ from_digits-step (n / 10) (n % 10) rest (omega arith) (omega arith)
          ∙ ap (λ v. from_digits 10 u64_max v rest) same)
]

-- Digits in front of a text: all of them are digits, and there is one.
pub all_digits :
    (fuel n : ℕ) (rest : Text)
    → all_chars is_ascii_digit rest ≡ true
    → all_chars is_ascii_digit (digits fuel n rest) ≡ true
unfolding digits all_chars
all_digits zero n rest h = h
all_digits (suc fuel) n rest h = elim (Bool-cases (ltb n 10)) [
  | inl e ↦ rw (e, digits) (ground arith)
  | inr e ↦ rw (e, digits) (all_digits fuel (n / 10) ((b'0' + n % 10) ∷ rest) (ground arith))
]

pub digits-cons :
    (fuel n : ℕ) (rest : Text) → is_empty rest ≡ false → is_empty (digits fuel n rest) ≡ false
unfolding digits
digits-cons zero n rest h = h
digits-cons (suc fuel) n rest h = elim (Bool-cases (ltb n 10)) [
  | inl e ↦ rw (e, digits) refl
  | inr e ↦ rw (e, digits) (digits-cons fuel (n / 10) ((b'0' + n % 10) ∷ rest) refl)
]

pub decimal-cons : (n : ℕ) → is_empty (decimal n) ≡ false
unfolding decimal digits
decimal-cons n = elim (Bool-cases (ltb n 10)) [
  | inl e ↦ rw (e, digits) refl
  | inr e ↦ rw (e, digits) (digits-cons n (n / 10) ((b'0' + n % 10) ∷ []) refl)
]

pub decimal-number : (line n : ℕ) (name : Field) → n ≤ u64_max → number line name (decimal n) ≡ ok n
unfolding number from_str_radix decimal
decimal-number line n name m =
    let full = decimal-cons n in
    let all = all_digits (suc n) n [] refl in
    let value : from_digits 10 u64_max 0 (digits (suc n) n []) ≡ some n =
      digits-from_digits (suc n) n [] (omega arith) m ∙ unfold from_digits in refl in
    rw (full, all, value) refl

-- No character of the text is the separator.
unfoldable pub free : ℕ → Text → Bool
free sep [] = true
free sep (c ∷ cs) = not (c == sep) && free sep cs

pub split-cons :
    (sep : ℕ) (xs ys : Text) → free sep xs ≡ true → split sep (xs ++ (sep ∷ ys)) ≡ xs ∷ split sep ys
unfolding split_on free
split-cons sep [] ys h = ground arith
split-cons sep (x ∷ xs) ys h = ground (arith, split-cons sep xs ys)

pub split-free : (sep : ℕ) (xs : Text) → free sep xs ≡ true → split sep xs ≡ xs ∷ []
unfolding split_on free
split-free sep [] h = refl
split-free sep (x ∷ xs) h = ground (arith, split-free sep xs)

pub free-append : (sep : ℕ) (xs ys : Text) → free sep (xs ++ ys) ≡ (free sep xs && free sep ys)
unfolding free
free-append sep [] ys = refl
free-append sep (x ∷ xs) ys = ground (arith, free-append sep xs ys)

pub digit-free :
    (sep : ℕ) (xs : Text) → sep < 48 → all_chars is_ascii_hexdigit xs ≡ true → free sep xs ≡ true
unfolding all_chars free
digit-free sep [] h a = refl
digit-free sep (x ∷ xs) h a = ground (arith, digit-free sep xs h)

pub digit_hex :
    (xs : Text) → all_chars is_ascii_digit xs ≡ true → all_chars is_ascii_hexdigit xs ≡ true
unfolding all_chars
digit_hex [] a = refl
digit_hex (x ∷ xs) a = ground (arith, digit_hex xs)

pub decimal-free : (sep n : ℕ) → sep < 48 → free sep (decimal n) ≡ true
unfolding decimal all_chars
decimal-free sep n h =
    digit-free sep (decimal n) h (digit_hex (decimal n) (all_digits (suc n) n [] refl))

pub cons_append : (xs ys : Text) → is_empty xs ≡ false → is_empty (xs ++ ys) ≡ false
cons_append [] ys h = absurd (cc)
cons_append (x ∷ xs) ys h = refl

-- A digest as `hex::encode` prints it: 64 lower-case digits.
abbrev pub is_lower_hex : ℕ → Bool
is_lower_hex c = is_ascii_digit c || leb b'a' c && leb c b'f'

abbrev pub IsSha256 : Text → Type 0
IsSha256 t = (length t ≡ 64) × (all_chars is_lower_hex t ≡ true)

pub lower_hex : (t : Text) → all_chars is_lower_hex t ≡ true → all_chars is_ascii_hexdigit t ≡ true
unfolding all_chars
lower_hex [] a = refl
lower_hex (c ∷ cs) a = ground (arith, lower_hex cs)

pub lower_same : (t : Text) → all_chars is_lower_hex t ≡ true → to_ascii_lowercase t ≡ t
unfolding all_chars to_ascii_lowercase
lower_same [] a = refl
lower_same (c ∷ cs) a = ground (arith, lower_same cs)

-- The piece can be written: its numbers and its end are `u64`s.
abbrev pub IsWritable : PieceRecord → Type 0
IsWritable p = (p.index ≤ u64_max) × (piece_end p ≤ u64_max) × IsSha256 p.sha256

pub to_line-free :
    (sep : ℕ) (p : PieceRecord)
    → IsWritable p
    → sep < 48
    → sep == 9 ≡ false
    → free sep (to_line p) ≡ true
unfolding to_line free
to_line-free sep p w h n = ground (
  arith,
  free-append sep (decimal p.index)
      (9 ∷ decimal p.offset ++ (9 ∷ decimal p.length ++ (9 ∷ p.sha256))),
  free-append sep (decimal p.offset) (9 ∷ decimal p.length ++ (9 ∷ p.sha256)),
  free-append sep (decimal p.length) (9 ∷ p.sha256),
  decimal-free sep p.index h,
  decimal-free sep p.offset h,
  decimal-free sep p.length h,
  digit-free sep p.sha256 h (lower_hex p.sha256 w.2.1),
)

pub split-to_line :
    (p : PieceRecord)
    → IsWritable p
    → split 9 (to_line p) ≡ decimal p.index ∷ decimal p.offset ∷ decimal p.length ∷ p.sha256 ∷ []
unfolding to_line
split-to_line p w =
    split-cons 9 (decimal p.index) _ (decimal-free 9 p.index (omega arith))
    ∙ ap (λ l. decimal p.index ∷ l)
        (split-cons 9 (decimal p.offset) _ (decimal-free 9 p.offset (omega arith)))
    ∙ ap (λ l. decimal p.index ∷ decimal p.offset ∷ l)
        (split-cons 9 (decimal p.length) _ (decimal-free 9 p.length (omega arith)))
    ∙ ap (λ l. decimal p.index ∷ decimal p.offset ∷ decimal p.length ∷ l)
        (split-free 9 p.sha256 (digit-free 9 p.sha256 (omega arith) (lower_hex p.sha256 w.2.1)))
