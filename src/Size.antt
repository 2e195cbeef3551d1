-- ===== src/Size.antt =====
-- src/cli/size.rs: exact sizes on the command line. A message is a constructor with what it shows.
pub mod Exact
use dfdisk.Prelude.{
  ℕ, ◌^◌, Bool, true, false, ◌&&◌, Option, none, some, List, [], ◌∷◌, leb, if◌then◌else◌,
  checked_mul, ◌==◌, Text, codes, same_text, is_empty,
}
use dfdisk.Prelude.Results.{Result, ok, err, ◌>>=◌, ◌>>◌, refuse_if, ok_or}
use dfdisk.Str.{trim, is_ascii_digit, from_str_radix}
use dfdisk.Pieces.File.{to_ascii_lowercase}

pub data SizeError : Type 0 where
  not_a_size too_large : Text → SizeError
  unknown_unit : Text → Text → SizeError
  piece_size_zero : SizeError

-- `find` of the first character that is not a digit, and `split_at` there.
unfoldable pub split_digits : Text → Text × Text
split_digits [] = ([], [])
split_digits (c ∷ cs) =
    let (front, back) = split_digits cs in
    if is_ascii_digit c then (c ∷ front, back) else ([], c ∷ cs)

abbrev pub units : List (Text × ℕ)
units =
    ([], 1)
    ∷ (codes "b", 1)
    ∷ (codes "k", 2 ^ 10)
    ∷ (codes "kib", 2 ^ 10)
    ∷ (codes "m", 2 ^ 20)
    ∷ (codes "mib", 2 ^ 20)
    ∷ (codes "g", 2 ^ 30)
    ∷ (codes "gib", 2 ^ 30)
    ∷ (codes "t", 2 ^ 40)
    ∷ (codes "tib", 2 ^ 40)
    ∷ (codes "kb", 1000)
    ∷ (codes "mb", 1000000)
    ∷ (codes "gb", 1000000000)
    ∷ (codes "tb", 1000000000000)
    ∷ []

-- The arms of the `match` on the unit, in order.
unfoldable pub lookup : Text → List (Text × ℕ) → Option ℕ
unfolding same_text
lookup t [] = none
lookup t ((unit, multiplier) ∷ us) = if same_text t unit then some multiplier else lookup t us

unfoldable pub parse_size : Text → Result SizeError ℕ
parse_size text =
    let (front, back) = split_digits (trim text) in
    let unit = to_ascii_lowercase (trim back) in
    do
      refuse_if (is_empty front) (not_a_size text)
      n ← ok_or (from_str_radix 10 front) (too_large text)
      multiplier ← ok_or (lookup unit units) (unknown_unit text unit)
      ok_or (checked_mul n multiplier) (too_large text)

-- `PieceSize`: none for `off`.
unfoldable pub parse_piece_size : Text → Result SizeError (Option ℕ)
parse_piece_size text =
    if same_text (to_ascii_lowercase (trim text)) (codes "off")
    then ok none
    else do bytes ← parse_size text; refuse_if (bytes == 0) piece_size_zero; ok (some bytes)
