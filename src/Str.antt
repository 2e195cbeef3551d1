-- ===== src/Str.antt =====
-- The methods of Rust's `str` that the program uses, on lists of code points.
use dfdisk.Prelude.{
  ℕ, ◌+◌, ◌-◌, ◌*◌, Bool, true, false, ◌&&◌, ◌||◌, Option, none, some, List, [], ◌∷◌, ltb, leb,
  ◌==◌, if◌then◌else◌, u64_max, Text, is_empty,
}

-- `char::is_whitespace`, Unicode's `White_Space`
unfoldable pub is_whitespace : ℕ → Bool
is_whitespace c =
    c == 32
    || leb 9 c && leb c 13
    || c == 133
    || c == 160
    || c == 5760
    || leb 8192 c && leb c 8202
    || c == 8232
    || c == 8233
    || c == 8239
    || c == 8287
    || c == 12288

unfoldable pub trim_start : Text → Text
trim_start [] = []
trim_start (c ∷ cs) = elim (is_whitespace c) [ true ↦ trim_start cs | false ↦ c ∷ cs ]

unfoldable pub trim_end : Text → Text
trim_end [] = []
trim_end (c ∷ cs) =
    let rest = trim_end cs in if is_empty rest && is_whitespace c then [] else c ∷ rest

unfoldable pub trim : Text → Text
unfolding trim_start trim_end is_whitespace
trim s = trim_end (trim_start s)

-- The pieces between the separators: the first, and the others.
unfoldable pub split_on : ℕ → Text → Text × List Text
split_on sep [] = ([], [])
split_on sep (c ∷ cs) =
    let (first, others) = split_on sep cs in
    if c == sep then ([], first ∷ others) else (c ∷ first, others)

abbrev pub split : ℕ → Text → List Text
split sep s = let (first, others) = split_on sep s in first ∷ others

-- `strip_suffix` of one character
unfoldable pub strip_last : ℕ → Text → Text
strip_last d [] = []
strip_last d (c ∷ []) = if c == d then [] else c ∷ []
strip_last d (c ∷ e ∷ cs) = c ∷ strip_last d (e ∷ cs)

-- A final empty piece is no line; a carriage return in front of a line feed belongs to the end of the
-- line.
unfoldable pub as_lines : List Text → List Text
as_lines [] = []
as_lines (l ∷ []) = if is_empty l then [] else l ∷ []
as_lines (l ∷ m ∷ ls) = strip_last 13 l ∷ as_lines (m ∷ ls)

unfoldable pub lines : Text → List Text
unfolding split_on as_lines strip_last
lines s = as_lines (split 10 s)

abbrev add_word : Text → List Text → List Text
add_word [] ws = ws
add_word (c ∷ cs) ws = (c ∷ cs) ∷ ws

unfoldable pub scan_words : Text → Text × List Text
scan_words [] = ([], [])
scan_words (c ∷ cs) =
    let (w, ws) = scan_words cs in if is_whitespace c then ([], add_word w ws) else (c ∷ w, ws)

unfoldable pub split_whitespace : Text → List Text
unfolding scan_words is_whitespace
split_whitespace s = let (w, ws) = scan_words s in add_word w ws

abbrev pub is_ascii_digit : ℕ → Bool
is_ascii_digit c = leb b'0' c && leb c b'9'

abbrev pub is_ascii_hexdigit : ℕ → Bool
is_ascii_hexdigit c = is_ascii_digit c || leb b'a' c && leb c b'f' || leb b'A' c && leb c b'F'

unfoldable pub all_chars : (ℕ → Bool) → Text → Bool
all_chars p [] = true
all_chars p (c ∷ cs) = p c && all_chars p cs

-- `char::to_digit`
abbrev pub digit_value : ℕ → ℕ
digit_value c =
    if is_ascii_digit c
    then c - b'0'
    else if leb b'a' c && leb c b'f'
    then c - b'a' + 10
    else if leb b'A' c && leb c b'F'
    then c - b'A' + 10
    else 36

-- `from_str_radix` on a text of digits: the digits one by one, each step checked against `max`.
unfoldable pub from_digits : ℕ → ℕ → ℕ → Text → Option ℕ
from_digits radix max acc [] = some acc
from_digits radix max acc (c ∷ cs) =
    let v = acc * radix + digit_value c in
    elim (ltb (digit_value c) radix && leb v max) [
      | true ↦ from_digits radix max v cs
      | false ↦ none
    ]

-- `u64::from_str_radix` where every character is an ASCII digit of some radix, so that no sign
-- stands in front: an empty text is an error.
unfoldable pub from_str_radix : ℕ → Text → Option ℕ
unfolding from_digits
from_str_radix radix s = if is_empty s then none else from_digits radix u64_max 0 s

-- `u32` parsing, which takes a leading `+`.
abbrev pub u32_max : ℕ
u32_max = 4294967295

strip_plus : Text → Text
strip_plus [] = []
strip_plus (c ∷ cs) = if c == b'+' then cs else c ∷ cs

unfoldable pub parse_u32 : Text → Option ℕ
unfolding strip_plus from_digits
parse_u32 s =
    let digits = strip_plus s in if is_empty digits then none else from_digits 10 u32_max 0 digits
