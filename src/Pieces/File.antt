-- ===== src/Pieces/File.antt =====
-- The pieces file of src/engines/pieces.rs: PieceRecord::to_line, PiecesWriter and PiecesReader. The
-- writer writes to memory, where no write fails; the reader is given a text. A message is a
-- constructor with the values that it shows.
use dfdisk.Prelude.{
  ℕ, zero, suc, ◌+◌, ◌/◌, ◌%◌, true, false, not, ◌&&◌, ◌||◌, List, [], ◌∷◌, ◌++◌, ltb, leb, ◌==◌,
  if◌then◌else◌, checked_add, length, Text, codes, same_text, is_empty,
}
use dfdisk.Prelude.Results.{Result, ok, err, ◌>>=◌, ◌>>◌, refuse_if, ok_or}
use dfdisk.Str.{
  split_on, split, strip_last, is_ascii_digit, is_ascii_hexdigit, all_chars, from_str_radix,
}
use dfdisk.Pieces.{PieceRecord}

abbrev tab : ℕ
tab = 9

abbrev newline : ℕ
newline = 10

-- "index\toffset\tlength\tsha256"
abbrev pub pieces_header : Text
pieces_header =
    codes "index" ++ (tab ∷ codes "offset" ++ (tab ∷ codes "length" ++ (tab ∷ codes "sha256")))

-- The decimal digits of a number, in front of a text. A digit each round.
unfoldable pub digits : ℕ → ℕ → Text → Text
digits zero n rest = rest
digits (suc fuel) n rest = elim (ltb n 10) [
  | true ↦ (b'0' + n) ∷ rest
  | false ↦ digits fuel (n / 10) ((b'0' + n % 10) ∷ rest)
]

unfoldable pub decimal : ℕ → Text
decimal n = digits (suc n) n []

unfoldable pub to_line : PieceRecord → Text
to_line p =
    decimal p.index ++ (tab ∷ decimal p.offset ++ (tab ∷ decimal p.length ++ (tab ∷ p.sha256)))

abbrev pub piece_end : PieceRecord → ℕ
piece_end p = p.offset + p.length

pub record PiecesWriter : Type 0 where
  pub out : Text
  pub count : ℕ
  pub next_offset : ℕ

unfoldable pub new_writer : PiecesWriter
new_writer = record { out = pieces_header ++ newline ∷ []; count = 0; next_offset = 0 }

pub data WriteError : Type 0 where
  does_not_follow : PieceRecord → ℕ → ℕ → WriteError

unfoldable pub write_piece : PiecesWriter → PieceRecord → Result WriteError PiecesWriter
write_piece w p = do
  refuse_if (not (p.index == w.count) || (not (p.offset == w.next_offset) || p.length == 0))
      (does_not_follow p w.count w.next_offset)
  ok (record {
    out = w.out ++ (to_line p ++ newline ∷ []);
    count = w.count + 1;
    next_offset = piece_end p;
  })

pub data Field : Type 0 where
  index_field offset_field length_field : Field

pub data Problem : Type 0 where
  empty_line : Problem
  fields : ℕ → Problem
  not_decimal out_of_range : Field → Problem
  unexpected_index : ℕ → ℕ → Problem
  not_contiguous : ℕ → ℕ → ℕ → Problem
  length_zero not_sha256 beyond_u64 : ℕ → Problem

pub data FileError : Type 0 where
  empty_file : FileError
  not_header : Text → FileError
  bad_line : ℕ → Problem → FileError

-- The reader: the lines that follow, the number of the next one, and the piece expected.
pub record PiecesReader : Type 0 where
  pub line_no : ℕ
  pub next_index : ℕ
  pub next_offset : ℕ

-- The lines as `read_line` gives them, their ends stripped: a final empty piece is no line.
unfoldable pub strip_ends : List Text → List Text
strip_ends [] = []
strip_ends (l ∷ []) = if is_empty l then [] else strip_last 13 l ∷ []
strip_ends (l ∷ m ∷ ls) = strip_last 13 l ∷ strip_ends (m ∷ ls)

unfoldable pub number : ℕ → Field → Text → Result FileError ℕ
unfolding all_chars from_str_radix
number n name s = do
  refuse_if (is_empty s || not (all_chars is_ascii_digit s)) (bad_line n (not_decimal name))
  ok_or (from_str_radix 10 s) (bad_line n (out_of_range name))

abbrev to_lower : ℕ → ℕ
to_lower c = if leb b'A' c && leb c b'Z' then c + 32 else c

unfoldable pub to_ascii_lowercase : Text → Text
to_ascii_lowercase [] = []
to_ascii_lowercase (c ∷ cs) = to_lower c ∷ to_ascii_lowercase cs

-- The checks of a line with four fields.
unfoldable pub read_fields : PiecesReader → Text → Text → Text → Text → Result FileError PieceRecord
unfolding all_chars
read_fields r i o l sha = do
  index ← number r.line_no index_field i
  offset ← number r.line_no offset_field o
  len ← number r.line_no length_field l
  refuse_if (not (index == r.next_index)) (bad_line r.line_no (unexpected_index index r.next_index))
  refuse_if (not (offset == r.next_offset))
      (bad_line r.line_no (not_contiguous index offset r.next_offset))
  refuse_if (len == 0) (bad_line r.line_no (length_zero index))
  refuse_if (not (length sha == 64) || not (all_chars is_ascii_hexdigit sha))
      (bad_line r.line_no (not_sha256 index))
  end ← ok_or (checked_add offset len) (bad_line r.line_no (beyond_u64 index))
  ok (record { index = index; offset = offset; length = len; sha256 = to_ascii_lowercase sha })

unfoldable pub read_line : PiecesReader → Text → List Text → Result FileError PieceRecord
read_line r line (i ∷ o ∷ l ∷ s ∷ []) = read_fields r i o l s
read_line r line parts = err (bad_line r.line_no (fields (length parts)))

unfoldable pub next_piece : PiecesReader → Text → Result FileError (PiecesReader × PieceRecord)
unfolding split_on
next_piece r line = do
  refuse_if (is_empty line) (bad_line r.line_no empty_line)
  p ← read_line r line (split tab line)
  ok (
    record { line_no = r.line_no + 1; next_index = r.next_index + 1; next_offset = piece_end p },
    p,
  )

unfoldable pub read_pieces : PiecesReader → List Text → Result FileError (List PieceRecord)
read_pieces r [] = ok []
read_pieces r (l ∷ ls) = do (next, p) ← next_piece r l; ps ← read_pieces next ls; ok (p ∷ ps)

abbrev pub read_start : PiecesReader
read_start = record { line_no = 2; next_index = 0; next_offset = 0 }

unfoldable pub read_file : List Text → Result FileError (List PieceRecord)
read_file [] = err empty_file
read_file (l ∷ ls) =
    if same_text l pieces_header then read_pieces read_start ls else err (not_header l)

unfoldable pub parse_pieces : Text → Result FileError (List PieceRecord)
unfolding read_file strip_ends
parse_pieces text = read_file (strip_ends (split newline text))
