-- ===== src/DdrescueMap.antt =====
-- src/engines/ddrescue_map.rs: the mapfile of GNU ddrescue, and what it says about an image. A
-- message is a constructor with the values that it shows.
pub mod Assess
pub mod Parsing
pub mod Failing
pub mod Image
use dfdisk.Prelude.{
  ℕ, ◌+◌, ◌-◌, ◌*◌, ◌/◌, Bool, true, false, not, ◌&&◌, ◌||◌, Option, none, some, List, [], ◌∷◌,
  ◌++◌, ltb, leb, ◌==◌, if◌then◌else◌, checked_add, div_ceil, min, max, Text, codes, is_empty,
  strip_prefix, length,
}
use dfdisk.Prelude.Results.{Result, ok, err, ◌>>=◌, ◌>>◌, refuse_if, ok_or}
use dfdisk.ReadErrors.{RangeKind, substituted, unread, ReadErrorTable, empty_table, push, last?}
use dfdisk.Str.{
  trim, lines, split_whitespace, all_chars, is_ascii_digit, is_ascii_hexdigit, from_str_radix,
  parse_u32,
}

pub data BlockStatus : Type 0 where
  non_tried non_trimmed non_scraped bad_sector finished : BlockStatus

unfoldable pub from_char : ℕ → Option BlockStatus
from_char c =
    if c == b'?'
    then some non_tried
    else if c == b'*'
    then some non_trimmed
    else if c == b'/'
    then some non_scraped
    else if c == b'-'
    then some bad_sector
    else if c == b'+'
    then some finished
    else none

unfoldable pub as_char : BlockStatus → ℕ
as_char non_tried = b'?'
as_char non_trimmed = b'*'
as_char non_scraped = b'/'
as_char bad_sector = b'-'
as_char finished = b'+'

unfoldable pub range_kind : BlockStatus → Option RangeKind
range_kind finished = none
range_kind bad_sector = some substituted
range_kind non_tried = some unread
range_kind non_trimmed = some unread
range_kind non_scraped = some unread

abbrev pub same_status : BlockStatus → BlockStatus → Bool
same_status non_tried non_tried = true
same_status non_trimmed non_trimmed = true
same_status non_scraped non_scraped = true
same_status bad_sector bad_sector = true
same_status finished finished = true
same_status _ _ = false

pub record MapBlock : Type 0 where
  pub pos : ℕ
  pub size : ℕ
  pub status : BlockStatus

-- The sum of two `u64`s, with no wrap: `parse` refuses a block that would need one.
abbrev pub end : MapBlock → ℕ
end b = b.pos + b.size

pub record Mapfile : Type 0 where
  pub current_pos : ℕ
  pub current_status : ℕ
  pub current_pass : Option ℕ
  pub blocks : List MapBlock
  pub comments : List Text

pub data Message : Type 0 where
  expected_position_line : Text → Message
  invalid_position invalid_current_status invalid_pass : Text → Message
  expected_block_line : Text → Message
  invalid_block_position invalid_block_size invalid_block_status : Text → Message
  empty_block : ℕ → Message
  beyond_u64 : ℕ → ℕ → Message
  overlaps : ℕ → ℕ → Message
  no_position_line : Message

pub record MapError : Type 0 where
  pub line : ℕ
  pub message : Message

-- `0x` hexadecimal, a leading `0` octal, otherwise decimal.
abbrev hex_digits : Text → Option Text
hex_digits t = elim (strip_prefix (codes "0x") t) [
  | none ↦ strip_prefix (codes "0X") t
  | some h ↦ some h
]

unfoldable pub decimal_or_octal : Text → Option ℕ
unfolding all_chars from_str_radix
decimal_or_octal [] = none
decimal_or_octal (c ∷ cs) =
    if not (all_chars is_ascii_digit (c ∷ cs))
    then none
    else if ltb 1 (length (c ∷ cs)) && c == b'0'
    then from_str_radix 8 cs
    else from_str_radix 10 (c ∷ cs)

unfoldable pub parse_number : Text → Option ℕ
unfolding trim strip_prefix all_chars from_str_radix decimal_or_octal
parse_number token =
    let t = trim token in
    elim (hex_digits t) [
      | some hex ↦
          if is_empty hex || not (all_chars is_ascii_hexdigit hex)
          then none
          else from_str_radix 16 hex
      | none ↦ decimal_or_octal t
    ]

abbrev status_char : Text → Option ℕ
status_char (c ∷ []) = some c
status_char _ = none

-- `"?*/-FG+".contains(c)`
abbrev is_current_status : ℕ → Bool
is_current_status c =
    c == b'?' || c == b'*' || c == b'/' || c == b'-' || c == b'F' || c == b'G' || c == b'+'

abbrev keep {ℓ} : {A : Type ℓ} → (A → Bool) → Option A → Option A
keep p none = none
keep p (some a) = if p a then some a else none

-- The position line, once read.
pub record Position : Type 0 where
  pub pos : ℕ
  pub status : ℕ
  pub pass : Option ℕ

-- The variables of the loop of `parse`.
pub record MapState : Type 0 where
  pub comments : List Text
  pub status_line : Option Position
  pub blocks : List MapBlock

unfoldable pub parse_pass : ℕ → List Text → Result MapError (Option ℕ)
unfolding parse_u32
parse_pass line_no [] = ok none
parse_pass line_no (p ∷ ps) = elim (parse_u32 p) [
  | some n ↦ ok (some n)
  | none ↦ err (record { line = line_no; message = invalid_pass p })
]

unfoldable pub position_line : ℕ → Text → List Text → Result MapError Position
position_line line_no line (p ∷ s ∷ more) = do
  refuse_if (ltb 1 (length more)) (record { line = line_no; message = expected_position_line line })
  pos ← ok_or (parse_number p) (record { line = line_no; message = invalid_position p })
  status ←
      ok_or (keep is_current_status (status_char s))
        (record { line = line_no; message = invalid_current_status s })
  pass ← parse_pass line_no more
  ok (record { pos = pos; status = status; pass = pass })
position_line line_no line _ =
    err (record { line = line_no; message = expected_position_line line })

unfoldable pub block_status : Text → Option BlockStatus
unfolding from_char
block_status s = elim (status_char s) [ none ↦ none | some c ↦ from_char c ]

-- The checks of a block against the list that it is pushed to.
unfoldable pub push_block : ℕ → List MapBlock → MapBlock → Result MapError (List MapBlock)
push_block line_no blocks b = do
  refuse_if (b.size == 0) (record { line = line_no; message = empty_block b.pos })
  e ←
      ok_or (checked_add b.pos b.size)
        (record { line = line_no; message = beyond_u64 b.pos b.size })
  elim (last? blocks) [
    | none ↦ ok (blocks ++ b ∷ [])
    | some prev ↦
        if ltb b.pos (end prev)
        then err (record { line = line_no; message = overlaps b.pos (end prev) })
        else ok (blocks ++ b ∷ [])
  ]

-- The fields of a block line.
unfoldable pub read_block : ℕ → Text → List Text → Result MapError MapBlock
read_block line_no line (p ∷ n ∷ s ∷ []) = do
  pos ← ok_or (parse_number p) (record { line = line_no; message = invalid_block_position p })
  size ← ok_or (parse_number n) (record { line = line_no; message = invalid_block_size n })
  status ← ok_or (block_status s) (record { line = line_no; message = invalid_block_status s })
  ok (record { pos = pos; size = size; status = status })
read_block line_no line _ = err (record { line = line_no; message = expected_block_line line })

unfoldable pub block_line : ℕ → Text → List Text → List MapBlock → Result MapError (List MapBlock)
block_line line_no line fields blocks = do
  b ← read_block line_no line fields
  push_block line_no blocks b

-- A line that is neither empty nor a comment.
unfoldable pub data_line : ℕ → Text → MapState → Result MapError MapState
data_line line_no line s = elim s.status_line [
  | none ↦ do
    p ← position_line line_no line (split_whitespace line)
    ok (record s { status_line = some p })
  | some p ↦ do
    blocks ← block_line line_no line (split_whitespace line) s.blocks
    ok (record s { blocks = blocks })
]

unfoldable pub trimmed_line : ℕ → Text → MapState → Result MapError MapState
trimmed_line line_no [] s = ok s
trimmed_line line_no (c ∷ cs) s =
    if c == b'#'
    then ok (record s { comments = s.comments ++ trim cs ∷ [] })
    else data_line line_no (c ∷ cs) s

unfoldable pub parse_line : ℕ → Text → MapState → Result MapError MapState
parse_line line_no raw s = trimmed_line line_no (trim raw) s

-- `line_no` is the number of the next line.
unfoldable pub parse_lines : ℕ → List Text → MapState → Result MapError MapState
parse_lines line_no [] s = ok s
parse_lines line_no (l ∷ ls) s = do s' ← parse_line line_no l s; parse_lines (line_no + 1) ls s'

unfoldable pub close_map : MapState → Result MapError Mapfile
close_map s = do
  p ← ok_or s.status_line (record { line = 0; message = no_position_line })
  ok (record {
    current_pos = p.pos;
    current_status = p.status;
    current_pass = p.pass;
    blocks = s.blocks;
    comments = s.comments;
  })

abbrev pub map_start : MapState
map_start = record { comments = []; status_line = none; blocks = [] }

unfoldable pub parse : Text → Result MapError Mapfile
parse text = do s ← parse_lines 1 (lines text) map_start; close_map s
