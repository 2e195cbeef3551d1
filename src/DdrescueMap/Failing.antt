-- ===== src/DdrescueMap/Failing.antt =====
-- Where `parse` of src/engines/ddrescue_map.rs fails.
use dfdisk.Prelude.{
  ℕ, suc, ◌+◌, ◌≡◌, ◌⊎◌, inl, inr, refl, some, List, [], ◌∷◌, arith, ◌==◌, Bool-cases, Text,
  get_elem?, take,
}
use dfdisk.Prelude.Results.{ok, err, >>=-eq-err}
use dfdisk.Str.{lines, trim, split_whitespace}
use dfdisk.DdrescueMap.{
  MapBlock, no_position_line, MapError, MapState, push_block, read_block, block_line, parse_pass,
  position_line, data_line, trimmed_line, parse_line, parse_lines, close_map, map_start, parse,
}

-- Every error of a line names that line.
push_block_error :
    (line_no : ℕ) (bs : List MapBlock) (b : MapBlock) {e : MapError}
    → push_block line_no bs b ≡ err e
    → e.line ≡ line_no
unfolding push_block
push_block_error line_no bs b h = ground arith

read_block_error :
    (line_no : ℕ) (line : Text) (fields : List Text) {e : MapError}
    → read_block line_no line fields ≡ err e
    → e.line ≡ line_no
unfolding read_block
read_block_error line_no line (p ∷ n ∷ t ∷ []) h = ground arith
read_block_error line_no line _ h = ground arith

position_line_error :
    (line_no : ℕ) (line : Text) (fields : List Text) {e : MapError}
    → position_line line_no line fields ≡ err e
    → e.line ≡ line_no
unfolding position_line parse_pass
position_line_error line_no line (p ∷ t ∷ []) h = ground arith
position_line_error line_no line (p ∷ t ∷ q ∷ more) h = ground arith
position_line_error line_no line _ h = ground arith

block_line_error :
    (line_no : ℕ) (line : Text) (fields : List Text) (bs : List MapBlock) {e : MapError}
    → block_line line_no line fields bs ≡ err e
    → e.line ≡ line_no
unfolding block_line
block_line_error line_no line fields bs {e} h =
    elim (>>=-eq-err (read_block line_no line fields) (λ b. push_block line_no bs b) h) [
      | inl f ↦ read_block_error line_no line fields f
      | inr (b, r, f) ↦ push_block_error line_no bs b f
    ]

data_line_error :
    (line_no : ℕ) (line : Text) (s : MapState) {e : MapError}
    → data_line line_no line s ≡ err e
    → e.line ≡ line_no
unfolding data_line
data_line_error line_no line s {e} h =
    let fields = split_whitespace line in
    ground (
      arith,
      position_line_error line_no line fields {e = e},
      block_line_error line_no line fields s.blocks {e = e},
    )

trimmed_line_error :
    (line_no : ℕ) (line : Text) (s : MapState) {e : MapError}
    → trimmed_line line_no line s ≡ err e
    → e.line ≡ line_no
unfolding trimmed_line
trimmed_line_error line_no [] s h = absurd (cc)
trimmed_line_error line_no (c ∷ cs) s h = elim (Bool-cases (c == b'#')) [
  | inl t ↦ ground arith
  | inr t ↦ data_line_error line_no (c ∷ cs) s (rw t at h)
]

parse_line_error :
    (line_no : ℕ) (raw : Text) (s : MapState) {e : MapError}
    → parse_line line_no raw s ≡ err e
    → e.line ≡ line_no
unfolding parse_line
parse_line_error line_no raw s = trimmed_line_error line_no (trim raw) s

-- The line `i`, counted from 0, is the first that is refused, and the error is its own.
pub record FailsAt (first : ℕ) (ls : List Text) (s : MapState) (e : MapError) : Type 0 where
  pub index : ℕ
  pub line : Text
  pub before : MapState
  pub present : get_elem? ls index ≡ some line
  pub accepted : parse_lines first (take index ls) s ≡ ok before
  pub refused : parse_line (first + index) line before ≡ err e
  pub numbered : e.line ≡ first + index

parse_lines-FailsAt :
    (first : ℕ) (ls : List Text) (s : MapState) {e : MapError}
    → parse_lines first ls s ≡ err e
    → FailsAt first ls s e
unfolding parse_lines
parse_lines-FailsAt first [] s h = absurd (cc)
parse_lines-FailsAt first (l ∷ ls) s {e} h =
    elim (>>=-eq-err (parse_line first l s) (λ t. parse_lines (first + 1) ls t) h) [
      | inl f ↦
          let here : first + 0 ≡ first = omega arith in
          record {
            index = 0;
            line = l;
            before = s;
            present = refl;
            accepted = refl;
            refused = rw here f;
            numbered = rw here (parse_line_error first l s f);
          }
      | inr (t, r, f) ↦
          let later = parse_lines-FailsAt (first + 1) ls t f in
          let same : first + suc later.index ≡ first + 1 + later.index = omega arith in
          record {
            index = suc later.index;
            line = later.line;
            before = later.before;
            present = later.present;
            accepted = rw r later.accepted;
            refused = rw same later.refused;
            numbered = rw same later.numbered;
          }
    ]

-- A refused text has no position line, which line 0 stands for, or else the error is that of the
-- first line that is refused, under its number from 1, with every line before it accepted.
pub parse-FailsAt :
    (text : Text) {e : MapError}
    → parse text ≡ err e
    → (e ≡ record { line = 0; message = no_position_line }) ⊎ FailsAt 1 (lines text) map_start e
unfolding parse close_map
parse-FailsAt text {e} h = elim (>>=-eq-err (parse_lines 1 (lines text) map_start) close_map h) [
  | inl f ↦ inr (parse_lines-FailsAt 1 (lines text) map_start f)
  | inr (s, r, f) ↦ inl (ground arith)
]
