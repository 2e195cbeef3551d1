-- ===== src/DdrescueMap/Parsing.antt =====
-- What `parse` of src/engines/ddrescue_map.rs accepts, and where it fails.
use dfdisk.Prelude.{
  ℕ, ◌+◌, ◌≤◌, ◌<◌, ◌≡◌, inl, inr, refl, none, some, List, [], ◌∷◌, ◌++◌, arith, ◌==◌, u64_max,
  Bool-cases, Text,
}
use dfdisk.Prelude.Results.{ok, >>=-eq-ok, Result-cases}
use dfdisk.ReadErrors.{last?}
use dfdisk.Str.{lines, trim, split_whitespace}
use dfdisk.DdrescueMap.{
  MapBlock, end, Mapfile, MapState, push_block, read_block, block_line, data_line, trimmed_line,
  parse_line, parse_lines, close_map, map_start, parse,
}
use dfdisk.DdrescueMap.Image.{AreOrdered}

-- The end of the last block, or `c`.
last_end : ℕ → List MapBlock → ℕ
last_end c [] = c
last_end c (b ∷ bs) = last_end (end b) bs

last_end-last? :
    (c : ℕ) (bs : List MapBlock) → last_end c bs ≡ elim (last? bs) [ none ↦ c | some p ↦ end p ]
unfolding last_end
last_end-last? c [] = refl
last_end-last? c (b ∷ []) = refl
last_end-last? c (b ∷ d ∷ bs) = last_end-last? c (d ∷ bs)

append-AreOrdered :
    (c : ℕ) (bs : List MapBlock) (b : MapBlock)
    → AreOrdered c bs
    → last_end c bs ≤ b.pos
    → 0 < b.size
    → end b ≤ u64_max
    → AreOrdered c (bs ++ b ∷ [])
unfolding last_end
append-AreOrdered c [] b o h l m = (h, l, m, tt)
append-AreOrdered c (a ∷ bs) b o h l m = (o.0, o.1, o.2, append-AreOrdered (end a) bs b o.3 h l m)

push_block-AreOrdered :
    (line_no : ℕ) (bs : List MapBlock) (b : MapBlock) {cs : List MapBlock}
    → AreOrdered 0 bs
    → push_block line_no bs b ≡ ok cs
    → AreOrdered 0 cs
unfolding push_block
push_block-AreOrdered line_no bs b o e =
    ground (arith, last_end-last? 0 bs, append-AreOrdered 0 bs b o)

block_line-AreOrdered :
    (line_no : ℕ) (line : Text) (fields : List Text) (bs : List MapBlock) {cs : List MapBlock}
    → AreOrdered 0 bs
    → block_line line_no line fields bs ≡ ok cs
    → AreOrdered 0 cs
unfolding block_line
block_line-AreOrdered line_no line fields bs o e =
    let (b, fields_ok, pushed) =
      >>=-eq-ok (read_block line_no line fields) (λ b. push_block line_no bs b) e in
    push_block-AreOrdered line_no bs b o pushed

data_line-AreOrdered :
    (line_no : ℕ) (line : Text) (s : MapState) {t : MapState}
    → AreOrdered 0 s.blocks
    → data_line line_no line s ≡ ok t
    → AreOrdered 0 t.blocks
unfolding data_line
data_line-AreOrdered line_no line s {t} o e =
    elim (Result-cases (block_line line_no line (split_whitespace line) s.blocks)) [
      | inl (cs, f) ↦
          ground (arith, block_line-AreOrdered line_no line (split_whitespace line) s.blocks o f)
      | inr (x, f) ↦ ground arith
    ]

trimmed_line-AreOrdered :
    (line_no : ℕ) (line : Text) (s : MapState) {t : MapState}
    → AreOrdered 0 s.blocks
    → trimmed_line line_no line s ≡ ok t
    → AreOrdered 0 t.blocks
unfolding trimmed_line
trimmed_line-AreOrdered line_no [] s o e = ground arith
trimmed_line-AreOrdered line_no (c ∷ cs) s o e = elim (Bool-cases (c == b'#')) [
  | inl h ↦ ground arith
  | inr h ↦ data_line-AreOrdered line_no (c ∷ cs) s o (rw h at e)
]

parse_line-AreOrdered :
    (line_no : ℕ) (raw : Text) (s : MapState) {t : MapState}
    → AreOrdered 0 s.blocks
    → parse_line line_no raw s ≡ ok t
    → AreOrdered 0 t.blocks
unfolding parse_line
parse_line-AreOrdered line_no raw s = trimmed_line-AreOrdered line_no (trim raw) s

parse_lines-AreOrdered :
    (line_no : ℕ) (ls : List Text) (s : MapState) {t : MapState}
    → AreOrdered 0 s.blocks
    → parse_lines line_no ls s ≡ ok t
    → AreOrdered 0 t.blocks
unfolding parse_lines
parse_lines-AreOrdered line_no [] s o e = ground arith
parse_lines-AreOrdered line_no (l ∷ ls) s o e =
    let (t, first, rest) =
      >>=-eq-ok (parse_line line_no l s) (λ t. parse_lines (line_no + 1) ls t) e in
    parse_lines-AreOrdered (line_no + 1) ls t (parse_line-AreOrdered line_no l s o first) rest

-- Whatever text is accepted, the blocks of the map ascend without overlap, none is empty, and none
-- ends beyond 2^64 - 1.
pub parse-AreOrdered : (text : Text) {m : Mapfile} → parse text ≡ ok m → AreOrdered 0 m.blocks
unfolding parse close_map
parse-AreOrdered text e =
    let (s, read, closed) = >>=-eq-ok (parse_lines 1 (lines text) map_start) close_map e in
    ground (arith, parse_lines-AreOrdered 1 (lines text) map_start tt read)
