-- ===== src/Pieces/Accepted.antt =====
-- What the reader of src/engines/pieces.rs accepts.
use dfdisk.Prelude.{
  ℕ, ◌+◌, ◌≤◌, ◌<◌, ◌≡◌, sym, List, [], ◌∷◌, arith, Text, u64_max, same_text, Bool-cases, inl, inr,
  is_empty,
}
use dfdisk.Prelude.Results.{ok, refuse_if, >>=-eq-ok}
use dfdisk.Str.{split}
use dfdisk.Pieces.{PieceRecord}
use dfdisk.Pieces.File.{
  piece_end, pieces_header, strip_ends, PiecesReader, read_fields, read_line, next_piece,
  read_pieces, read_start, read_file, parse_pieces,
}

-- The pieces are numbered from `i` and contiguous from `o`; none is empty or ends beyond a `u64`.
abbrev pub AreContiguous : ℕ → ℕ → List PieceRecord → Type 0
AreContiguous i o [] = Unit
AreContiguous i o (p ∷ ps) =
    (p.index ≡ i)
    × (p.offset ≡ o)
    × (0 < p.length)
    × (piece_end p ≤ u64_max)
    × AreContiguous (i + 1) (piece_end p) ps

read_fields-ok :
    (r : PiecesReader) (i o l sha : Text) (p : PieceRecord)
    → read_fields r i o l sha ≡ ok p
    → (p.index ≡ r.next_index)
      × (p.offset ≡ r.next_offset)
      × (0 < p.length)
      × (piece_end p ≤ u64_max)
unfolding read_fields
read_fields-ok r i o l sha p e = ground arith

read_line-ok :
    (r : PiecesReader) (line : Text) (parts : List Text) (p : PieceRecord)
    → read_line r line parts ≡ ok p
    → (p.index ≡ r.next_index)
      × (p.offset ≡ r.next_offset)
      × (0 < p.length)
      × (piece_end p ≤ u64_max)
unfolding read_line
read_line-ok r line (i ∷ o ∷ l ∷ s ∷ []) p e = read_fields-ok r i o l s p e
read_line-ok r line _ p e = absurd (cc)

next_piece-ok :
    (r : PiecesReader) (line : Text) (n : PiecesReader) (p : PieceRecord)
    → next_piece r line ≡ ok (n, p)
    → (p.index ≡ r.next_index)
      × (p.offset ≡ r.next_offset)
      × (0 < p.length)
      × (piece_end p ≤ u64_max)
      × (n.next_index ≡ r.next_index + 1)
      × (n.next_offset ≡ piece_end p)
unfolding next_piece
next_piece-ok r line n p e =
    let (u, filled, rest) = >>=-eq-ok (refuse_if (is_empty line) _) _ e in
    let (q, read, last) = >>=-eq-ok (read_line r line (split 9 line)) _ rest in
    ground (arith, read_line-ok r line (split 9 line) q read, last)

read_pieces-AreContiguous :
    (r : PiecesReader) (ls : List Text) (ps : List PieceRecord)
    → read_pieces r ls ≡ ok ps
    → AreContiguous r.next_index r.next_offset ps
unfolding read_pieces
read_pieces-AreContiguous r [] ps e = ground arith
read_pieces-AreContiguous r (l ∷ ls) ps e =
    let ((n, p), first, rest) = >>=-eq-ok (next_piece r l) _ e in
    let (qs, others, last) = >>=-eq-ok (read_pieces n ls) _ rest in
    let (i, o, len, end, next, from) = next_piece-ok r l n p first in
    let later = read_pieces-AreContiguous n ls qs others in
    let same : ps ≡ p ∷ qs = ground (arith, last) in
    rw same (i, o, len, end, rw (sym next, sym from) later)

read_file-AreContiguous :
    (ls : List Text) (ps : List PieceRecord) → read_file ls ≡ ok ps → AreContiguous 0 0 ps
unfolding read_file
read_file-AreContiguous [] ps e = absurd (cc)
read_file-AreContiguous (l ∷ ls) ps e = elim (Bool-cases (same_text l pieces_header)) [
  | inl b ↦ read_pieces-AreContiguous read_start ls ps (ground arith)
  | inr b ↦ absurd (ground arith)
]

-- Whatever text is accepted as a pieces file, its pieces are numbered from 0 and contiguous from
-- offset 0, none is empty, and none ends beyond 2^64 - 1.
pub parse_pieces-AreContiguous :
    (text : Text) {ps : List PieceRecord} → parse_pieces text ≡ ok ps → AreContiguous 0 0 ps
unfolding parse_pieces
parse_pieces-AreContiguous text {ps} e = read_file-AreContiguous (strip_ends (split 10 text)) ps e
