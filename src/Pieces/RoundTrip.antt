-- ===== src/Pieces/RoundTrip.antt =====
-- The pieces file of src/engines/pieces.rs: what is written reads back.
use dfdisk.Prelude.{
  ℕ, ◌+◌, ◌<◌, ◌≡◌, refl, sym, ap, ◌∙◌, true, false, List, [], ◌∷◌, ◌++◌, arith, leb, ◌==◌, length,
  Text, same_text, same_text_iff, is_empty, u64_max,
}
use mathlib.Core.List.{append-nil, append_assoc}
use dfdisk.Prelude.Results.{Result, ok, ◌>>=◌, >>=-eq-ok}
use dfdisk.Str.{split_on, split, strip_last}
use dfdisk.Pieces.{PieceRecord}
use dfdisk.Pieces.File.{
  pieces_header, decimal, to_line, piece_end, PiecesWriter, new_writer, write_piece, WriteError,
  index_field, offset_field, length_field, PiecesReader, strip_ends, read_fields, read_line,
  next_piece, read_pieces, read_start, parse_pieces,
}
use dfdisk.Pieces.Lines.{
  decimal-cons, decimal-number, free, split-cons, cons_append, lower_hex, lower_same, IsWritable,
  to_line-free, split-to_line,
}

-- The pieces follow each other, from an index and an offset on.
abbrev pub Follow : ℕ → ℕ → List PieceRecord → Type 0
Follow i o [] = Unit
Follow i o (p ∷ ps) =
    (p.index ≡ i) × (p.offset ≡ o) × (0 < p.length) × IsWritable p × Follow (i + 1) (piece_end p) ps

read_fields_lem :
    (r : PiecesReader) (p : PieceRecord)
    → IsWritable p
    → p.index ≡ r.next_index
    → p.offset ≡ r.next_offset
    → 0 < p.length
    → read_fields r (decimal p.index) (decimal p.offset) (decimal p.length) p.sha256 ≡ ok p
unfolding read_fields
read_fields_lem r p w i o l =
    let first : (p.index == r.next_index) ≡ true = ground arith in
    let second : (p.offset == r.next_offset) ≡ true = ground arith in
    let third : (p.length == 0) ≡ false = ground arith in
    let fourth : (length p.sha256 == 64) ≡ true = ground (arith, w.2.0) in
    let fifth : leb (p.offset + p.length) u64_max ≡ true = ground (arith, w.1) in
    rw
      (
        decimal-number r.line_no p.index index_field w.0,
        decimal-number r.line_no p.offset offset_field (omega (arith, w.1)),
        decimal-number r.line_no p.length length_field (omega (arith, w.1)),
        first,
        second,
        third,
        fourth,
        lower_hex p.sha256 w.2.1,
        fifth,
        lower_same p.sha256 w.2.1,
      )
      refl

to_line-cons : (p : PieceRecord) → is_empty (to_line p) ≡ false
unfolding to_line
to_line-cons p = cons_append (decimal p.index) _ (decimal-cons p.index)

next_piece_lem :
    (r : PiecesReader) (p : PieceRecord)
    → IsWritable p
    → p.index ≡ r.next_index
    → p.offset ≡ r.next_offset
    → 0 < p.length
    → next_piece r (to_line p)
      ≡ ok (
        record {
          line_no = r.line_no + 1;
          next_index = r.next_index + 1;
          next_offset = piece_end p;
        },
        p,
      )
unfolding next_piece read_line
next_piece_lem r p w i o l =
    rw (to_line-cons p, split-to_line p w, read_fields_lem r p w i o l) refl

abbrev lines_of : List PieceRecord → List Text
lines_of [] = []
lines_of (p ∷ ps) = to_line p ∷ lines_of ps

abbrev text_of : List PieceRecord → Text
text_of [] = []
text_of (p ∷ ps) = to_line p ++ (10 ∷ text_of ps)

read_pieces_lem :
    (r : PiecesReader) (ps : List PieceRecord)
    → Follow r.next_index r.next_offset ps
    → read_pieces r (lines_of ps) ≡ ok ps
unfolding read_pieces
read_pieces_lem r [] f = refl
read_pieces_lem r (p ∷ ps) (i, o, l, w, f) =
    let next : PiecesReader = record {
      line_no = r.line_no + 1;
      next_index = r.next_index + 1;
      next_offset = piece_end p;
    } in
    rw (next_piece_lem r p w i o l, read_pieces_lem next ps f) refl

strip_last-free : (d : ℕ) (t : Text) → free d t ≡ true → strip_last d t ≡ t
unfolding strip_last free
strip_last-free d [] h = refl
strip_last-free d (c ∷ []) h = ground arith
strip_last-free d (c ∷ e ∷ cs) h = ground (arith, strip_last-free d (e ∷ cs))

strip_ends-cons :
    (l rest : Text)
    → free 10 l ≡ true
    → free 13 l ≡ true
    → strip_ends (split 10 (l ++ (10 ∷ rest))) ≡ l ∷ strip_ends (split 10 rest)
unfolding strip_ends
strip_ends-cons l rest h k = rw (split-cons 10 l rest h, strip_last-free 13 l k) refl

strip_ends-text_of :
    (i o : ℕ) (ps : List PieceRecord)
    → Follow i o ps
    → strip_ends (split 10 (text_of ps)) ≡ lines_of ps
strip_ends-text_of i o [] f = unfold strip_ends in unfold split_on in refl
strip_ends-text_of i o (p ∷ ps) (a, b, l, w, f) =
    strip_ends-cons (to_line p) (text_of ps) (to_line-free 10 p w (omega arith) refl)
      (to_line-free 13 p w (omega arith) refl)
    ∙ ap (λ ls. to_line p ∷ ls) (strip_ends-text_of (i + 1) (piece_end p) ps f)

-- A writer fed with pieces in turn.
abbrev pub write_all : PiecesWriter → List PieceRecord → Result WriteError PiecesWriter
write_all w [] = ok w
write_all w (p ∷ ps) = write_piece w p >>= λ v. write_all v ps

abbrev pub AreWritable : List PieceRecord → Type 0
AreWritable [] = Unit
AreWritable (p ∷ ps) = IsWritable p × AreWritable ps

write_piece_ok :
    (w : PiecesWriter) (p : PieceRecord) (u : PiecesWriter)
    → write_piece w p ≡ ok u
    → (p.index ≡ w.count)
      × (p.offset ≡ w.next_offset)
      × (0 < p.length)
      × (u ≡ record {
        out = w.out ++ (to_line p ++ 10 ∷ []);
        count = w.count + 1;
        next_offset = piece_end p;
      })
unfolding write_piece
write_piece_ok w p u e = ground arith

write_all_lem :
    (w v : PiecesWriter) (ps : List PieceRecord)
    → write_all w ps ≡ ok v
    → AreWritable ps
    → (v.out ≡ w.out ++ text_of ps) × Follow w.count w.next_offset ps
write_all_lem w v [] e a = ground (arith, append-nil w.out)
write_all_lem w v (p ∷ ps) e a =
    let (u, first, rest) = >>=-eq-ok (write_piece w p) (λ u. write_all u ps) e in
    let (i, o, l, same) = write_piece_ok w p u first in
    let (out, f) = write_all_lem u v ps rest a.1 in
    let counted : u.count ≡ w.count + 1 = ap (λ u. u.count) same in
    let ended : u.next_offset ≡ piece_end p = ap (λ u. u.next_offset) same in
    (
      out
          ∙ ap (λ u. u.out ++ text_of ps) same
          ∙ append_assoc w.out (to_line p ++ 10 ∷ []) (text_of ps)
          ∙ ap (λ t. w.out ++ t) (append_assoc (to_line p) (10 ∷ []) (text_of ps)),
      (i, o, l, a.0, rw (sym counted, sym ended) f),
    )

-- Whatever pieces the writer accepts, the file that it writes reads back as those pieces, if their
-- numbers are `u64`s and their digests are printed as `hex::encode` does.
pub parse_pieces-write_all :
    (ps : List PieceRecord) (w : PiecesWriter)
    → write_all new_writer ps ≡ ok w
    → AreWritable ps
    → parse_pieces w.out ≡ ok ps
unfolding parse_pieces new_writer
parse_pieces-write_all ps w e a =
    let (out, f) = write_all_lem new_writer w ps e a in
    let header : strip_ends (split 10 w.out) ≡ pieces_header ∷ lines_of ps =
      ap (λ t. strip_ends (split 10 t)) (out ∙ append_assoc pieces_header (10 ∷ []) (text_of ps))
      ∙ strip_ends-cons pieces_header (text_of ps) (unfold free in refl) (unfold free in refl)
      ∙ ap (λ ls. pieces_header ∷ ls) (strip_ends-text_of 0 0 ps f) in
    let same : same_text pieces_header pieces_header ≡ true =
      (same_text_iff pieces_header pieces_header).1 refl in
    rw (header, same) (read_pieces_lem read_start ps f)
