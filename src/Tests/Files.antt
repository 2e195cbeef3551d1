-- ===== src/Tests/Files.antt =====
-- A pieces file of src/engines/pieces.rs, written and read.
use dfdisk.Prelude.{◌≡◌, refl, List, [], ◌∷◌, ◌++◌, arith, Text, replicate}
use dfdisk.Prelude.Results.{ok}
use dfdisk.Str.{all_chars}
use dfdisk.Pieces.{PieceRecord}
use dfdisk.Pieces.File.{PiecesWriter, new_writer, write_piece, to_line, pieces_header, parse_pieces}
use dfdisk.Pieces.RoundTrip.{write_all, AreWritable, parse_pieces-write_all}
use dfdisk.Pieces.Accepted.{AreContiguous, parse_pieces-AreContiguous}

abbrev sha : Text
sha = replicate 64 b'a'

abbrev two_pieces : List PieceRecord
two_pieces =
    record { index = 0; offset = 0; length = 1048576; sha256 = sha }
    ∷ record { index = 1; offset = 1048576; length = 512; sha256 = sha }
    ∷ []

abbrev file_text : Text
file_text =
    pieces_header
    ++ (10 ∷ [])
    ++ (to_line (record { index = 0; offset = 0; length = 1048576; sha256 = sha }) ++ 10 ∷ [])
    ++ (to_line (record { index = 1; offset = 1048576; length = 512; sha256 = sha }) ++ 10 ∷ [])

abbrev written : PiecesWriter
written = record { out = file_text; count = 2; next_offset = 1049088 }

two_pieces-written : write_all new_writer two_pieces ≡ ok written
unfolding new_writer write_piece
two_pieces-written = refl

two_pieces-AreWritable : AreWritable two_pieces
unfolding all_chars
two_pieces-AreWritable =
    ((omega arith, omega arith, (refl, refl)), ((omega arith, omega arith, (refl, refl)), tt))

parse_pieces-write_all_example : parse_pieces file_text ≡ ok two_pieces
parse_pieces-write_all_example =
    parse_pieces-write_all two_pieces written two_pieces-written two_pieces-AreWritable

parse_pieces-AreContiguous_example : AreContiguous 0 0 two_pieces
parse_pieces-AreContiguous_example =
    parse_pieces-AreContiguous file_text {ps = two_pieces} parse_pieces-write_all_example
