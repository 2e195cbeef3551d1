-- ===== src/Tests/Digests.antt =====
-- Pieces of src/engines/pieces.rs on a concrete stream; the digest is the list of the bytes itself.
use dfdisk.Prelude.{ℕ, ◌≡◌, refl, true, List, [], ◌∷◌, length, Text}
use dfdisk.Prelude.Results.{ok}
use dfdisk.Pieces.{PieceRecord, new_hasher, PiecesReport, all_match}
use dfdisk.Pieces.Hashing.{hash_chunks, hash_chunks-pieces_from}
use dfdisk.Pieces.Judging.{check_image}
use dfdisk.Pieces.Recorded.{hash_chunks_match}

abbrev digest : List ℕ → Text
digest bytes = bytes

abbrev written : List (List ℕ)
written = (1 ∷ 2 ∷ 3 ∷ []) ∷ (4 ∷ 5 ∷ []) ∷ []

abbrev read_back : List (List ℕ)
read_back = (1 ∷ []) ∷ (2 ∷ 3 ∷ 4 ∷ 5 ∷ []) ∷ []

abbrev piece : ℕ → ℕ → List ℕ → PieceRecord
piece index offset bytes = record {
  index = index;
  offset = offset;
  length = length bytes;
  sha256 = digest bytes;
}

abbrev three_pieces : List PieceRecord
three_pieces = piece 0 0 (1 ∷ 2 ∷ []) ∷ piece 1 2 (3 ∷ 4 ∷ []) ∷ piece 2 4 (5 ∷ []) ∷ []

hash_chunks-pieces_from_example : hash_chunks digest (new_hasher 2) written ≡ three_pieces
hash_chunks-pieces_from_example = hash_chunks-pieces_from digest 2 written

hash_chunks_match_example :
    (r : PiecesReport) × (check_image digest (hash_chunks digest (new_hasher 2) written) read_back
      ≡ ok r)
    × (r.mismatch_count ≡ 0)
    × (r.covered_bytes ≡ r.image_bytes)
    × (all_match r ≡ true)
hash_chunks_match_example = hash_chunks_match digest 2 written read_back refl
