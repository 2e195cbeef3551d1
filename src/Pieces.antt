-- ===== src/Pieces.antt =====
-- src/engines/pieces.rs: digests of consecutive pieces of a stream, and the check of an image
-- against them. SHA-256 in hexadecimal is the parameter `digest`; the state of a digest is the list
-- of bytes fed to it.
pub mod Hashing
pub mod Judging
pub mod Feeding
pub mod Checking
pub mod Recorded
pub mod File
pub mod Lines
pub mod RoundTrip
pub mod Accepted
use dfdisk.Prelude.{
  ℕ, zero, suc, ◌+◌, ◌-◌, Bool, true, false, not, ◌&&◌, ◌||◌, Option, none, some, List, [], ◌∷◌,
  ◌++◌, ltb, ◌==◌, if◌then◌else◌, min, max, length, take, drop, Text, same_text,
}
use dfdisk.Prelude.Results.{Result, ok, err}

pub record PieceRecord : Type 0 where
  pub index : ℕ
  pub offset : ℕ
  pub length : ℕ
  pub sha256 : Text

pub record PieceHasher : Type 0 where
  pub piece_size : ℕ
  pub next_index : ℕ
  pub start : ℕ
  pub filled : ℕ
  pub fed : List ℕ

unfoldable pub new_hasher : ℕ → PieceHasher
new_hasher piece_size = record {
  piece_size = max piece_size 1;
  next_index = 0;
  start = 0;
  filled = 0;
  fed = [];
}

abbrev pub max_listed_mismatches : ℕ
max_listed_mismatches = 1000

pub record PieceMismatch : Type 0 where
  pub index : ℕ
  pub offset : ℕ
  pub length : ℕ
  pub expected_sha256 : Text
  pub computed_sha256 : Text
  pub bytes_present : ℕ

pub record PiecesReport : Type 0 where
  pub pieces_checked : ℕ
  pub bytes_checked : ℕ
  pub mismatches : List PieceMismatch
  pub mismatch_count : ℕ
  pub covered_bytes : ℕ
  pub image_bytes : ℕ

abbrev pub no_report : PiecesReport
no_report = record {
  pieces_checked = 0;
  bytes_checked = 0;
  mismatches = [];
  mismatch_count = 0;
  covered_bytes = 0;
  image_bytes = 0;
}

abbrev pub is_empty_list {ℓ} : {A : Type ℓ} → List A → Bool
is_empty_list [] = true
is_empty_list (x ∷ xs) = false

unfoldable pub all_match : PiecesReport → Bool
all_match r =
    ltb 0 r.pieces_checked
    && (is_empty_list r.mismatches && (r.mismatch_count == 0 && r.image_bytes == r.covered_bytes))

unfoldable pub uncovered_bytes : PiecesReport → ℕ
uncovered_bytes r = r.image_bytes - r.covered_bytes

-- `items`: what the reader of the pieces file returns in turn, up to the end of the file.
pub record PieceChecker : Type 0 where
  pub items : List (Result Text PieceRecord)
  pub current : Option PieceRecord
  pub filled : ℕ
  pub fed : List ℕ
  pub report : PiecesReport
  pub failed : Option Text

unfoldable pub advance : PieceChecker → PieceChecker
advance c = elim c.items [
  | [] ↦ record c { current = none }
  | i ∷ is ↦ elim i [
    | ok p ↦ record c {
      items = is;
      current = some p;
      report = record c.report { covered_bytes = c.report.covered_bytes + p.length };
    }
    | err e ↦ record c { items = is; current = none; failed = some e }
  ]
]

unfoldable pub start_check : List (Result Text PieceRecord) → PieceChecker
unfolding advance
start_check items = advance (record {
  items = items;
  current = none;
  filled = 0;
  fed = [];
  report = no_report;
  failed = none;
})

unfoldable pub mismatch : PieceMismatch → PiecesReport → PiecesReport
mismatch m r = record r {
  mismatch_count = r.mismatch_count + 1;
  mismatches =
      if ltb (length r.mismatches) max_listed_mismatches
      then r.mismatches ++ m ∷ []
      else r.mismatches;
}

module _ (digest : List ℕ → Text) where
  unfoldable pub take_piece : PieceHasher → PieceHasher × PieceRecord
  take_piece h = (
    record h { next_index = h.next_index + 1; start = h.start + h.filled; filled = 0; fed = [] },
    record { index = h.next_index; offset = h.start; length = h.filled; sha256 = digest h.fed },
  )

  -- The loop of `update`, with the pieces emitted. A round takes a byte at least.
  unfoldable pub update_loop : ℕ → PieceHasher → List ℕ → PieceHasher × List PieceRecord
  update_loop zero h bytes = (h, [])
  update_loop (suc n) h [] = (h, [])
  update_loop (suc n) h (b ∷ bs) =
      let n_taken = min (h.piece_size - h.filled) (length (b ∷ bs)) in
      let g = record h { filled = h.filled + n_taken; fed = h.fed ++ take n_taken (b ∷ bs) } in
      let later = drop n_taken (b ∷ bs) in
      elim (g.filled == g.piece_size) [
        | true ↦
            let (k, piece) = take_piece g in
            let (end, pieces) = update_loop n k later in (end, piece ∷ pieces)
        | false ↦ update_loop n g later
      ]

  unfoldable pub update : PieceHasher → List ℕ → PieceHasher × List PieceRecord
  update h bytes = update_loop (length bytes) h bytes

  unfoldable pub finish_pieces : PieceHasher → List PieceRecord
  finish_pieces h = if ltb 0 h.filled then (take_piece h).1 ∷ [] else []

  -- The digest of a piece that the image may not hold.
  abbrev computed : List ℕ → ℕ → Text
  computed fed filled = if ltb 0 filled then digest fed else []

  unfoldable pub close_piece : PieceChecker → PieceChecker
  unfolding mismatch
  close_piece c = elim c.current [
    | none ↦ c
    | some piece ↦
        let computed_sha = computed c.fed c.filled in
        let checked = record c.report { pieces_checked = c.report.pieces_checked + 1 } in
        record c {
          current = none;
          fed = [];
          filled = 0;
          report =
              if not (c.filled == piece.length) || not (same_text computed_sha piece.sha256)
              then mismatch
                  (record {
                    index = piece.index;
                    offset = piece.offset;
                    length = piece.length;
                    expected_sha256 = piece.sha256;
                    computed_sha256 = computed_sha;
                    bytes_present = c.filled;
                  })
                  checked
              else checked;
        }
  ]

  -- The loop of `feed`. A round takes a byte at least, or ends the loop.
  unfoldable pub feed_loop : ℕ → PieceChecker → List ℕ → PieceChecker
  feed_loop zero c bytes = c
  feed_loop (suc n) c [] = c
  feed_loop (suc n) c (b ∷ bs) = elim c.failed [
    | some e ↦ c
    | none ↦ elim c.current [
      | none ↦ c
      | some piece ↦
          let n_taken = min (piece.length - c.filled) (length (b ∷ bs)) in
          let d = record c {
            fed = c.fed ++ take n_taken (b ∷ bs);
            filled = c.filled + n_taken;
            report = record c.report { bytes_checked = c.report.bytes_checked + n_taken };
          } in
          let later = drop n_taken (b ∷ bs) in
          elim (d.filled == piece.length) [
            | true ↦ feed_loop n (advance (close_piece d)) later
            | false ↦ feed_loop n d later
          ]
    ]
  ]

  unfoldable pub feed : PieceChecker → List ℕ → PieceChecker
  feed c bytes = feed_loop (length bytes) c bytes

  -- The loop of `finish`: an item of the reader each round.
  unfoldable pub close_loop : ℕ → PieceChecker → PieceChecker
  close_loop zero c = c
  close_loop (suc n) c = elim c.failed [
    | some e ↦ c
    | none ↦ elim c.current [ none ↦ c | some piece ↦ close_loop n (advance (close_piece c)) ]
  ]

  unfoldable pub finish_check : PieceChecker → ℕ → Result Text PiecesReport
  finish_check c image_bytes =
      let d = close_loop (suc (length c.items)) c in
      elim d.failed [ some e ↦ err e | none ↦ ok (record d.report { image_bytes = image_bytes }) ]
