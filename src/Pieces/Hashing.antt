-- ===== src/Pieces/Hashing.antt =====
-- The pieces that src/engines/pieces.rs hashes, against a definition that takes a byte at a time.
use dfdisk.Prelude.{
  ℕ, zero, suc, ◌+◌, ◌-◌, ◌≤◌, ◌<◌, ◌≡◌, refl, sym, ap, ◌∙◌, true, false, List, [], ◌∷◌, ◌++◌,
  arith, ltb, ◌==◌, if◌then◌else◌, min, max, length, take, drop, Text, length-append, length-take,
  length-drop, take-append-drop, Bool-cases, inl, inr,
}
use mathlib.Core.List.{append-nil, append_assoc}
use dfdisk.Pieces.{
  PieceRecord, PieceHasher, new_hasher, take_piece, update_loop, update, finish_pieces,
}

abbrev pub concat : List (List ℕ) → List ℕ
concat [] = []
concat (c ∷ cs) = c ++ concat cs

module _ (digest : List ℕ → Text) where
  -- The pieces of a stream: `held` bytes of the next piece were read.
  abbrev pub pieces_from : ℕ → ℕ → ℕ → List ℕ → List ℕ → List PieceRecord
  pieces_from size index offset held [] =
      if ltb 0 (length held)
      then record { index = index; offset = offset; length = length held; sha256 = digest held }
        ∷ []
      else []
  pieces_from size index offset held (b ∷ bs) =
      if length held + 1 == size
      then record {
        index = index;
        offset = offset;
        length = size;
        sha256 = digest (held ++ b ∷ []);
      }
        ∷ pieces_from size (index + 1) (offset + size) [] bs
      else pieces_from size index offset (held ++ b ∷ []) bs

  pieces_from_fill :
      (size index offset : ℕ) (held c later : List ℕ)
      → length held + length c < size
      → pieces_from size index offset held (c ++ later)
        ≡ pieces_from size index offset (held ++ c) later
  pieces_from_fill size index offset held [] later h = rw (append-nil held)
  pieces_from_fill size index offset held (b ∷ bs) later h =
      let more : (length held + 1 == size) ≡ false = ground arith in
      rw more (
        pieces_from_fill size index offset (held ++ b ∷ []) bs later
          (omega (arith, length-append held (b ∷ [])))
        ∙ ap (λ l. pieces_from size index offset l later) (append_assoc held (b ∷ []) bs))

  pieces_from_full :
      (size index offset : ℕ) (held c later : List ℕ)
      → length held < size
      → length held + length c ≡ size
      → pieces_from size index offset held (c ++ later)
        ≡ record { index = index; offset = offset; length = size; sha256 = digest (held ++ c) }
          ∷ pieces_from size (index + 1) (offset + size) [] later
  pieces_from_full size index offset held [] later l h = absurd (omega arith)
  pieces_from_full size index offset held (b ∷ []) later l h =
      let full : (length held + 1 == size) ≡ true = ground arith in rw full
  pieces_from_full size index offset held (b ∷ d ∷ bs) later l h =
      let more : (length held + 1 == size) ≡ false = ground arith in
      let one = length-append held (b ∷ []) in
      rw more (
        pieces_from_full size index offset (held ++ b ∷ []) (d ∷ bs) later (omega (arith, one))
          (omega (arith, one))
        ∙ ap
            (λ l.
              record { index = index; offset = offset; length = size; sha256 = digest l }
              ∷ pieces_from size (index + 1) (offset + size) [] later)
            (append_assoc held (b ∷ []) (d ∷ bs)))

  record Filling (h : PieceHasher) : Type 0 where
    below : h.filled < h.piece_size
    held : length h.fed ≡ h.filled

  -- What the hasher will still emit, if the rest of the stream is `later`.
  abbrev still : PieceHasher → List ℕ → List PieceRecord
  still h later = pieces_from h.piece_size h.next_index h.start h.fed later

  update_loop_lem :
      (n : ℕ) (h : PieceHasher) (bytes : List ℕ)
      → Filling h
      → length bytes ≤ n
      → (let (k, pieces) = update_loop digest n h bytes in
          Filling k
          × (k.piece_size ≡ h.piece_size)
          × ((later : List ℕ) → still h (bytes ++ later) ≡ pieces ++ still k later))
  unfolding update_loop take_piece
  update_loop_lem zero h [] f l = (f, refl, λ later. refl)
  update_loop_lem zero h (b ∷ bs) f l = absurd (omega arith)
  update_loop_lem (suc n) h [] f l = (f, refl, λ later. refl)
  update_loop_lem (suc n) h (b ∷ bs) f l =
      let size = h.piece_size in
      let n_taken = min (size - h.filled) (length (b ∷ bs)) in
      let taken = take n_taken (b ∷ bs) in
      let rest = drop n_taken (b ∷ bs) in
      let g : PieceHasher = record h { filled = h.filled + n_taken; fed = h.fed ++ taken } in
      let some_taken : 0 < n_taken = omega (arith, f.below) in
      let n_rest : length rest ≡ length (b ∷ bs) - n_taken = length-drop n_taken (b ∷ bs) in
      let fewer : length rest ≤ n = omega (arith, n_rest, some_taken) in
      let len : length taken ≡ n_taken = omega (arith, length-take n_taken (b ∷ bs)) in
      let split : (later : List ℕ) → (b ∷ bs) ++ later ≡ taken ++ (rest ++ later) = λ later.
        ap (λ l. l ++ later) (sym (take-append-drop n_taken (b ∷ bs)))
        ∙ append_assoc taken rest later in
      elim (Bool-cases (h.filled + n_taken == size)) [
        | inl e ↦
            let full : h.filled + n_taken ≡ size = ground arith in
            let k = (take_piece digest g).0 in
            let (i, s, on) =
              update_loop_lem n k rest (record { below = omega arith; held = refl }) fewer in
            rw (e, update_loop)
              (
                i,
                s,
                λ later.
                    ap (still h) (split later)
                    ∙ pieces_from_full size h.next_index h.start h.fed taken (rest ++ later)
                        (omega (arith, f.below, f.held)) (omega (arith, f.held, len, full))
                    ∙ ap
                        (λ m.
                          record {
                            index = h.next_index;
                            offset = h.start;
                            length = m;
                            sha256 = digest (h.fed ++ taken);
                          }
                          ∷ pieces_from size (h.next_index + 1) (h.start + m) [] (rest ++ later))
                        (sym full)
                    ∙ ap (λ l. (take_piece digest g).1 ∷ l) (on later),
              )
        | inr e ↦
            let short : h.filled + n_taken < size = ground arith in
            let (i, s, on) =
              update_loop_lem n g rest
                (record {
                  below = short;
                  held = length-append h.fed taken ∙ omega (arith, f.held, len);
                })
                fewer in
            rw (e, update_loop)
              (
                i,
                s,
                λ later.
                    ap (still h) (split later)
                    ∙ pieces_from_fill size h.next_index h.start h.fed taken (rest ++ later)
                        (omega (arith, f.held, len, short))
                    ∙ on later,
              )
      ]

  -- A stream fed in chunks, to its end.
  abbrev pub hash_chunks : PieceHasher → List (List ℕ) → List PieceRecord
  hash_chunks h [] = finish_pieces digest h
  hash_chunks h (c ∷ cs) = let (k, pieces) = update digest h c in pieces ++ hash_chunks k cs

  hash_chunks-still :
      (h : PieceHasher) (cs : List (List ℕ)) → Filling h → hash_chunks h cs ≡ still h (concat cs)
  unfolding update finish_pieces take_piece
  hash_chunks-still h [] f = ground (arith, f.held)
  hash_chunks-still h (c ∷ cs) f =
      let (i, s, on) = update_loop_lem (length c) h c f (omega arith) in
      let (k, pieces) = update_loop digest (length c) h c in
      ap (λ l. pieces ++ l) (hash_chunks-still k cs i) ∙ sym (on (concat cs))

  -- However a stream is cut into the chunks that the hasher is fed, the pieces are those of the
  -- whole stream, taken a byte at a time: numbered from 0, contiguous from offset 0, of the piece
  -- size (at least 1) but for a shorter last one, each with the digest of its own bytes.
  pub hash_chunks-pieces_from :
      (piece_size : ℕ) (cs : List (List ℕ))
      → hash_chunks (new_hasher piece_size) cs ≡ pieces_from (max piece_size 1) 0 0 [] (concat cs)
  unfolding new_hasher
  hash_chunks-pieces_from piece_size cs =
      hash_chunks-still (new_hasher piece_size) cs (record { below = omega arith; held = refl })
