-- ===== src/Pieces/Recorded.antt =====
-- An image checked against the pieces recorded while it was written, of src/engines/pieces.rs.
use dfdisk.Prelude.{
  ℕ, ◌+◌, ◌<◌, ◌≡◌, refl, sym, ap, ◌∙◌, true, List, [], ◌∷◌, ◌++◌, arith, ltb, ◌==◌, max, length,
  Text, length-append, Bool-cases, inl, inr, same_text, same_text_iff,
}
use mathlib.Core.List.{append_assoc}
use dfdisk.Prelude.Results.{ok}
use dfdisk.Pieces.{PieceRecord, new_hasher, PiecesReport, is_empty_list, all_match}
use dfdisk.Pieces.Hashing.{concat, pieces_from, hash_chunks, hash_chunks-pieces_from}
use dfdisk.Pieces.Checking.{check_image_report}
use dfdisk.Pieces.Judging.{
  AreFilled, total_length, holds, differing, check_image, take-append, drop-append,
}

module _ (digest : List ℕ → Text) (size : ℕ) (pos : 0 < size) where
  same_text_self : (t : Text) → same_text t t ≡ true
  same_text_self t = (same_text_iff t t).1 refl

  record Exact (ps : List PieceRecord) (stream : List ℕ) : Type 0 where
    filled : AreFilled ps
    same : differing digest ps stream ≡ 0
    total : total_length ps ≡ length stream
    some_piece : ltb 0 (length ps) ≡ ltb 0 (length stream)

  abbrev own : ℕ → ℕ → ℕ → List ℕ → PieceRecord
  own i o n bytes = record { index = i; offset = o; length = n; sha256 = digest bytes }

  holds-own :
      (i o n : ℕ) (bytes later : List ℕ)
      → 0 < n
      → length bytes ≡ n
      → holds digest (own i o n bytes) (bytes ++ later) ≡ true
  holds-own i o n bytes later l e =
      rw (take-append n bytes later e, e) (ground (arith, same_text_self (digest bytes)))

  Exact-cons :
      (i o n : ℕ) (bytes later : List ℕ) (ps : List PieceRecord)
      → 0 < n
      → length bytes ≡ n
      → Exact ps later
      → Exact (own i o n bytes ∷ ps) (bytes ++ later)
  Exact-cons i o n bytes later ps l e x = record {
    filled = (l, x.filled);
    same =
        rw (holds-own i o n bytes later l e, drop-append n bytes later e) (omega (arith, x.same));
    total = omega (arith, length-append bytes later, x.total, e);
    some_piece = ground (arith, length-append bytes later);
  }

  Exact-nil : Exact [] []
  Exact-nil = record { filled = tt; same = refl; total = refl; some_piece = refl }

  pieces_from-Exact :
      (i o : ℕ) (held stream : List ℕ)
      → length held < size
      → Exact (pieces_from digest size i o held stream) (held ++ stream)
  pieces_from-Exact i o [] [] l = Exact-nil
  pieces_from-Exact i o (x ∷ xs) [] l =
      let some_held : ltb 0 (length (x ∷ xs)) ≡ true = ground arith in
      rw some_held (Exact-cons i o (length (x ∷ xs)) (x ∷ xs) [] [] (omega arith) refl Exact-nil)
  pieces_from-Exact i o held (b ∷ bs) l =
      let one = length-append held (b ∷ []) in
      let split = sym (append_assoc held (b ∷ []) bs) in
      elim (Bool-cases (length held + 1 == size)) [
        | inl e ↦
            let full : length (held ++ b ∷ []) ≡ size = ground (arith, one) in
            rw (e, split)
              (Exact-cons i o size (held ++ b ∷ []) bs
                (pieces_from digest size (i + 1) (o + size) [] bs) pos full
                (pieces_from-Exact (i + 1) (o + size) [] bs pos))
        | inr e ↦
            let short : length (held ++ b ∷ []) < size = ground (arith, one) in
            rw (e, split) (pieces_from-Exact i o (held ++ b ∷ []) bs short)
      ]

length_zero : {A : Type 0} (xs : List A) → length xs ≡ 0 → is_empty_list xs ≡ true
length_zero [] h = refl
length_zero (x ∷ xs) h = absurd (omega arith)

-- The pieces recorded while a stream was written, in whatever chunks, match an image with the same
-- bytes, in whatever chunks it is read: the check returns a report without a difference, in which
-- all bytes are covered, and all of it matches exactly if there is a byte.
pub hash_chunks_match :
    (digest : List ℕ → Text) (piece_size : ℕ) (written read : List (List ℕ))
    → concat read ≡ concat written
    → (r : PiecesReport) × (check_image digest
          (hash_chunks digest (new_hasher piece_size) written)
          read
        ≡ ok r)
      × (r.mismatch_count ≡ 0)
      × (r.covered_bytes ≡ r.image_bytes)
      × (all_match r ≡ ltb 0 (length (concat read)))
unfolding all_match
hash_chunks_match digest piece_size written read same =
    let size = max piece_size 1 in
    let pos : 0 < size = omega arith in
    let ps = pieces_from digest size 0 0 [] (concat written) in
    let x = pieces_from-Exact digest size pos 0 0 [] (concat written) pos in
    let (r, e, m, k, v, n, l) = check_image_report digest ps read x.filled in
    let none_differ : differing digest ps (concat read) ≡ 0 = rw same x.same in
    let same_length : length (concat read) ≡ length (concat written) = ap length same in
    let no_mismatch : r.mismatch_count ≡ 0 = m ∙ none_differ in
    let covered : r.covered_bytes ≡ r.image_bytes = omega (arith, v, n, x.total, same_length) in
    (
      r,
      ap (λ p. check_image digest p read) (hash_chunks-pieces_from digest piece_size written) ∙ e,
      no_mismatch,
      covered,
      ground (
        arith,
        length_zero r.mismatches (omega (arith, l, no_mismatch)),
        no_mismatch,
        covered,
        k,
        x.some_piece,
        same_length,
      ),
    )
