-- ===== src/Pieces/Checking.antt =====
-- The report of the check of an image against the pieces of a file, of src/engines/pieces.rs.
use dfdisk.Prelude.{
  ℕ, zero, suc, ◌+◌, ◌≤◌, ◌≡◌, refl, ap, ◌∙◌, none, List, [], ◌∷◌, ◌++◌, arith, min, length, Text,
}
use mathlib.Core.List.{append-nil}
use dfdisk.Prelude.Results.{ok}
use dfdisk.Pieces.{
  PieceRecord, PiecesReport, PieceChecker, advance, start_check, close_piece, close_loop,
  finish_check, max_listed_mismatches,
}
use dfdisk.Pieces.Hashing.{concat}
use dfdisk.Pieces.Judging.{
  items_of, length-items_of, AreFilled, total_length, differing-short, close_piece_lem, check_image,
  differing, feed_all, IsOpen, ahead, At,
}
use dfdisk.Pieces.Feeding.{feed_all-Leads}

module _ (digest : List ℕ → Text) where
  -- What the end of the image leaves.
  record Ended (ps : List PieceRecord) (c d : PieceChecker) : Type 0 where
    sound : d.failed ≡ none
    differs : d.report.mismatch_count ≡ c.report.mismatch_count + differing digest ps c.fed
    checked : d.report.pieces_checked ≡ c.report.pieces_checked + length ps
    covered : d.report.covered_bytes ≡ c.report.covered_bytes + ahead digest ps
    listed : length d.report.mismatches ≡ min d.report.mismatch_count max_listed_mismatches

  close_loop-Ended :
      (n : ℕ) (ps : List PieceRecord) (c : PieceChecker)
      → At digest ps c
      → IsOpen digest ps c
      → length ps ≤ n
      → Ended ps c (close_loop digest n c)
  unfolding close_loop
  close_loop-Ended zero [] c a o l = record {
    sound = a.sound;
    differs = omega arith;
    checked = omega arith;
    covered = omega arith;
    listed = a.listed;
  }
  close_loop-Ended zero (p ∷ ps) c a o l = absurd (omega arith)
  close_loop-Ended (suc n) [] c a o l =
      rw (a.sound, a.here.0, close_loop)
        (record {
          sound = a.sound;
          differs = omega arith;
          checked = omega arith;
          covered = omega arith;
          listed = a.listed;
        })
  close_loop-Ended (suc n) (p ∷ ps) c a o l =
      let d = advance (close_piece digest c) in
      let (at, opened, fed, m, k, v) = close_piece_lem digest p ps c a in
      let on = close_loop-Ended n ps d at opened (omega arith) in
      let later : differing digest ps d.fed ≡ differing digest ps [] =
        ap (differing digest ps) fed in
      rw (a.sound, a.here.0, close_loop)
        (record {
          sound = on.sound;
          differs = on.differs ∙ omega (arith, m, later, differing-short digest p ps c a.held o);
          checked = omega (arith, on.checked, k);
          covered = omega (arith, on.covered, v);
          listed = on.listed;
        })

  start_check-At :
      (ps : List PieceRecord)
      → AreFilled ps
      → (let c = start_check (items_of ps) in
          At digest ps c
          × IsOpen digest ps c
          × (c.fed ≡ [])
          × (c.report.mismatch_count ≡ 0)
          × (c.report.pieces_checked ≡ 0)
          × (c.report.covered_bytes + ahead digest ps ≡ total_length ps))
  unfolding start_check advance
  start_check-At [] f = (
    record { sound = refl; held = refl; full = tt; here = (refl, refl, refl); listed = refl },
    tt,
    refl,
    refl,
    refl,
    refl,
  )
  start_check-At (p ∷ ps) f = (
    record { sound = refl; held = refl; full = f; here = (refl, refl); listed = refl },
    f.0,
    refl,
    refl,
    refl,
    omega arith,
  )

  length-items :
      (ps : List PieceRecord) (c : PieceChecker) → At digest ps c → length ps ≤ suc (length c.items)
  length-items [] c a = omega arith
  length-items (p ∷ ps) c a = rw a.here.1 (omega (arith, length-items_of ps))

  pub check_image_report :
      (ps : List PieceRecord) (cs : List (List ℕ))
      → AreFilled ps
      → (r : PiecesReport) × (check_image digest ps cs ≡ ok r)
        × (r.mismatch_count ≡ differing digest ps (concat cs))
        × (r.pieces_checked ≡ length ps)
        × (r.covered_bytes ≡ total_length ps)
        × (r.image_bytes ≡ length (concat cs))
        × (length r.mismatches ≡ min r.mismatch_count max_listed_mismatches)
  unfolding finish_check
  check_image_report ps cs f =
      let c = start_check (items_of ps) in
      let (a, o, fed, m, k, v) = start_check-At ps f in
      let on = feed_all-Leads digest ps c cs a o in
      let d = feed_all digest c cs in
      let done =
        close_loop-Ended (suc (length d.items)) on.rest d on.at on.open_now
          (length-items on.rest d on.at) in
      let all : differing digest ps (c.fed ++ (concat cs ++ [])) ≡ differing digest ps (concat cs) =
        ap (λ l. differing digest ps (l ++ (concat cs ++ []))) fed
        ∙ ap (differing digest ps) (append-nil (concat cs)) in
      let left : differing digest on.rest (d.fed ++ []) ≡ differing digest on.rest d.fed =
        ap (differing digest on.rest) (append-nil d.fed) in
      let report : PiecesReport = record (close_loop digest (suc (length d.items)) d).report {
        image_bytes = length (concat cs);
      } in
      (
        report,
        rw (done.sound, finish_check) refl,
        omega (arith, done.differs, on.differs [], all, left, m),
        omega (arith, done.checked, on.checked, k),
        omega (arith, done.covered, on.covered, v),
        refl,
        done.listed,
      )
