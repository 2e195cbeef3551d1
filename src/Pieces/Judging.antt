-- ===== src/Pieces/Judging.antt =====
-- How the check of src/engines/pieces.rs judges a piece, and what it is to find.
use dfdisk.Prelude.{
  ℕ, zero, suc, ◌+◌, ◌≤◌, ◌<◌, ◌≡◌, refl, ap, Bool, not, ◌&&◌, ◌||◌, none, some, List, [], ◌∷◌,
  ◌++◌, arith, ◌==◌, if◌then◌else◌, min, length, take, drop, Text, length-append, Bool-cases, inl,
  inr, same_text,
}
use dfdisk.Prelude.Results.{Result, ok}
use dfdisk.Pieces.{
  PieceRecord, PieceMismatch, PiecesReport, PieceChecker, advance, start_check, mismatch, computed,
  close_piece, feed, finish_check, max_listed_mismatches,
}
use dfdisk.Pieces.Hashing.{concat}

-- What the reader of a file of these pieces returns.
abbrev pub items_of : List PieceRecord → List (Result Text PieceRecord)
items_of [] = []
items_of (p ∷ ps) = ok p ∷ items_of ps

pub length-items_of : (ps : List PieceRecord) → length (items_of ps) ≡ length ps
length-items_of [] = refl
length-items_of (p ∷ ps) = ap suc (length-items_of ps)

-- No piece is empty: the reader refuses one.
abbrev pub AreFilled : List PieceRecord → Type 0
AreFilled [] = Unit
AreFilled (p ∷ ps) = (0 < p.length) × AreFilled ps

abbrev pub total_length : List PieceRecord → ℕ
total_length [] = 0
total_length (p ∷ ps) = p.length + total_length ps

pub take-append : (n : ℕ) (xs ys : List ℕ) → length xs ≡ n → take n (xs ++ ys) ≡ xs
take-append zero [] ys h = refl
take-append (suc n) [] ys h = absurd (omega arith)
take-append zero (x ∷ xs) ys h = absurd (omega arith)
take-append (suc n) (x ∷ xs) ys h = ap (λ l. x ∷ l) (take-append n xs ys (omega arith))

pub drop-append : (n : ℕ) (xs ys : List ℕ) → length xs ≡ n → drop n (xs ++ ys) ≡ ys
drop-append zero [] ys h = refl
drop-append (suc n) [] ys h = absurd (omega arith)
drop-append zero (x ∷ xs) ys h = absurd (omega arith)
drop-append (suc n) (x ∷ xs) ys h = drop-append n xs ys (omega arith)

pub take_all : (n : ℕ) (xs : List ℕ) → length xs ≤ n → take n xs ≡ xs
take_all zero [] h = refl
take_all (suc n) [] h = refl
take_all zero (x ∷ xs) h = absurd (omega arith)
take_all (suc n) (x ∷ xs) h = ap (λ l. x ∷ l) (take_all n xs (omega arith))

pub drop_all : (n : ℕ) (xs : List ℕ) → length xs ≤ n → drop n xs ≡ []
drop_all zero [] h = refl
drop_all (suc n) [] h = refl
drop_all zero (x ∷ xs) h = absurd (omega arith)
drop_all (suc n) (x ∷ xs) h = drop_all n xs (omega arith)

module _ (digest : List ℕ → Text) where
  -- The piece is in the image, with the digest recorded; `stream` is the image from its offset on.
  abbrev pub holds : PieceRecord → List ℕ → Bool
  holds p stream =
      length (take p.length stream) == p.length
      && same_text (computed digest (take p.length stream) (length (take p.length stream))) p.sha256

  -- How many of the pieces differ from the stream.
  abbrev pub differing : List PieceRecord → List ℕ → ℕ
  differing [] stream = 0
  differing (p ∷ ps) stream =
      (if holds p stream then 0 else 1) + differing ps (drop p.length stream)

  abbrev pub feed_all : PieceChecker → List (List ℕ) → PieceChecker
  feed_all c [] = c
  feed_all c (bytes ∷ cs) = feed_all (feed digest c bytes) cs

  -- The check of an image, in the chunks in which it is read.
  abbrev pub check_image : List PieceRecord → List (List ℕ) → Result Text PiecesReport
  check_image ps cs =
      finish_check digest (feed_all (start_check (items_of ps)) cs) (length (concat cs))

  -- The checker stands before the pieces `ps`, of which `current` is the first.
  abbrev pub Here : List PieceRecord → PieceChecker → Type 0
  Here [] c = (c.current ≡ none) × (c.items ≡ []) × (c.filled ≡ 0)
  Here (p ∷ ps) c = (c.current ≡ some p) × (c.items ≡ items_of ps)

  abbrev pub IsOpen : List PieceRecord → PieceChecker → Type 0
  IsOpen [] c = Unit
  IsOpen (p ∷ ps) c = c.filled < p.length

  pub record At (ps : List PieceRecord) (c : PieceChecker) : Type 0 where
    pub sound : c.failed ≡ none
    pub held : length c.fed ≡ c.filled
    pub full : AreFilled ps
    pub here : Here ps c
    pub listed : length c.report.mismatches ≡ min c.report.mismatch_count max_listed_mismatches

  -- The bytes of the pieces behind the current one.
  abbrev pub ahead : List PieceRecord → ℕ
  ahead [] = 0
  ahead (p ∷ ps) = total_length ps

  -- The current piece, judged by the bytes that were fed.
  abbrev pub verdict : PieceRecord → PieceChecker → ℕ
  verdict p c =
      if c.filled == p.length && same_text (computed digest c.fed c.filled) p.sha256 then 0 else 1

  -- The report with the piece counted, and listed if it differs.
  abbrev pub counted : PiecesReport → PiecesReport
  counted r = record r { pieces_checked = r.pieces_checked + 1 }

  abbrev pub judged : PieceRecord → PieceChecker → PiecesReport
  judged p c =
      let computed_sha = computed digest c.fed c.filled in
      if not (c.filled == p.length) || not (same_text computed_sha p.sha256)
      then mismatch
          (record {
            index = p.index;
            offset = p.offset;
            length = p.length;
            expected_sha256 = p.sha256;
            computed_sha256 = computed_sha;
            bytes_present = c.filled;
          })
          (counted c.report)
      else counted c.report

  pub mismatch-listed :
      (m : PieceMismatch) (r : PiecesReport)
      → length r.mismatches ≡ min r.mismatch_count max_listed_mismatches
      → length (mismatch m r).mismatches ≡ min (mismatch m r).mismatch_count max_listed_mismatches
  unfolding mismatch
  mismatch-listed m r h = ground (arith, length-append r.mismatches (m ∷ []))

  pub judged_lem :
      (p : PieceRecord) (c : PieceChecker)
      → length c.report.mismatches ≡ min c.report.mismatch_count max_listed_mismatches
      → (let r = judged p c in
          (length r.mismatches ≡ min r.mismatch_count max_listed_mismatches)
          × (r.mismatch_count ≡ c.report.mismatch_count + verdict p c)
          × (r.pieces_checked ≡ c.report.pieces_checked + 1)
          × (r.covered_bytes ≡ c.report.covered_bytes))
  judged_lem p c h = elim (Bool-cases (c.filled == p.length)) [
    | inl e ↦ elim (Bool-cases (same_text (computed digest c.fed c.filled) p.sha256)) [
      | inl f ↦ rw (e, f) (h, ground arith, refl, refl)
      | inr f ↦
          rw (e, f)
            (
              mismatch-listed _ (counted c.report) h,
              unfold mismatch in refl,
              unfold mismatch in refl,
              unfold mismatch in refl,
            )
    ]
    | inr e ↦ rw e (
      mismatch-listed _ (counted c.report) h,
      unfold mismatch in refl,
      unfold mismatch in refl,
      unfold mismatch in refl,
    )
  ]

  abbrev pub closed : PieceRecord → PieceChecker → PieceChecker
  closed p c = record c { current = none; fed = []; filled = 0; report = judged p c }

  pub close_piece-closed :
      (p : PieceRecord) (c : PieceChecker) → c.current ≡ some p → close_piece digest c ≡ closed p c
  unfolding close_piece
  close_piece-closed p c e = rw e refl

  pub close_piece_lem :
      (p : PieceRecord) (ps : List PieceRecord) (c : PieceChecker)
      → At (p ∷ ps) c
      → (let d = advance (close_piece digest c) in
          At ps d
          × IsOpen ps d
          × (d.fed ≡ [])
          × (d.report.mismatch_count ≡ c.report.mismatch_count + verdict p c)
          × (d.report.pieces_checked ≡ c.report.pieces_checked + 1)
          × (d.report.covered_bytes + ahead ps ≡ c.report.covered_bytes + total_length ps))
  close_piece_lem p [] c a =
      let (l, m, k, v) = judged_lem p c a.listed in
      let e : advance (closed p c) ≡ closed p c = unfold advance in rw (a.here.1) refl in
      rw (close_piece-closed p c a.here.0, e)
        (
          record {
            sound = a.sound;
            held = refl;
            full = tt;
            here = (refl, a.here.1, refl);
            listed = l;
          },
          tt,
          refl,
          m,
          k,
          omega (arith, v),
        )
  close_piece_lem p (q ∷ ps) c a =
      let (l, m, k, v) = judged_lem p c a.listed in
      let d = record (closed p c) {
        items = items_of ps;
        current = some q;
        report = record (judged p c) { covered_bytes = (judged p c).covered_bytes + q.length };
      } in
      let e : advance (closed p c) ≡ d = unfold advance in rw (a.here.1) refl in
      rw (close_piece-closed p c a.here.0, e)
        (
          record { sound = a.sound; held = refl; full = a.full.1; here = (refl, refl); listed = l },
          a.full.1.0,
          refl,
          m,
          k,
          omega (arith, v),
        )

  -- The current piece is judged as it stands if its bytes `fed` are complete, or the image ended.
  pub differing-full :
      (p : PieceRecord) (ps : List PieceRecord) (c : PieceChecker) (later : List ℕ)
      → length c.fed ≡ c.filled
      → c.filled ≡ p.length
      → differing (p ∷ ps) (c.fed ++ later) ≡ verdict p c + differing ps later
  differing-full p ps c later h e =
      let n : length c.fed ≡ p.length = omega arith in
      rw (take-append p.length c.fed later n, drop-append p.length c.fed later n, h) refl

  pub differing-short :
      (p : PieceRecord) (ps : List PieceRecord) (c : PieceChecker)
      → length c.fed ≡ c.filled
      → c.filled < p.length
      → differing (p ∷ ps) c.fed ≡ verdict p c + differing ps []
  differing-short p ps c h e =
      let n : length c.fed ≤ p.length = omega arith in
      rw (take_all p.length c.fed n, drop_all p.length c.fed n, h) refl
