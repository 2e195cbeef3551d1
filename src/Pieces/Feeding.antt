-- ===== src/Pieces/Feeding.antt =====
-- The image fed to the check of src/engines/pieces.rs.
use dfdisk.Prelude.{
  ℕ, zero, suc, ◌+◌, ◌-◌, ◌≤◌, ◌<◌, ◌≡◌, refl, sym, ap, ◌∙◌, List, [], ◌∷◌, ◌++◌, arith, ◌==◌, min,
  length, take, drop, Text, length-append, length-take, length-drop, take-append-drop, Bool-cases,
  inl, inr,
}
use mathlib.Core.List.{append_assoc}
use dfdisk.Pieces.{PieceRecord, PieceChecker, advance, close_piece, feed_loop, feed}
use dfdisk.Pieces.Hashing.{concat}
use dfdisk.Pieces.Judging.{close_piece_lem, differing-full, differing, feed_all, IsOpen, ahead, At}

module _ (digest : List ℕ → Text) where
  -- From `c` before the pieces `ps`, `bytes` lead to `d`, before `rest`.
  pub record Leads (ps : List PieceRecord) (c : PieceChecker) (bytes : List ℕ) (d : PieceChecker)
      : Type 0 where
    pub rest : List PieceRecord
    pub at : At digest rest d
    pub open_now : IsOpen digest rest d
    pub differs :
        (later : List ℕ)
        → c.report.mismatch_count + differing digest ps (c.fed ++ (bytes ++ later))
          ≡ d.report.mismatch_count + differing digest rest (d.fed ++ later)
    pub checked : d.report.pieces_checked + length rest ≡ c.report.pieces_checked + length ps
    pub covered :
        d.report.covered_bytes + ahead digest rest ≡ c.report.covered_bytes + ahead digest ps

  pub feed_loop-Leads :
      (n : ℕ) (ps : List PieceRecord) (c : PieceChecker) (bytes : List ℕ)
      → At digest ps c
      → IsOpen digest ps c
      → length bytes ≤ n
      → Leads ps c bytes (feed_loop digest n c bytes)
  unfolding feed_loop
  feed_loop-Leads zero ps c [] a o l = record {
    rest = ps;
    at = a;
    open_now = o;
    differs = λ later. refl;
    checked = refl;
    covered = refl;
  }
  feed_loop-Leads zero ps c (b ∷ bs) a o l = absurd (omega arith)
  feed_loop-Leads (suc n) ps c [] a o l = record {
    rest = ps;
    at = a;
    open_now = o;
    differs = λ later. refl;
    checked = refl;
    covered = refl;
  }
  feed_loop-Leads (suc n) [] c (b ∷ bs) a o l =
      rw (a.sound, a.here.0, feed_loop)
        (record {
          rest = [];
          at = a;
          open_now = tt;
          differs = λ later. refl;
          checked = refl;
          covered = refl;
        })
  feed_loop-Leads (suc n) (p ∷ ps) c (b ∷ bs) a o l =
      let n_taken = min (p.length - c.filled) (length (b ∷ bs)) in
      let taken = take n_taken (b ∷ bs) in
      let later_bytes = drop n_taken (b ∷ bs) in
      let g : PieceChecker = record c {
        fed = c.fed ++ taken;
        filled = c.filled + n_taken;
        report = record c.report { bytes_checked = c.report.bytes_checked + n_taken };
      } in
      let some_taken : 0 < n_taken = omega arith in
      let n_rest : length later_bytes ≡ length (b ∷ bs) - n_taken = length-drop n_taken (b ∷ bs) in
      let fewer : length later_bytes ≤ n = omega (arith, n_rest, some_taken) in
      let len : length taken ≡ n_taken = omega (arith, length-take n_taken (b ∷ bs)) in
      let held : length g.fed ≡ g.filled = length-append c.fed taken ∙ omega (arith, a.held, len) in
      let split : (later : List ℕ)
          → c.fed ++ ((b ∷ bs) ++ later) ≡ g.fed ++ (later_bytes ++ later) =
        λ later.
          ap (λ l. c.fed ++ l)
            (ap (λ l. l ++ later) (sym (take-append-drop n_taken (b ∷ bs)))
              ∙ append_assoc taken later_bytes later)
          ∙ sym (append_assoc c.fed taken (later_bytes ++ later)) in
      let at : At digest (p ∷ ps) g = record {
        sound = a.sound;
        held = held;
        full = a.full;
        here = a.here;
        listed = a.listed;
      } in
      elim (Bool-cases (c.filled + n_taken == p.length)) [
        | inl e ↦
            let whole : c.filled + n_taken ≡ p.length = ground arith in
            let d = advance (close_piece digest g) in
            let (at_d, open_d, fed, m, k, v) = close_piece_lem digest p ps g at in
            let on = feed_loop-Leads n ps d later_bytes at_d open_d fewer in
            rw (a.sound, a.here.0, e, feed_loop)
              (record {
                rest = on.rest;
                at = on.at;
                open_now = on.open_now;
                differs = λ later.
                    ap (λ l. c.report.mismatch_count + differing digest (p ∷ ps) l) (split later)
                    ∙ ap (λ k. c.report.mismatch_count + k)
                        (differing-full digest p ps g (later_bytes ++ later) held whole)
                    ∙ omega (arith, m)
                    ∙ ap
                        (λ l.
                          d.report.mismatch_count
                          + differing digest ps (l ++ (later_bytes ++ later)))
                        (sym fed)
                    ∙ on.differs later;
                checked = omega (arith, k, on.checked);
                covered = omega (arith, v, on.covered);
              })
        | inr e ↦
            let on = feed_loop-Leads n (p ∷ ps) g later_bytes at (ground arith) fewer in
            rw (a.sound, a.here.0, e, feed_loop)
              (record {
                rest = on.rest;
                at = on.at;
                open_now = on.open_now;
                differs = λ later.
                    ap (λ l. c.report.mismatch_count + differing digest (p ∷ ps) l) (split later)
                    ∙ on.differs later;
                checked = on.checked;
                covered = on.covered;
              })
      ]

  pub feed_all-Leads :
      (ps : List PieceRecord) (c : PieceChecker) (cs : List (List ℕ))
      → At digest ps c
      → IsOpen digest ps c
      → Leads ps c (concat cs) (feed_all digest c cs)
  unfolding feed
  feed_all-Leads ps c [] a o = record {
    rest = ps;
    at = a;
    open_now = o;
    differs = λ later. refl;
    checked = refl;
    covered = refl;
  }
  feed_all-Leads ps c (bytes ∷ cs) a o =
      let first = feed_loop-Leads (length bytes) ps c bytes a o (omega arith) in
      let on = feed_all-Leads first.rest (feed digest c bytes) cs first.at first.open_now in
      record {
        rest = on.rest;
        at = on.at;
        open_now = on.open_now;
        differs = λ later.
            ap (λ l. c.report.mismatch_count + differing digest ps (c.fed ++ l))
              (append_assoc bytes (concat cs) later)
            ∙ first.differs (concat cs ++ later)
            ∙ on.differs later;
        checked = omega (arith, first.checked, on.checked);
        covered = omega (arith, first.covered, on.covered);
      }
