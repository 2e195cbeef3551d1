-- ===== src/ReadErrors/Extend.antt =====
-- Appending a segment behind all ranges, in `normalise` of src/models/outcome.rs.
use dfdisk.Prelude.{ℕ, ◌≤◌, ◌<◌, ◌≡◌, true, ◌&&◌, ◌||◌, List, [], ◌∷◌, arith, ltb, leb, u64_max}
use dfdisk.ReadErrors.{RangeKind, same_kind, ReadErrorRange, windows_ordered, extend}
use dfdisk.ReadErrors.Coverage.{covered, Within}

extend-cons :
    (a b : ReadErrorRange) (rs : List ReadErrorRange) (from to : ℕ) (k : RangeKind)
    → extend (a ∷ b ∷ rs) from to k ≡ a ∷ extend (b ∷ rs) from to k
unfolding extend
extend-cons a b rs from to k = ground arith

module _ (from to : ℕ) (k : RangeKind) (forward : from < to) (in_range : to ≤ u64_max) where
  pub extend-covered :
      (out : List ReadErrorRange) (j : RangeKind) (x : ℕ)
      → Within from out
      → covered j (extend out from to k) x
        ≡ (covered j out x || (same_kind k j && (leb from x && ltb x to)))
  extend-covered [] j x w = unfold extend in ground arith
  extend-covered (a ∷ []) j x w = unfold extend in ground arith
  extend-covered (a ∷ b ∷ rs) j x w =
      ground (arith, extend-cons a b rs from to k, extend-covered (b ∷ rs) j x w.2)

  pub extend-Within :
      (out : List ReadErrorRange) → Within from out → Within to (extend out from to k)
  extend-Within [] w = unfold extend in ground arith
  extend-Within (a ∷ []) w = unfold extend in ground arith
  extend-Within (a ∷ b ∷ rs) w =
      ground (arith, extend-cons a b rs from to k, extend-Within (b ∷ rs) w.2)

  -- The new end is behind every end, and a neighbour of the same kind is merged.
  pub extend-windows :
      (out : List ReadErrorRange)
      → Within from out
      → windows_ordered out ≡ true
      → windows_ordered (extend out from to k) ≡ true
  extend-windows [] w o = unfold extend in ground arith
  extend-windows (a ∷ []) w o = unfold extend in ground arith
  extend-windows (a ∷ b ∷ []) w o = unfold extend in ground arith
  extend-windows (a ∷ b ∷ c ∷ rs) w o = ground (
    arith,
    extend-cons a b (c ∷ rs) from to k,
    extend-cons b c rs from to k,
    extend-windows (b ∷ c ∷ rs) w.2,
  )
