-- ===== src/ReadErrors/Appending.antt =====
-- `push` of src/models/outcome.rs behind every range, as the engines call it while they advance.
use dfdisk.Prelude.{
  ℕ, ◌+◌, ◌-◌, ◌≤◌, ◌<◌, ◌≡◌, refl, ap, ◌∙◌, true, ◌&&◌, some, List, [], ◌∷◌, arith, ltb, leb, ◌==◌,
  if◌then◌else◌, u64_max, Bool-cases, inl, inr,
}
use mathlib.Core.Path.{subst}
use dfdisk.ReadErrors.{
  RangeKind, substituted, unread, same_kind, ReadErrorRange, ReadErrorTable, windows_ordered,
  push_range, push, sum_lengths, is_normalised, normalise, normalise_ranges, bytes_of,
}
use dfdisk.ReadErrors.Coverage.{
  state_at, Within, Within-le, Within-AreU64, Within-positive, covered-beyond,
}
use dfdisk.ReadErrors.Pushing.{
  fits, push_range-cons, push_range_lengths, fitting_covered, fitting_windows,
}

Within-fits :
    (b : ℕ) (rs : List ReadErrorRange) (r : ReadErrorRange)
    → Within b rs
    → b ≤ r.offset
    → fits rs r ≡ true
Within-fits b [] r w h = refl
Within-fits b (a ∷ []) r w h = ground arith
Within-fits b (a ∷ c ∷ rs) r w h = Within-fits b (c ∷ rs) r w.2 h

push_range-Within :
    (b n : ℕ) (rs : List ReadErrorRange) (r : ReadErrorRange)
    → Within b rs
    → b ≤ r.offset
    → 0 < r.length
    → r.offset + r.length ≤ n
    → n ≤ u64_max
    → Within n (push_range rs r)
push_range-Within b n [] r w h l e m = unfold push_range in ground arith
push_range-Within b n (a ∷ []) r w h l e m = unfold push_range in ground arith
push_range-Within b n (a ∷ c ∷ rs) r w h l e m = ground (
  arith,
  push_range-cons a c rs r (Within-fits b (c ∷ rs) r w.2 h),
  push_range-Within b n (c ∷ rs) r w.2 h l e m,
)

-- A table whose ranges are in order and end at `b` or before.
pub record EndsAt (b : ℕ) (t : ReadErrorTable) : Type 0 where
  pub within : Within b t.ranges
  pub ordered : windows_ordered t.ranges ≡ true

pub EndsAt-normalise :
    (b : ℕ) (t : ReadErrorTable) → EndsAt b t → normalise_ranges t.ranges ≡ t.ranges
unfolding normalise_ranges is_normalised
EndsAt-normalise b t e = ground (arith, Within-positive b t.ranges e.within, e.ordered)

-- Such a table is normalised, so that its bytes are summed as they stand.
pub EndsAt-bytes_of :
    (b : ℕ) (t : ReadErrorTable) (k : RangeKind)
    → EndsAt b t
    → bytes_of t k ≡ sum_lengths k t.ranges
unfolding bytes_of normalise
EndsAt-bytes_of b t k e = ap (sum_lengths k) (EndsAt-normalise b t e)

-- `push` of `len` bytes behind `b`: the table ends at `b + len`, the new bytes get the kind, all
-- other bytes keep their state, and the length counts for the kind.
pub push_behind :
    (t : ReadErrorTable) (b len : ℕ) (kind : RangeKind)
    → b + len ≤ u64_max
    → EndsAt b t
    → EndsAt (b + len) (push t b len kind)
      × ((x : ℕ)
          → state_at (push t b len kind).ranges x
            ≡ (if leb b x && ltb x (b + len) then some kind else state_at t.ranges x))
      × ((k : RangeKind)
          → sum_lengths k (push t b len kind).ranges
            ≡ sum_lengths k t.ranges + (if same_kind kind k then len else 0))
unfolding push
push_behind t b len kind m e =
    let r : ReadErrorRange = record { offset = b; length = len; kind = kind } in
    elim (Bool-cases (len == 0)) [
      | inl z ↦ rw z (
        record { within = Within-le t.ranges (omega arith) e.within; ordered = e.ordered },
        λ x. ground arith,
        λ k. ground arith,
      )
      | inr z ↦
          let u = Within-AreU64 t.ranges (omega arith) e.within in
          let f = Within-fits b t.ranges r e.within (omega arith) in
          let long : 0 < len = ground arith in
          rw z (
            record {
              within =
                  push_range-Within b (b + len) t.ranges r e.within (omega arith) long (omega arith)
                    m;
              ordered = fitting_windows r (omega arith) t.ranges u f e.ordered;
            },
            λ x. ground (
              arith,
              fitting_covered r (omega arith) t.ranges substituted x u f,
              fitting_covered r (omega arith) t.ranges unread x u f,
              covered-beyond substituted t.ranges x e.within,
              covered-beyond unread t.ranges x e.within,
            ),
            λ k. push_range_lengths t.ranges r k (omega arith) long u f,
          )
    ]

-- The same from `b` up to `n`.
pub push_up_to :
    (t : ReadErrorTable) (b n : ℕ) (kind : RangeKind)
    → b ≤ n
    → n ≤ u64_max
    → EndsAt b t
    → EndsAt n (push t b (n - b) kind)
      × ((x : ℕ)
          → state_at (push t b (n - b) kind).ranges x
            ≡ (if leb b x && ltb x n then some kind else state_at t.ranges x))
      × ((k : RangeKind)
          → sum_lengths k (push t b (n - b) kind).ranges
            ≡ sum_lengths k t.ranges + (if same_kind kind k then n - b else 0))
push_up_to t b n kind h m e =
    let same : b + (n - b) ≡ n = omega arith in
    let (ends, states, lengths) = push_behind t b (n - b) kind (omega arith) e in
    (
      subst (λ x. EndsAt x (push t b (n - b) kind)) same ends,
      λ x. states x ∙ ap (λ y. if leb b x && ltb x y then some kind else state_at t.ranges x) same,
      lengths,
    )
