-- ===== src/ReadErrors/Pushing.antt =====
-- `push` of src/models/outcome.rs.
use dfdisk.Prelude.{
  ℕ, ◌+◌, ◌≤◌, ◌<◌, ◌≡◌, ◌∙◌, min, Bool, true, false, ◌&&◌, ◌||◌, Option, none, some, List, [], ◌∷◌,
  ◌++◌, arith, ltb, leb, ◌==◌, if◌then◌else◌, u64_max, Bool-cases, inl, inr,
}
use dfdisk.ReadErrors.{
  RangeKind, substituted, unread, same_kind, ReadErrorRange, ReadErrorTable, end, is_normalised,
  all_positive, windows_ordered, last?, normalise_ranges, push_range, push, sum_lengths,
}
use dfdisk.ReadErrors.Coverage.{covers, covered, state_at, AreU64, covered-append}
use dfdisk.ReadErrors.Normal.{worst, normalise_state, normalise-IsNormalised, append-AreU64}

-- The range starts at the end of the last one or behind it: `push` does not sweep.
abbrev pub fits : List ReadErrorRange → ReadErrorRange → Bool
fits rs r = elim (last? rs) [ none ↦ true | some l ↦ leb (end l) r.offset ]

pub push_range-cons :
    (a b : ReadErrorRange) (rs : List ReadErrorRange) (r : ReadErrorRange)
    → fits (b ∷ rs) r ≡ true
    → push_range (a ∷ b ∷ rs) r ≡ a ∷ push_range (b ∷ rs) r
unfolding push_range
push_range-cons a b rs r f = ground arith

push_range_sweeps :
    (rs : List ReadErrorRange) (r : ReadErrorRange)
    → fits rs r ≡ false
    → push_range rs r ≡ normalise_ranges (rs ++ r ∷ [])
unfolding push_range
push_range_sweeps rs r f = ground arith

module _ (r : ReadErrorRange) (low : r.offset < u64_max) where
  pub fitting_covered :
      (rs : List ReadErrorRange) (k : RangeKind) (x : ℕ)
      → AreU64 rs
      → fits rs r ≡ true
      → covered k (push_range rs r) x ≡ (covered k rs x || same_kind r.kind k && covers r x)
  fitting_covered [] k x u f = unfold push_range in ground arith
  fitting_covered (a ∷ []) k x u f = unfold push_range in ground arith
  fitting_covered (a ∷ b ∷ rs) k x u f =
      ground (arith, push_range-cons a b rs r f, fitting_covered (b ∷ rs) k x u.1 f)

  fitting_positive :
      (rs : List ReadErrorRange)
      → AreU64 rs
      → 0 < r.length
      → fits rs r ≡ true
      → all_positive rs ≡ true
      → all_positive (push_range rs r) ≡ true
  fitting_positive [] u l f p = unfold push_range in ground arith
  fitting_positive (a ∷ []) u l f p = unfold push_range in ground arith
  fitting_positive (a ∷ b ∷ rs) u l f p =
      ground (arith, push_range-cons a b rs r f, fitting_positive (b ∷ rs) u.1 l f)

  pub fitting_windows :
      (rs : List ReadErrorRange)
      → AreU64 rs
      → fits rs r ≡ true
      → windows_ordered rs ≡ true
      → windows_ordered (push_range rs r) ≡ true
  fitting_windows [] u f o = unfold push_range in ground arith
  fitting_windows (a ∷ []) u f o = unfold push_range in ground arith
  fitting_windows (a ∷ b ∷ []) u f o = unfold push_range in ground arith
  fitting_windows (a ∷ b ∷ c ∷ rs) u f o = ground (
    arith,
    push_range-cons a b (c ∷ rs) r f,
    push_range-cons b c rs r f,
    fitting_windows (b ∷ c ∷ rs) u.1 f,
  )

-- A push that needs no sweep adds the length of its range to the bytes of its kind.
pub push_range_lengths :
    (rs : List ReadErrorRange) (r : ReadErrorRange) (k : RangeKind)
    → r.offset + r.length ≤ u64_max
    → 0 < r.length
    → AreU64 rs
    → fits rs r ≡ true
    → sum_lengths k (push_range rs r)
      ≡ sum_lengths k rs + (if same_kind r.kind k then r.length else 0)
push_range_lengths [] r k h l u f = unfold push_range in ground arith
push_range_lengths (a ∷ []) r k h l u f = unfold push_range in ground arith
push_range_lengths (a ∷ b ∷ rs) r k h l u f =
    ground (arith, push_range-cons a b rs r f, push_range_lengths (b ∷ rs) r k h l u.1 f)

-- What `push` says of a byte beside the table it is given.
abbrev pub pushed_state : ℕ → ℕ → RangeKind → ℕ → Option RangeKind
pushed_state offset len kind x =
    if leb offset x && ltb x (min (offset + len) u64_max) then some kind else none

-- `push_range` with a range that is not empty.
push_range_state :
    (rs : List ReadErrorRange) (r : ReadErrorRange) (x : ℕ)
    → r.offset < u64_max
    → 0 < r.length
    → AreU64 rs
    → is_normalised rs ≡ true
    → (state_at (push_range rs r) x
        ≡ worst (state_at rs x) (if covers r x then some r.kind else none))
      × (is_normalised (push_range rs r) ≡ true)
push_range_state rs r x low l u n = elim (Bool-cases (fits rs r)) [
  | inl f ↦ (
    ground
        (arith, fitting_covered r low rs substituted x u f, fitting_covered r low rs unread x u f),
    unfold is_normalised in
        ground (arith, fitting_positive r low rs u l f, fitting_windows r low rs u f),
  )
  | inr f ↦
      let both = rs ++ r ∷ [] in
      let wide = append-AreU64 rs (r ∷ []) u (omega arith, tt) in
      rw (push_range_sweeps rs r f) (
        normalise_state both x wide
            ∙ ground (
              arith,
              covered-append substituted rs (r ∷ []) x,
              covered-append unread rs (r ∷ []) x,
            ),
        normalise-IsNormalised both wide,
      )
]

-- `push` on a normalised table, in any order: every byte gets the more conservative of what the
-- table said and what the new range says, and the table stays normalised. The offset is below
-- `u64::MAX`.
pub push_state :
    (t : ReadErrorTable) (offset len : ℕ) (kind : RangeKind) (x : ℕ)
    → offset < u64_max
    → AreU64 t.ranges
    → is_normalised t.ranges ≡ true
    → (state_at (push t offset len kind).ranges x
        ≡ worst (state_at t.ranges x) (pushed_state offset len kind x))
      × (is_normalised (push t offset len kind).ranges ≡ true)
unfolding push
push_state t offset len kind x low u n =
    let r : ReadErrorRange = record { offset = offset; length = len; kind = kind } in
    elim (Bool-cases (len == 0)) [
      | inl z ↦ ground arith
      | inr z ↦ rw z (push_range_state t.ranges r x low (ground arith) u n)
    ]
