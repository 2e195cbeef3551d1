-- ===== src/ReadErrors/Normal.antt =====
-- `normalise` and `merge` of src/models/outcome.rs.
use native.Mathlib.Nat.{le_refl}
use dfdisk.Prelude.{
  ℕ, ◌+◌, ◌≤◌, ◌≡◌, ◌⊎◌, refl, ◌∙◌, true, Option, none, some, List, [], ◌∷◌, ◌++◌, arith, u64_max,
  length, Bool-cases, inl, inr,
}
use dfdisk.ReadErrors.{
  RangeKind, substituted, unread, ReadErrorRange, ReadErrorTable, is_normalised, sweep_start, sweep,
  sort_events, events_of, normalise_ranges, normalise, insert_range, sort_ranges, merge, Sweep,
  Event,
}
use dfdisk.ReadErrors.Coverage.{covered, state_at, AreU64, Within, Within-positive, covered-append}
use dfdisk.ReadErrors.Levels.{
  ups, downs, depth, covered-depth, events_of_level, ups-sort_events, downs-sort_events,
  sorted-Ascending,
}
use dfdisk.ReadErrors.Sweeping.{Inv, sweep-Inv, sweep_state}

abbrev events : List ReadErrorRange → List Event
events rs = sort_events (events_of rs)

abbrev swept : List ReadErrorRange → Sweep
swept rs = sweep (length (events rs)) sweep_start (events rs)

events_level :
    (k : RangeKind) (x : ℕ) (rs : List ReadErrorRange)
    → AreU64 rs
    → ups k x (events rs) ≡ downs k x (events rs) + depth k x rs
events_level k x rs h = omega (
  arith,
  ups-sort_events k x (events_of rs),
  downs-sort_events k x (events_of rs),
  events_of_level k x rs h,
)

depth-max : (k : RangeKind) (rs : List ReadErrorRange) → depth k u64_max rs ≡ 0
depth-max k [] = refl
depth-max k (r ∷ rs) = ground (arith, depth-max k rs)

start-Inv : (rs : List ReadErrorRange) → AreU64 rs → Inv sweep_start (events rs)
start-Inv rs h = record {
  within = tt;
  ordered = refl;
  in_range = omega arith;
  ascending = sorted-Ascending rs h;
  balanced_substituted =
      omega (arith, events_level substituted u64_max rs h, depth-max substituted rs);
  balanced_unread = omega (arith, events_level unread u64_max rs h, depth-max unread rs);
}

swept_state :
    (rs : List ReadErrorRange) (x : ℕ) → AreU64 rs → state_at (swept rs).out x ≡ state_at rs x
swept_state rs x h =
    sweep_state (length (events rs)) sweep_start (events rs) x (le_refl _) (start-Inv rs h)
    ∙ ground (
      arith,
      events_level substituted x rs h,
      events_level unread x rs h,
      covered-depth substituted x rs,
      covered-depth unread x rs,
    )

swept-IsNormalised : (rs : List ReadErrorRange) → AreU64 rs → is_normalised (swept rs).out ≡ true
unfolding is_normalised
swept-IsNormalised rs h =
    let i = sweep-Inv (length (events rs)) sweep_start (events rs) (le_refl _) (start-Inv rs h) in
    ground (arith, Within-positive (swept rs).prev_pos (swept rs).out i.within, i.ordered)

-- `normalise` says the same of every byte as the ranges that it was given, in any order and however
-- they overlap: unread where an unread range covers the byte, else substituted where a substituted
-- one does, else nothing. Offsets are `u64`s; ends may saturate.
pub normalise_state :
    (rs : List ReadErrorRange) (x : ℕ)
    → AreU64 rs
    → state_at (normalise_ranges rs) x ≡ state_at rs x
unfolding normalise_ranges
normalise_state rs x h = elim (Bool-cases (is_normalised rs)) [
  | inl e ↦ rw e
  | inr e ↦ rw e (swept_state rs x h)
]

-- What `normalise` leaves satisfies the documented invariant: no empty range, sorted, no overlap,
-- and neighbours of one kind merged.
pub normalise-IsNormalised :
    (rs : List ReadErrorRange) → AreU64 rs → is_normalised (normalise_ranges rs) ≡ true
unfolding normalise_ranges
normalise-IsNormalised rs h = elim (Bool-cases (is_normalised rs)) [
  | inl e ↦ rw e e
  | inr e ↦ rw e (swept-IsNormalised rs h)
]

-- What the sweep writes does not saturate.
pub normalise-Within :
    (rs : List ReadErrorRange)
    → AreU64 rs
    → (normalise_ranges rs ≡ rs) × (is_normalised rs ≡ true)
      ⊎ ((b : ℕ) × (b ≤ u64_max) × Within b (normalise_ranges rs))
unfolding normalise_ranges
normalise-Within rs h = elim (Bool-cases (is_normalised rs)) [
  | inl e ↦ rw e (inl (refl, refl))
  | inr e ↦
      let n = length (events rs) in
      let i = sweep-Inv n sweep_start (events rs) (le_refl _) (start-Inv rs h) in
      rw e (inr ((swept rs).prev_pos, i.in_range, i.within))
]

insert_range-covered :
    (k : RangeKind) (r : ReadErrorRange) (rs : List ReadErrorRange) (x : ℕ)
    → covered k (insert_range r rs) x ≡ covered k (r ∷ rs) x
unfolding insert_range
insert_range-covered k r [] x = refl
insert_range-covered k r (s ∷ rs) x = ground (arith, insert_range-covered k r rs x)

sort_ranges-covered :
    (k : RangeKind) (rs : List ReadErrorRange) (x : ℕ)
    → covered k (sort_ranges rs) x ≡ covered k rs x
unfolding sort_ranges
sort_ranges-covered k [] x = refl
sort_ranges-covered k (r ∷ rs) x =
    ground (arith, insert_range-covered k r (sort_ranges rs) x, sort_ranges-covered k rs x)

insert_range-AreU64 :
    (r : ReadErrorRange) (rs : List ReadErrorRange)
    → r.offset ≤ u64_max
    → AreU64 rs
    → AreU64 (insert_range r rs)
unfolding insert_range
insert_range-AreU64 r [] h a = (h, tt)
insert_range-AreU64 r (s ∷ rs) h a = ground (arith, insert_range-AreU64 r rs h a.1)

sort_ranges-AreU64 : (rs : List ReadErrorRange) → AreU64 rs → AreU64 (sort_ranges rs)
unfolding sort_ranges
sort_ranges-AreU64 [] a = tt
sort_ranges-AreU64 (r ∷ rs) a =
    insert_range-AreU64 r (sort_ranges rs) a.0 (sort_ranges-AreU64 rs a.1)

pub append-AreU64 : (rs ss : List ReadErrorRange) → AreU64 rs → AreU64 ss → AreU64 (rs ++ ss)
append-AreU64 [] ss a b = b
append-AreU64 (r ∷ rs) ss a b = (a.0, append-AreU64 rs ss a.1 b)

-- The more conservative of two statements.
abbrev pub worst : Option RangeKind → Option RangeKind → Option RangeKind
worst (some unread) _ = some unread
worst (some substituted) (some unread) = some unread
worst (some substituted) _ = some substituted
worst none b = b

-- `merge` is the union: it says of every byte the more conservative of what the two tables say,
-- and leaves the table normalised.
pub merge_state :
    (t u : ReadErrorTable) (x : ℕ)
    → AreU64 t.ranges
    → AreU64 u.ranges
    → (state_at (merge t u).ranges x ≡ worst (state_at t.ranges x) (state_at u.ranges x))
      × (is_normalised (merge t u).ranges ≡ true)
unfolding merge normalise
merge_state t u x a b =
    let both = t.ranges ++ u.ranges in
    let sorted = sort_ranges-AreU64 both (append-AreU64 t.ranges u.ranges a b) in
    (
      normalise_state (sort_ranges both) x sorted
          ∙ ground (
            arith,
            sort_ranges-covered substituted both x,
            sort_ranges-covered unread both x,
            covered-append substituted t.ranges u.ranges x,
            covered-append unread t.ranges u.ranges x,
          ),
      normalise-IsNormalised (sort_ranges both) sorted,
    )
