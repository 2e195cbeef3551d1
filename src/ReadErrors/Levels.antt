-- ===== src/ReadErrors/Levels.antt =====
-- Counting range ends: what the events of src/models/outcome.rs `normalise` say about coverage.
use dfdisk.Prelude.{
  ℕ, ◌+◌, ◌≤◌, ◌<◌, ◌≡◌, refl, Bool, ◌&&◌, List, [], ◌∷◌, arith, ltb, leb, if◌then◌else◌, u64_max,
}
use dfdisk.Prelude.Int.{pos_part, neg_part}
use dfdisk.ReadErrors.{
  RangeKind, same_kind, ReadErrorRange, Event, events_of, insert_event, sort_events,
}
use dfdisk.ReadErrors.Coverage.{covers, covered, AreU64}

abbrev reaches : RangeKind → ℕ → Event → Bool
reaches k x e = same_kind e.kind k && leb e.at x

-- The increments, and the decrements, of one kind at positions up to `x`.
abbrev pub ups : RangeKind → ℕ → List Event → ℕ
ups k x [] = 0
ups k x (e ∷ es) = (if reaches k x e then pos_part e.delta else 0) + ups k x es

abbrev pub downs : RangeKind → ℕ → List Event → ℕ
downs k x [] = 0
downs k x (e ∷ es) = (if reaches k x e then neg_part e.delta else 0) + downs k x es

-- How many ranges of the kind cover `x`.
abbrev pub depth : RangeKind → ℕ → List ReadErrorRange → ℕ
depth k x [] = 0
depth k x (r ∷ rs) = (if same_kind r.kind k && covers r x then 1 else 0) + depth k x rs

pub covered-depth :
    (k : RangeKind) (x : ℕ) (rs : List ReadErrorRange) → covered k rs x ≡ ltb 0 (depth k x rs)
covered-depth k x [] = refl
covered-depth k x (r ∷ rs) = ground (arith, covered-depth k x rs)

pub events_of_level :
    (k : RangeKind) (x : ℕ) (rs : List ReadErrorRange)
    → AreU64 rs
    → ups k x (events_of rs) ≡ downs k x (events_of rs) + depth k x rs
unfolding events_of
events_of_level k x [] h = omega arith
events_of_level k x (r ∷ rs) h = ground (arith, events_of_level k x rs h.1)

ups-insert_event :
    (k : RangeKind) (x : ℕ) (e : Event) (es : List Event)
    → ups k x (insert_event e es) ≡ ups k x (e ∷ es)
unfolding insert_event
ups-insert_event k x e [] = refl
ups-insert_event k x e (f ∷ es) = ground (arith, ups-insert_event k x e es)

downs-insert_event :
    (k : RangeKind) (x : ℕ) (e : Event) (es : List Event)
    → downs k x (insert_event e es) ≡ downs k x (e ∷ es)
unfolding insert_event
downs-insert_event k x e [] = refl
downs-insert_event k x e (f ∷ es) = ground (arith, downs-insert_event k x e es)

pub ups-sort_events :
    (k : RangeKind) (x : ℕ) (es : List Event) → ups k x (sort_events es) ≡ ups k x es
unfolding sort_events
ups-sort_events k x [] = refl
ups-sort_events k x (e ∷ es) =
    omega (arith, ups-insert_event k x e (sort_events es), ups-sort_events k x es)

pub downs-sort_events :
    (k : RangeKind) (x : ℕ) (es : List Event) → downs k x (sort_events es) ≡ downs k x es
unfolding sort_events
downs-sort_events k x [] = refl
downs-sort_events k x (e ∷ es) =
    omega (arith, downs-insert_event k x e (sort_events es), downs-sort_events k x es)

-- Positions from `b` on, in order, and none above `u64::MAX`.
abbrev pub Ascending : ℕ → List Event → Type 0
Ascending b [] = Unit
Ascending b (e ∷ es) = (b ≤ e.at) × (e.at ≤ u64_max) × Ascending e.at es

abbrev Bounded : List Event → Type 0
Bounded [] = Unit
Bounded (e ∷ es) = (e.at ≤ u64_max) × Bounded es

insert_event-Ascending :
    (b : ℕ) (e : Event) (es : List Event)
    → b ≤ e.at
    → e.at ≤ u64_max
    → Ascending b es
    → Ascending b (insert_event e es)
unfolding insert_event
insert_event-Ascending b e [] h m a = ground arith
insert_event-Ascending b e (f ∷ es) h m a = ground (arith, insert_event-Ascending f.at e es)

sort_events-Ascending : (es : List Event) → Bounded es → Ascending 0 (sort_events es)
unfolding sort_events
sort_events-Ascending [] h = tt
sort_events-Ascending (e ∷ es) h =
    insert_event-Ascending 0 e (sort_events es) (omega arith) h.0 (sort_events-Ascending es h.1)

events_of-Bounded : (rs : List ReadErrorRange) → AreU64 rs → Bounded (events_of rs)
unfolding events_of
events_of-Bounded [] h = tt
events_of-Bounded (r ∷ rs) h = ground (arith, events_of-Bounded rs h.1)

pub sorted-Ascending :
    (rs : List ReadErrorRange) → AreU64 rs → Ascending 0 (sort_events (events_of rs))
sorted-Ascending rs h = sort_events-Ascending (events_of rs) (events_of-Bounded rs h)

pub Ascending-ups_zero :
    (k : RangeKind) {b : ℕ} (x : ℕ) (es : List Event)
    → Ascending b es
    → x < b
    → (ups k x es ≡ 0) × (downs k x es ≡ 0)
Ascending-ups_zero k x [] a h = (refl, refl)
Ascending-ups_zero k x (e ∷ es) a h = ground (arith, Ascending-ups_zero k x es a.2)
