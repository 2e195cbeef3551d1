-- ===== src/ReadErrors/Coverage.antt =====
-- What a list of ranges says of one byte of the source.
use dfdisk.Prelude.{
  ℕ, ◌+◌, ◌≤◌, ◌<◌, ◌≡◌, refl, Bool, true, false, ◌&&◌, ◌||◌, Option, none, some, List, [], ◌∷◌,
  ◌++◌, arith, ltb, leb, if◌then◌else◌, u64_max,
}
use dfdisk.ReadErrors.{RangeKind, substituted, unread, same_kind, ReadErrorRange, end, all_positive}

abbrev pub covers : ReadErrorRange → ℕ → Bool
covers r x = leb r.offset x && ltb x (end r)

abbrev pub covered : RangeKind → List ReadErrorRange → ℕ → Bool
covered k [] x = false
covered k (r ∷ rs) x = same_kind r.kind k && covers r x || covered k rs x

-- Where ranges of both kinds overlap, the byte counts as unread.
abbrev pub verdict : Bool → Bool → Option RangeKind
verdict s u = if u then some unread else if s then some substituted else none

-- The abstract view of a table: how each byte is represented in the image.
abbrev pub state_at : List ReadErrorRange → ℕ → Option RangeKind
state_at rs x = verdict (covered substituted rs x) (covered unread rs x)

-- Offsets and lengths are `u64`s.
abbrev pub AreU64 : List ReadErrorRange → Type 0
AreU64 [] = Unit
AreU64 (r ∷ rs) = (r.offset ≤ u64_max) × AreU64 rs

-- Every range is non-empty and ends at `b` or before, so that no end saturates.
abbrev pub Within : ℕ → List ReadErrorRange → Type 0
Within b [] = Unit
Within b (r ∷ rs) = (0 < r.length) × (r.offset + r.length ≤ b) × Within b rs

pub Within-le : {a b : ℕ} (rs : List ReadErrorRange) → a ≤ b → Within a rs → Within b rs
Within-le [] h w = tt
Within-le (r ∷ rs) h w = ground (arith, Within-le rs h w.2)

pub Within-AreU64 : {b : ℕ} (rs : List ReadErrorRange) → b ≤ u64_max → Within b rs → AreU64 rs
Within-AreU64 [] h w = tt
Within-AreU64 (r ∷ rs) h w = ground (arith, Within-AreU64 rs h w.2)

pub Within-positive : (b : ℕ) (rs : List ReadErrorRange) → Within b rs → all_positive rs ≡ true
Within-positive b [] w = refl
Within-positive b (r ∷ rs) w = ground (arith, Within-positive b rs w.2)

-- Nothing is covered at or beyond the bound.
pub covered-beyond :
    (k : RangeKind) {b : ℕ} (rs : List ReadErrorRange) (x : ℕ)
    → Within b rs
    → b ≤ x
    → covered k rs x ≡ false
covered-beyond k [] x w h = refl
covered-beyond k (r ∷ rs) x w h = ground (arith, covered-beyond k rs x w.2 h)

pub covered-append :
    (k : RangeKind) (rs ss : List ReadErrorRange) (x : ℕ)
    → covered k (rs ++ ss) x ≡ (covered k rs x || covered k ss x)
covered-append k [] ss x = refl
covered-append k (r ∷ rs) ss x = ground (arith, covered-append k rs ss x)
