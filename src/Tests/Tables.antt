-- ===== src/Tests/Tables.antt =====
-- The read error table of src/models/outcome.rs on concrete ranges.
use dfdisk.Prelude.{ℕ, ◌≡◌, refl, true, some, List, [], ◌∷◌, arith}
use dfdisk.ReadErrors.{
  RangeKind, substituted, unread, ReadErrorRange, ReadErrorTable, is_normalised, normalise_ranges,
  push, merge, bytes_of,
}
use dfdisk.ReadErrors.Coverage.{state_at, AreU64}
use dfdisk.ReadErrors.Normal.{normalise_state, normalise-IsNormalised, merge_state}
use dfdisk.ReadErrors.Pushing.{push_state}
use dfdisk.ReadErrors.Totals.{bytes_in, bytes_of-bytes_in}

abbrev range : ℕ → ℕ → RangeKind → ReadErrorRange
range offset len kind = record { offset = offset; length = len; kind = kind }

-- Out of order, overlapping, and with an empty range.
abbrev messy : List ReadErrorRange
messy = range 4096 0 substituted ∷ range 512 1024 unread ∷ range 0 1024 substituted ∷ []

messy-AreU64 : AreU64 messy
messy-AreU64 = (omega arith, (omega arith, (omega arith, tt)))

abbrev messy_table : ReadErrorTable
messy_table = record { sector_size = 512; ranges = messy; source = [] }

abbrev one_range : ReadErrorTable
one_range = record { sector_size = 512; ranges = range 1024 1024 substituted ∷ []; source = [] }

normalise_state_example : state_at (normalise_ranges messy) 600 ≡ some unread
normalise_state_example = normalise_state messy 600 messy-AreU64

normalise-IsNormalised_example : is_normalised (normalise_ranges messy) ≡ true
normalise-IsNormalised_example = normalise-IsNormalised messy messy-AreU64

merge_state_example :
    (state_at (merge messy_table one_range).ranges 1600 ≡ some substituted)
    × (is_normalised (merge messy_table one_range).ranges ≡ true)
merge_state_example = merge_state messy_table one_range 1600 messy-AreU64 (omega arith, tt)

one_range_normal : is_normalised one_range.ranges ≡ true
unfolding is_normalised
one_range_normal = refl

-- In front of the last range, so that the table is swept.
push_state_example :
    (state_at (push one_range 512 1024 unread).ranges 1200 ≡ some unread)
    × (is_normalised (push one_range 512 1024 unread).ranges ≡ true)
push_state_example =
    push_state one_range 512 1024 unread 1200 (omega arith) (omega arith, tt) one_range_normal

bytes_of-bytes_in_example : bytes_of messy_table substituted ≡ bytes_in substituted messy 4096
bytes_of-bytes_in_example =
    bytes_of-bytes_in messy_table substituted 4096 (omega arith)
      (omega arith, (omega arith, (omega arith, tt)))
