-- ===== src/ReadErrors.antt =====
-- src/models/outcome.rs, the read error table: the ranges of the source that the image does not
-- hold as read.
pub mod Coverage
pub mod Extend
pub mod Levels
pub mod Sweeping
pub mod Normal
pub mod Pushing
pub mod Totals
pub mod Appending
use dfdisk.Prelude.{
  ℕ, zero, suc, ◌+◌, ◌-◌, ◌/◌, Bool, true, false, not, ◌&&◌, ◌||◌, Option, none, some, List, [],
  ◌∷◌, ◌++◌, ltb, leb, ◌==◌, if◌then◌else◌, saturating_add, saturating_mul, div_ceil, max, min,
  Text, codes, same_text, is_empty, length,
}
use dfdisk.Prelude.Int.{ℤ, pos, negsuc, ◌+ℤ◌, ltb_ℤ}

pub data RangeKind : Type 0 where
  substituted unread : RangeKind

abbrev pub same_kind : RangeKind → RangeKind → Bool
same_kind substituted substituted = true
same_kind unread unread = true
same_kind _ _ = false

pub record ReadErrorRange : Type 0 where
  pub offset : ℕ
  pub length : ℕ
  pub kind : RangeKind

-- One past the last byte, saturating.
abbrev pub end : ReadErrorRange → ℕ
end r = saturating_add r.offset r.length

-- Sectors that a range touches, partial sectors at either end included.
unfoldable pub sectors_in : ReadErrorRange → ℕ → ℕ
sectors_in r sector_size =
    let s = max sector_size 1 in if r.length == 0 then 0 else div_ceil (end r) s - r.offset / s

pub record ReadErrorTable : Type 0 where
  pub sector_size : ℕ
  pub ranges : List ReadErrorRange
  pub source : Text

abbrev pub empty_table : ℕ → Text → ReadErrorTable
empty_table sector_size source = record { sector_size = sector_size; ranges = []; source = source }

unfoldable pub effective_sector_size : ReadErrorTable → ℕ
effective_sector_size t = if t.sector_size == 0 then 512 else t.sector_size

-- `last`, and a write through `last_mut`
abbrev pub last? {ℓ} : {A : Type ℓ} → List A → Option A
last? [] = none
last? (x ∷ []) = some x
last? (x ∷ y ∷ ys) = last? (y ∷ ys)

abbrev pub set_last {ℓ} : {A : Type ℓ} → List A → A → List A
set_last [] v = []
set_last (x ∷ []) v = v ∷ []
set_last (x ∷ y ∷ ys) v = x ∷ set_last (y ∷ ys) v

-- The two halves of `is_normalised`: no empty range, and every window of two in order.
abbrev pub all_positive : List ReadErrorRange → Bool
all_positive [] = true
all_positive (r ∷ rs) = ltb 0 r.length && all_positive rs

abbrev pub in_order : ReadErrorRange → ReadErrorRange → Bool
in_order a b = ltb (end a) b.offset || b.offset == end a && not (same_kind b.kind a.kind)

abbrev pub windows_ordered : List ReadErrorRange → Bool
windows_ordered [] = true
windows_ordered (a ∷ []) = true
windows_ordered (a ∷ b ∷ rs) = in_order a b && windows_ordered (b ∷ rs)

unfoldable pub is_normalised : List ReadErrorRange → Bool
is_normalised rs = all_positive rs && windows_ordered rs

-- One end of a range, as `normalise` sweeps over them.
pub record Event : Type 0 where
  pub at : ℕ
  pub delta : ℤ
  pub kind : RangeKind

unfoldable pub events_of : List ReadErrorRange → List Event
events_of [] = []
events_of (r ∷ rs) =
    let rest = events_of rs in
    if ltb 0 r.length
    then record { at = r.offset; delta = pos 1; kind = r.kind }
      ∷ record { at = end r; delta = negsuc 0; kind = r.kind }
      ∷ rest
    else rest

-- `sort_by_key` by position, which is stable.
unfoldable pub insert_event : Event → List Event → List Event
insert_event e [] = e ∷ []
insert_event e (x ∷ xs) = if leb e.at x.at then e ∷ x ∷ xs else x ∷ insert_event e xs

unfoldable pub sort_events : List Event → List Event
sort_events [] = []
sort_events (e ∷ es) = insert_event e (sort_events es)

-- The variables of the sweep.
pub record Sweep : Type 0 where
  pub out : List ReadErrorRange
  pub substituted_count : ℤ
  pub unread_count : ℤ
  pub prev_pos : ℕ

-- The kind of the segment behind the current position.
abbrev pub current : Sweep → Option RangeKind
current s =
    if ltb_ℤ (pos 0) s.unread_count
    then some unread
    else if ltb_ℤ (pos 0) s.substituted_count
    then some substituted
    else none

-- Append the segment from `from` to `to`, or lengthen the last range by it.
unfoldable pub extend : List ReadErrorRange → ℕ → ℕ → RangeKind → List ReadErrorRange
extend out from to kind =
    let fresh : ReadErrorRange = record { offset = from; length = to - from; kind = kind } in
    elim (last? out) [
      | none ↦ out ++ fresh ∷ []
      | some l ↦
          if end l == from && same_kind l.kind kind
          then set_last out (record l { length = to - l.offset })
          else out ++ fresh ∷ []
    ]

unfoldable pub flush : Sweep → ℕ → List ReadErrorRange
flush s to = elim (current s) [
  | none ↦ s.out
  | some kind ↦ if ltb s.prev_pos to then extend s.out s.prev_pos to kind else s.out
]

abbrev pub count_event : RangeKind → ℤ → Sweep → Sweep
count_event substituted d s = record s { substituted_count = s.substituted_count +ℤ d }
count_event unread d s = record s { unread_count = s.unread_count +ℤ d }

-- The inner loop: count every event at `to`.
unfoldable pub take_group : ℕ → Sweep → List Event → Sweep × List Event
take_group to s [] = (s, [])
take_group to s (e ∷ es) =
    if e.at == to then take_group to (count_event e.kind e.delta s) es else (s, e ∷ es)

-- The outer loop. A round takes an event at least, so as many rounds as events suffice.
unfoldable pub sweep : ℕ → Sweep → List Event → Sweep
sweep zero s es = s
sweep (suc n) s [] = s
sweep (suc n) s (e ∷ es) =
    let out = flush s e.at in
    let (s', rest) = take_group e.at (record s { out = out }) (e ∷ es) in
    sweep n (record s' { prev_pos = e.at }) rest

abbrev pub sweep_start : Sweep
sweep_start = record { out = []; substituted_count = pos 0; unread_count = pos 0; prev_pos = 0 }

unfoldable pub normalise_ranges : List ReadErrorRange → List ReadErrorRange
normalise_ranges rs =
    let events = sort_events (events_of rs) in
    let swept = (sweep (length events) sweep_start events).out in
    if is_normalised rs then rs else swept

unfoldable pub normalise : ReadErrorTable → ReadErrorTable
normalise t = record t { ranges = normalise_ranges t.ranges }

-- The `match` of `push` on the last range.
unfoldable pub push_range : List ReadErrorRange → ReadErrorRange → List ReadErrorRange
push_range rs r = elim (last? rs) [
  | none ↦ rs ++ r ∷ []
  | some l ↦
      if ltb (end l) r.offset
      then rs ++ r ∷ []
      else if r.offset == end l && same_kind r.kind l.kind
      then set_last rs (record l { length = end r - l.offset })
      else if r.offset == end l
      then rs ++ r ∷ []
      else normalise_ranges (rs ++ r ∷ [])
]

unfoldable pub push : ReadErrorTable → ℕ → ℕ → RangeKind → ReadErrorTable
push t offset len kind = if len == 0 then t else record t {
  ranges = push_range t.ranges (record { offset = offset; length = len; kind = kind });
}

unfoldable pub push_sectors : ReadErrorTable → ℕ → ℕ → RangeKind → ReadErrorTable
push_sectors t first_sector count kind =
    let s = effective_sector_size t in
    push t (saturating_mul first_sector s) (saturating_mul count s) kind

-- `sort_by_key` by offset, then kind (`Substituted` first).
abbrev kind_le : RangeKind → RangeKind → Bool
kind_le unread substituted = false
kind_le _ _ = true

unfoldable pub insert_range : ReadErrorRange → List ReadErrorRange → List ReadErrorRange
insert_range r [] = r ∷ []
insert_range r (x ∷ xs) =
    if ltb r.offset x.offset || r.offset == x.offset && kind_le r.kind x.kind
    then r ∷ x ∷ xs
    else x ∷ insert_range r xs

unfoldable pub sort_ranges : List ReadErrorRange → List ReadErrorRange
sort_ranges [] = []
sort_ranges (r ∷ rs) = insert_range r (sort_ranges rs)

unfoldable pub merged_source : Text → Text → Text
merged_source a b =
    if not (is_empty b) && not (same_text a b)
    then (if is_empty a then b else a ++ (codes " + " ++ b))
    else a

unfoldable pub merge : ReadErrorTable → ReadErrorTable → ReadErrorTable
merge t u = normalise (record {
  sector_size =
      if t.sector_size == 0
      then u.sector_size
      else if u.sector_size == 0
      then t.sector_size
      else min t.sector_size u.sector_size;
  ranges = sort_ranges (t.ranges ++ u.ranges);
  source = merged_source t.source u.source;
})

-- `normalised` sweeps a copy unless the table is in order already, as `normalise` does.
abbrev pub sum_lengths : RangeKind → List ReadErrorRange → ℕ
sum_lengths k [] = 0
sum_lengths k (r ∷ rs) = (if same_kind r.kind k then r.length else 0) + sum_lengths k rs

unfoldable pub bytes_of : ReadErrorTable → RangeKind → ℕ
bytes_of t k = sum_lengths k (normalise t).ranges

abbrev pub unread_bytes : ReadErrorTable → ℕ
unread_bytes t = bytes_of t unread

abbrev pub substituted_bytes : ReadErrorTable → ℕ
substituted_bytes t = bytes_of t substituted

abbrev pub selects : Option RangeKind → RangeKind → Bool
selects none k = true
selects (some j) k = same_kind k j

abbrev pub sum_sectors : Option RangeKind → ℕ → List ReadErrorRange → ℕ
sum_sectors o s [] = 0
sum_sectors o s (r ∷ rs) = (if selects o r.kind then sectors_in r s else 0) + sum_sectors o s rs

unfoldable pub sectors_of : ReadErrorTable → Option RangeKind → ℕ
sectors_of t o = sum_sectors o (effective_sector_size t) (normalise t).ranges

abbrev pub count_ranges : RangeKind → List ReadErrorRange → ℕ
count_ranges k [] = 0
count_ranges k (r ∷ rs) = (if same_kind r.kind k then 1 else 0) + count_ranges k rs

unfoldable pub count : ReadErrorTable → RangeKind → ℕ
count t k = count_ranges k (normalise t).ranges

-- `is_empty` of the table
unfoldable pub has_no_bytes : List ReadErrorRange → Bool
has_no_bytes [] = true
has_no_bytes (r ∷ rs) = r.length == 0 && has_no_bytes rs
