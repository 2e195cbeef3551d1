-- ===== src/DdrescueMap/Assess.antt =====
-- `MapCounts`, the queries on a map and `assess` of src/engines/ddrescue_map.rs.
use dfdisk.Prelude.{
  ℕ, ◌+◌, ◌-◌, ◌/◌, Bool, true, false, ◌&&◌, Option, none, some, List, [], ◌∷◌, ◌++◌, ltb, ◌==◌,
  if◌then◌else◌, div_ceil, min, max, codes,
}
use dfdisk.ReadErrors.{RangeKind, substituted, unread, ReadErrorTable, empty_table, push, last?}
use dfdisk.DdrescueMap.{
  BlockStatus, non_tried, non_trimmed, non_scraped, bad_sector, finished, range_kind, same_status,
  MapBlock, end, Mapfile,
}

pub record MapCounts : Type 0 where
  pub rescued : ℕ
  pub bad_sector : ℕ
  pub non_tried : ℕ
  pub non_trimmed : ℕ
  pub non_scraped : ℕ
  pub bad_areas : ℕ

unfoldable pub add : MapCounts → BlockStatus → ℕ → MapCounts
add c finished bytes = record c { rescued = c.rescued + bytes }
add c bad_sector bytes = record c { bad_sector = c.bad_sector + bytes; bad_areas = c.bad_areas + 1 }
add c non_tried bytes = record c { non_tried = c.non_tried + bytes }
add c non_trimmed bytes = record c { non_trimmed = c.non_trimmed + bytes }
add c non_scraped bytes = record c { non_scraped = c.non_scraped + bytes }

unfoldable pub get : MapCounts → BlockStatus → ℕ
get c finished = c.rescued
get c bad_sector = c.bad_sector
get c non_tried = c.non_tried
get c non_trimmed = c.non_trimmed
get c non_scraped = c.non_scraped

unfoldable pub unfinished : MapCounts → ℕ
unfinished c = c.non_tried + c.non_trimmed + c.non_scraped

abbrev pub no_counts : MapCounts
no_counts = record {
  rescued = 0;
  bad_sector = 0;
  non_tried = 0;
  non_trimmed = 0;
  non_scraped = 0;
  bad_areas = 0;
}

unfoldable pub map_end : Mapfile → ℕ
map_end m = elim (last? m.blocks) [ none ↦ 0 | some b ↦ end b ]

sum_sizes : BlockStatus → List MapBlock → ℕ
sum_sizes status [] = 0
sum_sizes status (b ∷ bs) =
    (if same_status b.status status then b.size else 0) + sum_sizes status bs

unfoldable pub bytes : Mapfile → BlockStatus → ℕ
unfolding sum_sizes
bytes m status = sum_sizes status m.blocks

abbrev pub is_done : BlockStatus → Bool
is_done finished = true
is_done bad_sector = true
is_done _ = false

all_done : List MapBlock → Bool
all_done [] = true
all_done (b ∷ bs) = is_done b.status && all_done bs

unfoldable pub is_finished : Mapfile → Bool
unfolding all_done
is_finished m = all_done m.blocks

-- The loop of `covers`, with its cursor.
unfoldable pub covers_from : ℕ → List MapBlock → ℕ → Bool
covers_from cursor [] size = cursor == size
covers_from cursor (b ∷ bs) size = b.pos == cursor && covers_from (end b) bs size

unfoldable pub covers : Mapfile → ℕ → Bool
unfolding covers_from
covers m size = covers_from 0 m.blocks size

sum_bad_sectors : ℕ → List MapBlock → ℕ
sum_bad_sectors s [] = 0
sum_bad_sectors s (b ∷ bs) =
    (if same_status b.status bad_sector then div_ceil (end b) s - b.pos / s else 0)
    + sum_bad_sectors s bs

unfoldable pub bad_sectors : Mapfile → ℕ → ℕ
unfolding sum_bad_sectors
bad_sectors m sector_size = sum_bad_sectors (max sector_size 1) m.blocks

-- A statement of the report: the numbers that it shows.
pub data Note : Type 0 where
  does_not_list : ℕ → Note
  lists_beyond_source : ℕ → ℕ → Note
  rescued_not_in_image bad_not_in_image : ℕ → ℕ → Note

pub record MapAssessment : Type 0 where
  pub read_errors : ReadErrorTable
  pub bytes_acquired : ℕ
  pub counts : MapCounts
  pub not_listed : ℕ
  pub beyond_source : ℕ
  pub rescued_beyond_image : ℕ
  pub bad_beyond_image : ℕ
  pub notes : List Note

abbrev pub no_assessment : ReadErrorTable → MapAssessment
no_assessment table = record {
  read_errors = table;
  bytes_acquired = 0;
  counts = no_counts;
  not_listed = 0;
  beyond_source = 0;
  rescued_beyond_image = 0;
  bad_beyond_image = 0;
  notes = [];
}

-- The variables of the loop: the assessment, whose `read_errors` is the loop's `table`, and the
-- cursor. The source moves `table` into it behind the loop.
pub record Walk : Type 0 where
  pub a : MapAssessment
  pub cursor : ℕ

abbrev pub add_range : MapAssessment → ℕ → ℕ → RangeKind → MapAssessment
add_range a offset len kind = record a { read_errors = push a.read_errors offset len kind }

-- The area up to `to` that no block lists.
unfoldable pub list_gap : MapAssessment → ℕ → ℕ → MapAssessment
list_gap a from to =
    let b = add_range a from (to - from) unread in
    record b { not_listed = b.not_listed + (to - from) }

-- The part of a block that lies in the image, and the part behind it.
unfoldable pub image_part : Bool → ℕ → ℕ → MapAssessment → MapAssessment
image_part bad start in_image_end a =
    if ltb start in_image_end
    then record (if bad then add_range a start (in_image_end - start) substituted else a) {
      bytes_acquired = a.bytes_acquired + (in_image_end - start);
    }
    else a

unfoldable pub missing_part : Bool → ℕ → ℕ → MapAssessment → MapAssessment
missing_part bad in_image_end stop a =
    let c = add_range a in_image_end (stop - in_image_end) unread in
    if ltb in_image_end stop
    then (if bad
        then record c { bad_beyond_image = c.bad_beyond_image + (stop - in_image_end) }
        else record c { rescued_beyond_image = c.rescued_beyond_image + (stop - in_image_end) })
    else a

-- A block whose status is not unread: it is in the image up to the image's end.
unfoldable pub in_image : ℕ → Bool → ℕ → ℕ → MapAssessment → MapAssessment
unfolding image_part missing_part
in_image image_len bad start stop a =
    let in_image_end = max (min stop image_len) start in
    missing_part bad in_image_end stop (image_part bad start in_image_end a)

abbrev pub assess_kind : ℕ → Option RangeKind → ℕ → ℕ → MapAssessment → MapAssessment
assess_kind image_len (some unread) start stop a = add_range a start (stop - start) unread
assess_kind image_len (some substituted) start stop a = in_image image_len true start stop a
assess_kind image_len none start stop a = in_image image_len false start stop a

-- The part of a block inside the source.
unfoldable pub assess_block : ℕ → MapBlock → ℕ → ℕ → MapAssessment → MapAssessment
unfolding in_image range_kind
assess_block image_len b start stop a =
    if ltb start stop
    then assess_kind image_len (range_kind b.status) start stop
        (record a { counts = add a.counts b.status (stop - start) })
    else a

unfoldable pub assess_step : ℕ → ℕ → Walk → MapBlock → Walk
unfolding list_gap assess_block
assess_step expected image_len w b =
    let gap =
      if ltb w.cursor b.pos && ltb w.cursor expected
      then list_gap w.a w.cursor (min b.pos expected)
      else w.a in
    let inside = assess_block image_len b (min b.pos expected) (min (end b) expected) gap in
    let beyond =
      if ltb expected (end b)
      then record inside { beyond_source = inside.beyond_source + (end b - max b.pos expected) }
      else inside in
    record { a = beyond; cursor = max w.cursor (end b) }

unfoldable pub assess_blocks : ℕ → ℕ → Walk → List MapBlock → Walk
assess_blocks expected image_len w [] = w
assess_blocks expected image_len w (b ∷ bs) =
    assess_blocks expected image_len (assess_step expected image_len w b) bs

abbrev note_if : Bool → Note → List Note
note_if b n = if b then n ∷ [] else []

unfoldable pub add_notes : ℕ → ℕ → MapAssessment → MapAssessment
add_notes expected image_len a = record a {
  notes =
      note_if (ltb 0 a.not_listed) (does_not_list a.not_listed)
      ++ (note_if (ltb 0 a.beyond_source) (lists_beyond_source a.beyond_source expected)
          ++ (note_if (ltb 0 a.rescued_beyond_image)
                (rescued_not_in_image a.rescued_beyond_image image_len)
              ++ note_if (ltb 0 a.bad_beyond_image)
                  (bad_not_in_image a.bad_beyond_image image_len)));
}

unfoldable pub assess : Mapfile → ℕ → ℕ → ℕ → MapAssessment
unfolding assess_blocks assess_step add_notes
assess m expected image_len sector_size =
    let table = empty_table sector_size (codes "ddrescue mapfile") in
    let w =
      assess_blocks expected image_len (record { a = no_assessment table; cursor = 0 }) m.blocks in
    add_notes expected image_len
      (if ltb w.cursor expected then list_gap w.a w.cursor expected else w.a)
