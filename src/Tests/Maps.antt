-- ===== src/Tests/Maps.antt =====
-- A concrete mapfile of GNU ddrescue.
use dfdisk.Prelude.{
  ℕ, ◌+◌, ◌≡◌, ◌⊎◌, refl, none, some, List, [], ◌∷◌, ◌++◌, arith, codes, Text, ltb, if◌then◌else◌,
  strip_prefix,
}
use dfdisk.Prelude.Results.{ok, err}
use dfdisk.ReadErrors.{unread_bytes}
use dfdisk.ReadErrors.Coverage.{state_at}
use dfdisk.Str.{lines, trim, split_whitespace, all_chars, from_str_radix, parse_u32}
use dfdisk.DdrescueMap.{
  BlockStatus, finished, bad_sector, MapBlock, Mapfile, no_position_line, overlaps, MapError,
  map_start, parse, close_map, parse_lines, parse_line, trimmed_line, data_line, position_line,
  block_line, read_block, push_block, parse_pass, parse_number, decimal_or_octal, block_status,
  from_char,
}
use dfdisk.DdrescueMap.Assess.{assess}
use dfdisk.DdrescueMap.Image.{AreOrdered, listed, represented, assess_image}
use dfdisk.DdrescueMap.Parsing.{parse-AreOrdered}
use dfdisk.DdrescueMap.Failing.{FailsAt, parse-FailsAt}

abbrev block : ℕ → ℕ → BlockStatus → MapBlock
block pos size status = record { pos = pos; size = size; status = status }

abbrev three_blocks : List MapBlock
three_blocks = block 0 4096 finished ∷ block 4096 512 bad_sector ∷ block 8192 4096 finished ∷ []

abbrev map : Mapfile
map = record {
  current_pos = 8192;
  current_status = b'+';
  current_pass = some 1;
  blocks = three_blocks;
  comments = codes "Mapfile." ∷ [];
}

abbrev newline : Text
newline = 10 ∷ []

abbrev map_text : Text
map_text =
    codes "# Mapfile."
    ++ (newline
        ++ (codes "0x2000 + 1"
            ++ (newline
                ++ (codes "0x0 0x1000 +"
                    ++ (newline
                        ++ (codes "0x1000 0x200 -" ++ (newline ++ codes "0x2000 0x1000 +")))))))

three_blocks_ordered : AreOrdered 0 three_blocks
three_blocks_ordered = ground arith

assess_image_example :
    (let a = assess map 16384 10240 512 in
      ((x : ℕ)
        → state_at a.read_errors.ranges x
          ≡ (if ltb x 16384 then represented 10240 (listed three_blocks x) x else none))
      × (a.bytes_acquired + unread_bytes a.read_errors ≡ 16384))
assess_image_example = assess_image map 16384 10240 512 (omega arith) three_blocks_ordered

map_text_parses : parse map_text ≡ ok map
unfolding parse close_map parse_lines parse_line trimmed_line data_line position_line block_line
    read_block push_block parse_pass parse_number decimal_or_octal block_status from_char lines trim
    split_whitespace all_chars from_str_radix strip_prefix parse_u32
map_text_parses = refl

parse-AreOrdered_example : AreOrdered 0 three_blocks
parse-AreOrdered_example = parse-AreOrdered map_text {m = map} map_text_parses

abbrev overlapping_text : Text
overlapping_text =
    codes "0 ?" ++ (newline ++ (codes "0 0x1000 +" ++ (newline ++ codes "0x800 0x800 -")))

abbrev overlap_error : MapError
overlap_error = record { line = 3; message = overlaps 2048 4096 }

overlapping_text_fails : parse overlapping_text ≡ err overlap_error
unfolding parse close_map parse_lines parse_line trimmed_line data_line position_line block_line
    read_block push_block parse_pass parse_number decimal_or_octal block_status from_char lines trim
    split_whitespace all_chars from_str_radix strip_prefix parse_u32
overlapping_text_fails = refl

parse-FailsAt_example :
    (overlap_error ≡ record { line = 0; message = no_position_line })
    ⊎ FailsAt 1 (lines overlapping_text) map_start overlap_error
parse-FailsAt_example = parse-FailsAt overlapping_text {e = overlap_error} overlapping_text_fails
