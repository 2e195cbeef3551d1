-- ===== src/Tests/Sizes.antt =====
-- Sizes of src/cli/size.rs.
use dfdisk.Prelude.{◌≡◌, refl, ◌++◌, none, arith, codes, same_text}
use dfdisk.Prelude.Results.{ok}
use dfdisk.Str.{all_chars, is_whitespace, trim}
use dfdisk.Pieces.File.{decimal, to_ascii_lowercase}
use dfdisk.Size.{lookup, parse_size, parse_piece_size}
use dfdisk.Size.Exact.{IsUnit, parse_size-decimal}

mib-IsUnit : IsUnit (codes "MiB") 1048576
unfolding all_chars is_whitespace lookup to_ascii_lowercase
mib-IsUnit = (refl, refl, refl)

parse_size-decimal_example : parse_size (decimal 64 ++ codes "MiB") ≡ ok 67108864
parse_size-decimal_example = parse_size-decimal 64 (codes "MiB") 1048576 (omega arith) mib-IsUnit

no_pieces : parse_piece_size (codes " OFF ") ≡ ok none
unfolding parse_piece_size to_ascii_lowercase trim same_text
no_pieces = refl
