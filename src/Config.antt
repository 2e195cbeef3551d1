-- ===== src/Config.antt =====
-- src/models/config.rs: the options of an acquisition, their defaults and their consistency. A message
-- is a constructor with the values that it shows.
pub mod Consistent
use dfdisk.Prelude.{
  ℕ, ◌+◌, ◌*◌, ◌%◌, Bool, true, false, not, ◌&&◌, ◌||◌, Option, none, some, List, [], ◌∷◌, ◌++◌,
  ltb, leb, ◌==◌, if◌then◌else◌, is_empty, Text, codes,
}
use dfdisk.Prelude.Results.{Result, ok, err}
use dfdisk.RawCopy.World.{OnReadError, stop, zero_fill}

pub data ImageFormat : Type 0 where
  e01 raw_format : ImageFormat

pub data CompressionLevel : Type 0 where
  no_compression fast best : CompressionLevel

abbrev pub ewf_max_segment_bytes : ℕ
ewf_max_segment_bytes = 9223372036854775806

abbrev pub ewf_min_segment_bytes : ℕ
ewf_min_segment_bytes = 1048576

pub data SplitSize : Type 0 where
  no_split two_gb four_gb : SplitSize
  custom : ℕ → SplitSize

-- `SplitSize::bytes`
unfoldable pub segment_size : SplitSize → Option ℕ
segment_size no_split = none
segment_size two_gb = some (2 * 1024 * 1024 * 1024)
segment_size four_gb = some (4 * 1024 * 1024 * 1024)
segment_size (custom b) = some b

-- `split_size == SplitSize::None`
abbrev pub is_no_split : SplitSize → Bool
is_no_split no_split = true
is_no_split _ = false

pub record HashSelection : Type 0 where
  pub md5 : Bool
  pub sha1 : Bool
  pub sha256 : Bool

-- `HashSelection::is_empty`
abbrev pub nothing_selected : HashSelection → Bool
nothing_selected s = not (s.md5 || s.sha1 || s.sha256)

pub data SmartPolicy : Type 0 where
  smart_off basic full : SmartPolicy

pub data WriteProtectPolicy : Type 0 where
  auto protect_off : WriteProtectPolicy

pub record ExpectIdentity : Type 0 where
  pub serial : Option Text
  pub wwn : Option Text
  pub size : Option ℕ

pub data EngineKind : Type 0 where
  ewf raw rescue : EngineKind

abbrev pub default_piece_size : ℕ
default_piece_size = 1073741824

abbrev pub min_piece_size : ℕ
min_piece_size = 1048576

abbrev pub max_retries : ℕ
max_retries = 255

pub record AcquisitionConfig : Type 0 where
  pub format : ImageFormat
  pub output_dir : Text
  pub compression : CompressionLevel
  pub split_size : SplitSize
  pub calc_md5 : Bool
  pub calc_sha1 : Bool
  pub calc_sha256 : Bool
  pub error_retries : ℕ
  pub wipe_bad_sectors : Bool
  pub rescue_mode : Bool
  pub resume : Bool
  pub on_read_error : OnReadError
  pub verify_source : Bool
  pub piece_size : Option ℕ
  pub smart : SmartPolicy
  pub write_protect : WriteProtectPolicy
  pub allow_tmpfs : Bool
  pub allow_low_space : Bool
  pub refuse_hidden_areas : Bool
  pub expect : ExpectIdentity
  pub rescue_to_e01 : Bool
  pub ewf_error_granularity : Option ℕ
  pub auto_unmount : Bool

-- `impl Default for AcquisitionConfig`
abbrev pub default_config : AcquisitionConfig
default_config = record {
  format = e01;
  output_dir = codes ".";
  compression = fast;
  split_size = two_gb;
  calc_md5 = true;
  calc_sha1 = true;
  calc_sha256 = true;
  error_retries = 2;
  wipe_bad_sectors = true;
  rescue_mode = false;
  resume = false;
  on_read_error = stop;
  verify_source = false;
  piece_size = some default_piece_size;
  smart = basic;
  write_protect = auto;
  allow_tmpfs = false;
  allow_low_space = false;
  refuse_hidden_areas = false;
  expect = record { serial = none; wwn = none; size = none };
  rescue_to_e01 = false;
  ewf_error_granularity = none;
  auto_unmount = false;
}

-- `EngineKind::from_config`
engine_of_format : ImageFormat → EngineKind
engine_of_format e01 = ewf
engine_of_format raw_format = raw

unfoldable pub engine : AcquisitionConfig → EngineKind
unfolding engine_of_format
engine c = if c.rescue_mode then rescue else engine_of_format c.format

abbrev pub with_output_dir : Text → AcquisitionConfig
with_output_dir dir = record default_config { output_dir = dir }

unfoldable pub for_engine : EngineKind → Text → AcquisitionConfig
for_engine ewf dir = with_output_dir dir
for_engine raw dir = record (with_output_dir dir) { format = raw_format; split_size = no_split }
for_engine rescue dir = record (with_output_dir dir) {
  format = raw_format;
  split_size = no_split;
  rescue_mode = true;
}

-- `engine == EngineKind::Ewf` and its like
abbrev pub is_ewf : EngineKind → Bool
is_ewf ewf = true
is_ewf _ = false

abbrev pub is_raw : EngineKind → Bool
is_raw raw = true
is_raw _ = false

abbrev pub is_rescue : EngineKind → Bool
is_rescue rescue = true
is_rescue _ = false

abbrev pub fills_zeros : OnReadError → Bool
fills_zeros zero_fill = true
fills_zeros stop = false

unfoldable pub selection_for : AcquisitionConfig → HashSelection
selection_for c = record {
  md5 = c.calc_md5 || is_ewf (engine c);
  sha1 = c.calc_sha1;
  sha256 = c.calc_sha256;
}

pub data ConfigError : Type 0 where
  retries_out_of_range segment_size_refused piece_size_refused : ℕ → ConfigError
  no_digest raw_split zero_fill_elsewhere granularity_elsewhere : ConfigError
  granularity_zero rescue_to_e01_elsewhere resume_elsewhere : ConfigError

-- `if bad { errors.push(e) }`
abbrev pub push_if : Bool → ConfigError → List ConfigError
push_if true e = e ∷ []
push_if false e = []

unfoldable pub check_segment_bytes : ℕ → List ConfigError
check_segment_bytes b =
    push_if (not (leb ewf_min_segment_bytes b && leb b ewf_max_segment_bytes))
      (segment_size_refused b)

unfoldable pub segment_errors : EngineKind → SplitSize → List ConfigError
segment_errors ewf (custom b) = check_segment_bytes b
segment_errors _ _ = []

unfoldable pub piece_errors : Option ℕ → List ConfigError
piece_errors none = []
piece_errors (some p) = push_if (ltb p min_piece_size || not (p % 512 == 0)) (piece_size_refused p)

unfoldable pub granularity_errors : EngineKind → Option ℕ → List ConfigError
granularity_errors e none = []
granularity_errors ewf (some g) = push_if (g == 0) granularity_zero
granularity_errors _ (some g) = granularity_elsewhere ∷ []

-- The errors that `validate` collects, in its order.
unfoldable pub config_errors : AcquisitionConfig → List ConfigError
config_errors c =
    let e = engine c in
    push_if (ltb max_retries c.error_retries) (retries_out_of_range c.error_retries)
    ++ push_if (nothing_selected (selection_for c)) no_digest
    ++ push_if (not (is_ewf e) && not (is_no_split c.split_size)) raw_split
    ++ segment_errors e c.split_size
    ++ piece_errors c.piece_size
    ++ push_if (fills_zeros c.on_read_error && not (is_raw e)) zero_fill_elsewhere
    ++ granularity_errors e c.ewf_error_granularity
    ++ push_if (c.rescue_to_e01 && not (is_rescue e)) rescue_to_e01_elsewhere
    ++ push_if (c.resume && not (is_rescue e)) resume_elsewhere

unfoldable pub validate : AcquisitionConfig → Result (List ConfigError) (Unit {0})
validate c = let errors = config_errors c in if is_empty errors then ok tt else err errors
