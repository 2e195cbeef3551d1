-- ===== src/Preflight.antt =====
-- src/engines/preflight.rs: the facts about a destination and the rules over them. A message and a
-- note are constructors with the values that they show; whether a mount point is an evidence mount
-- is dfcore's to say, a parameter.
pub mod Accepts
pub mod Fits
pub mod Refusals
pub mod Outputs
pub mod Overwriting
pub mod Resuming
pub mod Guard
pub mod Mounts
pub mod Trees
pub mod Clean
use dfdisk.Prelude.{
  ℕ, ◌+◌, ◌-◌, ◌*◌, Bool, true, false, not, ◌&&◌, ◌||◌, Option, none, some, List, [], ◌∷◌, ◌++◌,
  ltb, leb, ◌==◌, if◌then◌else◌, saturating_add, saturating_sub, saturating_mul, min, Text, codes,
  same_text,
}
use dfdisk.Prelude.Results.{Result, ok, err, ◌>>=◌, ◌>>◌, refuse_if}
use dfdisk.Errors.{AcquisitionError, refused_error, usage_error}
use dfdisk.Config.{EngineKind, ewf, raw, rescue, AcquisitionConfig, engine, segment_size}

abbrev pub min_free_bytes : ℕ
min_free_bytes = 67108864

abbrev pub fat_max_file_bytes : ℕ
fat_max_file_bytes = 4294967295

pub record DestinationFacts : Type 0 where
  pub output_dir : Text
  pub existing_ancestor : Text
  pub ancestor_is_dir : Bool
  pub mount_point : Option Text
  pub fs_type : Option Text
  pub mount_source : Option Text
  pub read_only_mount : Bool
  pub free_bytes : Option ℕ
  pub backing_device : Option Text

pub data Message : Type 0 where
  not_a_directory : Text → Text → Message
  evidence_mount : Text → Message
  mounted_read_only : Text → Message
  memory_fs : Text → Message
  one_file_on_fat : Text → EngineKind → ℕ → Message
  segments_on_fat : Text → ℕ → Message
  free_space_unknown : Message
  no_room_for_image : ℕ → EngineKind → ℕ → ℕ → Message
  no_room_for_margin : ℕ → Message
  less_than_source : ℕ → ℕ → Message

pub data Note : Type 0 where
  in_memory : Text → Note
  space_for_image : ℕ → ℕ → ℕ → Note
  low_space_accepted : ℕ → ℕ → Note
  space_for_source : ℕ → ℕ → Note

abbrev pub Checked : Type 0 → Type 0
Checked A = Result (AcquisitionError Message) A

-- `matches!` on texts
unfoldable pub one_of : Text → List Text → Bool
one_of s [] = false
one_of s (t ∷ ts) = same_text s t || one_of s ts

unfoldable pub is_memory_fs : Text → Bool
is_memory_fs fs = one_of fs (codes "tmpfs" ∷ codes "ramfs" ∷ [])

unfoldable pub is_fat : Text → Bool
is_fat fs = one_of fs (codes "vfat" ∷ codes "msdos" ∷ codes "fat" ∷ codes "umsdos" ∷ [])

pub record DestinationRules : Type 0 where
  pub engine_kind : EngineKind
  pub source_bytes : ℕ
  pub segment_bytes : Option ℕ
  pub allow_tmpfs : Bool
  pub allow_low_space : Bool
  pub resumed_image_bytes : ℕ

-- `DestinationRules::new`
unfoldable pub rules_of : AcquisitionConfig → ℕ → DestinationRules
rules_of config source_bytes = record {
  engine_kind = engine config;
  source_bytes = source_bytes;
  segment_bytes = segment_size config.split_size;
  allow_tmpfs = config.allow_tmpfs;
  allow_low_space = config.allow_low_space;
  resumed_image_bytes = 0;
}

unfoldable pub check_memory_fs : Option Text → Bool → Checked (List Note)
check_memory_fs none allow_tmpfs = ok []
check_memory_fs (some fs) allow_tmpfs =
    if is_memory_fs fs
    then if allow_tmpfs then ok (in_memory fs ∷ []) else err (refused_error (memory_fs fs))
    else ok []

-- The last `match` of `check_file_size_limit`, on a FAT filesystem.
unfoldable pub fat_limit : EngineKind → Option ℕ → Text → ℕ → Checked (Unit {0})
fat_limit ewf none fs source = err (refused_error (segments_on_fat fs source))
fat_limit ewf (some seg) fs source =
    if leb seg fat_max_file_bytes then ok tt else err (refused_error (segments_on_fat fs source))
fat_limit kind segment fs source = err (refused_error (one_file_on_fat fs kind source))

unfoldable pub check_file_size_limit : DestinationRules → Option Text → Checked (Unit {0})
check_file_size_limit rules none = ok tt
check_file_size_limit rules (some fs) =
    if not (is_fat fs)
    then ok tt
    else if leb rules.source_bytes fat_max_file_bytes
    then ok tt
    else fat_limit rules.engine_kind rules.segment_bytes fs rules.source_bytes

-- `EngineKind::Raw | EngineKind::Rescue` of `check_free_space`
unfoldable pub image_space : DestinationRules → ℕ → Checked Note
image_space rules free =
    let remaining = saturating_sub rules.source_bytes rules.resumed_image_bytes in
    let need = saturating_add remaining min_free_bytes in
    if ltb free need
    then err (refused_error (no_room_for_image free rules.engine_kind remaining need))
    else ok (space_for_image free need remaining)

-- `EngineKind::Ewf` of `check_free_space`
unfoldable pub ewf_space : DestinationRules → ℕ → Checked Note
ewf_space rules free =
    let source = rules.source_bytes in
    if ltb free min_free_bytes
    then err (refused_error (no_room_for_margin free))
    else if ltb free source
    then if not rules.allow_low_space
      then err (refused_error (less_than_source free source))
      else ok (low_space_accepted free source)
    else ok (space_for_source free source)

unfoldable pub space_for : EngineKind → DestinationRules → ℕ → Checked Note
space_for ewf rules free = ewf_space rules free
space_for _ rules free = image_space rules free

unfoldable pub check_free_space : DestinationRules → Option ℕ → Checked Note
check_free_space rules none = err (refused_error free_space_unknown)
check_free_space rules (some free) = space_for rules.engine_kind rules free

module _ (is_evidence_mount : Text → Bool) where
  unfoldable pub check_evidence_mount : Option Text → Checked (Unit {0})
  check_evidence_mount none = ok tt
  check_evidence_mount (some mp) =
      if is_evidence_mount mp then err (refused_error (evidence_mount mp)) else ok tt

  unfoldable pub evaluate : DestinationRules → DestinationFacts → Checked (List Note)
  evaluate rules facts = do
    refuse_if (not facts.ancestor_is_dir)
        (usage_error (not_a_directory facts.output_dir facts.existing_ancestor))
    check_evidence_mount facts.mount_point
    refuse_if facts.read_only_mount (refused_error (mounted_read_only facts.output_dir))
    notes ← check_memory_fs facts.fs_type rules.allow_tmpfs
    check_file_size_limit rules facts.fs_type
    note ← check_free_space rules facts.free_bytes
    ok (notes ++ note ∷ [])

-- `occupied_bytes`
unfoldable pub occupied_bytes : ℕ → ℕ → ℕ
occupied_bytes len blocks =
    let allocated = saturating_mul blocks 512 in if allocated == 0 then len else min allocated len
