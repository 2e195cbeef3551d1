-- ===== src/Tests/Destinations.antt =====
-- The options and the destination of an acquisition on concrete values.
use dfdisk.Prelude.{
  ℕ, ◌*◌, ◌≤◌, ◌<◌, ◌≡◌, refl, ◌↔◌, ◌⊎◌, inl, inr, Bool, true, false, none, some, List, [], ◌∷◌,
  arith, if◌then◌else◌, Text, codes, same_text, strip_prefix,
}
use dfdisk.Prelude.Results.{Result, ok, err}
use dfdisk.Prelude.Members.{Member, keep}
use dfdisk.Errors.{AcquisitionError, usage_error, exit_code_of}
use dfdisk.Outcome.{exit_usage, exit_refused}
use dfdisk.Config.{
  ewf, rescue, AcquisitionConfig, engine, for_engine, segment_size, ewf_min_segment_bytes, validate,
}
use dfdisk.Config.Consistent.{IsConsistent, validate_iff, for_engine-valid}
use dfdisk.Preflight.{
  DestinationFacts, DestinationRules, Note, space_for_image, space_for_source, not_a_directory,
  fat_max_file_bytes, is_fat, one_of, rules_of, check_memory_fs, is_memory_fs,
  check_file_size_limit, fat_limit, check_free_space, space_for, ewf_space, check_evidence_mount,
  evaluate, occupied_bytes,
}
use dfdisk.Preflight.Fits.{large_source-segmented}
use dfdisk.Preflight.Refusals.{evaluate-error}
use dfdisk.Preflight.Outputs.{
  Entry, OutputMessage, regular_file, existing_outputs, output_suffix, resume_may_exist,
  resumed_suffix, same_path, check_existing_outputs, check_resume_files, belongs, len_in,
  find_output, has_suffix, sort_entries, insert_entry, text_le, check_kept, check_type,
}
use dfdisk.Preflight.Overwriting.{existing_output-kept}
use dfdisk.Preflight.Resuming.{blocks_in, check_resume_files-found}
use dfdisk.Preflight.Guard.{Names, FileSystem, Refusing}
use dfdisk.Pieces.File.{to_ascii_lowercase}

abbrev e01_config : AcquisitionConfig
e01_config = for_engine ewf (codes "/media/case")

validate-iff_example : (validate e01_config ≡ ok tt) ↔ IsConsistent e01_config
validate-iff_example = validate_iff e01_config

-- Mounts of evidence.
abbrev evidence : Text → Bool
evidence mount_point = same_text mount_point (codes "/evidence")

abbrev drive : DestinationFacts
drive = record {
  output_dir = codes "/media/case/out";
  existing_ancestor = codes "/media/case";
  ancestor_is_dir = true;
  mount_point = some (codes "/media/case");
  fs_type = some (codes "vfat");
  mount_source = some (codes "/dev/sdc1");
  read_only_mount = false;
  free_bytes = some 68719476736;
  backing_device = some (codes "8:33");
}

-- An E01 acquisition of 8 GiB, in segments of 2 GiB.
abbrev e01_rules : DestinationRules
e01_rules = rules_of e01_config 8589934592

abbrev e01_notes : List Note
e01_notes = space_for_source 68719476736 8589934592 ∷ []

e01_accepted : evaluate evidence e01_rules drive ≡ ok e01_notes
unfolding evaluate rules_of check_evidence_mount check_memory_fs is_memory_fs check_file_size_limit
    is_fat fat_limit check_free_space space_for ewf_space one_of same_text segment_size engine
    for_engine
e01_accepted = refl

e01_valid : validate e01_config ≡ ok tt
e01_valid = (for_engine-valid ewf (codes "/media/case")).1

on_fat : is_fat (codes "vfat") ≡ true
unfolding is_fat one_of same_text
on_fat = refl

large_source-segmented_example :
    (engine e01_config ≡ ewf)
    × (seg : ℕ) × (segment_size e01_config.split_size ≡ some seg)
    × (ewf_min_segment_bytes ≤ seg)
    × (seg ≤ fat_max_file_bytes)
large_source-segmented_example =
    large_source-segmented evidence e01_config 8589934592 drive e01_notes (codes "vfat") e01_valid
      refl on_fat (omega arith) e01_accepted

-- A rescue of 1 GiB that is resumed with half of it on the drive.
abbrev rescue_rules : DestinationRules
rescue_rules = record {
  engine_kind = rescue;
  source_bytes = 1073741824;
  segment_bytes = none;
  allow_tmpfs = false;
  allow_low_space = false;
  resumed_image_bytes = 536870912;
}

abbrev rescue_notes : List Note
rescue_notes = space_for_image 68719476736 603979776 536870912 ∷ []

-- A file in the way.
abbrev blocked : DestinationFacts
blocked = record drive { ancestor_is_dir = false }

blocked_refused :
    evaluate evidence e01_rules blocked
    ≡ err (usage_error (not_a_directory blocked.output_dir blocked.existing_ancestor))
unfolding evaluate
blocked_refused = refl

evaluate-error_example :
    exit_code_of (usage_error (not_a_directory blocked.output_dir blocked.existing_ancestor))
    ≡ (if blocked.ancestor_is_dir then exit_refused else exit_usage)
evaluate-error_example =
    evaluate-error evidence e01_rules blocked
      (usage_error (not_a_directory blocked.output_dir blocked.existing_ancestor)) blocked_refused

-- The files of an interrupted rescue, and one of another acquisition.
abbrev file : Text → ℕ → Entry
file name len = record {
  file_name = name;
  file_type = some regular_file;
  canonical = some name;
  extent = some (len, 8);
}

abbrev image_entry : Entry
image_entry = file (codes "X1.raw") 1048576

abbrev map_entry : Entry
map_entry = file (codes "x1.MAP") 300

abbrev dir : List Entry
dir = image_entry ∷ file (codes "x2.raw") 10 ∷ map_entry ∷ []

abbrev kept : List Entry
kept = image_entry ∷ map_entry ∷ []

abbrev check_dir : Result (AcquisitionError OutputMessage) (List Entry)
check_dir =
    check_existing_outputs to_ascii_lowercase to_ascii_lowercase dir (codes "x1") true
      (some (codes "/dev/sdb"))

dir_kept : check_dir ≡ ok kept
unfolding check_existing_outputs existing_outputs keep sort_entries insert_entry text_le belongs
    resume_may_exist output_suffix resumed_suffix one_of strip_prefix same_text to_ascii_lowercase
    check_kept check_type
dir_kept = refl

map_there : Member map_entry dir
unfolding Member
map_there = inr (inr (inl refl))

map_belongs : belongs to_ascii_lowercase to_ascii_lowercase (codes "x1") map_entry ≡ true
unfolding belongs strip_prefix to_ascii_lowercase
map_belongs = refl

existing_output-kept_example :
    Member map_entry kept
    × (true ≡ true)
    × (resume_may_exist to_ascii_lowercase to_ascii_lowercase (codes "x1") map_entry.file_name
        ≡ true)
    × (map_entry.file_type ≡ some regular_file)
    × (same_path (some (codes "/dev/sdb")) map_entry.canonical ≡ false)
existing_output-kept_example =
    existing_output-kept to_ascii_lowercase to_ascii_lowercase dir (codes "x1") true
      (some (codes "/dev/sdb")) kept map_entry dir_kept map_there map_belongs

dir_resumes : check_resume_files to_ascii_lowercase to_ascii_lowercase dir (codes "x1") ≡ ok 4096
unfolding check_resume_files existing_outputs keep sort_entries insert_entry text_le belongs
    find_output has_suffix output_suffix strip_prefix same_text to_ascii_lowercase occupied_bytes
dir_resumes = refl

check_resume_files-found_example :
    (map_file image : Entry) × Member map_file dir
    × Member image dir
    × (output_suffix to_ascii_lowercase to_ascii_lowercase (codes "x1") map_file.file_name
        ≡ some (codes ".map"))
    × (output_suffix to_ascii_lowercase to_ascii_lowercase (codes "x1") image.file_name
        ≡ some (codes ".raw"))
    × (0 < len_in map_file.extent)
    × (4096 ≤ len_in image.extent)
    × ((blocks_in image.extent ≡ 0) ⊎ (4096 ≤ blocks_in image.extent * 512))
check_resume_files-found_example =
    check_resume_files-found to_ascii_lowercase to_ascii_lowercase dir (codes "x1") 4096 dir_resumes

-- A case drive with one directory; the output goes two directories below it, and the second of them
-- cannot be made.
abbrev tree : FileSystem
tree = (codes "case" ∷ codes "media" ∷ []) ∷ (codes "media" ∷ []) ∷ []

abbrev full_drive : Refusing
full_drive = record { directories = some 1; stale_removal = false; reservation = false }

abbrev output_names : Names
output_names = codes "ev1" ∷ codes "out" ∷ codes "case" ∷ codes "media" ∷ []
