-- ===== src/Preflight/Accepts.antt =====
-- src/engines/preflight.rs: which destinations the rules accept, and what their refusals are.
use dfdisk.Prelude.{
  ℕ, ◌+◌, ◌-◌, ◌≤◌, ◌≡◌, ◌≢◌, ◌↔◌, ◌⊎◌, inl, inr, Bool, true, false, not, Option, none, some, List,
  [], ◌∷◌, ◌++◌, arith, ltb, leb, if◌then◌else◌, Bool-cases, Text, codes, same_text_iff, u64_max,
  saturating_add, saturating_sub,
}
use dfdisk.Prelude.Results.{ok, err, ◌>>=◌, ◌>>◌, refuse_if}
use dfdisk.Prelude.Succeeding.{
  Succeeds, Succeeds->>=, Succeeds->>, Succeeds-refuse_if, Succeeds-ok, Succeeds-ok_iff,
  Succeeds-err, Succeeds-if,
}
use dfdisk.Errors.{AcquisitionError, refused_error, usage_error}
use dfdisk.Config.{EngineKind, ewf, raw, rescue}
use dfdisk.Preflight.{
  DestinationFacts, DestinationRules, Message, Note, not_a_directory, mounted_read_only, memory_fs,
  no_room_for_image, no_room_for_margin, less_than_source, in_memory, space_for_image,
  low_space_accepted, space_for_source, min_free_bytes, fat_max_file_bytes, Checked, one_of,
  is_memory_fs, is_fat, check_memory_fs, fat_limit, check_file_size_limit, image_space, ewf_space,
  space_for, check_free_space, check_evidence_mount, evaluate,
}

OneOf : Text → List Text → Type 0
OneOf s [] = ⊥
OneOf s (t ∷ ts) = (s ≡ t) ⊎ OneOf s ts

one_of_iff : (s : Text) (ts : List Text) → (one_of s ts ≡ true) ↔ OneOf s ts
unfolding one_of OneOf
one_of_iff s [] = ground arith
one_of_iff s (t ∷ ts) = ground (arith, same_text_iff s t, one_of_iff s ts)

unfoldable pub MemoryAllowed : Option Text → Bool → Type 0
MemoryAllowed none allow_tmpfs = Unit
MemoryAllowed (some fs) allow_tmpfs =
    ((fs ≢ codes "tmpfs") × (fs ≢ codes "ramfs")) ⊎ (allow_tmpfs ≡ true)

is_memory_fs_iff :
    (fs : Text) → (is_memory_fs fs ≡ true) ↔ ((fs ≡ codes "tmpfs") ⊎ (fs ≡ codes "ramfs"))
unfolding is_memory_fs OneOf
is_memory_fs_iff fs = ground (arith, one_of_iff fs (codes "tmpfs" ∷ codes "ramfs" ∷ []))

check_memory_fs_iff :
    (o : Option Text) (allow : Bool) → Succeeds (check_memory_fs o allow) ↔ MemoryAllowed o allow
unfolding check_memory_fs MemoryAllowed
check_memory_fs_iff none allow =
    let nothing : List Note = [] in ground (arith, Succeeds-ok (AcquisitionError Message) nothing)
check_memory_fs_iff (some fs) allow =
    let nothing : List Note = [] in
    let inside : Checked (List Note) =
      if allow then ok (in_memory fs ∷ []) else err (refused_error (memory_fs fs)) in
    ground (
      arith,
      is_memory_fs_iff fs,
      Succeeds-if (is_memory_fs fs) inside (ok []),
      Succeeds-if allow (ok (in_memory fs ∷ [])) (err (refused_error (memory_fs fs))),
      Succeeds-ok (AcquisitionError Message) (in_memory fs ∷ []),
      Succeeds-ok (AcquisitionError Message) nothing,
      Succeeds-err (List Note) (refused_error (memory_fs fs)),
    )

-- The names of the filesystems with the limit of 4 GiB - 1.
abbrev pub IsFat : Text → Type 0
IsFat fs = (fs ≡ codes "vfat") ⊎ (fs ≡ codes "msdos") ⊎ (fs ≡ codes "fat") ⊎ (fs ≡ codes "umsdos")

pub is_fat_iff : (fs : Text) → (is_fat fs ≡ true) ↔ IsFat fs
unfolding is_fat OneOf
is_fat_iff fs =
    ground (arith, one_of_iff fs (codes "vfat" ∷ codes "msdos" ∷ codes "fat" ∷ codes "umsdos" ∷ []))

-- Segments no larger than a FAT filesystem can hold.
abbrev pub SmallSegments : EngineKind → Option ℕ → Type 0
SmallSegments kind segment =
    (kind ≡ ewf) × (seg : ℕ) × (segment ≡ some seg) × (seg ≤ fat_max_file_bytes)

fat_limit_iff :
    (kind : EngineKind) (segment : Option ℕ) (fs : Text) (source : ℕ)
    → Succeeds (fat_limit kind segment fs source) ↔ SmallSegments kind segment
unfolding Succeeds fat_limit
fat_limit_iff ewf none fs source = ground arith
fat_limit_iff ewf (some seg) fs source = ground arith
fat_limit_iff raw segment fs source = ground arith
fat_limit_iff rescue segment fs source = ground arith

abbrev pub FilesFit : DestinationRules → Option Text → Type 0
FilesFit rules none = Unit
FilesFit rules (some fs) =
    ¬ IsFat fs
    ⊎ (rules.source_bytes ≤ fat_max_file_bytes)
    ⊎ SmallSegments rules.engine_kind rules.segment_bytes

check_file_size_limit_iff :
    (rules : DestinationRules) (o : Option Text)
    → Succeeds (check_file_size_limit rules o) ↔ FilesFit rules o
unfolding Succeeds check_file_size_limit
check_file_size_limit_iff rules none = ground arith
check_file_size_limit_iff rules (some fs) = elim (Bool-cases (is_fat fs)) [
  | inl e ↦ elim (Bool-cases (leb rules.source_bytes fat_max_file_bytes)) [
    | inl l ↦ rw (e, l) (ground (arith, is_fat_iff fs))
    | inr l ↦
        rw (e, l)
          (ground (
            arith,
            is_fat_iff fs,
            fat_limit_iff rules.engine_kind rules.segment_bytes fs rules.source_bytes,
          ))
  ]
  | inr e ↦ rw (e) (ground (arith, is_fat_iff fs))
]

-- The free space that an engine asks for.
unfoldable pub Room : EngineKind → DestinationRules → ℕ → Type 0
Room ewf rules free =
    (min_free_bytes ≤ free) × ((rules.source_bytes ≤ free) ⊎ (rules.allow_low_space ≡ true))
Room _ rules free =
    ((rules.source_bytes - rules.resumed_image_bytes) + min_free_bytes ≤ free) ⊎ (u64_max ≤ free)

ewf_space_iff :
    (rules : DestinationRules) (free : ℕ) → Succeeds (ewf_space rules free) ↔ Room ewf rules free
unfolding ewf_space Room
ewf_space_iff rules free =
    let source = rules.source_bytes in
    let no_margin : AcquisitionError Message = refused_error (no_room_for_margin free) in
    let too_little : AcquisitionError Message = refused_error (less_than_source free source) in
    let risky : Checked Note =
      if not rules.allow_low_space then err too_little else ok (low_space_accepted free source) in
    let enough : Checked Note = ok (space_for_source free source) in
    let inner : Checked Note = if ltb free source then risky else enough in
    ground (
      arith,
      Succeeds-if (ltb free min_free_bytes) (err no_margin) inner,
      Succeeds-if (ltb free source) risky enough,
      Succeeds-if (not rules.allow_low_space) (err too_little)
          (ok (low_space_accepted free source)),
      Succeeds-ok (AcquisitionError Message) (low_space_accepted free source),
      Succeeds-ok (AcquisitionError Message) (space_for_source free source),
      Succeeds-err Note no_margin,
      Succeeds-err Note too_little,
    )

image_space_iff :
    (rules : DestinationRules) (free : ℕ) → Succeeds (image_space rules free) ↔ Room raw rules free
unfolding image_space Room
image_space_iff rules free =
    let remaining = saturating_sub rules.source_bytes rules.resumed_image_bytes in
    let need = saturating_add remaining min_free_bytes in
    let too_little : AcquisitionError Message =
      refused_error (no_room_for_image free rules.engine_kind remaining need) in
    let enough : Note = space_for_image free need remaining in
    ground (
      arith,
      Succeeds-if (ltb free need) (err too_little) (ok enough),
      Succeeds-ok (AcquisitionError Message) enough,
      Succeeds-err Note too_little,
    )

space_for_iff :
    (kind : EngineKind) (rules : DestinationRules) (free : ℕ)
    → Succeeds (space_for kind rules free) ↔ Room kind rules free
unfolding space_for Room
space_for_iff ewf rules free = ewf_space_iff rules free
space_for_iff raw rules free = image_space_iff rules free
space_for_iff rescue rules free = image_space_iff rules free

unfoldable pub RoomKnown : DestinationRules → Option ℕ → Type 0
RoomKnown rules none = ⊥
RoomKnown rules (some free) = Room rules.engine_kind rules free

check_free_space_iff :
    (rules : DestinationRules) (o : Option ℕ)
    → Succeeds (check_free_space rules o) ↔ RoomKnown rules o
unfolding check_free_space RoomKnown Succeeds
check_free_space_iff rules none = ground arith
check_free_space_iff rules (some free) = space_for_iff rules.engine_kind rules free

module _ (is_evidence_mount : Text → Bool) where
  unfoldable pub NotEvidence : Option Text → Type 0
  NotEvidence none = Unit
  NotEvidence (some mp) = is_evidence_mount mp ≡ false

  check_evidence_mount_iff :
      (o : Option Text) → Succeeds (check_evidence_mount is_evidence_mount o) ↔ NotEvidence o
  unfolding Succeeds check_evidence_mount NotEvidence
  check_evidence_mount_iff none = ground arith
  check_evidence_mount_iff (some mp) = ground arith

  -- What the rules ask of a destination.
  unfoldable pub IsAcceptable : DestinationRules → DestinationFacts → Type 0
  IsAcceptable rules facts =
      (facts.ancestor_is_dir ≡ true)
      × NotEvidence facts.mount_point
      × (facts.read_only_mount ≡ false)
      × MemoryAllowed facts.fs_type rules.allow_tmpfs
      × FilesFit rules facts.fs_type
      × RoomKnown rules facts.free_bytes

  pub evaluate_iff :
      (rules : DestinationRules) (facts : DestinationFacts)
      → ((notes : List Note) × (evaluate is_evidence_mount rules facts ≡ ok notes))
        ↔ IsAcceptable rules facts
  unfolding evaluate Succeeds IsAcceptable
  evaluate_iff rules facts =
      let facts_err : AcquisitionError Message =
        usage_error (not_a_directory facts.output_dir facts.existing_ancestor) in
      let read_only_err : AcquisitionError Message =
        refused_error (mounted_read_only facts.output_dir) in
      let space = check_free_space rules facts.free_bytes in
      let limit = check_file_size_limit rules facts.fs_type in
      let memory = check_memory_fs facts.fs_type rules.allow_tmpfs in
      let last : List Note → Note → Checked (List Note) = λ notes note. ok (notes ++ note ∷ []) in
      let sized : List Note → Checked (List Note) = λ notes. limit >> (space >>= last notes) in
      let written : Checked (List Note) = memory >>= sized in
      let mounted : Checked (List Note) =
        refuse_if facts.read_only_mount read_only_err >> written in
      let evidence = check_evidence_mount is_evidence_mount facts.mount_point in
      let all_of =
        Succeeds->> (refuse_if (not facts.ancestor_is_dir) facts_err) (evidence >> mounted)
          (Succeeds-refuse_if (not facts.ancestor_is_dir) facts_err)
          (Succeeds->> evidence mounted (check_evidence_mount_iff facts.mount_point) (
            Succeeds->> (refuse_if facts.read_only_mount read_only_err) written
              (Succeeds-refuse_if facts.read_only_mount read_only_err)
              (Succeeds->>= memory sized (check_memory_fs_iff facts.fs_type rules.allow_tmpfs)
                (λ notes.
                  Succeeds->> limit (space >>= last notes)
                    (check_file_size_limit_iff rules facts.fs_type)
                    (Succeeds->>= space (last notes) (check_free_space_iff rules facts.free_bytes)
                      (λ note.
                        Succeeds-ok_iff (AcquisitionError Message) (notes ++ note ∷ []))))))) in
      ground (arith, all_of)
