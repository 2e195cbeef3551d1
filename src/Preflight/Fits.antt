-- ===== src/Preflight/Fits.antt =====
-- src/engines/preflight.rs: what an accepted destination has room for.
use dfdisk.Prelude.{ℕ, ◌≤◌, ◌<◌, ◌≡◌, Bool, true, Option, none, some, List, arith, Text}
use dfdisk.Prelude.Results.{ok}
use dfdisk.Config.{ewf, AcquisitionConfig, engine, segment_size}
use dfdisk.Config.{ewf_min_segment_bytes, validate}
use dfdisk.Config.Consistent.{accepted_segment-range}
use dfdisk.Preflight.{
  DestinationFacts, DestinationRules, Note, fat_max_file_bytes, is_fat, rules_of, evaluate,
}
use dfdisk.Preflight.Accepts.{is_fat_iff, FilesFit, SmallSegments, IsAcceptable, evaluate_iff}

module _ (is_evidence_mount : Text → Bool) where
  fits_at :
      (rules : DestinationRules) (o : Option Text) (fs : Text)
      → o ≡ some fs
      → is_fat fs ≡ true
      → fat_max_file_bytes < rules.source_bytes
      → FilesFit rules o
      → SmallSegments rules.engine_kind rules.segment_bytes
  fits_at rules none fs h fat large f = cc
  fits_at rules (some x) fs h fat large f = ground (arith, is_fat_iff fs, f, h)

  -- At an accepted destination on a FAT filesystem, a source larger than one file may be goes into E01
  -- segments, of a size from 1 MiB to that limit if the options are accepted.
  pub large_source-segmented :
      (c : AcquisitionConfig) (source : ℕ) (facts : DestinationFacts) (notes : List Note)
      (fs : Text)
      → validate c ≡ ok tt
      → facts.fs_type ≡ some fs
      → is_fat fs ≡ true
      → fat_max_file_bytes < source
      → evaluate is_evidence_mount (rules_of c source) facts ≡ ok notes
      → (engine c ≡ ewf)
        × (seg : ℕ) × (segment_size c.split_size ≡ some seg)
        × (ewf_min_segment_bytes ≤ seg)
        × (seg ≤ fat_max_file_bytes)
  unfolding IsAcceptable rules_of
  large_source-segmented c source facts notes fs valid on fat large accepted =
      let rules = rules_of c source in
      let good : IsAcceptable is_evidence_mount rules facts =
        (evaluate_iff is_evidence_mount rules facts).0 (notes, accepted) in
      let (e, seg, named, most) = fits_at rules facts.fs_type fs on fat large good.4 in
      (e, seg, named, (accepted_segment-range c seg valid e named).0, most)
