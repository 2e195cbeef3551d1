-- ===== src/Session.antt =====
-- src/engines/session.rs: what a session makes of the flush, the verification of the image and the
-- second read of the source, steps 8 to 12. What the host reports is an argument.
pub mod Combined
pub mod Durable
pub mod Verified
pub mod Run
pub mod Recorded
use dfdisk.Prelude.{
  ℕ, zero, suc, ◌+◌, ◌-◌, ◌*◌, ◌/◌, ◌%◌, ◌^◌, ◌≤◌, ◌<◌, min, max, ◌≡◌, refl, sym, ap, ◌∙◌, ◌≢◌, ◌↔◌,
  ◌⊎◌, inl, inr, Bool, true, false, not, ◌&&◌, ◌||◌, Option, none, some, List, [], ◌∷◌, ◌++◌, map,
  arith, ltb, leb, ◌==◌, if◌then◌else◌, Bool-cases, is_empty, Text, codes, same_text, strip_prefix,
  same_text_iff, length, u64_max, saturating_add, saturating_mul, saturating_sub,
}
use dfdisk.Prelude.Results.{Result, ok, err}
use dfdisk.Errors.{AcquisitionError}
use dfdisk.ReadErrors.{ReadErrorTable, has_no_bytes}
use dfdisk.Config.{HashSelection}
use dfdisk.Outcome.{
  VerificationResult, matched, mismatched, not_possible, failed, AcquisitionFacts, ErrorKind,
  aborted,
}
use dfdisk.Comparing.{HashResults, has_no_digest, join, compare_digest_sets}
use dfdisk.Preflight.{one_of}

pub record FileFlush : Type 0 where
  pub path : Text
  pub file_not_durable : Option Text
  pub file_not_evicted : Option Text

pub record FlushReport : Type 0 where
  pub files : List FileFlush
  pub directory : Option Text

pub record ImageFlush : Type 0 where
  pub not_durable : List Text
  pub not_evicted : List Text
  pub notes : List Text

abbrev pub nothing_flushed : ImageFlush
nothing_flushed = record { not_durable = []; not_evicted = []; notes = [] }

-- The two tests of the body of the loop, each with its `push`.
push_durable : Bool → Option Text → ImageFlush → ImageFlush
push_durable image none r = r
push_durable true (some p) r = record r { not_durable = r.not_durable ++ p ∷ [] }
push_durable false (some p) r = record r { notes = r.notes ++ p ∷ [] }

push_evicted : Bool → Option Text → ImageFlush → ImageFlush
push_evicted image none r = r
push_evicted true (some p) r = record r { not_evicted = r.not_evicted ++ p ∷ [] }
push_evicted false (some p) r = record r { notes = r.notes ++ p ∷ [] }

unfoldable pub flush_loop : List Text → List FileFlush → ImageFlush → ImageFlush
unfolding push_durable push_evicted
flush_loop image_files [] r = r
flush_loop image_files (f ∷ fs) r =
    let image = one_of f.path image_files in
    flush_loop image_files fs
      (push_evicted image f.file_not_evicted (push_durable image f.file_not_durable r))

push_directory : List Text → Option Text → ImageFlush → ImageFlush
push_directory image_files none r = r
push_directory [] (some p) r = record r { notes = r.notes ++ p ∷ [] }
push_directory (f ∷ fs) (some p) r = record r {
  not_durable = r.not_durable ++ (p ++ codes " (the directory entries of the image)") ∷ [];
}

-- `ImageFlush::of`
unfoldable pub image_flush : FlushReport → List Text → ImageFlush
unfolding push_directory
image_flush flush image_files =
    push_directory image_files flush.directory (flush_loop image_files flush.files nothing_flushed)

unfoldable pub not_flushed : Text → VerificationResult → VerificationResult
not_flushed flush (mismatched method details) = mismatched method details
not_flushed flush (failed reason) = failed (flush ++ (codes "; " ++ reason))
not_flushed flush _ = failed flush

-- `ImageFlush::apply`
unfoldable pub apply : ImageFlush → VerificationResult → VerificationResult
apply f image =
    if is_empty f.not_durable
    then image
    else not_flushed
        (codes "the image could not be flushed durably to the destination: "
          ++ join (codes "; ") f.not_durable)
        image

abbrev pub nothing_to_compare : Text
nothing_to_compare =
    codes
      "nothing to compare with: no digest was computed while reading the source, and the image could not be hashed"

-- The `match` on the result of the comparison, with its cause.
unfoldable pub with_cause : Text → VerificationResult → VerificationResult
with_cause cause (mismatched method details) = mismatched method (cause ++ (codes ": " ++ details))
with_cause cause (failed reason) = not_possible (codes "nothing to compare with: " ++ reason)
with_cause cause other = other

unfoldable pub compare_second_read :
    HashSelection → HashResults → HashResults → HashResults → VerificationResult
compare_second_read selection acquisition image reread =
    if has_no_digest acquisition && has_no_digest image
    then not_possible nothing_to_compare
    else if has_no_digest acquisition
    then with_cause
        (codes
          "the image differs from the source as read a second time (a damaged image, or a source that changed or reads unstably)")
        (compare_digest_sets selection (codes "image") image (codes "second read") reread
          (codes "second read of the source"))
    else with_cause (codes "the source changed or reads unstably") (
        compare_digest_sets selection (codes "acquisition") acquisition (codes "second read") reread
          (codes "second read of the source"))

-- `VerificationResult::describe` of src/models/outcome.rs
unfoldable pub describe : VerificationResult → Text
describe (matched method) = codes "matched (" ++ (method ++ codes ")")
describe (mismatched method details) = codes "MISMATCH (" ++ (method ++ (codes "): " ++ details))
describe (not_possible reason) = codes "not possible: " ++ reason
describe (failed reason) = codes "FAILED: " ++ reason

-- The `match` on the two results.
unfoldable pub combine : VerificationResult → VerificationResult → VerificationResult
combine (failed reason) (mismatched method details) =
    mismatched method (details ++ (codes "; the image verification also failed: " ++ reason))
combine _ (mismatched method details) = mismatched method details
combine (mismatched method details) _ = mismatched method details
combine (failed reason) reread =
    failed (reason ++ (codes "; second source read: " ++ describe reread))
combine image (not_possible reason) = image
combine _ (failed reason) = failed (codes "the second source read failed: " ++ reason)
combine (not_possible reason) (matched method) = matched method
combine image (matched method) = image

unfoldable pub combine_verification :
    VerificationResult → Option VerificationResult → VerificationResult
combine_verification image none = image
combine_verification image (some reread) = combine image reread

pub record EngineOutput : Type 0 where
  pub expected_bytes : ℕ
  pub bytes_acquired : ℕ
  pub read_errors : ReadErrorTable
  pub stop_reason : Option Text
  pub aborted : Bool
  pub image_files : List Text
  pub acquisition_hashes : HashResults

-- What the host answers to `acquire_phase` after the engine: whether the abort flag is up at each of
-- the three places that read it, the flush, the verification of the image, the second read, and
-- whether the source is still the same device.
pub record Host : Type 0 where
  pub stopped_after_engine : Bool
  pub end_ok : Bool
  pub flushed : FlushReport
  pub verified_image : VerificationResult × HashResults
  pub stopped_after_verify : Bool
  pub reread : Result (AcquisitionError Text) HashResults
  pub stopped_after_reread : Bool

-- Step 8, after the engine: the abort flag.
unfoldable pub after_engine : Host → EngineOutput → EngineOutput
after_engine host out = record out { aborted = out.aborted || host.stopped_after_engine }

abbrev no_hashes : HashResults
no_hashes = record { md5_digest = none; sha1_digest = none; sha256_digest = none }

-- Step 11: the verification of the image with the digests of the image.
unfoldable pub image_verification : Host → EngineOutput → VerificationResult × HashResults
image_verification host out =
    let (result, hashes) = host.verified_image in
    if out.aborted
    then (not_possible (codes "the acquisition was aborted; the image was not verified"), no_hashes)
    else (apply (image_flush host.flushed out.image_files) result, hashes)

-- `e.kind == ErrorKind::Aborted`
abbrev pub is_abort : ErrorKind → Bool
is_abort aborted = true
is_abort _ = false

-- The `match` on the second read: its result, and whether the run is aborted now.
unfoldable pub judge_reread :
    HashSelection
    → HashResults
    → HashResults
    → Bool
    → Result (AcquisitionError Text) HashResults
    → Bool
    → VerificationResult × Bool
judge_reread selection acquisition image was_aborted (ok reread) stopped =
    (compare_second_read selection acquisition image reread, was_aborted)
judge_reread selection acquisition image was_aborted (err e) stopped =
    if is_abort e.kind || stopped
    then (not_possible (codes "the second source read was aborted"), true)
    else (failed e.message, was_aborted)

-- The second read of the source, if any, and whether the run is aborted after it. `stopped` is the
-- `aborted` of the engine's output after the verification.
unfoldable pub second_read :
    Host
    → HashSelection
    → Bool
    → EngineOutput
    → HashResults
    → Bool
    → Option VerificationResult × Bool
second_read host selection verify_source out image_hashes stopped =
    if not verify_source
    then (none, stopped)
    else if stopped
    then (some (not_possible (codes "aborted before the second source read")), stopped)
    else if not (has_no_bytes out.read_errors.ranges)
    then (
      some (
          not_possible (
            codes
              "the source has unreadable sectors; a second read cannot reproduce the acquisition stream")),
      stopped,
    )
    else if not host.end_ok
    then (
      some (not_possible (codes "the source changed or disappeared during the acquisition")),
      stopped,
    )
    else if has_no_digest out.acquisition_hashes && has_no_digest image_hashes
    then (
      some
          (not_possible (nothing_to_compare ++ codes ", so the source was not read a second time")),
      stopped,
    )
    else let (result, stopped) =
        judge_reread selection out.acquisition_hashes image_hashes stopped host.reread
          host.stopped_after_reread in
      (some result, stopped)

-- Steps 8 to 12: the facts that the verdict is taken from.
unfoldable pub facts_of : Host → HashSelection → Bool → EngineOutput → AcquisitionFacts
facts_of host selection verify_source engine_out =
    let out = after_engine host engine_out in
    let (image_result, image_hashes) = image_verification host out in
    let stopped = out.aborted || host.stopped_after_verify in
    let (source_reread, stopped) =
      second_read host selection verify_source out image_hashes stopped in
    record {
      expected_bytes = out.expected_bytes;
      bytes_acquired = out.bytes_acquired;
      read_errors = out.read_errors;
      stop_reason = out.stop_reason;
      aborted = stopped;
      verification = combine_verification image_result source_reread;
      identity_changed = not host.end_ok;
    }
