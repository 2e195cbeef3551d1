-- ===== src/Tests/Sessions.antt =====
-- A session of src/engines/session.rs on concrete answers of its host, and its records.
use dfdisk.Prelude.{
  ℕ, ◌+◌, ◌%◌, ◌≡◌, ◌↔◌, ◌⊎◌, true, false, Option, none, some, [], ◌∷◌, ◌==◌, if◌then◌else◌,
  is_empty, codes,
}
use dfdisk.Prelude.Results.{ok, err}
use dfdisk.Errors.{refused_error, ok_outcome}
use dfdisk.Config.{HashSelection, nothing_selected, raw}
use dfdisk.Outcome.{VerificationResult, matched, is_matched, verified}
use dfdisk.Comparing.{HashAlgorithm, HashResults, digest, compare_digest_sets}
use dfdisk.Comparing.Matching.{is_mismatched, selects, Agree, Differ, compare_digest_sets-results}
use dfdisk.Session.{ImageFlush, EngineOutput, Host, combine_verification, apply}
use dfdisk.Session.Combined.{
  is_not_possible, no_objection, reread_matched, reread_differs, combine_verification-results,
}
use dfdisk.Audit.{acquisition_started, serialized, null, boolean, absent, Log, AuditInfo, Report}
use dfdisk.Audit.Guard.{Journal}
use dfdisk.Session.Run.{PreStart, verdict, Steps}

abbrev sums : HashResults
sums = record { md5_digest = none; sha1_digest = none; sha256_digest = some (codes "ab12") }

abbrev only_sha256 : HashSelection
only_sha256 = record { md5 = false; sha1 = false; sha256 = true }

-- A session with a second read of the source; everything went well.
abbrev host : Host
host = record {
  stopped_after_engine = false;
  end_ok = true;
  flushed = record {
    files =
        record { path = codes "case.raw"; file_not_durable = none; file_not_evicted = none }
        ∷ record {
          path = codes "case.map";
          file_not_durable = some (codes "fsync failed");
          file_not_evicted = none;
        }
        ∷ [];
    directory = none;
  };
  verified_image = (matched (codes "image re-read by dfdisk"), sums);
  stopped_after_verify = false;
  reread = ok sums;
  stopped_after_reread = false;
}

abbrev output : EngineOutput
output = record {
  expected_bytes = 4096;
  bytes_acquired = 4096;
  read_errors = record { sector_size = 512; ranges = []; source = codes "raw engine" };
  stop_reason = none;
  aborted = false;
  image_files = codes "case.raw" ∷ [];
  acquisition_hashes = sums;
}

-- The image could not be flushed, though it matched, and the second read did.
abbrev flush_failed : ImageFlush
flush_failed = record { not_durable = codes "fsync failed" ∷ []; not_evicted = []; notes = [] }

abbrev image_matched : VerificationResult
image_matched = matched (codes "image re-read by dfdisk")

abbrev second_matched : Option VerificationResult
second_matched = some (matched (codes "second read of the source"))

combine_verification-results_example :
    ((is_matched (combine_verification (apply flush_failed image_matched) second_matched) ≡ true)
      ↔ ((is_empty flush_failed.not_durable ≡ true)
          × (((is_matched image_matched ≡ true) × (no_objection second_matched ≡ true))
              ⊎ ((is_not_possible image_matched ≡ true) × (reread_matched second_matched ≡ true)))))
    × ((is_mismatched (combine_verification (apply flush_failed image_matched) second_matched)
          ≡ true)
        ↔ ((is_mismatched image_matched ≡ true) ⊎ (reread_differs second_matched ≡ true)))
combine_verification-results_example =
    combine_verification-results flush_failed image_matched second_matched

-- The same digest in capitals.
abbrev capitals : HashResults
capitals = record sums { sha256_digest = some (codes "AB12") }

compare_digest_sets-results_example :
    ((is_matched (
          compare_digest_sets only_sha256
            (codes "acquisition")
            sums
            (codes "recomputed")
            capitals
            (codes "re-read"))
        ≡ true)
      ↔ ((nothing_selected only_sha256 ≡ false)
          × ((alg : HashAlgorithm)
              → (selects only_sha256 alg ≡ false) ⊎ Agree (digest sums alg) (digest capitals alg))))
    × ((is_mismatched (
            compare_digest_sets only_sha256
              (codes "acquisition")
              sums
              (codes "recomputed")
              capitals
              (codes "re-read"))
          ≡ true)
        ↔ ((alg : HashAlgorithm) × (selects only_sha256 alg ≡ true)
            × Differ (digest sums alg) (digest capitals alg)))
compare_digest_sets-results_example =
    compare_digest_sets-results only_sha256 (codes "acquisition") sums (codes "recomputed") capitals
      (codes "re-read")

-- A log that gives its records numbers, and loses every second one.
abbrev counting : Log
counting = record {
  State = ℕ;
  append_to =
      λ n e. (n + 1, if n % 2 == 0 then ok (some (n ∷ [])) else err (codes "no space left"));
}

abbrev report : Report
report = record {
  engine = raw;
  audit_anchor = some (0 ∷ []);
  outcome = verified;
  exit_code = 0;
  outcome_reason = codes "the image was re-read";
  bytes_acquired = 4096;
  expected_bytes = 4096;
  stop_reason = none;
  aborted = false;
  read_errors = serialized 1;
  acquisition_hashes = serialized 2;
  image_hashes = serialized 3;
  verification = serialized 4;
  identity_end_ok = boolean true;
  write_protection = null;
  capacity = null;
  smart_before = null;
  smart_after = null;
  image_files = serialized 5;
  auxiliary_files = serialized 6;
  piecewise = null;
  export_file = none;
}

abbrev pre : PreStart
pre = record {
  device = codes "/dev/sdb";
  registry = absent;
  start = record {
    action = acquisition_started;
    device = codes "/dev/sdb";
    outcome = ok_outcome;
    message = none;
    details = [];
  };
}

-- The report cannot be written.
abbrev steps : Steps
steps = record {
  engine = raw;
  log_path = codes "/run/dfnix/audit.jsonl";
  validated = ok tt;
  pre_start = ok pre;
  phase = verdict report (err (refused_error (codes "read-only file system")));
  exported = err (codes "not reached");
}

abbrev journal : Journal counting
journal = record { state = 0; appended = []; warnings = [] }

abbrev start_info : AuditInfo
start_info = record { anchor = some (0 ∷ []); not_written = none }

abbrev refused_steps : Steps
refused_steps = record steps {
  pre_start = err (refused_error (codes "the source is mounted"), codes "/dev/sdb");
}
