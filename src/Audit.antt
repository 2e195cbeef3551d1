-- ===== src/Audit.antt =====
-- src/engines/audit.rs: the records of an acquisition in the audit log. Appending to the log and
-- giving a record its hash is dfcore's, a parameter.
pub mod Guard
pub mod Finished
use dfdisk.Prelude.{
  ℕ, zero, suc, ◌+◌, ◌-◌, ◌*◌, ◌/◌, ◌%◌, ◌^◌, ◌≤◌, ◌<◌, min, max, ◌≡◌, refl, sym, ap, ◌∙◌, ◌≢◌, ◌↔◌,
  ◌⊎◌, inl, inr, Bool, true, false, not, ◌&&◌, ◌||◌, Option, none, some, List, [], ◌∷◌, ◌++◌, map,
  arith, ltb, leb, ◌==◌, if◌then◌else◌, Bool-cases, is_empty, Text, codes, same_text, strip_prefix,
  same_text_iff, length, u64_max, saturating_add, saturating_mul, saturating_sub,
}
use dfdisk.Prelude.Results.{Result, ok, err}
use dfdisk.Outcome.{
  Outcome, exit_code, exit_verified, exit_read_errors, exit_unverified, exit_internal_error,
  ErrorKind, error_exit_code,
}
use dfdisk.Pieces.File.{decimal}
use dfdisk.Errors.{
  AcquisitionError, refused_error, exit_code_of, AuditOutcome, ok_outcome, refused_outcome,
  error_outcome, audit_outcome,
}
use dfdisk.Config.{EngineKind, ewf, raw, rescue}

-- `mod action`
pub data Action : Type 0 where
  acquisition_started acquisition_finished acquisition_refused : Action

-- The values of the details. A value that serde makes of a part of the report is its argument.
pub data Value : Type 0 where
  null : Value
  boolean : Bool → Value
  number : ℕ → Value
  string : Text → Value
  outcome_value : Outcome → Value
  error_kind_value : ErrorKind → Value
  serialized : ℕ → Value

abbrev pub Details : Type 0
Details = List (Text × Value)

-- `Map::insert`
unfoldable pub insert_detail : Text → Value → Details → Details
insert_detail key value [] = (key, value) ∷ []
insert_detail key value ((k, v) ∷ rest) =
    let others = insert_detail key value rest in
    if same_text k key then (key, value) ∷ rest else (k, v) ∷ others

unfoldable pub get_detail : Text → Details → Option Value
get_detail key [] = none
get_detail key ((k, v) ∷ rest) =
    let others = get_detail key rest in if same_text k key then some v else others

-- `entry(key).or_insert_with`
unfoldable pub or_insert : Text → Value → Details → Details
or_insert key value d = elim (get_detail key d) [ none ↦ insert_detail key value d | some _ ↦ d ]

pub record AuditEvent : Type 0 where
  pub action : Action
  pub device : Text
  pub outcome : AuditOutcome
  pub message : Option Text
  pub details : Details

-- The log, with dfcore's `append_to`: the hash of the record, if it has one.
pub record Log : Type 1 where
  pub State : Type 0
  pub append_to : State → AuditEvent → State × Result Text (Option Text)

pub data RegistryPresence : Type 0 where
  present absent : RegistryPresence
  unreadable : Text → RegistryPresence

pub record AuditInfo : Type 0 where
  pub anchor : Option Text
  -- `AuditStatus::NotWritten`, with its reason
  pub not_written : Option Text

-- What the records take from a report.
pub record Report : Type 0 where
  pub engine : EngineKind
  pub audit_anchor : Option Text
  pub outcome : Outcome
  pub exit_code : ℕ
  pub outcome_reason : Text
  pub bytes_acquired : ℕ
  pub expected_bytes : ℕ
  pub stop_reason : Option Text
  pub aborted : Bool
  pub read_errors : Value
  pub acquisition_hashes : Value
  pub image_hashes : Value
  pub verification : Value
  pub identity_end_ok : Value
  pub write_protection : Value
  pub capacity : Value
  pub smart_before : Value
  pub smart_after : Value
  pub image_files : Value
  pub auxiliary_files : Value
  pub piecewise : Value
  pub export_file : Option Text

pub record ReportFiles : Type 0 where
  pub text_file : Text
  pub json_file : Text
  pub text_sha256 : Text
  pub json_sha256 : Text

abbrev pub tag : EngineKind → Text
tag ewf = codes "e01"
tag raw = codes "raw"
tag rescue = codes "rescue"

-- `Outcome::label`
abbrev pub outcome_label : Outcome → Text
outcome_label Outcome.verified = codes "VERIFIED"
outcome_label Outcome.complete_unverified = codes "COMPLETE, NOT VERIFIED"
outcome_label Outcome.completed_with_read_errors = codes "COMPLETED WITH READ ERRORS"
outcome_label Outcome.incomplete = codes "INCOMPLETE"
outcome_label Outcome.mismatch = codes "HASH MISMATCH"
outcome_label Outcome.verification_failed = codes "VERIFICATION FAILED"
outcome_label Outcome.aborted = codes "ABORTED"

-- `ErrorKind::label`
abbrev pub kind_label : ErrorKind → Text
kind_label ErrorKind.refused = codes "REFUSED"
kind_label ErrorKind.usage = codes "USAGE ERROR"
kind_label ErrorKind.failed = codes "FAILED"
kind_label ErrorKind.aborted = codes "ABORTED"

unfoldable pub outcome_for_exit_code : ℕ → AuditOutcome
outcome_for_exit_code code =
    if code == exit_verified || code == exit_read_errors || code == exit_unverified
    then ok_outcome
    else error_outcome

unfoldable pub verdict_message : Outcome → ℕ → Text
verdict_message outcome code =
    outcome_label outcome ++ (codes " (exit code " ++ (decimal code ++ codes ")"))

abbrev pub text_or_null : Option Text → Value
text_or_null none = null
text_or_null (some t) = string t

abbrev pub of_files : (ReportFiles → Text) → Option ReportFiles → Value
of_files f none = null
of_files f (some files) = string (f files)

abbrev pub are_written : Option ReportFiles → Bool
are_written none = false
are_written (some _) = true

-- The keys are inserted in this order into an empty map.
unfoldable pub finished_details : Report → Option ReportFiles → Details
finished_details r files =
    (codes "engine", string (tag r.engine))
    ∷ (codes "anchor", text_or_null r.audit_anchor)
    ∷ (codes "outcome", outcome_value r.outcome)
    ∷ (codes "exit_code", number r.exit_code)
    ∷ (codes "outcome_reason", string r.outcome_reason)
    ∷ (codes "bytes_acquired", number r.bytes_acquired)
    ∷ (codes "expected_bytes", number r.expected_bytes)
    ∷ (codes "stop_reason", text_or_null r.stop_reason)
    ∷ (codes "aborted", boolean r.aborted)
    ∷ (codes "read_errors", r.read_errors)
    ∷ (codes "acquisition_hashes", r.acquisition_hashes)
    ∷ (codes "image_hashes", r.image_hashes)
    ∷ (codes "verification", r.verification)
    ∷ (codes "identity_end_ok", r.identity_end_ok)
    ∷ (codes "write_protection", r.write_protection)
    ∷ (codes "capacity", r.capacity)
    ∷ (codes "smart_before", r.smart_before)
    ∷ (codes "smart_after", r.smart_after)
    ∷ (codes "report_written", boolean (are_written files))
    ∷ (codes "report_file", of_files (λ f. f.text_file) files)
    ∷ (codes "report_json_file", of_files (λ f. f.json_file) files)
    ∷ (codes "report_sha256", of_files (λ f. f.text_sha256) files)
    ∷ (codes "report_json_sha256", of_files (λ f. f.json_sha256) files)
    ∷ (codes "files", r.image_files)
    ∷ (codes "auxiliary_files", r.auxiliary_files)
    ∷ (codes "piecewise", r.piecewise)
    ∷ (codes "audit_export", text_or_null r.export_file)
    ∷ []

unfoldable pub error_details : EngineKind → AcquisitionError Text → Details
error_details engine e =
    (codes "engine", string (tag engine))
    ∷ (codes "error_kind", error_kind_value e.kind)
    ∷ (codes "outcome", string (kind_label e.kind))
    ∷ (codes "exit_code", number (exit_code_of e))
    ∷ (codes "report_written", boolean false)
    ∷ []

pub record FinishedGuard : Type 0 where
  pub device : Text
  pub engine : EngineKind
  pub anchor : Option Text
  pub armed : Bool

-- `FinishedGuard::new`
unfoldable pub new_guard : Text → EngineKind → Option Text → FinishedGuard
new_guard device engine anchor = record {
  device = device;
  engine = engine;
  anchor = anchor;
  armed = true;
}

-- `FinishedGuard::event`
unfoldable pub finished_event : FinishedGuard → AuditOutcome → Option Text → Details → AuditEvent
finished_event g outcome message details = record {
  action = acquisition_finished;
  device = g.device;
  outcome = outcome;
  message = message;
  details = or_insert (codes "anchor") (text_or_null g.anchor) details;
}
