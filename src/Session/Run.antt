-- ===== src/Session/Run.antt =====
-- src/engines/session.rs: `run_inner`, the order of the steps of a session and of its audit records.
-- What the steps themselves find is an argument.
use dfdisk.Prelude.{
  Bool, true, false, Option, none, some, ◌++◌, if◌then◌else◌, Text, codes, same_text,
}
use dfdisk.Prelude.Results.{Result, ok, err}
use dfdisk.Outcome.{ErrorKind, refused}
use dfdisk.Errors.{AcquisitionError}
use dfdisk.Config.{EngineKind}
use dfdisk.Audit.{
  RegistryPresence, AuditEvent, Log, AuditInfo, Report, ReportFiles, FinishedGuard, new_guard,
}
use dfdisk.Audit.Guard.{
  Journal, warn, reported, report_not_written, ended_by_error, dropped, conclude, started,
  record_refusal,
}

-- Steps 2 to 4 and the first write: the device to record, the registry of protected devices, and the
-- event of the start.
pub record PreStart : Type 0 where
  pub device : Text
  pub registry : RegistryPresence
  pub start : AuditEvent

-- How `acquire_phase` ends: with a report and its files, or why they could not be written; with an
-- error, and whether outputs exist; or not at all, by a panic (`true`) or by cancellation, and whether
-- it had kept the outputs by then.
pub data Phase : Type 0 where
  verdict : Report → Result (AcquisitionError Text) ReportFiles → Phase
  phase_error : AcquisitionError Text → Bool → Phase
  unwound : Bool → Bool → Phase

pub record Steps : Type 0 where
  pub engine : EngineKind
  pub log_path : Text
  pub validated : Result (AcquisitionError Text) (Unit {0})
  pub pre_start : Result (AcquisitionError Text × Text) PreStart
  pub phase : Phase
  -- the second copy of the log, into the case directory
  pub exported : Result Text Text

abbrev pub is_refused : ErrorKind → Bool
is_refused refused = true
is_refused _ = false

module _ (log : Log) where
  -- The journal, whether the outputs are kept (`OutputGuard::keep`), and the result; none if the run is
  -- unwound.
  pub record Ran : Type 0 where
    pub journal : Journal log
    pub kept : Bool
    pub result : Option (Result (AcquisitionError Text) Report)

  abbrev pub warn_lost_refusal : Journal log × Result Text Text → Journal log
  warn_lost_refusal (j, ok hash) = j
  warn_lost_refusal (j, err reason) =
      warn log (codes "the refusal was not recorded in the audit log: " ++ reason) j

  -- A run that ended before the start of the acquisition was recorded.
  unfoldable pub not_started : Steps → AcquisitionError Text → Text → Journal log → Ran
  not_started steps e device j = record {
    journal =
        if is_refused e.kind
        then warn_lost_refusal (record_refusal log device steps.engine e j)
        else j;
    kept = false;
    result = some (err e);
  }

  -- The report names the copy of the log that it expects, and the copy is made again.
  abbrev pub warn_export : Option Text → Result Text Text → Journal log → Journal log
  warn_export none exported j = j
  warn_export (some expected) (ok path) j =
      if same_text path expected
      then j
      else warn log
          (codes "the audit log was copied to " ++ (path ++ (codes " instead of " ++ expected))) j
  warn_export (some expected) (err e) j =
      warn log
        (codes "the audit log copy "
          ++ (expected ++ (codes " was not updated with the finished record: " ++ e)))
        j

  -- The `match` on `acquire_phase`, with the guard.
  unfoldable pub after_phase : Steps → FinishedGuard → Phase → Journal log → Ran
  after_phase steps g (verdict r (err e)) j = record {
    journal = conclude log g (report_not_written r e) j;
    kept = true;
    result = some (err e);
  }
  after_phase steps g (verdict r (ok files)) j = record {
    journal = warn_export r.export_file steps.exported (conclude log g (reported r files) j);
    kept = true;
    result = some (ok r);
  }
  after_phase steps g (phase_error e written) j = record {
    journal = conclude log g (ended_by_error e) j;
    kept = written;
    result = some (err e);
  }
  after_phase steps g (unwound panicking kept) j = record {
    journal = conclude log g (dropped panicking) j;
    kept = kept;
    result = none;
  }

  abbrev pub warn_not_written : Option Text → Journal log → Journal log
  warn_not_written none j = j
  warn_not_written (some reason) j = warn log (codes "audit log not written: " ++ reason) j

  unfoldable pub after_started :
      Steps → PreStart → Journal log × Result (AcquisitionError Text) AuditInfo → Ran
  after_started steps p (j, err e) = record { journal = j; kept = false; result = some (err e) }
  after_started steps p (j, ok info) =
      after_phase steps (new_guard p.device steps.engine info.anchor) steps.phase
        (warn_not_written info.not_written j)

  unfoldable pub after_pre_start :
      Steps → Result (AcquisitionError Text × Text) PreStart → Journal log → Ran
  after_pre_start steps (err (e, device)) j = not_started steps e device j
  after_pre_start steps (ok p) j =
      after_started steps p (started log steps.log_path p.registry p.start j)

  unfoldable pub run_inner : Steps → Journal log → Ran
  run_inner steps j = elim steps.validated [
    | err e ↦ record { journal = j; kept = false; result = some (err e) }
    | ok valid ↦ after_pre_start steps steps.pre_start j
  ]
