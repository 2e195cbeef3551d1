-- ===== src/Session/Recorded.antt =====
-- src/engines/session.rs: which records a session leaves in the audit log.
use dfdisk.Prelude.{ℕ, ◌≡◌, Option, none, some, Text, codes}
use dfdisk.Prelude.Results.{Result, ok, err}
use dfdisk.Outcome.{exit_internal_error}
use dfdisk.Errors.{AcquisitionError, exit_code_of}
use dfdisk.Audit.{acquisition_finished, number, get_detail, AuditEvent, Log, Report}
use dfdisk.Session.Run.{Ran}

-- The exit code of the process, for the result of the run.
abbrev pub result_exit_code : Option (Result (AcquisitionError Text) Report) → ℕ
result_exit_code none = exit_internal_error
result_exit_code (some (ok r)) = r.exit_code
result_exit_code (some (err e)) = exit_code_of e

module _ (log : Log) where
  -- What a record of the end says of the run.
  pub Tells : Text → Ran log → AuditEvent → Type 0
  Tells device ran e =
      (e.action ≡ acquisition_finished)
      × (e.device ≡ device)
      × (get_detail (codes "exit_code") e.details ≡ some (number (result_exit_code ran.result)))
