-- ===== src/Errors.antt =====
-- src/engines/error.rs: the errors of the engines. The message is of a type of the module that
-- reports it, a constructor with the values that it shows.
use dfdisk.Prelude.{ℕ}
use dfdisk.Outcome.{ErrorKind, refused, usage, error_exit_code}

pub record AcquisitionError (M : Type 0) : Type 0 where
  pub kind : ErrorKind
  pub message : M

abbrev pub refused_error : {M : Type 0} → M → AcquisitionError M
refused_error m = record { kind = refused; message = m }

abbrev pub usage_error : {M : Type 0} → M → AcquisitionError M
usage_error m = record { kind = usage; message = m }

-- `AcquisitionError::exit_code`
abbrev pub exit_code_of : {M : Type 0} → AcquisitionError M → ℕ
exit_code_of e = error_exit_code e.kind

-- `dfcore::audit::Outcome`
pub data AuditOutcome : Type 0 where
  ok_outcome refused_outcome error_outcome : AuditOutcome

unfoldable pub audit_outcome : ErrorKind → AuditOutcome
audit_outcome refused = refused_outcome
audit_outcome _ = error_outcome
