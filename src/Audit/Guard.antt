-- ===== src/Audit/Guard.antt =====
-- src/engines/audit.rs: the guard that writes the last record of an acquisition, and the records before
-- it.
use dfdisk.Prelude.{
  Bool, true, false, not, Option, none, some, List, [], ◌∷◌, ◌++◌, if◌then◌else◌, Text, codes,
}
use dfdisk.Prelude.Results.{Result, ok, err}
use dfdisk.Outcome.{exit_internal_error}
use dfdisk.Errors.{AcquisitionError, refused_error, exit_code_of, error_outcome, audit_outcome}
use dfdisk.Config.{EngineKind}
use dfdisk.Audit.{
  acquisition_refused, boolean, number, string, error_kind_value, RegistryPresence, absent, Details,
  insert_detail, AuditEvent, Log, AuditInfo, Report, ReportFiles, tag, outcome_for_exit_code,
  verdict_message, finished_details, error_details, FinishedGuard, finished_event,
}

-- The `match` of `started`.
unfoldable pub started_result :
    Text → RegistryPresence → Result Text Text → Result (AcquisitionError Text) AuditInfo
started_result path registry (ok hash) = ok (record { anchor = some hash; not_written = none })
started_result path absent (err reason) = ok (record {
  anchor = none;
  not_written = some (codes "the audit log " ++ (path ++ (codes " cannot be written: " ++ reason)));
})
started_result path _ (err reason) = err (
    refused_error (
      codes "the dfnix audit log "
      ++ (path
          ++ (codes " cannot be written ("
              ++ (reason
                  ++ codes
                      "); on dfnix every acquisition is recorded before the source is read")))))

-- `FinishedGuard::report`, `report_not_written`, `error`, and the guard dropped, `true` while the
-- thread is panicking. The first three consume the guard, which is dropped when they return.
pub data Ending : Type 0 where
  reported : Report → ReportFiles → Ending
  report_not_written : Report → AcquisitionError Text → Ending
  ended_by_error : AcquisitionError Text → Ending
  dropped : Bool → Ending

dropped_message : Bool → Text
dropped_message true = codes "the acquisition ended by an internal error (panic) without a result"
dropped_message false = codes "the acquisition ended without a result (cancelled)"

-- The details that `report_not_written` adds.
unfoldable pub not_written_details : Report → AcquisitionError Text → Details
not_written_details r e = insert_detail (codes "error") (string e.message) (
    insert_detail (codes "error_kind") (error_kind_value e.kind) (
      insert_detail (codes "verdict_exit_code") (number r.exit_code)
        (insert_detail (codes "exit_code") (number (exit_code_of e)) (finished_details r none))))

module _ (log : Log) where
  open log use {State, append_to}

  -- The log, the records that `append_event` was called with, in order, and the warnings of the sink.
  pub record Journal : Type 0 where
    pub state : State
    pub appended : List AuditEvent
    pub warnings : List Text

  abbrev hash_or_reason : Result Text (Option Text) → Result Text Text
  hash_or_reason (ok (some hash)) = ok hash
  hash_or_reason (ok none) = err (codes "the record has no hash")
  hash_or_reason (err e) = err e

  unfoldable pub append_event : Journal → AuditEvent → Journal × Result Text Text
  append_event j e =
      let (s, r) = append_to j.state e in
      (
        record { state = s; appended = j.appended ++ e ∷ []; warnings = j.warnings },
        hash_or_reason r,
      )

  abbrev pub warn : Text → Journal → Journal
  warn line j = record j { warnings = j.warnings ++ (codes "WARNING: " ++ line) ∷ [] }

  abbrev pub warn_if_lost : Result Text Text → Journal → Journal
  warn_if_lost (ok hash) j = j
  warn_if_lost (err reason) j =
      warn (codes "the audit record \"acquisition_finished\" was not written: " ++ reason) j

  -- `FinishedGuard::write`
  unfoldable pub write_event :
      FinishedGuard → AuditEvent → Journal → FinishedGuard × Journal × Result Text Text
  write_event g e j =
      let (j, r) = append_event j e in (record g { armed = false }, warn_if_lost r j, r)

  -- `impl Drop`
  unfoldable pub drop_guard : FinishedGuard → Bool → Journal → Journal
  unfolding dropped_message
  drop_guard g panicking j =
      if not g.armed
      then j
      else let details = insert_detail (codes "exit_code") (number exit_internal_error) (
          insert_detail (codes "report_written") (boolean false)
            (insert_detail (codes "engine") (string (tag g.engine)) [])) in
        (write_event g (finished_event g error_outcome (some (dropped_message panicking)) details)
          j).1

  -- A method that writes its record and drops the guard.
  unfoldable pub finish_guard : FinishedGuard → AuditEvent → Journal → Journal
  finish_guard g e j = let (g, j, r) = write_event g e j in drop_guard g false j

  unfoldable pub conclude : FinishedGuard → Ending → Journal → Journal
  conclude g (reported r files) j =
      finish_guard g
        (finished_event g (outcome_for_exit_code r.exit_code)
          (some (verdict_message r.outcome r.exit_code)) (finished_details r (some files)))
        j
  conclude g (report_not_written r e) j =
      finish_guard g
        (finished_event g (audit_outcome e.kind) (some e.message) (not_written_details r e)) j
  conclude g (ended_by_error e) j =
      finish_guard g
        (finished_event g (audit_outcome e.kind) (some e.message) (error_details g.engine e)) j
  conclude g (dropped panicking) j = drop_guard g panicking j

  -- `started`, with the record that it is given.
  unfoldable pub started :
      Text
      → RegistryPresence
      → AuditEvent
      → Journal
      → Journal × Result (AcquisitionError Text) AuditInfo
  unfolding started_result
  started path registry e j = let (j, r) = append_event j e in (j, started_result path registry r)

  -- `refused`
  unfoldable pub record_refusal :
      Text → EngineKind → AcquisitionError Text → Journal → Journal × Result Text Text
  record_refusal device engine e j = append_event j (record {
    action = acquisition_refused;
    device = device;
    outcome = audit_outcome e.kind;
    message = some e.message;
    details = error_details engine e;
  })
