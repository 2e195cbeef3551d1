-- ===== src/Audit/Finished.antt =====
-- src/engines/audit.rs: the record "acquisition_finished" is written once, however the run ends.
use dfdisk.Prelude.{
  ℕ, ◌≡◌, refl, ap, ◌∙◌, ◌≢◌, ◌↔◌, ◌⊎◌, Bool, true, false, not, Option, some, [], ◌∷◌, ◌++◌, arith,
  if◌then◌else◌, Text, codes, same_text,
}
use dfdisk.Prelude.Results.{Result, ok, err}
use dfdisk.Outcome.{
  Outcome, verified, completed_with_read_errors, complete_unverified, error_exit_code, exit_code,
  exit_internal_error, ErrorKind,
}
use dfdisk.Errors.{exit_code_of, AuditOutcome, ok_outcome, error_outcome, audit_outcome}
use dfdisk.Audit.{
  acquisition_finished, boolean, number, insert_detail, get_detail, or_insert, AuditEvent, Log,
  outcome_for_exit_code, text_or_null, finished_details, error_details, FinishedGuard,
  finished_event,
}
use dfdisk.Audit.Guard.{
  Journal, append_event, write_event, warn_if_lost, Ending, reported, report_not_written,
  ended_by_error, dropped, drop_guard, not_written_details, finish_guard, conclude,
}

-- The exit code of the process for each ending.
abbrev pub process_exit_code : Ending → ℕ
process_exit_code (reported r files) = r.exit_code
process_exit_code (report_not_written r e) = exit_code_of e
process_exit_code (ended_by_error e) = exit_code_of e
process_exit_code (dropped panicking) = exit_internal_error

abbrev pub is_reported : Ending → Bool
is_reported (reported r files) = true
is_reported _ = false

-- The anchor in the record: that of the report where there is one, otherwise that of the guard.
abbrev pub anchor_of : FinishedGuard → Ending → Option Text
anchor_of g (reported r files) = r.audit_anchor
anchor_of g (report_not_written r e) = r.audit_anchor
anchor_of g _ = g.anchor

abbrev pub audit_outcome_of : Ending → AuditOutcome
audit_outcome_of (reported r files) = outcome_for_exit_code r.exit_code
audit_outcome_of (report_not_written r e) = audit_outcome e.kind
audit_outcome_of (ended_by_error e) = audit_outcome e.kind
audit_outcome_of (dropped panicking) = error_outcome

-- A record of the end of an acquisition, with what it says.
abbrev pub Records : FinishedGuard → Ending → AuditEvent → Type 0
Records g ending e =
    (e.action ≡ acquisition_finished)
    × (e.device ≡ g.device)
    × (e.outcome ≡ audit_outcome_of ending)
    × (get_detail (codes "exit_code") e.details ≡ some (number (process_exit_code ending)))
    × (get_detail (codes "report_written") e.details ≡ some (boolean (is_reported ending)))
    × (get_detail (codes "anchor") e.details ≡ some (text_or_null (anchor_of g ending)))

if_armed : {A : Type 0} {armed : Bool} (x y : A) → armed ≡ true → (if not armed then x else y) ≡ y
if_armed {armed = true} x y h = refl
if_armed {armed = false} x y h = cc

module _ (log : Log) where
  warn_if_lost-appended :
      (r : Result Text Text) (j : Journal log) → (warn_if_lost log r j).appended ≡ j.appended
  warn_if_lost-appended (ok hash) j = refl
  warn_if_lost-appended (err reason) j = refl

  write_event-appended :
      (g : FinishedGuard) (e : AuditEvent) (j : Journal log)
      → (write_event log g e j).1.appended ≡ j.appended ++ e ∷ []
  unfolding write_event append_event
  write_event-appended g e j = warn_if_lost-appended _ _

  finish_guard-appended :
      (g : FinishedGuard) (e : AuditEvent) (j : Journal log)
      → (finish_guard log g e j).appended ≡ j.appended ++ e ∷ []
  unfolding finish_guard drop_guard write_event
  finish_guard-appended g e j = write_event-appended g e j

  -- However a run ends, by a report, by a verdict whose report could not be written, by an error, by a
  -- panic or by cancellation, a guard that is armed appends one record to the log, whether it can be
  -- written or not. Its action is "acquisition_finished", and it names the device, the exit code of the
  -- process, whether there is a report, and the anchor.
  pub conclude-once :
      (g : FinishedGuard) (ending : Ending) (j : Journal log)
      → g.armed ≡ true
      → (e : AuditEvent) × ((conclude log g ending j).appended ≡ j.appended ++ e ∷ [])
        × Records g ending e
  unfolding conclude drop_guard finished_event or_insert get_detail insert_detail same_text
      finished_details error_details not_written_details
  conclude-once g (reported r files) j armed =
      (_, finish_guard-appended g _ j, (refl, refl, refl, refl, refl, refl))
  conclude-once g (report_not_written r e) j armed =
      (_, finish_guard-appended g _ j, (refl, refl, refl, refl, refl, refl))
  conclude-once g (ended_by_error e) j armed =
      (_, finish_guard-appended g _ j, (refl, refl, refl, refl, refl, refl))
  conclude-once g (dropped panicking) j armed = (
    _,
    ap (λ (k : Journal log). k.appended) (if_armed _ _ armed) ∙ write_event-appended g _ j,
    (refl, refl, refl, refl, refl, refl),
  )

success_code :
    (o : Outcome)
    → (outcome_for_exit_code (exit_code o) ≡ ok_outcome)
      ↔ ((o ≡ verified) ⊎ (o ≡ completed_with_read_errors) ⊎ (o ≡ complete_unverified))
unfolding outcome_for_exit_code exit_code
success_code Outcome.verified = ground arith
success_code Outcome.complete_unverified = ground arith
success_code Outcome.completed_with_read_errors = ground arith
success_code Outcome.incomplete = ground arith
success_code Outcome.mismatch = ground arith
success_code Outcome.verification_failed = ground arith
success_code Outcome.aborted = ground arith

failure_code :
    (kind : ErrorKind)
    → (outcome_for_exit_code (error_exit_code kind) ≡ error_outcome)
      × (audit_outcome kind ≢ ok_outcome)
unfolding outcome_for_exit_code error_exit_code audit_outcome
failure_code ErrorKind.refused = ground arith
failure_code ErrorKind.usage = ground arith
failure_code ErrorKind.failed = ground arith
failure_code ErrorKind.aborted = ground arith

-- The records call the verdicts `Verified`, `CompletedWithReadErrors` and `CompleteUnverified` a
-- success, and no other; an error of any kind is none.
pub outcome_for_exit_code-ok :
    (o : Outcome) (kind : ErrorKind)
    → ((outcome_for_exit_code (exit_code o) ≡ ok_outcome)
        ↔ ((o ≡ verified) ⊎ (o ≡ completed_with_read_errors) ⊎ (o ≡ complete_unverified)))
      × (outcome_for_exit_code (error_exit_code kind) ≡ error_outcome)
      × (audit_outcome kind ≢ ok_outcome)
outcome_for_exit_code-ok o kind = let (f, g) = failure_code kind in (success_code o, f, g)
