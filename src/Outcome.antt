-- ===== src/Outcome.antt =====
-- src/models/outcome.rs: the verdict of an acquisition and its exit code, and src/engines/error.rs:
-- the kinds of errors and theirs. A message is a constructor with the values that it shows.
pub mod Verdict
use dfdisk.Prelude.{
  ℕ, ◌+◌, Bool, true, false, not, ◌&&◌, ◌||◌, Option, none, some, List, [], ◌∷◌, ◌++◌, ltb, ◌==◌,
  if◌then◌else◌, Text,
}
use dfdisk.ReadErrors.{
  RangeKind, substituted, unread, ReadErrorTable, bytes_of, unread_bytes, sectors_of, count,
}

pub data Outcome : Type 0 where
  verified complete_unverified completed_with_read_errors incomplete : Outcome
  mismatch verification_failed aborted : Outcome

-- `mod exit_code`
abbrev pub exit_verified : ℕ
exit_verified = 0

abbrev pub exit_internal_error : ℕ
exit_internal_error = 1

abbrev pub exit_usage : ℕ
exit_usage = 2

abbrev pub exit_refused : ℕ
exit_refused = 3

abbrev pub exit_failed : ℕ
exit_failed = 4

abbrev pub exit_mismatch : ℕ
exit_mismatch = 5

abbrev pub exit_incomplete : ℕ
exit_incomplete = 6

abbrev pub exit_read_errors : ℕ
exit_read_errors = 7

abbrev pub exit_aborted : ℕ
exit_aborted = 8

abbrev pub exit_unverified : ℕ
exit_unverified = 9

unfoldable pub exit_code : Outcome → ℕ
exit_code verified = exit_verified
exit_code complete_unverified = exit_unverified
exit_code completed_with_read_errors = exit_read_errors
exit_code incomplete = exit_incomplete
exit_code mismatch = exit_mismatch
exit_code verification_failed = exit_failed
exit_code aborted = exit_aborted

-- `ErrorKind` of src/engines/error.rs
pub data ErrorKind : Type 0 where
  refused usage failed aborted : ErrorKind

unfoldable pub error_exit_code : ErrorKind → ℕ
error_exit_code refused = exit_refused
error_exit_code usage = exit_usage
error_exit_code failed = exit_failed
error_exit_code aborted = exit_aborted

-- "128 sectors (64 KiB) in 2 ranges": the numbers of the text.
pub record Summary : Type 0 where
  pub sectors : ℕ
  pub bytes : ℕ
  pub ranges : ℕ

unfoldable pub summary : ReadErrorTable → RangeKind → Option Summary
summary t kind =
    if count t kind == 0
    then none
    else some (record {
      sectors = sectors_of t (some kind);
      bytes = bytes_of t kind;
      ranges = count t kind;
    })

pub data VerificationResult : Type 0 where
  matched : Text → VerificationResult
  mismatched : Text → Text → VerificationResult
  not_possible : Text → VerificationResult
  failed : Text → VerificationResult

abbrev pub is_matched : VerificationResult → Bool
is_matched (matched method) = true
is_matched _ = false

-- What the engines and the session measured.
pub record AcquisitionFacts : Type 0 where
  pub expected_bytes : ℕ
  pub bytes_acquired : ℕ
  pub read_errors : ReadErrorTable
  pub stop_reason : Option Text
  pub aborted : Bool
  pub verification : VerificationResult
  pub identity_changed : Bool

-- A part of the reason of an incomplete acquisition.
pub data Part : Type 0 where
  stop : Text → Part
  acquired : ℕ → ℕ → Part
  not_read : Summary → Part

-- The sentence that `classify_detailed` gives with its verdict.
pub data Reason : Type 0 where
  stopped_by_examiner : ℕ → ℕ → Option Text → Reason
  device_changed : Option Text → ℕ → ℕ → Reason
  parts : List Part → Reason
  differs : Text → Text → Reason
  zero_filled : Summary → VerificationResult → Reason
  text : Text → Reason

pub record Classification : Type 0 where
  pub outcome : Outcome
  pub reason : Reason

abbrev is_some {ℓ} : {A : Type ℓ} → Option A → Bool
is_some none = false
is_some (some a) = true

abbrev optional {ℓ κ} : {A : Type ℓ} {B : Type κ} → Option A → (A → B) → List B
optional none f = []
optional (some a) f = f a ∷ []

shortfall : AcquisitionFacts → Bool
shortfall f = ltb f.bytes_acquired f.expected_bytes

incomplete_parts : AcquisitionFacts → List Part
unfolding shortfall
incomplete_parts f =
    optional f.stop_reason stop
    ++ ((if shortfall f then acquired f.bytes_acquired f.expected_bytes ∷ [] else [])
        ++ optional (summary f.read_errors unread) not_read)

-- The last `match`. `none` is its `unreachable!`.
without_read_errors : VerificationResult → Option Classification
without_read_errors (matched method) = some (record { outcome = verified; reason = text method })
without_read_errors (not_possible reason) =
    some (record { outcome = complete_unverified; reason = text reason })
without_read_errors (mismatched method details) = none
without_read_errors (failed reason) = none

-- Behind the first `match` on the verification.
after_verification : AcquisitionFacts → Option Classification
unfolding without_read_errors
after_verification f = elim (summary f.read_errors substituted) [
  | some s ↦
      some (record { outcome = completed_with_read_errors; reason = zero_filled s f.verification })
  | none ↦ without_read_errors f.verification
]

by_verification : VerificationResult → AcquisitionFacts → Option Classification
unfolding after_verification
by_verification (mismatched method details) f =
    some (record { outcome = mismatch; reason = differs method details })
by_verification (failed reason) f =
    some (record { outcome = verification_failed; reason = text reason })
by_verification _ f = after_verification f

-- `none`: the function panics.
unfoldable pub classify_detailed : AcquisitionFacts → Option Classification
unfolding shortfall incomplete_parts by_verification
classify_detailed f =
    if f.aborted
    then some (record {
      outcome = aborted;
      reason = stopped_by_examiner f.bytes_acquired f.expected_bytes f.stop_reason;
    })
    else if f.identity_changed
    then some (record {
      outcome = incomplete;
      reason = device_changed f.stop_reason f.bytes_acquired f.expected_bytes;
    })
    else if shortfall f || ltb 0 (unread_bytes f.read_errors) || is_some f.stop_reason
    then some (record { outcome = incomplete; reason = parts (incomplete_parts f) })
    else by_verification f.verification f

unfoldable pub classify : AcquisitionFacts → Option Outcome
unfolding classify_detailed
classify f = elim (classify_detailed f) [ none ↦ none | some c ↦ some c.outcome ]
