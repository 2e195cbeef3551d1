-- ===== src/Outcome/Verdict.antt =====
-- What each verdict of src/models/outcome.rs says of the facts, byte by byte.
use dfdisk.Prelude.{
  ℕ, ◌≤◌, ◌<◌, ◌≡◌, ◌≢◌, ◌↔◌, ◌⊎◌, inl, inr, Bool, true, false, ◌||◌, none, some, ltb, Bool-cases,
  arith, u64_max,
}
use dfdisk.ReadErrors.{
  RangeKind, substituted, unread, ReadErrorTable, bytes_of, unread_bytes, count,
}
use dfdisk.ReadErrors.Coverage.{state_at}
use dfdisk.ReadErrors.Totals.{EndsBy, EndsBy-AreU64, bytes_of_zero, count-bytes_of, bytes_of_pos}
use dfdisk.Outcome.{
  Outcome, verified, complete_unverified, completed_with_read_errors, incomplete, exit_code,
  exit_internal_error, usage, refused, error_exit_code, VerificationResult, is_matched,
  not_possible, AcquisitionFacts, classify, summary,
}

-- The verdict is total: the `unreachable!` at its end is never reached.
pub classify-ne-none : (f : AcquisitionFacts) → classify f ≢ none
unfolding classify
classify-ne-none f = ground arith

abbrev pub is_not_possible : VerificationResult → Bool
is_not_possible (not_possible reason) = true
is_not_possible _ = false

-- The whole source was acquired: to its end, from the selected device, and with no byte unread.
abbrev pub IsWhole : AcquisitionFacts → Type 0
IsWhole f =
    (f.aborted ≡ false)
    × (f.identity_changed ≡ false)
    × (f.expected_bytes ≤ f.bytes_acquired)
    × (f.stop_reason ≡ none)
    × ((x : ℕ) → state_at f.read_errors.ranges x ≢ some unread)

-- The table has no byte of the kind, by `n`, a bound of its ranges within a `u64`.
module _ (t : ReadErrorTable) (n : ℕ) (small : n ≤ u64_max) (ends : EndsBy n t.ranges) where
  no_bytes : (k : RangeKind) → (bytes_of t k ≡ 0) ↔ ((x : ℕ) → state_at t.ranges x ≢ some k)
  no_bytes k = (
    λ z x. bytes_of_zero t k x (EndsBy-AreU64 n t.ranges small ends) z,
    λ none_in. elim (Bool-cases (ltb 0 (bytes_of t k))) [
      | inl e ↦ let (x, l, s) = bytes_of_pos t k n small ends (ground arith) in absurd (none_in x s)
      | inr e ↦ ground arith
    ],
  )

  no_ranges : (k : RangeKind) → (count t k ≡ 0) ↔ ((x : ℕ) → state_at t.ranges x ≢ some k)
  no_ranges k =
      let same = count-bytes_of t k (EndsBy-AreU64 n t.ranges small ends) in
      (λ z. (no_bytes k).0 (same.0 z), λ h. same.1 ((no_bytes k).1 h))

-- The tests of `classify`, before they are read byte by byte.
TestsWhole : (f : AcquisitionFacts) → Type 0
TestsWhole f =
    (f.aborted ≡ false)
    × (f.identity_changed ≡ false)
    × (f.expected_bytes ≤ f.bytes_acquired)
    × (f.stop_reason ≡ none)
    × (unread_bytes f.read_errors ≡ 0)

verified_tests :
    (f : AcquisitionFacts)
    → (classify f ≡ some verified)
      ↔ TestsWhole f × (is_matched f.verification ≡ true) × (count f.read_errors substituted ≡ 0)
unfolding classify summary TestsWhole
verified_tests f = (λ h. ground arith, λ h. ground arith)

pub verified_facts :
    (f : AcquisitionFacts)
    → classify f ≡ some verified
    → (f.aborted ≡ false)
      × (f.identity_changed ≡ false)
      × (f.expected_bytes ≤ f.bytes_acquired)
      × (is_matched f.verification ≡ true)
unfolding TestsWhole
verified_facts f h = let t = (verified_tests f).0 h in ground (arith, t)

unverified_tests :
    (f : AcquisitionFacts)
    → (classify f ≡ some complete_unverified)
      ↔ TestsWhole f
        × (is_not_possible f.verification ≡ true)
        × (count f.read_errors substituted ≡ 0)
unfolding classify summary TestsWhole
unverified_tests f = (λ h. ground arith, λ h. ground arith)

read_errors_tests :
    (f : AcquisitionFacts)
    → (classify f ≡ some completed_with_read_errors)
      ↔ TestsWhole f
        × ((is_matched f.verification || is_not_possible f.verification) ≡ true)
        × (count f.read_errors substituted ≢ 0)
unfolding classify summary TestsWhole
read_errors_tests f = (λ h. ground arith, λ h. ground arith)

abbrev FailedTests : AcquisitionFacts → Type 0
FailedTests f =
    (f.identity_changed ≡ true)
    ⊎ (f.bytes_acquired < f.expected_bytes)
    ⊎ (f.stop_reason ≢ none)
    ⊎ (0 < unread_bytes f.read_errors)

incomplete_tests :
    (f : AcquisitionFacts) → (classify f ≡ some incomplete) ↔ (f.aborted ≡ false) × FailedTests f
unfolding classify
incomplete_tests f = (λ h. ground arith, λ h. ground arith)

module _ (f : AcquisitionFacts) (n : ℕ) (small : n ≤ u64_max)
    (ends : EndsBy n f.read_errors.ranges) where
  TestsWhole-IsWhole : TestsWhole f ↔ IsWhole f
  unfolding TestsWhole
  TestsWhole-IsWhole =
      let u = no_bytes f.read_errors n small ends unread in
      (λ (a, i, e, s, b). (a, i, e, s, u.0 b), λ (a, i, e, s, b). (a, i, e, s, u.1 b))

  -- `Verified` exactly if the whole source was acquired, the digests matched, and no byte was
  -- substituted: every byte of the image is as read.
  classify-verified :
      (classify f ≡ some verified)
      ↔ IsWhole f
        × (is_matched f.verification ≡ true)
        × ((x : ℕ) → state_at f.read_errors.ranges x ≢ some substituted)
  classify-verified =
      let s = no_ranges f.read_errors n small ends substituted in
      (
        λ h. let (w, m, c) = (verified_tests f).0 h in (TestsWhole-IsWhole.0 w, m, s.0 c),
        λ (w, m, c). (verified_tests f).1 (TestsWhole-IsWhole.1 w, m, s.1 c),
      )

  -- `CompleteUnverified` exactly if the whole source was acquired with no byte substituted, and no
  -- comparison was possible.
  classify-complete_unverified :
      (classify f ≡ some complete_unverified)
      ↔ IsWhole f
        × (is_not_possible f.verification ≡ true)
        × ((x : ℕ) → state_at f.read_errors.ranges x ≢ some substituted)
  classify-complete_unverified =
      let s = no_ranges f.read_errors n small ends substituted in
      (
        λ h. let (w, m, c) = (unverified_tests f).0 h in (TestsWhole-IsWhole.0 w, m, s.0 c),
        λ (w, m, c). (unverified_tests f).1 (TestsWhole-IsWhole.1 w, m, s.1 c),
      )

  -- `CompletedWithReadErrors` exactly if the whole source was acquired, some byte was substituted,
  -- and verification neither failed nor found a difference; a match does not hide the zeros.
  classify-read_errors :
      (classify f ≡ some completed_with_read_errors)
      ↔ IsWhole f
        × ((is_matched f.verification || is_not_possible f.verification) ≡ true)
        × ((x : ℕ) × (state_at f.read_errors.ranges x ≡ some substituted))
  classify-read_errors =
      let t = f.read_errors in
      let s = no_ranges t n small ends substituted in
      let same = count-bytes_of t substituted (EndsBy-AreU64 n t.ranges small ends) in
      (
        λ h.
            let (w, m, c) = (read_errors_tests f).0 h in
            let some_bytes : bytes_of t substituted ≢ 0 = λ z. c (same.1 z) in
            let (x, l, e) = bytes_of_pos t substituted n small ends (omega arith) in
            (TestsWhole-IsWhole.0 w, m, (x, e)),
        λ (w, m, c). (read_errors_tests f).1 (TestsWhole-IsWhole.1 w, m, λ z. s.0 z c.0 c.1),
      )

  -- `Incomplete` exactly if the run was not aborted, and the device changed, bytes are missing, a
  -- stop reason was given, or some byte is unread.
  classify-incomplete :
      (classify f ≡ some incomplete)
      ↔ (f.aborted ≡ false)
        × ((f.identity_changed ≡ true)
            ⊎ (f.bytes_acquired < f.expected_bytes)
            ⊎ (f.stop_reason ≢ none)
            ⊎ ((x : ℕ) × (state_at f.read_errors.ranges x ≡ some unread)))
  classify-incomplete =
      let t = f.read_errors in
      let z = no_bytes t n small ends unread in
      (
        λ h.
            let (a, why) = (incomplete_tests f).0 h in
            (
              a,
              elim why [
                | inl i ↦ inl i
                | inr (inl e) ↦ inr (inl e)
                | inr (inr (inl s)) ↦ inr (inr (inl s))
                | inr (inr (inr b)) ↦
                    let (x, l, e) = bytes_of_pos t unread n small ends b in inr (inr (inr (x, e)))
              ],
            ),
        λ (a, why). (incomplete_tests f).1 (
          a,
          elim why [
            | inl i ↦ inl i
            | inr (inl e) ↦ inr (inl e)
            | inr (inr (inl s)) ↦ inr (inr (inl s))
            | inr (inr (inr (x, e))) ↦
                let some_bytes : unread_bytes t ≢ 0 = λ b. z.0 b x e in
                inr (inr (inr (omega arith)))
          ],
        ),
      )

  -- The four verdicts of a run that was not aborted and whose verification neither failed nor differed.
  -- `Verified`, `CompleteUnverified` and `CompletedWithReadErrors` exactly if the whole source was
  -- acquired, and, in turn: the digests matched and no byte was substituted; no comparison was possible
  -- and no byte was substituted; some byte was substituted and the digests matched or could not be
  -- compared. `Incomplete` exactly if the run was not aborted, and the device changed, bytes are missing,
  -- a stop reason was given, or some byte is unread. The ranges of the table end within a u64.
  pub classify-verdicts :
      ((classify f ≡ some verified)
        ↔ IsWhole f
          × (is_matched f.verification ≡ true)
          × ((x : ℕ) → state_at f.read_errors.ranges x ≢ some substituted))
      × ((classify f ≡ some complete_unverified)
          ↔ IsWhole f
            × (is_not_possible f.verification ≡ true)
            × ((x : ℕ) → state_at f.read_errors.ranges x ≢ some substituted))
      × ((classify f ≡ some completed_with_read_errors)
          ↔ IsWhole f
            × ((is_matched f.verification || is_not_possible f.verification) ≡ true)
            × ((x : ℕ) × (state_at f.read_errors.ranges x ≡ some substituted)))
      × ((classify f ≡ some incomplete)
          ↔ (f.aborted ≡ false)
            × ((f.identity_changed ≡ true)
                ⊎ (f.bytes_acquired < f.expected_bytes)
                ⊎ (f.stop_reason ≢ none)
                ⊎ ((x : ℕ) × (state_at f.read_errors.ranges x ≡ some unread))))
  classify-verdicts =
      (classify-verified, classify-complete_unverified, classify-read_errors, classify-incomplete)

-- The verdicts have different exit codes, and share none with an internal error, a usage error or
-- a refusal.
pub exit_code-injective :
    (o p : Outcome)
    → ((exit_code o ≡ exit_code p) ↔ (o ≡ p))
      × (exit_code o ≢ exit_internal_error)
      × (exit_code o ≢ error_exit_code usage)
      × (exit_code o ≢ error_exit_code refused)
unfolding exit_code error_exit_code
exit_code-injective o p = ground arith
