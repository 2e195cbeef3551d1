-- ===== src/Tests/Verdicts.antt =====
-- The verdicts of src/models/outcome.rs on concrete facts.
use dfdisk.Prelude.{
  ℕ, ◌<◌, ◌≡◌, ◌≢◌, ◌↔◌, ◌⊎◌, true, false, ◌||◌, none, some, [], ◌∷◌, arith, codes,
}
use dfdisk.ReadErrors.{substituted, unread}
use dfdisk.ReadErrors.Coverage.{state_at}
use dfdisk.Outcome.{
  verified, complete_unverified, completed_with_read_errors, incomplete, exit_code,
  exit_internal_error, usage, refused, error_exit_code, AcquisitionFacts, classify, is_matched,
  matched,
}
use dfdisk.Outcome.Verdict.{
  IsWhole, is_not_possible, classify-ne-none, exit_code-injective, classify-verdicts,
}

-- A run of 1 MiB with one unreadable sector, whose digests matched.
abbrev facts : AcquisitionFacts
facts = record {
  expected_bytes = 1048576;
  bytes_acquired = 1048576;
  read_errors = record {
    sector_size = 512;
    ranges = record { offset = 4096; length = 512; kind = substituted } ∷ [];
    source = codes "raw engine (sector reads)";
  };
  stop_reason = none;
  aborted = false;
  verification = matched (codes "sha256");
  identity_changed = false;
}

classify-ne-none_example : classify facts ≢ none
classify-ne-none_example = classify-ne-none facts

exit_code-injective_example :
    ((exit_code verified ≡ exit_code incomplete) ↔ (verified ≡ incomplete))
    × (exit_code verified ≢ exit_internal_error)
    × (exit_code verified ≢ error_exit_code usage)
    × (exit_code verified ≢ error_exit_code refused)
exit_code-injective_example = exit_code-injective verified incomplete

classify-verdicts_example :
    ((classify facts ≡ some verified)
      ↔ IsWhole facts
        × (is_matched facts.verification ≡ true)
        × ((x : ℕ) → state_at facts.read_errors.ranges x ≢ some substituted))
    × ((classify facts ≡ some complete_unverified)
        ↔ IsWhole facts
          × (is_not_possible facts.verification ≡ true)
          × ((x : ℕ) → state_at facts.read_errors.ranges x ≢ some substituted))
    × ((classify facts ≡ some completed_with_read_errors)
        ↔ IsWhole facts
          × ((is_matched facts.verification || is_not_possible facts.verification) ≡ true)
          × ((x : ℕ) × (state_at facts.read_errors.ranges x ≡ some substituted)))
    × ((classify facts ≡ some incomplete)
        ↔ (facts.aborted ≡ false)
          × ((facts.identity_changed ≡ true)
              ⊎ (facts.bytes_acquired < facts.expected_bytes)
              ⊎ (facts.stop_reason ≢ none)
              ⊎ ((x : ℕ) × (state_at facts.read_errors.ranges x ≡ some unread))))
classify-verdicts_example = classify-verdicts facts 1048576 (omega arith) (omega arith, tt)
