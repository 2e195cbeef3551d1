-- ===== src/Session/Combined.antt =====
-- src/engines/session.rs: when the verification as a whole matches, and when it differs.
use dfdisk.Prelude.{
  ◌≡◌, refl, ◌↔◌, ◌⊎◌, inl, inr, Bool, true, false, ◌||◌, Option, none, some, arith, Bool-cases,
  is_empty, Text,
}
use dfdisk.Outcome.{VerificationResult, matched, mismatched, not_possible, failed, is_matched}
use dfdisk.Comparing.Matching.{is_mismatched}
use dfdisk.Session.{ImageFlush, not_flushed, apply, combine, combine_verification}

abbrev pub is_not_possible : VerificationResult → Bool
is_not_possible (not_possible reason) = true
is_not_possible _ = false

-- The second read of the source, where there was one.
abbrev pub reread_matched : Option VerificationResult → Bool
reread_matched none = false
reread_matched (some v) = is_matched v

abbrev pub reread_differs : Option VerificationResult → Bool
reread_differs none = false
reread_differs (some v) = is_mismatched v

-- Nothing was found against the image: the second read was not made, was not possible, or matched.
abbrev pub no_objection : Option VerificationResult → Bool
no_objection none = true
no_objection (some v) = is_matched v || is_not_possible v

combine-matched :
    (image reread : VerificationResult)
    → (is_matched (combine image reread) ≡ true) ↔ (
        ((is_matched image ≡ true) × ((is_matched reread || is_not_possible reread) ≡ true))
        ⊎ ((is_not_possible image ≡ true) × (is_matched reread ≡ true)))
unfolding combine
combine-matched (matched m) (matched n) = ground arith
combine-matched (matched m) (mismatched n d) = ground arith
combine-matched (matched m) (not_possible r) = ground arith
combine-matched (matched m) (failed r) = ground arith
combine-matched (mismatched m d) (matched n) = ground arith
combine-matched (mismatched m d) (mismatched n e) = ground arith
combine-matched (mismatched m d) (not_possible r) = ground arith
combine-matched (mismatched m d) (failed r) = ground arith
combine-matched (not_possible s) (matched n) = ground arith
combine-matched (not_possible s) (mismatched n e) = ground arith
combine-matched (not_possible s) (not_possible r) = ground arith
combine-matched (not_possible s) (failed r) = ground arith
combine-matched (failed s) (matched n) = ground arith
combine-matched (failed s) (mismatched n e) = ground arith
combine-matched (failed s) (not_possible r) = ground arith
combine-matched (failed s) (failed r) = ground arith

combine-mismatched :
    (image reread : VerificationResult)
    → (is_mismatched (combine image reread) ≡ true)
      ↔ ((is_mismatched image ≡ true) ⊎ (is_mismatched reread ≡ true))
unfolding combine
combine-mismatched (matched m) (matched n) = ground arith
combine-mismatched (matched m) (mismatched n d) = ground arith
combine-mismatched (matched m) (not_possible r) = ground arith
combine-mismatched (matched m) (failed r) = ground arith
combine-mismatched (mismatched m d) (matched n) = ground arith
combine-mismatched (mismatched m d) (mismatched n e) = ground arith
combine-mismatched (mismatched m d) (not_possible r) = ground arith
combine-mismatched (mismatched m d) (failed r) = ground arith
combine-mismatched (not_possible s) (matched n) = ground arith
combine-mismatched (not_possible s) (mismatched n e) = ground arith
combine-mismatched (not_possible s) (not_possible r) = ground arith
combine-mismatched (not_possible s) (failed r) = ground arith
combine-mismatched (failed s) (matched n) = ground arith
combine-mismatched (failed s) (mismatched n e) = ground arith
combine-mismatched (failed s) (not_possible r) = ground arith
combine-mismatched (failed s) (failed r) = ground arith

-- What the flush leaves of a verification.
not_flushed-result :
    (flush : Text) (v : VerificationResult)
    → (is_matched (not_flushed flush v) ≡ false)
      × (is_not_possible (not_flushed flush v) ≡ false)
      × (is_mismatched (not_flushed flush v) ≡ is_mismatched v)
unfolding not_flushed
not_flushed-result flush (matched m) = (refl, refl, refl)
not_flushed-result flush (mismatched m d) = (refl, refl, refl)
not_flushed-result flush (not_possible r) = (refl, refl, refl)
not_flushed-result flush (failed r) = (refl, refl, refl)

apply-result :
    (f : ImageFlush) (v : VerificationResult)
    → ((is_empty f.not_durable ≡ true) × (apply f v ≡ v))
      ⊎ ((is_empty f.not_durable ≡ false)
          × (is_matched (apply f v) ≡ false)
          × (is_not_possible (apply f v) ≡ false)
          × (is_mismatched (apply f v) ≡ is_mismatched v))
unfolding apply
apply-result f v = elim (Bool-cases (is_empty f.not_durable)) [
  | inl e ↦ rw (e) (inl (refl, refl))
  | inr e ↦ rw (e) (let (a, b, c) = not_flushed-result _ v in inr (refl, a, b, c))
]

module _ (f : ImageFlush) (image : VerificationResult) (reread : Option VerificationResult) where
  combined_parts :
      (v : VerificationResult)
      → ((is_matched (combine_verification v reread) ≡ true) ↔ (
          ((is_matched v ≡ true) × (no_objection reread ≡ true))
          ⊎ ((is_not_possible v ≡ true) × (reread_matched reread ≡ true))))
        × ((is_mismatched (combine_verification v reread) ≡ true)
            ↔ ((is_mismatched v ≡ true) ⊎ (reread_differs reread ≡ true)))
  unfolding combine_verification
  combined_parts v =
      elim reread
        as (λ r.
          ((is_matched (combine_verification v r) ≡ true) ↔ (
            ((is_matched v ≡ true) × (no_objection r ≡ true))
            ⊎ ((is_not_possible v ≡ true) × (reread_matched r ≡ true))))
          × ((is_mismatched (combine_verification v r) ≡ true)
              ↔ ((is_mismatched v ≡ true) ⊎ (reread_differs r ≡ true)))) [
                | none ↦ (ground arith, ground arith)
                | some w ↦ (combine-matched v w, combine-mismatched v w)
              ]

  -- The verification as a whole matches exactly if the image is durable, and either the image matched
  -- and the second read found nothing against it, or the image could not be compared and the second
  -- read matched. It differs exactly if the image or the second read does, whatever was flushed.
  pub combine_verification-results :
      ((is_matched (combine_verification (apply f image) reread) ≡ true) ↔ (
        (is_empty f.not_durable ≡ true)
        × (((is_matched image ≡ true) × (no_objection reread ≡ true))
            ⊎ ((is_not_possible image ≡ true) × (reread_matched reread ≡ true)))))
      × ((is_mismatched (combine_verification (apply f image) reread) ≡ true)
          ↔ ((is_mismatched image ≡ true) ⊎ (reread_differs reread ≡ true)))
  combine_verification-results = elim (apply-result f image) [
    | inl (e, same) ↦ rw (same) (let (m, d) = combined_parts image in (ground (arith, m, e), d))
    | inr (e, no_match, possible, differs) ↦
        let (m, d) = combined_parts (apply f image) in
        (ground (arith, m, e, no_match, possible), ground (arith, d, differs))
  ]
