-- ===== src/Session/Verified.antt =====
-- src/engines/session.rs: what a session has seen when its verdict is that the image is verified.
use dfdisk.Prelude.{
  ◌≡◌, refl, ◌⊎◌, inl, inr, Bool, true, false, ◌||◌, Option, arith, if◌then◌else◌, Text, codes,
}
use dfdisk.Prelude.Results.{Result, ok, err}
use dfdisk.Errors.{AcquisitionError}
use dfdisk.Config.{HashSelection}
use dfdisk.Outcome.{VerificationResult, not_possible, failed, is_matched}
use dfdisk.Comparing.{HashResults}
use dfdisk.Session.{EngineOutput, Host, judge_reread, is_abort, second_read, compare_second_read}
use dfdisk.Session.Combined.{reread_matched}

-- The second read of the source was made and its digests are those of the acquisition, or of the image
-- where the acquisition has none.
abbrev pub RereadMatches : Host → HashSelection → Bool → HashResults → HashResults → Type 0
RereadMatches host selection verify_source acquisition image =
    (verify_source ≡ true)
    × (hashes : HashResults) × (host.reread ≡ ok hashes)
    × (is_matched (compare_second_read selection acquisition image hashes) ≡ true)

failed_reread :
    (c was : Bool) (why message : Text)
    → let answer : VerificationResult × Bool =
        if c then (not_possible why, true) else (failed message, was) in
      (is_matched answer.0 ≡ false) × ((answer.1 ≡ true) ⊎ (was ≡ false))
failed_reread true was why message = (refl, inl refl)
failed_reread false true why message = (refl, inl refl)
failed_reread false false why message = (refl, inr refl)

judge_reread-running :
    (selection : HashSelection) (acquisition image : HashResults) (was stopped : Bool)
    (r : Result (AcquisitionError Text) HashResults)
    → (judge_reread selection acquisition image was r stopped).1 ≡ false
    → was ≡ false
unfolding judge_reread
judge_reread-running selection acquisition image was stopped (ok hashes) h = h
judge_reread-running selection acquisition image was stopped (err e) h = ground (
  arith,
  h,
  failed_reread (is_abort e.kind || stopped) was (codes "the second source read was aborted")
      e.message,
)

module _ (host : Host) (selection : HashSelection) (verify_source : Bool) (out : EngineOutput)
    (image_hashes : HashResults) (stopped : Bool) where
  abbrev answer_of_host : Option VerificationResult × Bool
  answer_of_host = second_read host selection verify_source out image_hashes stopped

  Good : Option VerificationResult × Bool → Type 0
  Good answer =
      (answer.1 ≡ true)
      ⊎ ((stopped ≡ false)
          × ((reread_matched answer.0 ≡ false)
              ⊎ RereadMatches host selection verify_source out.acquisition_hashes image_hashes))
