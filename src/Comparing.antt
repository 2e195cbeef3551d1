-- ===== src/Comparing.antt =====
-- src/models/info_report.rs: the digests of an acquisition and their comparison. The texts are those
-- of the program.
pub mod Matching
use dfdisk.Prelude.{
  ℕ, zero, suc, ◌+◌, ◌-◌, ◌*◌, ◌/◌, ◌%◌, ◌^◌, ◌≤◌, ◌<◌, min, max, ◌≡◌, refl, sym, ap, ◌∙◌, ◌≢◌, ◌↔◌,
  ◌⊎◌, inl, inr, Bool, true, false, not, ◌&&◌, ◌||◌, Option, none, some, List, [], ◌∷◌, ◌++◌, map,
  arith, ltb, leb, ◌==◌, if◌then◌else◌, Bool-cases, is_empty, Text, codes, same_text, strip_prefix,
  same_text_iff, length, u64_max, saturating_add, saturating_mul, saturating_sub,
}
use dfdisk.Pieces.File.{to_ascii_lowercase}
use dfdisk.Config.{HashSelection, nothing_selected}
use dfdisk.Outcome.{VerificationResult, matched, mismatched, not_possible, failed}

-- `HashAlgorithm` of src/models/config.rs
pub data HashAlgorithm : Type 0 where
  md5 sha1 sha256 : HashAlgorithm

unfoldable pub label : HashAlgorithm → Text
label md5 = codes "MD5"
label sha1 = codes "SHA-1"
label sha256 = codes "SHA-256"

pub record HashResults : Type 0 where
  pub md5_digest : Option Text
  pub sha1_digest : Option Text
  pub sha256_digest : Option Text

-- `HashResults::get`
abbrev pub digest : HashResults → HashAlgorithm → Option Text
digest h md5 = h.md5_digest
digest h sha1 = h.sha1_digest
digest h sha256 = h.sha256_digest

abbrev pub is_none : Option Text → Bool
is_none none = true
is_none (some _) = false

-- `HashResults::is_empty`
unfoldable pub has_no_digest : HashResults → Bool
has_no_digest h = is_none h.md5_digest && is_none h.sha1_digest && is_none h.sha256_digest

-- `HashSelection::algorithms`
abbrev pub listed_if : Bool → HashAlgorithm → List HashAlgorithm
listed_if true a = a ∷ []
listed_if false a = []

unfoldable pub algorithms : HashSelection → List HashAlgorithm
algorithms s = listed_if s.md5 md5 ++ (listed_if s.sha1 sha1 ++ listed_if s.sha256 sha256)

-- `join`
unfoldable pub join : Text → List Text → Text
join separator [] = []
join separator (t ∷ []) = t
join separator (t ∷ u ∷ ts) = t ++ (separator ++ join separator (u ∷ ts))

unfoldable pub eq_ignore_ascii_case : Text → Text → Bool
eq_ignore_ascii_case a b = same_text (to_ascii_lowercase a) (to_ascii_lowercase b)

-- Two digests of one algorithm, with the names of their sides: nothing to say, a difference, or one
-- that is missing.
pub data Compared : Type 0 where
  equal : Compared
  different missing : Text → Compared

unfoldable pub compare_one : HashAlgorithm → Text → Option Text → Text → Option Text → Compared
compare_one alg reference_name (some a) recomputed_name (some b) =
    if not (eq_ignore_ascii_case a b)
    then different (
        label alg
        ++ (codes " "
            ++ (reference_name
                ++ (codes " " ++ (a ++ (codes " but " ++ (recomputed_name ++ (codes " " ++ b))))))))
    else equal
compare_one alg reference_name none recomputed_name recomputed =
    if same_text reference_name (codes "acquisition")
    then missing (label alg ++ codes " was not computed during the acquisition")
    else missing (label alg ++ (codes " has no " ++ (reference_name ++ codes " digest")))
compare_one alg reference_name (some a) recomputed_name none =
    if same_text recomputed_name (codes "recomputed")
    then missing (label alg ++ codes " was not recomputed")
    else missing (label alg ++ (codes " has no " ++ (recomputed_name ++ codes " digest")))

-- `mismatches.push` and `missing.push`
unfoldable pub push_compared : Compared → List Text × List Text → List Text × List Text
push_compared equal lists = lists
push_compared (different t) (mismatches, missed) = (t ∷ mismatches, missed)
push_compared (missing t) (mismatches, missed) = (mismatches, t ∷ missed)

-- The loop over the selected algorithms: the mismatches and the missing digests, in order.
unfoldable pub compare_all :
    List HashAlgorithm → Text → HashResults → Text → HashResults → List Text × List Text
compare_all [] reference_name reference recomputed_name recomputed = ([], [])
compare_all (alg ∷ algs) reference_name reference recomputed_name recomputed =
    push_compared
      (compare_one alg reference_name (digest reference alg) recomputed_name
        (digest recomputed alg))
      (compare_all algs reference_name reference recomputed_name recomputed)

unfoldable pub judge : Text → List Text × List Text → VerificationResult
judge method ([], []) = matched method
judge method ([], m ∷ ms) = failed (join (codes "; ") (m ∷ ms))
judge method (m ∷ ms, missed) = mismatched method (join (codes "; ") (m ∷ ms))

unfoldable pub compare_digest_sets :
    HashSelection → Text → HashResults → Text → HashResults → Text → VerificationResult
compare_digest_sets selection reference_name reference recomputed_name recomputed method =
    if nothing_selected selection
    then failed (codes "no digest was selected")
    else judge method
        (compare_all (algorithms selection) reference_name reference recomputed_name recomputed)

unfoldable pub compare_digests :
    HashSelection → HashResults → HashResults → Text → VerificationResult
compare_digests selection acquisition image method =
    compare_digest_sets selection (codes "acquisition") acquisition (codes "recomputed") image
      method
