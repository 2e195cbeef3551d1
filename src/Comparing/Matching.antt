-- ===== src/Comparing/Matching.antt =====
-- src/models/info_report.rs: when the digests of an acquisition match and when they differ.
use dfdisk.Prelude.{
  ◌≡◌, refl, ap, ◌↔◌, ◌⊎◌, inl, inr, Bool, true, false, Option, none, some, List, [], ◌∷◌, ◌++◌,
  arith, Bool-cases, is_empty, Text, codes, same_text,
}
use dfdisk.Config.{HashSelection, nothing_selected}
use dfdisk.Outcome.{VerificationResult, mismatched, is_matched}
use dfdisk.Comparing.{
  HashAlgorithm, md5, sha1, sha256, HashResults, digest, algorithms, eq_ignore_ascii_case, Compared,
  equal, different, missing, compare_one, push_compared, compare_all, judge, compare_digest_sets,
  listed_if,
}

abbrev pub selects : HashSelection → HashAlgorithm → Bool
selects s md5 = s.md5
selects s sha1 = s.sha1
selects s sha256 = s.sha256

-- Both digests are there, and they are equal but for the case of letters.
abbrev pub Agree : Option Text → Option Text → Type 0
Agree (some a) (some b) = eq_ignore_ascii_case a b ≡ true
Agree _ _ = ⊥

abbrev pub Differ : Option Text → Option Text → Type 0
Differ (some a) (some b) = eq_ignore_ascii_case a b ≡ false
Differ _ _ = ⊥

abbrev is_difference : Compared → Bool
is_difference (different t) = true
is_difference _ = false

abbrev is_equal : Compared → Bool
is_equal equal = true
is_equal _ = false

compare_one-Agree :
    (alg : HashAlgorithm) (n : Text) (a : Option Text) (m : Text) (b : Option Text)
    → (is_equal (compare_one alg n a m b) ≡ true) ↔ Agree a b
unfolding compare_one
compare_one-Agree alg n (some a) m (some b) = elim (Bool-cases (eq_ignore_ascii_case a b)) [
  | inl e ↦ rw (e) (ground arith)
  | inr e ↦ rw (e) (ground arith)
]
compare_one-Agree alg n none m b = elim (Bool-cases (same_text n (codes "acquisition"))) [
  | inl e ↦ rw (e) (ground arith)
  | inr e ↦ rw (e) (ground arith)
]
compare_one-Agree alg n (some a) m none = elim (Bool-cases (same_text m (codes "recomputed"))) [
  | inl e ↦ rw (e) (ground arith)
  | inr e ↦ rw (e) (ground arith)
]

compare_one-Differ :
    (alg : HashAlgorithm) (n : Text) (a : Option Text) (m : Text) (b : Option Text)
    → (is_difference (compare_one alg n a m b) ≡ true) ↔ Differ a b
unfolding compare_one
compare_one-Differ alg n (some a) m (some b) = elim (Bool-cases (eq_ignore_ascii_case a b)) [
  | inl e ↦ rw (e) (ground arith)
  | inr e ↦ rw (e) (ground arith)
]
compare_one-Differ alg n none m b = elim (Bool-cases (same_text n (codes "acquisition"))) [
  | inl e ↦ rw (e) (ground arith)
  | inr e ↦ rw (e) (ground arith)
]
compare_one-Differ alg n (some a) m none = elim (Bool-cases (same_text m (codes "recomputed"))) [
  | inl e ↦ rw (e) (ground arith)
  | inr e ↦ rw (e) (ground arith)
]

-- For all of a list, or for one of it.
Every : (HashAlgorithm → Type 0) → List HashAlgorithm → Type 0
Every P [] = Unit
Every P (a ∷ l) = P a × Every P l

Some : (HashAlgorithm → Type 0) → List HashAlgorithm → Type 0
Some P [] = ⊥
Some P (a ∷ l) = P a ⊎ Some P l

push_compared-nothing :
    (c : Compared) (lists : List Text × List Text)
    → (push_compared c lists ≡ ([], [])) ↔ ((is_equal c ≡ true) × (lists ≡ ([], [])))
unfolding push_compared
push_compared-nothing equal (xs, ys) = ground arith
push_compared-nothing (different t) (xs, ys) = (λ h. ground (arith, ap (λ p. p.0) h), ground arith)
push_compared-nothing (missing t) (xs, ys) = (λ h. ground (arith, ap (λ p. p.1) h), ground arith)

push_compared-mismatches :
    (c : Compared) (lists : List Text × List Text)
    → (is_empty (push_compared c lists).0 ≡ false)
      ↔ ((is_difference c ≡ true) ⊎ (is_empty lists.0 ≡ false))
unfolding push_compared
push_compared-mismatches equal (xs, ys) = ground arith
push_compared-mismatches (different t) (xs, ys) = ground arith
push_compared-mismatches (missing t) (xs, ys) = ground arith

module _ (n : Text) (reference : HashResults) (m : Text) (recomputed : HashResults) where
  abbrev AgreeOn : HashAlgorithm → Type 0
  AgreeOn alg = Agree (digest reference alg) (digest recomputed alg)

  abbrev DifferOn : HashAlgorithm → Type 0
  DifferOn alg = Differ (digest reference alg) (digest recomputed alg)

  compare_all-nothing :
      (algs : List HashAlgorithm)
      → (compare_all algs n reference m recomputed ≡ ([], [])) ↔ Every AgreeOn algs
  unfolding compare_all Every
  compare_all-nothing [] = (λ _. tt, λ _. refl)
  compare_all-nothing (alg ∷ algs) = ground (
    arith,
    compare_all-nothing algs,
    push_compared-nothing (compare_one alg n (digest reference alg) m (digest recomputed alg))
        (compare_all algs n reference m recomputed),
    compare_one-Agree alg n (digest reference alg) m (digest recomputed alg),
  )

  compare_all-mismatches :
      (algs : List HashAlgorithm)
      → (is_empty (compare_all algs n reference m recomputed).0 ≡ false) ↔ Some DifferOn algs
  unfolding compare_all Some
  compare_all-mismatches [] = ground arith
  compare_all-mismatches (alg ∷ algs) = ground (
    arith,
    compare_all-mismatches algs,
    push_compared-mismatches (compare_one alg n (digest reference alg) m (digest recomputed alg))
        (compare_all algs n reference m recomputed),
    compare_one-Differ alg n (digest reference alg) m (digest recomputed alg),
  )

module _ (P : HashAlgorithm → Type 0) where
  Every-listed :
      (b : Bool) (a : HashAlgorithm) (l : List HashAlgorithm)
      → Every P (listed_if b a ++ l) ↔ (((b ≡ false) ⊎ P a) × Every P l)
  unfolding Every
  Every-listed true a l = ground arith
  Every-listed false a l = ground arith

  Every-last : (b : Bool) (a : HashAlgorithm) → Every P (listed_if b a) ↔ ((b ≡ false) ⊎ P a)
  unfolding Every
  Every-last true a = ground arith
  Every-last false a = ground arith

  Some-listed :
      (b : Bool) (a : HashAlgorithm) (l : List HashAlgorithm)
      → Some P (listed_if b a ++ l) ↔ (((b ≡ true) × P a) ⊎ Some P l)
  unfolding Some
  Some-listed true a l = ground arith
  Some-listed false a l = ground arith

  Some-last : (b : Bool) (a : HashAlgorithm) → Some P (listed_if b a) ↔ ((b ≡ true) × P a)
  unfolding Some
  Some-last true a = ground arith
  Some-last false a = ground arith

  Every-algorithms :
      (s : HashSelection)
      → Every P (algorithms s) ↔ ((alg : HashAlgorithm) → (selects s alg ≡ false) ⊎ P alg)
  unfolding algorithms
  Every-algorithms s =
      let l = listed_if s.sha256 sha256 in
      let a = Every-listed s.md5 md5 (listed_if s.sha1 sha1 ++ l) in
      let b = Every-listed s.sha1 sha1 l in
      let c = Every-last s.sha256 sha256 in
      (
        λ h alg.
            let (x, rest) = a.0 h in
            let (y, z) = b.0 rest in
            elim alg as (λ k. (selects s k ≡ false) ⊎ P k) [ md5 ↦ x | sha1 ↦ y | sha256 ↦ c.0 z ],
        λ h. a.1 (h md5, b.1 (h sha1, c.1 (h sha256))),
      )

  Some-algorithms :
      (s : HashSelection)
      → Some P (algorithms s) ↔ ((alg : HashAlgorithm) × (selects s alg ≡ true) × P alg)
  unfolding algorithms
  Some-algorithms s =
      let l = listed_if s.sha256 sha256 in
      let a = Some-listed s.md5 md5 (listed_if s.sha1 sha1 ++ l) in
      let b = Some-listed s.sha1 sha1 l in
      let c = Some-last s.sha256 sha256 in
      (
        λ h. elim (a.0 h) [
          | inl (on, x) ↦ (md5, on, x)
          | inr rest ↦ elim (b.0 rest) [
            | inl (on, y) ↦ (sha1, on, y)
            | inr z ↦ let (on, y) = c.0 z in (sha256, on, y)
          ]
        ],
        λ (alg, on, x). found alg (on, x),
      )
    where
      found : (alg : HashAlgorithm) → (selects s alg ≡ true) × P alg → Some P (algorithms s)
      found md5 on = (Some-listed s.md5 md5 _).1 (inl on)
      found sha1 on = (Some-listed s.md5 md5 _).1 (inr ((Some-listed s.sha1 sha1 _).1 (inl on)))
      found sha256 on =
          (Some-listed s.md5 md5 _).1
            (inr ((Some-listed s.sha1 sha1 _).1 (inr ((Some-last s.sha256 sha256).1 on))))

abbrev pub is_mismatched : VerificationResult → Bool
is_mismatched (mismatched method details) = true
is_mismatched _ = false

judge-matched :
    (method : Text) (lists : List Text × List Text)
    → (is_matched (judge method lists) ≡ true) ↔ (lists ≡ ([], []))
unfolding judge
judge-matched method ([], []) = ground arith
judge-matched method ([], m ∷ ms) = (ground arith, λ h. ground (arith, ap (λ p. p.1) h))
judge-matched method (m ∷ ms, missed) = (ground arith, λ h. ground (arith, ap (λ p. p.0) h))

judge-mismatched :
    (method : Text) (lists : List Text × List Text)
    → (is_mismatched (judge method lists) ≡ true) ↔ (is_empty lists.0 ≡ false)
unfolding judge
judge-mismatched method ([], []) = ground arith
judge-mismatched method ([], m ∷ ms) = ground arith
judge-mismatched method (m ∷ ms, missed) = ground arith

module _ (selection : HashSelection) (n : Text) (reference : HashResults) (m : Text)
    (recomputed : HashResults) (method : Text) where
  compare_digest_sets-matched :
      (is_matched (compare_digest_sets selection n reference m recomputed method) ≡ true)
      ↔ (nothing_selected selection ≡ false)
        × ((alg : HashAlgorithm)
            → (selects selection alg ≡ false)
              ⊎ Agree (digest reference alg) (digest recomputed alg))
  unfolding compare_digest_sets
  compare_digest_sets-matched =
      let all_agree = compare_all-nothing n reference m recomputed (algorithms selection) in
      let lists = compare_all (algorithms selection) n reference m recomputed in
      let each = Every-algorithms (AgreeOn n reference m recomputed) selection in
      let j = judge-matched method lists in
      elim (Bool-cases (nothing_selected selection)) [
        | inl e ↦ rw (e) (ground arith)
        | inr e ↦
            rw (e)
              (λ h. (refl, each.0 (all_agree.0 (j.0 h))), λ (_, h). j.1 (all_agree.1 (each.1 h)))
      ]

  compare_digest_sets-mismatched :
      (is_mismatched (compare_digest_sets selection n reference m recomputed method) ≡ true) ↔ (
        (alg : HashAlgorithm) × (selects selection alg ≡ true)
        × Differ (digest reference alg) (digest recomputed alg))
  unfolding compare_digest_sets
  compare_digest_sets-mismatched =
      let one_differs = compare_all-mismatches n reference m recomputed (algorithms selection) in
      let lists = compare_all (algorithms selection) n reference m recomputed in
      let one = Some-algorithms (DifferOn n reference m recomputed) selection in
      let j = judge-mismatched method lists in
      elim (Bool-cases (nothing_selected selection)) [
        | inl e ↦ rw (e) (λ h. ground (arith, h), λ (alg, on, d). nothing_on alg on e)
        | inr e ↦ rw (e) (λ h. one.0 (one_differs.0 (j.0 h)), λ h. j.1 (one_differs.1 (one.1 h)))
      ]
    where
      nothing_on :
          {A : Type 0} (alg : HashAlgorithm)
          → selects selection alg ≡ true
          → nothing_selected selection ≡ true
          → A
      nothing_on md5 on e = ground (arith, on, e)
      nothing_on sha1 on e = ground (arith, on, e)
      nothing_on sha256 on e = ground (arith, on, e)

  -- The digests match exactly if one is selected at all, and each selected one is known on both sides
  -- and equal but for the case of letters. They differ exactly if a selected one is known on both sides
  -- and not equal, whatever is missing elsewhere.
  pub compare_digest_sets-results :
      ((is_matched (compare_digest_sets selection n reference m recomputed method) ≡ true) ↔ (
        (nothing_selected selection ≡ false)
        × ((alg : HashAlgorithm)
            → (selects selection alg ≡ false)
              ⊎ Agree (digest reference alg) (digest recomputed alg))))
      × ((is_mismatched (compare_digest_sets selection n reference m recomputed method) ≡ true) ↔ (
          (alg : HashAlgorithm) × (selects selection alg ≡ true)
          × Differ (digest reference alg) (digest recomputed alg)))
  compare_digest_sets-results = (compare_digest_sets-matched, compare_digest_sets-mismatched)
