-- ===== src/Preflight/Refusals.antt =====
-- src/engines/preflight.rs: the kinds of the errors that the rules report.
use dfdisk.Prelude.{
  ℕ, ◌≡◌, ap, Bool, true, false, not, Option, none, some, [], ◌∷◌, ◌++◌, arith, ltb, leb,
  if◌then◌else◌, Text,
}
use dfdisk.Prelude.Results.{ok, err, ◌>>=◌, ◌>>◌, refuse_if}
use dfdisk.Outcome.{refused, exit_usage, exit_refused, error_exit_code}
use dfdisk.Errors.{AcquisitionError, refused_error, usage_error, exit_code_of}
use dfdisk.Config.{EngineKind, ewf, raw, rescue}
use dfdisk.Preflight.{
  DestinationFacts, DestinationRules, Message, not_a_directory, evidence_mount, mounted_read_only,
  memory_fs, one_file_on_fat, segments_on_fat, free_space_unknown, in_memory, min_free_bytes,
  fat_max_file_bytes, Checked, is_memory_fs, is_fat, check_memory_fs, fat_limit,
  check_file_size_limit, image_space, ewf_space, space_for, check_free_space, check_evidence_mount,
  evaluate,
}

-- Every error is a refusal.
Refuses : {A : Type 0} → Checked A → Type 0
Refuses m = (e : AcquisitionError Message) → m ≡ err e → e.kind ≡ refused

Refuses-ok : {A : Type 0} (a : A) → Refuses (ok a)
unfolding Refuses
Refuses-ok a e h = cc

Refuses-refused : (A : Type 0) (m : Message) → Refuses {A = A} (err (refused_error m))
unfolding Refuses
Refuses-refused A m e h = ground (arith, h)

Refuses-if :
    {A : Type 0} (b : Bool) (x y : Checked A) → Refuses x → Refuses y → Refuses (if b then x else y)
Refuses-if true x y p q = p
Refuses-if false x y p q = q

Refuses->>= :
    {A B : Type 0} (m : Checked A) (k : A → Checked B)
    → Refuses m
    → ((a : A) → Refuses (k a))
    → Refuses (m >>= k)
unfolding Refuses
Refuses->>= (ok a) k p q e h = q a e h
Refuses->>= (err f) k p q e h = p e (cc)

Refuses-refuse_if : (b : Bool) (m : Message) → Refuses (refuse_if b (refused_error m))
Refuses-refuse_if true m = Refuses-refused Unit m
Refuses-refuse_if false m = Refuses-ok tt

check_memory_fs-Refuses : (o : Option Text) (allow : Bool) → Refuses (check_memory_fs o allow)
unfolding check_memory_fs
check_memory_fs-Refuses none allow = Refuses-ok []
check_memory_fs-Refuses (some fs) allow =
    Refuses-if (is_memory_fs fs) _ _
      (Refuses-if allow _ _ (Refuses-ok (in_memory fs ∷ [])) (Refuses-refused _ (memory_fs fs)))
      (Refuses-ok [])

fat_limit-Refuses :
    (kind : EngineKind) (segment : Option ℕ) (fs : Text) (source : ℕ)
    → Refuses (fat_limit kind segment fs source)
unfolding fat_limit
fat_limit-Refuses ewf none fs source = Refuses-refused _ (segments_on_fat fs source)
fat_limit-Refuses ewf (some seg) fs source =
    Refuses-if (leb seg fat_max_file_bytes) _ _ (Refuses-ok tt)
      (Refuses-refused _ (segments_on_fat fs source))
fat_limit-Refuses raw segment fs source = Refuses-refused _ (one_file_on_fat fs raw source)
fat_limit-Refuses rescue segment fs source = Refuses-refused _ (one_file_on_fat fs rescue source)

check_file_size_limit-Refuses :
    (rules : DestinationRules) (o : Option Text) → Refuses (check_file_size_limit rules o)
unfolding check_file_size_limit
check_file_size_limit-Refuses rules none = Refuses-ok tt
check_file_size_limit-Refuses rules (some fs) = Refuses-if (not (is_fat fs)) _ _ (Refuses-ok tt) (
    Refuses-if (leb rules.source_bytes fat_max_file_bytes) _ _ (Refuses-ok tt)
      (fat_limit-Refuses rules.engine_kind rules.segment_bytes fs rules.source_bytes))

space_for-Refuses :
    (kind : EngineKind) (rules : DestinationRules) (free : ℕ) → Refuses (space_for kind rules free)
unfolding space_for ewf_space image_space
space_for-Refuses ewf rules free = Refuses-if (ltb free min_free_bytes) _ _ (Refuses-refused _ _) (
    Refuses-if (ltb free rules.source_bytes) _ _
      (Refuses-if (not rules.allow_low_space) _ _ (Refuses-refused _ _) (Refuses-ok _))
      (Refuses-ok _))
space_for-Refuses raw rules free = Refuses-if _ _ _ (Refuses-refused _ _) (Refuses-ok _)
space_for-Refuses rescue rules free = Refuses-if _ _ _ (Refuses-refused _ _) (Refuses-ok _)

check_free_space-Refuses :
    (rules : DestinationRules) (o : Option ℕ) → Refuses (check_free_space rules o)
unfolding check_free_space
check_free_space-Refuses rules none = Refuses-refused _ free_space_unknown
check_free_space-Refuses rules (some free) = space_for-Refuses rules.engine_kind rules free

-- A usage error of the first rule, refusals of those after it.
first_rule :
    {A : Type 0} (passed : Bool) (m : Message) (k : Checked A) (e : AcquisitionError Message)
    → Refuses k
    → (refuse_if (not passed) (usage_error m) >> k) ≡ err e
    → exit_code_of e ≡ (if passed then exit_refused else exit_usage)
unfolding Refuses error_exit_code
first_rule true m k e r h = ap error_exit_code (r e h)
first_rule false m k e r h = ground (arith, h)

module _ (is_evidence_mount : Text → Bool) where
  check_evidence_mount-Refuses :
      (o : Option Text) → Refuses (check_evidence_mount is_evidence_mount o)
  unfolding check_evidence_mount
  check_evidence_mount-Refuses none = Refuses-ok tt
  check_evidence_mount-Refuses (some mp) =
      Refuses-if (is_evidence_mount mp) _ _ (Refuses-refused _ (evidence_mount mp)) (Refuses-ok tt)

  -- Past its first rule, `evaluate` only refuses.
  rest-Refuses :
      (rules : DestinationRules) (facts : DestinationFacts)
      → Refuses (do
        check_evidence_mount is_evidence_mount facts.mount_point
        refuse_if facts.read_only_mount (refused_error (mounted_read_only facts.output_dir))
        notes ← check_memory_fs facts.fs_type rules.allow_tmpfs
        check_file_size_limit rules facts.fs_type
        note ← check_free_space rules facts.free_bytes
        ok (notes ++ note ∷ []))
  rest-Refuses rules facts =
      Refuses->>= (check_evidence_mount is_evidence_mount facts.mount_point) _
        (check_evidence_mount-Refuses facts.mount_point)
        (λ _.
          Refuses->>= (refuse_if facts.read_only_mount _) _
            (Refuses-refuse_if facts.read_only_mount _)
            (λ _.
              Refuses->>= (check_memory_fs facts.fs_type rules.allow_tmpfs) _
                (check_memory_fs-Refuses facts.fs_type rules.allow_tmpfs)
                (λ notes.
                  Refuses->>= (check_file_size_limit rules facts.fs_type) _
                    (check_file_size_limit-Refuses rules facts.fs_type)
                    (λ _.
                      Refuses->>= (check_free_space rules facts.free_bytes) _
                        (check_free_space-Refuses rules facts.free_bytes)
                        (λ note. Refuses-ok (notes ++ note ∷ []))))))

  -- An error of the rules is a usage error, with exit code 2, exactly if something that is no directory
  -- is in the way of the output directory; any other is a refusal, with exit code 3.
  pub evaluate-error :
      (rules : DestinationRules) (facts : DestinationFacts) (e : AcquisitionError Message)
      → evaluate is_evidence_mount rules facts ≡ err e
      → exit_code_of e ≡ (if facts.ancestor_is_dir then exit_refused else exit_usage)
  unfolding evaluate
  evaluate-error rules facts e h =
      first_rule facts.ancestor_is_dir (not_a_directory facts.output_dir facts.existing_ancestor) _
        e (rest-Refuses rules facts) h
