-- ===== src/Config/Consistent.antt =====
-- src/models/config.rs: what the options that `validate` accepts have in common.
use dfdisk.Prelude.{
  ℕ, ◌%◌, ◌≤◌, ◌<◌, ◌≡◌, refl, ◌↔◌, ◌⊎◌, inl, inr, Bool, true, false, not, ◌&&◌, ◌||◌, Option, none,
  some, List, [], ◌∷◌, ◌++◌, arith, ltb, leb, ◌==◌, Bool-cases, is_empty, Text,
}
use dfdisk.Prelude.Results.{ok}
use dfdisk.RawCopy.World.{OnReadError, stop, zero_fill}
use dfdisk.Config.{
  SplitSize, no_split, two_gb, four_gb, custom, EngineKind, ewf, raw, rescue, AcquisitionConfig,
  ConfigError, retries_out_of_range, segment_size_refused, piece_size_refused, no_digest, raw_split,
  zero_fill_elsewhere, granularity_zero, rescue_to_e01_elsewhere, resume_elsewhere,
  ewf_max_segment_bytes, ewf_min_segment_bytes, segment_size, is_no_split, nothing_selected,
  min_piece_size, max_retries, engine, for_engine, is_ewf, is_raw, is_rescue, fills_zeros,
  selection_for, push_if, check_segment_bytes, segment_errors, piece_errors, granularity_errors,
  config_errors, validate,
}

-- A segment size that ewfacquire applies as given.
IsSegment : SplitSize → Type 0
IsSegment (custom b) = (ewf_min_segment_bytes ≤ b) × (b ≤ ewf_max_segment_bytes)
IsSegment _ = Unit

IsPiece : Option ℕ → Type 0
IsPiece none = Unit
IsPiece (some p) = (min_piece_size ≤ p) × (p % 512 ≡ 0)

IsGranularity : Option ℕ → Type 0
IsGranularity none = Unit
IsGranularity (some g) = 0 < g

Digest : AcquisitionConfig → Type 0
Digest c = (c.calc_md5 ≡ true) ⊎ (c.calc_sha1 ≡ true) ⊎ (c.calc_sha256 ≡ true)

-- What each engine asks of the options.
Engine : EngineKind → AcquisitionConfig → Type 0
Engine ewf c =
    IsSegment c.split_size
    × (c.on_read_error ≡ stop)
    × IsGranularity c.ewf_error_granularity
    × (c.rescue_to_e01 ≡ false)
    × (c.resume ≡ false)
Engine raw c =
    Digest c
    × (c.split_size ≡ no_split)
    × (c.ewf_error_granularity ≡ none)
    × (c.rescue_to_e01 ≡ false)
    × (c.resume ≡ false)
Engine rescue c =
    Digest c
    × (c.split_size ≡ no_split)
    × (c.on_read_error ≡ stop)
    × (c.ewf_error_granularity ≡ none)

pub IsConsistent : AcquisitionConfig → Type 0
IsConsistent c = (c.error_retries ≤ max_retries) × IsPiece c.piece_size × Engine (engine c) c

append-eq-nil : {A : Type 0} (xs ys : List A) → (xs ++ ys ≡ []) ↔ ((xs ≡ []) × (ys ≡ []))
append-eq-nil [] ys = ground arith
append-eq-nil (x ∷ xs) ys = ground arith

push_if-eq-nil : (b : Bool) (e : ConfigError) → (push_if b e ≡ []) ↔ (b ≡ false)
push_if-eq-nil true e = ground arith
push_if-eq-nil false e = ground arith

is_empty_iff : {A : Type 0} (xs : List A) → (is_empty xs ≡ true) ↔ (xs ≡ [])
is_empty_iff [] = ground arith
is_empty_iff (x ∷ xs) = ground arith

piece_errors_iff : (p : Option ℕ) → (piece_errors p ≡ []) ↔ IsPiece p
unfolding piece_errors IsPiece
piece_errors_iff none = ground arith
piece_errors_iff (some p) =
    ground
      (arith, push_if-eq-nil (ltb p min_piece_size || not (p % 512 == 0)) (piece_size_refused p))

check_segment_bytes_iff :
    (b : ℕ)
    → (check_segment_bytes b ≡ []) ↔ ((ewf_min_segment_bytes ≤ b) × (b ≤ ewf_max_segment_bytes))
unfolding check_segment_bytes
check_segment_bytes_iff b = ground (
  arith,
  push_if-eq-nil (not (leb ewf_min_segment_bytes b && leb b ewf_max_segment_bytes))
      (segment_size_refused b),
)

nine-nil :
    {A : Type 0} (a b c d e f g h i : List A)
    → (a ++ b ++ c ++ d ++ e ++ f ++ g ++ h ++ i ≡ []) ↔ (
        (a ≡ [])
        × (b ≡ [])
        × (c ≡ [])
        × (d ≡ [])
        × (e ≡ [])
        × (f ≡ [])
        × (g ≡ [])
        × (h ≡ [])
        × (i ≡ []))
nine-nil a b c d e f g h i = ground (
  arith,
  append-eq-nil (a ++ b ++ c ++ d ++ e ++ f ++ g ++ h) i,
  append-eq-nil (a ++ b ++ c ++ d ++ e ++ f ++ g) h,
  append-eq-nil (a ++ b ++ c ++ d ++ e ++ f) g,
  append-eq-nil (a ++ b ++ c ++ d ++ e) f,
  append-eq-nil (a ++ b ++ c ++ d) e,
  append-eq-nil (a ++ b ++ c) d,
  append-eq-nil (a ++ b) c,
  append-eq-nil (a) b,
)

abbrev Checks : EngineKind → AcquisitionConfig → Type 0
Checks e c =
    (ltb max_retries c.error_retries ≡ false)
    × (not (c.calc_md5 || is_ewf e || c.calc_sha1 || c.calc_sha256) ≡ false)
    × ((not (is_ewf e) && not (is_no_split c.split_size)) ≡ false)
    × (segment_errors e c.split_size ≡ [])
    × IsPiece c.piece_size
    × ((fills_zeros c.on_read_error && not (is_raw e)) ≡ false)
    × (granularity_errors e c.ewf_error_granularity ≡ [])
    × ((c.rescue_to_e01 && not (is_rescue e)) ≡ false)
    × ((c.resume && not (is_rescue e)) ≡ false)

config_errors_iff : (c : AcquisitionConfig) → (config_errors c ≡ []) ↔ Checks (engine c) c
unfolding config_errors selection_for
config_errors_iff c =
    let e = engine c in
    ground (
      arith,
      nine-nil (push_if (ltb max_retries c.error_retries) (retries_out_of_range c.error_retries))
          (push_if (nothing_selected (selection_for c)) no_digest)
          (push_if (not (is_ewf e) && not (is_no_split c.split_size)) raw_split)
          (segment_errors e c.split_size) (piece_errors c.piece_size)
          (push_if (fills_zeros c.on_read_error && not (is_raw e)) zero_fill_elsewhere)
          (granularity_errors e c.ewf_error_granularity)
          (push_if (c.rescue_to_e01 && not (is_rescue e)) rescue_to_e01_elsewhere)
          (push_if (c.resume && not (is_rescue e)) resume_elsewhere),
      push_if-eq-nil (ltb max_retries c.error_retries) (retries_out_of_range c.error_retries),
      push_if-eq-nil (nothing_selected (selection_for c)) no_digest,
      push_if-eq-nil (not (is_ewf e) && not (is_no_split c.split_size)) raw_split,
      piece_errors_iff c.piece_size,
      push_if-eq-nil (fills_zeros c.on_read_error && not (is_raw e)) zero_fill_elsewhere,
      push_if-eq-nil (c.rescue_to_e01 && not (is_rescue e)) rescue_to_e01_elsewhere,
      push_if-eq-nil (c.resume && not (is_rescue e)) resume_elsewhere,
    )

IsSegment-iff : (z : SplitSize) → (segment_errors ewf z ≡ []) ↔ IsSegment z
unfolding segment_errors IsSegment
IsSegment-iff (custom b) = check_segment_bytes_iff b
IsSegment-iff no_split = ground arith
IsSegment-iff two_gb = ground arith
IsSegment-iff four_gb = ground arith

is_no_split_iff : (z : SplitSize) → (not (is_no_split z) ≡ false) ↔ (z ≡ no_split)
is_no_split_iff (custom b) = ground arith
is_no_split_iff no_split = ground arith
is_no_split_iff two_gb = ground arith
is_no_split_iff four_gb = ground arith

fills_zeros_iff : (o : OnReadError) → (fills_zeros o ≡ false) ↔ (o ≡ stop)
fills_zeros_iff stop = ground arith
fills_zeros_iff zero_fill = ground arith

ewf-IsGranularity : (g : Option ℕ) → (granularity_errors ewf g ≡ []) ↔ IsGranularity g
unfolding granularity_errors IsGranularity
ewf-IsGranularity none = ground arith
ewf-IsGranularity (some g) = ground (arith, push_if-eq-nil (g == 0) granularity_zero)

raw_granularity_iff : (g : Option ℕ) → (granularity_errors raw g ≡ []) ↔ (g ≡ none)
unfolding granularity_errors
raw_granularity_iff none = ground arith
raw_granularity_iff (some g) = ground arith

rescue_granularity_iff : (g : Option ℕ) → (granularity_errors rescue g ≡ []) ↔ (g ≡ none)
unfolding granularity_errors
rescue_granularity_iff none = ground arith
rescue_granularity_iff (some g) = ground arith

no_segments : (z : SplitSize) → (segment_errors raw z ≡ []) × (segment_errors rescue z ≡ [])
unfolding segment_errors
no_segments (custom b) = (refl, refl)
no_segments no_split = (refl, refl)
no_segments two_gb = (refl, refl)
no_segments four_gb = (refl, refl)

Checks-iff :
    (e : EngineKind) (c : AcquisitionConfig)
    → Checks e c ↔ ((c.error_retries ≤ max_retries) × IsPiece c.piece_size × Engine e c)
unfolding Engine Digest
Checks-iff ewf c = ground (
  arith,
  IsSegment-iff c.split_size,
  fills_zeros_iff c.on_read_error,
  ewf-IsGranularity c.ewf_error_granularity,
)
Checks-iff raw c = ground (
  arith,
  no_segments c.split_size,
  is_no_split_iff c.split_size,
  raw_granularity_iff c.ewf_error_granularity,
)
Checks-iff rescue c = ground (
  arith,
  no_segments c.split_size,
  is_no_split_iff c.split_size,
  fills_zeros_iff c.on_read_error,
  rescue_granularity_iff c.ewf_error_granularity,
)

validate-iff_empty : (c : AcquisitionConfig) → (validate c ≡ ok tt) ↔ (config_errors c ≡ [])
unfolding validate
validate-iff_empty c = elim (Bool-cases (is_empty (config_errors c))) [
  | inl e ↦ rw (e) (ground (arith, is_empty_iff (config_errors c)))
  | inr e ↦ rw (e) (ground (arith, is_empty_iff (config_errors c)))
]

-- `validate` accepts exactly the consistent options: at most 255 retries, a piece size that is a
-- multiple of 512 and at least 1 MiB, and what the chosen engine asks for (E01: a segment size that
-- ewfacquire applies, no zero-filling, a positive granularity, no option of the rescue; RAW: a digest,
-- one file, no granularity, no option of the rescue; rescue: a digest, one file, no zero-filling, no
-- granularity).
pub validate_iff : (c : AcquisitionConfig) → (validate c ≡ ok tt) ↔ IsConsistent c
unfolding IsConsistent
validate_iff c = ground (arith, validate-iff_empty c, config_errors_iff c, Checks-iff (engine c) c)

-- The defaults for an engine select that engine, are accepted as they are, and write where they are
-- told to.
pub for_engine-valid :
    (e : EngineKind) (dir : Text)
    → (engine (for_engine e dir) ≡ e)
      × (validate (for_engine e dir) ≡ ok tt)
      × ((for_engine e dir).output_dir ≡ dir)
unfolding engine for_engine validate config_errors selection_for segment_errors piece_errors
    granularity_errors
for_engine-valid ewf dir = (refl, refl, refl)
for_engine-valid raw dir = (refl, refl, refl)
for_engine-valid rescue dir = (refl, refl, refl)

segment_size-range :
    (z : SplitSize) (seg : ℕ)
    → IsSegment z
    → segment_size z ≡ some seg
    → (ewf_min_segment_bytes ≤ seg) × (seg ≤ ewf_max_segment_bytes)
unfolding IsSegment segment_size
segment_size-range no_split seg s h = cc
segment_size-range two_gb seg s h = ground arith
segment_size-range four_gb seg s h = ground arith
segment_size-range (custom b) seg s h = ground arith

ewf-IsSegment :
    (e : EngineKind) (c : AcquisitionConfig) → e ≡ ewf → Engine e c → IsSegment c.split_size
unfolding Engine
ewf-IsSegment ewf c h r = r.0
ewf-IsSegment raw c h r = cc
ewf-IsSegment rescue c h r = cc

-- The segments of an accepted E01 configuration that names their size are within ewfacquire's range.
pub accepted_segment-range :
    (c : AcquisitionConfig) (seg : ℕ)
    → validate c ≡ ok tt
    → engine c ≡ ewf
    → segment_size c.split_size ≡ some seg
    → (ewf_min_segment_bytes ≤ seg) × (seg ≤ ewf_max_segment_bytes)
unfolding IsConsistent
accepted_segment-range c seg v e s =
    let ok_c : IsConsistent c = (validate_iff c).0 v in
    segment_size-range c.split_size seg (ewf-IsSegment (engine c) c e ok_c.2) s
