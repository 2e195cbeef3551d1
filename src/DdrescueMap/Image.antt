-- ===== src/DdrescueMap/Image.antt =====
-- What `assess` of src/engines/ddrescue_map.rs says of each byte of the source.
use dfdisk.Prelude.{
  ℕ, ◌+◌, ◌-◌, ◌≤◌, ◌<◌, ◌≡◌, refl, Bool, true, false, ◌&&◌, Option, none, some, List, [], ◌∷◌,
  arith, ltb, leb, if◌then◌else◌, u64_max, Text, codes, Bool-cases, inl, inr, min, max,
}
use dfdisk.ReadErrors.{
  RangeKind, substituted, unread, ReadErrorTable, empty_table, push, sum_lengths, unread_bytes,
}
use dfdisk.ReadErrors.Coverage.{state_at, Within-le}
use dfdisk.ReadErrors.Appending.{EndsAt, EndsAt-bytes_of, push_up_to}
use dfdisk.DdrescueMap.{
  BlockStatus, non_tried, non_trimmed, non_scraped, bad_sector, finished, range_kind, MapBlock, end,
  Mapfile,
}
use dfdisk.DdrescueMap.Assess.{
  MapAssessment, no_assessment, Walk, add, add_range, list_gap, image_part, missing_part, in_image,
  assess_kind, assess_block, assess_step, assess_blocks, assess,
}

-- The blocks ascend from `b`, without overlap; none is empty or ends beyond a `u64`.
abbrev pub AreOrdered : ℕ → List MapBlock → Type 0
AreOrdered b [] = Unit
AreOrdered b (m ∷ ms) = (b ≤ m.pos) × (0 < m.size) × (end m ≤ u64_max) × AreOrdered (end m) ms

-- The status of the block that lists the byte.
abbrev pub listed : List MapBlock → ℕ → Option BlockStatus
listed [] x = none
listed (b ∷ bs) x = if leb b.pos x && ltb x (end b) then some b.status else listed bs x

-- How a byte of the source is represented in an image file of `image_len` bytes.
abbrev pub represented : ℕ → Option BlockStatus → ℕ → Option RangeKind
represented image_len none x = some unread
represented image_len (some finished) x = if ltb x image_len then none else some unread
represented image_len (some bad_sector) x =
    if ltb x image_len then some substituted else some unread
represented image_len (some _) x = some unread

listed-before : (c : ℕ) (bs : List MapBlock) (x : ℕ) → AreOrdered c bs → x < c → listed bs x ≡ none
listed-before c [] x o h = refl
listed-before c (b ∷ bs) x o h = ground (arith, listed-before (end b) bs x o.3)

-- Up to `d` the table says `g` of each byte, and nothing beyond; every byte up to `d` counts
-- either among the `n` bytes acquired or as unread.
record Upto (g : ℕ → Option RangeKind) (d : ℕ) (t : ReadErrorTable) (n : ℕ) : Type 0 where
  ends : EndsAt d t
  states : (x : ℕ) → state_at t.ranges x ≡ (if ltb x d then g x else none)
  counted : n + sum_lengths unread t.ranges ≡ d

module _ (g : ℕ → Option RangeKind) where
  -- The table of an assessment, and the bytes that it counts as acquired.
  abbrev Reaches : ℕ → MapAssessment → Type 0
  Reaches d a = Upto g d a.read_errors a.bytes_acquired

  module _ (t : ReadErrorTable) (n d e : ℕ) (u : Upto g d t n) (h : d ≤ e) where
    add_unread :
        e ≤ u64_max
        → ((x : ℕ) → d ≤ x → x < e → g x ≡ some unread)
        → Upto g e (push t d (e - d) unread) n
    add_unread m k =
        let (ends, states, lengths) = push_up_to t d e unread h m u.ends in
        record {
          ends = ends;
          states = λ x. ground (arith, states x, u.states x, k x);
          counted = omega (arith, lengths unread, u.counted);
        }

    -- Zeros in the image.
    add_substituted :
        e ≤ u64_max
        → ((x : ℕ) → d ≤ x → x < e → g x ≡ some substituted)
        → Upto g e (push t d (e - d) substituted) (n + (e - d))
    add_substituted m k =
        let (ends, states, lengths) = push_up_to t d e substituted h m u.ends in
        record {
          ends = ends;
          states = λ x. ground (arith, states x, u.states x, k x);
          counted = omega (arith, lengths unread, u.counted);
        }

    -- Source data in the image.
    add_read : ((x : ℕ) → d ≤ x → x < e → g x ≡ none) → Upto g e t (n + (e - d))
    add_read k = record {
      ends = record { within = Within-le t.ranges h u.ends.within; ordered = u.ends.ordered };
      states = λ x. ground (arith, u.states x, k x);
      counted = omega (arith, u.counted);
    }

  image_part-Reaches :
      (bad : Bool) (a : MapAssessment) (d e : ℕ)
      → Reaches d a
      → d ≤ e
      → e ≤ u64_max
      → ((x : ℕ) → d ≤ x → x < e → g x ≡ (if bad then some substituted else none))
      → Reaches e (image_part bad d e a)
  unfolding image_part
  image_part-Reaches bad a d e u h m k = elim (Bool-cases (ltb d e)) [
    | inl l ↦ rw l (filled bad k)
    | inr l ↦ let same : d ≡ e = ground arith in rw (l, ← same) u
  ]
    where
      filled :
          (b : Bool)
          → ((x : ℕ) → d ≤ x → x < e → g x ≡ (if b then some substituted else none))
          → Reaches e (record (if b then add_range a d (e - d) substituted else a) {
            bytes_acquired = a.bytes_acquired + (e - d);
          })
      filled true k = add_substituted a.read_errors a.bytes_acquired d e u h m k
      filled false k = add_read a.read_errors a.bytes_acquired d e u h k

  missing_part-Reaches :
      (bad : Bool) (a : MapAssessment) (d e : ℕ)
      → Reaches d a
      → d ≤ e
      → e ≤ u64_max
      → ((x : ℕ) → d ≤ x → x < e → g x ≡ some unread)
      → Reaches e (missing_part bad d e a)
  unfolding missing_part
  missing_part-Reaches bad a d e u h m k = elim (Bool-cases (ltb d e)) [
    | inl l ↦ rw l (marked bad)
    | inr l ↦ let same : d ≡ e = ground arith in rw (l, ← same) u
  ]
    where
      added : Upto g e (push a.read_errors d (e - d) unread) a.bytes_acquired
      added = add_unread a.read_errors a.bytes_acquired d e u h m k

      marked :
          (b : Bool)
          → Reaches e (
              let c = add_range a d (e - d) unread in
              if b
              then record c { bad_beyond_image = c.bad_beyond_image + (e - d) }
              else record c { rescued_beyond_image = c.rescued_beyond_image + (e - d) })
      marked true = added
      marked false = added

  in_image-Reaches :
      (image_len : ℕ) (bad : Bool) (a : MapAssessment) (d e : ℕ)
      → Reaches d a
      → d ≤ e
      → e ≤ u64_max
      → ((x : ℕ)
          → d ≤ x
          → x < e
          → g x ≡ represented image_len (some (if bad then bad_sector else finished)) x)
      → Reaches e (in_image image_len bad d e a)
  unfolding in_image
  in_image-Reaches image_len bad a d e u h m k =
      let i = max (min e image_len) d in
      missing_part-Reaches bad (image_part bad d i a) i e
        (image_part-Reaches bad a d i u (omega arith) (omega arith)
          (λ x l r. ground (arith, k x l)))
        (omega arith) m (λ x l r. ground (arith, k x))

  assess_block-Reaches :
      (image_len : ℕ) (b : MapBlock) (a : MapAssessment) (d e : ℕ)
      → Reaches d a
      → d ≤ e
      → e ≤ u64_max
      → ((x : ℕ) → d ≤ x → x < e → g x ≡ represented image_len (some b.status) x)
      → Reaches e (assess_block image_len b d e a)
  unfolding assess_block
  assess_block-Reaches image_len b a d e u h m k = elim (Bool-cases (ltb d e)) [
    | inl l ↦ rw l (of_status b.status k)
    | inr l ↦ let same : d ≡ e = ground arith in rw (l, ← same) u
  ]
    where
      counting : BlockStatus → MapAssessment
      counting s = record a { counts = add a.counts s (e - d) }

      of_status :
          (s : BlockStatus)
          → ((x : ℕ) → d ≤ x → x < e → g x ≡ represented image_len (some s) x)
          → Reaches e (assess_kind image_len (range_kind s) d e (counting s))
      of_status finished k = in_image-Reaches image_len false (counting finished) d e u h m k
      of_status bad_sector k = in_image-Reaches image_len true (counting bad_sector) d e u h m k
      of_status non_tried k = add_unread a.read_errors a.bytes_acquired d e u h m k
      of_status non_trimmed k = add_unread a.read_errors a.bytes_acquired d e u h m k
      of_status non_scraped k = add_unread a.read_errors a.bytes_acquired d e u h m k

  list_gap-Reaches :
      (a : MapAssessment) (d e : ℕ)
      → Reaches d a
      → d ≤ e
      → e ≤ u64_max
      → ((x : ℕ) → d ≤ x → x < e → g x ≡ some unread)
      → Reaches e (list_gap a d e)
  unfolding list_gap
  list_gap-Reaches a d e u h m k = add_unread a.read_errors a.bytes_acquired d e u h m k

  module _ (expected image_len : ℕ) (small : expected ≤ u64_max) where
    assess_step-Reaches :
        (w : Walk) (b : MapBlock) (bs : List MapBlock)
        → AreOrdered w.cursor (b ∷ bs)
        → Reaches (min w.cursor expected) w.a
        → ((x : ℕ)
            → w.cursor ≤ x
            → x < expected
            → g x ≡ represented image_len (listed (b ∷ bs) x) x)
        → Reaches (min (end b) expected) (assess_step expected image_len w b).a
    unfolding assess_step
    assess_step-Reaches w b bs o u k = elim (Bool-cases (ltb expected (end b))) [
      | inl e ↦
          rw e (record { ends = inside.ends; states = inside.states; counted = inside.counted })
      | inr e ↦ rw e inside
    ]
      where
        gap : MapAssessment
        gap =
            if ltb w.cursor b.pos && ltb w.cursor expected
            then list_gap w.a w.cursor (min b.pos expected)
            else w.a

        gap-Reaches : Reaches (min b.pos expected) gap
        gap-Reaches = elim (Bool-cases (ltb w.cursor b.pos && ltb w.cursor expected)) [
          | inl t ↦
              let same : min w.cursor expected ≡ w.cursor = ground arith in
              rw t (
                list_gap-Reaches w.a w.cursor (min b.pos expected) (rw same at u) (ground arith)
                  (omega arith) (λ x l r. ground (arith, k x, listed-before (end b) bs x o.3)))
          | inr t ↦
              let same : min w.cursor expected ≡ min b.pos expected = ground arith in
              rw (t, ← same) u
        ]

        inside :
            Reaches
              (min (end b) expected)
              (assess_block image_len b (min b.pos expected) (min (end b) expected) gap)
        inside =
            assess_block-Reaches image_len b gap (min b.pos expected) (min (end b) expected)
              gap-Reaches (omega arith) (omega arith) (λ x l r. ground (arith, k x))

    step_cursor :
        (w : Walk) (b : MapBlock) (bs : List MapBlock)
        → AreOrdered w.cursor (b ∷ bs)
        → (assess_step expected image_len w b).cursor ≡ end b
    unfolding assess_step
    step_cursor w b bs o = omega arith

    assess_blocks-Reaches :
        (bs : List MapBlock) (w : Walk)
        → AreOrdered w.cursor bs
        → Reaches (min w.cursor expected) w.a
        → ((x : ℕ) → w.cursor ≤ x → x < expected → g x ≡ represented image_len (listed bs x) x)
        → (let v = assess_blocks expected image_len w bs in
            Reaches (min v.cursor expected) v.a
            × ((x : ℕ) → v.cursor ≤ x → x < expected → g x ≡ some unread))
    unfolding assess_blocks
    assess_blocks-Reaches [] w o u k = (u, λ x l r. ground (arith, k x))
    assess_blocks-Reaches (b ∷ bs) w o u k =
        let c = step_cursor w b bs o in
        assess_blocks-Reaches bs (assess_step expected image_len w b) (rw c o.3)
          (rw c (assess_step-Reaches w b bs o u k)) (λ x l r. ground (arith, k x))

    closed-Reaches :
        (w : Walk)
        → Reaches (min w.cursor expected) w.a
        → ((x : ℕ) → w.cursor ≤ x → x < expected → g x ≡ some unread)
        → Reaches expected (if ltb w.cursor expected then list_gap w.a w.cursor expected else w.a)
    closed-Reaches w u k = elim (Bool-cases (ltb w.cursor expected)) [
      | inl l ↦
          let same : min w.cursor expected ≡ w.cursor = ground arith in
          rw l (
            list_gap-Reaches w.a w.cursor expected (rw same at u) (ground arith) small
              (λ x l r. k x l r))
      | inr l ↦ let same : min w.cursor expected ≡ expected = ground arith in rw l (rw same at u)
    ]

abbrev pub image_state : Mapfile → ℕ → ℕ → Option RangeKind
image_state m image_len x = represented image_len (listed m.blocks x) x

start-Upto :
    (g : ℕ → Option RangeKind) (expected ss : ℕ) (s : Text)
    → Upto g (min 0 expected) (empty_table ss s) 0
start-Upto g expected ss s = record {
  ends = record { within = tt; ordered = refl };
  states = λ x. ground arith;
  counted = omega arith;
}

assess-Upto :
    (m : Mapfile) (expected image_len sector_size : ℕ)
    → expected ≤ u64_max
    → AreOrdered 0 m.blocks
    → (let a = assess m expected image_len sector_size in
        Upto (image_state m image_len) expected a.read_errors a.bytes_acquired)
unfolding assess
assess-Upto m expected image_len sector_size small o =
    let g = image_state m image_len in
    let source = codes "ddrescue mapfile" in
    let start : Walk = record { a = no_assessment (empty_table sector_size source); cursor = 0 } in
    let (u, k) =
      assess_blocks-Reaches g expected image_len small m.blocks start o
        (start-Upto g expected sector_size source) (λ x l r. refl) in
    let w = assess_blocks expected image_len start m.blocks in
    let c = closed-Reaches g expected image_len small w u k in
    record { ends = c.ends; states = c.states; counted = c.counted }

-- The report of a map says of every byte of the source how the image holds it: read where a rescued
-- block lists it inside the image file, zeros where a bad-sector block does, and unread everywhere
-- else: other blocks, bytes that no block lists, and bytes beyond the image file. It says nothing
-- of bytes beyond the source. Bytes acquired and bytes unread add up to the source. The blocks are
-- those of a parsed map, and the size is a `u64`.
pub assess_image :
    (m : Mapfile) (expected image_len sector_size : ℕ)
    → expected ≤ u64_max
    → AreOrdered 0 m.blocks
    → (let a = assess m expected image_len sector_size in
        ((x : ℕ)
          → state_at a.read_errors.ranges x
            ≡ (if ltb x expected then represented image_len (listed m.blocks x) x else none))
        × (a.bytes_acquired + unread_bytes a.read_errors ≡ expected))
assess_image m expected image_len sector_size small o =
    let u = assess-Upto m expected image_len sector_size small o in
    let a = assess m expected image_len sector_size in
    (u.states, omega (arith, u.counted, EndsAt-bytes_of expected a.read_errors unread u.ends))
