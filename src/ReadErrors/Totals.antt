-- ===== src/ReadErrors/Totals.antt =====
-- The counts of src/models/outcome.rs (`bytes_of`, `count`, `is_empty`), read byte by byte.
use dfdisk.Prelude.{
  ℕ, zero, suc, ◌+◌, ◌-◌, ◌≤◌, ◌<◌, ◌≡◌, ◌≢◌, ◌↔◌, refl, sym, ◌∙◌, min, Bool, true, false, ◌&&◌,
  Option, none, some, List, [], ◌∷◌, arith, ltb, leb, if◌then◌else◌, u64_max, Bool-cases, inl, inr,
}
use dfdisk.ReadErrors.{
  RangeKind, substituted, unread, same_kind, ReadErrorRange, ReadErrorTable, is_normalised,
  all_positive, windows_ordered, normalise_ranges, normalise, sum_lengths, bytes_of, count_ranges,
  count,
}
use dfdisk.ReadErrors.Coverage.{covered, state_at, AreU64, Within}
use dfdisk.ReadErrors.Normal.{normalise_state, normalise-IsNormalised, normalise-Within}

same_kind_refl : (k : RangeKind) → same_kind k k ≡ true
same_kind_refl substituted = refl
same_kind_refl unread = refl

-- In a normalised list the kinds do not overlap, so `covered` is the state.
sum_lengths_zero :
    (k : RangeKind) (rs : List ReadErrorRange) (x : ℕ)
    → all_positive rs ≡ true
    → sum_lengths k rs ≡ 0
    → covered k rs x ≡ false
sum_lengths_zero k [] x p h = refl
sum_lengths_zero k (r ∷ rs) x p h = ground (arith, sum_lengths_zero k rs x)

sum_lengths_count :
    (k : RangeKind) (rs : List ReadErrorRange)
    → all_positive rs ≡ true
    → count_ranges k rs ≤ sum_lengths k rs
sum_lengths_count k [] p = omega arith
sum_lengths_count k (r ∷ rs) p = ground (arith, sum_lengths_count k rs)

count_zero_sum :
    (k : RangeKind) (rs : List ReadErrorRange) → count_ranges k rs ≡ 0 → sum_lengths k rs ≡ 0
count_zero_sum k [] h = refl
count_zero_sum k (r ∷ rs) h = ground (arith, count_zero_sum k rs)

abbrev pub in_state : RangeKind → Option RangeKind → Bool
in_state k none = false
in_state k (some j) = same_kind j k

in_state-eq : (k : RangeKind) (o : Option RangeKind) → in_state k o ≡ true → o ≡ some k
in_state-eq k none e = absurd (cc)
in_state-eq substituted (some j) e = ground arith
in_state-eq unread (some j) e = ground arith

-- How many of the bytes below `n` are in the given state.
abbrev pub bytes_in : RangeKind → List ReadErrorRange → ℕ → ℕ
bytes_in k rs zero = 0
bytes_in k rs (suc n) = (if in_state k (state_at rs n) then 1 else 0) + bytes_in k rs n

-- Every range ends at `n` or before.
abbrev pub EndsBy : ℕ → List ReadErrorRange → Type 0
EndsBy n [] = Unit
EndsBy n (r ∷ rs) = (r.offset + r.length ≤ n) × EndsBy n rs

abbrev StartFrom : ℕ → List ReadErrorRange → Type 0
StartFrom b [] = Unit
StartFrom b (r ∷ rs) = (b ≤ r.offset) × StartFrom b rs

StartFrom-le : {a b : ℕ} (rs : List ReadErrorRange) → a ≤ b → StartFrom b rs → StartFrom a rs
StartFrom-le [] h s = tt
StartFrom-le (r ∷ rs) h s = (omega arith, StartFrom-le rs h s.1)

windows_start :
    (n : ℕ) (a : ReadErrorRange) (rs : List ReadErrorRange)
    → n ≤ u64_max
    → Within n (a ∷ rs)
    → windows_ordered (a ∷ rs) ≡ true
    → StartFrom (a.offset + a.length) rs
windows_start n a [] m w o = tt
windows_start n a (b ∷ rs) m w o =
    let rest = windows_start n b rs m w.2 (ground arith) in
    (ground arith, StartFrom-le rs (ground arith) rest)

StartFrom-covered :
    (k : RangeKind) {b : ℕ} (rs : List ReadErrorRange) (x : ℕ)
    → StartFrom b rs
    → x < b
    → covered k rs x ≡ false
StartFrom-covered k [] x s h = refl
StartFrom-covered k (r ∷ rs) x s h = ground (arith, StartFrom-covered k rs x s.1 h)

-- How many of the bytes below `n` lie from `a` up to `b`.
abbrev between : ℕ → ℕ → ℕ → ℕ
between a b zero = 0
between a b (suc n) = (if leb a n && ltb n b then 1 else 0) + between a b n

between_total : (a b n : ℕ) → a ≤ b → between a b n ≡ min n b - min n a
between_total a b zero h = omega arith
between_total a b (suc n) h = ground (arith, between_total a b n h)

bytes_in-cons :
    (k : RangeKind) (r : ReadErrorRange) (rs : List ReadErrorRange) (n : ℕ)
    → r.offset + r.length ≤ u64_max
    → StartFrom (r.offset + r.length) rs
    → bytes_in k (r ∷ rs) n
      ≡ (if same_kind r.kind k then between r.offset (r.offset + r.length) n else 0)
        + bytes_in k rs n
bytes_in-cons k r rs zero m s = ground arith
bytes_in-cons k r rs (suc n) m s = ground (
  arith,
  bytes_in-cons k r rs n m s,
  StartFrom-covered substituted {b = r.offset + r.length} rs n s,
  StartFrom-covered unread {b = r.offset + r.length} rs n s,
)

bytes_in-nil : (k : RangeKind) (n : ℕ) → bytes_in k [] n ≡ 0
bytes_in-nil k zero = refl
bytes_in-nil k (suc n) = ground (arith, bytes_in-nil k n)

windows_tail :
    (r : ReadErrorRange) (rs : List ReadErrorRange)
    → windows_ordered (r ∷ rs) ≡ true
    → windows_ordered rs ≡ true
windows_tail r [] o = refl
windows_tail r (s ∷ rs) o = ground arith

normal_total :
    (k : RangeKind) (rs : List ReadErrorRange) (n : ℕ)
    → n ≤ u64_max
    → Within n rs
    → windows_ordered rs ≡ true
    → sum_lengths k rs ≡ bytes_in k rs n
normal_total k [] n m w o = omega (arith, bytes_in-nil k n)
normal_total k (r ∷ rs) n m w o = ground (
  arith,
  bytes_in-cons k r rs n (omega arith) (windows_start n r rs m w o),
  between_total r.offset (r.offset + r.length) n (omega arith),
  normal_total k rs n m w.2 (windows_tail r rs o),
)

covered-EndsBy :
    (k : RangeKind) (n : ℕ) (rs : List ReadErrorRange) (x : ℕ)
    → EndsBy n rs
    → covered k rs x ≡ true
    → x < n
covered-EndsBy k n [] x e c = absurd (cc)
covered-EndsBy k n (r ∷ rs) x e c = ground (arith, covered-EndsBy k n rs x e.1)

pub EndsBy-AreU64 : (n : ℕ) (rs : List ReadErrorRange) → n ≤ u64_max → EndsBy n rs → AreU64 rs
EndsBy-AreU64 n [] m e = tt
EndsBy-AreU64 n (r ∷ rs) m e = (omega arith, EndsBy-AreU64 n rs m e.1)

EndsBy-Within :
    (n : ℕ) (rs : List ReadErrorRange) → all_positive rs ≡ true → EndsBy n rs → Within n rs
EndsBy-Within n [] p e = tt
EndsBy-Within n (r ∷ rs) p e = ground (arith, EndsBy-Within n rs)

-- The last byte of each range is covered, so a bound on what is covered bounds the ends.
covered-Within :
    (b n : ℕ) (rs : List ReadErrorRange)
    → b ≤ u64_max
    → Within b rs
    → ((k : RangeKind) (x : ℕ) → covered k rs x ≡ true → x < n)
    → Within n rs
covered-Within b n [] m w h = tt
covered-Within b n (r ∷ rs) m w h =
    let last : r.offset + r.length - 1 < n =
      h r.kind (r.offset + r.length - 1) (ground (arith, same_kind_refl r.kind)) in
    (w.0, omega arith, covered-Within b n rs m w.2 (λ k x c. h k x (ground arith)))

same_bytes :
    (k : RangeKind) (rs ss : List ReadErrorRange) (n : ℕ)
    → ((x : ℕ) → state_at rs x ≡ state_at ss x)
    → bytes_in k rs n ≡ bytes_in k ss n
same_bytes k rs ss zero h = refl
same_bytes k rs ss (suc n) h = ground (arith, h n, same_bytes k rs ss n h)

state_of_covered :
    (k : RangeKind) (rs : List ReadErrorRange) (x : ℕ)
    → covered k rs x ≡ true
    → (j : RangeKind) × (state_at rs x ≡ some j)
state_of_covered substituted rs x c = elim (Bool-cases (covered unread rs x)) [
  | inl u ↦ (unread, ground arith)
  | inr u ↦ (substituted, ground arith)
]
state_of_covered unread rs x c = (unread, ground arith)

pub covered_of_state :
    (j : RangeKind) (rs : List ReadErrorRange) (x : ℕ)
    → state_at rs x ≡ some j
    → covered j rs x ≡ true
covered_of_state substituted rs x s = ground arith
covered_of_state unread rs x s = ground arith

normalise-EndsBy :
    (n : ℕ) (rs : List ReadErrorRange) → n ≤ u64_max → EndsBy n rs → Within n (normalise_ranges rs)
normalise-EndsBy n rs m e =
    let u = EndsBy-AreU64 n rs m e in
    elim (normalise-Within rs u) [
      | inl (same, ordered) ↦ rw same (EndsBy-Within n rs (unfold is_normalised in ground arith) e)
      | inr (b, low, w) ↦ covered-Within b n (normalise_ranges rs) low w (λ k x c.
          let (j, s) = state_of_covered k (normalise_ranges rs) x c in
          covered-EndsBy j n rs x e (covered_of_state j rs x (sym (normalise_state rs x u) ∙ s)))
    ]

-- The bytes that a table counts in a kind are exactly the bytes whose state is that kind, whether
-- the table is normalised or not. `n` bounds the ends of its ranges, within a `u64`.
pub bytes_of-bytes_in :
    (t : ReadErrorTable) (k : RangeKind) (n : ℕ)
    → n ≤ u64_max
    → EndsBy n t.ranges
    → bytes_of t k ≡ bytes_in k t.ranges n
unfolding bytes_of normalise
bytes_of-bytes_in t k n m e =
    let u = EndsBy-AreU64 n t.ranges m e in
    normal_total k (normalise_ranges t.ranges) n m (normalise-EndsBy n t.ranges m e)
      (unfold is_normalised in ground (arith, normalise-IsNormalised t.ranges u))
    ∙ same_bytes k (normalise_ranges t.ranges) t.ranges n (λ x. normalise_state t.ranges x u)

-- A table without bytes of a kind has no byte in that state.
pub bytes_of_zero :
    (t : ReadErrorTable) (k : RangeKind) (x : ℕ)
    → AreU64 t.ranges
    → bytes_of t k ≡ 0
    → state_at t.ranges x ≢ some k
unfolding bytes_of normalise
bytes_of_zero t k x u z s =
    let positive : all_positive (normalise_ranges t.ranges) ≡ true =
      unfold is_normalised in ground (arith, normalise-IsNormalised t.ranges u) in
    ground (
      arith,
      sum_lengths_zero k (normalise_ranges t.ranges) x positive z,
      covered_of_state k (normalise_ranges t.ranges) x (normalise_state t.ranges x u ∙ s),
    )

-- A table counts bytes of a kind exactly if it counts ranges of it.
pub count-bytes_of :
    (t : ReadErrorTable) (k : RangeKind) → AreU64 t.ranges → (count t k ≡ 0) ↔ (bytes_of t k ≡ 0)
unfolding bytes_of count normalise
count-bytes_of t k u =
    let positive : all_positive (normalise_ranges t.ranges) ≡ true =
      unfold is_normalised in ground (arith, normalise-IsNormalised t.ranges u) in
    (
      count_zero_sum k (normalise_ranges t.ranges),
      λ z. omega (arith, sum_lengths_count k (normalise_ranges t.ranges) positive),
    )

bytes_in_pos :
    (k : RangeKind) (rs : List ReadErrorRange) (n : ℕ)
    → 0 < bytes_in k rs n
    → (x : ℕ) × (x < n) × (state_at rs x ≡ some k)
bytes_in_pos k rs zero h = absurd (omega arith)
bytes_in_pos k rs (suc n) h = elim (Bool-cases (in_state k (state_at rs n))) [
  | inl e ↦ (n, omega arith, in_state-eq k (state_at rs n) e)
  | inr e ↦ let (x, l, s) = bytes_in_pos k rs n (ground arith) in (x, omega arith, s)
]

-- Some byte has the state, if the table counts bytes of it.
pub bytes_of_pos :
    (t : ReadErrorTable) (k : RangeKind) (n : ℕ)
    → n ≤ u64_max
    → EndsBy n t.ranges
    → 0 < bytes_of t k
    → (x : ℕ) × (x < n) × (state_at t.ranges x ≡ some k)
bytes_of_pos t k n m e h = bytes_in_pos k t.ranges n (omega (arith, bytes_of-bytes_in t k n m e))
