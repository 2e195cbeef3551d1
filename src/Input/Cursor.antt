-- ===== src/Input/Cursor.antt =====
-- src/tui/input.rs: the cursor is moved to the start of a character before a key is looked at.
use dfdisk.Prelude.{
  ℕ, zero, suc, ◌+◌, ◌-◌, ◌≤◌, ◌<◌, ◌≡◌, refl, sym, ap, ◌∙◌, inl, inr, min, true, false, Option,
  none, some, [], ◌∷◌, leb, if◌then◌else◌, Bool-cases, arith, Text,
}
use dfdisk.Prelude.Optional.{◌>>=◌, is_some}
use dfdisk.Input.{len_utf8, len, split_at, is_char_boundary, align}
use dfdisk.Input.Fields.{len_utf8-pos, split_at-zero, split_at-step}

-- The offset of the last character that starts at `n` or before it, or the length.
unfoldable pub floor : Text → ℕ → ℕ
floor [] n = 0
floor (c ∷ cs) n =
    let rest = floor cs (n - len_utf8 c) in if leb (len_utf8 c) n then len_utf8 c + rest else 0

floor-zero : (t : Text) → floor t 0 ≡ 0
unfolding floor
floor-zero [] = refl
floor-zero (c ∷ cs) =
    let e : leb (len_utf8 c) 0 ≡ false = ground (arith, len_utf8-pos c) in rw (e) refl

floor-len : (t : Text) (n : ℕ) → len t ≤ n → floor t n ≡ len t
unfolding floor len
floor-len [] n h = refl
floor-len (c ∷ cs) n h =
    let e : leb (len_utf8 c) n ≡ true = ground (arith, h) in
    rw (e, floor-len cs (n - len_utf8 c) (omega (arith, h))) refl

is_some-bind :
    (m : Option (Text × Text)) (c : ℕ)
    → is_some {A = Text × Text} (m >>= λ (l, r). some (c ∷ l, r)) ≡ is_some m
is_some-bind none c = refl
is_some-bind (some x) c = refl

boundary-cons :
    (c : ℕ) (cs : Text) (n k : ℕ)
    → len_utf8 c + n ≡ suc k
    → is_char_boundary (c ∷ cs) (suc k) ≡ is_char_boundary cs n
unfolding is_char_boundary
boundary-cons c cs n k e =
    ap (λ i. is_some (split_at (c ∷ cs) i)) (sym e)
    ∙ (ap is_some (split_at-step c cs n k e) ∙ is_some-bind (split_at cs n) c)

boundary-inside :
    (c : ℕ) (cs : Text) (k : ℕ) → suc k < len_utf8 c → is_char_boundary (c ∷ cs) (suc k) ≡ false
unfolding is_char_boundary split_at
boundary-inside c cs k h =
    let e : leb (len_utf8 c) (suc k) ≡ false = ground (arith, h) in rw (e) refl

boundary-zero : (t : Text) → is_char_boundary t 0 ≡ true
unfolding is_char_boundary
boundary-zero t = rw (split_at-zero t) refl

boundary-nil : (k : ℕ) → is_char_boundary [] (suc k) ≡ false
unfolding is_char_boundary split_at
boundary-nil k = refl

floor_fits :
    (c : ℕ) (cs : Text) (n : ℕ)
    → leb (len_utf8 c) n ≡ true
    → floor (c ∷ cs) n ≡ len_utf8 c + floor cs (n - len_utf8 c)
unfolding floor
floor_fits c cs n e = rw (e) refl

floor_short : (c : ℕ) (cs : Text) (n : ℕ) → leb (len_utf8 c) n ≡ false → floor (c ∷ cs) n ≡ 0
unfolding floor
floor_short c cs n e = rw (e) refl

floor-boundary : (t : Text) (n : ℕ) → is_char_boundary t n ≡ true → floor t n ≡ n
floor-boundary t zero h = floor-zero t
floor-boundary [] (suc k) h = let e = boundary-nil k in cc
floor-boundary (c ∷ cs) (suc k) h = elim (Bool-cases (leb (len_utf8 c) (suc k))) [
  | inl e ↦
      let fits : len_utf8 c + (suc k - len_utf8 c) ≡ suc k = ground (arith, e) in
      let inner : is_char_boundary cs (suc k - len_utf8 c) ≡ true =
        sym (boundary-cons c cs (suc k - len_utf8 c) k fits) ∙ h in
      floor_fits c cs (suc k) e
      ∙ (ap (λ x. len_utf8 c + x) (floor-boundary cs (suc k - len_utf8 c) inner) ∙ fits)
  | inr e ↦ let g = boundary-inside c cs k (ground (arith, e)) in cc
]

floor-inside :
    (t : Text) (n : ℕ)
    → is_char_boundary t (suc n) ≡ false
    → suc n ≤ len t
    → floor t (suc n) ≡ floor t n
unfolding len
floor-inside [] n h le = ground (arith, le)
floor-inside (c ∷ cs) n h le = elim (Bool-cases (leb (len_utf8 c) n)) [
  | inl e ↦
      let next : suc n - len_utf8 c ≡ suc (n - len_utf8 c) = ground (arith, e) in
      let fits : leb (len_utf8 c) (suc n) ≡ true = ground (arith, e) in
      let total : len_utf8 c + suc (n - len_utf8 c) ≡ suc n = ground (arith, e) in
      let inner : is_char_boundary cs (suc (n - len_utf8 c)) ≡ false =
        sym (boundary-cons c cs (suc (n - len_utf8 c)) n total) ∙ h in
      let room : suc (n - len_utf8 c) ≤ len cs = ground (arith, e, le) in
      floor_fits c cs (suc n) fits
      ∙ (ap (λ x. len_utf8 c + x) (ap (floor cs) next ∙ floor-inside cs (n - len_utf8 c) inner room)
          ∙ sym (floor_fits c cs n e))
  | inr e ↦ elim (Bool-cases (leb (len_utf8 c) (suc n))) [
    | inl f ↦
        let total : len_utf8 c + 0 ≡ suc n = ground (arith, e, f) in
        let g : is_char_boundary (c ∷ cs) (suc n) ≡ true =
          boundary-cons c cs 0 n total ∙ boundary-zero cs in
        cc
    | inr f ↦ floor_short c cs (suc n) f ∙ sym (floor_short c cs n e)
  ]
]

pub align-floor : (t : Text) (n : ℕ) → n ≤ len t → align t n ≡ floor t n
unfolding align
align-floor t zero le = sym (floor-zero t)
align-floor t (suc n) le = elim (Bool-cases (is_char_boundary t (suc n))) [
  | inl e ↦ rw (e) (sym (floor-boundary t (suc n) e))
  | inr e ↦ rw (e) (align-floor t n (omega (arith, le)) ∙ sym (floor-inside t n e le))
]

pub align-cursor : (t : Text) (n : ℕ) → align t (min n (len t)) ≡ floor t n
align-cursor t n = elim (Bool-cases (leb (len t) n)) [
  | inl e ↦
      let m : min n (len t) ≡ len t = ground (arith, e) in
      let le : len t ≤ len t = omega arith in
      let over : len t ≤ n = ground (arith, e) in
      ap (align t) m
      ∙ (align-floor t (len t) le ∙ (floor-len t (len t) le ∙ sym (floor-len t n over)))
  | inr e ↦
      let m : min n (len t) ≡ n = ground (arith, e) in
      ap (align t) m ∙ align-floor t n (ground (arith, e))
]
