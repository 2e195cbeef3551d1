-- ===== src/Input/Fields.antt =====
-- src/tui/input.rs: a text field as the characters on the two sides of its cursor.
use dfdisk.Prelude.{
  ℕ, suc, ◌+◌, ◌-◌, ◌≤◌, ◌≡◌, refl, sym, ap, ◌∙◌, Bool, true, false, Option, none, some, List, [],
  ◌∷◌, ◌++◌, leb, if◌then◌else◌, arith, is_empty, Text,
}
use dfdisk.Prelude.Optional.{◌>>=◌, or}
use dfdisk.Input.{len_utf8, len, split_at, indices_from, rfind, any, previous}
use mathlib.Core.List.{append-nil, append_assoc}

pub len_utf8-pos : (c : ℕ) → 1 ≤ len_utf8 c
unfolding len_utf8
len_utf8-pos c = ground arith

pub len-append : (b a : Text) → len (b ++ a) ≡ len b + len a
unfolding len
len-append [] a = omega arith
len-append (c ∷ b) a = omega (arith, len-append b a)

pub split_at-zero : (s : Text) → split_at s 0 ≡ some ([], s)
unfolding split_at
split_at-zero [] = refl
split_at-zero (c ∷ s) = refl

pub split_at-step :
    (c : ℕ) (cs : Text) (n k : ℕ)
    → len_utf8 c + n ≡ suc k
    → split_at (c ∷ cs) (len_utf8 c + n) ≡ (split_at cs n >>= λ (l, r). some (c ∷ l, r))
unfolding split_at
split_at-step c cs n k e =
    let fits : leb (len_utf8 c) (suc k) ≡ true = ground (arith, e) in
    let left_over : suc k - len_utf8 c ≡ n = omega (arith, e) in rw (e, fits, left_over)

split_at-len : (b a : Text) → split_at (b ++ a) (len b) ≡ some (b, a)
unfolding len
split_at-len [] a = split_at-zero a
split_at-len (c ∷ b) a =
    let e : len_utf8 c + len b ≡ suc (len_utf8 c + len b - 1) = omega (arith, len_utf8-pos c) in
    rw (split_at-step c (b ++ a) (len b) (len_utf8 c + len b - 1) e, split_at-len b a)

-- A text in front of the cursor, last character first.
unfoldable pub from_left : Text → Text
from_left [] = []
from_left (c ∷ l) = from_left l ++ c ∷ []

unfoldable pub onto : Text → Text → Text
onto l [] = l
onto l (c ∷ r) = onto (c ∷ l) r

unfoldable pub drop_while : (ℕ → Bool) → Text → Text
drop_while p [] = []
drop_while p (c ∷ l) = let rest = drop_while p l in if p c then rest else c ∷ l

pub from_left-cons : (c : ℕ) (l r : Text) → from_left (c ∷ l) ++ r ≡ from_left l ++ c ∷ r
unfolding from_left
from_left-cons c l r = append_assoc (from_left l) (c ∷ []) r

pub from_left-onto : (l r : Text) → from_left (onto l r) ≡ from_left l ++ r
unfolding onto
from_left-onto l [] = sym (append-nil (from_left l))
from_left-onto l (c ∷ r) = from_left-onto (c ∷ l) r ∙ from_left-cons c l r

indices_from-snoc :
    (i : ℕ) (s : Text) (c : ℕ)
    → indices_from i (s ++ c ∷ []) ≡ indices_from i s ++ (i + len s, c) ∷ []
unfolding indices_from len
indices_from-snoc i [] c = let e : i + 0 ≡ i = omega arith in rw e
indices_from-snoc i (d ∷ s) c =
    let e : i + len_utf8 d + len s ≡ i + (len_utf8 d + len s) = omega arith in
    rw (indices_from-snoc (i + len_utf8 d) s c, e)

or_assoc : (m n k : Option (ℕ × ℕ)) → or (or m n) k ≡ or m (or n k)
or_assoc none n k = refl
or_assoc (some x) n k = refl

or_none : (m : Option (ℕ × ℕ)) → m ≡ or m none
or_none none = refl
or_none (some x) = refl

rfind-snoc :
    (p : ℕ × ℕ → Bool) (xs : List (ℕ × ℕ)) (x : ℕ × ℕ)
    → rfind p (xs ++ x ∷ []) ≡ or (if p x then some x else none) (rfind p xs)
unfolding rfind
rfind-snoc p [] x = or_none (if p x then some x else none)
rfind-snoc p (y ∷ xs) x =
    rw (rfind-snoc p xs x)
      (or_assoc (if p x then some x else none) (rfind p xs) (if p y then some y else none))

-- The byte offset of the cursor behind the characters `l`.
abbrev pub at : Text → ℕ
at l = len (from_left l)

pub at-cons : (c : ℕ) (l : Text) → at (c ∷ l) ≡ at l + len_utf8 c
unfolding from_left len
at-cons c l =
    let e : len_utf8 c + 0 ≡ len_utf8 c = omega arith in
    len-append (from_left l) (c ∷ []) ∙ ap (λ n. at l + n) e

pub at-suc : (c : ℕ) (l : Text) → at (c ∷ l) ≡ suc (at l + len_utf8 c - 1)
at-suc c l = omega (arith, at-cons c l, len_utf8-pos c)

pub rfind-cons :
    (p : ℕ × ℕ → Bool) (c : ℕ) (l : Text)
    → rfind p (indices_from 0 (from_left (c ∷ l)))
      ≡ or (if p (at l, c) then some (at l, c) else none) (rfind p (indices_from 0 (from_left l)))
unfolding from_left
rfind-cons p c l =
    let e : 0 + at l ≡ at l = omega arith in
    rw (indices_from-snoc 0 (from_left l) c, e)
      (rfind-snoc p (indices_from 0 (from_left l)) (at l, c))

pub split-at : (l r : Text) → split_at (from_left l ++ r) (at l) ≡ some (from_left l, r)
split-at l r = split_at-len (from_left l) r

split-cons :
    (c : ℕ) (l r : Text) → split_at (from_left (c ∷ l) ++ r) (at l) ≡ some (from_left l, c ∷ r)
split-cons c l r = rw (from_left-cons c l r) (split-at l (c ∷ r))

pub previous-cons :
    (c : ℕ) (l r : Text) → previous (from_left (c ∷ l) ++ r) (at (c ∷ l)) ≡ some (some (at l))
unfolding previous
previous-cons c l r = rw (split-at (c ∷ l) r, rfind-cons any c l)

is_empty-append : (s : Text) (c : ℕ) (r : Text) → is_empty (s ++ c ∷ r) ≡ false
is_empty-append [] c r = refl
is_empty-append (d ∷ s) c r = refl

pub not_empty : (c : ℕ) (l r : Text) → is_empty (from_left (c ∷ l) ++ r) ≡ false
not_empty c l r = rw (from_left-cons c l r) (is_empty-append (from_left l) c r)

abbrev pub Field : Type 0
Field = Text × Text

-- The text of a field and the byte offset of its cursor.
abbrev pub shown : Field → Text × ℕ
shown (l, r) = (from_left l ++ r, at l)
