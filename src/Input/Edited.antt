-- ===== src/Input/Edited.antt =====
-- src/tui/input.rs: the keys act on whole characters, at the cursor, and never panic.
use dfdisk.Prelude.{
  ℕ, ◌+◌, ◌-◌, ◌≡◌, refl, sym, ap, ◌∙◌, inl, inr, min, ◌||◌, Option, some, [], ◌∷◌, ◌++◌, leb, ◌==◌,
  if◌then◌else◌, Bool-cases, arith, Text,
}
use dfdisk.Input.{
  len_utf8, len, align, KeyCode, char, backspace, delete, left, right, home, end, other, KeyEvent,
  is_control, control_key, plain_key, edit_text,
}
use mathlib.Core.List.{append-nil}
use dfdisk.Input.Fields.{onto, from_left-onto, Field, at-cons, from_left, at, shown, from_left-cons}
use dfdisk.Input.Keys.{
  delete_back-back, move_right-to_right, insert_char-cons, delete_here-tail, move_left-to_left,
  to_right, to_left, back, tail,
}
use dfdisk.Input.Words.{delete_word-without, without_word}
use dfdisk.Input.Cursor.{floor, align-cursor}

-- The key pressed in a field: the specification.
abbrev edit_control : KeyCode → Field → Field
edit_control (char c) f =
    let (l, r) = f in
    if c == b'u' || c == b'k'
    then ([], [])
    else if c == b'w'
    then without_word f
    else if c == b'a'
    then ([], from_left l ++ r)
    else if c == b'e'
    then (onto l r, [])
    else f
edit_control _ f = f

abbrev edit_plain : KeyCode → Field → Field
edit_plain (char c) (l, r) = if is_control c then (l, r) else (c ∷ l, r)
edit_plain backspace f = back f
edit_plain delete f = tail f
edit_plain left f = to_left f
edit_plain right f = to_right f
edit_plain home (l, r) = ([], from_left l ++ r)
edit_plain end (l, r) = (onto l r, [])
edit_plain other f = f

unfoldable pub edited : KeyEvent → Field → Field
edited key f =
    if key.control then edit_control key.code f else if key.alt then f else edit_plain key.code f

home-shown : (t : Text) → ◌≡◌ {A = Option (Text × ℕ)} (some (t, 0)) (some (shown ([], t)))
unfolding from_left len
home-shown t = refl

end-shown :
    (l r : Text)
    → ◌≡◌ {A = Option (Text × ℕ)}
        (some (from_left l ++ r, len (from_left l ++ r)))
        (some (shown (onto l r, [])))
end-shown l r = rw (from_left-onto l r, append-nil (from_left l ++ r)) refl

plain_key-edit :
    (k : KeyCode) (l r : Text)
    → plain_key k (from_left l ++ r) (at l) ≡ some (shown (edit_plain k (l, r)))
unfolding plain_key
plain_key-edit (char c) l r = elim (Bool-cases (is_control c)) [
  | inl e ↦ rw (e) refl
  | inr e ↦ rw (e) (insert_char-cons c l r)
]
plain_key-edit backspace l r = delete_back-back l r
plain_key-edit delete l r = delete_here-tail l r
plain_key-edit left l r = move_left-to_left l r
plain_key-edit right l r = move_right-to_right l r
plain_key-edit home l r = home-shown (from_left l ++ r)
plain_key-edit end l r = end-shown l r
plain_key-edit other l r = refl

control_key-edit :
    (k : KeyCode) (l r : Text)
    → control_key k (from_left l ++ r) (at l) ≡ some (shown (edit_control k (l, r)))
unfolding control_key
control_key-edit (char c) l r = elim (Bool-cases (c == b'u' || c == b'k')) [
  | inl e ↦ rw (e) (home-shown [])
  | inr e ↦ elim (Bool-cases (c == b'w')) [
    | inl f ↦ rw (e, f) (delete_word-without l r)
    | inr f ↦ elim (Bool-cases (c == b'a')) [
      | inl g ↦ rw (e, f, g) (home-shown (from_left l ++ r))
      | inr g ↦ elim (Bool-cases (c == b'e')) [
        | inl h ↦ rw (e, f, g, h) (end-shown l r)
        | inr h ↦ rw (e, f, g, h) refl
      ]
    ]
  ]
]
control_key-edit backspace l r = refl
control_key-edit delete l r = refl
control_key-edit left l r = refl
control_key-edit right l r = refl
control_key-edit home l r = refl
control_key-edit end l r = refl
control_key-edit other l r = refl

-- The part of a text in front of a cursor: the most characters that end there or before it.
unfoldable pub halves_from : Text → Text → ℕ → Field
halves_from l [] n = (l, [])
halves_from l (c ∷ r) n =
    let rest = halves_from (c ∷ l) r (n - len_utf8 c) in
    if leb (len_utf8 c) n then rest else (l, c ∷ r)

halves_from-text :
    (l r : Text) (n : ℕ)
    → from_left ((halves_from l r n).0) ++ (halves_from l r n).1 ≡ from_left l ++ r
unfolding halves_from
halves_from-text l [] n = refl
halves_from-text l (c ∷ r) n = elim (Bool-cases (leb (len_utf8 c) n)) [
  | inl e ↦ rw (e) (halves_from-text (c ∷ l) r (n - len_utf8 c) ∙ from_left-cons c l r)
  | inr e ↦ rw (e) refl
]

halves_from-at : (l r : Text) (n : ℕ) → at ((halves_from l r n).0) ≡ at l + floor r n
unfolding halves_from floor
halves_from-at l [] n = omega arith
halves_from-at l (c ∷ r) n = elim (Bool-cases (leb (len_utf8 c) n)) [
  | inl e ↦ rw (e) (omega (arith, halves_from-at (c ∷ l) r (n - len_utf8 c), at-cons c l))
  | inr e ↦ rw (e) (omega arith)
]

-- The field that a text and a cursor stand for.
abbrev pub halves : Text → ℕ → Field
halves t n = halves_from [] t n

halves-text : (t : Text) (n : ℕ) → t ≡ from_left ((halves t n).0) ++ (halves t n).1
unfolding from_left
halves-text t n = sym (halves_from-text [] t n)

halves-at : (t : Text) (n : ℕ) → align t (min n (len t)) ≡ at ((halves t n).0)
unfolding from_left len
halves-at t n = omega (arith, align-cursor t n, halves_from-at [] t n)

keyed : Text → ℕ → KeyEvent → Option (Text × ℕ)
unfolding control_key plain_key
keyed t n key =
    if key.control
    then control_key key.code t n
    else if key.alt
    then some (t, n)
    else plain_key key.code t n

keyed-edited :
    (f : Field) (key : KeyEvent)
    → keyed (from_left (f.0) ++ f.1) (at (f.0)) key ≡ some (shown (edited key f))
unfolding keyed edited
keyed-edited (l, r) key = elim (Bool-cases key.control) [
  | inl e ↦ rw (e) (control_key-edit key.code l r)
  | inr e ↦ elim (Bool-cases key.alt) [
    | inl h ↦ rw (e, h) refl
    | inr h ↦ rw (e, h) (plain_key-edit key.code l r)
  ]
]

edit_text-keyed :
    (t : Text) (n : ℕ) (key : KeyEvent) → edit_text t n key ≡ keyed t (align t (min n (len t))) key
unfolding edit_text keyed
edit_text-keyed t n key = refl

-- Whatever the text, the cursor, even beyond the text or inside a character, and the key: the key
-- does not panic, and the text and the cursor that it leaves are those of the field that the
-- text and the cursor stand for, edited on whole characters.
pub edit_text-edited :
    (t : Text) (n : ℕ) (key : KeyEvent) → edit_text t n key ≡ some (shown (edited key (halves t n)))
edit_text-edited t n key =
    edit_text-keyed t n key
    ∙ (ap (λ i. keyed t i key) (halves-at t n)
        ∙ (ap (λ s. keyed s (at ((halves t n).0)) key) (halves-text t n)
            ∙ keyed-edited (halves t n) key))
