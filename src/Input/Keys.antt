-- ===== src/Input/Keys.antt =====
-- src/tui/input.rs: the keys that move by a character, insert one or remove one.
use dfdisk.Prelude.{
  ℕ, suc, ◌+◌, ◌-◌, ◌≡◌, refl, sym, ap, ◌∙◌, true, false, Option, some, [], ◌∷◌, ◌++◌, leb, arith,
  is_empty, Text,
}
use dfdisk.Prelude.Optional.{◌>>=◌}
use dfdisk.Input.{
  len_utf8, len, insert, remove, indices_from, or_start, remove_at, second_index, step_to,
  insert_char, previous, delete_back, delete_here, move_left, move_right,
}
use mathlib.Core.List.{append-nil}
use dfdisk.Input.Fields.{
  not_empty, len_utf8-pos, Field, at-cons, from_left, at, previous-cons, shown, from_left-cons,
  split-at, len-append, at-suc,
}

abbrev pub back : Field → Field
back ([], r) = ([], r)
back (c ∷ l, r) = (l, r)

abbrev pub tail : Field → Field
tail (l, []) = (l, [])
tail (l, c ∷ r) = (l, r)

abbrev pub to_left : Field → Field
to_left ([], r) = ([], r)
to_left (c ∷ l, r) = (l, c ∷ r)

abbrev pub to_right : Field → Field
to_right (l, []) = (l, [])
to_right (l, c ∷ r) = (c ∷ l, r)

remove-cons : (c : ℕ) (l r : Text) → remove (at l) (from_left l ++ c ∷ r) ≡ some (from_left l ++ r)
unfolding remove
remove-cons c l r = rw (split-at l (c ∷ r)) refl

delete_back_start : (t : Text) → delete_back t (at []) ≡ some (t, at [])
unfolding delete_back from_left len
delete_back_start t = refl

delete_back_step :
    (t : Text) (n k : ℕ)
    → n ≡ suc k
    → is_empty t ≡ false
    → delete_back t n ≡ (previous t n >>= λ f. remove_at f t n)
unfolding delete_back
delete_back_step [] n k e d = cc
delete_back_step (x ∷ t) n k e d = rw (e) refl

pub delete_back-back :
    (l r : Text) → delete_back (from_left l ++ r) (at l) ≡ some (shown (back (l, r)))
unfolding delete_back
delete_back-back [] r = delete_back_start (from_left [] ++ r)
delete_back-back (c ∷ l) r =
    delete_back_step (from_left (c ∷ l) ++ r) (at (c ∷ l)) (at l + len_utf8 c - 1) (at-suc c l)
      (not_empty c l r)
    ∙ rw (previous-cons c l r, from_left-cons c l r, remove-cons c l r) refl

move_left_start : (t : Text) → move_left t (at []) ≡ some (t, at [])
unfolding move_left from_left len
move_left_start t = refl

move_left_step :
    (t : Text) (n k : ℕ) → n ≡ suc k → move_left t n ≡ (previous t n >>= λ f. some (t, or_start f))
unfolding move_left
move_left_step t n k e = rw (e) refl

pub move_left-to_left :
    (l r : Text) → move_left (from_left l ++ r) (at l) ≡ some (shown (to_left (l, r)))
unfolding move_left
move_left-to_left [] r = move_left_start (from_left [] ++ r)
move_left-to_left (c ∷ l) r =
    move_left_step (from_left (c ∷ l) ++ r) (at (c ∷ l)) (at l + len_utf8 c - 1) (at-suc c l)
    ∙ rw (previous-cons c l r, from_left-cons c l r) refl

-- The cursor against the length of the text
at_end : (l : Text) → leb (len (from_left l ++ [])) (at l) ≡ true
at_end l =
    let e : len (from_left l ++ []) ≡ at l = ap len (append-nil (from_left l)) in ground (arith, e)

in_front : (l : Text) (c : ℕ) (r : Text) → leb (len (from_left l ++ c ∷ r)) (at l) ≡ false
unfolding len
in_front l c r =
    let e : len (from_left l ++ c ∷ r) ≡ at l + len (c ∷ r) = len-append (from_left l) (c ∷ r) in
    ground (arith, e, len_utf8-pos c)

pub delete_here-tail :
    (l r : Text) → delete_here (from_left l ++ r) (at l) ≡ some (shown (tail (l, r)))
unfolding delete_here
delete_here-tail l [] = rw (delete_here, at_end l) refl
delete_here-tail l (c ∷ r) = rw (delete_here, in_front l c r, remove-cons c l r) refl

second-cons :
    (c : ℕ) (l r : Text)
    → step_to (second_index (indices_from 0 (c ∷ r))) (from_left l ++ c ∷ r) (at l) ≡ at (c ∷ l)
unfolding indices_from
second-cons c l [] = sym (ap len (from_left-cons c l [])) ∙ ap len (append-nil (from_left (c ∷ l)))
second-cons c l (d ∷ r) =
    let e : 0 + len_utf8 c ≡ len_utf8 c = omega arith in rw (e) (sym (at-cons c l))

pub move_right-to_right :
    (l r : Text) → move_right (from_left l ++ r) (at l) ≡ some (shown (to_right (l, r)))
unfolding move_right
move_right-to_right l [] = rw (move_right, at_end l) refl
move_right-to_right l (c ∷ r) =
    rw (move_right, in_front l c r, split-at l (c ∷ r), second-cons c l r, from_left-cons c l r)
      refl

pub last :
    (c : ℕ) (l : Text)
    → ◌≡◌ {A = Option (Text × ℕ)}
        (some (from_left l ++ c ∷ [], len (from_left l ++ c ∷ [])))
        (some (from_left (c ∷ l), at (c ∷ l)))
unfolding from_left
last c l = refl

insert_end :
    (c : ℕ) (l : Text)
    → some ((from_left l ++ []) ++ c ∷ [], len ((from_left l ++ []) ++ c ∷ []))
      ≡ some (shown (c ∷ l, []))
insert_end c l = rw (append-nil (from_left l), append-nil (from_left (c ∷ l))) (last c l)

pub insert_char-cons :
    (c : ℕ) (l r : Text) → insert_char c (from_left l ++ r) (at l) ≡ some (shown (c ∷ l, r))
unfolding insert_char insert
insert_char-cons c l [] = rw (insert_char, at_end l) (insert_end c l)
insert_char-cons c l (d ∷ r) =
    rw
      (
        insert_char,
        in_front l d r,
        insert,
        split-at l (d ∷ r),
        from_left-cons c l (d ∷ r),
        at-cons c l,
      )
      refl
