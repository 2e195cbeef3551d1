-- ===== src/Input/Words.antt =====
-- src/tui/input.rs: Control and `w` remove the word in front of the cursor.
use dfdisk.Prelude.{
  ℕ, suc, ◌+◌, ◌-◌, ◌≡◌, refl, sym, ap, ◌∙◌, inl, inr, Bool, false, not, Option, none, some, [],
  ◌∷◌, ◌++◌, ◌==◌, Bool-cases, arith, Text,
}
use dfdisk.Prelude.Optional.{◌>>=◌}
use dfdisk.Input.{
  len_utf8, len, split_at, cut_range, indices_from, rfind, delimits, in_word, is_delimiter,
  word_start, cut_to, word_end, delete_word, cut_word,
}
use mathlib.Core.List.{append-nil, append_assoc}
use dfdisk.Input.Fields.{
  Field, at-cons, from_left, at, drop_while, rfind-cons, shown, split-at, at-suc,
}

-- Without the last word, and the delimiters behind it.
abbrev pub without_word : Field → Field
without_word (l, r) = (drop_while (λ c. not (is_delimiter c)) (drop_while is_delimiter l), r)

word_start-nil : word_start (indices_from 0 (from_left [])) ≡ at []
unfolding word_start indices_from from_left rfind len
word_start-nil = refl

word_start-drop :
    (l : Text)
    → word_start (indices_from 0 (from_left l)) ≡ at (drop_while (λ c. not (is_delimiter c)) l)
unfolding word_start drop_while
word_start-drop [] = word_start-nil
word_start-drop (c ∷ l) = elim (Bool-cases (is_delimiter c)) [
  | inl e ↦ rw (rfind-cons delimits c l, e) (sym (at-cons c l))
  | inr e ↦ rw (rfind-cons delimits c l, e) (word_start-drop l)
]

last_end : Text → Option ℕ
last_end [] = none
last_end (c ∷ l) = some (at (c ∷ l))

word_end-nil : word_end (from_left []) ≡ none
unfolding word_end from_left indices_from rfind
word_end-nil = refl

word_end-last : (l : Text) → word_end (from_left l) ≡ last_end (drop_while is_delimiter l)
unfolding word_end drop_while last_end
word_end-last [] = word_end-nil
word_end-last (c ∷ l) = elim (Bool-cases (is_delimiter c)) [
  | inl e ↦ rw (rfind-cons in_word c l, e) (word_end-last l)
  | inr e ↦ rw (rfind-cons in_word c l, e) (ap some (sym (at-cons c l)))
]

front_cons :
    (p : ℕ → Bool) (c : ℕ) (l rest : Text)
    → from_left l ≡ from_left (drop_while p l) ++ rest
    → from_left (c ∷ l) ≡ from_left (drop_while p l) ++ (rest ++ c ∷ [])
unfolding from_left
front_cons p c l rest e =
    ap (λ t. t ++ c ∷ []) e ∙ append_assoc (from_left (drop_while p l)) rest (c ∷ [])

front_left :
    (p : ℕ → Bool) (l : Text) → (rest : Text) × (from_left l ≡ from_left (drop_while p l) ++ rest)
unfolding drop_while
front_left p [] = ([], sym (append-nil (from_left [])))
front_left p (c ∷ l) =
    let (rest, e) = front_left p l in
    elim (Bool-cases (p c)) [
      | inl h ↦ rw (h) (rest ++ c ∷ [], front_cons p c l rest e)
      | inr h ↦ rw (h) ([], sym (append-nil (from_left (c ∷ l))))
    ]

cut_to-front :
    (l front rest r : Text)
    → from_left l ≡ from_left front ++ rest
    → cut_to (at front) (at l) (from_left l ++ r) ≡ some (shown (front, r))
unfolding cut_to cut_range
cut_to-front l front rest r e = rw (split-at l r) (rw (e, split-at front rest) refl)

delete_word_start : (t : Text) → delete_word t (at []) ≡ some (t, at [])
unfolding delete_word from_left len
delete_word_start t = refl

delete_word_step :
    (t : Text) (n k : ℕ)
    → n ≡ suc k
    → delete_word t n ≡ (split_at t n >>= λ (b, a). cut_word (word_end b) b n t)
unfolding delete_word
delete_word_step t n k e = let f : (suc k == 0) ≡ false = ground arith in rw (e, f) refl

cut_all : (l r : Text) → cut_to 0 (at l) (from_left l ++ r) ≡ some (shown ([], r))
unfolding from_left len
cut_all l r = cut_to-front l [] (from_left l) r refl

cut_all-nil :
    (l r : Text)
    → cut_to 0 (at l) (from_left l ++ r)
      ≡ some (shown (drop_while (λ c. not (is_delimiter c)) [], r))
unfolding drop_while
cut_all-nil l r = cut_all l r

cut_word-without :
    (l r m : Text)
    → drop_while is_delimiter l ≡ m
    → cut_word (last_end m) (from_left l) (at l) (from_left l ++ r)
      ≡ some (shown (drop_while (λ c. not (is_delimiter c)) m, r))
unfolding last_end
cut_word-without l r [] e = cut_all-nil l r
cut_word-without l r (d ∷ m) e =
    let (rest, h) = front_left is_delimiter l in
    let (more, g) = front_left (λ c. not (is_delimiter c)) (d ∷ m) in
    let h2 : from_left l ≡ from_left (d ∷ m) ++ rest = h ∙ ap (λ x. from_left x ++ rest) e in
    let split : split_at (from_left l) (at (d ∷ m)) ≡ some (from_left (d ∷ m), rest) =
      ap (λ t. split_at t (at (d ∷ m))) h2 ∙ split-at (d ∷ m) rest in
    let whole : from_left l
        ≡ from_left (drop_while (λ c. not (is_delimiter c)) (d ∷ m)) ++ (more ++ rest) =
      h2
      ∙ (ap (λ x. x ++ rest) g
          ∙ append_assoc (from_left (drop_while (λ c. not (is_delimiter c)) (d ∷ m))) more rest) in
    rw (split, word_start-drop (d ∷ m))
      (cut_to-front l (drop_while (λ c. not (is_delimiter c)) (d ∷ m)) (more ++ rest) r whole)

delete_word_nil :
    (r : Text) → delete_word (from_left [] ++ r) (at []) ≡ some (shown (without_word ([], r)))
unfolding drop_while
delete_word_nil r = delete_word_start (from_left [] ++ r)

pub delete_word-without :
    (l r : Text) → delete_word (from_left l ++ r) (at l) ≡ some (shown (without_word (l, r)))
delete_word-without [] r = delete_word_nil r
delete_word-without (c ∷ l) r =
    delete_word_step (from_left (c ∷ l) ++ r) (at (c ∷ l)) (at l + len_utf8 c - 1) (at-suc c l)
    ∙ rw (split-at (c ∷ l) r, word_end-last (c ∷ l))
        (cut_word-without (c ∷ l) r (drop_while is_delimiter (c ∷ l)) refl)
