-- ===== src/Progress/Lasting.antt =====
-- src/engines/progress.rs: the last lines of a log, however it is cut and put together.
use dfdisk.Prelude.{
  ℕ, zero, suc, ◌+◌, ◌-◌, ◌≤◌, ◌<◌, min, ◌≡◌, refl, sym, ap, ◌∙◌, inl, inr, false, List, [], ◌∷◌,
  ◌++◌, arith, ltb, Bool-cases, Text, length, drop, length-append, length-drop,
}
use dfdisk.Progress.{max_log_lines, cap_log}

module _ {A : Type 0} where
  drop-nil : (k : ℕ) → drop {A = A} k [] ≡ []
  drop-nil zero = refl
  drop-nil (suc k) = refl

  drop-drop : (a b : ℕ) (xs : List A) → drop b (drop a xs) ≡ drop (a + b) xs
  drop-drop zero b xs = let e : 0 + b ≡ b = omega arith in rw (e) (refl)
  drop-drop (suc a) b (x ∷ xs) =
      let e : suc a + b ≡ suc (a + b) = omega arith in rw (e) (drop-drop a b xs)
  drop-drop (suc a) b [] = let e : suc a + b ≡ suc (a + b) = omega arith in rw (e) (drop-nil b)

  drop-append_front : (k : ℕ) (xs ys : List A) → k ≤ length xs → drop k (xs ++ ys) ≡ drop k xs ++ ys
  drop-append_front zero xs ys h = refl
  drop-append_front (suc k) [] ys h = ground (arith, h)
  drop-append_front (suc k) (x ∷ xs) ys h = drop-append_front k xs ys (omega arith)

  drop-append_back : (k : ℕ) (xs ys : List A) → drop (length xs + k) (xs ++ ys) ≡ drop k ys
  drop-append_back k [] ys = let e : 0 + k ≡ k = omega arith in rw (e) (refl)
  drop-append_back k (x ∷ xs) ys =
      let e : suc (length xs) + k ≡ suc (length xs + k) = omega arith in
      rw (e) (drop-append_back k xs ys)

cap_log-drop : (xs : List Text) → cap_log xs ≡ drop (length xs - max_log_lines) xs
unfolding cap_log
cap_log-drop xs = elim (Bool-cases (ltb max_log_lines (length xs))) [
  | inl e ↦ rw (e) (refl)
  | inr e ↦
      let none_over : length xs - max_log_lines ≡ 0 = ground (arith, e) in rw (e, none_over) (refl)
]

pub length-cap_log : (xs : List Text) → length (cap_log xs) ≡ min (length xs) max_log_lines
length-cap_log xs = rw (cap_log-drop xs) (omega (arith, length-drop (length xs - max_log_lines) xs))

cap_log-short : (xs : List Text) → length xs ≤ max_log_lines → cap_log xs ≡ xs
unfolding cap_log
cap_log-short xs h =
    let fits : ltb max_log_lines (length xs) ≡ false = ground (arith, h) in rw (fits) (refl)

-- What was cut off in front is cut off anyway.
pub cap_log-append_front : (xs ys : List Text) → cap_log (cap_log xs ++ ys) ≡ cap_log (xs ++ ys)
cap_log-append_front xs ys = elim (Bool-cases (ltb max_log_lines (length xs))) [
  | inl long ↦
      let a = length xs - max_log_lines in
      let over : max_log_lines < length xs = ground (arith, long) in
      let lhs : length (drop a xs ++ ys) - max_log_lines ≡ length ys =
        omega (arith, over, length-append (drop a xs) ys, length-drop a xs) in
      let rhs : a + length ys ≡ length (xs ++ ys) - max_log_lines =
        omega (arith, over, length-append xs ys) in
      ap (λ l. cap_log (l ++ ys)) (cap_log-drop xs)
      ∙ (cap_log-drop (drop a xs ++ ys)
          ∙ (ap (λ k. drop k (drop a xs ++ ys)) lhs
              ∙ (ap (drop (length ys)) (sym (drop-append_front a xs ys (omega arith)))
                  ∙ (drop-drop a (length ys) (xs ++ ys)
                      ∙ (ap (λ k. drop k (xs ++ ys)) rhs ∙ sym (cap_log-drop (xs ++ ys)))))))
  | inr short ↦ ap (λ l. cap_log (l ++ ys)) (cap_log-short xs (ground (arith, short)))
]

pub cap_log-append_back : (xs ys : List Text) → cap_log (xs ++ cap_log ys) ≡ cap_log (xs ++ ys)
cap_log-append_back xs ys = elim (Bool-cases (ltb max_log_lines (length ys))) [
  | inl long ↦
      let b = length ys - max_log_lines in
      let over : max_log_lines < length ys = ground (arith, long) in
      let lhs : length (xs ++ drop b ys) - max_log_lines ≡ length xs + 0 =
        omega (arith, over, length-append xs (drop b ys), length-drop b ys) in
      let rhs : length xs + b ≡ length (xs ++ ys) - max_log_lines =
        omega (arith, over, length-append xs ys) in
      ap (λ l. cap_log (xs ++ l)) (cap_log-drop ys)
      ∙ (cap_log-drop (xs ++ drop b ys)
          ∙ (ap (λ k. drop k (xs ++ drop b ys)) lhs
              ∙ (drop-append_back 0 xs (drop b ys)
                  ∙ (sym (drop-append_back b xs ys)
                      ∙ (ap (λ k. drop k (xs ++ ys)) rhs ∙ sym (cap_log-drop (xs ++ ys)))))))
  | inr short ↦ ap (λ l. cap_log (xs ++ l)) (cap_log-short ys (ground (arith, short)))
]
