-- ===== src/Input.antt =====
-- src/tui/input.rs: the editing keys of a text field. A text is its code points, a cursor a byte
-- offset into its UTF-8; an index inside a character, where Rust panics, gives none.
pub mod Fields
mod Keys
mod Words
mod Cursor
pub mod Edited
use dfdisk.Prelude.{
  ℕ, zero, suc, ◌+◌, ◌-◌, ◌*◌, ◌≡◌, min, Bool, true, false, not, ◌&&◌, ◌||◌, Option, none, some,
  List, [], ◌∷◌, ◌++◌, map, ltb, leb, ◌==◌, if◌then◌else◌, is_empty, Text,
}
use dfdisk.Prelude.Optional.{◌>>=◌, is_some, or}
use dfdisk.Str.{is_whitespace}

-- `char::len_utf8`
unfoldable pub len_utf8 : ℕ → ℕ
len_utf8 c = if ltb c 128 then 1 else if ltb c 2048 then 2 else if ltb c 65536 then 3 else 4

-- `str::len`, in bytes
unfoldable pub len : Text → ℕ
len [] = 0
len (c ∷ cs) = len_utf8 c + len cs

-- `str::split_at`: `&s[..i]` and `&s[i..]`
unfoldable pub split_at : Text → ℕ → Option (Text × Text)
split_at [] zero = some ([], [])
split_at [] (suc i) = none
split_at (c ∷ cs) zero = some ([], c ∷ cs)
split_at (c ∷ cs) (suc i) =
    if leb (len_utf8 c) (suc i)
    then (split_at cs (suc i - len_utf8 c) >>= λ (l, r). some (c ∷ l, r))
    else none

unfoldable pub is_char_boundary : Text → ℕ → Bool
unfolding split_at
is_char_boundary s i = is_some (split_at s i)

-- `String::insert`
unfoldable pub insert : ℕ → ℕ → Text → Option Text
unfolding split_at
insert i c s = do (l, r) ← split_at s i; some (l ++ c ∷ r)

abbrev pub remove_first : Text → Option Text
remove_first [] = none
remove_first (c ∷ cs) = some cs

-- `String::remove`, which panics at the end of the text
unfoldable pub remove : ℕ → Text → Option Text
unfolding split_at
remove i s = do (l, r) ← split_at s i; rest ← remove_first r; some (l ++ rest)

-- `replace_range(i..j, "")`
unfoldable pub cut_range : ℕ → ℕ → Text → Option Text
unfolding split_at
cut_range i j s = do (front, r) ← split_at s j; (l, cut) ← split_at front i; some (l ++ r)

-- `char_indices`, from the offset `i` on
unfoldable pub indices_from : ℕ → Text → List (ℕ × ℕ)
indices_from i [] = []
indices_from i (c ∷ cs) = (i, c) ∷ indices_from (i + len_utf8 c) cs

-- `rfind` of an iterator: the last element that passes
unfoldable pub rfind : (ℕ × ℕ → Bool) → List (ℕ × ℕ) → Option (ℕ × ℕ)
rfind p [] = none
rfind p (x ∷ xs) = or (rfind p xs) (if p x then some x else none)

unfoldable pub is_delimiter : ℕ → Bool
unfolding is_whitespace
is_delimiter c = is_whitespace c || c == b'/' || c == b'_'

-- The loop that moves the cursor back to the start of a character.
unfoldable pub align : Text → ℕ → ℕ
unfolding is_char_boundary
align s zero = zero
align s (suc n) = let rest = align s n in if is_char_boundary s (suc n) then suc n else rest

abbrev pub any : ℕ × ℕ → Bool
any x = true

abbrev pub delimits : ℕ × ℕ → Bool
delimits (i, c) = is_delimiter c

abbrev pub in_word : ℕ × ℕ → Bool
in_word (i, c) = not (is_delimiter c)

abbrev pub start_of : Option (ℕ × ℕ) → Option ℕ
start_of none = none
start_of (some (i, c)) = some i

abbrev pub end_of : Option (ℕ × ℕ) → Option ℕ
end_of none = none
end_of (some (i, c)) = some (i + len_utf8 c)

abbrev pub or_start : Option ℕ → ℕ
or_start none = 0
or_start (some i) = i

-- The end of the last delimiter, 0 without one.
unfoldable pub word_start : List (ℕ × ℕ) → ℕ
unfolding rfind
word_start chars = or_start (end_of (rfind delimits chars))

unfoldable pub cut_to : ℕ → ℕ → Text → Option (Text × ℕ)
unfolding cut_range
cut_to new_len cursor target = do rest ← cut_range new_len cursor target; some (rest, new_len)

-- The end of the last word, none without one.
unfoldable pub word_end : Text → Option ℕ
unfolding rfind indices_from
word_end before = end_of (rfind in_word (indices_from 0 before))

abbrev pub cut_word : Option ℕ → Text → ℕ → Text → Option (Text × ℕ)
cut_word none before cursor target = cut_to 0 cursor target
cut_word (some stop) before cursor target = do
  (before_word, after_word) ← split_at before stop
  cut_to (word_start (indices_from 0 before_word)) cursor target

-- The key `w` with Control
unfoldable pub delete_word : Text → ℕ → Option (Text × ℕ)
unfolding split_at word_end word_start
delete_word target cursor = if cursor == 0 then some (target, cursor) else do
  (before, after) ← split_at target cursor
  cut_word (word_end before) before cursor target

-- `KeyCode`, the codes that the function does not look at as one
pub data KeyCode : Type 0 where
  char : ℕ → KeyCode
  backspace delete left right home end other : KeyCode

pub record KeyEvent : Type 0 where
  pub code : KeyCode
  pub control : Bool
  pub alt : Bool

abbrev pub is_control : ℕ → Bool
is_control c = leb c 31 || leb 127 c && leb c 159

unfoldable pub control_key : KeyCode → Text → ℕ → Option (Text × ℕ)
unfolding delete_word
control_key (char c) target cursor =
    if c == b'u' || c == b'k'
    then some ([], 0)
    else if c == b'w'
    then delete_word target cursor
    else if c == b'a'
    then some (target, 0)
    else if c == b'e'
    then some (target, len target)
    else some (target, cursor)
control_key _ target cursor = some (target, cursor)

unfoldable pub insert_char : ℕ → Text → ℕ → Option (Text × ℕ)
unfolding insert len
insert_char c target cursor =
    if leb (len target) cursor
    then some (target ++ c ∷ [], len (target ++ c ∷ []))
    else do longer ← insert cursor c target; some (longer, cursor + len_utf8 c)

-- `char_indices().next_back()` of the text in front of the cursor
unfoldable pub previous : Text → ℕ → Option (Option ℕ)
unfolding rfind indices_from split_at
previous target cursor = do
  (before, after) ← split_at target cursor
  some (start_of (rfind any (indices_from 0 before)))

abbrev pub remove_at : Option ℕ → Text → ℕ → Option (Text × ℕ)
remove_at none target cursor = some (target, cursor)
remove_at (some i) target cursor = do rest ← remove i target; some (rest, i)

unfoldable pub delete_back : Text → ℕ → Option (Text × ℕ)
unfolding previous remove
delete_back target zero = some (target, 0)
delete_back target (suc n) = do found ← previous target (suc n); remove_at found target (suc n)

unfoldable pub delete_here : Text → ℕ → Option (Text × ℕ)
unfolding remove len
delete_here target cursor =
    if leb (len target) cursor
    then some (target, cursor)
    else do rest ← remove cursor target; some (rest, cursor)

unfoldable pub move_left : Text → ℕ → Option (Text × ℕ)
unfolding previous
move_left target zero = some (target, 0)
move_left target (suc n) = do found ← previous target (suc n); some (target, or_start found)

-- `char_indices().nth(1)`: the offset of the second character
abbrev pub second_index : List (ℕ × ℕ) → Option ℕ
second_index (x ∷ (i, c) ∷ more) = some i
second_index _ = none

abbrev pub step_to : Option ℕ → Text → ℕ → ℕ
step_to none target cursor = len target
step_to (some offset) target cursor = cursor + offset

unfoldable pub move_right : Text → ℕ → Option (Text × ℕ)
unfolding indices_from split_at len
move_right target cursor = if leb (len target) cursor then some (target, cursor) else do
  (before, after) ← split_at target cursor
  some (target, step_to (second_index (indices_from 0 after)) target cursor)

unfoldable pub plain_key : KeyCode → Text → ℕ → Option (Text × ℕ)
unfolding insert_char delete_back delete_here move_left move_right
plain_key (char c) target cursor =
    if is_control c then some (target, cursor) else insert_char c target cursor
plain_key backspace target cursor = delete_back target cursor
plain_key delete target cursor = delete_here target cursor
plain_key left target cursor = move_left target cursor
plain_key right target cursor = move_right target cursor
plain_key home target cursor = some (target, 0)
plain_key end target cursor = some (target, len target)
plain_key other target cursor = some (target, cursor)

-- The text and the cursor after the key
unfoldable pub edit_text : Text → ℕ → KeyEvent → Option (Text × ℕ)
unfolding control_key plain_key align
edit_text target cursor key =
    let at = align target (min cursor (len target)) in
    if key.control
    then control_key key.code target at
    else if key.alt
    then some (target, at)
    else plain_key key.code target at
