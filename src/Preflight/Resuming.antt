-- ===== src/Preflight/Resuming.antt =====
-- src/engines/preflight.rs: what a resumed rescue finds of its image.
use dfdisk.Prelude.{
  ℕ, ◌*◌, ◌≤◌, ◌<◌, ◌≡◌, refl, ap, ◌⊎◌, inl, inr, Bool, true, false, Option, none, some, List, [],
  ◌∷◌, arith, ◌==◌, if◌then◌else◌, Bool-cases, Text, codes, same_text_iff, saturating_mul,
}
use dfdisk.Prelude.Results.{ok, refuse_if, ok_or, >>=-eq-ok}
use dfdisk.Prelude.Members.{keep, Member, Member-keep}
use dfdisk.Preflight.{occupied_bytes}
use dfdisk.Preflight.Outputs.{
  Entry, map_missing, map_empty, image_missing, belongs, existing_outputs, find_output, has_suffix,
  output_suffix, len_in, occupied_in, check_resume_files, same_path,
}
use dfdisk.Preflight.Overwriting.{Member-sort_entries}
use dfdisk.Errors.{usage_error}

occupied_bytes-le :
    (len blocks : ℕ)
    → (occupied_bytes len blocks ≤ len)
      × ((blocks ≡ 0) ⊎ (occupied_bytes len blocks ≤ blocks * 512))
unfolding occupied_bytes
occupied_bytes-le len blocks = elim (Bool-cases (saturating_mul blocks 512 == 0)) [
  | inl z ↦ rw (z) (ground arith)
  | inr z ↦ rw (z) (ground arith)
]

abbrev pub blocks_in : Option (ℕ × ℕ) → ℕ
blocks_in none = 0
blocks_in (some (len, blocks)) = blocks

-- What is occupied is bounded by the length and by the blocks.
occupied_in-le :
    (o : Option (ℕ × ℕ))
    → (occupied_in o ≤ len_in o) × ((blocks_in o ≡ 0) ⊎ (occupied_in o ≤ blocks_in o * 512))
occupied_in-le none = ground arith
occupied_in-le (some (len, blocks)) = occupied_bytes-le len blocks

first_or :
    {f e : Entry} (b : Bool) (rest : Option Entry)
    → (if b then some f else rest) ≡ some e
    → ((b ≡ true) × (e ≡ f)) ⊎ ((b ≡ false) × (rest ≡ some e))
first_or true rest h = inl (refl, cc)
first_or false rest h = inr (refl, h)

ok_or-eq-ok : {E A : Type 0} (o : Option A) (e : E) {a : A} → ok_or o e ≡ ok a → o ≡ some a
ok_or-eq-ok none e h = cc
ok_or-eq-ok (some b) e h = cc

refuse_if-eq-ok : {E : Type 0} (b : Bool) (e : E) {u : Unit {0}} → refuse_if b e ≡ ok u → b ≡ false
refuse_if-eq-ok true e h = cc
refuse_if-eq-ok false e h = refl

same_path-eq : (o : Option Text) (t : Text) → same_path o (some t) ≡ true → o ≡ some t
same_path-eq none t h = cc
same_path-eq (some s) t h = ap some ((same_text_iff s t).0 h)

module _ (to_lowercase to_uppercase : Text → Text) where
  find_output-found :
      (base_name suffix : Text) (es : List Entry) (e : Entry)
      → find_output to_lowercase to_uppercase base_name suffix es ≡ some e
      → Member e es × (output_suffix to_lowercase to_uppercase base_name e.file_name ≡ some suffix)
  unfolding find_output has_suffix Member
  find_output-found base_name suffix [] e h = cc
  find_output-found base_name suffix (f ∷ fs) e h =
      elim (first_or (has_suffix to_lowercase to_uppercase base_name suffix f) _ h) [
        | inl (y, same) ↦ rw (same) (
          inl refl,
          same_path-eq (output_suffix to_lowercase to_uppercase base_name f.file_name) suffix y,
        )
        | inr (n, rest) ↦ let (m, s) = find_output-found base_name suffix fs e rest in (inr m, s)
      ]

  existing_outputs-Member :
      (dir : List Entry) (base_name : Text) (e : Entry)
      → Member e (existing_outputs to_lowercase to_uppercase dir base_name)
      → Member e dir
  unfolding existing_outputs
  existing_outputs-Member dir base_name e m =
      let p = belongs to_lowercase to_uppercase base_name in
      ((Member-keep p e dir).0 ((Member-sort_entries e (keep p dir)).0 m)).1

  -- Where a rescue may be resumed, the directory holds its map, which is not empty, and its image; the
  -- bytes that the image occupies are at most its length, and at most its blocks if it reports any.
  pub check_resume_files-found :
      (dir : List Entry) (base_name : Text) (n : ℕ)
      → check_resume_files to_lowercase to_uppercase dir base_name ≡ ok n
      → (map_file image : Entry) × Member map_file dir
        × Member image dir
        × (output_suffix to_lowercase to_uppercase base_name map_file.file_name
            ≡ some (codes ".map"))
        × (output_suffix to_lowercase to_uppercase base_name image.file_name ≡ some (codes ".raw"))
        × (0 < len_in map_file.extent)
        × (n ≤ len_in image.extent)
        × ((blocks_in image.extent ≡ 0) ⊎ (n ≤ blocks_in image.extent * 512))
  unfolding check_resume_files
  check_resume_files-found dir base_name n h =
      let found = existing_outputs to_lowercase to_uppercase dir base_name in
      let find : Text → Option Entry =
        λ suffix. find_output to_lowercase to_uppercase base_name suffix found in
      let (map_file, got_map, rest) =
        >>=-eq-ok (ok_or (find (codes ".map")) (usage_error map_missing)) _ h in
      let (u, filled, rest) =
        >>=-eq-ok (refuse_if (len_in map_file.extent == 0) (usage_error map_empty)) _ rest in
      let (image, got_image, last) =
        >>=-eq-ok (ok_or (find (codes ".raw")) (usage_error image_missing)) _ rest in
      let (map_in, map_named) =
        find_output-found base_name (codes ".map") found map_file
          (ok_or-eq-ok (find (codes ".map")) (usage_error map_missing) got_map) in
      let (image_in, image_named) =
        find_output-found base_name (codes ".raw") found image
          (ok_or-eq-ok (find (codes ".raw")) (usage_error image_missing) got_image) in
      let full = refuse_if-eq-ok (len_in map_file.extent == 0) (usage_error map_empty) filled in
      let size : n ≡ occupied_in image.extent = cc in
      (
        map_file,
        image,
        existing_outputs-Member dir base_name map_file map_in,
        existing_outputs-Member dir base_name image image_in,
        map_named,
        image_named,
        ground (arith, full),
        ground (arith, size, occupied_in-le image.extent),
        ground (arith, size, occupied_in-le image.extent),
      )
