-- ===== src/Preflight/Overwriting.antt =====
-- src/engines/preflight.rs: no output of an earlier run is overwritten.
use dfdisk.Prelude.{
  ◌≡◌, refl, sym, ◌↔◌, ◌⊎◌, inl, inr, Bool, true, false, not, ◌&&◌, Option, none, some, List, [],
  ◌∷◌, arith, Bool-cases, is_empty, Text,
}
use dfdisk.Prelude.Results.{ok, err, ◌>>◌, refuse_if, >>=-eq-ok}
use dfdisk.Prelude.Members.{keep, Member, Member-keep}
use dfdisk.Errors.{AcquisitionError}
use dfdisk.Preflight.Outputs.{
  FileType, regular_file, directory, symlink, other_file, Entry, OutputMessage, insert_entry,
  sort_entries, text_le, Outputs, is_file, same_path, check_type, check_kept_entry, check_kept,
  belongs, existing_outputs, resume_may_exist, check_existing_outputs,
}

Member-insert_entry :
    (a e : Entry) (xs : List Entry) → Member a (insert_entry e xs) ↔ ((a ≡ e) ⊎ Member a xs)
unfolding Member insert_entry
Member-insert_entry a e [] = ground arith
Member-insert_entry a e (f ∷ fs) = elim (Bool-cases (text_le e.file_name f.file_name)) [
  | inl h ↦ rw (h) (ground arith)
  | inr h ↦ rw (h) (ground (arith, Member-insert_entry a e fs))
]

pub Member-sort_entries : (a : Entry) (xs : List Entry) → Member a (sort_entries xs) ↔ Member a xs
unfolding Member sort_entries
Member-sort_entries a [] = ground arith
Member-sort_entries a (x ∷ xs) =
    ground (arith, Member-insert_entry a x (sort_entries xs), Member-sort_entries a xs)

is_file_iff : (t : FileType) → (is_file t ≡ true) ↔ (t ≡ regular_file)
is_file_iff regular_file = ground arith
is_file_iff directory = ground arith
is_file_iff symlink = ground arith
is_file_iff other_file = ground arith

-- Nothing else than regular files other than the source is written to.
abbrev pub IsKeepable : Option Text → Entry → Type 0
IsKeepable source_canonical e =
    (e.file_type ≡ some regular_file) × (same_path source_canonical e.canonical ≡ false)

check_type-file :
    (name : Text) (is_source : Bool) (t : Option FileType)
    → check_type name is_source t ≡ ok tt
    → (t ≡ some regular_file) × (is_source ≡ false)
unfolding check_type
check_type-file name is_source none h = cc
check_type-file name true (some regular_file) h = cc
check_type-file name false (some regular_file) h = (refl, refl)
check_type-file name is_source (some directory) h = cc
check_type-file name is_source (some symlink) h = cc
check_type-file name is_source (some other_file) h = cc

check_kept-IsKeepable :
    (source_canonical : Option Text) (e : Entry) (es : List Entry)
    → check_kept source_canonical es ≡ ok tt
    → Member e es
    → IsKeepable source_canonical e
unfolding check_kept Member
check_kept-IsKeepable source_canonical e [] h m = ground (arith, m)
check_kept-IsKeepable source_canonical e (f ∷ fs) h m =
    let (u, first, rest) =
      >>=-eq-ok (check_kept_entry source_canonical f) (λ _. check_kept source_canonical fs) h in
    elim m [
      | inl same ↦
          rw (same)
            (check_type-file f.file_name (same_path source_canonical f.canonical) f.file_type first)
      | inr m ↦ check_kept-IsKeepable source_canonical e fs rest m
    ]

accepted_parts :
    (m : AcquisitionError OutputMessage) {blocking : List Entry} {check : Outputs (Unit {0})}
    {kept k : List Entry}
    → (do refuse_if (not (is_empty blocking)) m; check; ok kept) ≡ ok k
    → (blocking ≡ []) × (check ≡ ok tt) × (kept ≡ k)
accepted_parts m {blocking = []} {check = ok u} h = ground (arith, h)
accepted_parts m {blocking = []} {check = err e} h = cc
accepted_parts m {blocking = x ∷ xs} h = cc

not_in_nil : (e : Entry) → ¬ Member e []
unfolding Member
not_in_nil e m = m

-- No entry fails a test that none is kept for failing.
passes_all :
    (p : Entry → Bool) (e : Entry) (es : List Entry)
    → keep (λ f. not (p f)) es ≡ []
    → Member e es
    → p e ≡ true
passes_all p e es none_fails m = elim (Bool-cases (p e)) [
  | inl y ↦ y
  | inr n ↦
      let fails : (not (p e)) ≡ true = ground (arith, n) in
      let kept : Member e (keep (λ f. not (p f)) es) =
        (Member-keep (λ f. not (p f)) e es).1 (fails, m) in
      let absurd : Member e [] = rw (sym none_fails) (kept) in ground (arith, not_in_nil e, absurd)
]

module _ (to_lowercase to_uppercase : Text → Text) where
  -- If the check of the existing outputs accepts, every entry of the directory that belongs to the base
  -- name, in any case of letters, is among the files kept, and it is one that a resumed rescue may
  -- find, a regular file, not a symbolic link and not the source; and a rescue is being resumed.
  pub existing_output-kept :
      (dir : List Entry) (base_name : Text) (resume_rescue : Bool) (source_canonical : Option Text)
      (kept : List Entry) (e : Entry)
      → check_existing_outputs to_lowercase to_uppercase dir base_name resume_rescue
          source_canonical
        ≡ ok kept
      → Member e dir
      → belongs to_lowercase to_uppercase base_name e ≡ true
      → Member e kept
        × (resume_rescue ≡ true)
        × (resume_may_exist to_lowercase to_uppercase base_name e.file_name ≡ true)
        × (e.file_type ≡ some regular_file)
        × (same_path source_canonical e.canonical ≡ false)
  unfolding check_existing_outputs existing_outputs
  existing_output-kept dir base_name resume_rescue source_canonical kept e h m b =
      let found = existing_outputs to_lowercase to_uppercase dir base_name in
      let may_stay : Entry → Bool =
        λ f. resume_rescue && resume_may_exist to_lowercase to_uppercase base_name f.file_name in
      let there : Member e found =
        (Member-sort_entries e (keep (belongs to_lowercase to_uppercase base_name) dir)).1
          ((Member-keep (belongs to_lowercase to_uppercase base_name) e dir).1 (b, m)) in
      let (nothing, checked, same) = accepted_parts _ h in
      let stays : may_stay e ≡ true = passes_all may_stay e found nothing there in
      let among : Member e (keep may_stay found) =
        (Member-keep may_stay e found).1 (stays, there) in
      let (file, other) =
        check_kept-IsKeepable source_canonical e (keep may_stay found) checked among in
      (rw (sym same) (among), ground (arith, stays), ground (arith, stays), file, other)
