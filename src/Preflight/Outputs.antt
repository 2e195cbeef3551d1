-- ===== src/Preflight/Outputs.antt =====
-- src/engines/preflight.rs: the outputs of an earlier run in the way of a new one. A directory is the
-- list of its entries, each with what the operating system says of it; the Unicode tables of case
-- are parameters.
use dfdisk.Prelude.{
  ℕ, Bool, true, false, not, ◌&&◌, ◌||◌, Option, none, some, List, [], ◌∷◌, ◌++◌, map, ltb, ◌==◌,
  if◌then◌else◌, is_empty, Text, codes, same_text, strip_prefix,
}
use dfdisk.Prelude.Results.{Result, ok, err, ◌>>=◌, ◌>>◌, refuse_if, ok_or}
use dfdisk.Prelude.Members.{keep}
use dfdisk.Errors.{AcquisitionError, refused_error, usage_error}
use dfdisk.Str.{is_ascii_digit, all_chars}
use dfdisk.Preflight.{one_of, occupied_bytes}

pub data FileType : Type 0 where
  regular_file directory symlink other_file : FileType

pub record Entry : Type 0 where
  pub file_name : Text
  -- `symlink_metadata`
  pub file_type : Option FileType
  -- `canonicalize`
  pub canonical : Option Text
  -- `metadata`: the length and the blocks allocated
  pub extent : Option (ℕ × ℕ)

pub data Hint : Type 0 where
  no_serial own_files_only other_number : Hint

pub data OutputMessage : Type 0 where
  already_exists : List Text → Hint → OutputMessage
  cannot_inspect not_a_regular_file the_source_itself : Text → OutputMessage
  map_missing map_empty image_missing : OutputMessage

-- `strip_suffix`
unfoldable pub strip_suffix : Text → Text → Option Text
strip_suffix suffix [] = if is_empty suffix then some [] else none
strip_suffix suffix (c ∷ cs) =
    let rest = strip_suffix suffix cs in
    if same_text (c ∷ cs) suffix then some [] else elim rest [ none ↦ none | some s ↦ some (c ∷ s) ]

unfoldable pub numbered : Text → Bool
numbered rest = not (is_empty rest) && all_chars is_ascii_digit rest

-- `is_some_and(numbered)`
unfoldable pub is_numbered : Option Text → Bool
is_numbered none = false
is_numbered (some s) = numbered s

abbrev pub resumed_suffixes : List Text
resumed_suffixes =
    codes ".raw"
    ∷ codes ".map"
    ∷ codes ".map.bak"
    ∷ codes ".identity.json"
    ∷ codes ".identity.json.tmp"
    ∷ codes ".info"
    ∷ codes ".info.tmp"
    ∷ codes ".info.json"
    ∷ codes ".info.json.tmp"
    ∷ codes ".info.reserve"
    ∷ codes ".smart-before.json"
    ∷ codes ".smart-after.json"
    ∷ []

-- What follows `.zeroed-`, if the suffix starts so.
unfoldable pub zeroed_suffix : Text → Bool
zeroed_suffix suffix = elim (strip_prefix (codes ".zeroed-") suffix) [
  | none ↦ false
  | some rest ↦
      is_numbered (strip_suffix (codes ".bin") rest)
      || is_numbered (strip_suffix (codes ".tsv") rest)
]

unfoldable pub smart_number : Text → Text → Option Text
smart_number kind suffix = elim (strip_prefix kind suffix) [
  | none ↦ none
  | some r ↦ strip_suffix (codes ".json") r
]

unfoldable pub smart_suffix : List Text → Text → Bool
smart_suffix [] suffix = zeroed_suffix suffix
smart_suffix (kind ∷ kinds) suffix = elim (smart_number kind suffix) [
  | none ↦ smart_suffix kinds suffix
  | some n ↦ numbered n
]

unfoldable pub resumed_suffix : Text → Bool
resumed_suffix suffix =
    if one_of suffix resumed_suffixes
    then true
    else elim (strip_prefix (codes ".info.session-") suffix) [
      | none ↦ smart_suffix (codes ".smart-before-" ∷ codes ".smart-after-" ∷ []) suffix
      | some n ↦ numbered n || is_numbered (strip_suffix (codes ".json") n)
    ]

-- `sort` of the paths of one directory, by their names.
unfoldable pub text_le : Text → Text → Bool
text_le [] t = true
text_le (a ∷ s) [] = false
text_le (a ∷ s) (b ∷ t) = ltb a b || a == b && text_le s t

unfoldable pub insert_entry : Entry → List Entry → List Entry
insert_entry e [] = e ∷ []
insert_entry e (f ∷ fs) =
    let rest = insert_entry e fs in if text_le e.file_name f.file_name then e ∷ f ∷ fs else f ∷ rest

unfoldable pub sort_entries : List Entry → List Entry
sort_entries [] = []
sort_entries (e ∷ es) = insert_entry e (sort_entries es)

abbrev pub Outputs : Type 0 → Type 0
Outputs A = Result (AcquisitionError OutputMessage) A

-- `meta.file_type().is_symlink() || !meta.is_file()`
abbrev pub is_file : FileType → Bool
is_file regular_file = true
is_file _ = false

abbrev pub is_some : Option Text → Bool
is_some none = false
is_some (some _) = true

abbrev pub same_path : Option Text → Option Text → Bool
same_path (some a) (some b) = same_text a b
same_path _ _ = false

-- The body of the loop over the files that are kept: the name, whether it is the source, the type.
unfoldable pub check_type : Text → Bool → Option FileType → Outputs (Unit {0})
check_type name is_source none = err (refused_error (cannot_inspect name))
check_type name is_source (some t) = do
  refuse_if (not (is_file t)) (refused_error (not_a_regular_file name))
  refuse_if is_source (refused_error (the_source_itself name))

abbrev pub check_kept_entry : Option Text → Entry → Outputs (Unit {0})
check_kept_entry source_canonical e =
    check_type e.file_name (same_path source_canonical e.canonical) e.file_type

unfoldable pub check_kept : Option Text → List Entry → Outputs (Unit {0})
check_kept source_canonical [] = ok tt
check_kept source_canonical (e ∷ es) =
    check_kept_entry source_canonical e >> check_kept source_canonical es

-- `map(|m| m.len()).unwrap_or(0)`
abbrev pub len_in : Option (ℕ × ℕ) → ℕ
len_in none = 0
len_in (some (len, blocks)) = len

abbrev pub occupied_in : Option (ℕ × ℕ) → ℕ
occupied_in none = 0
occupied_in (some (len, blocks)) = occupied_bytes len blocks

module _ (to_lowercase to_uppercase : Text → Text) where
  abbrev pub prefix_of : Text → Text
  prefix_of base_name = to_lowercase base_name ++ 46 ∷ []

  -- The test of `existing_outputs`.
  unfoldable pub belongs : Text → Entry → Bool
  belongs base_name e = is_some (strip_prefix (prefix_of base_name) (to_lowercase e.file_name))

  unfoldable pub existing_outputs : List Entry → Text → List Entry
  existing_outputs dir base_name = sort_entries (keep (belongs base_name) dir)

  unfoldable pub output_suffix : Text → Text → Option Text
  output_suffix base_name file_name =
      elim (strip_prefix (prefix_of base_name) (to_lowercase file_name)) [
        | none ↦ none
        | some s ↦ some (46 ∷ s)
      ]

  unfoldable pub resume_may_exist : Text → Text → Bool
  resume_may_exist base_name file_name = elim (output_suffix base_name file_name) [
    | none ↦ false
    | some suffix ↦ resumed_suffix suffix
  ]

  unfoldable pub hint : Text → Bool → Hint
  hint base_name resume_rescue =
      if is_some (strip_suffix (codes "_NOSERIAL") (to_uppercase base_name))
      then no_serial
      else if resume_rescue
      then own_files_only
      else other_number

  unfoldable pub check_existing_outputs :
      List Entry → Text → Bool → Option Text → Outputs (List Entry)
  check_existing_outputs dir base_name resume_rescue source_canonical =
      let found = existing_outputs dir base_name in
      let may_stay : Entry → Bool = λ e. resume_rescue && resume_may_exist base_name e.file_name in
      let kept = keep may_stay found in
      let blocking = keep (λ e. not (may_stay e)) found in
      do
        refuse_if (not (is_empty blocking)) (
            refused_error (
              already_exists (map (λ (e : Entry). e.file_name) blocking)
                (hint base_name resume_rescue)))
        check_kept source_canonical kept
        ok kept

  unfoldable pub has_suffix : Text → Text → Entry → Bool
  has_suffix base_name suffix e = same_path (output_suffix base_name e.file_name) (some suffix)

  -- `find` of `check_resume_files`
  unfoldable pub find_output : Text → Text → List Entry → Option Entry
  unfolding has_suffix
  find_output base_name suffix [] = none
  find_output base_name suffix (e ∷ es) =
      if has_suffix base_name suffix e then some e else find_output base_name suffix es

  unfoldable pub check_resume_files : List Entry → Text → Outputs ℕ
  check_resume_files dir base_name =
      let found = existing_outputs dir base_name in
      do
        map_file ← ok_or (find_output base_name (codes ".map") found) (usage_error map_missing)
        refuse_if (len_in map_file.extent == 0) (usage_error map_empty)
        image ← ok_or (find_output base_name (codes ".raw") found) (usage_error image_missing)
        ok (occupied_in image.extent)
