-- ===== src/Preflight/Guard.antt =====
-- src/engines/preflight.rs: the guard of the output directory with its reservation, and the reservation
-- file of src/models/info_report.rs. The file system is the list of the entries that exist below its
-- root; a path is its names, the innermost first. What the operating system refuses is an argument.
use dfdisk.Prelude.{
  ℕ, ◌-◌, Bool, true, false, not, ◌&&◌, ◌||◌, Option, none, some, List, [], ◌∷◌, ◌++◌,
  if◌then◌else◌, Text, codes, same_text, length, drop,
}
use dfdisk.Prelude.Results.{Result, ok, err}
use dfdisk.Prelude.Members.{keep}
use dfdisk.Errors.{AcquisitionError, refused_error}

abbrev pub Names : Type 0
Names = List Text

abbrev pub FileSystem : Type 0
FileSystem = List Names

unfoldable pub same_names : Names → Names → Bool
same_names [] [] = true
same_names (a ∷ p) (b ∷ q) = same_text a b && same_names p q
same_names _ _ = false

-- `symlink_metadata(p).is_ok()`, below the root
unfoldable pub exists : Names → FileSystem → Bool
exists p [] = false
exists p (q ∷ fs) = same_names p q || exists p fs

unfoldable pub is_child : Names → Names → Bool
is_child dir [] = false
is_child dir (name ∷ parent) = same_names parent dir

unfoldable pub has_child : Names → FileSystem → Bool
has_child dir [] = false
has_child dir (q ∷ fs) = is_child dir q || has_child dir fs

-- `remove_file`, which a missing file does not fail here
unfoldable pub delete : Names → FileSystem → FileSystem
delete p fs = keep (λ q. not (same_names p q)) fs

-- `remove_dir`, whose errors are ignored: only an empty directory goes.
unfoldable pub remove_dir : Names → FileSystem → FileSystem
remove_dir dir fs = if exists dir fs && not (has_child dir fs) then delete dir fs else fs

-- `missing_dirs`, the innermost first
unfoldable pub missing_dirs : Names → FileSystem → List Names
missing_dirs [] fs = []
missing_dirs (name ∷ parent) fs =
    let outer = missing_dirs parent fs in
    if exists (name ∷ parent) fs then [] else (name ∷ parent) ∷ outer

unfoldable pub reserve_path : Names → Text → Names
reserve_path dir base = (base ++ codes ".info.reserve") ∷ dir

-- What fails: `create_dir_all` after that many of the missing directories, the outermost first; the
-- removal of a stale reservation; the reservation, for want of space or another reason.
pub record Refusing : Type 0 where
  pub directories : Option ℕ
  pub stale_removal : Bool
  pub reservation : Bool

pub data GuardMessage : Type 0 where
  no_directory no_stale_removal no_reservation : Names → GuardMessage

pub record OutputGuard : Type 0 where
  pub dir : Names
  pub base : Text
  -- the innermost first
  pub created_dirs : List Names
  pub reserve : Option Names
  pub keep_dirs : Bool

unfoldable pub remove_dirs : List Names → FileSystem → FileSystem
remove_dirs [] fs = fs
remove_dirs (d ∷ ds) fs = remove_dirs ds (remove_dir d fs)

-- `remove_reserve_file`, with a guard that made one
unfoldable pub remove_reserve : OutputGuard → FileSystem → FileSystem
remove_reserve g fs = elim g.reserve [ none ↦ fs | some p ↦ delete (reserve_path g.dir g.base) fs ]

-- `impl Drop for OutputGuard`
unfoldable pub drop_output : OutputGuard → FileSystem → FileSystem
drop_output g fs =
    let fs = remove_reserve g fs in if g.keep_dirs then fs else remove_dirs g.created_dirs fs

-- The directories that `create_dir_all` has made when it fails, or at its end.
unfoldable pub made_dirs : Option ℕ → List Names → List Names
made_dirs none missing = missing
made_dirs (some n) missing = drop (length missing - n) missing

abbrev pub Prepared : Type 0
Prepared = FileSystem × Result (AcquisitionError GuardMessage) OutputGuard

-- The reservation, and the end of `prepare_output`.
unfoldable pub reserve_output : Refusing → OutputGuard → FileSystem → Prepared
reserve_output refusing g fs =
    let path = reserve_path g.dir g.base in
    if exists path fs || refusing.reservation
    then (drop_output g fs, err (refused_error (no_reservation path)))
    else (path ∷ fs, ok (record g { reserve = some path }))

unfoldable pub remove_stale : Refusing → Bool → OutputGuard → FileSystem → Prepared
remove_stale refusing stale_reserve_ok g fs =
    if not stale_reserve_ok
    then reserve_output refusing g fs
    else if refusing.stale_removal
    then (drop_output g fs, err (refused_error (no_stale_removal g.dir)))
    else reserve_output refusing g (delete (reserve_path g.dir g.base) fs)

unfoldable pub new_output : Names → Text → List Names → OutputGuard
new_output dir base created = record {
  dir = dir;
  base = base;
  created_dirs = created;
  reserve = none;
  keep_dirs = false;
}

-- An error drops the guard.
unfoldable pub after_dirs : Refusing → Bool → OutputGuard → Option ℕ → FileSystem → Prepared
after_dirs refusing stale_reserve_ok g none fs = remove_stale refusing stale_reserve_ok g fs
after_dirs refusing stale_reserve_ok g (some n) fs =
    (drop_output g fs, err (refused_error (no_directory g.dir)))

unfoldable pub prepare_output : Refusing → Names → Text → Bool → FileSystem → Prepared
prepare_output refusing dir base stale_reserve_ok fs =
    let missing = missing_dirs dir fs in
    after_dirs refusing stale_reserve_ok (new_output dir base missing) refusing.directories
      (made_dirs refusing.directories missing ++ fs)
