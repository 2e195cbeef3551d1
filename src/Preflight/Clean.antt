-- ===== src/Preflight/Clean.antt =====
-- src/engines/preflight.rs: a run that does not keep its output leaves nothing behind.
use dfdisk.Prelude.{◌≡◌, true, Text}
use dfdisk.Prelude.Results.{ok, err}
use dfdisk.Preflight.Guard.{
  Names, FileSystem, missing_dirs, Refusing, OutputGuard, drop_output, Prepared, new_output,
}
use dfdisk.Preflight.Trees.{is_tree}

-- What is left when the guard of a run that keeps nothing is dropped; an error has dropped it.
unfoldable pub left_by : Prepared → FileSystem
left_by (fs, ok g) = drop_output g fs
left_by (fs, err e) = fs

module _ (refusing : Refusing) (dir : Names) (base : Text) (fs : FileSystem)
    (tree : is_tree fs ≡ true) where
  guard : OutputGuard
  guard = new_output dir base (missing_dirs dir fs)
