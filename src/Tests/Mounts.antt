-- ===== src/Tests/Mounts.antt =====
-- The mount of src/engines/preflight.rs that holds a path, among stacked mounts.
use dfdisk.Prelude.{same_text, some, [], ◌∷◌, List, Text, codes, false}
use dfdisk.Preflight.Mounts.{
  MountFacts, Chosen, mount_containing, best_of, better, starts_with, mount_containing-Chosen,
}

abbrev mounted : List Text → Text → MountFacts
mounted at name = record {
  mount_point = at;
  fs_type = codes "ext4";
  source = name;
  dev = (8, 1);
  read_only = false;
}

abbrev upper : MountFacts
upper = mounted (codes "mnt" ∷ []) (codes "/dev/sdc1")

abbrev some_mounts : List MountFacts
some_mounts =
    mounted [] (codes "/dev/sda1")
    ∷ mounted (codes "mnt" ∷ []) (codes "/dev/sdb1")
    ∷ upper
    ∷ mounted (codes "mnt2" ∷ []) (codes "/dev/sdd1")
    ∷ []

abbrev case_dir : List Text
case_dir = codes "mnt" ∷ codes "case" ∷ []

mount_containing-Chosen_example : Chosen case_dir some_mounts (some upper)
unfolding mount_containing best_of better starts_with same_text
mount_containing-Chosen_example = mount_containing-Chosen some_mounts case_dir
