-- ===== src/Preflight/Trees.antt =====
-- src/engines/preflight.rs: the missing directories of an output, made and removed again.
use dfdisk.Prelude.{
  ℕ, zero, suc, ◌<◌, ◌≡◌, refl, ap, ◌∙◌, ◌≢◌, ◌↔◌, inl, inr, Bool, true, false, ◌&&◌, ◌||◌, [], ◌∷◌,
  ◌++◌, arith, Bool-cases, Text, same_text_iff, length, drop,
}
use dfdisk.Prelude.Members.{keep, all}
use dfdisk.Preflight.Guard.{
  Names, FileSystem, same_names, exists, is_child, has_child, delete, remove_dir, missing_dirs,
  remove_dirs,
}

-- The directory of an entry is the root, or an entry.
unfoldable pub has_parent : FileSystem → Names → Bool
has_parent fs [] = true
has_parent fs (name ∷ []) = true
has_parent fs (name ∷ n ∷ ns) = exists (n ∷ ns) fs

unfoldable pub is_tree : FileSystem → Bool
is_tree fs = all (has_parent fs) fs

same_names_iff : (p q : Names) → (same_names p q ≡ true) ↔ (p ≡ q)
unfolding same_names
same_names_iff [] [] = ground arith
same_names_iff (a ∷ p) (b ∷ q) = ground (arith, same_text_iff a b, same_names_iff p q)
same_names_iff [] (b ∷ q) = ground arith
same_names_iff (a ∷ p) [] = ground arith

pub or_false : (a b : Bool) → (a || b) ≡ false → (a ≡ false) × (b ≡ false)
or_false a b h = ground (arith, h)

exists-append :
    (p : Names) (xs ys : FileSystem) → exists p (xs ++ ys) ≡ (exists p xs || exists p ys)
unfolding exists
exists-append p [] ys = refl
exists-append p (x ∷ xs) ys = rw (exists-append p xs ys) (ground arith)

has_child-append :
    (d : Names) (xs ys : FileSystem) → has_child d (xs ++ ys) ≡ (has_child d xs || has_child d ys)
unfolding has_child
has_child-append d [] ys = refl
has_child-append d (x ∷ xs) ys = rw (has_child-append d xs ys) (ground arith)

exists-drop :
    (p : Names) (k : ℕ) (xs : FileSystem) → exists p xs ≡ false → exists p (drop k xs) ≡ false
unfolding exists
exists-drop p zero xs h = h
exists-drop p (suc k) [] h = h
exists-drop p (suc k) (x ∷ xs) h = exists-drop p k xs (or_false (same_names p x) (exists p xs) h).1

delete-missing : (p : Names) (xs : FileSystem) → exists p xs ≡ false → delete p xs ≡ xs
unfolding delete exists keep
delete-missing p [] h = refl
delete-missing p (x ∷ xs) h =
    let (other, rest) = or_false (same_names p x) (exists p xs) h in
    rw (other) (ap (λ l. x ∷ l) (delete-missing p xs rest))

pub delete-first : (p : Names) (xs : FileSystem) → exists p xs ≡ false → delete p (p ∷ xs) ≡ xs
unfolding delete keep
delete-first p xs h =
    let same : same_names p p ≡ true = (same_names_iff p p).1 refl in
    rw (same) (delete-missing p xs h)

other_names :
    (p q : Names) (fs : FileSystem)
    → exists p fs ≡ true
    → exists q fs ≡ false
    → same_names p q ≡ false
other_names p q fs there missing = elim (Bool-cases (same_names p q)) [
  | inl e ↦
      let same : p ≡ q = (same_names_iff p q).0 e in
      let no_p : exists p fs ≡ false = rw (same) (missing) in ground (arith, there, no_p)
  | inr e ↦ e
]

no_root : (n : Text) (ns : Names) → same_names [] (n ∷ ns) ≡ false
unfolding same_names
no_root n ns = refl

and_true : (a b : Bool) → (a && b) ≡ true → (a ≡ true) × (b ≡ true)
and_true a b h = ground (arith, h)

neither : {a b : Bool} → a ≡ false → b ≡ false → (a || b) ≡ false
neither {a} {b} p q = ground (arith, p, q)

-- What does not exist has no entries in it.
no_child :
    (n : Text) (ns : Names) (fs xs : FileSystem)
    → exists (n ∷ ns) fs ≡ false
    → all (has_parent fs) xs ≡ true
    → has_child (n ∷ ns) xs ≡ false
unfolding has_child all is_child has_parent
no_child n ns fs [] h t = refl
no_child n ns fs ([] ∷ xs) h t = no_child n ns fs xs h (ground (arith, t))
no_child n ns fs ((m ∷ []) ∷ xs) h t =
    neither (no_root n ns) (no_child n ns fs xs h (ground (arith, t)))
no_child n ns fs ((m ∷ k ∷ ks) ∷ xs) h t =
    let (parent, rest) = and_true (exists (k ∷ ks) fs) (all (has_parent fs) xs) t in
    neither (other_names (k ∷ ks) (n ∷ ns) fs parent h) (no_child n ns fs xs h rest)

lengths_differ : (p q : Names) → length p ≢ length q → same_names p q ≡ false
lengths_differ p q other = elim (Bool-cases (same_names p q)) [
  | inl e ↦
      let same : length p ≡ length q = ap length ((same_names_iff p q).0 e) in
      ground (arith, same, other)
  | inr e ↦ e
]

-- Of the directories that are missing above one, none is as long as it.
missing_dirs-shorter :
    (p q : Names) (fs : FileSystem)
    → length q < length p
    → (exists p (missing_dirs q fs) ≡ false) × (has_child p (missing_dirs q fs) ≡ false)
unfolding missing_dirs exists has_child is_child
missing_dirs-shorter p [] fs h = (refl, refl)
missing_dirs-shorter p (n ∷ ns) fs h =
    let (e, c) = missing_dirs-shorter p ns fs (omega arith) in
    elim (Bool-cases (exists (n ∷ ns) fs)) [
      | inl there ↦ rw (there) (refl, refl)
      | inr missing ↦ rw (missing) (
        neither (lengths_differ p (n ∷ ns) (omega arith)) e,
        neither (lengths_differ ns p (omega arith)) c,
      )
    ]

remove_dir-missing : (d : Names) (fs : FileSystem) → exists d fs ≡ false → remove_dir d fs ≡ fs
unfolding remove_dir
remove_dir-missing d fs h = rw (h) (refl)

exists-first : (p : Names) (fs : FileSystem) → exists p (p ∷ fs) ≡ true
unfolding exists
exists-first p fs =
    let same : same_names p p ≡ true = (same_names_iff p p).1 refl in rw (same) (refl)

no_child-first :
    (n : Text) (ns : Names) (fs : FileSystem)
    → has_child (n ∷ ns) fs ≡ false
    → has_child (n ∷ ns) ((n ∷ ns) ∷ fs) ≡ false
unfolding has_child is_child
no_child-first n ns fs empty = neither (lengths_differ ns (n ∷ ns) (omega arith)) empty

remove_dir-first :
    (n : Text) (ns : Names) (fs : FileSystem)
    → exists (n ∷ ns) fs ≡ false
    → has_child (n ∷ ns) fs ≡ false
    → remove_dir (n ∷ ns) ((n ∷ ns) ∷ fs) ≡ fs
unfolding remove_dir
remove_dir-first n ns fs missing empty =
    rw (exists-first (n ∷ ns) fs, no_child-first n ns fs empty) (delete-first (n ∷ ns) fs missing)

drop-nil : {A : Type 0} (k : ℕ) → drop {A = A} k [] ≡ []
drop-nil zero = refl
drop-nil (suc k) = refl

tree_all : (fs : FileSystem) → is_tree fs ≡ true → all (has_parent fs) fs ≡ true
unfolding is_tree
tree_all fs h = h

removed_first :
    (n : Text) (ns : Names) (fs : FileSystem) (k : ℕ)
    → is_tree fs ≡ true
    → exists (n ∷ ns) fs ≡ false
    → ((k : ℕ) → remove_dirs (missing_dirs ns fs) (drop k (missing_dirs ns fs) ++ fs) ≡ fs)
    → remove_dirs
        (missing_dirs ns fs)
        (remove_dir (n ∷ ns) (drop k ((n ∷ ns) ∷ missing_dirs ns fs) ++ fs))
      ≡ fs
removed_first n ns fs zero tree missing outer_removed =
    let outer = missing_dirs ns fs in
    let (e, c) = missing_dirs-shorter (n ∷ ns) ns fs (omega arith) in
    let no_entry = exists-append (n ∷ ns) outer fs ∙ neither e missing in
    let no_entries =
      has_child-append (n ∷ ns) outer fs
      ∙ neither c (no_child n ns fs fs missing (tree_all fs tree)) in
    ap (remove_dirs outer) (remove_dir-first n ns (outer ++ fs) no_entry no_entries)
    ∙ outer_removed 0
removed_first n ns fs (suc k) tree missing outer_removed =
    let outer = missing_dirs ns fs in
    let (e, c) = missing_dirs-shorter (n ∷ ns) ns fs (omega arith) in
    let no_entry =
      exists-append (n ∷ ns) (drop k outer) fs ∙ neither (exists-drop (n ∷ ns) k outer e) missing in
    ap (remove_dirs outer) (remove_dir-missing (n ∷ ns) (drop k outer ++ fs) no_entry)
    ∙ outer_removed k

-- Whichever of the missing directories were made, the outermost first, removing them all, the
-- innermost first, leaves the tree as it was.
pub remove_dirs-made :
    (dir : Names) (fs : FileSystem) (k : ℕ)
    → is_tree fs ≡ true
    → remove_dirs (missing_dirs dir fs) (drop k (missing_dirs dir fs) ++ fs) ≡ fs
unfolding missing_dirs remove_dirs
remove_dirs-made [] fs k tree = rw (drop-nil {A = Names} k) (refl)
remove_dirs-made (n ∷ ns) fs k tree = elim (Bool-cases (exists (n ∷ ns) fs)) [
  | inl there ↦ rw (there) (rw (drop-nil {A = Names} k) (refl))
  | inr missing ↦
      rw (missing) (removed_first n ns fs k tree missing (λ k. remove_dirs-made ns fs k tree))
]
