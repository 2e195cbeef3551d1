-- ===== src/Preflight/Mounts.antt =====
-- src/engines/preflight.rs: the mount that holds a path. A path is the list of its components.
use dfdisk.Prelude.{
  ℕ, suc, ◌≤◌, ◌<◌, ◌≡◌, refl, sym, ap, ◌∙◌, inl, inr, Bool, true, false, ◌&&◌, Option, none, some,
  List, [], ◌∷◌, ◌++◌, leb, if◌then◌else◌, Bool-cases, arith, Text, same_text, length,
}
use mathlib.Core.List.{append-nil, append_assoc}

pub record MountFacts : Type 0 where
  pub mount_point : List Text
  pub fs_type : Text
  pub source : Text
  pub dev : ℕ × ℕ
  pub read_only : Bool

-- `Path::starts_with`, which compares whole components
unfoldable pub starts_with : List Text → List Text → Bool
unfolding same_text
starts_with path [] = true
starts_with [] (d ∷ ds) = false
starts_with (c ∷ cs) (d ∷ ds) = same_text c d && starts_with cs ds

abbrev pub depth : MountFacts → ℕ
depth m = length m.mount_point

-- `best.is_none_or(..)`
abbrev pub replaces : Option MountFacts → MountFacts → Bool
replaces none m = true
replaces (some b) m = leb (depth b) (depth m)

-- One round of the loop: the filter in front of it, and its body.
unfoldable pub better : List Text → Option MountFacts → MountFacts → Option MountFacts
unfolding starts_with
better path best m =
    if starts_with path m.mount_point then (if replaces best m then some m else best) else best

unfoldable pub best_of : List Text → Option MountFacts → List MountFacts → Option MountFacts
unfolding better
best_of path best [] = best
best_of path best (m ∷ ms) = best_of path (better path best m) ms

unfoldable pub mount_containing : List MountFacts → List Text → Option MountFacts
unfolding best_of
mount_containing mounts path = best_of path none mounts

-- Each of the mounts that holds the path has fewer than `d` components.
pub Below : List Text → ℕ → List MountFacts → Type 0
Below path d [] = Unit
Below path d (m ∷ ms) = (starts_with path m.mount_point ≡ true → depth m < d) × Below path d ms

-- The mount holds the path; those listed in front of it are no deeper, those behind it less deep.
pub Chosen : List Text → List MountFacts → Option MountFacts → Type 0
Chosen path ms none = Below path 0 ms
Chosen path ms (some m) =
    (before : List MountFacts) × (after : List MountFacts) × (ms ≡ before ++ m ∷ after)
    × (starts_with path m.mount_point ≡ true)
    × Below path (suc (depth m)) before
    × Below path (depth m) after

Below-le :
    (path : List Text) (d e : ℕ) (ms : List MountFacts) → d ≤ e → Below path d ms → Below path e ms
unfolding Below
Below-le path d e [] le b = tt
Below-le path d e (m ∷ ms) le (h, b) = ((λ s. omega (arith, le, h s)), Below-le path d e ms le b)

Below-append :
    (path : List Text) (d : ℕ) (ms ns : List MountFacts)
    → Below path d ms
    → Below path d ns
    → Below path d (ms ++ ns)
unfolding Below
Below-append path d [] ns b c = c
Below-append path d (m ∷ ms) ns (h, b) c = (h, Below-append path d ms ns b c)

one-Below :
    (path : List Text) (d : ℕ) (m : MountFacts)
    → (starts_with path m.mount_point ≡ true → depth m < d)
    → Below path d (m ∷ [])
unfolding Below
one-Below path d m h = (h, tt)

not_held :
    (path : List Text) (d : ℕ) (m : MountFacts)
    → starts_with path m.mount_point ≡ false
    → Below path d (m ∷ [])
unfolding Below
not_held path d m e = ((λ s. cc), tt)

Chosen-Below :
    (path : List Text) (ms : List MountFacts) (b : MountFacts)
    → Chosen path ms (some b)
    → Below path (suc (depth b)) ms
unfolding Chosen Below
Chosen-Below path ms b (before, after, e, held, front, behind) = rw (e) (
    Below-append path (suc (depth b)) before (b ∷ after) front
      ((λ s. omega arith), Below-le path (depth b) (suc (depth b)) after (omega arith) behind))

take_last :
    (path : List Text) (seen : List MountFacts) (m : MountFacts)
    → starts_with path m.mount_point ≡ true
    → Below path (suc (depth m)) seen
    → Chosen path (seen ++ m ∷ []) (some m)
unfolding Chosen Below
take_last path seen m held below = (seen, [], refl, held, below, tt)

keep_best :
    (path : List Text) (seen : List MountFacts) (b m : MountFacts)
    → Chosen path seen (some b)
    → Below path (depth b) (m ∷ [])
    → Chosen path (seen ++ m ∷ []) (some b)
unfolding Chosen
keep_best path seen b m (before, after, e, held, front, behind) last = (
  before,
  after ++ m ∷ [],
  ap (λ l. l ++ m ∷ []) e ∙ append_assoc before (b ∷ after) (m ∷ []),
  held,
  front,
  Below-append path (depth b) after (m ∷ []) behind last,
)

keep_none :
    (path : List Text) (seen : List MountFacts) (m : MountFacts)
    → Chosen path seen none
    → Below path 0 (m ∷ [])
    → Chosen path (seen ++ m ∷ []) none
unfolding Chosen
keep_none path seen m none_held last = Below-append path 0 seen (m ∷ []) none_held last

none-Below :
    (path : List Text) (seen : List MountFacts) (d : ℕ) → Chosen path seen none → Below path d seen
unfolding Chosen
none-Below path seen d h = Below-le path 0 d seen (omega arith) h

better-Chosen :
    (path : List Text) (seen : List MountFacts) (best : Option MountFacts) (m : MountFacts)
    → Chosen path seen best
    → Chosen path (seen ++ m ∷ []) (better path best m)
unfolding better
better-Chosen path seen none m h = elim (Bool-cases (starts_with path m.mount_point)) [
  | inl e ↦ rw (e) (take_last path seen m e (none-Below path seen (suc (depth m)) h))
  | inr e ↦ rw (e) (keep_none path seen m h (not_held path 0 m e))
]
better-Chosen path seen (some b) m h = elim (Bool-cases (starts_with path m.mount_point)) [
  | inl e ↦ elim (Bool-cases (leb (depth b) (depth m))) [
    | inl l ↦
        rw (e, l)
          (take_last path seen m e (
            Below-le path (suc (depth b)) (suc (depth m)) seen (ground (arith, l))
              (Chosen-Below path seen b h)))
    | inr l ↦
        rw (e, l) (keep_best path seen b m h (one-Below path (depth b) m (λ s. ground (arith, l))))
  ]
  | inr e ↦ rw (e) (keep_best path seen b m h (not_held path (depth b) m e))
]

best_of-Chosen :
    (path : List Text) (seen ms : List MountFacts) (best : Option MountFacts)
    → Chosen path seen best
    → Chosen path (seen ++ ms) (best_of path best ms)
unfolding best_of
best_of-Chosen path seen [] best h = rw (append-nil seen) h
best_of-Chosen path seen (m ∷ ms) best h = rw (sym (append_assoc seen (m ∷ []) ms)) (
    best_of-Chosen path (seen ++ m ∷ []) ms (better path best m) (better-Chosen path seen best m h))

nothing_seen : (path : List Text) → Chosen path [] none
unfolding Chosen Below
nothing_seen path = tt

-- The mount found holds the path, no mount that holds it is deeper, and of those as deep it is the
-- last one listed; none is found only if no mount holds the path.
pub mount_containing-Chosen :
    (mounts : List MountFacts) (path : List Text)
    → Chosen path mounts (mount_containing mounts path)
unfolding mount_containing
mount_containing-Chosen mounts path = best_of-Chosen path [] mounts none (nothing_seen path)
