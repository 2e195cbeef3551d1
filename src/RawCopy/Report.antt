-- ===== src/RawCopy/Report.antt =====
-- What `copy_source` of src/engines/raw.rs reports of the image it wrote.
use dfdisk.Prelude.{
  ℕ, zero, suc, ◌+◌, ◌-◌, ◌≤◌, ◌<◌, ◌≡◌, refl, sym, ap, ◌∙◌, Bool, true, false, ◌&&◌, Option, none,
  some, List, [], ◌∷◌, arith, ltb, if◌then◌else◌, length, get_elem?, Bool-cases, inl, inr, ◌⊎◌,
  u64_max,
}
use mathlib.Core.List.{append-nil}
use mathlib.Core.Path.{subst}
use dfdisk.ReadErrors.{substituted, unread, push, bytes_of}
use dfdisk.ReadErrors.Coverage.{state_at}
use dfdisk.ReadErrors.Appending.{EndsAt-bytes_of, push_up_to}
use dfdisk.RawCopy.World.{World, CopyPlan, chunk, CopyStop, IsFaithful, IsPatient}
use dfdisk.RawCopy.Copier.{Copier, progress}
use dfdisk.RawCopy.Loop.{is_zero_fill, finish, start, copy_source, CopyResult}
use dfdisk.RawCopy.Ends.{Ends, Ends->>=}
use dfdisk.RawCopy.Integrity.{image_byte, data_of, data_of-append}
use dfdisk.RawCopy.World.{is_source_side}
use dfdisk.RawCopy.Loop.{mark_unread}
use dfdisk.RawCopy.Total.{Sound, Done, copy_loop-Ends}

get_elem?-beyond : (xs : List ℕ) (x : ℕ) → length xs ≤ x → get_elem? xs x ≡ none
get_elem?-beyond [] x h = refl
get_elem?-beyond (b ∷ bs) zero h = absurd (omega arith)
get_elem?-beyond (b ∷ bs) (suc x) h = get_elem?-beyond bs x (omega arith)

-- The bytes copied and missing, for a stop that the source caused, that the destination caused, or
-- none.
abbrev pub Accounted : ℕ → Option CopyStop → Bool → ℕ → ℕ → Type 0
Accounted size none aborted copied missing = (missing ≡ 0) × ((aborted ≡ true) ⊎ (copied ≡ size))
Accounted size (some s) aborted copied missing =
    (s.offset ≡ copied) × (missing ≡ (if is_source_side s.kind then size - copied else 0))

module _ (w : World) (plan : CopyPlan) (content : ℕ → ℕ) (faithful : IsFaithful w content)
    {patience : w.State → ℕ} (patient : IsPatient w patience) (size limit : ℕ)
    (small : size ≤ u64_max) (fits : plan.length ≡ some size) where
  open w use {State}

  record Reported (c : Copier State) : Type 0 where
    low : c.offset ≤ size
    sized : length c.accepted ≡ c.offset
    fed : c.hashed ≡ c.accepted
    seen : data_of c.observed ≡ c.accepted
    counted : Accounted size c.stopped c.aborted c.offset (bytes_of c.table unread)
    policy : is_zero_fill plan.on_read_error ≡ false → bytes_of c.table substituted ≡ 0
    held :
        (x : ℕ)
        → x < c.offset + bytes_of c.table unread
        → get_elem? c.accepted x ≡ image_byte (state_at c.table.ranges x) (content x)

  abbrev Sane : Copier State → Type 0
  Sane = Sound w plan content faithful patient size limit small fits

  Sane-Reported :
      (c : Copier State) → Sane c → Accounted size c.stopped c.aborted c.offset 0 → Reported c
  Sane-Reported c i a =
      let missing : bytes_of c.table unread ≡ 0 =
        EndsAt-bytes_of c.offset c.table unread i.ends ∙ i.all_read in
      record {
        low = i.low;
        sized = i.sized;
        fed = i.fed;
        seen = i.seen;
        counted = rw missing a;
        policy = λ q. EndsAt-bytes_of c.offset c.table substituted i.ends ∙ i.policy q;
        held = λ x l. i.held x (omega (arith, missing));
      }

  pushed-Reported :
      (c : Copier State) (s : CopyStop)
      → Sane c
      → c.stopped ≡ some s
      → s.offset ≡ c.offset
      → is_source_side s.kind ≡ true
      → c.offset < size
      → Reported (record c { table = push c.table c.offset (size - c.offset) unread })
  pushed-Reported c s i e o k l =
      let t = push c.table c.offset (size - c.offset) unread in
      let (ends, states, lengths) = push_up_to c.table c.offset size unread i.low small i.ends in
      let missing : bytes_of t unread ≡ size - c.offset =
        EndsAt-bytes_of size t unread ends ∙ ground (arith, lengths unread, i.all_read) in
      record {
        low = i.low;
        sized = i.sized;
        fed = i.fed;
        seen = i.seen;
        counted = rw (e, missing, k) (o, refl);
        policy = λ q.
            EndsAt-bytes_of size t substituted ends
            ∙ ground (arith, lengths substituted, i.policy q);
        held = λ x m. elim (Bool-cases (ltb x c.offset)) [
          | inl b ↦ ground (arith, states x, i.held x)
          | inr b ↦ ground (arith, states x, missing, get_elem?-beyond c.accepted x, i.sized)
        ];
      }

  mark_unread-Reported :
      (c : Copier State) (o : Option CopyStop)
      → Sane c
      → c.stopped ≡ o
      → ((s : CopyStop) → o ≡ some s → s.offset ≡ c.offset)
      → (o ≡ none → (c.aborted ≡ true) ⊎ (c.offset ≡ size))
      → Reported (mark_unread w plan o (some size) c)
  mark_unread-Reported c none i e h a = Sane-Reported c i (rw e (refl, a refl))
  mark_unread-Reported c (some s) i e h a =
      let at = h s refl in
      elim (Bool-cases (is_source_side s.kind && ltb c.offset size)) [
        | inl b ↦ rw b (pushed-Reported c s i e at (ground arith) (ground arith))
        | inr b ↦ rw b (Sane-Reported c i (rw e (at, ground (arith, i.low))))
      ]

  progress-Reported : (c : Copier State) → Reported c → Reported (progress w true c)
  unfolding progress
  progress-Reported c r = record {
    low = r.low;
    sized = r.sized;
    fed = r.fed;
    seen = data_of-append c.observed _ ∙ append-nil (data_of c.observed) ∙ r.seen;
    counted = r.counted;
    policy = r.policy;
    held = r.held;
  }

  abbrev result_of : Copier State → CopyResult
  result_of c = record {
    bytes_copied = c.offset;
    hashed = c.hashed;
    read_errors = c.table;
    unreadable_sectors = c.unreadable_sectors;
    stopped = c.stopped;
    aborted = c.aborted;
  }

  finish-Reported :
      (c : Copier State)
      → Done w plan content faithful patient size limit small fits c
      → (d : Copier State) × (finish w plan c ≡ (d, result_of d)) × Reported d
  unfolding finish
  finish-Reported c (i, how) =
      let stop_here : (s : CopyStop) → c.stopped ≡ some s → s.offset ≡ c.offset = λ s e. elim how [
        | inl (inl (t, f, o)) ↦ ground arith
        | inl (inr (f, a)) ↦ absurd (cc)
        | inr (f, a) ↦ absurd (cc)
      ] in
      let complete : c.stopped ≡ none → (c.aborted ≡ true) ⊎ (c.offset ≡ size) = λ e. elim how [
        | inl (inl (t, f, o)) ↦ absurd (cc)
        | inl (inr (f, b)) ↦ inl b
        | inr (f, b) ↦ inr b
      ] in
      (
        _,
        refl,
        progress-Reported (mark_unread w plan c.stopped plan.length c) (
            subst (λ l. Reported (mark_unread w plan c.stopped l c)) (sym fits)
              (mark_unread-Reported c c.stopped i refl stop_here complete)),
      )

  start-Sane : (s : State) → patience s + chunk plan < limit → Sane (start w plan s)
  start-Sane s h = record {
    room = h;
    low = omega arith;
    sized = refl;
    fed = refl;
    seen = refl;
    ends = record { within = tt; ordered = refl };
    all_read = refl;
    policy = λ q. refl;
    held = λ x l. absurd (omega arith);
  }

  copy_source-Reported :
      {P : Copier State × CopyResult → Type 0} (s : State)
      → size + chunk plan + patience s < limit
      → ((c : Copier State) → Reported c → P (c, result_of c))
      → Ends P (copy_source w plan limit s)
  unfolding copy_source
  copy_source-Reported s h p =
      Ends->>=
        (copy_loop-Ends w plan content faithful patient size limit small fits limit (start w plan s)
          (start-Sane s (omega arith)) refl (omega arith))
        (λ c d. let (e, same, r) = finish-Reported c d in (_, ap some same, p e r))

  -- With fuel for the size, a chunk and the interruptions of the destination, the copy returns, and
  -- the image has as many bytes as are reported, which are the bytes that were hashed and the bytes
  -- that the observer was given, in that order.
  pub copy_source-streams :
      (s : State)
      → size + chunk plan + patience s < limit
      → Ends
          (λ (c, r).
            (length c.accepted ≡ r.bytes_copied)
            × (r.hashed ≡ c.accepted)
            × (data_of c.observed ≡ c.accepted)
            × (r.bytes_copied ≤ size))
          (copy_source w plan limit s)
  copy_source-streams s h = copy_source-Reported s h (λ c r. (r.sized, r.fed, r.seen, r.low))

  -- Every byte of the image is the byte of the source at its offset, unless the table lists it as
  -- substituted: then it is zero. A byte that the table lists as unread is not in the image, and the
  -- image and the unread bytes are all there is.
  pub copy_source-image :
      (s : State) (x : ℕ)
      → size + chunk plan + patience s < limit
      → Ends
          (λ (c, r). get_elem? c.accepted x ≡ (
            if ltb x (r.bytes_copied + bytes_of r.read_errors unread)
            then image_byte (state_at r.read_errors.ranges x) (content x)
            else none))
          (copy_source w plan limit s)
  copy_source-image s x h = copy_source-Reported s h (λ c r.
      elim (Bool-cases (ltb x (c.offset + bytes_of c.table unread))) [
        | inl b ↦ ground (arith, r.held x)
        | inr b ↦ ground (arith, get_elem?-beyond c.accepted x, r.sized)
      ])

  -- What is missing from the image is accounted for: without a stop or an abort everything is
  -- copied; after a stop that the source caused, the rest of the source is listed as unread; after a
  -- stop that the destination caused, or an abort, nothing is. A stop is reported at the image's end.
  pub copy_source-accounts :
      (s : State)
      → size + chunk plan + patience s < limit
      → Ends
          (λ (c, r).
            Accounted size r.stopped r.aborted r.bytes_copied (bytes_of r.read_errors unread))
          (copy_source w plan limit s)
  copy_source-accounts s h = copy_source-Reported s h (λ c r. r.counted)

  -- With `--on-read-error stop` no byte of the image is a substitute.
  pub copy_source-policy :
      (s : State)
      → size + chunk plan + patience s < limit
      → is_zero_fill plan.on_read_error ≡ false
      → Ends (λ (c, r). bytes_of r.read_errors substituted ≡ 0) (copy_source w plan limit s)
  copy_source-policy s h q = copy_source-Reported s h (λ c r. r.policy q)
