-- ===== src/RawCopy/Integrity.antt =====
-- What the copy of src/engines/raw.rs maintains with every write.
use dfdisk.Prelude.{
  ℕ, ◌+◌, ◌-◌, ◌≤◌, ◌<◌, ◌≡◌, refl, sym, ap, ◌∙◌, Bool, true, false, Option, none, some, List, [],
  ◌∷◌, ◌++◌, arith, ltb, if◌then◌else◌, length, get_elem?, length-append, Bool-cases, inl, inr, ◌⊎◌,
  u64_max,
}
use mathlib.Core.List.{append-nil, append_assoc}
use dfdisk.ReadErrors.{RangeKind, substituted, unread, ReadErrorTable, push, sum_lengths}
use dfdisk.ReadErrors.Coverage.{state_at, Within-le, covered-beyond}
use dfdisk.ReadErrors.Appending.{EndsAt, push_behind}
use dfdisk.RawCopy.World.{
  World, CopyPlan, chunk, IoError, StopKind, CopyStop, Observed, bytes_written, progressed,
  unreadable, ReadsFrom, IsFaithful, IsPatient,
}
use dfdisk.RawCopy.Copier.{Copier, stop_at, account, end_write, write}
use dfdisk.RawCopy.Loop.{is_zero_fill}
use dfdisk.RawCopy.Ends.{
  Ends, Ends->>=, ReadsFrom-append, ReadsFrom-get_elem?, get_elem?-append, write_fully-Ends,
}

-- The byte of the image, if any, for a byte `v` of the source and what the table says of it.
abbrev pub image_byte : Option RangeKind → ℕ → Option ℕ
image_byte none v = some v
image_byte (some substituted) v = some 0
image_byte (some unread) v = none

-- What the observer was given to hash and cut into pieces.
abbrev pub data_of : List Observed → List ℕ
data_of [] = []
data_of (bytes_written offset bytes ∷ os) = bytes ++ data_of os
data_of (_ ∷ os) = data_of os

pub data_of-append : (os ps : List Observed) → data_of (os ++ ps) ≡ data_of os ++ data_of ps
data_of-append [] ps = refl
data_of-append (bytes_written offset bytes ∷ os) ps =
    ap (λ l. bytes ++ l) (data_of-append os ps) ∙ sym (append_assoc bytes (data_of os) (data_of ps))
data_of-append (progressed p ∷ os) ps = data_of-append os ps
data_of-append (unreadable o n e z ∷ os) ps = data_of-append os ps

module _ (w : World) (plan : CopyPlan) (content : ℕ → ℕ) (faithful : IsFaithful w content)
    {patience : w.State → ℕ} (patient : IsPatient w patience) (size limit : ℕ)
    (small : size ≤ u64_max) where
  open w use {State}

  -- The image, what was hashed and what was observed are the same bytes; the table says which of
  -- them were substituted, and the others are the source's. The fuel still suffices for a write.
  pub record Inv (c : Copier State) : Type 0 where
    pub room : patience c.state + chunk plan < limit
    pub low : c.offset ≤ size
    pub sized : length c.accepted ≡ c.offset
    pub fed : c.hashed ≡ c.accepted
    pub seen : data_of c.observed ≡ c.accepted
    pub ends : EndsAt c.offset c.table
    pub all_read : sum_lengths unread c.table.ranges ≡ 0
    pub policy :
        is_zero_fill plan.on_read_error ≡ false → sum_lengths substituted c.table.ranges ≡ 0
    pub held :
        (x : ℕ)
        → x < c.offset
        → get_elem? c.accepted x ≡ image_byte (state_at c.table.ranges x) (content x)

  -- Changes that no clause of the invariant reads.
  pub Inv-like :
      {c d : Copier State}
      → Inv c
      → patience d.state ≤ patience c.state
      → d.accepted ≡ c.accepted
      → d.hashed ≡ c.hashed
      → data_of d.observed ≡ data_of c.observed
      → d.table ≡ c.table
      → d.offset ≡ c.offset
      → Inv d
  Inv-like {c} {d} i p a h o t x = record {
    room = omega (arith, i.room);
    low = omega (arith, i.low);
    sized = rw (a, x) i.sized;
    fed = h ∙ i.fed ∙ sym a;
    seen = o ∙ i.seen ∙ sym a;
    ends = rw (t, x) i.ends;
    all_read = rw t i.all_read;
    policy = rw t i.policy;
    held = λ y l. rw (a, t) (i.held y (omega arith));
  }

  -- The bytes that a write puts into the image.
  abbrev pub written_byte : Bool → ℕ → ℕ
  written_byte as_zeros x = if as_zeros then 0 else content x

  abbrev pub Zeros : Bool → Type 0
  Zeros as_zeros = as_zeros ≡ true → is_zero_fill plan.on_read_error ≡ true

  -- `taken` is appended, and the table `t` says of the new bytes what they are.
  abbrev grown : State → List ℕ → ReadErrorTable → Copier State → Copier State
  grown s taken t c = record c {
    state = s;
    accepted = c.accepted ++ taken;
    hashed = c.hashed ++ taken;
    observed = c.observed ++ bytes_written c.offset taken ∷ [];
    table = t;
    offset = c.offset + length taken;
  }

  abbrev kind_written : Bool → Option RangeKind
  kind_written as_zeros = if as_zeros then some substituted else none

  image_byte-kind_written :
      (as_zeros : Bool) (x : ℕ)
      → image_byte (kind_written as_zeros) (content x) ≡ some (written_byte as_zeros x)
  image_byte-kind_written true x = refl
  image_byte-kind_written false x = refl

  grown-Inv :
      (as_zeros : Bool) (s : State) (taken : List ℕ) (t : ReadErrorTable) (c : Copier State)
      → Inv c
      → patience s ≤ patience c.state
      → c.offset + length taken ≤ size
      → ReadsFrom (written_byte as_zeros) c.offset taken
      → EndsAt (c.offset + length taken) t
      → sum_lengths unread t.ranges ≡ 0
      → (is_zero_fill plan.on_read_error ≡ false → sum_lengths substituted t.ranges ≡ 0)
      → ((x : ℕ)
          → x < c.offset + length taken
          → state_at t.ranges x
            ≡ (if ltb x c.offset then state_at c.table.ranges x else kind_written as_zeros))
      → Inv (grown s taken t c)
  grown-Inv as_zeros s taken t c i p l r e u q h = record {
    room = omega (arith, i.room);
    low = l;
    sized = length-append c.accepted taken ∙ omega (arith, i.sized);
    fed = ap (λ l. l ++ taken) i.fed;
    seen =
        data_of-append c.observed (bytes_written c.offset taken ∷ [])
        ∙ ap (λ l. l ++ (taken ++ [])) i.seen
        ∙ ap (λ l. c.accepted ++ l) (append-nil taken);
    ends = e;
    all_read = u;
    policy = q;
    held = λ x m. elim (Bool-cases (ltb x c.offset)) [
      | inl b ↦ ground (arith, get_elem?-append c.accepted taken x, i.held x, i.sized, h x m)
      | inr b ↦
          let at : c.offset + (x - length c.accepted) ≡ x = ground (arith, i.sized) in
          let new =
            ReadsFrom-get_elem? (written_byte as_zeros) c.offset (x - length c.accepted) taken r
              (ground (arith, i.sized)) in
          let byte : get_elem? taken (x - length c.accepted) ≡ some (written_byte as_zeros x) =
            new ∙ ap (λ y. some (written_byte as_zeros y)) at in
          let kind : state_at t.ranges x ≡ kind_written as_zeros = ground (arith, h x m) in
          get_elem?-append c.accepted taken x
          ∙ ground (arith, byte, i.sized)
          ∙ sym (ap (λ k. image_byte k (content x)) kind ∙ image_byte-kind_written as_zeros x)
    ];
  }

  account-Inv :
      (as_zeros : Bool) (s : State) (taken : List ℕ) (c : Copier State)
      → Inv c
      → Zeros as_zeros
      → patience s ≤ patience c.state
      → c.offset + length taken ≤ size
      → ReadsFrom (written_byte as_zeros) c.offset taken
      → Inv (account w as_zeros s taken c)
  unfolding account
  account-Inv as_zeros s [] c i z p l r = Inv-like i p refl refl refl refl refl
  account-Inv true s (b ∷ bs) c i z p l r =
      let full : ltb 0 (length (b ∷ bs)) ≡ true = ground arith in
      let (e, h, k) =
        push_behind c.table c.offset (length (b ∷ bs)) substituted (omega (arith, l, small))
          i.ends in
      rw full (
        grown-Inv true s (b ∷ bs) (push c.table c.offset (length (b ∷ bs)) substituted) c i p l r e
          (ground (arith, k unread, i.all_read)) (λ q. absurd (cc (z refl, q)))
          (λ x m. ground (arith, h x, m)))
  account-Inv false s (b ∷ bs) c i z p l r =
      let full : ltb 0 (length (b ∷ bs)) ≡ true = ground arith in
      rw full (
        grown-Inv false s (b ∷ bs) c.table c i p l r
          (record {
            within = Within-le c.table.ranges (omega arith) i.ends.within;
            ordered = i.ends.ordered;
          })
          i.all_read i.policy
          (λ x m. ground (
            arith,
            covered-beyond substituted c.table.ranges x i.ends.within,
            covered-beyond unread c.table.ranges x i.ends.within,
          )))

  -- The copy ended: a stop at the current offset, or an abort.
  abbrev pub Halted : Copier State → Type 0
  Halted c =
      ((s : CopyStop) × (c.stopped ≡ some s) × (s.offset ≡ c.offset))
      ⊎ ((c.stopped ≡ none) × (c.aborted ≡ true))

  -- What a step leaves that returned true, with the offset at `from` or beyond, or false.
  abbrev pub After : ℕ → Copier State × Bool → Type 0
  After from (c, true) = Inv c × (c.stopped ≡ none) × (from ≤ c.offset)
  After from (c, false) = Inv c × Halted c

  pub stop_at-After :
      (from : ℕ) (k : StopKind) (c : Copier State) → Inv c → After from (stop_at w k c, false)
  stop_at-After from k c i =
      (Inv-like i (omega arith) refl refl refl refl refl, inl (_, refl, refl))

  end_write-After :
      (from : ℕ) (e : Option IoError) (c : Copier State)
      → Inv c
      → c.stopped ≡ none
      → (e ≡ none → from ≤ c.offset)
      → After from (end_write w e c)
  end_write-After from none c i s h = (i, s, h refl)
  end_write-After from (some e) c i s h = stop_at-After from _ c i

  pub write-Ends :
      (bytes : List ℕ) (as_zeros : Bool) (c : Copier State)
      → Inv c
      → c.stopped ≡ none
      → Zeros as_zeros
      → length bytes ≤ chunk plan
      → c.offset + length bytes ≤ size
      → ReadsFrom (written_byte as_zeros) c.offset bytes
      → Ends (After (c.offset + length bytes)) (write w limit bytes as_zeros c)
  unfolding write
  write-Ends bytes as_zeros c i s z m l r =
      Ends->>= (write_fully-Ends w faithful patient limit c.state [] bytes (omega (arith, i.room)))
        (λ d ((more, rest, t, b, full), p).
          let read : ReadsFrom (written_byte as_zeros) c.offset (more ++ rest) = rw (sym b) r in
          let parts : length bytes ≡ length more + length rest =
            ap length b ∙ length-append more rest in
          let taken : length d.taken ≡ length more = ap length t in
          let inv =
            account-Inv as_zeros d.state d.taken c i z p (omega arith)
              (rw t (ReadsFrom-append (written_byte as_zeros) c.offset more rest read)) in
          (
            _,
            refl,
            end_write-After (c.offset + length bytes) d.error (account w as_zeros d.state d.taken c)
                inv (unfold account in ground arith)
                (λ q. unfold account in ground (arith, full q)),
          ))
