-- ===== src/RawCopy/Total.antt =====
-- The loop of `copy_source` of src/engines/raw.rs: with enough fuel it ends, halted or with
-- everything copied.
use dfdisk.Prelude.{
  ℕ, zero, suc, ◌+◌, ◌-◌, ◌≤◌, ◌<◌, ◌≡◌, refl, ◌∙◌, Bool, true, false, Option, none, some, ◌∷◌,
  arith, leb, Bool-cases, inl, inr, ◌⊎◌, u64_max, min, max,
}
use dfdisk.RawCopy.World.{World, CopyPlan, sector, chunk, round_up, IsFaithful, IsPatient}
use dfdisk.RawCopy.Copier.{Copier, progress, should_stop}
use dfdisk.RawCopy.Loop.{salvage, wanted, copy_chunk, copy_loop}
use dfdisk.RawCopy.Ends.{Ends, Ends->>=, Ends-map}
use dfdisk.RawCopy.Integrity.{Halted}
use native.Mathlib.Nat.{lt-div-mul-add}
use dfdisk.RawCopy.Rounds.{
  Kept, Then, should_stop-Inv, progress-Inv, progress_offset, progress_stopped,
  source_ended_here-After, write_read-Ends, read_error-Ends, read-Inv, salvage_loop-Ends,
  ReadResult-cases, weaken,
}

round_up-le : (len unit : ℕ) → 0 < unit → len ≤ round_up len unit
unfolding round_up
round_up-le len unit pos = omega (arith, lt-div-mul-add {a = len + (unit - 1)} {b = unit} pos)

module _ (w : World) (plan : CopyPlan) (content : ℕ → ℕ) (faithful : IsFaithful w content)
    {patience : w.State → ℕ} (patient : IsPatient w patience) (size limit : ℕ)
    (small : size ≤ u64_max) (fits : plan.length ≡ some size) where
  open w use {State}

  abbrev pub Sound : Copier State → Type 0
  Sound = Kept w plan content faithful patient size limit small fits

  abbrev Next : ℕ → Copier State × Bool → Type 0
  Next = Then w plan content faithful patient size limit small fits

  pub chunk_pos : 0 < chunk plan
  chunk_pos =
      omega (arith, round_up-le (max plan.chunk_size (sector plan)) (sector plan) (omega arith))

  copy_chunk-Ends :
      (want : ℕ) (c : Copier State)
      → Sound c
      → c.stopped ≡ none
      → 0 < want
      → want ≤ chunk plan
      → c.offset + want ≤ size
      → Ends (Next (c.offset + 1)) (copy_chunk w plan limit want c)
  unfolding copy_chunk salvage
  copy_chunk-Ends want c i s pos l m =
      let len = min (round_up want (sector plan)) (chunk plan) in
      let f : Copier State = record c { state = (w.read_at c.state c.offset len).0 } in
      let k : Sound f = read-Inv w plan content faithful patient size limit small fits c len i in
      elim (ReadResult-cases (w.read_at c.state c.offset len).1) [
        | inl e ↦
            rw (e, copy_chunk)
              (
                _,
                refl,
                source_ended_here-After w plan content faithful patient size limit small fits
                    (c.offset + 1) f k,
              )
        | inr (inl (b, bs, e)) ↦
            rw (e, copy_chunk)
              (write_read-Ends w plan content faithful patient size limit small fits (b ∷ bs) want _
                f k s (omega arith) l m (faithful.read_true c.state c.offset len (b ∷ bs) e))
        | inr (inr (e, r)) ↦
            let on =
              salvage_loop-Ends w plan content faithful patient size limit small fits limit
                (c.offset + want) f k s (omega (arith, i.room)) m (omega arith) in
            rw (r, copy_chunk)
              (read_error-Ends w plan content faithful patient size limit small fits e f
                (salvage w plan limit want) k
                (Ends-map on (λ x.
                  weaken w plan content faithful patient size limit small fits x (omega arith))))
      ]

  -- What the loop leaves: it was halted, or everything is copied.
  abbrev pub Done : Copier State → Type 0
  Done c =
      Sound c
      × (Halted w plan content faithful patient size limit small c
          ⊎ ((c.stopped ≡ none) × (c.offset ≡ size)))

  end_chunk-Ends :
      {from : ℕ} (k : Copier State → Option (Copier State)) (r : Copier State × Bool)
      → Next from r
      → ((c : Copier State) → Sound c → c.stopped ≡ none → from ≤ c.offset → Ends Done (k c))
      → Ends Done (elim r.1 [ false ↦ some r.0 | true ↦ k r.0 ])
  end_chunk-Ends k (c, false) (i, a) h = (_, refl, (i, inl a))
  end_chunk-Ends k (c, true) (i, s, l) h = h c i s l

  wanted-cases :
      (offset : ℕ)
      → offset ≤ size
      → ((wanted w plan offset ≡ none) × (offset ≡ size))
        ⊎ ((wanted w plan offset ≡ some (min (size - offset) (chunk plan))) × (offset < size))
  unfolding wanted
  wanted-cases offset l = elim (Bool-cases (leb size offset)) [
    | inl e ↦ inl (ground arith, ground arith)
    | inr e ↦ inr (ground arith, ground arith)
  ]

  pub copy_loop-Ends :
      (n : ℕ) (c : Copier State)
      → Sound c
      → c.stopped ≡ none
      → size - c.offset < n
      → Ends Done (copy_loop w plan n limit c)
  unfolding copy_loop
  copy_loop-Ends zero c i s h = absurd (omega arith)
  copy_loop-Ends (suc n) c i s h =
      let (d, stopping) = should_stop w c in
      let (j, t, o, a) =
        should_stop-Inv w plan content faithful patient size limit small fits c i in
      elim (Bool-cases stopping) [
        | inl q ↦ rw (q, copy_loop) (_, refl, (j, inl (inr (t ∙ s, a q))))
        | inr q ↦ elim (wanted-cases d.offset j.low) [
          | inl (e, all) ↦ rw (q, e, copy_loop) (_, refl, (j, inr (t ∙ s, all)))
          | inr (e, more) ↦
              let want = min (size - d.offset) (chunk plan) in
              let step =
                copy_chunk-Ends want d j (t ∙ s) (omega (arith, chunk_pos)) (omega arith)
                  (omega arith) in
              rw (q, e, copy_loop)
                (Ends->>= step (λ r x.
                  end_chunk-Ends (λ c. copy_loop w plan n limit (progress w false c)) r x
                    (λ g i s l.
                      copy_loop-Ends n (progress w false g)
                        (progress-Inv w plan content faithful patient size limit small fits false g
                          i)
                        (progress_stopped w plan content faithful patient size limit small fits
                            false g
                          ∙ s)
                        (omega (
                          arith,
                          progress_offset w plan content faithful patient size limit small fits
                              false g,
                        )))))
        ]
      ]
