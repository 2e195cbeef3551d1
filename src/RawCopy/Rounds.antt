-- ===== src/RawCopy/Rounds.antt =====
-- The rounds of the copy of src/engines/raw.rs, with a size to copy: each ends and keeps the image in
-- accord with the table.
use dfdisk.Prelude.{
  ℕ, zero, suc, ◌+◌, ◌-◌, ◌≤◌, ◌<◌, ◌≡◌, refl, ◌∙◌, Bool, true, false, not, Option, none, some,
  List, [], ◌∷◌, ◌++◌, arith, ltb, leb, if◌then◌else◌, length, take, drop, replicate, length-take,
  length-replicate, take-append-drop, Bool-cases, inl, inr, ◌⊎◌, u64_max, min, max,
}
use mathlib.Core.List.{append-nil}
use dfdisk.RawCopy.World.{
  World, CopyPlan, sector, chunk, IoError, StopKind, unreadable, ReadsFrom, IsFaithful, IsPatient,
  ReadResult, got, read_failed, source_ended, source_lost, read_error, ReadClass, lost, fatal,
  media, classify_read_error,
}
use dfdisk.RawCopy.Copier.{Copier, stop_at, progress, should_stop, source_ended_here, fatal_or_lost}
use dfdisk.RawCopy.Loop.{is_zero_fill, write_read, substitute, salvage_sector, salvage_loop}
use dfdisk.RawCopy.Ends.{Ends, Ends->>=, Ends-map, ReadsFrom-append, ReadsFrom-replicate}
use dfdisk.RawCopy.Integrity.{
  data_of, data_of-append, Inv, Inv-like, After, stop_at-After, write-Ends,
}

ReadClass-cases : (k : ReadClass) → (k ≡ lost) ⊎ ((k ≡ fatal) ⊎ (k ≡ media))
ReadClass-cases lost = inl refl
ReadClass-cases fatal = inr (inl refl)
ReadClass-cases media = inr (inr refl)

pub ReadResult-cases :
    (r : ReadResult)
    → (r ≡ got [])
      ⊎ (((b : ℕ) × (bs : List ℕ) × (r ≡ got (b ∷ bs))) ⊎ ((e : IoError) × (r ≡ read_failed e)))
ReadResult-cases (got []) = inl refl
ReadResult-cases (got (b ∷ bs)) = inr (inl (b, bs, refl))
ReadResult-cases (read_failed e) = inr (inr (e, refl))

module _ (w : World) (plan : CopyPlan) (content : ℕ → ℕ) (faithful : IsFaithful w content)
    {patience : w.State → ℕ} (patient : IsPatient w patience) (size limit : ℕ)
    (small : size ≤ u64_max) (fits : plan.length ≡ some size) where
  open w use {State}

  abbrev pub Kept : Copier State → Type 0
  Kept = Inv w plan content faithful patient size limit small

  abbrev pub Then : ℕ → Copier State × Bool → Type 0
  Then = After w plan content faithful patient size limit small

  pub should_stop-Inv :
      (c : Copier State)
      → Kept c
      → Kept (should_stop w c).0
        × ((should_stop w c).0.stopped ≡ c.stopped)
        × ((should_stop w c).0.offset ≡ c.offset)
        × ((should_stop w c).1 ≡ true → (should_stop w c).0.aborted ≡ true)
  unfolding should_stop
  should_stop-Inv c i = (
    Inv-like w plan content faithful patient size limit small i (patient.asks c.state) refl refl
        refl refl refl,
    refl,
    refl,
    λ a. a,
  )

  pub progress-Inv : (finished : Bool) (c : Copier State) → Kept c → Kept (progress w finished c)
  unfolding progress
  progress-Inv finished c i =
      Inv-like w plan content faithful patient size limit small i (omega arith) refl refl
        (data_of-append c.observed _ ∙ append-nil (data_of c.observed)) refl refl

  pub progress_offset :
      (finished : Bool) (c : Copier State) → (progress w finished c).offset ≡ c.offset
  unfolding progress
  progress_offset finished c = refl

  pub progress_stopped :
      (finished : Bool) (c : Copier State) → (progress w finished c).stopped ≡ c.stopped
  unfolding progress
  progress_stopped finished c = refl

  pub source_ended_here-After :
      (from : ℕ) (c : Copier State) → Kept c → Then from (source_ended_here w plan c, false)
  unfolding source_ended_here
  source_ended_here-After from c i =
      let e : source_ended_here w plan c ≡ stop_at w source_ended c = ground arith in
      rw e (stop_at-After w plan content faithful patient size limit small from source_ended c i)

  -- After the write of what was read.
  end_read-Ends :
      (from : ℕ) (ends : Bool) (r : Copier State × Bool)
      → Then from r
      → Ends (Then from) (
          if not r.1
          then some (r.0, false)
          else if ends
          then some (source_ended_here w plan r.0, false)
          else some (r.0, true))
  end_read-Ends from ends (c, false) a = (_, refl, a)
  end_read-Ends from true (c, true) (i, s, h) = (_, refl, source_ended_here-After from c i)
  end_read-Ends from false (c, true) a = (_, refl, a)

  pub weaken :
      {from later : ℕ} (r : Copier State × Bool) → from ≤ later → Then later r → Then from r
  weaken (c, false) h a = a
  weaken (c, true) h (i, s, l) = (i, s, omega arith)

  -- The bytes that a read returned.
  pub write_read-Ends :
      (bytes : List ℕ) (len : ℕ) (ends : Bool) (c : Copier State)
      → Kept c
      → c.stopped ≡ none
      → 0 < min (length bytes) len
      → len ≤ chunk plan
      → c.offset + len ≤ size
      → ReadsFrom content c.offset bytes
      → Ends (Then (c.offset + 1)) (write_read w plan limit bytes len ends c)
  unfolding write_read
  write_read-Ends bytes len ends c i s pos m l r =
      let n = min (length bytes) len in
      let short : length (take n bytes) ≡ n = omega (arith, length-take n bytes) in
      let read : ReadsFrom content c.offset (take n bytes ++ drop n bytes) =
        rw (take-append-drop n bytes) r in
      let d : Copier State = record c { consecutive = 0 } in
      let inv : Kept d =
        Inv-like w plan content faithful patient size limit small i (omega arith) refl refl refl
          refl refl in
      Ends->>=
        (write-Ends w plan content faithful patient size limit small (take n bytes) false d inv s
          (λ q. absurd (cc)) (omega arith) (omega arith)
          (ReadsFrom-append content c.offset (take n bytes) (drop n bytes) read))
        (λ r a. end_read-Ends (c.offset + 1) ends r (weaken r (omega arith) a))

  -- After the write of the zeros for an unreadable sector.
  end_zeros-Ends :
      (from : ℕ) (r : Copier State × Bool)
      → Then from r
      → Ends (Then from) (
          if not r.1
          then some (r.0, false)
          else if leb (max plan.loss_threshold_sectors 1) r.0.consecutive
          then some (stop_at w source_lost r.0, false)
          else some (r.0, true))
  end_zeros-Ends from (c, false) a = (_, refl, a)
  end_zeros-Ends from (c, true) (i, s, h) =
      elim (Bool-cases (leb (max plan.loss_threshold_sectors 1) c.consecutive)) [
        | inl e ↦ rw e (
          _,
          refl,
          stop_at-After w plan content faithful patient size limit small from source_lost c i,
        )
        | inr e ↦ rw e (_, refl, (i, s, h))
      ]

  -- The copier after an unreadable sector was counted and observed.
  abbrev after_loss : ℕ → IoError → Bool → ℕ → Copier State → Copier State
  after_loss len e fill k c = record c {
    observed = c.observed ++ unreadable c.offset len e fill ∷ [];
    unreadable_sectors = c.unreadable_sectors + 1;
    consecutive = k;
  }

  after_loss-Inv :
      (len : ℕ) (e : IoError) (fill : Bool) (k : ℕ) (c : Copier State)
      → Kept c
      → Kept (after_loss len e fill k c)
  after_loss-Inv len e fill k c i =
      Inv-like w plan content faithful patient size limit small i (omega arith) refl refl
        (data_of-append c.observed _ ∙ append-nil (data_of c.observed)) refl refl

  substitute-Ends :
      (len : ℕ) (e : IoError) (c : Copier State)
      → Kept c
      → c.stopped ≡ none
      → 0 < len
      → len ≤ chunk plan
      → c.offset + len ≤ size
      → Ends (Then (c.offset + 1)) (substitute w plan limit len e c)
  unfolding substitute
  substitute-Ends len e c i s pos m l =
      let full : length (replicate {A = ℕ} len 0) ≡ len = length-replicate len 0 in
      elim (Bool-cases (is_zero_fill plan.on_read_error)) [
        | inl f ↦
            let lost = after_loss len e true (c.consecutive + 1) c in
            let put =
              write-Ends w plan content faithful patient size limit small (replicate len 0) true
                lost (after_loss-Inv len e true (c.consecutive + 1) c i) s (λ q. f) (omega arith)
                (omega arith) (ReadsFrom-replicate len 0 c.offset) in
            rw f (Ends->>= put (λ r a. end_zeros-Ends (c.offset + 1) r (weaken r (omega arith) a)))
        | inr f ↦ rw f (
          _,
          refl,
          stop_at-After w plan content faithful patient size limit small (c.offset + 1) read_error
              (after_loss len e false c.consecutive c)
              (after_loss-Inv len e false c.consecutive c i),
        )
      ]

  -- A read error: the copy ends, or `retry` takes over.
  pub read_error-Ends :
      (e : IoError) (c : Copier State) (retry : Copier State → Option (Copier State × Bool))
      → Kept c
      → Ends (Then (c.offset + 1)) (retry c)
      → Ends (Then (c.offset + 1)) (
          if (fatal_or_lost w e c).1
          then some ((fatal_or_lost w e c).0, false)
          else retry (fatal_or_lost w e c).0)
  unfolding fatal_or_lost
  read_error-Ends e c retry i h =
      let halt : (k : StopKind) → Then (c.offset + 1) (stop_at w k c, false) =
        λ k. stop_at-After w plan content faithful patient size limit small (c.offset + 1) k c i in
      elim (ReadClass-cases (classify_read_error e)) [
        | inl l ↦
            let ends : fatal_or_lost w e c ≡ (stop_at w source_lost c, true) = ground arith in
            rw ends (_, refl, halt source_lost)
        | inr (inl f) ↦
            let ends : fatal_or_lost w e c ≡ (stop_at w StopKind.read_failed c, true) =
              ground arith in
            rw ends (_, refl, halt StopKind.read_failed)
        | inr (inr m) ↦ let goes : fatal_or_lost w e c ≡ (c, false) = ground arith in rw goes h
      ]

  -- A read changes the state of the world only.
  pub read-Inv :
      (c : Copier State) (len : ℕ)
      → Kept c
      → Kept (record c { state = (w.read_at c.state c.offset len).0 })
  read-Inv c len i =
      Inv-like w plan content faithful patient size limit small i
        (patient.reads c.state c.offset len) refl refl refl refl refl

  pub sector_pos : 0 < sector plan
  sector_pos = omega arith

  salvage_sector-Ends :
      (end : ℕ) (c : Copier State)
      → Kept c
      → c.stopped ≡ none
      → c.offset < end
      → end ≤ size
      → end ≤ c.offset + chunk plan
      → Ends (Then (c.offset + 1)) (salvage_sector w plan limit end c)
  unfolding salvage_sector
  salvage_sector-Ends end c i s pos l m =
      let (d, stopping) = should_stop w c in
      let (j, t, o, a) = should_stop-Inv c i in
      let len = min (end - d.offset) (sector plan) in
      let (state, r) = w.read_at d.state d.offset (sector plan) in
      let f : Copier State = record d { state = state } in
      let k = read-Inv d (sector plan) j in
      let fresh : 0 < len = omega (arith, sector_pos) in
      let next : (x : Copier State × Bool) → Then (d.offset + 1) x → Then (c.offset + 1) x =
        λ x. weaken x (omega (arith, o)) in
      elim (Bool-cases stopping) [
        | inl q ↦ rw q (_, refl, (j, inr (t ∙ s, a q)))
        | inr q ↦ elim (ReadResult-cases (w.read_at d.state d.offset (sector plan)).1) [
          | inl e ↦ rw (q, e) (_, refl, source_ended_here-After (c.offset + 1) f k)
          | inr (inl (b, bs, e)) ↦
              rw (q, e)
                (Ends-map
                  (write_read-Ends (b ∷ bs) len _ f k (t ∙ s) (omega (arith, sector_pos))
                    (omega arith) (omega arith)
                    (faithful.read_true d.state d.offset (sector plan) (b ∷ bs) e))
                  next)
          | inr (inr (e, r)) ↦
              rw (q, r)
                (Ends-map
                  (read_error-Ends e f (substitute w plan limit len e) k
                    (substitute-Ends len e f k (t ∙ s) fresh (omega arith) (omega arith)))
                  next)
        ]
      ]

  -- The loop goes on if a round returned true.
  round-Ends :
      {to from : ℕ} (k : Copier State → Option (Copier State × Bool)) (r : Copier State × Bool)
      → Then from r
      → ((c : Copier State) → Kept c → c.stopped ≡ none → from ≤ c.offset → Ends (Then to) (k c))
      → Ends (Then to) (elim r.1 [ false ↦ some (r.0, false) | true ↦ k r.0 ])
  round-Ends k (c, false) a h = (_, refl, a)
  round-Ends k (c, true) (i, s, l) h = h c i s l

  pub salvage_loop-Ends :
      (n end : ℕ) (c : Copier State)
      → Kept c
      → c.stopped ≡ none
      → end - c.offset < n
      → end ≤ size
      → end ≤ c.offset + chunk plan
      → Ends (Then end) (salvage_loop w plan n limit end c)
  unfolding salvage_loop
  salvage_loop-Ends zero end c i s h l m = absurd (omega arith)
  salvage_loop-Ends (suc n) end c i s h l m = elim (Bool-cases (ltb c.offset end)) [
    | inl q ↦
        let below : c.offset < end = ground arith in
        rw (q, salvage_loop)
          (Ends->>= (salvage_sector-Ends end c i s below l m) (λ r a.
            round-Ends (λ c. salvage_loop w plan n limit end (progress w false c)) r a
              (λ d j t o.
                salvage_loop-Ends n end (progress w false d) (progress-Inv false d j)
                  (progress_stopped false d ∙ t) (omega (arith, progress_offset false d)) l
                  (omega (arith, progress_offset false d)))))
    | inr q ↦ rw (q, salvage_loop) (_, refl, (i, s, ground arith))
  ]
