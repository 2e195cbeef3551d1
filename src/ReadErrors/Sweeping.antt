-- ===== src/ReadErrors/Sweeping.antt =====
-- The sweep of `normalise` in src/models/outcome.rs.
use native.Mathlib.Nat.{le_refl}
use dfdisk.Prelude.{
  ℕ, zero, suc, ◌+◌, ◌≤◌, ◌<◌, ◌≡◌, ◌∙◌, ap, Bool, true, Option, List, [], ◌∷◌, arith, ltb, ltb→lt,
  ◌==◌, if◌then◌else◌, u64_max, length, Bool-cases, inl, inr,
}
use dfdisk.Prelude.Int.{ℤ, pos_part, neg_part, +ℤ_parts}
use dfdisk.ReadErrors.{
  RangeKind, substituted, unread, windows_ordered, Event, Sweep, current, flush, count_event,
  take_group, sweep,
}
use dfdisk.ReadErrors.Coverage.{state_at, verdict, Within, Within-le, covered-beyond}
use dfdisk.ReadErrors.Extend.{extend-covered, extend-Within, extend-windows}
use dfdisk.ReadErrors.Levels.{ups, downs, Ascending, Ascending-ups_zero}

abbrev pub counter : RangeKind → Sweep → ℤ
counter substituted s = s.substituted_count
counter unread s = s.unread_count

-- The kind has more increments than decrements up to `x`, those counted before included.
abbrev pub above : RangeKind → Sweep → ℕ → List Event → Bool
above k s x es = ltb (neg_part (counter k s) + downs k x es) (pos_part (counter k s) + ups k x es)

-- What the sweep still has to say of `x`.
abbrev pub pending : Sweep → ℕ → List Event → Option RangeKind
pending s x es = verdict (above substituted s x es) (above unread s x es)

take_group_level :
    (k : RangeKind) (to x : ℕ) (s : Sweep) (es : List Event)
    → to ≤ x
    → pos_part (counter k (take_group to s es).0)
        + ups k x (take_group to s es).1
        + neg_part (counter k s)
        + downs k x es
      ≡ neg_part (counter k (take_group to s es).0)
        + downs k x (take_group to s es).1
        + pos_part (counter k s)
        + ups k x es
unfolding take_group
take_group_level k to x s [] h = omega arith
take_group_level k to x s (e ∷ es) h = ground (
  arith,
  take_group_level k to x (count_event e.kind e.delta s) es h,
  +ℤ_parts (counter k s) e.delta,
)

take_group_keeps :
    (to : ℕ) (s : Sweep) (es : List Event)
    → ((take_group to s es).0.out ≡ s.out) × (length (take_group to s es).1 ≤ length es)
unfolding take_group
take_group_keeps to s [] = ground arith
take_group_keeps to s (e ∷ es) =
    ground (arith, take_group_keeps to (count_event e.kind e.delta s) es)

take_group-Ascending :
    (to : ℕ) (s : Sweep) (es : List Event) → Ascending to es → Ascending to (take_group to s es).1
unfolding take_group
take_group-Ascending to s [] a = tt
take_group-Ascending to s (e ∷ es) a = elim (Bool-cases (e.at == to)) [
  | inl same ↦ rw same (take_group-Ascending to (count_event e.kind e.delta s) es (ground arith))
  | inr other ↦ rw other a
]

-- What holds between two rounds: the ranges written are in order and end behind the position, and
-- all that is counted up comes down.
pub record Inv (s : Sweep) (es : List Event) : Type 0 where
  pub within : Within s.prev_pos s.out
  pub ordered : windows_ordered s.out ≡ true
  pub in_range : s.prev_pos ≤ u64_max
  pub ascending : Ascending s.prev_pos es
  pub balanced_substituted :
      neg_part s.substituted_count + downs substituted u64_max es
      ≡ pos_part s.substituted_count + ups substituted u64_max es
  pub balanced_unread :
      neg_part s.unread_count + downs unread u64_max es
      ≡ pos_part s.unread_count + ups unread u64_max es

module _ (s : Sweep) (to : ℕ) (forward : s.prev_pos ≤ to) (in_range : to ≤ u64_max) where
  flush-Within :
      Within s.prev_pos s.out
      → windows_ordered s.out ≡ true
      → Within to (flush s to) × (windows_ordered (flush s to) ≡ true)
  unfolding flush
  flush-Within w o = elim (Bool-cases (ltb s.prev_pos to)) [
    | inl f ↦
        let lt = ltb→lt s.prev_pos to f in
        ground (
          arith,
          Within-le s.out forward w,
          extend-Within s.prev_pos to substituted lt in_range s.out w,
          extend-Within s.prev_pos to unread lt in_range s.out w,
          extend-windows s.prev_pos to substituted lt in_range s.out w o,
          extend-windows s.prev_pos to unread lt in_range s.out w o,
        )
    | inr f ↦ ground (arith, Within-le s.out forward w)
  ]

  -- The new segment is reported with the kind that the counters give it, and nothing else changes.
  flush_state :
      (x : ℕ)
      → Within s.prev_pos s.out
      → x < to
      → state_at (flush s to) x ≡ (if ltb x s.prev_pos then state_at s.out x else current s)
  unfolding flush
  flush_state x w h = elim (Bool-cases (ltb s.prev_pos to)) [
    | inl f ↦
        let lt = ltb→lt s.prev_pos to f in
        ground (
          arith,
          extend-covered s.prev_pos to substituted lt in_range s.out substituted x w,
          extend-covered s.prev_pos to substituted lt in_range s.out unread x w,
          extend-covered s.prev_pos to unread lt in_range s.out substituted x w,
          extend-covered s.prev_pos to unread lt in_range s.out unread x w,
          covered-beyond substituted s.out x w,
          covered-beyond unread s.out x w,
        )
    | inr f ↦ ground arith
  ]

-- The state of a round, as `sweep` makes it.
abbrev grouped : Sweep → ℕ → List Event → Sweep × List Event
grouped s to es = take_group to (record s { out = flush s to }) es

abbrev advanced : Sweep → ℕ → List Event → Sweep
advanced s to es = record (grouped s to es).0 { prev_pos = to }

module _ (s : Sweep) (e : Event) (es : List Event) (h : Inv s (e ∷ es)) where
  advanced-Inv : Inv (advanced s e.at (e ∷ es)) (grouped s e.at (e ∷ es)).1
  advanced-Inv =
      let s1 = record s { out = flush s e.at } in
      let w = flush-Within s e.at h.ascending.0 h.ascending.1 h.within h.ordered in
      let kept = take_group_keeps e.at s1 (e ∷ es) in
      record {
        within = rw kept.0 w.0;
        ordered = rw kept.0 w.1;
        in_range = h.ascending.1;
        ascending =
            take_group-Ascending e.at s1 (e ∷ es) (omega arith, h.ascending.1, h.ascending.2);
        balanced_substituted = omega (
          arith,
          take_group_level substituted e.at u64_max s1 (e ∷ es) h.ascending.1,
          h.balanced_substituted,
        );
        balanced_unread = omega (
          arith,
          take_group_level unread e.at u64_max s1 (e ∷ es) h.ascending.1,
          h.balanced_unread,
        );
      }

  -- From the new position on, the rest of the events says what all of them said.
  pending-advanced :
      (x : ℕ)
      → e.at ≤ x
      → pending (advanced s e.at (e ∷ es)) x (grouped s e.at (e ∷ es)).1 ≡ pending s x (e ∷ es)
  pending-advanced x le =
      let s1 = record s { out = flush s e.at } in
      ground (
        arith,
        take_group_level substituted e.at x s1 (e ∷ es) le,
        take_group_level unread e.at x s1 (e ∷ es) le,
      )

  -- Before the new position, the counters alone decide.
  pending-current : (x : ℕ) → x < e.at → pending s x (e ∷ es) ≡ current s
  pending-current x lt =
      let later : Ascending e.at (e ∷ es) = (le_refl e.at, h.ascending.1, h.ascending.2) in
      ground (
        arith,
        Ascending-ups_zero substituted {b = e.at} x (e ∷ es) later lt,
        Ascending-ups_zero unread {b = e.at} x (e ∷ es) later lt,
      )

  -- A round takes the first event at least.
  grouped_shrinks : length (grouped s e.at (e ∷ es)).1 ≤ length es
  unfolding take_group
  grouped_shrinks =
      let s1 = record s { out = flush s e.at } in
      ground (arith, take_group_keeps e.at (count_event e.kind e.delta s1) es)

-- After enough rounds all is written.
pub sweep-Inv :
    (n : ℕ) (s : Sweep) (es : List Event) → length es ≤ n → Inv s es → Inv (sweep n s es) []
unfolding sweep
sweep-Inv zero s [] f h = h
sweep-Inv (suc n) s [] f h = h
sweep-Inv zero s (e ∷ es) f h = absurd (omega arith)
sweep-Inv (suc n) s (e ∷ es) f h =
    sweep-Inv n (advanced s e.at (e ∷ es)) (grouped s e.at (e ∷ es)).1
      (omega (arith, grouped_shrinks s e es h)) (advanced-Inv s e es h)

-- Enough rounds say of every byte what the counters and the events say.
pub sweep_state :
    (n : ℕ) (s : Sweep) (es : List Event) (x : ℕ)
    → length es ≤ n
    → Inv s es
    → state_at (sweep n s es).out x
      ≡ (if ltb x s.prev_pos then state_at s.out x else pending s x es)
unfolding sweep
sweep_state zero s [] x f h =
    ground
      (arith, covered-beyond substituted s.out x h.within, covered-beyond unread s.out x h.within)
sweep_state (suc n) s [] x f h =
    ground
      (arith, covered-beyond substituted s.out x h.within, covered-beyond unread s.out x h.within)
sweep_state zero s (e ∷ es) x f h = absurd (omega arith)
sweep_state (suc n) s (e ∷ es) x f h =
    let next = advanced s e.at (e ∷ es) in
    let rest = (grouped s e.at (e ∷ es)).1 in
    let round =
      sweep_state n next rest x (omega (arith, grouped_shrinks s e es h)) (advanced-Inv s e es h) in
    let out_state : state_at next.out x ≡ state_at (flush s e.at) x =
      ap (λ o. state_at o x) (take_group_keeps e.at (record s { out = flush s e.at }) (e ∷ es)).0 in
    round
    ∙ ground (
      arith,
      out_state,
      flush_state s e.at h.ascending.0 h.ascending.1 x h.within,
      pending-advanced s e es h x,
      pending-current s e es h x,
    )
