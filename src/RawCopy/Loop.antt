-- ===== src/RawCopy/Loop.antt =====
-- `salvage`, `finish` and `copy_source` of src/engines/raw.rs. The field `run_start` only feeds
-- the reason of a stop and is left out.
use dfdisk.Prelude.{
  ℕ, zero, suc, ◌+◌, ◌-◌, ◌%◌, Bool, true, false, not, ◌&&◌, Option, none, some, List, [], ◌∷◌, ltb,
  leb, ◌==◌, if◌then◌else◌, min, max, length, take, replicate, Text, codes,
}
use dfdisk.ReadErrors.{unread, ReadErrorTable, empty_table, push}
use dfdisk.RawCopy.World.{
  OnReadError, stop, zero_fill, IoError, CopyPlan, sector, chunk, round_up, read_error, source_lost,
  is_source_side, CopyStop, unreadable, ReadResult, got, World,
}
use dfdisk.Prelude.Optional.{◌>>=◌}
use dfdisk.RawCopy.Copier.{
  Copier, stop_at, observe, progress, should_stop, write, source_ended_here, fatal_or_lost,
}

abbrev pub is_zero_fill : OnReadError → Bool
is_zero_fill zero_fill = true
is_zero_fill stop = false

pub record CopyResult : Type 0 where
  pub bytes_copied : ℕ
  pub hashed : List ℕ
  pub read_errors : ReadErrorTable
  pub unreadable_sectors : ℕ
  pub stopped : Option CopyStop
  pub aborted : Bool

abbrev raw_table_source : Text
raw_table_source = codes "raw engine (sector reads)"

module _ (w : World) (plan : CopyPlan) where
  open w use {State}

  -- The bytes that a positioned read returned, of which `len` are wanted: all of them written.
  -- True: the caller goes on.
  unfoldable pub write_read : ℕ → List ℕ → ℕ → Bool → Copier State → Option (Copier State × Bool)
  write_read limit bytes len ends c = do
    (c, wrote) ←
        write w limit (take (min (length bytes) len) bytes) false (record c { consecutive = 0 })
    if not wrote
        then some (c, false)
        else if ends
        then some (source_ended_here w plan c, false)
        else some (c, true)

  -- A sector that could not be read, `len` bytes of it wanted.
  unfoldable pub substitute : ℕ → ℕ → IoError → Copier State → Option (Copier State × Bool)
  substitute limit len e c =
      let c = record c { unreadable_sectors = c.unreadable_sectors + 1 } in
      let fill = is_zero_fill plan.on_read_error in
      let c = observe w (unreadable c.offset len e fill) c in
      if not fill then some (stop_at w read_error c, false) else do
        (c, wrote) ←
            write w limit (replicate len 0) true (record c { consecutive = c.consecutive + 1 })
        if not wrote
            then some (c, false)
            else if leb (max plan.loss_threshold_sectors 1) c.consecutive
            then some (stop_at w source_lost c, false)
            else some (c, true)

  -- One round of `salvage` below `end`.
  unfoldable pub salvage_sector : ℕ → ℕ → Copier State → Option (Copier State × Bool)
  salvage_sector limit end c =
      let (c, stopping) = should_stop w c in
      let len = min (end - c.offset) (sector plan) in
      let (s, r) = w.read_at c.state c.offset (sector plan) in
      if stopping then some (c, false) else elim r [
        | got [] ↦ some (source_ended_here w plan (record c { state = s }), false)
        | got (b ∷ bs) ↦
            write_read limit (b ∷ bs) len (ltb (min (length (b ∷ bs)) len) len)
              (record c { state = s })
        | ReadResult.read_failed e ↦
            let (c, handled) = fatal_or_lost w e (record c { state = s }) in
            if handled then some (c, false) else substitute limit len e c
      ]

  unfoldable pub salvage_loop : ℕ → ℕ → ℕ → Copier State → Option (Copier State × Bool)
  salvage_loop zero limit end c = none
  salvage_loop (suc n) limit end c = elim (ltb c.offset end) [
    | false ↦ some (c, true)
    | true ↦ do
      (c, go) ← salvage_sector limit end c
      elim go [ false ↦ some (c, false) | true ↦ salvage_loop n limit end (progress w false c) ]
  ]

  unfoldable pub salvage : ℕ → ℕ → Copier State → Option (Copier State × Bool)
  salvage limit want c = salvage_loop limit limit (c.offset + want) c

  -- How much of the source is wanted next; none: it is all copied.
  unfoldable pub wanted : ℕ → Option ℕ
  wanted offset = elim plan.length [
    | none ↦ some (chunk plan)
    | some len ↦ if leb len offset then none else some (min (len - offset) (chunk plan))
  ]

  -- The positioned read of one round of the loop of `copy_source`.
  unfoldable pub copy_chunk : ℕ → ℕ → Copier State → Option (Copier State × Bool)
  copy_chunk limit want c =
      let (s, r) = w.read_at c.state c.offset (min (round_up want (sector plan)) (chunk plan)) in
      elim r [
        | got [] ↦ some (source_ended_here w plan (record c { state = s }), false)
        | got (b ∷ bs) ↦
            let n = min (length (b ∷ bs)) want in
            write_read limit (b ∷ bs) want (ltb n want && not (n % sector plan == 0))
              (record c { state = s })
        | ReadResult.read_failed e ↦
            let (c, handled) = fatal_or_lost w e (record c { state = s }) in
            if handled then some (c, false) else salvage limit want c
      ]

  unfoldable pub copy_loop : ℕ → ℕ → Copier State → Option (Copier State)
  copy_loop zero limit c = none
  copy_loop (suc n) limit c =
      let (c, stopping) = should_stop w c in
      elim stopping [
        | true ↦ some c
        | false ↦ elim (wanted c.offset) [
          | none ↦ some c
          | some want ↦ do
            (c, go) ← copy_chunk limit want c
            elim go [ false ↦ some c | true ↦ copy_loop n limit (progress w false c) ]
        ]
      ]

  abbrev pub mark_unread : Option CopyStop → Option ℕ → Copier State → Copier State
  mark_unread (some s) (some len) c =
      if is_source_side s.kind && ltb c.offset len
      then record c { table = push c.table c.offset (len - c.offset) unread }
      else c
  mark_unread _ _ c = c

  unfoldable pub finish : Copier State → Copier State × CopyResult
  finish c =
      let c = progress w true (mark_unread c.stopped plan.length c) in
      (
        c,
        record {
          bytes_copied = c.offset;
          hashed = c.hashed;
          read_errors = c.table;
          unreadable_sectors = c.unreadable_sectors;
          stopped = c.stopped;
          aborted = c.aborted;
        },
      )

  abbrev pub start : State → Copier State
  start s = record {
    state = s;
    accepted = [];
    hashed = [];
    observed = [];
    table = empty_table (sector plan) raw_table_source;
    offset = 0;
    unreadable_sectors = 0;
    consecutive = 0;
    stopped = none;
    aborted = false;
  }

  -- `limit` is the fuel of each loop.
  unfoldable pub copy_source : ℕ → State → Option (Copier State × CopyResult)
  copy_source limit s = do c ← copy_loop limit limit (start s); some (finish c)
