-- ===== src/RawCopy/Copier.antt =====
-- `Copier` of src/engines/raw.rs and its methods. The reason of a stop is its kind and offset; a
-- call that returns `none` has used up its fuel.
use dfdisk.Prelude.{
  ℕ, zero, suc, ◌+◌, Bool, true, false, ◌||◌, Option, none, some, List, [], ◌∷◌, ◌++◌, ltb, ◌==◌,
  if◌then◌else◌, length, take, drop,
}
use dfdisk.ReadErrors.{substituted, ReadErrorTable, push}
use dfdisk.Prelude.Optional.{◌>>=◌}
use dfdisk.RawCopy.World.{
  IoError, IoErrorKind, interrupted, write_zero, CopyPlan, StopKind, source_lost, source_ended,
  destination_full, write_failed, CopyStop, Observed, bytes_written, progressed, lost, fatal, media,
  classify_read_error, is_destination_full, WriteResult, accepted, World,
}

-- `accepted` is what the destination has taken, and `hashed` what the hasher was fed.
pub record Copier (S : Type 0) : Type 0 where
  pub state : S
  pub accepted : List ℕ
  pub hashed : List ℕ
  pub observed : List Observed
  pub table : ReadErrorTable
  pub offset : ℕ
  pub unreadable_sectors : ℕ
  pub consecutive : ℕ
  pub stopped : Option CopyStop
  pub aborted : Bool

-- What `write_fully` leaves: the state, the bytes accepted, and the error that ended it.
pub record Written (S : Type 0) : Type 0 where
  pub state : S
  pub taken : List ℕ
  pub error : Option IoError

abbrev pub is_interrupted : IoErrorKind → Bool
is_interrupted interrupted = true
is_interrupted _ = false

abbrev pub no_more_data : IoError
no_more_data = record { raw_os_error = none; kind = write_zero }

module _ (w : World) where
  open w use {State}

  -- `done` bytes of the data were taken before; the loop goes on with the rest.
  unfoldable pub write_fully : ℕ → State → List ℕ → List ℕ → Option (Written State)
  write_fully zero s taken bytes = none
  write_fully (suc fuel) s taken [] = some (record { state = s; taken = taken; error = none })
  write_fully (suc fuel) s taken (b ∷ bs) =
      let (s', r) = w.write s (b ∷ bs) in
      elim r [
        | accepted n ↦ elim (n == 0) [
          | true ↦ some (record { state = s'; taken = taken; error = some no_more_data })
          | false ↦ write_fully fuel s' (taken ++ take n (b ∷ bs)) (drop n (b ∷ bs))
        ]
        | WriteResult.write_failed e ↦ elim (is_interrupted e.kind) [
          | true ↦ write_fully fuel s' taken (b ∷ bs)
          | false ↦ some (record { state = s'; taken = taken; error = some e })
        ]
      ]

  abbrev pub stop_at : StopKind → Copier State → Copier State
  stop_at kind c = record c { stopped = some (record { kind = kind; offset = c.offset }) }

  abbrev pub observe : Observed → Copier State → Copier State
  observe o c = record c { observed = c.observed ++ o ∷ [] }

  unfoldable pub progress : Bool → Copier State → Copier State
  progress finished c =
      observe
        (progressed (record {
          bytes_done = c.offset;
          unreadable_sectors = c.unreadable_sectors;
          finished = finished;
        }))
        c

  unfoldable pub should_stop : Copier State → Copier State × Bool
  should_stop c =
      let (s, asked) = w.should_stop c.state in
      let aborted = asked || c.aborted in (record c { state = s; aborted = aborted }, aborted)

  -- The bytes that a write took, accounted for.
  unfoldable pub account : Bool → State → List ℕ → Copier State → Copier State
  account as_zeros s taken c =
      if ltb 0 (length taken)
      then record c {
        state = s;
        accepted = c.accepted ++ taken;
        hashed = c.hashed ++ taken;
        observed = c.observed ++ bytes_written c.offset taken ∷ [];
        table = if as_zeros then push c.table c.offset (length taken) substituted else c.table;
        offset = c.offset + length taken;
      }
      else record c { state = s }

  abbrev pub end_write : Option IoError → Copier State → Copier State × Bool
  end_write none c = (c, true)
  end_write (some e) c =
      (stop_at (if is_destination_full e then destination_full else write_failed) c, false)

  -- False: a write error ended the copy.
  unfoldable pub write : ℕ → List ℕ → Bool → Copier State → Option (Copier State × Bool)
  write fuel bytes as_zeros c = do
    r ← write_fully fuel c.state [] bytes
    some (end_write r.error (account as_zeros r.state r.taken c))

  -- The source ended at the current offset.
  unfoldable pub source_ended_here : CopyPlan → Copier State → Copier State
  source_ended_here plan c = elim plan.length [ none ↦ c | some len ↦ stop_at source_ended c ]

  -- True: the error ends the copy.
  unfoldable pub fatal_or_lost : IoError → Copier State → Copier State × Bool
  fatal_or_lost e c = elim (classify_read_error e) [
    | lost ↦ (stop_at source_lost c, true)
    | fatal ↦ (stop_at StopKind.read_failed c, true)
    | media ↦ (c, false)
  ]
