-- ===== src/RawCopy/World.antt =====
-- What the copy of src/engines/raw.rs is given: the plan, the errors of the operating system, and
-- the source, destination and observer, which are parameters.
use dfdisk.Prelude.{
  ℕ, ◌+◌, ◌*◌, ◌≤◌, ◌<◌, ◌≡◌, Bool, true, false, ◌||◌, Option, none, some, List, [], ◌∷◌, ◌==◌,
  if◌then◌else◌, max, div_ceil, length,
}

pub data OnReadError : Type 0 where
  stop zero_fill : OnReadError

-- The kinds of `io::Error` that the copy tells apart.
pub data IoErrorKind : Type 0 where
  interrupted storage_full write_zero other : IoErrorKind

pub record IoError : Type 0 where
  pub raw_os_error : Option ℕ
  pub kind : IoErrorKind

pub record CopyPlan : Type 0 where
  pub sector_size : ℕ
  pub length : Option ℕ
  pub on_read_error : OnReadError
  pub loss_threshold_sectors : ℕ
  pub chunk_size : ℕ

abbrev pub source_loss_sectors : ℕ
source_loss_sectors = 4096

abbrev pub default_chunk_size : ℕ
default_chunk_size = 1048576

unfoldable pub new_plan : ℕ → Option ℕ → OnReadError → CopyPlan
new_plan sector_size len on_read_error = record {
  sector_size = sector_size;
  length = len;
  on_read_error = on_read_error;
  loss_threshold_sectors = source_loss_sectors;
  chunk_size = default_chunk_size;
}

abbrev pub sector : CopyPlan → ℕ
sector p = max p.sector_size 512

unfoldable pub round_up : ℕ → ℕ → ℕ
round_up len unit = div_ceil len unit * unit

abbrev pub chunk : CopyPlan → ℕ
chunk p = round_up (max p.chunk_size (sector p)) (sector p)

pub data StopKind : Type 0 where
  read_error read_failed source_lost source_ended destination_full write_failed : StopKind

abbrev pub is_source_side : StopKind → Bool
is_source_side read_error = true
is_source_side read_failed = true
is_source_side source_lost = true
is_source_side source_ended = true
is_source_side _ = false

pub record CopyStop : Type 0 where
  pub kind : StopKind
  pub offset : ℕ

pub record CopyProgress : Type 0 where
  pub bytes_done : ℕ
  pub unreadable_sectors : ℕ
  pub finished : Bool

-- The calls of the observer, in order.
pub data Observed : Type 0 where
  bytes_written : ℕ → List ℕ → Observed
  progressed : CopyProgress → Observed
  unreadable : ℕ → ℕ → IoError → Bool → Observed

pub data ReadClass : Type 0 where
  lost fatal media : ReadClass

-- ENODEV, ENXIO, ENOMEDIUM; EINVAL, EBADF, EFAULT, EISDIR
abbrev class_of_errno : ℕ → ReadClass
class_of_errno n =
    if n == 19 || n == 6 || n == 123
    then lost
    else if n == 22 || n == 9 || n == 14 || n == 21
    then fatal
    else media

unfoldable pub classify_read_error : IoError → ReadClass
classify_read_error e = elim e.raw_os_error [ none ↦ media | some n ↦ class_of_errno n ]

-- ENOSPC, EDQUOT
abbrev full_errno : Option ℕ → Bool
full_errno none = false
full_errno (some n) = n == 28 || n == 122

abbrev is_storage_full : IoErrorKind → Bool
is_storage_full storage_full = true
is_storage_full _ = false

unfoldable pub is_destination_full : IoError → Bool
is_destination_full e = full_errno e.raw_os_error || is_storage_full e.kind

pub data ReadResult : Type 0 where
  got : List ℕ → ReadResult
  read_failed : IoError → ReadResult

pub data WriteResult : Type 0 where
  accepted : ℕ → WriteResult
  write_failed : IoError → WriteResult

-- The source (`ReadAt`), the destination (`Write`) and the abort flag of the observer, over one
-- state, so that any call may change what later ones return.
pub record World : Type 1 where
  pub State : Type 0
  -- offset and length of the buffer
  pub read_at : State → ℕ → ℕ → State × ReadResult
  pub write : State → List ℕ → State × WriteResult
  pub should_stop : State → State × Bool

-- The bytes of the source from an offset on.
abbrev pub ReadsFrom : (ℕ → ℕ) → ℕ → List ℕ → Type 0
ReadsFrom content offset [] = Unit
ReadsFrom content offset (b ∷ bs) = (b ≡ content offset) × ReadsFrom content (offset + 1) bs

-- What `Read` and `Write` document: a read returns no more than the buffer holds, and a write
-- accepts no more than it is given. The source holds `content`: whatever it returns is from there.
pub record IsFaithful (w : World) (content : ℕ → ℕ) : Type 0 where
  pub read_short :
      (s : w.State) (offset len : ℕ) (bytes : List ℕ)
      → (w.read_at s offset len).1 ≡ got bytes
      → length bytes ≤ len
  pub read_true :
      (s : w.State) (offset len : ℕ) (bytes : List ℕ)
      → (w.read_at s offset len).1 ≡ got bytes
      → ReadsFrom content offset bytes
  pub write_short :
      (s : w.State) (bytes : List ℕ) (n : ℕ) → (w.write s bytes).1 ≡ accepted n → n ≤ length bytes

-- The destination interrupts a write only so often: `patience` bounds how often from a state on.
pub record IsPatient (w : World) (patience : w.State → ℕ) : Type 0 where
  pub reads : (s : w.State) (offset len : ℕ) → patience (w.read_at s offset len).0 ≤ patience s
  pub asks : (s : w.State) → patience (w.should_stop s).0 ≤ patience s
  pub writes : (s : w.State) (bytes : List ℕ) → patience (w.write s bytes).0 ≤ patience s
  pub interrupts :
      (s : w.State) (bytes : List ℕ) (e : IoError)
      → (w.write s bytes).1 ≡ write_failed e
      → e.kind ≡ interrupted
      → patience (w.write s bytes).0 < patience s
