-- ===== src/Tests/Copies.antt =====
-- A source of three sectors whose second cannot be read, and a destination that interrupts once.
use dfdisk.Prelude.{
  ℕ, zero, suc, ◌+◌, ◌-◌, ◌%◌, ◌≤◌, ◌<◌, ◌≡◌, refl, false, ◌&&◌, none, some, List, [], ◌∷◌, arith,
  ltb, if◌then◌else◌, length, get_elem?, min,
}
use dfdisk.ReadErrors.{substituted, unread, bytes_of}
use dfdisk.ReadErrors.Coverage.{state_at}
use dfdisk.RawCopy.World.{
  World, CopyPlan, OnReadError, stop, zero_fill, IoError, interrupted, other, ReadResult, got,
  read_failed, WriteResult, accepted, write_failed, ReadsFrom, IsFaithful, IsPatient, chunk,
  round_up,
}
use dfdisk.RawCopy.Loop.{copy_source}
use dfdisk.RawCopy.Ends.{Ends}
use dfdisk.RawCopy.Integrity.{image_byte, data_of}
use dfdisk.RawCopy.Report.{
  Accounted, copy_source-streams, copy_source-image, copy_source-accounts, copy_source-policy,
}

abbrev content : ℕ → ℕ
content x = x % 7

abbrev bytes_from : ℕ → ℕ → List ℕ
bytes_from offset zero = []
bytes_from offset (suc n) = content offset ∷ bytes_from (offset + 1) n

length-bytes_from : (offset n : ℕ) → length (bytes_from offset n) ≡ n
length-bytes_from offset zero = refl
length-bytes_from offset (suc n) = omega (arith, length-bytes_from (offset + 1) n)

bytes_from-ReadsFrom : (offset n : ℕ) → ReadsFrom content offset (bytes_from offset n)
bytes_from-ReadsFrom offset zero = tt
bytes_from-ReadsFrom offset (suc n) = (refl, bytes_from-ReadsFrom (offset + 1) n)

abbrev io_error : IoError
io_error = record { raw_os_error = some 5; kind = other }

abbrev interruption : IoError
interruption = record { raw_os_error = some 4; kind = interrupted }

abbrev read_disk : ℕ → ℕ → ReadResult
read_disk offset len =
    if ltb offset 1024 && ltb 512 (offset + len)
    then read_failed io_error
    else got (bytes_from offset (min len (1536 - offset)))

abbrev write_disk : ℕ → List ℕ → ℕ × WriteResult
write_disk zero bytes = (0, accepted (length bytes))
write_disk (suc n) bytes = (n, write_failed interruption)

-- The state counts the interruptions to come.
abbrev disk : World
disk = record {
  State = ℕ;
  read_at = λ s offset len. (s, read_disk offset len);
  write = write_disk;
  should_stop = λ s. (s, false);
}

read_disk-bytes :
    (offset len : ℕ) (bytes : List ℕ)
    → read_disk offset len ≡ got bytes
    → bytes ≡ bytes_from offset (min len (1536 - offset))
read_disk-bytes offset len bytes e = ground arith

write_disk-le :
    (s : ℕ) (bytes : List ℕ) (n : ℕ) → (write_disk s bytes).1 ≡ accepted n → n ≤ length bytes
write_disk-le zero bytes n e = ground arith
write_disk-le (suc s) bytes n e = ground arith

write_disk-calms : (s : ℕ) (bytes : List ℕ) → (write_disk s bytes).0 ≤ s
write_disk-calms zero bytes = omega arith
write_disk-calms (suc s) bytes = omega arith

write_disk-interrupts :
    (s : ℕ) (bytes : List ℕ) (e : IoError)
    → (write_disk s bytes).1 ≡ write_failed e
    → e.kind ≡ interrupted
    → (write_disk s bytes).0 < s
write_disk-interrupts zero bytes e f i = ground arith
write_disk-interrupts (suc s) bytes e f i = omega arith

disk-IsFaithful : IsFaithful disk content
disk-IsFaithful = record {
  read_short = λ s offset len bytes e. ground (
    arith,
    read_disk-bytes offset len bytes e,
    length-bytes_from offset (min len (1536 - offset)),
  );
  read_true = λ s offset len bytes e.
      rw (read_disk-bytes offset len bytes e)
        (bytes_from-ReadsFrom offset (min len (1536 - offset)));
  write_short = write_disk-le;
}

disk-IsPatient : IsPatient disk (λ s. s)
disk-IsPatient = record {
  reads = λ s offset len. omega arith;
  asks = λ s. omega arith;
  writes = write_disk-calms;
  interrupts = write_disk-interrupts;
}

abbrev disk_plan : CopyPlan
disk_plan = record {
  sector_size = 512;
  length = some 1536;
  on_read_error = zero_fill;
  loss_threshold_sectors = 4096;
  chunk_size = 1024;
}

abbrev cautious_plan : CopyPlan
cautious_plan = record disk_plan { on_read_error = stop }

enough_fuel : (p : OnReadError) → 1536 + chunk (record disk_plan { on_read_error = p }) + 1 < 3000
unfolding round_up
enough_fuel p = ground arith

copy_source-streams_example :
    Ends
      (λ (c, r).
        (length c.accepted ≡ r.bytes_copied)
        × (r.hashed ≡ c.accepted)
        × (data_of c.observed ≡ c.accepted)
        × (r.bytes_copied ≤ 1536))
      (copy_source disk disk_plan 3000 1)
copy_source-streams_example =
    copy_source-streams disk disk_plan content disk-IsFaithful disk-IsPatient 1536 3000
      (omega arith) refl 1 (enough_fuel zero_fill)

copy_source-image_example :
    Ends
      (λ (c, r). get_elem? c.accepted 700 ≡ (
        if ltb 700 (r.bytes_copied + bytes_of r.read_errors unread)
        then image_byte (state_at r.read_errors.ranges 700) (content 700)
        else none))
      (copy_source disk disk_plan 3000 1)
copy_source-image_example =
    copy_source-image disk disk_plan content disk-IsFaithful disk-IsPatient 1536 3000 (omega arith)
      refl 1 700 (enough_fuel zero_fill)

copy_source-accounts_example :
    Ends
      (λ (c, r). Accounted 1536 r.stopped r.aborted r.bytes_copied (bytes_of r.read_errors unread))
      (copy_source disk disk_plan 3000 1)
copy_source-accounts_example =
    copy_source-accounts disk disk_plan content disk-IsFaithful disk-IsPatient 1536 3000
      (omega arith) refl 1 (enough_fuel zero_fill)

copy_source-policy_example :
    Ends (λ (c, r). bytes_of r.read_errors substituted ≡ 0) (copy_source disk cautious_plan 3000 1)
copy_source-policy_example =
    copy_source-policy disk cautious_plan content disk-IsFaithful disk-IsPatient 1536 3000
      (omega arith) refl 1 (enough_fuel stop) refl
