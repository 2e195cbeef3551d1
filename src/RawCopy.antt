-- ===== src/RawCopy.antt =====
-- src/engines/raw.rs, the copy loop of the RAW engine: bulk reads, a failed one narrowed down to
-- sectors, every byte written once, hashed and observed.
pub mod World
pub mod Copier
pub mod Loop
pub mod Ends
pub mod Integrity
pub mod Rounds
pub mod Total
pub mod Report
