-- ===== src/Tests.antt =====
-- Concrete inputs: the theorems applied to them, and runs of the definitions.
mod Flags
mod Tables
mod Verdicts
mod Maps
mod Mounts
mod Copies
mod Digests
mod Fields
mod Files
mod Sizes
mod Lines
mod Destinations
mod Sessions
