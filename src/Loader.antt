-- ===== src/Loader.antt =====
-- Programs in memory: os/src/memory.rs, os/src/elf.rs and os/src/loader.rs. A file is the list of its
-- bytes; `usize` and `u64` are numbers below `2 ^ 64`, whose arithmetic wraps.
pub mod Memory
pub mod Headers
pub mod Parse
pub mod Image
pub mod Bounds
pub mod Place
pub mod Load
pub mod Relocate
pub mod Format
pub mod Tables
pub mod Rows
pub mod WellFormed
