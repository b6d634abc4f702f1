-- ===== src/Columns.antt =====
-- yrs/src/updates/encoder.rs and yrs/src/updates/decoder.rs: the column encodings of the second
-- version of the update format, which join equal values in runs.
pub mod Runs
pub mod UIntOpt
pub mod IntDiff
pub mod Rle
pub mod Usize
pub mod Frame
pub mod Strings
