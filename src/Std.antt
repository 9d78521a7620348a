-- ===== src/Std.antt =====
-- What the program uses of the Go library: text as bytes, `map`, `container/list`, and the pairing
-- of the last two that makes its bounded tables.
pub mod Int64
pub mod Dict
pub mod Linked
pub mod Text
pub mod Positions
pub mod Index
pub mod Keys
pub mod Search
pub mod Sort
pub mod Words
pub mod Url
pub mod Table
