-- ===== src/Api.antt =====
-- The public functions of src/qdb.c, one child module for each group. A function works on a handle;
-- a null handle is none, so the tests `!db` have no counterpart. A C string is its bytes up to the
-- NUL, `none` where the pointer is NULL; so its `strlen` is its length.
pub mod Push
pub mod Pop
pub mod Settle
pub mod Compact
pub mod Durable
pub mod WellFormed
pub mod Stats
pub mod Wal
pub mod Check
pub mod Open
