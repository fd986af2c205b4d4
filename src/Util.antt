-- ===== src/Util.antt =====
-- client/src/util.ts, one module for each group of its functions.
pub mod SortBy
pub mod Fetch
pub mod TrimUrl
