-- ===== src/ApiStrings.antt =====
-- The strings of API messages in vpp-plugin/src/vlibapi/mod.rs. A string is the list of its bytes; that
-- a `str` holds UTF-8, which `to_str` checks, plays no part. `Fixed` has `ApiFixedString`, `Counted`
-- has `ApiString`.
pub mod Fixed
pub mod Counted
pub mod Laws
mod Tests
