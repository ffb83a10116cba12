-- ===== src/ApiGen.antt =====
-- vpp-plugin-api-gen/src/parser.rs: what is made of the statements of an API file. The grammar that
-- reads them is a parameter, and so is the CRC-32 of the crate crc32fast.
pub mod Texts
pub mod Syntax
pub mod Crc
pub mod Messages
pub mod Table
pub mod Statements
pub mod Services
pub mod Imports
pub mod ServiceLaws
pub mod ImportLaws
pub mod EnumLaws
pub mod VlaTypes
pub mod VlaLaws
pub mod VlaDepth
pub mod Ranked
mod Tests
