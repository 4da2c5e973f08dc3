-- ===== src/File.antt =====
-- The file commands of daemon/file.c.
pub mod Dates
pub mod Dos
pub mod Arguments
pub mod Upload
pub mod Write
pub mod Append
pub mod Ram
pub mod Short
pub mod SetDate
pub mod Protect
pub mod Crc
pub mod Read
pub mod Checksum
mod Tests
