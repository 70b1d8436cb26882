-- ===== src/Conf.antt =====
-- src/conf.c, src/confitems.c and their tables: the configuration.
pub mod Parsers
pub mod Table
pub mod Setting
pub mod Line
pub mod File
pub mod Print
pub mod Replace
pub mod Written
pub mod Kept
pub mod Change
pub mod Simulate
pub mod Changed
pub mod Edited
pub mod Sound
pub mod Typed
pub mod Environ
pub mod Sloppiness
pub mod Formats
pub mod Created
mod Examples
