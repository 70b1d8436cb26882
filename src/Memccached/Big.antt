-- ===== src/Memccached/Big.antt =====
-- memccached_big_set and memccached_big_get of src/memccached.c, from one to the other.
mod Index
pub mod RoundTrip
pub mod Repeated
pub use Index.*
mod Examples
