-- ===== src/Redis.antt =====
-- The Redis client of core/uredis.cpp and core/uredis.h.
pub mod Reply
pub mod Parse
pub mod Resume
pub mod Fuel
pub mod Wire
pub mod RoundTrip
pub mod Exchange
pub mod Chunks
pub mod Command
pub mod Health
pub mod Pool
pub mod Lock
pub mod Tests
pub mod Runs
