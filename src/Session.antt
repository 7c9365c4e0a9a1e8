-- ===== src/Session.antt =====
-- The sessions of http/session.cpp and http/session.h, and the middleware of http/csrf.cpp.
pub mod Json
pub mod RoundTrip
pub mod Flash
pub mod State
pub mod Cookie
pub mod Maps
pub mod Saving
pub mod Middleware
pub mod Tests
