-- ===== src/Router.antt =====
-- http/httpserver.cpp and http/httpserver.h: the routing part of the server. Paths are cut into
-- segments (Segments), routes stand in a prefix tree (Tree) that is compared with the list of its
-- routes (Found, Insert, Kept, Routes), and route groups join prefixes (Group).
pub mod Segments
pub mod Tree
pub mod Found
pub mod Insert
pub mod Kept
pub mod Routes
pub mod Group
mod Tests
