-- ===== src/Connection.antt =====
-- http/httpconnection.cpp: the functions with which a connection reads a request's path, query and
-- byte range, and goes on with a partial write.
pub mod SafePath
pub mod Range
pub mod Write
pub mod Query
pub mod Form
mod Tests
