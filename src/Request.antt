-- ===== src/Request.antt =====
-- `HttpRequest` of http/httprequest.cpp and http/httprequest.h: the incremental parser of requests
-- over the buffer of core/ubuffer.h. Positions in the buffer are offsets into its vector, and an
-- `int` is its 32-bit pattern.
pub mod Numbers
pub mod Scan
pub mod Resume
pub mod State
pub mod Parse
pub mod Lines
pub mod Receive
pub mod Fields
pub mod Described
pub mod Head
pub mod Whole
pub mod Kept
pub mod Progress
mod Tests
