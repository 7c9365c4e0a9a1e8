-- ===== src/Text.antt =====
-- core/ustring.cpp: the text utilities, over byte strings. The functions of <cctype> are those of
-- the "C" locale.
pub mod Chars
pub mod Hex
pub mod Url
pub mod Trim
pub mod Search
pub mod Split
pub mod Number
mod Tests
