-- ===== src/Frontend.antt =====
-- The front end's helpers on texts and bytes (`frontend/src/stringutils.cc`, `url.cc`,
-- `chunk.cc`, `message.cc`).
pub mod Strings
pub mod Ordered
pub mod Bytes
pub mod Slots
pub mod Cells
pub mod Json
pub mod Url
pub mod Chunks
pub mod Messages
