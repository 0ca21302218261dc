-- ===== src/Feed.antt =====
-- src/feed: bytes on the wire, message parsing, framing, the recovery of gaps, and the feed thread.
pub mod Bytes
pub mod Event
pub mod Itch
pub mod Mold
pub mod LengthPrefix
pub mod Recover
pub mod Venue
