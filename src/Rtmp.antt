-- ===== src/Rtmp.antt =====
-- The RTMP protocol of mediamtx/internal/protocols/rtmp: the byte stream below it, the chunks, and
-- the raw messages that are cut into chunks and put together again.
pub mod Stream
pub mod Ensures
pub mod Chunk
pub mod RawMessage
pub mod Amf0
pub mod Message
