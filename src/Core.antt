-- ===== src/Core.antt =====
-- mediamtx/internal/core: the path, which connects a source with its readers, and the live stream
-- that it announces to the transcoder (mediamtx/internal/liveStream).
pub mod LiveStream
pub mod Path
pub mod PathManager
