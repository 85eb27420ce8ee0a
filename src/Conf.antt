-- ===== src/Conf.antt =====
-- mediamtx/internal/conf: the configuration.
pub mod Settings
pub mod PathConf
