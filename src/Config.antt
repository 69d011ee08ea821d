-- ===== src/Config.antt =====
-- internal/config: the environment of the server and the runtime settings of the table app_config.
pub mod Load
pub mod AppConfig
