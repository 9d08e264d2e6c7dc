-- ===== src/Conf.antt =====
-- src/conf.c: the configuration, read from JSON files that may include others.
pub mod Values
pub mod Plugins
pub mod Env
pub mod Sound
pub mod Load
pub mod Start
