-- ===== src/Config.antt =====
-- pkg/config: the protected configuration files (config_protect.go).
pub mod Protect
pub mod Protected
mod Tests
