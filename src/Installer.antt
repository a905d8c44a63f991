-- ===== src/Installer.antt =====
-- pkg/v2/installer: the reverse dependencies of an installed package.
pub mod Rdepends
pub mod Stack
