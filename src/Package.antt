-- ===== src/Package.antt =====
-- pkg/package: the packages that the solver works on.
pub mod Database
pub mod Names
pub mod Thin
pub mod Atoms
pub mod Default
pub mod Admit
pub mod Admitted
mod Tests
