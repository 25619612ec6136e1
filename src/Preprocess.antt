-- ===== src/Preprocess.antt =====
-- tool/preprocess: what happens before the build proper.
pub mod FindModule
pub mod BuildArgs
pub mod Backup
pub mod Steps
pub mod Replace
pub mod Rounds
pub mod Importer
pub mod Rectify
pub mod Init
pub mod Command
