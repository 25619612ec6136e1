-- ===== src/Match.antt =====
-- tool/preprocess/match.go: which rules apply to which compile command.
pub mod Version
pub mod Decl
pub mod Vendor
pub mod Select
pub mod Load
