-- ===== src/Resource.antt =====
-- tool/resource: rules and bundles.
pub mod RuleDef
pub mod Bundle
pub mod Tally
