-- ===== src/Util.antt =====
-- tool/util: helpers of the tool.
pub mod Commands
