-- ===== src/Instrument.antt =====
-- tool/instrument: how the matched rules are applied to the files of a package.
pub mod Order
pub mod Body
pub mod CompileArgs
pub mod Optimize
pub mod Signature
pub mod CallContext
pub mod Template
pub mod Trampoline
pub mod FileRules
