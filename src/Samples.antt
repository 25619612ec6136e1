-- ===== src/Samples.antt =====
-- Tests: the theorems at concrete inputs.
mod Matching
mod Loading
mod Instrumenting
mod Configuring
mod Tracing
mod Building
mod Trampolines
mod Rounds
mod Rectifying
mod Semantic
mod Querying
