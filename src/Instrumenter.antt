-- ===== src/Instrumenter.antt =====
-- pkg/inst-api/instrumenter: the instrumenter that opens and closes spans, and its suppressors.
pub mod Scopes
pub mod Suppressor
pub mod Internal
pub mod Builder
