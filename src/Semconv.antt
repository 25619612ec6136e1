-- ===== src/Semconv.antt =====
-- pkg/inst-api-semconv/instrumenter: the attributes, span names, span statuses and metrics that the
-- semantic conventions of OpenTelemetry ask of the spans of one kind of library.
pub mod Attribute
pub mod Shadow
pub mod Net
pub mod Http
pub mod Status
pub mod Metrics
pub mod Rpc
pub mod Db
pub mod Message
