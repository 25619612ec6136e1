-- ===== src/NetHttp/Spans.antt =====
-- The spans of the clients of pkg/rules/http: one for each request that is not filtered.
use opentelemetry_go_auto_in.Base.{◌≡◌, Option, List, [], Str}
use opentelemetry_go_auto_in.Base.Int.{ℤ}
use opentelemetry_go_auto_in.Instrumenter.Internal.{
  SpanOption, Action, OperationListener, InternalInstrumenter,
}
use opentelemetry_go_auto_in.Instrumenter.Builder.{Builder}
use opentelemetry_go_auto_in.Semconv.Attribute.{KeyValue}
use opentelemetry_go_auto_in.NetHttp.{NetHttpRequest, net_http_client}

module _ (to_lower : Str → Str) (atoi : Str → Option ℤ) (itoa : ℤ → Str)
    (Ctx Span Time Carrier : Type 0) (env : Str)
    (empty : Builder Ctx Span KeyValue Time NetHttpRequest ℤ Carrier)
    (metrics : OperationListener Ctx Span KeyValue Time NetHttpRequest ℤ Carrier)
    (tracer : Ctx → Str → List (SpanOption Time) → Ctx × Span)
    (span_from_context : Ctx → Span) where
  abbrev pub client_of : InternalInstrumenter Ctx Span KeyValue Time NetHttpRequest ℤ Carrier
  client_of = net_http_client to_lower atoi Ctx itoa Span Time Carrier env empty metrics tracer

  -- The tracer's context carries the span that it returns, and the listener keeps it.
  pub record CarriesSpan : Type 0 where
    pub no_listeners : empty.operation_listeners ≡ []
    pub tracer_law :
        (ctx : Ctx) (name : Str) (options : List (SpanOption Time))
        → span_from_context (tracer ctx name options).0 ≡ (tracer ctx name options).1
    pub metrics_law :
        (ctx : Ctx) (attrs : List KeyValue) (time : Time)
        → span_from_context (metrics.on_before_end ctx attrs time) ≡ span_from_context ctx

  abbrev Log : Type 0
  Log = List (Action Ctx Span KeyValue Time NetHttpRequest ℤ Carrier)
