-- ===== src/Instrumenter/Builder.antt =====
-- pkg/inst-api/instrumenter/instrumenter_builder.go: the builder and the instrumenters it makes.
use opentelemetry_go_auto_in.Base.{◌≡◌, refl, Bool, true, Option, some, List, [], ◌++◌, map, Str}
use opentelemetry_go_auto_in.Instrumenter.Scopes.{SpanKind}
use opentelemetry_go_auto_in.Instrumenter.Suppressor.{SpanSuppressor, build_span_suppressor}
use opentelemetry_go_auto_in.Instrumenter.Internal.{
  SpanOption, Action, AttributesExtractor, OperationListener, InternalInstrumenter,
  default_span_status,
}

module _ (Ctx Span Attr Time Request Response Carrier : Type 0) where
  pub record Builder : Type 0 where
    pub enabler : Option Bool
    pub span_name : Request → Str
    pub span_kind : Request → SpanKind
    pub span_status :
        Span
        → Request
        → Response
        → Option Str
        → List (Action Ctx Span Attr Time Request Response Carrier)
    pub attributes_extractors :
        List (AttributesExtractor Ctx Span Attr Time Request Response Carrier)
    pub operation_listeners : List (OperationListener Ctx Span Attr Time Request Response Carrier)
    pub context_customizers : List (Ctx → Request → List Attr → Ctx)

  -- Init keeps what it does not set, the listeners among it.
  unfoldable pub init : Builder → Builder
  init b = record b {
    enabler = some true;
    attributes_extractors = [];
    context_customizers = [];
    span_status = default_span_status Ctx Span Attr Time Request Response Carrier;
  }

  unfoldable pub add_attributes_extractor :
      List (AttributesExtractor Ctx Span Attr Time Request Response Carrier) → Builder → Builder
  add_attributes_extractor xs b = record b { attributes_extractors = b.attributes_extractors ++ xs }

  unfoldable pub add_operation_listeners :
      List (OperationListener Ctx Span Attr Time Request Response Carrier) → Builder → Builder
  add_operation_listeners ls b = record b { operation_listeners = b.operation_listeners ++ ls }

  unfoldable pub add_context_customizers :
      List (Ctx → Request → List Attr → Ctx) → Builder → Builder
  add_context_customizers cs b = record b { context_customizers = b.context_customizers ++ cs }

  abbrev Tracer : Type 0
  Tracer = Ctx → Str → List (SpanOption Time) → Ctx × Span

  -- buildSpanSuppressor, of the environment variable of the strategy.
  unfoldable pub builder_suppressor : Str → Builder → SpanSuppressor
  builder_suppressor env b =
      build_span_suppressor env (map (λ x. x.span_key) b.attributes_extractors)

  -- BuildInstrumenter and BuildInstrumenterWithTracer, and the base of the one that
  -- BuildPropagatingToDownstreamInstrumenter makes.
  unfoldable pub build_instrumenter :
      Str → Builder → Tracer → InternalInstrumenter Ctx Span Attr Time Request Response Carrier
  build_instrumenter env b tracer = record {
    enabler = b.enabler;
    span_name = b.span_name;
    span_kind = b.span_kind;
    span_status = b.span_status;
    attributes_extractors = b.attributes_extractors;
    operation_listeners = b.operation_listeners;
    context_customizers = b.context_customizers;
    span_suppressor = builder_suppressor env b;
    tracer = tracer;
  }

  unfoldable pub build_to_downstream :
      Str → Builder → Tracer → InternalInstrumenter Ctx Span Attr Time Request Response Carrier
  unfolding build_instrumenter
  build_to_downstream env b tracer = build_instrumenter env b tracer

  -- The base of the one that BuildPropagatingFromUpstreamInstrumenter makes: its literal has no
  -- contextCustomizers.
  unfoldable pub build_from_upstream :
      Str → Builder → Tracer → InternalInstrumenter Ctx Span Attr Time Request Response Carrier
  build_from_upstream env b tracer = record {
    enabler = b.enabler;
    span_name = b.span_name;
    span_kind = b.span_kind;
    span_status = b.span_status;
    attributes_extractors = b.attributes_extractors;
    operation_listeners = b.operation_listeners;
    context_customizers = [];
    span_suppressor = builder_suppressor env b;
    tracer = tracer;
  }

  -- Whatever customizers are added to a builder, the instrumenters for requests that come from
  -- upstream have none, and those for downstream have all of the builder's, the added ones last.
  pub build_from_upstream_drops :
      (env : Str) (b : Builder) (cs : List (Ctx → Request → List Attr → Ctx))
      (tracer : Ctx → Str → List (SpanOption Time) → Ctx × Span)
      → ((build_from_upstream env (add_context_customizers cs b) tracer).context_customizers ≡ [])
        × ((build_to_downstream env (add_context_customizers cs b) tracer).context_customizers
            ≡ b.context_customizers ++ cs)
  unfolding build_from_upstream build_to_downstream add_context_customizers
  build_from_upstream_drops env b cs tracer = (refl, refl)
