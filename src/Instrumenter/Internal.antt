-- ===== src/Instrumenter/Internal.antt =====
-- pkg/inst-api/instrumenter/instrumenter.go, instrumenter_builder.go, extractor.go: the
-- instrumenters. What they call is outside: the tracer and the spans of the SDK, the extractors,
-- listeners and customizers that a rule plugs in. A call on a span or a listener is an `Action` of
-- the log that an operation returns; what those calls return are the parameters of the section.
pub mod Balance
use opentelemetry_go_auto_in.Base.{
  ℕ, Bool, false, not, Option, none, some, List, [], ◌∷◌, ◌++◌, if◌then◌else◌, Str,
}
use opentelemetry_go_auto_in.Instrumenter.Scopes.{SpanKind, internal}
use opentelemetry_go_auto_in.Instrumenter.Suppressor.{
  SpanSuppressor, should_suppress, build_span_suppressor,
}

-- trace.SpanStartOption and trace.SpanEndOption: those the instrumenter adds, and the caller's.
pub data SpanOption (Time : Type 0) : Type 0 where
  with_span_kind : SpanKind → SpanOption Time
  with_timestamp : Time → SpanOption Time
  other_option : ℕ → SpanOption Time

module _ (Ctx Span Attr Time Request Response Carrier : Type 0) where
  -- A call that can be seen from outside.
  pub data Action : Type 0 where
    started : Span → Str → List (SpanOption Time) → Action  -- tracer.Start
    set_attributes : Span → List Attr → Action
    record_error : Span → Str → Action
    set_status_error : Span → Str → Action  -- SetStatus(codes.Error, description)
    set_status_ok : Span → Str → Action  -- SetStatus(codes.Ok, description)
    other_status : Span → ℕ → Action  -- what another status extractor does to the span
    ended : Span → List (SpanOption Time) → Action
    after_start : ℕ → Ctx → Time → Action  -- OnAfterStart of the listener of that number
    after_end : ℕ → Ctx → List Attr → Time → Action
    injected : Ctx → Carrier → Action  -- propagator.Inject

  pub record AttributesExtractor : Type 0 where
    pub on_start : List Attr → Ctx → Request → List Attr × Ctx
    pub on_end : List Attr → Ctx → Request → Response → Option Str → List Attr × Ctx
    pub span_key : Option Str  -- GetSpanKey, where it is a SpanKeyProvider

  pub record OperationListener : Type 0 where
    pub number : ℕ
    pub on_before_start : Ctx → Time → Ctx
    pub on_before_end : Ctx → List Attr → Time → Ctx

  -- InternalInstrumenter; `enabler` is what Enable returns, `none` for a nil enabler.
  pub record InternalInstrumenter : Type 0 where
    pub enabler : Option Bool
    pub span_name : Request → Str
    pub span_kind : Request → SpanKind
    pub span_status : Span → Request → Response → Option Str → List Action
    pub attributes_extractors : List AttributesExtractor
    pub operation_listeners : List OperationListener
    pub context_customizers : List (Ctx → Request → List Attr → Ctx)
    pub span_suppressor : SpanSuppressor
    pub tracer : Ctx → Str → List (SpanOption Time) → Ctx × Span

  -- ShouldStart; `parent_scope` is the scope of the span in the parent context.
  unfoldable pub should_start : InternalInstrumenter → Option Str → Request → Bool
  should_start i parent_scope request =
      not (should_suppress i.span_suppressor parent_scope (i.span_kind request))

  abbrev pub is_disabled : InternalInstrumenter → Bool
  is_disabled i = elim i.enabler [ none ↦ false | some enable ↦ not enable ]

  -- The loops of doStart over the listeners, the extractors and the customizers.
  unfoldable pub before_start : List OperationListener → Ctx → Time → Ctx
  before_start [] ctx time = ctx
  before_start (l ∷ ls) ctx time = before_start ls (l.on_before_start ctx time) time

  unfoldable pub before_end : List OperationListener → Ctx → List Attr → Time → Ctx
  before_end [] ctx attrs time = ctx
  before_end (l ∷ ls) ctx attrs time = before_end ls (l.on_before_end ctx attrs time) attrs time

  unfoldable pub start_attributes :
      List AttributesExtractor → List Attr → Ctx → Request → List Attr × Ctx
  start_attributes [] attrs ctx request = (attrs, ctx)
  start_attributes (x ∷ xs) attrs ctx request =
      let (attrs', ctx') = x.on_start attrs ctx request in start_attributes xs attrs' ctx' request

  unfoldable pub end_attributes :
      List AttributesExtractor → List Attr → Ctx → Request → Response → Option Str → List Attr × Ctx
  end_attributes [] attrs ctx request response error = (attrs, ctx)
  end_attributes (x ∷ xs) attrs ctx request response error =
      let (attrs', ctx') = x.on_end attrs ctx request response error in
      end_attributes xs attrs' ctx' request response error

  unfoldable pub customize :
      List (Ctx → Request → List Attr → Ctx) → Ctx → Request → List Attr → Ctx
  customize [] ctx request attrs = ctx
  customize (c ∷ cs) ctx request attrs = customize cs (c ctx request attrs) request attrs

  unfoldable pub do_start :
      InternalInstrumenter → Ctx → Request → Time → List (SpanOption Time) → Ctx × List Action
  do_start i parent request time options =
      let opened = before_start i.operation_listeners parent time in
      let name = i.span_name request in
      let options' = options ++ (with_span_kind (i.span_kind request) ∷ with_timestamp time ∷ []) in
      let (ctx, span) = i.tracer opened name options' in
      let (attrs, ctx') = start_attributes i.attributes_extractors [] ctx request in
      let customized = customize i.context_customizers ctx' request attrs in
      let ctx'' = before_end i.operation_listeners customized attrs time in
      if is_disabled i
      then (parent, [])
      else (ctx'', started span name options' ∷ set_attributes span attrs ∷ [])

  unfoldable pub after_starts : List OperationListener → Ctx → Time → List Action
  after_starts [] ctx time = []
  after_starts (l ∷ ls) ctx time = after_start l.number ctx time ∷ after_starts ls ctx time

  unfoldable pub after_ends : List OperationListener → Ctx → List Attr → Time → List Action
  after_ends [] ctx attrs time = []
  after_ends (l ∷ ls) ctx attrs time =
      after_end l.number ctx attrs time ∷ after_ends ls ctx attrs time

  -- `if err != nil { span.RecordError(err); span.SetStatus(codes.Error, err.Error()) }`
  unfoldable pub report_error : Span → Option Str → List Action
  report_error span none = []
  report_error span (some message) = record_error span message ∷ set_status_error span message ∷ []

  -- defaultSpanStatusExtractor
  unfoldable pub default_span_status : Span → Request → Response → Option Str → List Action
  default_span_status span request response none = []
  default_span_status span request response (some message) = set_status_error span [] ∷ []

  module _ (span_from_context : Ctx → Span) where
    unfoldable pub do_end :
        InternalInstrumenter
        → Ctx
        → Request
        → Response
        → Option Str
        → Time
        → List (SpanOption Time)
        → List Action
    do_end i ctx request response error time options =
        let span = span_from_context ctx in
        let (attrs, ctx') = end_attributes i.attributes_extractors [] ctx request response error in
        if is_disabled i
        then []
        else after_starts i.operation_listeners ctx time
          ++ (report_error span error
              ++ (i.span_status span request response error
                  ++ (set_attributes span attrs
                      ∷ ended span (options ++ with_timestamp time ∷ [])
                      ∷ after_ends i.operation_listeners ctx' attrs time)))

    -- StartAndEndWithOptions; StartAndEnd passes no options.
    unfoldable pub start_and_end :
        InternalInstrumenter
        → Ctx
        → Request
        → Response
        → Option Str
        → Time
        → Time
        → List (SpanOption Time)
        → List (SpanOption Time)
        → List Action
    start_and_end i parent request response error start_time end_time start_options end_options =
        let (ctx, opened) = do_start i parent request start_time start_options in
        opened ++ do_end i ctx request response error end_time end_options

    -- PropagatingToDownstreamInstrumenter: `carrier_getter` is `none` where it is nil; the
    -- propagator is the one given or the global one, whose Inject is the action.
    unfoldable pub downstream_start :
        Option (Request → Carrier)
        → InternalInstrumenter
        → Ctx
        → Request
        → Time
        → List (SpanOption Time)
        → Ctx × List Action
    downstream_start none base parent request time options =
        do_start base parent request time options
    downstream_start (some getter) base parent request time options =
        let (ctx, log) = do_start base parent request time options in
        (ctx, log ++ injected ctx (getter request) ∷ [])

    unfoldable pub downstream_start_and_end :
        Option (Request → Carrier)
        → InternalInstrumenter
        → Ctx
        → Request
        → Response
        → Option Str
        → Time
        → Time
        → List (SpanOption Time)
        → List (SpanOption Time)
        → List Action
    unfolding downstream_start
    downstream_start_and_end getter base parent request response error start_time end_time
          start_options end_options =
        let (ctx, log) = downstream_start getter base parent request start_time start_options in
        log ++ do_end base ctx request response error end_time end_options

    -- PropagatingFromUpstreamInstrumenter; `extract` is the propagator's Extract.
    module _ (extract : Ctx → Carrier → Ctx) where
      unfoldable pub upstream_start :
          Option (Request → Carrier)
          → InternalInstrumenter
          → Ctx
          → Request
          → Time
          → List (SpanOption Time)
          → Ctx × List Action
      upstream_start none base parent request time options = (parent, [])
      upstream_start (some getter) base parent request time options =
          do_start base (extract parent (getter request)) request time options

      unfoldable pub upstream_start_and_end :
          Option (Request → Carrier)
          → InternalInstrumenter
          → Ctx
          → Request
          → Response
          → Option Str
          → Time
          → Time
          → List (SpanOption Time)
          → List (SpanOption Time)
          → List Action
      unfolding upstream_start
      upstream_start_and_end getter base parent request response error start_time end_time
            start_options end_options =
          let (ctx, log) = upstream_start getter base parent request start_time start_options in
          log ++ do_end base ctx request response error end_time end_options
