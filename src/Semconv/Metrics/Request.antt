-- ===== src/Semconv/Metrics/Request.antt =====
-- A request of an instrumenter with a metric among its listeners, from doStart to OnAfterEnd.
use opentelemetry_go_auto_in.Base.{
  ℕ, ◌≡◌, refl, ap, ◌∙◌, Bool, false, Option, List, [], ◌∷◌, ◌++◌, Str, All,
}
use opentelemetry_go_auto_in.Base.Dict.{lookup}
use opentelemetry_go_auto_in.Instrumenter.Internal.{
  SpanOption, started, set_attributes, AttributesExtractor, OperationListener, InternalInstrumenter,
  is_disabled, before_start, before_end, start_attributes, end_attributes, customize, do_start,
  with_span_kind, with_timestamp,
}
use opentelemetry_go_auto_in.Semconv.Attribute.{KeyValue}
use opentelemetry_go_auto_in.Semconv.Metrics.{Metric, metric_after_end}
use opentelemetry_go_auto_in.Semconv.Metrics.Recorded.{
  recorded, metric_after_end-found, SpanContext, metric_listener, SameValue, before_end-found,
  end_attributes-SameValue,
}

module _ (Span Time Histogram Meter Millis Request Response Carrier : Type 0)
    (float64_histogram : Meter → Str → Option Histogram × Bool) (elapsed : Time → Time → Millis)
    (m : Metric Time Histogram Meter Millis) (number : ℕ)
    (before after : List (
      OperationListener
        (SpanContext Span Time Histogram Meter Millis)
        Span
        KeyValue
        Time
        Request
        Response
        Carrier))
    (i : InternalInstrumenter
      (SpanContext Span Time Histogram Meter Millis)
      Span
      KeyValue
      Time
      Request
      Response
      Carrier) where
  abbrev Ctx : Type 0
  Ctx = SpanContext Span Time Histogram Meter Millis

  -- The metric is a listener of the instrumenter; the listeners behind it, and the extractors at
  -- the end, leave the value for its key in the context.
  pub record Listens : Type 0 where
    pub listeners :
        i.operation_listeners
        ≡ before
          ++ metric_listener Span Time Histogram Meter Millis Request Response Carrier number m
            ∷ after
    pub after_law :
        All
          (λ (l : OperationListener
              (SpanContext Span Time Histogram Meter Millis)
              Span
              KeyValue
              Time
              Request
              Response
              Carrier).
            (ctx : SpanContext Span Time Histogram Meter Millis) (attrs : List KeyValue)
            (time : Time)
            → SameValue Span Time Histogram Meter Millis Request Response Carrier m.key
                (l.on_before_end ctx attrs time)
                ctx)
          after
    pub extractors_law :
        All
          (λ (x : AttributesExtractor
              (SpanContext Span Time Histogram Meter Millis)
              Span
              KeyValue
              Time
              Request
              Response
              Carrier).
            (attrs : List KeyValue) (ctx : SpanContext Span Time Histogram Meter Millis)
            (request : Request) (response : Response) (error : Option Str)
            → SameValue Span Time Histogram Meter Millis Request Response Carrier m.key
                (x.on_end attrs ctx request response error).1
                ctx)
          i.attributes_extractors

  -- For an enabled instrumenter with the metric among its listeners, where the listeners behind it
  -- and the extractors at the end leave the value for the metric's key in the context: from the
  -- context that doStart returns, OnAfterEnd does not panic, and what it records is the time since
  -- the start, with the metric's attributes among those of the end and those that the start set on
  -- the span.
  pub do_start-metric_after_end :
      (meter : Option Meter) (parent : SpanContext Span Time Histogram Meter Millis)
      (request : Request) (response : Response) (error : Option Str) (start_time end_time : Time)
      (options : List (SpanOption Time))
      → is_disabled
          (SpanContext Span Time Histogram Meter Millis)
          Span
          KeyValue
          Time
          Request
          Response
          Carrier
          i
        ≡ false
      → Listens
      → let (ctx, log) =
          do_start
            (SpanContext Span Time Histogram Meter Millis)
            Span
            KeyValue
            Time
            Request
            Response
            Carrier
            i
            parent
            request
            start_time
            options in
        let (end_attrs, ctx') =
          end_attributes
            (SpanContext Span Time Histogram Meter Millis)
            Span
            KeyValue
            Time
            Request
            Response
            Carrier
            i.attributes_extractors
            []
            ctx
            request
            response
            error in
        (span : Span) × (name : Str) × (options' : List (SpanOption Time)) × (start_attrs : List
          KeyValue)
        × (log ≡ started span name options' ∷ set_attributes span start_attrs ∷ [])
        × (metric_after_end Time Histogram Meter Millis float64_histogram elapsed meter m
              ctx'.metrics end_attrs end_time
            ≡ recorded Time Histogram Meter Millis float64_histogram elapsed meter m start_attrs
                start_time end_attrs end_time)
  unfolding do_start
  do_start-metric_after_end meter parent request response error start_time end_time options on l =
      let opened =
        before_start Ctx Span KeyValue Time Request Response Carrier i.operation_listeners parent
          start_time in
      let options' =
        options ++ (with_span_kind (i.span_kind request) ∷ with_timestamp start_time ∷ []) in
      let (ctx, span) = i.tracer opened (i.span_name request) options' in
      let (attrs, ctx1) =
        start_attributes Ctx Span KeyValue Time Request Response Carrier i.attributes_extractors []
          ctx request in
      let ctx2 =
        customize Ctx Span KeyValue Time Request Response Carrier i.context_customizers ctx1 request
          attrs in
      let ctx3 =
        before_end Ctx Span KeyValue Time Request Response Carrier i.operation_listeners ctx2 attrs
          start_time in
      let (end_attrs, ctx') =
        end_attributes Ctx Span KeyValue Time Request Response Carrier i.attributes_extractors []
          ctx3 request response error in
      rw on (
        span,
        i.span_name request,
        options',
        attrs,
        refl,
        metric_after_end-found Time Histogram Meter Millis float64_histogram elapsed meter m
            ctx'.metrics attrs start_time end_attrs end_time
            (end_attributes-SameValue Span Time Histogram Meter Millis Request Response Carrier
                m.key i.attributes_extractors [] ctx3 request response error l.extractors_law
              ∙ ap
                  (λ ls.
                    lookup m.key
                      (before_end Ctx Span KeyValue Time Request Response Carrier ls ctx2 attrs
                        start_time).metrics)
                  l.listeners
              ∙ before_end-found Span Time Histogram Meter Millis Request Response Carrier m number
                  before after ctx2 attrs start_time l.after_law),
      )
