-- ===== src/Semconv/Metrics/Recorded.antt =====
-- The listeners of http_metrics.go, rpc_metrics.go and db_metrics.go within an instrumenter: what
-- doStart leaves in the context is what OnAfterEnd finds.
use opentelemetry_go_auto_in.Base.{
  ℕ, ◌≡◌, refl, ap, ◌∙◌, Bool, true, Option, some, List, [], ◌∷◌, ◌++◌, take-append, Outcome, ok,
  ◌>>=◌, Str, str_eq_refl, All,
}
use opentelemetry_go_auto_in.Base.Dict.{lookup}
use opentelemetry_go_auto_in.Instrumenter.Internal.{
  AttributesExtractor, OperationListener, before_end, end_attributes,
}
use opentelemetry_go_auto_in.Semconv.Attribute.{KeyValue}
use opentelemetry_go_auto_in.Semconv.Shadow.{metric_attrs, shadow-metric_attrs}
use opentelemetry_go_auto_in.Semconv.Metrics.{
  ContextType, http_context, rpc_context, db_context, asserted, after_found, metric_context_type,
  same_type, metrics_conv, Metric, MetricContext, metric_before_end, Measurement, measures,
  after_recording, measured, record_duration, metric_after_end,
}

same_type_refl : (t : ContextType) → same_type t t ≡ true
same_type_refl http_context = refl
same_type_refl rpc_context = refl
same_type_refl db_context = refl

module _ (Time Histogram Meter Millis : Type 0)
    (float64_histogram : Meter → Str → Option Histogram × Bool)
    (elapsed : Time → Time → Millis) where
  -- What OnAfterEnd records of a request: the elapsed time, and the attributes of the metric among
  -- those of the end and of the start.
  abbrev pub recorded :
      Option Meter
      → Metric Time Histogram Meter Millis
      → List KeyValue
      → Time
      → List KeyValue
      → Time
      → Outcome
          (Metric Time Histogram Meter Millis × List (Measurement Time Histogram Meter Millis))
  recorded meter m start_attrs start_time end_attrs end_time =
      let h = measures Time Histogram Meter Millis float64_histogram elapsed meter m in
      ok (
        after_recording Time Histogram Meter Millis float64_histogram elapsed m h,
        measured Time Histogram Meter Millis float64_histogram elapsed h
            (elapsed end_time start_time)
            (metric_attrs (metrics_conv m.kind) (end_attrs ++ start_attrs)),
      )

  -- A context whose newest value for the key is the listener's.
  pub metric_after_end-found :
      (meter : Option Meter) (m : Metric Time Histogram Meter Millis)
      (ctx : List (Str × MetricContext Time Histogram Meter Millis)) (start_attrs : List KeyValue)
      (start_time : Time) (end_attrs : List KeyValue) (end_time : Time)
      → lookup m.key ctx
        ≡ some (record {
          type_of = metric_context_type m.kind;
          start_time = start_time;
          attributes_at_start = start_attrs;
        })
      → metric_after_end Time Histogram Meter Millis float64_histogram elapsed meter m ctx end_attrs
          end_time
        ≡ recorded meter m start_attrs start_time end_attrs end_time
  unfolding metric_after_end record_duration
  metric_after_end-found meter m ctx start_attrs start_time end_attrs end_time e =
      let (others, s, d) = shadow-metric_attrs (metrics_conv m.kind) (end_attrs ++ start_attrs) in
      ap
        (λ o.
          asserted Time Histogram Meter Millis m o
          >>= after_found Time Histogram Meter Millis float64_histogram elapsed meter m end_attrs
              end_time)
        e
      ∙ rw
          (
            same_type_refl (metric_context_type m.kind),
            s,
            take-append (metric_attrs (metrics_conv m.kind) (end_attrs ++ start_attrs)) others,
          )
          refl

-- A context.Context: its span, and the values that listeners keep in it.
pub record SpanContext (Span Time Histogram Meter Millis : Type 0) : Type 0 where
  pub current : Span
  pub metrics : List (Str × MetricContext Time Histogram Meter Millis)

module _ (Span Time Histogram Meter Millis Request Response Carrier : Type 0) where
  abbrev Ctx : Type 0
  Ctx = SpanContext Span Time Histogram Meter Millis

  -- A metric as the listener of that number: OnBeforeStart and OnBeforeEnd. Its OnAfterStart does
  -- nothing, and its OnAfterEnd is metric_after_end.
  abbrev pub metric_listener :
      ℕ
      → Metric Time Histogram Meter Millis
      → OperationListener
          (SpanContext Span Time Histogram Meter Millis)
          Span
          KeyValue
          Time
          Request
          Response
          Carrier
  metric_listener n m = record {
    number = n;
    on_before_start = λ ctx time. ctx;
    on_before_end = λ ctx attrs time. record ctx {
      metrics = metric_before_end Time Histogram Meter Millis m ctx.metrics attrs time;
    };
  }

  module _ (key : Str) where
    -- What the parts of an instrumenter do not touch: the value for a metric's key.
    abbrev pub SameValue :
        SpanContext Span Time Histogram Meter Millis
        → SpanContext Span Time Histogram Meter Millis
        → Type 0
    SameValue ctx ctx' = lookup key ctx.metrics ≡ lookup key ctx'.metrics

    before_end-SameValue :
        (ls : List (OperationListener Ctx Span KeyValue Time Request Response Carrier)) (ctx : Ctx)
        (attrs : List KeyValue) (time : Time)
        → All
            (λ (l : OperationListener Ctx Span KeyValue Time Request Response Carrier).
              (ctx : Ctx) (attrs : List KeyValue) (time : Time)
              → SameValue (l.on_before_end ctx attrs time) ctx)
            ls
        → SameValue
            (before_end Ctx Span KeyValue Time Request Response Carrier ls ctx attrs time)
            ctx
    unfolding before_end
    before_end-SameValue [] ctx attrs time h = refl
    before_end-SameValue (l ∷ ls) ctx attrs time h =
        before_end-SameValue ls (l.on_before_end ctx attrs time) attrs time h.1 ∙ h.0 ctx attrs time

    pub end_attributes-SameValue :
        (xs : List (AttributesExtractor Ctx Span KeyValue Time Request Response Carrier))
        (attrs : List KeyValue) (ctx : Ctx) (request : Request) (response : Response)
        (error : Option Str)
        → All
            (λ (x : AttributesExtractor Ctx Span KeyValue Time Request Response Carrier).
              (attrs : List KeyValue) (ctx : Ctx) (request : Request) (response : Response)
              (error : Option Str)
              → SameValue (x.on_end attrs ctx request response error).1 ctx)
            xs
        → SameValue
            (end_attributes Ctx Span KeyValue Time Request Response Carrier xs attrs ctx request
              response error).1
            ctx
    unfolding end_attributes
    end_attributes-SameValue [] attrs ctx request response error h = refl
    end_attributes-SameValue (x ∷ xs) attrs ctx request response error h =
        end_attributes-SameValue xs (x.on_end attrs ctx request response error).0
          (x.on_end attrs ctx request response error).1 request response error h.1
        ∙ h.0 attrs ctx request response error

  before_end-append :
      (ls ls' : List (OperationListener Ctx Span KeyValue Time Request Response Carrier))
      (ctx : Ctx) (attrs : List KeyValue) (time : Time)
      → before_end Ctx Span KeyValue Time Request Response Carrier (ls ++ ls') ctx attrs time
        ≡ before_end Ctx Span KeyValue Time Request Response Carrier ls'
            (before_end Ctx Span KeyValue Time Request Response Carrier ls ctx attrs time)
            attrs
            time
  unfolding before_end
  before_end-append [] ls' ctx attrs time = refl
  before_end-append (l ∷ ls) ls' ctx attrs time =
      before_end-append ls ls' (l.on_before_end ctx attrs time) attrs time

  lookup-newest :
      (key : Str) (mc : MetricContext Time Histogram Meter Millis)
      (values : List (Str × MetricContext Time Histogram Meter Millis))
      → lookup key ((key, mc) ∷ values) ≡ some mc
  unfolding lookup
  lookup-newest key mc values = rw (str_eq_refl key) refl

  module _ (m : Metric Time Histogram Meter Millis) (number : ℕ)
      (before after : List (
        OperationListener
          (SpanContext Span Time Histogram Meter Millis)
          Span
          KeyValue
          Time
          Request
          Response
          Carrier)) where
    -- What doStart's last loop leaves for the listener, where those behind it keep the value.
    pub before_end-found :
        (ctx : Ctx) (attrs : List KeyValue) (time : Time)
        → All
            (λ (l : OperationListener Ctx Span KeyValue Time Request Response Carrier).
              (ctx : Ctx) (attrs : List KeyValue) (time : Time)
              → SameValue m.key (l.on_before_end ctx attrs time) ctx)
            after
        → lookup m.key
            (before_end Ctx Span KeyValue Time Request Response Carrier
              (before ++ metric_listener number m ∷ after)
              ctx
              attrs
              time).metrics
          ≡ some (record {
            type_of = metric_context_type m.kind;
            start_time = time;
            attributes_at_start = attrs;
          })
    unfolding before_end metric_before_end
    before_end-found ctx attrs time h =
        let first =
          before_end Ctx Span KeyValue Time Request Response Carrier before ctx attrs time in
        let mc : MetricContext Time Histogram Meter Millis = record {
          type_of = metric_context_type m.kind;
          start_time = time;
          attributes_at_start = attrs;
        } in
        let mine : Ctx = record first { metrics = (m.key, mc) ∷ first.metrics } in
        ap (λ (c : Ctx). lookup m.key c.metrics)
          (before_end-append before (metric_listener number m ∷ after) ctx attrs time)
        ∙ before_end-SameValue m.key after mine attrs time h
        ∙ lookup-newest m.key mc first.metrics
