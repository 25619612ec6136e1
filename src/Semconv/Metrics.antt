-- ===== src/Semconv/Metrics.antt =====
-- The operation listeners that record durations: http_metrics.go, rpc_metrics.go and db_metrics.go
-- of pkg/inst-api-semconv/instrumenter. The meter and its histograms are OpenTelemetry's; `elapsed`
-- is the float64 of endTime.Sub(startTime).Milliseconds(), and Float64Histogram returns a histogram
-- or nil, and whether it failed.
pub mod Recorded
pub mod Request
use opentelemetry_go_auto_in.Base.{
  ℕ, ◌≡◌, ◌≢◌, refl, sym, ap, subst, Bool, true, false, inl, inr, Option, none, some, List, [], ◌∷◌,
  ◌++◌, arith, if◌then◌else◌, length, take, take-append, Outcome, ok, panicked, ◌>>=◌, Str, codes,
  str_eq, str_eq_refl, str_eq_iff, Bool-cases, Option-cases, All,
}
use opentelemetry_go_auto_in.Base.Dict.{lookup}
use opentelemetry_go_auto_in.Semconv.Attribute.{
  KeyValue, http_request_method_key, url_scheme_key, error_type_key, http_response_status_code_key,
  http_route_key, network_protocol_name_key, network_protocol_version_key, server_address_key,
  server_port_key, rpc_system_key, rpc_method_key, rpc_service_key, db_system_name_key,
  db_operation_name_key, db_namespace_key,
}
use opentelemetry_go_auto_in.Semconv.Shadow.{shadow, metric_attrs, shadow-metric_attrs}

-- HttpServerMetric, HttpClientMetric, RpcServerMetric, RpcClientMetric, DbClientMetric
pub data MetricKind : Type 0 where
  http_server http_client rpc_server rpc_client db_client : MetricKind

-- httpMetricContext, rpcMetricContext, dbMetricContext: the types that a listener asserts.
pub data ContextType : Type 0 where
  http_context rpc_context db_context : ContextType

abbrev pub metric_context_type : MetricKind → ContextType
metric_context_type http_server = http_context
metric_context_type http_client = http_context
metric_context_type rpc_server = rpc_context
metric_context_type rpc_client = rpc_context
metric_context_type db_client = db_context

abbrev pub same_type : ContextType → ContextType → Bool
same_type http_context http_context = true
same_type rpc_context rpc_context = true
same_type db_context db_context = true
same_type _ _ = false

abbrev pub request_duration : MetricKind → Str
request_duration http_server = codes "http.server.request.duration"
request_duration http_client = codes "http.client.request.duration"
request_duration rpc_server = codes "rpc.server.duration"
request_duration rpc_client = codes "rpc.client.duration"
request_duration db_client = codes "db.client.request.duration"

abbrev pub http_metrics_conv : List Str
http_metrics_conv =
    http_request_method_key ∷ url_scheme_key ∷ error_type_key ∷ http_response_status_code_key
    ∷ http_route_key ∷ network_protocol_name_key ∷ network_protocol_version_key ∷ server_address_key
    ∷ server_port_key ∷ []

abbrev pub rpc_metrics_conv : List Str
rpc_metrics_conv = rpc_system_key ∷ rpc_method_key ∷ rpc_service_key ∷ server_address_key ∷ []

abbrev pub db_metrics_conv : List Str
db_metrics_conv =
    db_system_name_key ∷ db_operation_name_key ∷ server_address_key ∷ db_namespace_key ∷ []

abbrev pub metrics_conv : MetricKind → List Str
metrics_conv http_server = http_metrics_conv
metrics_conv http_client = http_metrics_conv
metrics_conv rpc_server = rpc_metrics_conv
metrics_conv rpc_client = rpc_metrics_conv
metrics_conv db_client = db_metrics_conv

-- Whether OnAfterEnd has a pointer receiver, so that the histogram it makes stays in the listener.
abbrev pub keeps_histogram : MetricKind → Bool
keeps_histogram http_server = true
keeps_histogram http_client = false
keeps_histogram rpc_server = true
keeps_histogram rpc_client = true
keeps_histogram db_client = false

module _ (Time Histogram Meter Millis : Type 0) where
  pub record Metric : Type 0 where
    pub kind : MetricKind
    pub key : Str
    pub duration : Option Histogram

  -- HttpServerMetrics(key) and the like
  abbrev pub new_metric : MetricKind → Str → Metric
  new_metric k key' = record { kind = k; key = key'; duration = none }

  pub record MetricContext : Type 0 where
    pub type_of : ContextType
    pub start_time : Time
    pub attributes_at_start : List KeyValue

  -- The values of a context.Context whose keys are attribute.Keys, the newest first.
  abbrev pub MetricValues : Type 0
  MetricValues = List (Str × MetricContext)

  unfoldable pub metric_before_end : Metric → MetricValues → List KeyValue → Time → MetricValues
  metric_before_end m ctx attrs time =
      let mc : MetricContext = record {
        type_of = metric_context_type m.kind;
        start_time = time;
        attributes_at_start = attrs;
      } in
      (m.key, mc) ∷ ctx

  pub record Measurement : Type 0 where
    pub histogram : Histogram
    pub millis : Millis
    pub attributes : List KeyValue

  -- `context.Value(h.key).(httpMetricContext)`, for RPC clients behind the test for nil
  abbrev pub asserted : Metric → Option MetricContext → Outcome (Option MetricContext)
  asserted m none = elim m.kind [ rpc_client ↦ ok none | _ ↦ panicked ]
  asserted m (some mc) =
      if same_type (metric_context_type m.kind) mc.type_of then ok (some mc) else panicked

  module _ (float64_histogram : Meter → Str → Option Histogram × Bool)
      (elapsed : Time → Time → Millis) where
    -- newHttpServerRequestDurationMeasures(globalMeter) and the like; the error is only logged.
    abbrev pub new_measures : Option Meter → MetricKind → Option Histogram
    new_measures none k = none
    new_measures (some meter) k = (float64_histogram meter (request_duration k)).0

    -- The histogram at hand, or else a new one.
    abbrev pub measures : Option Meter → Metric → Option Histogram
    measures meter m = elim m.duration [ none ↦ new_measures meter m.kind | some h ↦ some h ]

    abbrev pub after_recording : Metric → Option Histogram → Metric
    after_recording m h = if keeps_histogram m.kind then record m { duration = h } else m

    abbrev pub measured : Option Histogram → Millis → List KeyValue → List Measurement
    measured none time attrs = []
    measured (some h) time attrs = record { histogram = h; millis = time; attributes = attrs } ∷ []

    -- The rest of OnAfterEnd, once it has the start time and attributes.
    unfoldable pub record_duration :
        Option Meter
        → Metric
        → MetricContext
        → List KeyValue
        → Time
        → Outcome (Metric × List Measurement)
    record_duration meter m mc end_attributes end_time = do
      let h = measures meter m
      (n, shadowed) ← shadow (end_attributes ++ mc.attributes_at_start) (metrics_conv m.kind)
      let made = measured h (elapsed end_time mc.start_time) (take n shadowed)
      ok (after_recording m h, made)

    abbrev pub after_found :
        Option Meter
        → Metric
        → List KeyValue
        → Time
        → Option MetricContext
        → Outcome (Metric × List Measurement)
    after_found meter m end_attributes end_time none = ok (m, [])
    after_found meter m end_attributes end_time (some mc) =
        record_duration meter m mc end_attributes end_time

    unfoldable pub metric_after_end :
        Option Meter
        → Metric
        → MetricValues
        → List KeyValue
        → Time
        → Outcome (Metric × List Measurement)
    metric_after_end meter m ctx end_attributes end_time =
        asserted m (lookup m.key ctx) >>= after_found meter m end_attributes end_time
