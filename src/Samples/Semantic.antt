-- ===== src/Samples/Semantic.antt =====
-- The theorems on the semantic conventions at concrete requests.
use mathlib.Core.List.{Permᴰ}
use opentelemetry_go_auto_in.Base.{
  ℕ, ◌-◌, ◌≡◌, refl, Bool, true, false, Option, none, some, List, [], ◌∷◌, ◌++◌, length, ok, Str,
  codes,
}
use opentelemetry_go_auto_in.Base.Int.{ℤ, pos}
use opentelemetry_go_auto_in.Instrumenter.Scopes.{client}
use opentelemetry_go_auto_in.Instrumenter.Suppressor.{noop}
use opentelemetry_go_auto_in.Instrumenter.Internal.{
  InternalInstrumenter, default_span_status, SpanOption, started, set_attributes, do_start,
  end_attributes,
}
use opentelemetry_go_auto_in.Instrumenter.Internal.{OperationListener}
use opentelemetry_go_auto_in.Instrumenter.Builder.{Builder}
use opentelemetry_go_auto_in.NetHttp.{NetHttpRequest, RequestUrl, empty_request}
use opentelemetry_go_auto_in.Semconv.Attribute.{
  KeyValue, string_attr, url_path_key, url_scheme_key, http_request_method_key, db_system_name_key,
  db_operation_name_key, server_address_key,
}
use opentelemetry_go_auto_in.Semconv.Shadow.{shadow, metric_attrs, shadow-metric_attrs}
use opentelemetry_go_auto_in.Semconv.Status.{
  http_client_status, http_server_status, statuses, status_by_class, http_status_classes,
}
use opentelemetry_go_auto_in.Semconv.Metrics.{
  http_client, db_metrics_conv, Metric, new_metric, http_metrics_conv, metric_after_end,
}
use opentelemetry_go_auto_in.Semconv.Metrics.Recorded.{recorded, SpanContext, metric_listener}
use opentelemetry_go_auto_in.Semconv.Metrics.Request.{do_start-metric_after_end}
use opentelemetry_go_auto_in.Semconv.Db.{
  DbClientAttrsGetter, db_client_on_end, namespace_attrs, db_client_on_end-metric_attrs,
}

-- A path, which the metric leaves out, before a method and a scheme
abbrev mixed : List KeyValue
mixed =
    string_attr url_path_key (codes "/a")
    ∷ string_attr http_request_method_key (codes "GET")
    ∷ string_attr url_scheme_key (codes "http")
    ∷ []

shadow-metric_attrs_example :
    (others : List KeyValue) × (shadow mixed http_metrics_conv
      ≡ ok (
        length (metric_attrs http_metrics_conv mixed),
        metric_attrs http_metrics_conv mixed ++ others,
      ))
    × Permᴰ mixed (metric_attrs http_metrics_conv mixed ++ others)
shadow-metric_attrs_example = shadow-metric_attrs http_metrics_conv mixed

abbrev itoa : ℤ → Str
itoa n = codes "404"

http_status_classes_example :
    (statuses itoa ℕ ℕ ℕ ℕ ℕ ℕ (http_client_status itoa ℕ ℕ ℕ ℕ ℕ ℕ 7 (pos 404) none)
      ≡ status_by_class (pos 400) (pos 404))
    × (statuses itoa ℕ ℕ ℕ ℕ ℕ ℕ (http_server_status itoa ℕ ℕ ℕ ℕ ℕ ℕ 7 (pos 404) none)
        ≡ status_by_class (pos 500) (pos 404))
http_status_classes_example = http_status_classes itoa ℕ ℕ ℕ ℕ ℕ ℕ 7 none (pos 404)

-- A histogram is its name; a meter makes it.
abbrev histogram_of : ℕ → Str → Option Str × Bool
histogram_of meter name = (some name, false)

abbrev since : ℕ → ℕ → ℕ
since end start = end - start

abbrev client_metric : Metric ℕ Str ℕ ℕ
client_metric = new_metric ℕ Str ℕ ℕ http_client (codes "net.http.client")

abbrev Context : Type 0
Context = SpanContext ℕ ℕ Str ℕ ℕ

abbrev measured_client : InternalInstrumenter Context ℕ KeyValue ℕ ℕ ℕ ℕ
measured_client = record {
  enabler = some true;
  span_name = λ request. codes "GET";
  span_kind = λ request. client;
  span_status = default_span_status Context ℕ KeyValue ℕ ℕ ℕ ℕ;
  attributes_extractors =
      record {
        on_start = λ attrs ctx request. (attrs ++ mixed, ctx);
        on_end = λ attrs ctx request response error.
            (attrs ++ string_attr server_address_key (codes "localhost") ∷ [], ctx);
        span_key = none;
      }
      ∷ [];
  operation_listeners = metric_listener ℕ ℕ Str ℕ ℕ ℕ ℕ ℕ 1 client_metric ∷ [];
  context_customizers = [];
  span_suppressor = noop;
  tracer = λ ctx name options. (record ctx { current = 5 }, 5);
}

abbrev no_span : Context
no_span = record { current = 0; metrics = [] }

do_start-metric_after_end_example :
    let (ctx, log) = do_start Context ℕ KeyValue ℕ ℕ ℕ ℕ measured_client no_span 1 10 [] in
    let (end_attrs, ctx') =
      end_attributes Context ℕ KeyValue ℕ ℕ ℕ ℕ measured_client.attributes_extractors [] ctx 1 2
        none in
    (span : ℕ) × (name : Str) × (options' : List (SpanOption ℕ)) × (start_attrs : List KeyValue)
    × (log ≡ started span name options' ∷ set_attributes span start_attrs ∷ [])
    × (metric_after_end ℕ Str ℕ ℕ histogram_of since
          (some 3)
          client_metric
          ctx'.metrics
          end_attrs
          17
        ≡ recorded ℕ Str ℕ ℕ histogram_of since (some 3) client_metric start_attrs 10 end_attrs 17)
do_start-metric_after_end_example =
    do_start-metric_after_end ℕ ℕ Str ℕ ℕ ℕ ℕ ℕ histogram_of since client_metric 1 [] []
      measured_client (some 3) no_span 1 2 none 10 17 [] refl
      (record {
        listeners = refl;
        after_law = tt;
        extractors_law = (λ attrs ctx request response error. refl, tt);
      })

abbrev decimal : ℕ → Str
decimal n = codes "0"

abbrev show : Str → Str
show s = s

abbrev users : DbClientAttrsGetter decimal true ℕ ℕ ℕ Str show
users = record {
  get_system = λ request. codes "mysql";
  get_server_address = λ request. codes "db:3306";
  get_db_namespace = λ request. codes "shop";
  get_batch_size = λ request. pos 2;
  get_statement = λ request. codes "select * from users";
  get_operation = λ request. codes "select";
  get_collection = λ request. codes "users";
  get_parameters = λ request. codes "7" ∷ [];
}

db_client_on_end-metric_attrs_example :
    metric_attrs db_metrics_conv
      (db_client_on_end decimal true ℕ ℕ ℕ Str show users none mixed 1 2 3 none).0
    ≡ metric_attrs db_metrics_conv mixed
      ++ (string_attr db_system_name_key (codes "mysql")
          ∷ string_attr db_operation_name_key (codes "select")
          ∷ string_attr server_address_key (codes "db:3306")
          ∷ namespace_attrs decimal true ℕ ℕ ℕ Str show (codes "shop"))
db_client_on_end-metric_attrs_example =
    db_client_on_end-metric_attrs decimal true ℕ ℕ ℕ Str show users mixed 1 2 3 none

-- A context is the number of its span; the tracer opens span 5.
abbrev no_builder : Builder ℕ ℕ KeyValue ℕ NetHttpRequest ℤ ℕ
no_builder = record {
  enabler = none;
  span_name = λ request. [];
  span_kind = λ request. client;
  span_status = λ span request response error. [];
  attributes_extractors = [];
  operation_listeners = [];
  context_customizers = [];
}

abbrev quiet_listener : OperationListener ℕ ℕ KeyValue ℕ NetHttpRequest ℤ ℕ
quiet_listener = record {
  number = 1;
  on_before_start = λ ctx time. ctx;
  on_before_end = λ ctx attrs time. ctx;
}

abbrev open_five : ℕ → Str → List (SpanOption ℕ) → ℕ × ℕ
open_five ctx name options = (5, 5)

abbrev same_case : Str → Str
same_case s = s

abbrev no_number : Str → Option ℤ
no_number s = none

abbrev keep_url : Option RequestUrl → Bool
keep_url url = false

abbrev itself : ℕ → ℕ
itself ctx = ctx

abbrev carrier_of : NetHttpRequest → ℕ
carrier_of r = 9

abbrev root_url : RequestUrl
root_url = record {
  scheme = codes "http";
  path = codes "/";
  raw_query = [];
  port = [];
  text = codes "http://h/";
}

abbrev get_root : NetHttpRequest
get_root = record empty_request { method = codes "GET"; url = some root_url }
