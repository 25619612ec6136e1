-- ===== src/NetHttp.antt =====
-- pkg/rules/http: what the requests of package net/http tell the extractors, the instrumenter of its
-- clients, and the hooks around RoundTrip. `atoi` and `itoa` are those of strconv, `to_lower` is
-- strings.ToLower.
pub mod Spans
use opentelemetry_go_auto_in.Base.{
  ℕ, suc, Bool, true, false, not, ◌&&◌, ◌==◌, Option, none, some, List, [], ◌∷◌, ◌++◌,
  if◌then◌else◌, Outcome, ok, panicked, Str, codes, str_eq, has_prefix,
}
use opentelemetry_go_auto_in.Base.Int.{ℤ, pos}
use opentelemetry_go_auto_in.Instrumenter.Scopes.{client, http_client_key}
use opentelemetry_go_auto_in.Instrumenter.Internal.{
  SpanOption, Action, AttributesExtractor, OperationListener, InternalInstrumenter, do_end,
  downstream_start,
}
use opentelemetry_go_auto_in.Instrumenter.Builder.{
  Builder, init, add_attributes_extractor, add_operation_listeners, build_to_downstream,
}
use opentelemetry_go_auto_in.Semconv.Attribute.{KeyValue}
use opentelemetry_go_auto_in.Semconv.Net.{NetworkAttrsGetter, UrlAttrsGetter}
use opentelemetry_go_auto_in.Semconv.Http.{
  HttpCommonAttrsGetter, HttpClientAttrsGetter, HttpServerAttrsGetter, HttpClientAttrsExtractor,
  http_client_on_start, http_client_on_end, http_client_span_name,
}
use opentelemetry_go_auto_in.Semconv.Status.{http_client_status}

-- What a url.URL yields: its scheme, path and query, and the results of Port and String
pub record RequestUrl : Type 0 where
  pub scheme : Str
  pub path : Str
  pub raw_query : Str
  pub port : Str
  pub text : Str

pub record NetHttpRequest : Type 0 where
  pub method : Str
  pub url : Option RequestUrl
  pub host : Str
  pub is_tls : Bool
  pub header_values : Str → List Str  -- header.Values
  pub version : Str

-- &netHttpRequest{}
abbrev pub empty_request : NetHttpRequest
empty_request = record {
  method = [];
  url = none;
  host = [];
  is_tls = false;
  header_values = λ name. [];
  version = [];
}

unfoldable pub get_protocol_version : (ℕ → Str) → ℕ → ℕ → Str
get_protocol_version itoa major minor =
    if (major == 1) && (minor == 0)
    then codes "1.0"
    else if (major == 1) && (minor == 1)
    then codes "1.1"
    else if (major == 1) && (minor == 2)
    then codes "1.2"
    else if major == 2
    then codes "2"
    else if major == 3
    then codes "3"
    else itoa major ++ codes "." ++ itoa minor

module _ (to_lower : Str → Str) (atoi : Str → Option ℤ) (Ctx : Type 0) where
  abbrev pub protocol_name : NetHttpRequest → Str
  protocol_name r = if r.is_tls then codes "https" else codes "http"

  -- 0 of a port that is no number
  abbrev pub number_or_zero : Option ℤ → ℤ
  number_or_zero none = pos 0
  number_or_zero (some n) = n

  abbrev pub port_of : Option RequestUrl → ℤ
  port_of none = pos 0
  port_of (some u) = number_or_zero (atoi u.port)

  -- String() of the URL. Of a nil one it panics: client_on_enter, which alone leads to a call of it,
  -- panics there, so that the empty string stands for nothing.
  abbrev pub text_of : Option RequestUrl → Str
  text_of none = []
  text_of (some u) = u.text

  -- netHttpClientAttrsGetter; the response is its status code.
  abbrev pub net_http_network : NetworkAttrsGetter to_lower Ctx NetHttpRequest ℤ
  net_http_network = record {
    get_network_type = λ r code. codes "ipv4";
    get_network_transport = λ r code. codes "tcp";
    get_network_protocol_name = λ r code. protocol_name r;
    get_network_protocol_version = λ r code. r.version;
    get_network_local_inet_address = λ r code. [];
    get_network_local_port = λ r code. pos 0;
    get_network_peer_inet_address = λ r code. r.host;
    get_network_peer_port = λ r code. port_of r.url;
  }

  abbrev pub net_http_common : HttpCommonAttrsGetter to_lower Ctx NetHttpRequest ℤ
  net_http_common = record {
    get_request_method = λ r. r.method;
    get_http_request_header = λ r name. r.header_values name;
    get_http_response_status_code = λ r code error. code;
    get_error_type = λ r code error. [];
  }

  abbrev pub net_http_client_getter : HttpClientAttrsGetter to_lower Ctx NetHttpRequest ℤ
  net_http_client_getter = record {
    common = net_http_common;
    get_url_full = λ r. text_of r.url;
    get_server_address = λ r. r.host;
    get_server_port = λ r. port_of r.url;
  }

  abbrev pub net_http_client_extractor : HttpClientAttrsExtractor to_lower Ctx NetHttpRequest ℤ
  net_http_client_extractor = record {
    http_getter = net_http_client_getter;
    net_getter = net_http_network;
    attributes_filter = none;
    network_extractor = net_http_network;
  }

  module _ (itoa : ℤ → Str) (Span Time Carrier : Type 0) where
    abbrev pub client_attributes :
        AttributesExtractor Ctx Span KeyValue Time NetHttpRequest ℤ Carrier
    client_attributes = record {
      on_start = http_client_on_start to_lower Ctx NetHttpRequest ℤ net_http_client_extractor;
      on_end = http_client_on_end to_lower Ctx NetHttpRequest ℤ net_http_client_extractor;
      span_key = some http_client_key;
    }

    -- SetSpanStatusExtractor, SetSpanNameExtractor and SetSpanKindExtractor of the builder
    abbrev pub with_client_extractors :
        Builder Ctx Span KeyValue Time NetHttpRequest ℤ Carrier
        → Builder Ctx Span KeyValue Time NetHttpRequest ℤ Carrier
    with_client_extractors b = record b {
      span_status = λ span r code error.
          http_client_status itoa Ctx Span Time NetHttpRequest ℤ Carrier span code error;
      span_name = http_client_span_name to_lower Ctx NetHttpRequest ℤ net_http_client_getter;
      span_kind = λ r. client;
    }

    -- BuildNetHttpClientOtelInstrumenter, from the empty builder, with the listener that
    -- HttpClientMetrics makes
    unfoldable pub net_http_client :
        Str
        → Builder Ctx Span KeyValue Time NetHttpRequest ℤ Carrier
        → OperationListener Ctx Span KeyValue Time NetHttpRequest ℤ Carrier
        → (Ctx → Str → List (SpanOption Time) → Ctx × Span)
        → InternalInstrumenter Ctx Span KeyValue Time NetHttpRequest ℤ Carrier
    unfolding init add_attributes_extractor add_operation_listeners build_to_downstream
    net_http_client env empty metrics tracer =
        let started = init Ctx Span KeyValue Time NetHttpRequest ℤ Carrier empty in
        let measured =
          add_operation_listeners Ctx Span KeyValue Time NetHttpRequest ℤ Carrier (metrics ∷ [])
            (with_client_extractors started) in
        let described =
          add_attributes_extractor Ctx Span KeyValue Time NetHttpRequest ℤ Carrier
            (client_attributes ∷ []) measured in
        build_to_downstream Ctx Span KeyValue Time NetHttpRequest ℤ Carrier env described tracer

    module _ (enabled : Bool) (filter_url : Option RequestUrl → Bool)
        (carrier : NetHttpRequest → Carrier) (span_from_context : Ctx → Span)
        (i : InternalInstrumenter Ctx Span KeyValue Time NetHttpRequest ℤ Carrier) where
      -- Where GetUrlFull panics, what the instrumenter has done by then is dropped.
      abbrev pub with_url : {A : Type 0} → Option RequestUrl → A → Outcome A
      with_url none a = panicked
      with_url (some u) a = ok a

      -- clientOnEnter: the context in the call's data, and what the instrumenter did
      unfoldable pub client_on_enter :
          Str
          → NetHttpRequest
          → Ctx
          → Time
          → Outcome (Option Ctx × List (Action Ctx Span KeyValue Time NetHttpRequest ℤ Carrier))
      client_on_enter user_agent r parent time =
          let (ctx, log) =
            downstream_start Ctx Span KeyValue Time NetHttpRequest ℤ Carrier span_from_context
              (some carrier) i parent r time [] in
          if not enabled
          then ok (none, [])
          else if has_prefix user_agent (codes "OTel OTLP Exporter Go")
          then ok (none, [])
          else if filter_url r.url
          then ok (none, [])
          else with_url r.url (some ctx, log)

      -- clientOnExit, of the request and the status code in the response, or of neither
      unfoldable pub client_on_exit :
          Option Ctx
          → Option (NetHttpRequest × ℤ)
          → Option Str
          → Time
          → List (Action Ctx Span KeyValue Time NetHttpRequest ℤ Carrier)
      client_on_exit none res error time = []
      client_on_exit (some ctx) none error time =
          if enabled
          then do_end Ctx Span KeyValue Time NetHttpRequest ℤ Carrier span_from_context i ctx
              empty_request (pos 500) error time []
          else []
      client_on_exit (some ctx) (some (r, code)) error time =
          if enabled
          then do_end Ctx Span KeyValue Time NetHttpRequest ℤ Carrier span_from_context i ctx r code
              error time []
          else []
