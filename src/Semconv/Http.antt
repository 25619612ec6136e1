-- ===== src/Semconv/Http.antt =====
-- pkg/inst-api-semconv/instrumenter/http: the attributes and the span names of HTTP clients and
-- servers. The getters and the filters of attributes are what a rule plugs in; `span_of` is what
-- trace.SpanFromContext and its methods tell of a context: the name of its span, where that is a
-- recording span of the SDK.
use opentelemetry_go_auto_in.Base.{
  ◌≡◌, ap, true, Option, none, some, List, [], ◌∷◌, ◌++◌, arith, if◌then◌else◌, Str, codes, str_eq,
  contains, contains_refl,
}
use opentelemetry_go_auto_in.Base.Int.{ℤ}
use opentelemetry_go_auto_in.Semconv.Attribute.{
  KeyValue, string_attr, int_attr, http_request_method_key, http_response_status_code_key,
  network_protocol_name_key, network_protocol_version_key, error_type_key, url_full_key,
  server_address_key, server_port_key, user_agent_original_key, http_route_key,
}
use opentelemetry_go_auto_in.Semconv.Net.{
  NetworkAttrsGetter, UrlAttrsGetter, network_on_start, network_on_end, url_on_start, url_on_end,
}

-- h.AttributesFilter, which may be nil
abbrev pub filtered : Option (List KeyValue → List KeyValue) → List KeyValue → List KeyValue
filtered none attrs = attrs
filtered (some f) attrs = f attrs

module _ (to_lower : Str → Str) (Ctx Request Response : Type 0) where
  pub record HttpCommonAttrsGetter : Type 0 where
    pub get_request_method : Request → Str
    pub get_http_request_header : Request → Str → List Str
    pub get_http_response_status_code : Request → Response → Option Str → ℤ
    pub get_error_type : Request → Response → Option Str → Str

  pub record HttpClientAttrsGetter : Type 0 where
    pub common : HttpCommonAttrsGetter
    pub get_url_full : Request → Str
    pub get_server_address : Request → Str
    pub get_server_port : Request → ℤ

  pub record HttpServerAttrsGetter : Type 0 where
    pub common : HttpCommonAttrsGetter
    pub get_http_route : Request → Str

  abbrev Network : Type 0
  Network = NetworkAttrsGetter to_lower Ctx Request Response

  -- The methods of HttpCommonAttrsExtractor
  unfoldable pub http_common_on_start :
      HttpCommonAttrsGetter → List KeyValue → Ctx → Request → List KeyValue × Ctx
  http_common_on_start g attrs ctx request =
      (attrs ++ string_attr http_request_method_key (g.get_request_method request) ∷ [], ctx)

  unfoldable pub http_common_on_end :
      HttpCommonAttrsGetter
      → NetworkAttrsGetter to_lower Ctx Request Response
      → List KeyValue
      → Ctx
      → Request
      → Response
      → Option Str
      → List KeyValue × Ctx
  http_common_on_end g n attrs ctx request response error =
      let ended =
        attrs
        ++ (int_attr http_response_status_code_key
              (g.get_http_response_status_code request response error)
            ∷ string_attr network_protocol_name_key (n.get_network_protocol_name request response)
            ∷ string_attr network_protocol_version_key
                (n.get_network_protocol_version request response)
            ∷ []) in
      let error_type = g.get_error_type request response error in
      let failed = ended ++ string_attr error_type_key error_type ∷ [] in
      (if str_eq error_type [] then ended else failed, ctx)

  pub record HttpClientAttrsExtractor : Type 0 where
    pub http_getter : HttpClientAttrsGetter
    pub net_getter : NetworkAttrsGetter to_lower Ctx Request Response
    pub attributes_filter : Option (List KeyValue → List KeyValue)
    pub network_extractor : NetworkAttrsGetter to_lower Ctx Request Response

  unfoldable pub http_client_on_start :
      HttpClientAttrsExtractor → List KeyValue → Ctx → Request → List KeyValue × Ctx
  unfolding http_common_on_start
  http_client_on_start h attrs ctx request =
      let (based, ctx1) = http_common_on_start h.http_getter.common attrs ctx request in
      let (networked, ctx2) =
        network_on_start to_lower Ctx Request Response h.network_extractor based ctx1 request in
      let located =
        networked
        ++ (string_attr url_full_key (h.http_getter.get_url_full request)
            ∷ string_attr server_address_key (h.http_getter.get_server_address request)
            ∷ int_attr server_port_key (h.http_getter.get_server_port request)
            ∷ []) in
      (filtered h.attributes_filter located, ctx2)

  unfoldable pub http_client_on_end :
      HttpClientAttrsExtractor
      → List KeyValue
      → Ctx
      → Request
      → Response
      → Option Str
      → List KeyValue × Ctx
  unfolding http_common_on_end
  http_client_on_end h attrs ctx request response error =
      let (based, ctx1) =
        http_common_on_end h.http_getter.common h.net_getter attrs ctx request response error in
      let (networked, ctx2) =
        network_on_end to_lower Ctx Request Response h.network_extractor based ctx1 request response
          error in
      (filtered h.attributes_filter networked, ctx2)

  pub record HttpServerAttrsExtractor : Type 0 where
    pub http_getter : HttpServerAttrsGetter
    pub net_getter : NetworkAttrsGetter to_lower Ctx Request Response
    pub attributes_filter : Option (List KeyValue → List KeyValue)
    pub network_extractor : NetworkAttrsGetter to_lower Ctx Request Response
    pub url_extractor : UrlAttrsGetter to_lower Ctx Request Response

  -- `userAgent[0]`, if there is one
  abbrev first_user_agent : List Str → Str
  first_user_agent [] = []
  first_user_agent (agent ∷ agents) = agent

  unfoldable pub http_server_on_start :
      HttpServerAttrsExtractor → List KeyValue → Ctx → Request → List KeyValue × Ctx
  unfolding http_common_on_start
  http_server_on_start h attrs ctx request =
      let (based, ctx1) = http_common_on_start h.http_getter.common attrs ctx request in
      let (located, ctx2) =
        url_on_start to_lower Ctx Request Response h.url_extractor based ctx1 request in
      let agents = h.http_getter.common.get_http_request_header request (codes "User-Agent") in
      let named = located ++ string_attr user_agent_original_key (first_user_agent agents) ∷ [] in
      (filtered h.attributes_filter named, ctx2)

  -- The route of the request, unless the name of the local root span does not hold it.
  unfoldable pub recorded_route : Str → Str → Str
  recorded_route name route = if contains name route then route else name

  contains-recorded_route : (name route : Str) → contains name (recorded_route name route) ≡ true
  unfolding recorded_route
  contains-recorded_route name route = ground (arith, contains_refl name)

  -- The attribute of a span of that name, where it records
  abbrev pub route_attrs : Option Str → Str → List KeyValue
  route_attrs none route = []
  route_attrs (some name) route = string_attr http_route_key (recorded_route name route) ∷ []

  module _ (span_of : Ctx → Option Str) where
    unfoldable pub http_server_on_end :
        HttpServerAttrsExtractor
        → List KeyValue
        → Ctx
        → Request
        → Response
        → Option Str
        → List KeyValue × Ctx
    unfolding http_common_on_end
    http_server_on_end h attrs ctx request response error =
        let (based, ctx1) =
          http_common_on_end h.http_getter.common h.net_getter attrs ctx request response error in
        let (located, ctx2) =
          url_on_end to_lower Ctx Request Response h.url_extractor based ctx1 request response
            error in
        let (networked, ctx3) =
          network_on_end to_lower Ctx Request Response h.network_extractor located ctx2 request
            response error in
        let route = route_attrs (span_of ctx3) (h.http_getter.get_http_route request) in
        (filtered h.attributes_filter (networked ++ route), ctx3)

  -- The span names: Extract of HttpClientSpanNameExtractor and HttpServerSpanNameExtractor
  unfoldable pub http_client_span_name : HttpClientAttrsGetter → Request → Str
  http_client_span_name g request =
      let method = g.common.get_request_method request in
      if str_eq method [] then codes "HTTP" else method

  unfoldable pub http_server_span_name : HttpServerAttrsGetter → Request → Str
  http_server_span_name g request =
      let method = g.common.get_request_method request in
      let route = g.get_http_route request in
      if str_eq method []
      then codes "HTTP"
      else if str_eq route []
      then method
      else method ++ codes " " ++ route

  -- For a request whose context has a recording span, the attributes that an HTTP server's span
  -- gets at its end are, before the filter, some attributes and behind them one http.route, whose
  -- value is a part of the span's name; the context is returned as it is.
  pub http_server_on_end-route :
      (span_of : Ctx → Option Str) (h : HttpServerAttrsExtractor) (attrs : List KeyValue)
      (ctx : Ctx) (request : Request) (response : Response) (error : Option Str) (name : Str)
      → span_of ctx ≡ some name
      → (front : List KeyValue) × (route : Str) × (http_server_on_end span_of h attrs ctx request
            response error
          ≡ (filtered h.attributes_filter (front ++ string_attr http_route_key route ∷ []), ctx))
        × (contains name route ≡ true)
  unfolding http_server_on_end http_common_on_end url_on_end network_on_end
  http_server_on_end-route span_of h attrs ctx request response error name e =
      let route = recorded_route name (h.http_getter.get_http_route request) in
      let based =
        http_common_on_end h.http_getter.common h.net_getter attrs ctx request response error in
      let networked =
        network_on_end to_lower Ctx Request Response h.network_extractor based.0 ctx request
          response error in
      (
        networked.0,
        route,
        ap
            (λ o. (
              filtered h.attributes_filter
                  (networked.0 ++ route_attrs o (h.http_getter.get_http_route request)),
              ctx,
            ))
            e,
        contains-recorded_route name (h.http_getter.get_http_route request),
      )
